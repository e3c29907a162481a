-- ===== src/Accounts/Admin.antt =====
-- `UserManagementService` of stockanalyzer/user_management.py.
use stock_graph_analyzer.Base.{
  ℕ, suc, Bool, true, false, not, ◌&&◌, ◌||◌, Option, some, none, List, [], ◌∷◌, ◌++◌,
  if◌then◌else◌, Text, text_eq, leb, any, filter, length,
}
use stock_graph_analyzer.Accounts.{
  User, State, AuditAction, user_created, user_enabled, user_disabled, user_password_reset, Hasher,
  Outcome, done, refused, admin_required, bad_input, username_exists, user_not_found, last_admin,
  own_account, normal_name, is_nonempty, is_short, has_name, get_user, is_active_admin, write_user,
  new_user, add_user,
}
use stock_graph_analyzer.Accounts.Auth.{set_password, insert_user}

-- `_audit`
abbrev pub add_audit : Text → Text → AuditAction → State → State
add_audit actor_id target_id action s = record s {
  audit =
      s.audit
      ++ (record { actor_user_id = actor_id; target_user_id = target_id; action = action } ∷ []);
}

-- `_actor`
abbrev pub is_allowed : Option User → Bool
is_allowed none = false
is_allowed (some actor) = is_active_admin actor

pub data Listing : Type 0 where
  listing : List User → Listing
  not_listed : Listing

-- the order by username is the database's
unfoldable pub list_users : (List User → List User) → Text → State → Listing
list_users by_username actor_id s =
    if is_allowed (get_user actor_id s) then listing (by_username s.users) else not_listed

unfoldable pub create_user : Hasher → Text → ℕ → Text → Text → Text → State → Outcome
create_user hasher id now actor_id username password s =
    let name = normal_name username in
    let u = new_user id name (hasher.hash password) false true now in
    if not (is_nonempty name) || is_short password
    then refused s bad_input
    else if not (is_allowed (get_user actor_id s))
    then refused s admin_required
    else if any (has_name name) s.users
    then refused s username_exists
    else insert_user u s (add_audit actor_id id user_created (add_user u s))

-- `select(func.count()) ... is_active, is_admin`
abbrev pub active_admins : State → ℕ
active_admins s = length (filter is_active_admin s.users)

abbrev pub action_for : Bool → AuditAction
action_for true = user_enabled
action_for false = user_disabled

abbrev pub set_found : ℕ → Text → Bool → State → Option User → Outcome
set_found now actor_id active s none = refused s user_not_found
set_found now actor_id active s (some target) =
    let v : User = record target {
      is_active = active;
      session_revision = suc target.session_revision;
      updated_at = now;
    } in
    if not active && target.is_admin && target.is_active && leb (active_admins s) 1
    then refused s last_admin
    else if not active && text_eq actor_id target.id
    then refused s own_account
    else done (add_audit actor_id target.id (action_for active) (write_user v s)) v

unfoldable pub set_active : ℕ → Text → Text → Bool → State → Outcome
set_active now actor_id target_id active s =
    if not (is_allowed (get_user actor_id s))
    then refused s admin_required
    else set_found now actor_id active s (get_user target_id s)

abbrev pub reset_found : Hasher → ℕ → Text → Text → State → Option User → Outcome
reset_found hasher now actor_id password s none = refused s user_not_found
reset_found hasher now actor_id password s (some target) =
    let v = set_password hasher password true now target in
    done (add_audit actor_id target.id user_password_reset (write_user v s)) v

unfoldable pub reset_password : Hasher → ℕ → Text → Text → Text → State → Outcome
reset_password hasher now actor_id target_id password s =
    if is_short password
    then refused s bad_input
    else if not (is_allowed (get_user actor_id s))
    then refused s admin_required
    else reset_found hasher now actor_id password s (get_user target_id s)

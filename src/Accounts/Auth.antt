-- ===== src/Accounts/Auth.antt =====
-- `AuthService` of stockanalyzer/auth.py.
use stock_graph_analyzer.Base.{
  ℕ, suc, ◌+◌, ◌*◌, Bool, true, false, not, ◌||◌, Option, some, none, if◌then◌else◌, Text, ltb, leb,
  ◌==◌, find, any, is_some,
}
use stock_graph_analyzer.Table.{has_id}
use stock_graph_analyzer.Accounts.{
  User, State, Hasher, Outcome, done, refused, invalid_login, bad_input, username_exists,
  duplicate_id, normal_name, is_nonempty, is_short, has_name, get_user, write_user, new_user,
  add_user, user_id,
}

pub record AuthService : Type 0 where
  pub max_failures : ℕ
  pub lockout_minutes : ℕ
  pub hasher : Hasher

-- `AuthService()`
abbrev pub auth_service : Hasher → AuthService
auth_service hasher = record { max_failures = 5; lockout_minutes = 15; hasher = hasher }

-- the insertion of a row, which the primary key may refuse
abbrev pub insert_user : User → State → State → Outcome
insert_user u s after = if has_id user_id u.id s.users then refused s duplicate_id else done after u

-- `id` is the new row's uuid
unfoldable pub create_user : AuthService → Text → ℕ → Text → Text → Bool → State → Outcome
create_user service id now username password is_admin s =
    let name = normal_name username in
    let u = new_user id name (service.hasher.hash password) is_admin false now in
    if not (is_nonempty name) || is_short password
    then refused s bad_input
    else if any (has_name name) s.users
    then refused s username_exists
    else insert_user u s (add_user u s)

abbrev pub revision_differs : Option ℕ → User → Bool
revision_differs none u = false
revision_differs (some revision) u = not (u.session_revision == revision)

abbrev pub session_of : Option ℕ → Option User → Option User
session_of revision none = none
session_of revision (some u) =
    if not u.is_active then none else if revision_differs revision u then none else some u

unfoldable pub session_user : Text → Option ℕ → State → Option User
session_user id revision s = session_of revision (get_user id s)

-- what a browser's session holds as its revision
pub data Revision : Type 0 where
  integer : ℕ → Revision
  other_value : Revision

unfoldable pub browser_session_user : Text → Revision → State → Option User
unfolding session_user
browser_session_user id (integer revision) s = session_user id (some revision) s
browser_session_user id other_value s = none

abbrev pub set_password : Hasher → Text → Bool → ℕ → User → User
set_password hasher password must_change now u = record u {
  password_hash = hasher.hash password;
  must_change_password = must_change;
  failed_login_count = 0;
  locked_until = none;
  session_revision = suc u.session_revision;
  updated_at = now;
}

abbrev pub change_found : AuthService → ℕ → Text → Text → State → Option User → Outcome
change_found service now current new s none = refused s invalid_login
change_found service now current new s (some u) =
    let v = set_password service.hasher new false now u in
    if not u.is_active
    then refused s invalid_login
    else if not (service.hasher.verify u.password_hash current)
    then refused s invalid_login
    else done (write_user v s) v

unfoldable pub change_password : AuthService → ℕ → Text → Text → Text → State → Outcome
change_password service now id current new s =
    if is_short new
    then refused s bad_input
    else change_found service now current new s (get_user id s)

-- `locked is not None and locked > now`
abbrev pub is_locked : ℕ → User → Bool
is_locked now u = elim u.locked_until [ none ↦ false | some until ↦ ltb now until ]

-- a lock that is over is lifted, with its count
abbrev pub lift_lock : User → User
lift_lock u =
    if is_some u.locked_until then record u { locked_until = none; failed_login_count = 0 } else u

abbrev pub lock_end : AuthService → ℕ → ℕ
lock_end service now = now + service.lockout_minutes * 60_000_000

abbrev pub fail_login : AuthService → ℕ → User → User
fail_login service now u = record u {
  failed_login_count = suc u.failed_login_count;
  locked_until =
      (if leb service.max_failures (suc u.failed_login_count)
        then some (lock_end service now)
        else u.locked_until);
  updated_at = now;
}

abbrev pub pass_login : AuthService → ℕ → Text → User → User
pass_login service now password u = record u {
  failed_login_count = 0;
  locked_until = none;
  last_login_at = some now;
  updated_at = now;
  password_hash =
      (if service.hasher.check_needs_rehash u.password_hash
        then service.hasher.hash password
        else u.password_hash);
}

-- The outcome for the user's row: nothing is written to a row that is inactive or locked, and a wrong
-- password is counted before the error is raised.
unfoldable pub login_row : AuthService → ℕ → Text → User → User × Bool
login_row service now password u =
    if not u.is_active
    then (u, false)
    else if is_locked now u
    then (u, false)
    else if service.hasher.verify u.password_hash password
    then (pass_login service now password (lift_lock u), true)
    else (fail_login service now (lift_lock u), false)

abbrev pub login_found : AuthService → ℕ → Text → State → Option User → Outcome
login_found service now password s none = refused s invalid_login
login_found service now password s (some u) =
    let (v, ok) = login_row service now password u in
    if ok then done (write_user v s) v else refused (write_user v s) invalid_login

unfoldable pub authenticate : AuthService → ℕ → Text → Text → State → Outcome
unfolding login_row
authenticate service now username password s =
    login_found service now password s (find (has_name (normal_name username)) s.users)

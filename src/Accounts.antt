-- ===== src/Accounts.antt =====
-- User accounts: the rows of `users` and `admin_audit_events` (stockanalyzer/db/models.py), and what
-- stockanalyzer/auth.py and stockanalyzer/user_management.py share. A session that raises is rolled
-- back (stockanalyzer/db/session.py), so a refused call leaves the state as it was.
pub mod Auth
pub mod Admin
pub mod Sound
pub mod Calls
pub mod Lockout
pub mod Revocation
pub mod AuditLog
pub mod Tests
use stock_graph_analyzer.Base.{
  ℕ, suc, ◌+◌, Bool, true, false, not, ◌&&◌, ◌||◌, Option, some, none, List, [], ◌∷◌, ◌++◌,
  if◌then◌else◌, Text, text_eq, strip, lower, length, ltb, find, filter, any,
}
use stock_graph_analyzer.Table.{update, has_id}

-- times are microseconds since the epoch
pub record User : Type 0 where
  pub id : Text
  pub username : Text
  pub password_hash : Text
  pub is_active : Bool
  pub is_admin : Bool
  pub session_revision : ℕ
  pub must_change_password : Bool
  pub failed_login_count : ℕ
  pub locked_until : Option ℕ
  pub last_login_at : Option ℕ
  pub created_at : ℕ
  pub updated_at : ℕ

pub data AuditAction : Type 0 where
  user_created user_enabled user_disabled user_password_reset : AuditAction

pub record AuditEvent : Type 0 where
  pub actor_user_id : Text
  pub target_user_id : Text
  pub action : AuditAction

pub record State : Type 0 where
  pub users : List User
  pub audit : List AuditEvent

-- `argon2.PasswordHasher`: a hash of a password, whether a hash belongs to a password (false also
-- where it raises), and whether a hash is out of date.
pub record Hasher : Type 0 where
  pub hash : Text → Text
  pub verify : Text → Text → Bool
  pub check_needs_rehash : Text → Bool

-- `AuthError`, `AdminAuthorizationError`, and the messages of `ValueError`; `duplicate_id` is the
-- database's refusal of a primary key
pub data Error : Type 0 where
  invalid_login admin_required bad_input username_exists user_not_found last_admin own_account
        duplicate_id :
      Error

-- the state afterwards, with a user or an error
pub data Outcome : Type 0 where
  done : State → User → Outcome
  refused : State → Error → Outcome

abbrev pub state_of : Outcome → State
state_of (done s u) = s
state_of (refused s e) = s

abbrev pub is_done : Outcome → Bool
is_done (done s u) = true
is_done (refused s e) = false

abbrev pub user_id : User → Text
user_id u = u.id

abbrev pub normal_name : Text → Text
normal_name username = lower (strip username)

abbrev pub is_nonempty : Text → Bool
is_nonempty [] = false
is_nonempty (_ ∷ _) = true

-- `len(password) < 12`
abbrev pub is_short : Text → Bool
is_short password = ltb (length password) 12

abbrev pub has_name : Text → User → Bool
has_name username u = text_eq u.username username

-- `session.get(User, id)`
abbrev pub get_user : Text → State → Option User
get_user id s = find (λ u. text_eq u.id id) s.users

abbrev pub is_active_admin : User → Bool
is_active_admin u = u.is_active && u.is_admin

abbrev pub write_user : User → State → State
write_user u s = record s { users = update user_id u.id (λ _. u) s.users }

abbrev pub new_user : Text → Text → Text → Bool → Bool → ℕ → User
new_user id username password_hash is_admin must_change now = record {
  id = id;
  username = username;
  password_hash = password_hash;
  is_active = true;
  is_admin = is_admin;
  session_revision = 0;
  must_change_password = must_change;
  failed_login_count = 0;
  locked_until = none;
  last_login_at = none;
  created_at = now;
  updated_at = now;
}

abbrev pub add_user : User → State → State
add_user u s = record s { users = s.users ++ (u ∷ []) }

-- ===== src/Accounts/AuditLog.antt =====
-- The audit log of `UserManagementService` (stockanalyzer/user_management.py).
use stock_graph_analyzer.Base.{
  ◌≡◌, refl, ℕ, Bool, true, false, not, ◌&&◌, ◌||◌, Option, some, none, [], ◌∷◌, ◌++◌, Text,
  text_eq, arith, Bool-cases, inl, inr, leb, find, any,
}
use stock_graph_analyzer.Table.{has_id}
use stock_graph_analyzer.Accounts.{
  state_of, Hasher, normal_name, new_user, add_user, is_nonempty, has_name, bad_input,
  username_exists, duplicate_id, admin_required, user_not_found, last_admin, own_account, User,
  State, Outcome, Error, done, refused, get_user, write_user, user_id, is_short, AuditAction,
  user_created, user_password_reset,
}
use stock_graph_analyzer.Accounts.Auth.{
  create_user, login_found, authenticate, AuthService, change_password, change_found, set_password,
}
use stock_graph_analyzer.Accounts.Admin
use stock_graph_analyzer.Accounts.Admin.{
  set_active, set_found, reset_password, reset_found, is_allowed, add_audit, active_admins,
  action_for,
}
use stock_graph_analyzer.Accounts.Sound.{switched}
use stock_graph_analyzer.Accounts.Calls.{
  Call, registers, logs_in, changes, creates, sets_active, resets, step,
}

-- the audit log's row for an administrator's call: who acts, and what is recorded
abbrev pub audit_of : Call → Option (Text × AuditAction)
audit_of (creates id now actor username password) = some (actor, user_created)
audit_of (sets_active now actor target active) = some (actor, action_for active)
audit_of (resets now actor target password) = some (actor, user_password_reset)
audit_of (registers id now username password is_admin) = none
audit_of (logs_in now username password) = none
audit_of (changes now id current new) = none

-- Done by an active administrator and recorded once, or refused without a trace.
pub data IsAudited (actor : Text) (action : AuditAction) (s : State) : Outcome → Type 0 where
  recorded :
      (t : State) (v : User)
      → is_allowed (get_user actor s) ≡ true
      → t.audit
        ≡ s.audit ++ (record { actor_user_id = actor; target_user_id = v.id; action = action } ∷ [])
      → IsAudited actor action s (done t v)
  untouched : (e : Error) → IsAudited actor action s (refused s e)

create-IsAudited :
    (service : AuthService) (id : Text) (now : ℕ) (actor username password : Text) (s : State)
    → IsAudited actor user_created s
        (Admin.create_user service.hasher id now actor username password s)
unfolding Admin.create_user
create-IsAudited service id now actor username password s =
    let name = normal_name username in
    let u = new_user id name (service.hasher.hash password) false true now in
    elim (Bool-cases (not (is_nonempty name) || is_short password)) [
      | inl b ↦ rw b (untouched bad_input)
      | inr b ↦ elim (Bool-cases (is_allowed (get_user actor s))) [
        | inl c ↦ elim (Bool-cases (any (has_name name) s.users)) [
          | inl e ↦ rw (b, c, e) (untouched username_exists)
          | inr e ↦ elim (Bool-cases (has_id user_id id s.users)) [
            | inl d ↦ rw (b, c, e, d) (untouched duplicate_id)
            | inr d ↦
                rw (b, c, e, d) (recorded (add_audit actor id user_created (add_user u s)) u c refl)
          ]
        ]
        | inr c ↦ rw (b, c) (untouched admin_required)
      ]
    ]

set_found-IsAudited :
    (now : ℕ) (actor : Text) (active : Bool) (s : State) (o : Option User)
    → is_allowed (get_user actor s) ≡ true
    → IsAudited actor (action_for active) s (set_found now actor active s o)
set_found-IsAudited now actor active s none a = untouched user_not_found
set_found-IsAudited now actor active s (some u) a =
    elim (Bool-cases (not active && u.is_admin && u.is_active && leb (active_admins s) 1)) [
      | inl b ↦ rw b (untouched last_admin)
      | inr b ↦ elim (Bool-cases (not active && text_eq actor u.id)) [
        | inl c ↦ rw (b, c) (untouched own_account)
        | inr c ↦
            rw (b, c)
              (recorded
                (add_audit actor u.id (action_for active) (write_user (switched now active u) s))
                (switched now active u) a refl)
      ]
    ]

reset_found-IsAudited :
    (hasher : Hasher) (now : ℕ) (actor password : Text) (s : State) (o : Option User)
    → is_allowed (get_user actor s) ≡ true
    → IsAudited actor user_password_reset s (reset_found hasher now actor password s o)
reset_found-IsAudited hasher now actor password s none a = untouched user_not_found
reset_found-IsAudited hasher now actor password s (some u) a =
    let v = set_password hasher password true now u in
    recorded (add_audit actor u.id user_password_reset (write_user v s)) v a refl

allowed_set-IsAudited :
    (now : ℕ) (actor target : Text) (active : Bool) (s : State)
    → IsAudited actor (action_for active) s (set_active now actor target active s)
unfolding set_active
allowed_set-IsAudited now actor target active s =
    elim (Bool-cases (is_allowed (get_user actor s))) [
      | inl a ↦ rw a (set_found-IsAudited now actor active s (get_user target s) a)
      | inr a ↦ rw a (untouched admin_required)
    ]

reset-IsAudited :
    (hasher : Hasher) (now : ℕ) (actor target password : Text) (s : State)
    → IsAudited actor user_password_reset s (reset_password hasher now actor target password s)
unfolding reset_password
reset-IsAudited hasher now actor target password s = elim (Bool-cases (is_short password)) [
  | inl b ↦ rw b (untouched bad_input)
  | inr b ↦ elim (Bool-cases (is_allowed (get_user actor s))) [
    | inl a ↦ rw (b, a) (reset_found-IsAudited hasher now actor password s (get_user target s) a)
    | inr a ↦ rw (b, a) (untouched admin_required)
  ]
]

-- the log after a call that is not an administrator's
register-audit :
    (service : AuthService) (id : Text) (now : ℕ) (username password : Text) (is_admin : Bool)
    (s : State)
    → (state_of (create_user service id now username password is_admin s)).audit ≡ s.audit
unfolding create_user
register-audit service id now username password is_admin s = ground arith

login-audit :
    (service : AuthService) (now : ℕ) (password : Text) (s : State) (o : Option User)
    → (state_of (login_found service now password s o)).audit ≡ s.audit
login-audit service now password s none = refl
login-audit service now password s (some u) = ground arith

change-audit :
    (service : AuthService) (now : ℕ) (current new : Text) (s : State) (o : Option User)
    → (state_of (change_found service now current new s o)).audit ≡ s.audit
change-audit service now current new s none = refl
change-audit service now current new s (some u) = ground arith

abbrev pub IsLogged : Option (Text × AuditAction) → State → Outcome → Type 0
IsLogged none s o = (state_of o).audit ≡ s.audit
IsLogged (some (actor, action)) s o = IsAudited actor action s o

-- An administrator's call is either done by an active administrator and recorded with one row in
-- the audit log, with the actor, the account and the action, or it is refused and changes nothing. The
-- calls of the other service leave the log as it is.
pub step-IsLogged :
    (service : AuthService) (c : Call) (s : State) → IsLogged (audit_of c) s (step service c s)
unfolding step authenticate change_password
step-IsLogged service (creates id now by username password) s =
    create-IsAudited service id now by username password s
step-IsLogged service (sets_active now by target active) s =
    allowed_set-IsAudited now by target active s
step-IsLogged service (resets now by target password) s =
    reset-IsAudited service.hasher now by target password s
step-IsLogged service (registers id now username password is_admin) s =
    register-audit service id now username password is_admin s
step-IsLogged service (logs_in now username password) s =
    login-audit service now password s (find (has_name (normal_name username)) s.users)
step-IsLogged service (changes now id current new) s = elim (Bool-cases (is_short new)) [
  | inl b ↦ rw b refl
  | inr b ↦ rw b (change-audit service now current new s (get_user id s))
]

-- ===== src/Accounts/Calls.antt =====
-- What every sequence of account calls keeps (stockanalyzer/auth.py, stockanalyzer/user_management.py).
use stock_graph_analyzer.Base.{inl, inr, refl, ℕ, Bool, not, List, [], ◌∷◌, Text, Bool-cases}
use stock_graph_analyzer.Accounts.{State, Outcome, state_of, get_user, normal_name, is_short}
use stock_graph_analyzer.Accounts.Auth.{AuthService, create_user, change_password, authenticate}
use stock_graph_analyzer.Accounts.Admin
use stock_graph_analyzer.Accounts.Admin.{
  set_active, set_found, reset_password, reset_found, is_allowed, active_admins, add_audit,
}
use stock_graph_analyzer.Accounts.Sound.{
  IsSound, login_found-IsSound, change_found-IsSound, reset_found-IsSound, register-IsSound,
  create-IsSound, set_active-IsSound,
}

-- A call of one of the two services, with its time and, for a new row, its uuid.
pub data Call : Type 0 where
  registers : Text → ℕ → Text → Text → Bool → Call
  logs_in : ℕ → Text → Text → Call
  changes : ℕ → Text → Text → Text → Call
  creates : Text → ℕ → Text → Text → Text → Call
  sets_active : ℕ → Text → Text → Bool → Call
  resets : ℕ → Text → Text → Text → Call

unfoldable pub step : AuthService → Call → State → Outcome
unfolding create_user authenticate change_password Admin.create_user set_active reset_password
step service (registers id now username password is_admin) =
    create_user service id now username password is_admin
step service (logs_in now username password) = authenticate service now username password
step service (changes now id current new) = change_password service now id current new
step service (creates id now actor username password) =
    Admin.create_user service.hasher id now actor username password
step service (sets_active now actor target active) = set_active now actor target active
step service (resets now actor target password) =
    reset_password service.hasher now actor target password

unfoldable pub run : AuthService → List Call → State → State
unfolding step
run service [] s = s
run service (c ∷ cs) s = run service cs (state_of (step service c s))

step-IsSound :
    (service : AuthService) (c : Call) (s : State)
    → IsSound s
    → IsSound (state_of (step service c s))
unfolding step authenticate change_password reset_password
step-IsSound service (registers id now username password is_admin) s h =
    register-IsSound service id now username password is_admin s h
step-IsSound service (logs_in now username password) s h =
    login_found-IsSound service now (normal_name username) password s _ refl h
step-IsSound service (changes now id current new) s h = elim (Bool-cases (is_short new)) [
  | inl e ↦ rw e h
  | inr e ↦ rw e (change_found-IsSound service now id current new s (get_user id s) refl h)
]
step-IsSound service (creates id now actor username password) s h =
    create-IsSound service id now actor username password s h
step-IsSound service (sets_active now actor target active) s h =
    set_active-IsSound now actor target active s h
step-IsSound service (resets now actor target password) s h =
    elim (Bool-cases (is_short password)) [
      | inl e ↦ rw e h
      | inr e ↦ elim (Bool-cases (not (is_allowed (get_user actor s)))) [
        | inl b ↦ rw (e, b) h
        | inr b ↦
            rw (e, b)
              (reset_found-IsSound service now target actor password s (get_user target s) refl h)
      ]
    ]

-- From a table with distinct ids and usernames and an active administrator, any calls of the two
-- services lead to such a table. A lock after wrong passwords is not considered here.
pub run-IsSound :
    (service : AuthService) (calls : List Call) (s : State)
    → IsSound s
    → IsSound (run service calls s)
unfolding run
run-IsSound service [] s h = h
run-IsSound service (c ∷ calls) s h =
    run-IsSound service calls (state_of (step service c s)) (step-IsSound service c s h)

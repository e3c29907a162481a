-- ===== src/Accounts/Tests.antt =====
-- Accounts at concrete rows (stockanalyzer/auth.py, stockanalyzer/user_management.py).
use stock_graph_analyzer.Base.{
  arith, ◌≡◌, refl, ℕ, true, false, none, some, List, [], ◌∷◌, Text, codes, text_eq, strip, lower,
}
use stock_graph_analyzer.Table.{update}
use stock_graph_analyzer.Accounts.{
  User, State, Hasher, is_done, state_of, user_password_reset, new_user,
}
use stock_graph_analyzer.Accounts.Auth.{
  auth_service, AuthService, authenticate, login_row, session_user,
}
use stock_graph_analyzer.Accounts.Admin.{reset_password}
use stock_graph_analyzer.Accounts.Sound.{IsSound}
use stock_graph_analyzer.Accounts.Calls.{
  Call, logs_in, creates, sets_active, resets, step, run, run-IsSound,
}
use stock_graph_analyzer.Accounts.Lockout.{Attempts, attempts, attempts-lockout}
use stock_graph_analyzer.Accounts.Revocation.{step-done_sessions}
use stock_graph_analyzer.Accounts.AuditLog.{IsAudited, step-IsLogged}

-- a hasher that keeps the password and marks it
abbrev marking : Hasher
marking = record {
  hash = λ password. 36 ∷ password;
  verify = λ hash password. text_eq hash (36 ∷ password);
  check_needs_rehash = λ hash. false;
}

abbrev service : AuthService
service = auth_service marking

abbrev pass_phrase : Text
pass_phrase = codes "correct horse"

abbrev ann : User
ann = new_user (codes "u1") (codes "ann") (36 ∷ pass_phrase) true false 0

abbrev bob : User
bob = new_user (codes "u2") (codes "bob") (36 ∷ pass_phrase) false false 0

abbrev start : State
start = record { users = ann ∷ bob ∷ []; audit = [] }

start-IsSound : IsSound start
unfolding text_eq
start-IsSound = record { ids = (refl, (refl, tt)); names = (refl, (refl, tt)); admin = refl }

logs_in_by_name : is_done (authenticate service 10 (codes " Ann ") pass_phrase start) ≡ true
unfolding authenticate login_row text_eq strip lower
logs_in_by_name = refl

abbrev calls : List Call
calls =
    creates (codes "u3") 5 (codes "u1") (codes "Cid ") pass_phrase
    ∷ sets_active 6 (codes "u1") (codes "u1") false
    ∷ sets_active 7 (codes "u1") (codes "u2") false
    ∷ logs_in 8 (codes "bob") pass_phrase
    ∷ []

run-IsSound_example : IsSound (run service calls start)
run-IsSound_example = run-IsSound service calls start start-IsSound

abbrev wrong : ℕ → ℕ × Text
wrong now = (now, codes "guess")

abbrev guesses : Attempts
guesses = wrong 2 ∷ wrong 3 ∷ wrong 4 ∷ wrong 5 ∷ []

attempts-lockout_example :
    login_row service 1000 pass_phrase (attempts service ann (wrong 1 ∷ guesses))
    ≡ (attempts service ann (wrong 1 ∷ guesses), false)
unfolding text_eq
attempts-lockout_example =
    attempts-lockout service ann 1 (codes "guess") guesses 1000 pass_phrase (refl, refl) refl
      (refl, (refl, (refl, (refl, (refl, tt))))) (omega arith)

abbrev reset_call : Call
reset_call = resets 9 (codes "u1") (codes "u2") (codes "another phrase")

abbrev after_reset : State
after_reset = state_of (step service reset_call start)

abbrev new_bob : User
new_bob = record bob {
  password_hash = 36 ∷ codes "another phrase";
  must_change_password = true;
  session_revision = 1;
  updated_at = 9;
}

step-done_sessions_example :
    (session_user (codes "u2") (some 0) after_reset ≡ none)
    × (session_user (codes "u1") none after_reset ≡ session_user (codes "u1") none start)
unfolding text_eq step reset_password update
step-done_sessions_example =
    step-done_sessions service reset_call start after_reset (codes "u2") bob new_bob (codes "u1")
      none refl refl refl refl

step-IsLogged_example :
    IsAudited (codes "u1") user_password_reset start (step service reset_call start)
step-IsLogged_example = step-IsLogged service reset_call start

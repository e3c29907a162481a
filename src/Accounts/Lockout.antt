-- ===== src/Accounts/Lockout.antt =====
-- Repeated wrong passwords: the lockout of `AuthService.authenticate` (stockanalyzer/auth.py).
use mathlib.Core.Path.{subst}
use stock_graph_analyzer.Base.{
  sym, ◌≡◌, refl, ℕ, ◌+◌, ◌<◌, true, false, some, none, List, [], ◌∷◌, Text, arith, length, All,
}
use stock_graph_analyzer.Accounts.{User}
use stock_graph_analyzer.Accounts.Auth.{AuthService, login_row, lock_end, fail_login}

-- attempts at one account: the time and the password
abbrev pub Attempts : Type 0
Attempts = List (ℕ × Text)

pub attempts : AuthService → User → Attempts → User
attempts service u [] = u
attempts service u ((now, password) ∷ rest) =
    attempts service (login_row service now password u).0 rest

abbrev pub IsWrong : AuthService → Text → ℕ × Text → Type 0
IsWrong service password_hash a = service.hasher.verify password_hash a.1 ≡ false

abbrev pub last_time : ℕ → Attempts → ℕ
last_time now [] = now
last_time now ((later, _) ∷ rest) = last_time later rest

-- active, with no lock
abbrev pub IsOpen : User → Type 0
IsOpen u = (u.is_active ≡ true) × (u.locked_until ≡ none)

login_row_wrong :
    (service : AuthService) (now : ℕ) (password : Text) (u : User)
    → IsOpen u
    → service.hasher.verify u.password_hash password ≡ false
    → (login_row service now password u).0 ≡ fail_login service now u
unfolding login_row
login_row_wrong service now password u (a, l) w = rw (a, l, w) refl

attempts_lock :
    (service : AuthService) (u : User) (now : ℕ) (password : Text) (rest : Attempts)
    → IsOpen u
    → u.failed_login_count + length ((now, password) ∷ rest) ≡ service.max_failures
    → All (IsWrong service u.password_hash) ((now, password) ∷ rest)
    → (attempts service u ((now, password) ∷ rest)).locked_until
      ≡ some (lock_end service (last_time now rest))
unfolding attempts
attempts_lock service u now password [] o n (w, ws) =
    rw (login_row_wrong service now password u o w) (ground arith)
attempts_lock service u now password ((later, other) ∷ rest) o n (w, ws) =
    subst
      (λ x.
        (attempts service x ((later, other) ∷ rest)).locked_until
        ≡ some (lock_end service (last_time later rest)))
      (sym (login_row_wrong service now password u o w))
      (attempts_lock service (fail_login service now u) later other rest (ground arith)
        (ground arith) (ground arith))

login_row_locked :
    (service : AuthService) (now : ℕ) (password : Text) (u : User) (until : ℕ)
    → u.locked_until ≡ some until
    → now < until
    → login_row service now password u ≡ (u, false)
unfolding login_row
login_row_locked service now password u until e h = ground arith

-- An active account without a lock is locked by as many wrong passwords in a row as are left of
-- `max_failures`: until `lockout_minutes` after the last of them every attempt fails, whatever the
-- password, and changes nothing.
pub attempts-lockout :
    (service : AuthService) (u : User) (now : ℕ) (password : Text) (rest : Attempts) (later : ℕ)
    (any_password : Text)
    → IsOpen u
    → u.failed_login_count + length ((now, password) ∷ rest) ≡ service.max_failures
    → All (IsWrong service u.password_hash) ((now, password) ∷ rest)
    → later < lock_end service (last_time now rest)
    → login_row service later any_password (attempts service u ((now, password) ∷ rest))
      ≡ (attempts service u ((now, password) ∷ rest), false)
attempts-lockout service u now password rest later any_password o n ws h =
    login_row_locked service later any_password (attempts service u ((now, password) ∷ rest))
      (lock_end service (last_time now rest)) (attempts_lock service u now password rest o n ws) h

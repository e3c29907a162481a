-- ===== src/Accounts/Revocation.antt =====
-- What a successful account call leaves behind: ended sessions
-- (stockanalyzer/auth.py, stockanalyzer/user_management.py).
use mathlib.Core.Path.{subst}
use stock_graph_analyzer.Base.{
  ◌≡◌, refl, sym, ap, ◌∙◌, ℕ, suc, Bool, true, false, not, ◌&&◌, Option, some, none, List, Text,
  text_eq, text_eq_iff, arith, Bool-cases, inl, inr, leb,
}
use stock_graph_analyzer.Table.{has_id}
use stock_graph_analyzer.Table.Replace.{find-In, find-replace, find-replace_other, has_id-In}
use stock_graph_analyzer.Accounts.{
  User, State, Outcome, done, refused, get_user, write_user, user_id, is_short, AuditEvent,
  user_password_reset,
}
use stock_graph_analyzer.Accounts.Auth.{
  AuthService, session_user, session_of, change_password, change_found, set_password,
}
use stock_graph_analyzer.Accounts.Admin.{
  set_active, set_found, reset_password, reset_found, is_allowed, add_audit, active_admins,
  action_for,
}
use stock_graph_analyzer.Accounts.Sound.{switched}
use stock_graph_analyzer.Accounts.Calls.{
  Call, registers, logs_in, changes, creates, sets_active, resets, step,
}

-- whose sessions a call ends
abbrev pub target_of : Call → Option Text
target_of (changes now id current new) = some id
target_of (sets_active now actor target active) = some target
target_of (resets now actor target password) = some target
target_of (registers id now username password is_admin) = none
target_of (logs_in now username password) = none
target_of (creates id now actor username password) = none

module _ (s : State) (id : Text) (u : User) (other : Text) (revision : Option ℕ) where
  -- the user's sessions are over, and the other user's are as before
  abbrev EndsSessions : Outcome → Type 0
  EndsSessions (refused t e) = Unit
  EndsSessions (done t v) =
      (session_user id (some u.session_revision) t ≡ none)
      × (session_user other revision t ≡ session_user other revision s)

  session_of_old :
      (v : User)
      → v.session_revision ≡ suc u.session_revision
      → session_of (some u.session_revision) (some v) ≡ none
  session_of_old v r = ground arith

  written-EndsSessions :
      (v : User) (w : User) (audit : List AuditEvent)
      → get_user id s ≡ some u
      → text_eq id other ≡ false
      → v.id ≡ u.id
      → v.session_revision ≡ suc u.session_revision
      → EndsSessions (done (record (write_user v s) { audit = audit }) w)
  unfolding session_user
  written-EndsSessions v w audit e o i r =
      let m = find-In (λ (x : User). text_eq x.id id) s.users u e in
      let same : v.id ≡ id = i ∙ (text_eq_iff u.id id).0 m.1 in
      let there : has_id user_id v.id s.users ≡ true =
        subst (λ j. has_id user_id j s.users ≡ true) (sym i) (has_id-In user_id u s.users m.0) in
      let mine : get_user id (write_user v s) ≡ some v =
        subst (λ j. get_user j (write_user v s) ≡ some v) same
          (find-replace user_id v s.users there) in
      let theirs : get_user other (write_user v s) ≡ get_user other s =
        find-replace_other user_id other v s.users (rw same o) in
      (
        ap (session_of (some u.session_revision)) mine ∙ session_of_old v r,
        ap (session_of revision) theirs,
      )

  change-EndsSessions :
      (service : AuthService) (now : ℕ) (current new : Text)
      → get_user id s ≡ some u
      → text_eq id other ≡ false
      → EndsSessions (change_found service now current new s (some u))
  change-EndsSessions service now current new e d =
      let v = set_password service.hasher new false now u in
      elim (Bool-cases (not u.is_active)) [
        | inl b ↦ rw b tt
        | inr b ↦ elim (Bool-cases (not (service.hasher.verify u.password_hash current))) [
          | inl c ↦ rw (b, c) tt
          | inr c ↦ rw (b, c) (written-EndsSessions v v s.audit e d refl refl)
        ]
      ]

  reset-EndsSessions :
      (service : AuthService) (now : ℕ) (actor password : Text)
      → get_user id s ≡ some u
      → text_eq id other ≡ false
      → EndsSessions (reset_found service.hasher now actor password s (some u))
  reset-EndsSessions service now actor password e d =
      let v = set_password service.hasher password true now u in
      written-EndsSessions v v (add_audit actor u.id user_password_reset s).audit e d refl refl

  set-EndsSessions :
      (now : ℕ) (actor : Text) (active : Bool)
      → get_user id s ≡ some u
      → text_eq id other ≡ false
      → EndsSessions (set_found now actor active s (some u))
  set-EndsSessions now actor active e d =
      let v = switched now active u in
      let ended =
        written-EndsSessions v v (add_audit actor u.id (action_for active) s).audit e d refl refl in
      elim (Bool-cases (not active && u.is_admin && u.is_active && leb (active_admins s) 1)) [
        | inl b ↦ rw b tt
        | inr b ↦ elim (Bool-cases (not active && text_eq actor u.id)) [
          | inl c ↦ rw (b, c) tt
          | inr c ↦ rw (b, c) ended
        ]
      ]

  same_user : (i : Text) → some i ≡ some id → get_user id s ≡ some u → get_user i s ≡ some u
  same_user i t e = let same : i ≡ id = ground arith in rw same e

  step-EndsSessions :
      (service : AuthService) (c : Call)
      → target_of c ≡ some id
      → get_user id s ≡ some u
      → text_eq id other ≡ false
      → EndsSessions (step service c s)
  unfolding step change_password reset_password set_active
  step-EndsSessions service (changes now i current new) t e d = elim (Bool-cases (is_short new)) [
    | inl b ↦ rw b tt
    | inr b ↦ rw (b, same_user i t e) (change-EndsSessions service now current new e d)
  ]
  step-EndsSessions service (sets_active now actor i active) t e d =
      elim (Bool-cases (not (is_allowed (get_user actor s)))) [
        | inl b ↦ rw b tt
        | inr b ↦ rw (b, same_user i t e) (set-EndsSessions now actor active e d)
      ]
  step-EndsSessions service (resets now actor i password) t e d =
      elim (Bool-cases (is_short password)) [
        | inl b ↦ rw b tt
        | inr b ↦ elim (Bool-cases (not (is_allowed (get_user actor s)))) [
          | inl c ↦ rw (b, c) tt
          | inr c ↦ rw (b, c, same_user i t e) (reset-EndsSessions service now actor password e d)
        ]
      ]
  step-EndsSessions service (registers i now username password is_admin) t e d = ground arith
  step-EndsSessions service (logs_in now username password) t e d = ground arith
  step-EndsSessions service (creates i now actor username password) t e d = ground arith

-- A password change, a password reset, and a change of an account's activity end the sessions of
-- the account: with the revision it had before the call no session of it is valid any more. The
-- sessions of every other account are as before.
pub step-done_sessions :
    (service : AuthService) (c : Call) (s t : State) (id : Text) (u v : User) (other : Text)
    (revision : Option ℕ)
    → target_of c ≡ some id
    → get_user id s ≡ some u
    → text_eq id other ≡ false
    → step service c s ≡ done t v
    → (session_user id (some u.session_revision) t ≡ none)
      × (session_user other revision t ≡ session_user other revision s)
step-done_sessions service c s t id u v other revision target e d r =
    subst (EndsSessions s id u other revision) r
      (step-EndsSessions s id u other revision service c target e d)

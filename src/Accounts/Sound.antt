-- ===== src/Accounts/Sound.antt =====
-- What one account call keeps (stockanalyzer/auth.py, stockanalyzer/user_management.py).
use mathlib.Core.Path.{subst}
use stock_graph_analyzer.Base.{
  ◌≡◌, inl, inr, refl, ℕ, suc, Bool, true, false, not, ◌||◌, Option, some, none, List, [], ◌∷◌,
  ◌++◌, if◌then◌else◌, Text, text_eq, any, arith, Bool-cases, find, text_eq_iff,
}
use stock_graph_analyzer.Table.{has_id, IsKeyed}
use stock_graph_analyzer.Table.Replace.{
  In, find-In, IsKeyed-replace, IsKeyed-column_replace, any-replace, any-replace_other,
  IsKeyed-snoc,
}
use stock_graph_analyzer.Accounts.{
  admin_required, is_nonempty, user_password_reset, user_created, user_enabled, user_disabled, User,
  AuditAction, State, Outcome, refused, state_of, user_id, get_user, has_name, normal_name,
  is_active_admin, write_user, add_user, new_user, is_short,
}
use stock_graph_analyzer.Accounts.Auth.{
  AuthService, create_user, change_found, login_found, login_row, insert_user, set_password,
}
use stock_graph_analyzer.Accounts.Admin
use stock_graph_analyzer.Accounts.Admin.{
  set_active, set_found, reset_password, reset_found, is_allowed, active_admins, add_audit,
}

abbrev pub username_of : User → Text
username_of u = u.username

-- Ids and usernames are distinct, and there is an active administrator.
pub record IsSound (s : State) : Type 0 where
  pub ids : IsKeyed user_id s.users
  pub names : IsKeyed username_of s.users
  pub admin : any is_active_admin s.users ≡ true

-- a changed row keeps the id, the name and, if it had them, the rights
record IsKept (u v : User) : Type 0 where
  pub same_id : u.id ≡ v.id
  pub same_name : u.username ≡ v.username
  pub same_rights : is_active_admin u ≡ true → is_active_admin v ≡ true

write_user-IsSound :
    (u v : User) (s : State) → In u s.users → IsKept u v → IsSound s → IsSound (write_user v s)
write_user-IsSound u v s m k h = record {
  ids = IsKeyed-replace user_id v s.users h.ids;
  names =
      IsKeyed-column_replace user_id username_of u v s.users m h.ids k.same_id k.same_name h.names;
  admin = any-replace user_id is_active_admin u v s.users m h.ids k.same_id k.same_rights h.admin;
}

any-snoc :
    (test : User → Bool) (t : List User) (u : User)
    → any test t ≡ true
    → any test (t ++ (u ∷ [])) ≡ true
any-snoc test [] u h = ground arith
any-snoc test (r ∷ t) u h = ground (arith, any-snoc test t u)

add_user-IsSound :
    (u : User) (s : State)
    → has_id user_id u.id s.users ≡ false
    → any (has_name u.username) s.users ≡ false
    → IsSound s
    → IsSound (add_user u s)
add_user-IsSound u s free new h = record {
  ids = IsKeyed-snoc user_id s.users u h.ids free;
  names = IsKeyed-snoc username_of s.users u h.names new;
  admin = any-snoc is_active_admin s.users u h.admin;
}

audit-IsSound : (a t : Text) (k : AuditAction) (s : State) → IsSound s → IsSound (add_audit a t k s)
audit-IsSound a t k s h = record { ids = h.ids; names = h.names; admin = h.admin }

login_row-IsKept :
    (service : AuthService) (now : ℕ) (password : Text) (u : User)
    → IsKept u (login_row service now password u).0
unfolding login_row
login_row-IsKept service now password u = record {
  same_id = ground arith;
  same_name = ground arith;
  same_rights = ground arith;
}

-- Each of the two outcomes of a test keeps the state sound.
if-IsSound :
    (b : Bool) (x y : Outcome)
    → IsSound (state_of x)
    → IsSound (state_of y)
    → IsSound (state_of (if b then x else y))
if-IsSound true x y h k = h
if-IsSound false x y h k = k

found-In : (id : Text) (s : State) (u : User) → get_user id s ≡ some u → In u s.users
found-In id s u e = (find-In (λ (r : User). text_eq r.id id) s.users u e).0

pub login_found-IsSound :
    (service : AuthService) (now : ℕ) (name password : Text) (s : State) (o : Option User)
    → find (has_name name) s.users ≡ o
    → IsSound s
    → IsSound (state_of (login_found service now password s o))
login_found-IsSound service now name password s none e h = h
login_found-IsSound service now name password s (some u) e h =
    let v = (login_row service now password u).0 in
    let kept =
      write_user-IsSound u v s (find-In (has_name name) s.users u e).0
        (login_row-IsKept service now password u) h in
    search (if-IsSound, kept)

pub change_found-IsSound :
    (service : AuthService) (now : ℕ) (id current new : Text) (s : State) (o : Option User)
    → get_user id s ≡ o
    → IsSound s
    → IsSound (state_of (change_found service now current new s o))
change_found-IsSound service now id current new s none e h = h
change_found-IsSound service now id current new s (some u) e h =
    let v = set_password service.hasher new false now u in
    let kept =
      write_user-IsSound u v s (found-In id s u e)
        (record { same_id = refl; same_name = refl; same_rights = λ r. r }) h in
    search (if-IsSound, h, kept)

pub reset_found-IsSound :
    (service : AuthService) (now : ℕ) (id actor password : Text) (s : State) (o : Option User)
    → get_user id s ≡ o
    → IsSound s
    → IsSound (state_of (reset_found service.hasher now actor password s o))
reset_found-IsSound service now id actor password s none e h = h
reset_found-IsSound service now id actor password s (some u) e h =
    let v = set_password service.hasher password true now u in
    let kept =
      write_user-IsSound u v s (found-In id s u e)
        (record { same_id = refl; same_name = refl; same_rights = λ r. r }) h in
    audit-IsSound actor u.id user_password_reset (write_user v s) kept

insert_user-IsSound :
    (u : User) (s after : State)
    → (has_id user_id u.id s.users ≡ false → IsSound after)
    → IsSound s
    → IsSound (state_of (insert_user u s after))
insert_user-IsSound u s after k h = elim (Bool-cases (has_id user_id u.id s.users)) [
  | inl e ↦ rw e h
  | inr e ↦ rw e (k e)
]

pub register-IsSound :
    (service : AuthService) (id : Text) (now : ℕ) (username password : Text) (is_admin : Bool)
    (s : State)
    → IsSound s
    → IsSound (state_of (create_user service id now username password is_admin s))
unfolding create_user
register-IsSound service id now username password is_admin s h =
    let name = normal_name username in
    let u = new_user id name (service.hasher.hash password) is_admin false now in
    elim (Bool-cases (not (is_nonempty name) || is_short password)) [
      | inl b ↦ rw b h
      | inr b ↦ elim (Bool-cases (any (has_name name) s.users)) [
        | inl e ↦ rw (b, e) h
        | inr e ↦
            rw (b, e)
              (insert_user-IsSound u s (add_user u s) (λ free. add_user-IsSound u s free e h) h)
      ]
    ]

pub create-IsSound :
    (service : AuthService) (id : Text) (now : ℕ) (actor username password : Text) (s : State)
    → IsSound s
    → IsSound (state_of (Admin.create_user service.hasher id now actor username password s))
unfolding Admin.create_user
create-IsSound service id now actor username password s h =
    let name = normal_name username in
    let u = new_user id name (service.hasher.hash password) false true now in
    elim (Bool-cases (not (is_nonempty name) || is_short password)) [
      | inl b ↦ rw b h
      | inr b ↦ elim (Bool-cases (not (is_allowed (get_user actor s)))) [
        | inl c ↦ rw (b, c) h
        | inr c ↦ elim (Bool-cases (any (has_name name) s.users)) [
          | inl e ↦ rw (b, c, e) h
          | inr e ↦
              rw (b, c, e)
                (insert_user-IsSound u s (add_audit actor id user_created (add_user u s))
                  (λ free.
                    audit-IsSound actor id user_created (add_user u s)
                      (add_user-IsSound u s free e h))
                  h)
        ]
      ]
    ]

-- what `set_active` writes
abbrev pub switched : ℕ → Bool → User → User
switched now active u = record u {
  is_active = active;
  session_revision = suc u.session_revision;
  updated_at = now;
}

disabled-IsSound :
    (now : ℕ) (actor target : User) (s : State)
    → In actor s.users
    → In target s.users
    → is_active_admin actor ≡ true
    → text_eq actor.id target.id ≡ false
    → IsSound s
    → IsSound (write_user (switched now false target) s)
disabled-IsSound now actor target s a m admin other h = record {
  ids = IsKeyed-replace user_id (switched now false target) s.users h.ids;
  names =
      IsKeyed-column_replace user_id username_of target (switched now false target) s.users m h.ids
        refl refl h.names;
  admin =
      any-replace_other user_id is_active_admin actor (switched now false target) s.users a other
        admin;
}

set_found-IsSound :
    (now : ℕ) (actor : User) (target_id : Text) (active : Bool) (s : State) (o : Option User)
    → In actor s.users
    → is_active_admin actor ≡ true
    → get_user target_id s ≡ o
    → IsSound s
    → IsSound (state_of (set_found now actor.id active s o))
set_found-IsSound now actor target_id active s none a admin e h = h
set_found-IsSound now actor target_id true s (some u) a admin e h =
    let kept =
      write_user-IsSound u (switched now true u) s (found-In target_id s u e)
        (record { same_id = refl; same_name = refl; same_rights = λ r. ground arith }) h in
    audit-IsSound actor.id u.id user_enabled (write_user (switched now true u) s) kept
set_found-IsSound now actor target_id false s (some u) a admin e h =
    elim (Bool-cases (text_eq actor.id u.id)) [
      | inl own ↦ rw own (search (if-IsSound, h))
      | inr other ↦
          let kept =
            audit-IsSound actor.id u.id user_disabled (write_user (switched now false u) s)
              (disabled-IsSound now actor u s a (found-In target_id s u e) admin other h) in
          rw other (search (if-IsSound, h, kept))
    ]

actor_set-IsSound :
    (now : ℕ) (actor_id target_id : Text) (actor : User) (active : Bool) (s : State)
    → get_user actor_id s ≡ some actor
    → is_active_admin actor ≡ true
    → IsSound s
    → IsSound (state_of (set_found now actor_id active s (get_user target_id s)))
actor_set-IsSound now actor_id target_id actor active s e admin h =
    let same : actor.id ≡ actor_id =
      (text_eq_iff actor.id actor_id).0
        (find-In (λ (r : User). text_eq r.id actor_id) s.users actor e).1 in
    subst (λ i. IsSound (state_of (set_found now i active s (get_user target_id s)))) same
      (set_found-IsSound now actor target_id active s (get_user target_id s)
        (found-In actor_id s actor e) admin refl h)

allowed_set-IsSound :
    (now : ℕ) (actor_id target_id : Text) (active : Bool) (s : State) (o : Option User)
    → get_user actor_id s ≡ o
    → IsSound s
    → IsSound (
        state_of (
          if not (is_allowed o)
          then refused s admin_required
          else set_found now actor_id active s (get_user target_id s)))
allowed_set-IsSound now actor_id target_id active s none e h = h
allowed_set-IsSound now actor_id target_id active s (some actor) e h =
    elim (Bool-cases (is_active_admin actor)) [
      | inl admin ↦ rw admin (actor_set-IsSound now actor_id target_id actor active s e admin h)
      | inr other ↦ rw other h
    ]

pub set_active-IsSound :
    (now : ℕ) (actor_id target_id : Text) (active : Bool) (s : State)
    → IsSound s
    → IsSound (state_of (set_active now actor_id target_id active s))
unfolding set_active
set_active-IsSound now actor_id target_id active s h =
    allowed_set-IsSound now actor_id target_id active s (get_user actor_id s) refl h

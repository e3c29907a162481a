-- ===== src/Radar/Watch.antt =====
-- The watched tickers: stockanalyzer/swingwatch.py on the table of
-- stockanalyzer/db/repositories/swingwatch.py. The rows stand in the order of their creation; the files of
-- older versions are left out.
use stock_graph_analyzer.Base.{
  ℕ, ◌==◌, Bool, true, false, ◌&&◌, Option, some, none, List, [], ◌∷◌, ◌++◌, if◌then◌else◌, map,
  filter, any, find, ltb, Text, text_eq, strip, upper,
}
use stock_graph_analyzer.Float.{Float, ◌≥?◌, lit}
use stock_graph_analyzer.Accounts.{User, State, get_user}

-- `SwingWatchItem`
pub record WatchItem : Type 0 where
  pub user : Text
  pub ticker : Text
  pub last_notice_level : ℕ

unfoldable pub normalize : Text → Text
normalize ticker = upper (strip ticker)

abbrev pub is_item : Text → Text → WatchItem → Bool
is_item user ticker w = text_eq w.user user && text_eq w.ticker ticker

-- `list`
unfoldable pub watched : Text → List WatchItem → List Text
watched user items = map (λ (w : WatchItem). w.ticker) (filter (λ w. text_eq w.user user) items)

abbrev pub is_active_owner : List User → WatchItem → Bool
is_active_owner users w = any (λ (u : User). text_eq u.id w.user && u.is_active) users

unfoldable pub list_assignments : List User → List WatchItem → List (Text × Text)
list_assignments users items =
    map (λ (w : WatchItem). (w.user, w.ticker)) (filter (is_active_owner users) items)

abbrev pub is_empty : Text → Bool
is_empty [] = true
is_empty (_ ∷ _) = false

-- with an item for the ticker, if it is not there
abbrev pub add_item : Text → Text → List WatchItem → List WatchItem
add_item user ticker items =
    if is_empty ticker
    then items
    else if any (is_item user ticker) items
    then items
    else items ++ (record { user = user; ticker = ticker; last_notice_level = 0 } ∷ [])

unfoldable pub add_watch : Text → Text → List WatchItem → List WatchItem
unfolding normalize
add_watch user ticker items = add_item user (normalize ticker) items

unfoldable pub delete_first : Text → Text → List WatchItem → List WatchItem
delete_first user ticker [] = []
delete_first user ticker (w ∷ ws) =
    let rest = delete_first user ticker ws in if is_item user ticker w then ws else w ∷ rest

unfoldable pub remove_watch : Text → Text → List WatchItem → List WatchItem
unfolding normalize delete_first
remove_watch user ticker items = delete_first user (normalize ticker) items

unfoldable pub is_tracked : Text → Text → List WatchItem → Bool
unfolding normalize watched
is_tracked user ticker items = any (text_eq (normalize ticker)) (watched user items)

abbrev active_user : Option User → Bool
active_user none = false
active_user (some u) = u.is_active

-- membership of an active user, read from the tables
unfoldable pub lock_active_assignment : State → Text → Text → List WatchItem → Bool
unfolding normalize
lock_active_assignment s user ticker items =
    active_user (get_user user s) && any (is_item user (normalize ticker)) items

-- the level stored for a ticker
abbrev pub level_of_item : WatchItem → ℕ
level_of_item w = w.last_notice_level

abbrev pub map_level : Option WatchItem → Option ℕ
map_level none = none
map_level (some w) = some w.last_notice_level

unfoldable pub stored_level : Text → Text → List WatchItem → Option ℕ
stored_level user ticker items = map_level (find (is_item user ticker) items)

unfoldable pub write_level : Text → Text → ℕ → List WatchItem → List WatchItem
write_level user ticker level [] = []
write_level user ticker level (w ∷ ws) =
    let rest = write_level user ticker level ws in
    if is_item user ticker w then record w { last_notice_level = level } ∷ ws else w ∷ rest

abbrev or_zero : Option ℕ → ℕ
or_zero none = 0
or_zero (some n) = n

unfoldable pub get_notice_level : Text → Text → List WatchItem → ℕ
unfolding normalize stored_level
get_notice_level user ticker items = or_zero (stored_level user (normalize ticker) items)

unfoldable pub set_notice_level : Text → Text → ℕ → List WatchItem → List WatchItem
unfolding normalize write_level
set_notice_level user ticker level items = write_level user (normalize ticker) level items

-- the table, and the level before
abbrev pub claim_found : Text → Text → ℕ → List WatchItem → Option ℕ → List WatchItem × Option ℕ
claim_found user ticker level items none = (items, none)
claim_found user ticker level items (some previous) =
    (if previous == level then items else write_level user ticker level items, some previous)

unfoldable pub claim_notice_level : Text → Text → ℕ → List WatchItem → List WatchItem × Option ℕ
unfolding normalize stored_level write_level
claim_notice_level user ticker level items =
    claim_found user (normalize ticker) level items (stored_level user (normalize ticker) items)

-- `LEVELS`
abbrev levels : List ℕ
levels = 60 ∷ 70 ∷ 80 ∷ []

abbrev largest : List ℕ → ℕ
largest [] = 0
largest (n ∷ ns) = let m = largest ns in if ltb n m then m else n

module _ {F : Type 0} ⦃f : Float F⦄ where
  unfoldable pub notice_level : F → ℕ
  notice_level score = largest (filter (λ lv. score ≥? lit lv 0) levels)

  unfoldable pub new_notice : ℕ → F → Option ℕ
  unfolding notice_level
  new_notice previous score =
      if ltb previous (notice_level score) then some (notice_level score) else none

  abbrev pub notice_after : Option ℕ → F → Option ℕ
  notice_after none score = none
  notice_after (some previous) score = new_notice previous score

  -- the table, and the level of a new notice
  unfoldable pub claim_notice : Text → Text → F → List WatchItem → List WatchItem × Option ℕ
  unfolding claim_notice_level new_notice
  claim_notice user ticker score items =
      let claimed = claim_notice_level user ticker (notice_level score) items in
      (claimed.0, notice_after claimed.1 score)

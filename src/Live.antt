-- ===== src/Live.antt =====
-- What changed between two snapshots: stockanalyzer/live_events.py. A `frozenset` of names is a list.
pub mod Replay
mod Tests
use stock_graph_analyzer.Base.{
  ℕ, ◌==◌, Bool, true, false, not, ◌&&◌, ◌||◌, Option, some, none, List, [], ◌∷◌, ◌++◌,
  if◌then◌else◌, map, filter, any, ltb, Text, text_eq,
}
use stock_graph_analyzer.Base.Int.{ℤ, pos}
use stock_graph_analyzer.Float.{Float, ◌≤?◌, ◌<?◌, ◌=?◌, lit, truthy}

-- name, sign and weight
pub record SignalMeta (F : Type 0) : Type 0 where
  pub name : Text
  pub sign : ℤ
  pub weight : F

pub record LiveState (F : Type 0) : Type 0 where
  pub light : Text
  pub swing_go : Bool
  pub rr : F
  pub swing_setup : Text
  pub trend_change_likely : Bool
  pub trend_change_dir : Text
  pub preset_key : Text
  pub preset_label : Text
  pub signals : List Text
  pub price : F
  pub stop : Option F
  pub target : Option F
  pub key_level : Option F
  pub kind : Text
  pub trigger : Option F
  pub bull : Bool
  pub signal_meta : List (SignalMeta F)

-- a constructor for each text, with what the text is about
pub data Event (F : Type 0) : Type 0 where
  turned_go : F → Event F
  left_go : F → Event F
  light_changed : Text → Text → Event F
  setup_changed : Text → Text → Event F
  preset_changed : Text → Text → Event F
  trend_change : Text → Event F
  signal_new : Text → ℤ → F → Event F
  signal_gone : Text → ℤ → F → Event F
  kind_changed : Text → Text → Event F
  trigger_hit : F → Event F
  stop_hit : F → Event F
  target_reached : F → Event F
  level_crossed : F → Event F

-- a non-empty `str` as a condition
abbrev pub is_given : Text → Bool
is_given [] = false
is_given (_ ∷ _) = true

abbrev pub is_in : Text → List Text → Bool
is_in name names = any (text_eq name) names

-- `xs - ys` on sets
abbrev pub difference : List Text → List Text → List Text
difference xs ys = filter (λ x. not (is_in x ys)) xs

unfoldable pub text_leb : Text → Text → Bool
text_leb [] t = true
text_leb (a ∷ s) [] = false
text_leb (a ∷ s) (b ∷ t) = ltb a b || ((a == b) && text_leb s t)

unfoldable pub insert_sorted : Text → List Text → List Text
unfolding text_leb
insert_sorted x [] = x ∷ []
insert_sorted x (y ∷ ys) =
    let rest = insert_sorted x ys in if text_leb x y then x ∷ y ∷ ys else y ∷ rest

-- `sorted`
unfoldable pub sorted : List Text → List Text
unfolding insert_sorted
sorted [] = []
sorted (x ∷ xs) = insert_sorted x (sorted xs)

abbrev pub when : {A : Type 0} → Bool → A → List A
when b x = if b then x ∷ [] else []

abbrev pub differ : Bool → Bool → Bool
differ true b = not b
differ false b = b

module _ {F : Type 0} ⦃f : Float F⦄ where
  abbrev pub between : F → F → F → Bool
  between level a b =
      if a =? b
      then false
      else if a <? b
      then a ≤? level && (level ≤? b)
      else b ≤? level && (level ≤? a)

  -- `_crossed`; the prices are never None
  unfoldable pub crossed : Option F → F → F → Bool
  crossed none a b = false
  crossed (some level) a b = between level a b

  -- the sign and weight of a name: of its last entry, or none
  unfoldable pub meta_of : List (SignalMeta F) → Text → ℤ × F
  meta_of [] name = (pos 0, lit 0 0)
  meta_of (m ∷ ms) name =
      let rest = meta_of ms name in
      if any (λ (n : SignalMeta F). text_eq n.name name) ms
      then rest
      else if text_eq m.name name
      then (m.sign, m.weight)
      else rest

  abbrev pub is_fired : LiveState F → LiveState F → F → Bool
  is_fired prev cur trigger =
      if cur.bull
      then prev.price <? trigger && (trigger ≤? cur.price)
      else trigger <? prev.price && (cur.price ≤? trigger)

  abbrev pub trigger_events : LiveState F → LiveState F → Option F → List (Event F)
  trigger_events prev cur none = []
  trigger_events prev cur (some trigger) =
      when (truthy prev.price && truthy cur.price && is_fired prev cur trigger)
        (trigger_hit trigger)

  abbrev pub swing_event : LiveState F → Event F
  swing_event cur = if cur.swing_go then turned_go cur.rr else left_go cur.rr

  abbrev pub crossing : (F → Event F) → Option F → F → F → List (Event F)
  crossing event none a b = []
  crossing event (some level) a b = when (crossed (some level) a b) (event level)

  abbrev pub new_events : LiveState F → LiveState F → List (Event F)
  new_events prev cur =
      map (λ n. signal_new n (meta_of cur.signal_meta n).0 (meta_of cur.signal_meta n).1)
        (sorted (difference cur.signals prev.signals))

  abbrev pub gone_events : LiveState F → LiveState F → List (Event F)
  gone_events prev cur =
      map (λ n. signal_gone n (meta_of prev.signal_meta n).0 (meta_of prev.signal_meta n).1)
        (sorted (difference prev.signals cur.signals))

  -- the events before and after those of the signals
  abbrev pub first_events : LiveState F → LiveState F → List (Event F)
  first_events prev cur =
      when (differ cur.swing_go prev.swing_go) (swing_event cur)
      ++ (when
            (is_given cur.light
              && not (text_eq cur.light prev.light)
              && not (differ cur.swing_go prev.swing_go))
            (light_changed prev.light cur.light)
          ++ (when (is_given cur.swing_setup && not (text_eq cur.swing_setup prev.swing_setup))
                (setup_changed prev.swing_setup cur.swing_setup)
              ++ (when (is_given cur.preset_key && not (text_eq cur.preset_key prev.preset_key))
                    (preset_changed prev.preset_label cur.preset_label)
                  ++ when
                      (cur.trend_change_likely
                        && (not prev.trend_change_likely
                            || not (text_eq cur.trend_change_dir prev.trend_change_dir)))
                      (trend_change cur.trend_change_dir))))

  abbrev pub last_events : LiveState F → LiveState F → List (Event F)
  last_events prev cur =
      when (is_given cur.kind && is_given prev.kind && not (text_eq cur.kind prev.kind))
        (kind_changed prev.kind cur.kind)
      ++ (trigger_events prev cur cur.trigger
          ++ (crossing stop_hit cur.stop prev.price cur.price
              ++ (crossing target_reached cur.target prev.price cur.price
                  ++ crossing level_crossed cur.key_level prev.price cur.price)))

  abbrev changes : LiveState F → LiveState F → List (Event F)
  changes prev cur =
      first_events prev cur
      ++ (new_events prev cur ++ (gone_events prev cur ++ last_events prev cur))

  unfoldable pub diff_states : Option (LiveState F) → LiveState F → List (Event F)
  unfolding crossed meta_of sorted
  diff_states none cur = []
  diff_states (some prev) cur = changes prev cur

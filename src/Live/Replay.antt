-- ===== src/Live/Replay.antt =====
-- The events of stockanalyzer/live_events.py tell what the next snapshot shows.
use stock_graph_analyzer.Base.{
  ◌≡◌, refl, sym, ap, ◌∙◌, Bool, true, false, not, ◌&&◌, ◌||◌, Option, some, none, List, [], ◌∷◌,
  ◌++◌, if◌then◌else◌, map, filter, Text, text_eq, text_eq_iff, arith, Bool-cases, inl, inr,
}
use stock_graph_analyzer.Base.Int.{ℤ}
use stock_graph_analyzer.Float.{Float}
use stock_graph_analyzer.Live.{
  LiveState, Event, turned_go, left_go, light_changed, setup_changed, preset_changed, trend_change,
  signal_new, signal_gone, kind_changed, trigger_hit, stop_hit, target_reached, level_crossed,
  is_given, is_in, difference, insert_sorted, sorted, when, differ, swing_event, trigger_events,
  crossing, new_events, gone_events, first_events, last_events, diff_states, meta_of,
}

-- what a reader of the events keeps
pub record Seen : Type 0 where
  pub go : Bool
  pub setup : Text
  pub names : List Text

is_in-insert_sorted :
    (n x : Text) (xs : List Text) → is_in n (insert_sorted x xs) ≡ (text_eq n x || is_in n xs)
unfolding insert_sorted
is_in-insert_sorted n x [] = refl
is_in-insert_sorted n x (y ∷ ys) = ground (arith, is_in-insert_sorted n x ys)

is_in-sorted : (n : Text) (xs : List Text) → is_in n (sorted xs) ≡ is_in n xs
unfolding sorted
is_in-sorted n [] = refl
is_in-sorted n (x ∷ xs) = ground (arith, is_in-sorted n xs, is_in-insert_sorted n x (sorted xs))

is_in-filter :
    (n : Text) (test : Text → Bool) (xs : List Text)
    → is_in n (filter test xs) ≡ (is_in n xs && test n)
is_in-filter n test [] = refl
is_in-filter n test (x ∷ xs) = elim (Bool-cases (text_eq n x)) [
  | inl e ↦
      let same : test n ≡ test x = ap test ((text_eq_iff n x).0 e) in
      ground (arith, is_in-filter n test xs)
  | inr e ↦ ground (arith, is_in-filter n test xs)
]

is_in-difference :
    (n : Text) (xs ys : List Text)
    → is_in n (sorted (difference xs ys)) ≡ (is_in n xs && not (is_in n ys))
is_in-difference n xs ys =
    is_in-sorted n (difference xs ys) ∙ is_in-filter n (λ x. not (is_in x ys)) xs

abbrev pub read : {F : Type 0} → Event F → Seen → Seen
read (turned_go rr) s = record s { go = true }
read (left_go rr) s = record s { go = false }
read (setup_changed before after) s = record s { setup = after }
read (signal_new name sign weight) s = record s { names = name ∷ s.names }
read (signal_gone name sign weight) s = record s {
  names = filter (λ n. not (text_eq n name)) s.names;
}
read _ s = s

-- the events in their order
unfoldable pub replay : {F : Type 0} → List (Event F) → Seen → Seen
replay [] s = s
replay (e ∷ es) s = replay es (read e s)

replay-append :
    {F : Type 0} (xs ys : List (Event F)) (s : Seen) → replay (xs ++ ys) s ≡ replay ys (replay xs s)
unfolding replay
replay-append [] ys s = refl
replay-append (x ∷ xs) ys s = replay-append xs ys (read x s)

replay-when_silent :
    {F : Type 0} (b : Bool) (e : Event F)
    → ((s : Seen) → read e s ≡ s)
    → (s : Seen) → replay (when b e) s ≡ s
unfolding replay
replay-when_silent true e h s = h s
replay-when_silent false e h s = refl

module _ {F : Type 0} (sign : Text → ℤ) (weight : Text → F) where
  replay-new :
      (xs : List Text) (s : Seen)
      → (replay (map (λ n. signal_new n (sign n) (weight n)) xs) s).go ≡ s.go
        × ((replay (map (λ n. signal_new n (sign n) (weight n)) xs) s).setup ≡ s.setup)
        × ((n : Text)
            → is_in n (replay (map (λ n. signal_new n (sign n) (weight n)) xs) s).names
              ≡ (is_in n xs || is_in n s.names))
  unfolding replay
  replay-new [] s = (refl, refl, λ n. refl)
  replay-new (x ∷ xs) s =
      let (go, setup, names) = replay-new xs (record s { names = x ∷ s.names }) in
      (go, setup, λ n. ground (arith, names n))

  replay-gone :
      (xs : List Text) (s : Seen)
      → (replay (map (λ n. signal_gone n (sign n) (weight n)) xs) s).go ≡ s.go
        × ((replay (map (λ n. signal_gone n (sign n) (weight n)) xs) s).setup ≡ s.setup)
        × ((n : Text)
            → is_in n (replay (map (λ n. signal_gone n (sign n) (weight n)) xs) s).names
              ≡ (not (is_in n xs) && is_in n s.names))
  unfolding replay
  replay-gone [] s = (refl, refl, λ n. refl)
  replay-gone (x ∷ xs) s =
      let (go, setup, names) =
        replay-gone xs (record s { names = filter (λ n. not (text_eq n x)) s.names }) in
      (go, setup, λ n. ground (arith, names n, is_in-filter n (λ n. not (text_eq n x)) s.names))

abbrev pub seen : {F : Type 0} → LiveState F → Seen
seen state = record { go = state.swing_go; setup = state.swing_setup; names = state.signals }

-- the setup that is shown after a change: a snapshot without a setup leaves the old one
abbrev pub setup_after : {F : Type 0} → LiveState F → LiveState F → Text
setup_after prev cur = if is_given cur.swing_setup then cur.swing_setup else prev.swing_setup

module _ {F : Type 0} ⦃f : Float F⦄ where
  replay-crossing :
      (event : F → Event F)
      → ((x : F) (s : Seen) → read (event x) s ≡ s)
      → (level : Option F) (a b : F) (s : Seen) → replay (crossing event level a b) s ≡ s
  unfolding replay
  replay-crossing event h none a b s = refl
  replay-crossing event h (some level) a b s = replay-when_silent _ (event level) (h level) s

  replay-trigger :
      (prev cur : LiveState F) (trigger : Option F) (s : Seen)
      → replay (trigger_events prev cur trigger) s ≡ s
  unfolding replay
  replay-trigger prev cur none s = refl
  replay-trigger prev cur (some trigger) s =
      replay-when_silent _ (trigger_hit trigger) (λ s. refl) s

  silent-append :
      (xs ys : List (Event F))
      → ((s : Seen) → replay xs s ≡ s)
      → ((s : Seen) → replay ys s ≡ s)
      → (s : Seen) → replay (xs ++ ys) s ≡ s
  silent-append xs ys hx hy s = replay-append xs ys s ∙ (hy (replay xs s) ∙ hx s)

  replay-last : (prev cur : LiveState F) (s : Seen) → replay (last_events prev cur) s ≡ s
  replay-last prev cur =
      silent-append _ _ (replay-when_silent _ (kind_changed prev.kind cur.kind) (λ s. refl)) (
        silent-append _ _ (replay-trigger prev cur cur.trigger) (
          silent-append _ _ (replay-crossing stop_hit (λ x s. refl) cur.stop prev.price cur.price) (
            silent-append _ _
              (replay-crossing target_reached (λ x s. refl) cur.target prev.price cur.price)
              (replay-crossing level_crossed (λ x s. refl) cur.key_level prev.price cur.price))))

  replay-swing :
      (prev cur : LiveState F)
      → replay (when (differ cur.swing_go prev.swing_go) (swing_event cur)) (seen prev)
        ≡ record (seen prev) { go = cur.swing_go }
  unfolding replay
  replay-swing prev cur = elim (Bool-cases cur.swing_go) [
    | inl c ↦ elim (Bool-cases prev.swing_go) [ inl p ↦ rw (c, p) refl | inr p ↦ rw (c, p) refl ]
    | inr c ↦ elim (Bool-cases prev.swing_go) [ inl p ↦ rw (c, p) refl | inr p ↦ rw (c, p) refl ]
  ]

  replay-setup :
      (prev cur : LiveState F) (s : Seen)
      → s.setup ≡ prev.swing_setup
      → replay {F = F}
          (when
            (is_given cur.swing_setup && not (text_eq cur.swing_setup prev.swing_setup))
            (setup_changed prev.swing_setup cur.swing_setup))
          s
        ≡ record s { setup = setup_after prev cur }
  unfolding replay
  replay-setup prev cur s h = elim (Bool-cases (is_given cur.swing_setup)) [
    | inr g ↦ rw g (ap (λ (t : Text). record s { setup = t }) h)
    | inl g ↦ elim (Bool-cases (text_eq cur.swing_setup prev.swing_setup)) [
      | inl e ↦
          rw (g, e)
            (ap (λ (t : Text). record s { setup = t })
              (h ∙ sym ((text_eq_iff cur.swing_setup prev.swing_setup).0 e)))
      | inr e ↦ rw (g, e) refl
    ]
  ]

  -- the events up to those of the signals
  replay-first :
      (prev cur : LiveState F)
      → replay (first_events prev cur) (seen prev)
        ≡ record { go = cur.swing_go; setup = setup_after prev cur; names = prev.signals }
  replay-first prev cur =
      let turned : Seen = record (seen prev) { go = cur.swing_go } in
      let shown : Seen = record turned { setup = setup_after prev cur } in
      let tail =
        silent-append _ _
          (replay-when_silent {F = F} _ (preset_changed prev.preset_label cur.preset_label)
            (λ s. refl))
          (replay-when_silent {F = F} _ (trend_change cur.trend_change_dir) (λ s. refl)) in
      replay-append _ _ (seen prev)
      ∙ (ap (replay _) (replay-swing prev cur)
          ∙ (replay-append _ _ turned
              ∙ (ap (replay _) (
                    replay-when_silent {F = F} _ (light_changed prev.light cur.light) (λ s. refl)
                      turned)
                  ∙ (replay-append _ _ turned
                      ∙ (ap (replay _) (replay-setup prev cur turned refl) ∙ tail shown)))))

  -- the state after the setup and the light
  abbrev shown : LiveState F → LiveState F → Seen
  shown prev cur = record { go = cur.swing_go; setup = setup_after prev cur; names = prev.signals }

  replay-diff_states :
      (prev cur : LiveState F)
      → replay (diff_states (some prev) cur) (seen prev)
        ≡ replay (gone_events prev cur) (replay (new_events prev cur) (shown prev cur))
  unfolding diff_states
  replay-diff_states prev cur =
      replay-append _ _ (seen prev)
      ∙ (ap (replay _) (replay-first prev cur)
          ∙ (replay-append _ _ (shown prev cur)
              ∙ (replay-append _ _ (replay (new_events prev cur) (shown prev cur))
                  ∙ replay-last prev cur _)))

  -- The events between two snapshots are enough to follow them: whoever applies them in their order to
  -- what the first snapshot shows has the second one's GO, its setup where it has one and the old one
  -- where not, and exactly its signals.
  pub diff_states-replayed :
      (prev cur : LiveState F)
      → ((replay (diff_states (some prev) cur) (seen prev)).go ≡ cur.swing_go)
        × ((replay (diff_states (some prev) cur) (seen prev)).setup ≡ setup_after prev cur)
        × ((n : Text)
            → is_in n (replay (diff_states (some prev) cur) (seen prev)).names
              ≡ is_in n cur.signals)
  diff_states-replayed prev cur =
      let whole = replay-diff_states prev cur in
      let added = sorted (difference cur.signals prev.signals) in
      let dropped = sorted (difference prev.signals cur.signals) in
      let new =
        replay-new (λ n. (meta_of cur.signal_meta n).0) (λ n. (meta_of cur.signal_meta n).1) added
          (shown prev cur) in
      let gone =
        replay-gone (λ n. (meta_of prev.signal_meta n).0) (λ n. (meta_of prev.signal_meta n).1)
          dropped (replay (new_events prev cur) (shown prev cur)) in
      (
        ap (λ (s : Seen). s.go) whole ∙ (gone.0 ∙ new.0),
        ap (λ (s : Seen). s.setup) whole ∙ (gone.1 ∙ new.1),
        λ n.
            ap (λ (s : Seen). is_in n s.names) whole
            ∙ ground (
              arith,
              gone.2 n,
              new.2 n,
              is_in-difference n cur.signals prev.signals,
              is_in-difference n prev.signals cur.signals,
            ),
      )

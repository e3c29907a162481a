-- ===== src/Reversal/Entry.antt =====
-- What a fired entry of stockanalyzer/analysis/reversal.py satisfies, condition by condition.
use stock_graph_analyzer.Base.{
  ◌≢◌, ◌⊎◌, ◌≤◌, ◌≡◌, refl, true, false, ◌&&◌, inl, inr, Option, some, none, arith, Bool-cases,
}
use stock_graph_analyzer.Float.{
  neg, truthy, ◌⊕◌, Float, IsOrdered, ◌≥?◌, ◌≤?◌, ◌<?◌, ◌⊖◌, ◌⊘◌, ◌⊗◌, lit, round,
}
use stock_graph_analyzer.Float.Order.{min-le, min-le_right}
use stock_graph_analyzer.Session.{Instant, opening_range, market_phase}
use stock_graph_analyzer.Signals.{Direction, bull, bear, neutral}
use stock_graph_analyzer.Swing.{SwingBar, SwingReport}
use stock_graph_analyzer.Swing.Levels.{absolute}
use stock_graph_analyzer.Frames.{get_last?}
use stock_graph_analyzer.Reversal.Support.{IsSupport}
use stock_graph_analyzer.Reversal.{
  TrendMode, with_trend, strong_support, EntryMode, touch, confirmed, bar_reverses, is_gap_down,
  reversed_up, DayCard, ReversalConfig, ReversalEntry, support_band_pct, confidence_at, gap_between,
  session_open, in_lower_range, trend_gate, entry_gate, target_at,
}

module _ {F : Type 0} ⦃f : Float F⦄ where
  abbrev pub IsNoGapDown : Option F → Type 0
  IsNoGapDown none = Unit {0}
  IsNoGapDown (some gap) = (gap ≤? neg (lit 2 2)) ≡ false

  -- in the lower 35 % of the day's range, where that is known
  abbrev pub IsLow : Option F → Type 0
  IsLow none = Unit {0}
  IsLow (some pos) = (pos ≤? lit 35 0) ≡ true

  -- under the next resistance, where there is one
  abbrev pub IsUnder : F → Option F → Type 0
  IsUnder target none = Unit {0}
  IsUnder target (some next) =
      ((truthy next && truthy (next ⊗ lit 995 3)) ≡ false) ⊎ ((target ≤? next ⊗ lit 995 3) ≡ true)

  -- the trend does not forbid the entry: the higher trend is up and the session has not opened 2 % or
  -- more under the close before, or the level has two confirmations
  abbrev pub IsAllowed : DayCard F → F → Option Direction → Option F → TrendMode → F → Type 0
  IsAllowed card price higher prev with_trend support =
      (higher ≡ some bull) × IsNoGapDown (gap_between (session_open price card.day_change_pct) prev)
  IsAllowed card price higher prev strong_support support =
      2 ≤ confidence_at card support (support ⊗ lit 4 3)

  -- in the confirmed mode the last bar came down to the level and closed back above it, not below its open
  abbrev pub IsConfirmed : EntryMode → Option (SwingReport F) → F → Type 0
  IsConfirmed touch rep support = Unit {0}
  IsConfirmed confirmed rep support =
      (r : SwingReport F) × (b : SwingBar F) × (rep ≡ some r)
      × (get_last? r.bars ≡ some b)
      × ((b.low ≤? support ⊕ support ⊗ lit 4 3) ≡ true)
      × ((b.close ≥? support ⊗ (lit 1 0 ⊕ lit 1 3)) ≡ true)
      × ((b.close ≥? b.opening) ≡ true)

  -- the target before its rounding: 3 % away at most, under the next resistance where there is one, and
  -- 2.5 % away at least
  pub record IsAim (card : DayCard F) (price target : F) : Type 0 where
    pub most : (target ≤? price ⊗ (lit 1 0 ⊕ lit 3 2)) ≡ true
    pub capped : IsUnder target card.next_target
    pub least : (target ⊘ price ⊖ lit 1 0 ≥? lit 25 3) ≡ true

  -- what an entry that fires satisfies
  pub record IsEntry (card : DayCard F) (rep : Option (SwingReport F)) (price : F)
      (higher : Option Direction) (prev : Option F) (asof : Instant) (cfg : ReversalConfig)
      (e : ReversalEntry F) : Type 0 where
    pub positive : (lit 0 0 <? price) ≡ true
    pub phase : market_phase asof ≢ opening_range
    pub support : IsSupport card price e.support
    pub near : (absolute (price ⊖ e.support) ≤? e.support ⊗ lit 4 3) ≡ true
    pub low : IsLow card.range_position_pct
    pub allowed : IsAllowed card price higher prev cfg.trend_mode e.support
    pub confirmed : IsConfirmed cfg.entry_mode rep e.support
    pub entry : e.entry ≡ price
    pub stop : e.stop ≡ round (e.support ⊗ (lit 1 0 ⊖ lit 2 3)) 4
    pub below : (e.stop <? price) ≡ true
    pub target : (t : F) × (e.target ≡ round t 4) × IsAim card price t
    pub rr : e.rr ≡ round ((e.target ⊖ price) ⊘ (price ⊖ e.stop)) 2

  no_gap : (gap : Option F) → is_gap_down gap ≡ false → IsNoGapDown gap
  no_gap none h = tt
  no_gap (some g) h = h

  pub low_lem : (pos : Option F) → in_lower_range pos ≡ true → IsLow pos
  low_lem none h = tt
  low_lem (some pos) h = h

  pub allowed_lem :
      (card : DayCard F) (price : F) (higher : Option Direction) (prev : Option F)
      (mode : TrendMode) (support : F)
      → trend_gate mode higher
          (gap_between (session_open price card.day_change_pct) prev)
          (confidence_at card support (support ⊗ support_band_pct))
        ≡ true
      → IsAllowed card price higher prev mode support
  unfolding trend_gate
  allowed_lem card price higher prev strong_support support h = ground arith
  allowed_lem card price none prev with_trend support h = ground arith
  allowed_lem card price (some bear) prev with_trend support h = ground arith
  allowed_lem card price (some neutral) prev with_trend support h = ground arith
  allowed_lem card price (some bull) prev with_trend support h =
      (refl, no_gap (gap_between (session_open price card.day_change_pct) prev) (ground arith))

  bar_lem :
      (r : SwingReport F) (last : Option (SwingBar F)) (support : F)
      → get_last? r.bars ≡ last
      → bar_reverses support (support ⊗ support_band_pct) last ≡ true
      → IsConfirmed confirmed (some r) support
  bar_lem r none support e h = ground arith
  bar_lem r (some b) support e h = (r, b, refl, e, ground arith, ground arith, ground arith)

  pub confirmed_lem :
      (mode : EntryMode) (rep : Option (SwingReport F)) (support : F)
      → entry_gate mode rep support (support ⊗ support_band_pct) ≡ true
      → IsConfirmed mode rep support
  unfolding reversed_up
  confirmed_lem touch rep support h = tt
  confirmed_lem confirmed none support h = ground arith
  confirmed_lem confirmed (some r) support h = bar_lem r (get_last? r.bars) support refl h

  module _ (order : IsOrdered F) where
    pub target_most :
        (price : F) (next : Option F) → (target_at price next ≤? price ⊗ (lit 1 0 ⊕ lit 3 2)) ≡ true
    target_most price none = order.le_refl (price ⊗ (lit 1 0 ⊕ lit 3 2))
    target_most price (some next) = elim (Bool-cases (truthy next && truthy (next ⊗ lit 995 3))) [
      | inl e ↦ rw e (min-le order (price ⊗ (lit 1 0 ⊕ lit 3 2)) (next ⊗ lit 995 3))
      | inr e ↦ rw e (order.le_refl (price ⊗ (lit 1 0 ⊕ lit 3 2)))
    ]

    pub target-IsUnder : (price : F) (next : Option F) → IsUnder (target_at price next) next
    target-IsUnder price none = tt
    target-IsUnder price (some next) =
        elim (Bool-cases (truthy next && truthy (next ⊗ lit 995 3))) [
          | inl e ↦ rw e (inr (min-le_right order (price ⊗ (lit 1 0 ⊕ lit 3 2)) (next ⊗ lit 995 3)))
          | inr e ↦ rw e (inl refl)
        ]

-- ===== src/Reversal/Fired.antt =====
-- When the entry of stockanalyzer/analysis/reversal.py fires.
use stock_graph_analyzer.Base.{◌≡◌, Bool, false, ◌&&◌, Option, some, none}
use stock_graph_analyzer.Float.{Float, ◌≥?◌, ◌<?◌, ◌⊖◌, ◌⊘◌, ◌⊗◌, lit, round}
use stock_graph_analyzer.Session.{Instant, opening_range, market_phase}
use stock_graph_analyzer.Signals.{Direction}
use stock_graph_analyzer.Swing.{SwingReport}
use stock_graph_analyzer.Reversal.{
  DayCard, ReversalConfig, ReversalEntry, support_band_pct, rev_min_aim, nearest_support, is_near,
  confidence_at, gap_between, session_open, in_lower_range, trend_gate, entry_gate, target_at,
  stop_under,
}
use stock_graph_analyzer.Reversal.Entry.{IsEntry}

module _ {F : Type 0} ⦃f : Float F⦄ where
  -- the gates at a support, in the mode's order
  abbrev pub gates :
      DayCard F
      → Option (SwingReport F)
      → F
      → Option Direction
      → Option F
      → ReversalConfig
      → F
      → Bool
  gates card rep price higher prev cfg support =
      (is_near (support ⊗ support_band_pct) support price && in_lower_range card.range_position_pct)
      && (trend_gate cfg.trend_mode higher
            (gap_between (session_open price card.day_change_pct) prev)
            (confidence_at card support (support ⊗ support_band_pct))
          && entry_gate cfg.entry_mode rep support (support ⊗ support_band_pct))

  -- the stop is below the entry and the target far enough
  abbrev pub is_worth : DayCard F → F → F → Bool
  is_worth card price support =
      stop_under support <? price
      && (target_at price card.next_target ⊘ price ⊖ lit 1 0 ≥? rev_min_aim)

  -- the entry at a support
  abbrev pub entry_of : DayCard F → F → F → ReversalEntry F
  entry_of card price support =
      let target = round (target_at price card.next_target) 4 in
      record {
        support = support;
        entry = price;
        stop = stop_under support;
        target = target;
        rr = round ((target ⊖ price) ⊘ (price ⊖ stop_under support)) 2;
      }

  -- the decision: an entry, or one of the conditions fails
  pub data IsReversal (card : DayCard F) (rep : Option (SwingReport F)) (price : F)
      (higher : Option Direction) (prev : Option F) (asof : Instant) (cfg : ReversalConfig)
      : Option (ReversalEntry F) → Type 0 where
    fires :
        (e : ReversalEntry F)
        → IsEntry card rep price higher prev asof cfg e
        → IsReversal card rep price higher prev asof cfg (some e)
    worthless : (lit 0 0 <? price) ≡ false → IsReversal card rep price higher prev asof cfg none
    too_early :
        market_phase asof ≡ opening_range → IsReversal card rep price higher prev asof cfg none
    no_support :
        nearest_support card price ≡ none → IsReversal card rep price higher prev asof cfg none
    rests :
        (support : F)
        → nearest_support card price ≡ some support
        → (gates card rep price higher prev cfg support && is_worth card price support) ≡ false
        → IsReversal card rep price higher prev asof cfg none

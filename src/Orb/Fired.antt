-- ===== src/Orb/Fired.antt =====
-- When the Gap-and-Go entry of stockanalyzer/analysis/orb.py fires.
use stock_graph_analyzer.Base.{◌≡◌, Bool, true, false, ◌&&◌, Option, some, none}
use stock_graph_analyzer.Float.{Float, IsOrdered, ◌≥?◌, ◌<?◌, round, ◌⊖◌, ◌⊘◌}
use stock_graph_analyzer.Session.{Instant, regular, market_phase, is_orb_window, is_friday_flat}
use stock_graph_analyzer.Swing.{SwingReport, Stats}
use stock_graph_analyzer.Orb.{
  OpeningRange, GapEntry, opening_range, is_gap_up, gap_min_pct, stop_of, target_of, above,
  min_breakout_rvol, rvol_of,
}

module _ {F : Type 0} ⦃f : Float F⦄ where
  pub data IsGapGo (stats : Stats F) (rep : Option (SwingReport F)) (prev price : Option F)
      (asof : Instant) : Option (GapEntry F) → Type 0 where
    fires :
        (o : OpeningRange F) (gap p : F)
        → opening_range rep prev asof ≡ some o
        → price ≡ some p
        → market_phase asof ≡ regular
        → is_orb_window asof ≡ true
        → is_friday_flat asof ≡ false
        → o.gap_pct ≡ some gap
        → (gap ≥? gap_min_pct) ≡ true
        → (p ≥? o.high) ≡ true
        → above min_breakout_rvol (rvol_of stats rep) ≡ true
        → (stop_of o <? p) ≡ true
        → IsGapGo stats rep prev price asof (
            some record {
              entry = p;
              stop = stop_of o;
              target = target_of p (stop_of o);
              rr = round ((target_of p (stop_of o) ⊖ p) ⊘ (p ⊖ stop_of o)) 2;
            })
    no_range : opening_range rep prev asof ≡ none → IsGapGo stats rep prev price asof none
    no_price : price ≡ none → IsGapGo stats rep prev price asof none
    rests :
        (o : OpeningRange F) (p : F)
        → opening_range rep prev asof ≡ some o
        → price ≡ some p
        → (o.gap_up
            && (is_orb_window asof
                && (p ≥? o.high
                    && (above min_breakout_rvol (rvol_of stats rep) && stop_of o <? p))))
          ≡ false
        → IsGapGo stats rep prev price asof none

  -- what a range says of its gap
  abbrev IsConsistent : Option (OpeningRange F) → Type 0
  IsConsistent none = Unit
  IsConsistent (some o) = o.gap_up ≡ is_gap_up o.gap_pct

  module _ (order : IsOrdered F) where
    -- whether the gates let an entry through
    abbrev gates : Stats F → Option (SwingReport F) → OpeningRange F → F → Instant → Bool
    gates stats rep o p asof =
        o.gap_up
        && (is_orb_window asof && (p ≥? o.high && above min_breakout_rvol (rvol_of stats rep)))

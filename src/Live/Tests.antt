-- ===== src/Live/Tests.antt =====
-- Events between two concrete snapshots of stockanalyzer/live_events.py.
use stock_graph_analyzer.Base.{◌≡◌, refl, true, false, some, none, [], ◌∷◌, Text, codes, text_eq}
use stock_graph_analyzer.Base.Int.{ℤ, pos}
use stock_graph_analyzer.Float.{lit}
use stock_graph_analyzer.Float.Fixed.{fixed_float}
use stock_graph_analyzer.Live.{
  LiveState, turned_go, signal_new, signal_gone, kind_changed, trigger_hit, diff_states, is_in,
  crossed, meta_of, sorted, insert_sorted, text_leb,
}
use stock_graph_analyzer.Live.Replay.{replay, seen, setup_after, diff_states-replayed}

abbrev waiting : LiveState ℤ
waiting = record {
  light = codes "forming";
  swing_go = false;
  rr = lit 15 1;
  swing_setup = codes "base";
  trend_change_likely = false;
  trend_change_dir = [];
  preset_key = [];
  preset_label = [];
  signals = codes "hammer" ∷ codes "gap" ∷ [];
  price = lit 99 0;
  stop = some (lit 95 0);
  target = some (lit 110 0);
  key_level = none;
  kind = codes "breakout_wait";
  trigger = some (lit 100 0);
  bull = true;
  signal_meta = [];
}

abbrev broken_out : LiveState ℤ
broken_out = record waiting {
  swing_go = true;
  rr = lit 26 1;
  swing_setup = [];
  signals = codes "squeeze" ∷ codes "gap" ∷ codes "doji" ∷ [];
  price = lit 101 0;
  kind = codes "immediate";
}

-- new names are sorted, and the crossed trigger comes after them
breakout_events :
    diff_states (some waiting) broken_out
    ≡ turned_go (lit 26 1)
      ∷ signal_new (codes "doji") (pos 0) (lit 0 0)
      ∷ signal_new (codes "squeeze") (pos 0) (lit 0 0)
      ∷ signal_gone (codes "hammer") (pos 0) (lit 0 0)
      ∷ kind_changed (codes "breakout_wait") (codes "immediate")
      ∷ trigger_hit (lit 100 0)
      ∷ []
unfolding diff_states crossed meta_of sorted insert_sorted text_leb text_eq
breakout_events = refl

diff_states-replayed_example :
    ((replay (diff_states (some waiting) broken_out) (seen waiting)).go ≡ true)
    × ((replay (diff_states (some waiting) broken_out) (seen waiting)).setup
        ≡ setup_after waiting broken_out)
    × ((n : Text)
        → is_in n (replay (diff_states (some waiting) broken_out) (seen waiting)).names
          ≡ is_in n broken_out.signals)
diff_states-replayed_example = diff_states-replayed waiting broken_out

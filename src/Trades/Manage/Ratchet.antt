-- ===== src/Trades/Manage/Ratchet.antt =====
-- `manage_trades` (stockanalyzer/data/store.py) never widens a stop.
use stock_graph_analyzer.Base.{◌≡◌, ◌⊎◌, true, none, some, List, [], ◌∷◌, All}
use stock_graph_analyzer.Float.{Float, ◌≤?◌, ◌>?◌, round}
use stock_graph_analyzer.Trades.{opened, closed, Reason, Trade}
use stock_graph_analyzer.Trades.Manage.{Event, Work}

module _ {F : Type 0} ⦃f : Float F⦄ where
  -- A logged move is the row's, from the stop that it had. It was proposed strictly above that stop and
  -- is logged rounded to four places, so it is at least the old stop.
  abbrev pub IsTightening : Trade F → Event F → Type 0
  IsTightening p e = (e.trade ≡ p.id) × elim e.new_stop [
    | none ↦ Unit
    | some t ↦ (s : F) × (t ≡ round s 4) × ((s >? e.old_stop) ≡ true) × ((e.old_stop ≤? t) ≡ true)
  ]

  abbrev pub next_stop : F → Event F → F
  next_stop stop e = elim e.new_stop [ none ↦ stop | some t ↦ t ]

  -- the stop after the logged events
  abbrev pub last_stop : F → List (Event F) → F
  last_stop stop [] = stop
  last_stop stop (e ∷ es) = last_stop (next_stop stop e) es

  -- each event starts at the stop that the one before it left
  abbrev pub IsChain : F → List (Event F) → Type 0
  IsChain stop [] = Unit {0}
  IsChain stop (e ∷ es) = (e.old_stop ≡ stop) × IsChain (next_stop stop e) es

  -- What holds of the work w on an open row p whose stop is rounded.
  pub record IsRatcheted (p : Trade F) (w : Work F) : Type 0 where
    pub above : (p.stop ≤? w.row.stop) ≡ true
    pub rounded : round w.row.stop 4 ≡ w.row.stop
    pub status :
        (w.row.status ≡ opened)
        ⊎ ((w.row.status ≡ closed) × (w.row.close_reason ≡ some Reason.weekend_flat))
    pub logged : All (IsTightening p) w.events
    pub chained : IsChain p.stop w.events
    pub last : last_stop p.stop w.events ≡ w.row.stop
    pub id : w.row.id ≡ p.id
    pub entry : w.row.entry ≡ p.entry
    pub target : w.row.target ≡ p.target
    pub shares : w.row.shares ≡ p.shares
    pub init_stop : w.row.init_stop ≡ p.init_stop

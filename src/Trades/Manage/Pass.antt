-- ===== src/Trades/Manage/Pass.antt =====
-- `manage_trades` (stockanalyzer/data/store.py) as one pass over the table.
use mathlib.Core.Path.{fun_ext}
use stock_graph_analyzer.Base.{
  ℕ, ◌+◌, ◌≡◌, refl, ap, ◌∙◌, Bool, true, Option, none, some, List, [], ◌∷◌, ◌++◌, map,
  if◌then◌else◌, Text, upper, filter, All, All-append, arith, Bool-cases, inl, inr,
}
use stock_graph_analyzer.Float.{Float, ◌>?◌, round}
use stock_graph_analyzer.Table.{run, write_rows, write_rows-filter, IsKeyed, KeepsId}
use stock_graph_analyzer.Signals.{TrendChange}
use stock_graph_analyzer.Frames.{Reports}
use stock_graph_analyzer.Manage.{ManageAction, Picture, spread_per_share, assess_position}
use stock_graph_analyzer.Trades.{Reason, Trade, Env, trade_id, now_or, close_row}
use stock_graph_analyzer.Trades.Mark.{no_price}
use stock_graph_analyzer.Trades.Manage.{
  Event, Work, Managed, log_event, set_stop, update_excursions, apply_flat, apply_stop,
  apply_new_stop, apply_actions, start_work, position_of, picture_for, manage_row, manage_rows,
  is_managed, picture, manage_trades, is_weekend_flat,
}

pub run-append :
    {F : Type 0} (fs gs : List (Trade F → Trade F)) (p : Trade F)
    → run trade_id (fs ++ gs) p ≡ run trade_id gs (run trade_id fs p)
run-append [] gs p = refl
run-append (g ∷ fs) gs p = run-append fs gs (g p)

module _ {F : Type 0} ⦃f : Float F⦄ where
  -- the number of logged stop moves
  abbrev pub stop_events : List (Event F) → ℕ
  stop_events [] = 0
  stop_events (e ∷ es) = elim e.new_stop [ none ↦ 0 | some _ ↦ 1 ] + stop_events es

  pub stop_events-append :
      (es gs : List (Event F)) → stop_events (es ++ gs) ≡ stop_events es + stop_events gs
  stop_events-append [] gs = omega arith
  stop_events-append (e ∷ es) gs = omega (arith, stop_events-append es gs)

  -- the stored row: the one that the code holds, with each logged stop move counted
  abbrev pub stored_row : Trade F → Work F → Trade F
  stored_row p w = record w.row { stop_moves = p.stop_moves + stop_events w.events }

  -- what the UPDATEs make of the stored row, and the code of its own
  pub record IsWritten (p : Trade F) (w : Work F) : Type 0 where
    pub same : run trade_id w.writes p ≡ stored_row p w
    pub held : w.row.stop_moves ≡ p.stop_moves
    pub keeps : All (KeepsId trade_id) w.writes

  moves_after :
      (p : Trade F) (w : Work F) (e : Event F) (n : ℕ)
      → n ≡ p.stop_moves + stop_events w.events + stop_events (e ∷ [])
      → n ≡ p.stop_moves + stop_events (w.events ++ (e ∷ []))
  moves_after p w e n h = omega (arith, h, stop_events-append w.events (e ∷ []))

  apply_flat-IsWritten :
      (p : Trade F) (env : Env F) (price now : F) (a : ManageAction F) (w : Work F)
      → IsWritten p w
      → IsWritten p (apply_flat env price now a w)
  unfolding apply_flat close_row
  apply_flat-IsWritten p env price now a w h = record {
    same =
        run-append w.writes _ p
        ∙ (ap (close_row env price Reason.weekend_flat now spread_per_share) h.same
            ∙ ap
                (λ n. record (close_row env price Reason.weekend_flat now spread_per_share w.row) {
                  stop_moves = n;
                })
                (moves_after p w
                  (log_event (close_row env price Reason.weekend_flat now spread_per_share w.row)
                    now a.kind price w.row.stop none a.fraction)
                  (p.stop_moves + stop_events w.events) (omega arith)));
    held = h.held;
    keeps = All-append (KeepsId trade_id) w.writes _ h.keeps (λ r. refl, tt);
  }

  apply_stop-IsWritten :
      (p : Trade F) (price now : F) (a : ManageAction F) (s : F) (w : Work F)
      → IsWritten p w
      → IsWritten p (apply_stop price now a s w)
  unfolding apply_stop
  apply_stop-IsWritten p price now a s w h = record {
    same =
        run-append w.writes _ p
        ∙ (ap (set_stop (round s 4)) h.same
            ∙ ap (λ n. record w.row { stop = round s 4; stop_moves = n })
                (moves_after p w
                  (log_event w.row now a.kind price w.row.stop (some (round s 4)) none)
                  (p.stop_moves + stop_events w.events + 1) (omega arith)));
    held = h.held;
    keeps = All-append (KeepsId trade_id) w.writes _ h.keeps (λ r. refl, tt);
  }

  apply_new_stop_keep :
      (P : Work F → Type 0) (price now : F) (a : ManageAction F)
      → ((s : F) (w : Work F) → (s >? w.row.stop) ≡ true → P w → P (apply_stop price now a s w))
      → (s : Option F) (w : Work F) → P w
      → P (apply_new_stop price now a s w)
  unfolding apply_new_stop
  apply_new_stop_keep P price now a stop none w h = h
  apply_new_stop_keep P price now a stop (some s) w h = elim (Bool-cases (s >? w.row.stop)) [
    | inl above ↦ rw above (stop s w above h)
    | inr below ↦ rw below h
  ]

  -- What a close and a tightened stop keep, the loop over the actions keeps.
  pub apply_actions_keep :
      (P : Work F → Type 0) (env : Env F) (price now : F)
      → ((a : ManageAction F) (w : Work F) → P w → P (apply_flat env price now a w))
      → ((a : ManageAction F) (s : F) (w : Work F)
          → (s >? w.row.stop) ≡ true
          → P w
          → P (apply_stop price now a s w))
      → (actions : List (ManageAction F)) (w : Work F) → P w
      → P (apply_actions env price now actions w)
  unfolding apply_actions
  apply_actions_keep P env price now flat stop [] w h = h
  apply_actions_keep P env price now flat stop (a ∷ as') w h =
      elim (Bool-cases (is_weekend_flat a.kind)) [
        | inl weekend ↦ rw weekend (flat a w h)
        | inr weekday ↦ rw weekday (
            apply_actions_keep P env price now flat stop as'
              (apply_new_stop price now a a.new_stop w)
              (apply_new_stop_keep P price now a (stop a) a.new_stop w h))
      ]

  excursions_kept : (price : F) (p : Trade F) → (start_work price p).row.stop_moves ≡ p.stop_moves
  unfolding update_excursions
  excursions_kept price p = ground arith

  start_work-IsWritten : (price : F) (p : Trade F) → IsWritten p (start_work price p)
  unfolding update_excursions
  start_work-IsWritten price p = record {
    same =
        ap (λ n. record (start_work price p).row { stop_moves = n })
          (omega (arith, excursions_kept price p));
    held = excursions_kept price p;
    keeps = ground arith;
  }

  manage_row-IsWritten :
      (env : Env F) (price now : F) (m : Picture F) (p : Trade F)
      → IsWritten p (manage_row env price now m p)
  unfolding manage_row
  manage_row-IsWritten env price now m p =
      apply_actions_keep (IsWritten p) env price now (apply_flat-IsWritten p env price now)
        (λ a s w above. apply_stop-IsWritten p price now a s w)
        (assess_position (position_of (start_work price p).row) price
          (picture_for m (start_work price p).row))
        (start_work price p) (start_work-IsWritten price p)

  manage_rows-trades :
      (env : Env F) (price now : F) (m : Picture F) (ps : List (Trade F)) (s : Managed F)
      → (manage_rows env price now m ps s).trades
        ≡ write_rows trade_id (λ p. (manage_row env price now m p).writes) ps s.trades
  unfolding manage_rows
  manage_rows-trades env price now m [] s = refl
  manage_rows-trades env price now m (p ∷ ps) s = manage_rows-trades env price now m ps _

  map_if :
      (sel : Trade F → Bool) (g h : Trade F → Trade F) (t : List (Trade F))
      → ((p : Trade F) → g p ≡ h p)
      → map (λ p. if sel p then g p else p) t ≡ map (λ p. if sel p then h p else p) t
  map_if sel g h t e = rw (fun_ext e)

  -- On a table without repeated ids, after `manage_trades` each managed open row of the ticker is stored
  -- as the loop's body for that row alone holds it at its end, with `stop_moves` grown by the stop moves
  -- that it logged, which only the database counts; every other row is as it was, and a price that is
  -- zero or negative leaves them all.
  pub manage_trades_pass :
      (env : Env F) (ticker : Text) (price : F) (reports : Reports F)
      (trend_change : Option (TrendChange F)) (now : Option F) (friday_flat : Option Bool)
      (s : Managed F)
      → IsKeyed trade_id s.trades
      → (manage_trades env ticker price reports trend_change now friday_flat s).trades ≡ (
          if no_price price
          then s.trades
          else map
              (λ p.
                if is_managed (upper ticker) p
                then stored_row p (
                    manage_row env price
                      (now_or now env.time)
                      (picture env reports trend_change (now_or now env.time) friday_flat)
                      p)
                else p)
              s.trades)
  unfolding manage_trades
  manage_trades_pass env ticker price reports trend_change now friday_flat s keyed =
      let at = now_or now env.time in
      let m = picture env reports trend_change at friday_flat in
      let written = manage_row-IsWritten env price at m in
      elim (Bool-cases (no_price price)) [
        | inl none_given ↦ rw none_given
        | inr given ↦ rw given (
            manage_rows-trades env price at m (filter (is_managed (upper ticker)) s.trades) _
            ∙ write_rows-filter trade_id (λ p. (manage_row env price at m p).writes)
                (is_managed (upper ticker)) s.trades (λ p. (written p).keeps) keyed
            ∙ map_if (is_managed (upper ticker)) _ _ s.trades (λ p. (written p).same))
      ]

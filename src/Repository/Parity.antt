-- ===== src/Repository/Parity.antt =====
-- The two implementations of the trade book agree: `TradeRepository.mark`
-- (stockanalyzer/db/repositories/trades.py) and `mark_trades` (stockanalyzer/data/store.py).
use stock_graph_analyzer.Base.{
  ◌≡◌, inl, inr, refl, not, Option, some, List, [], ◌∷◌, map, if◌then◌else◌, filter, Text, text_eq,
  upper, All, arith, Bool-cases, is_some,
}
use stock_graph_analyzer.Float.{Float, ◌⊖◌, lit, round, is_truthy}
use stock_graph_analyzer.Table.{run, IsKeyed}
use stock_graph_analyzer.Trades.{Reason, Trade, Env, trade_id, now_or, close_row, set_cancelled}
use stock_graph_analyzer.Trades.Mark
use stock_graph_analyzer.Trades.Mark.{is_marked, no_price}
use stock_graph_analyzer.Trades.Mark.Pass.{writes_of, marked, mark_trades_pass}
use stock_graph_analyzer.Repository.{
  Owned, finish, mark_pending, mark_opened, mark_row, mark_table, mark,
}

-- `x - 0.0` is x
abbrev pub SubZero : (F : Type 0) ⦃f : Float F⦄ → Type 0
SubZero F = (x : F) → x ⊖ lit 0 0 ≡ x

module _ {F : Type 0} ⦃f : Float F⦄ where
  -- a stamped break-out is not at the time zero, which the store would take for none
  abbrev pub IsStamped : Trade F → Type 0
  IsStamped p = is_some p.broke_out_ts ≡ is_truthy p.broke_out_ts

  -- Closing with a spread, the repository stores the exit price less the spread, and the store the
  -- exit price itself; in every other column the two agree.
  pub finish-close_row :
      (env : Env F) (x now spread : F) (reason : Reason) (p : Trade F)
      → finish env (some x) reason now spread p
        ≡ record (close_row env x reason now spread p) { exit_price = some (round (x ⊖ spread) 4) }
  unfolding finish close_row
  finish-close_row env x now spread reason p = refl

  abbrev after : Trade F → Mark.Mark F → Trade F
  after p k = run trade_id (writes_of k) p

  pending-parity :
      (env : Env F) (price now : F) (p : Trade F)
      → IsStamped p
      → (mark_pending env price now p).0 ≡ after p (Mark.mark_pending env price now p)
  unfolding mark_pending Mark.mark_pending finish set_cancelled
  pending-parity env price now p h = ground arith

  opened-parity :
      (env : Env F) (price now : F) (p : Trade F)
      → SubZero F
      → (mark_opened env price now p).0 ≡ after p (Mark.mark_opened env price now p)
  unfolding mark_opened Mark.mark_opened finish close_row
  opened-parity env price now p z = ground (arith, z p.stop, z p.target, z price)

  mark_row-parity :
      (env : Env F) (price now : F) (p : Trade F)
      → SubZero F
      → IsStamped p
      → (mark_row env price now p).0 ≡ marked env price now p
  unfolding mark_row Mark.mark_row
  mark_row-parity env price now p z h =
      ground (arith, pending-parity env price now p h, opened-parity env price now p z)

  -- the rows of one user
  abbrev pub own : Text → List (Owned F) → List (Trade F)
  own user table = map (λ o. o.trade) (filter (λ o. text_eq o.user user) table)

  -- the rows of the other users
  abbrev pub foreign : Text → List (Owned F) → List (Owned F)
  foreign user table = filter (λ o. not (text_eq o.user user)) table

  own-mark_table :
      (env : Env F) (user ticker : Text) (price now : F) (table : List (Owned F))
      → SubZero F
      → All IsStamped (own user table)
      → own user (mark_table env user ticker price now table).0
        ≡ map (λ p. if is_marked ticker p then marked env price now p else p) (own user table)
  unfolding mark_table
  own-mark_table env user ticker price now [] z h = refl
  own-mark_table env user ticker price now (o ∷ os) z h = ground (
    arith,
    own-mark_table env user ticker price now os z,
    mark_row-parity env price now o.trade z,
  )

  foreign-mark_table :
      (env : Env F) (user ticker : Text) (price now : F) (table : List (Owned F))
      → foreign user (mark_table env user ticker price now table).0 ≡ foreign user table
  unfolding mark_table
  foreign-mark_table env user ticker price now [] = refl
  foreign-mark_table env user ticker price now (o ∷ os) =
      ground (arith, foreign-mark_table env user ticker price now os)

  -- Marking a user's rows in PostgreSQL gives the table that the SQLite store makes of those rows
  -- alone, and leaves every row of the other users as it is; where x - 0.0 is x, the user's rows have
  -- distinct ids, and no break-out is stamped with the time zero.
  pub mark-parity :
      (env : Env F) (user ticker : Text) (price : F) (now : Option F) (table : List (Owned F))
      → SubZero F
      → IsKeyed trade_id (own user table)
      → All IsStamped (own user table)
      → let after_mark = (mark env user ticker price now table).0 in
        (own user after_mark ≡ (Mark.mark_trades env ticker price now (own user table)).trades)
        × (foreign user after_mark ≡ foreign user table)
  unfolding mark
  mark-parity env user ticker price now table z keyed stamped =
      rw (mark_trades_pass env ticker price now (own user table) keyed)
        elim (Bool-cases (no_price price)) [
          | inl none_given ↦ rw none_given (refl, refl)
          | inr given ↦ rw given (
            own-mark_table env user (upper ticker) price (now_or now env.time) table z stamped,
            foreign-mark_table env user (upper ticker) price (now_or now env.time) table,
          )
        ]

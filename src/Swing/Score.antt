-- ===== src/Swing/Score.antt =====
-- The score of a setup: the sums, the bonus and the label of `_swing_score`,
-- stockanalyzer/explain/swing.py.
pub mod Bands
use stock_graph_analyzer.Base.{
  ℕ, ◌+◌, ◌*◌, ◌==◌, Bool, true, false, not, ◌&&◌, List, [], ◌∷◌, ◌++◌, if◌then◌else◌, any, ltb,
  leb,
}
use stock_graph_analyzer.Float.{Float, ◌⊕◌, ◌⊖◌, ◌⊗◌, ◌⊘◌, ◌≥?◌, ◌<?◌, lit, min, round}
use stock_graph_analyzer.Swing.{Geometry}
use stock_graph_analyzer.Swing.Levels.{absolute}
use stock_graph_analyzer.Swing.Checks.{
  CheckName, SwingCheck, row, clear_path, soft_rsi, range_half, confluence,
}

pub data ScoreLabel : Type 0 where
  strong good weak_wait avoid : ScoreLabel

-- `c.weight / 2 if c.na else c.weight`, in halves
abbrev pub halves : SwingCheck → ℕ
halves c = if c.na then c.weight else 2 * c.weight

-- twice the denominator
unfoldable pub denom_halves : List SwingCheck → ℕ
denom_halves [] = 0
denom_halves (c ∷ cs) = halves c + denom_halves cs

abbrev pub earns : SwingCheck → Bool
earns c = c.ok && not c.na

unfoldable pub earned : List SwingCheck → ℕ
earned [] = 0
earned (c ∷ cs) = (if earns c then c.weight else 0) + earned cs

abbrev is_name : CheckName → CheckName → Bool
is_name clear_path clear_path = true
is_name soft_rsi soft_rsi = true
is_name range_half range_half = true
is_name _ _ = false

-- `_ok`
abbrev pub has_ok : CheckName → List SwingCheck → Bool
has_ok name = any (λ c. earns c && is_name name c.name)

abbrev count_if : Bool → ℕ
count_if b = if b then 1 else 0

unfoldable pub rebound_hits : List SwingCheck → ℕ
rebound_hits checks = count_if (has_ok soft_rsi checks) + count_if (has_ok range_half checks)

unfoldable pub bonus_of : Bool → List SwingCheck → ℕ
unfolding rebound_hits
bonus_of core checks =
    let hits = rebound_hits checks in
    if core && leb 1 hits then (if hits == 1 then 8 else 12) else 0

module _ {F : Type 0} ⦃f : Float F⦄ where
  -- `round(earned / denom * 100) if denom else 0`
  unfoldable pub base_pct : List SwingCheck → F
  unfolding denom_halves earned
  base_pct checks =
      let denom = denom_halves checks in
      if denom == 0
      then lit 0 0
      else round (lit (earned checks) 0 ⊘ lit (denom * 5) 1 ⊗ lit 100 0) 0

  abbrev pub is_core : Bool → Bool → F → List SwingCheck → Bool
  is_core setup_present countertrend rr checks =
      setup_present && (not countertrend && ((rr ≥? lit 15 1) && has_ok clear_path checks))

  -- the aim in percent
  abbrev pub aim_pct : Geometry F → F
  aim_pct geom = absolute (geom.target ⊘ geom.entry ⊖ lit 1 0) ⊗ lit 100 0

  unfoldable pub score_label : F → ScoreLabel
  score_label pct =
      if pct ≥? lit 75 0
      then strong
      else if pct ≥? lit 55 0
      then good
      else if pct ≥? lit 35 0
      then weak_wait
      else avoid

  -- the score, its label and the rows shown
  unfoldable pub swing_score :
      Bool → Bool → F → Geometry F → List SwingCheck → F × ScoreLabel × List SwingCheck
  unfolding base_pct bonus_of score_label
  swing_score setup_present countertrend rr geom checks =
      let bonus = bonus_of (is_core setup_present countertrend rr checks) checks in
      let raised = min (lit 100 0) (base_pct checks ⊕ lit bonus 0) in
      let pct = if aim_pct geom <? lit 3 0 then min raised (lit 40 0) else raised in
      (pct, score_label pct, checks ++ (if bonus == 0 then [] else row confluence true 0 ∷ []))

-- ===== src/Swing/Emerging.antt =====
-- The demand score of a ticker with little history: stockanalyzer/explain/emerging.py.
pub mod Caps
use stock_graph_analyzer.Base.{
  ℕ, zero, suc, ◌+◌, ◌-◌, ◌/◌, Bool, true, false, not, ◌&&◌, Option, some, none, List, [], ◌∷◌,
  ◌++◌, if◌then◌else◌, ltb, leb, ◌==◌, length, filter, map, take, drop, any,
}
use stock_graph_analyzer.Float.{
  Float, ◌⊕◌, ◌⊖◌, ◌⊗◌, ◌⊘◌, ◌≥?◌, ◌≤?◌, ◌>?◌, ◌<?◌, lit, neg, max, min, round, truthy,
}
use stock_graph_analyzer.Swing.{SwingBar, last_of}

-- the texts of `label` and of `flags`
pub data EmergingLabel : Type 0 where
  distribution_call extended_call healthy_demand building early_unproven weak : EmergingLabel

pub data EmergingFlag : Type 0 where
  extended_flag distribution_risk fading_volume low_history : EmergingFlag

-- `EmergingScore`, without the components and the summary
pub record EmergingScore (F : Type 0) : Type 0 where
  pub score : F
  pub label : EmergingLabel
  pub confidence : F
  pub extended : Bool
  pub bars : ℕ
  pub extension_pct : F
  pub anchor : F
  pub flags : List EmergingFlag

-- `EMERGING_MAX_BARS`
abbrev pub emerging_max_bars : ℕ
emerging_max_bars = 60

-- `["flag"] if test else []`
abbrev flag_if : Bool → EmergingFlag → List EmergingFlag
flag_if test flag = if test then flag ∷ [] else []

module _ {F : Type 0} ⦃f : Float F⦄ where
  -- `EMERGING_SCORE_CAP`, `_DISTRIBUTION_SCORE_CAP`, `HEALTHY_MIN_CONFIDENCE`, `EXT_FLAG`
  abbrev pub emerging_score_cap : F
  emerging_score_cap = lit 75 0

  abbrev pub distribution_score_cap : F
  distribution_score_cap = lit 40 0

  abbrev pub healthy_min_confidence : F
  healthy_min_confidence = lit 3 1

  abbrev pub ext_flag : F
  ext_flag = lit 2 1

  -- `EXT_HEALTHY`, `EXT_BLOWOFF`, `_DISTRIBUTION_MIN_EXT`, `_DISTRIBUTION_MAX_CLOSE`
  abbrev ext_healthy : F
  ext_healthy = lit 12 2

  abbrev ext_blowoff : F
  ext_blowoff = lit 4 1

  abbrev pub distribution_min_ext : F
  distribution_min_ext = lit 8 2

  abbrev pub distribution_max_close : F
  distribution_max_close = lit 35 2

  -- `_clip` between 0 and 1
  abbrev clip : F → F
  clip x = max (lit 0 0) (min (lit 1 0) x)

  abbrev of_nat : ℕ → F
  of_nat n = lit n 0

  abbrev sum_after : F → List F → F
  sum_after acc [] = acc
  sum_after acc (x ∷ xs) = sum_after (acc ⊕ x) xs

  abbrev sum : List F → F
  sum = sum_after (lit 0 0)

  -- how many lows are not below the one before
  abbrev higher_lows : F → List (SwingBar F) → ℕ
  higher_lows low [] = 0
  higher_lows low (b ∷ bs) = (if b.low ≥? low then 1 else 0) + higher_lows b.low bs

  abbrev low_trend : List (SwingBar F) → F
  low_trend [] = lit 5 1
  low_trend (b ∷ []) = lit 5 1
  low_trend (b ∷ c ∷ bs) = of_nat (higher_lows b.low (c ∷ bs)) ⊘ of_nat (length (c ∷ bs))

  unfoldable pub accumulation : List (SwingBar F) → F → F
  accumulation bars anchor =
      let hl = low_trend bars in
      let above =
        if anchor >? lit 0 0
        then of_nat (length (filter (λ b. b.close ≥? anchor) bars)) ⊘ of_nat (length bars)
        else lit 5 1 in
      clip (lit 6 1 ⊗ hl ⊕ lit 4 1 ⊗ above)

  abbrev close_pos : SwingBar F → F
  close_pos b = if b.high ⊖ b.low >? lit 1 9 then (b.close ⊖ b.low) ⊘ (b.high ⊖ b.low) else lit 5 1

  -- the positions, each times its weight, from the weight `k` on; and the weights
  abbrev weighted : ℕ → List (SwingBar F) → List F
  weighted k [] = []
  weighted k (b ∷ bs) = (close_pos b ⊗ of_nat k) ∷ weighted (k + 1) bs

  abbrev weight_total : ℕ → List (SwingBar F) → ℕ
  weight_total k [] = 0
  weight_total k (b ∷ bs) = k + weight_total (k + 1) bs

  unfoldable pub close_strength : List (SwingBar F) → F
  close_strength bars =
      let total = weight_total 1 bars in
      if total == 0 then lit 5 1 else clip (sum (weighted 1 bars) ⊘ of_nat total)

  abbrev volumes : List (SwingBar F) → List F
  volumes = map (λ b. b.volume)

  abbrev average : List F → F
  average xs = sum xs ⊘ of_nat (length xs)

  abbrev close_of : Option F → F
  close_of none = lit 0 0
  close_of (some x) = x

  -- price up and volume down over the halves of the bars
  abbrev fades : List (SwingBar F) → Bool
  fades [] = false
  fades (b ∷ bs) =
      let mid = length (b ∷ bs) / 2 in
      let vols = volumes (b ∷ bs) in
      leb 4 (length (b ∷ bs))
      && (close_of (last_of (λ b. some b.close) (b ∷ bs)) >? b.close
          && (average (drop mid vols) <? average (take mid vols) ⊗ lit 85 2))

  unfoldable pub volume_confirmation : List (SwingBar F) → F × Bool
  volume_confirmation bars =
      let tot = sum (volumes bars) in
      let up_share = sum (volumes (filter (λ b. b.close >? b.opening) bars)) ⊘ tot in
      let fading = fades bars in
      if tot ≤? lit 0 0
      then (lit 5 1, false)
      else (clip (up_share ⊗ (if fading then lit 7 1 else lit 1 0)), fading)

  unfoldable pub vwap_position : F → Option F → Option F
  vwap_position last none = none
  vwap_position last (some vwap) =
      if vwap ≤? lit 0 0 then none else some (clip (lit 5 1 ⊕ (last ⊘ vwap ⊖ lit 1 0) ⊘ lit 8 2))

  unfoldable pub extension_guard : F → F
  extension_guard extension =
      if extension ≤? ext_healthy
      then lit 1 0
      else if extension ≥? ext_blowoff
      then lit 0 0
      else clip (lit 1 0 ⊖ (extension ⊖ ext_healthy) ⊘ (ext_blowoff ⊖ ext_healthy))

  -- `_W_VWAP`, `_W_NO_VWAP`: the sum in the order of the weights
  abbrev weigh_components : F → F → F → F → Option F → F
  weigh_components acc cs vol eg (some vw) = sum (
      (lit 25 2 ⊗ acc)
      ∷ (lit 20 2 ⊗ cs)
      ∷ (lit 20 2 ⊗ vol)
      ∷ (lit 15 2 ⊗ vw)
      ∷ (lit 20 2 ⊗ eg)
      ∷ [])
  weigh_components acc cs vol eg none = sum (
      (lit 25 2 ⊘ lit 85 2 ⊗ acc)
      ∷ (lit 20 2 ⊘ lit 85 2 ⊗ cs)
      ∷ (lit 20 2 ⊘ lit 85 2 ⊗ vol)
      ∷ (lit 20 2 ⊘ lit 85 2 ⊗ eg)
      ∷ [])

  -- `float(offering_price) if offering_price and offering_price > 0 else first`
  abbrev anchor_of : Option F → F → F
  anchor_of none first = first
  anchor_of (some price) first = if truthy price && (price >? lit 0 0) then price else first

  -- a big move off the anchor with weak closes
  abbrev pub is_distribution : F → F → Bool
  is_distribution extension cs = extension ≥? distribution_min_ext && (cs <? distribution_max_close)

  unfoldable pub demand_label : Bool → Bool → F → F → EmergingLabel
  demand_label distribution extended score confidence =
      if distribution
      then distribution_call
      else if extended
      then extended_call
      else if score ≥? lit 65 0 && (confidence ≥? healthy_min_confidence)
      then healthy_demand
      else if score ≥? lit 50 0
      then building
      else if score ≥? lit 35 0
      then early_unproven
      else weak

  -- from the components on
  unfoldable pub assemble : ℕ → F → F → F → F → F × Bool → Option F → EmergingScore F
  unfolding demand_label extension_guard
  assemble bars anchor extension acc cs (vol, fading) vw =
      let raw = weigh_components acc cs vol (extension_guard extension) vw in
      let confidence = round (min (lit 1 0) (of_nat bars ⊘ of_nat emerging_max_bars)) 2 in
      let extended = extension >? ext_flag in
      let distribution = is_distribution extension cs in
      let capped = min emerging_score_cap (round (raw ⊗ lit 100 0) 0) in
      let score = if distribution then min capped distribution_score_cap else capped in
      record {
        score = score;
        label = demand_label distribution extended score confidence;
        confidence = confidence;
        extended = extended;
        bars = bars;
        extension_pct = round (extension ⊗ lit 100 0) 1;
        anchor = round anchor 2;
        flags =
            flag_if extended extended_flag
            ++ (flag_if distribution distribution_risk
                ++ (flag_if fading fading_volume
                    ++ flag_if (confidence <? healthy_min_confidence) low_history));
      }

  -- how far the last close is from the anchor
  abbrev pub extension_of : F → F → F
  extension_of last anchor = if anchor >? lit 0 0 then last ⊘ anchor ⊖ lit 1 0 else lit 0 0

  -- `none` where the source raises: no bar
  unfoldable pub score_emerging : List (SwingBar F) → Option F → Option F → Option (EmergingScore F)
  unfolding assemble accumulation close_strength volume_confirmation vwap_position
  score_emerging [] offering_price vwap = none
  score_emerging (b ∷ bs) offering_price vwap =
      let bars = b ∷ bs in
      let last = close_of (last_of (λ b. some b.close) bars) in
      let anchor = anchor_of offering_price b.opening in
      some (
        assemble (length bars) anchor (extension_of last anchor) (accumulation bars anchor)
          (close_strength bars) (volume_confirmation bars) (vwap_position last vwap))

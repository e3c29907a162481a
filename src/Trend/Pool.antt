-- ===== src/Trend/Pool.antt =====
-- The signals that a trend change counts (stockanalyzer/analysis/trend_change.py).
use stock_graph_analyzer.Base.{
  any, ap, sym, ◌∙◌, ◌≡◌, refl, Bool, true, false, ◌&&◌, inl, inr, List, [], ◌∷◌, filter, All,
  arith, Bool-cases,
}
use stock_graph_analyzer.Signals.{Direction}
use stock_graph_analyzer.Trend.{Signal, direction_eq, is_trigger, is_opposing, or_all, pool_of}

abbrev has_some : {A : Type 0} → List A → Bool
has_some [] = false
has_some (_ ∷ _) = true

pub All-filter_keeps :
    {A : Type 0} (P : A → Type 0) (test : A → Bool) (xs : List A)
    → All P xs
    → All P (filter test xs)
All-filter_keeps P test [] ps = tt
All-filter_keeps P test (x ∷ xs) (p, ps) = elim (Bool-cases (test x)) [
  | inl e ↦ rw e (p, All-filter_keeps P test xs ps)
  | inr e ↦ rw e (All-filter_keeps P test xs ps)
]

filter-filter :
    {A : Type 0} (p q : A → Bool) (xs : List A)
    → filter q (filter p xs) ≡ filter (λ x. p x && q x) xs
filter-filter p q [] = refl
filter-filter p q (x ∷ xs) = ground (arith, filter-filter p q xs)

any-filter : {A : Type 0} (p : A → Bool) (xs : List A) → any p xs ≡ has_some (filter p xs)
any-filter p [] = refl
any-filter p (x ∷ xs) = ground (arith, any-filter p xs)

module _ {F : Type 0} where
  -- a trigger against the trend
  abbrev pub is_counter : Direction → Signal F → Bool
  is_counter trend s = is_trigger s && is_opposing trend s

  -- the signals that count: all triggers against the trend, and all triggers where there is none
  pub data IsPool (trend : Direction) (signals pool : List (Signal F)) : Type 0 where
    against :
        any (is_counter trend) signals ≡ true
        → pool ≡ filter (is_counter trend) signals
        → IsPool trend signals pool
    without :
        any (is_counter trend) signals ≡ false
        → pool ≡ filter is_trigger signals
        → IsPool trend signals pool

  or_all-IsPool :
      (trend : Direction) (signals opposing : List (Signal F))
      → filter (is_counter trend) signals ≡ opposing
      → IsPool trend signals (or_all opposing (filter is_trigger signals))
  or_all-IsPool trend signals [] e =
      without (any-filter (is_counter trend) signals ∙ ap has_some e) refl
  or_all-IsPool trend signals (s ∷ ss) e =
      against (any-filter (is_counter trend) signals ∙ ap has_some e) (sym e)

  pub pool_of-IsPool :
      (trend : Direction) (signals : List (Signal F)) → IsPool trend signals (pool_of trend signals)
  unfolding pool_of
  pool_of-IsPool trend signals =
      or_all-IsPool trend signals (filter (is_opposing trend) (filter is_trigger signals))
        (sym (filter-filter is_trigger (is_opposing trend) signals))

  pub no_agreeing :
      (trend : Direction) (signals : List (Signal F))
      → filter (λ s. direction_eq s.direction trend) (filter (is_counter trend) signals) ≡ []
  no_agreeing trend [] = refl
  no_agreeing trend (s ∷ ss) = ground (arith, no_agreeing trend ss)

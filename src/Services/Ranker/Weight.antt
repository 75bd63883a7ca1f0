-- ===== src/Services/Ranker/Weight.antt =====
-- The cost weight of a free model.
use ultimate_assistant_ai_ga.Base.{
  ℕ, ◌+◌, ◌≤◌, ◌<◌, ◌≡◌, ◌≢◌, String, List, [], ◌∷◌, arith, str_dec, if_pos, if_neg,
}
use ultimate_assistant_ai_ga.Base.Lists.{All}
use ultimate_assistant_ai_ga.Services.Cost.{Rates, pricing, default_rates, rates_of, estimate_cost}
use ultimate_assistant_ai_ga.Services.Ranker.{or_default, cost_weight}

rates_of-All :
    (P : Rates → Type 0) (p m : String) (prices : List ((String × String) × Rates))
    → P default_rates
    → All (λ e. P e.1) prices
    → P (rates_of p m prices)
unfolding rates_of
rates_of-All P p m [] d a = d
rates_of-All P p m (((q, n), r) ∷ prices) d a = elim (str_dec q p) [
  | yes e ↦ elim (str_dec n m) [
    | yes f ↦ rw (if_pos _ e, if_pos _ f) a.0
    | no f ↦ rw (if_pos _ e, if_neg _ f) (rates_of-All P p m prices d a.1)
  ]
  | no e ↦ rw (if_neg _ e) (rates_of-All P p m prices d a.1)
]

abbrev Moderate : Rates → Type 0
Moderate r = r.input + r.output ≤ 9000

moderate : (p m : String) → Moderate (rates_of p m pricing)
moderate p m = rates_of-All Moderate p m pricing (omega arith) (omega arith)

default_heavy : (x y : ℕ) → x ≡ 0 → y ≢ 0 → y ≤ 9000000 → or_default y < or_default x
default_heavy x y free paid h = ground arith

cost_moderate : (q n : String) → estimate_cost q n 1000 1000 ≤ 9000000
unfolding estimate_cost
cost_moderate q n = omega (arith, moderate q n)

-- A model whose estimated cost is zero weighs more in the score than every model that costs
-- something.
pub cost_weight-free :
    (p m q n : String)
    → estimate_cost p m 1000 1000 ≡ 0
    → estimate_cost q n 1000 1000 ≢ 0
    → cost_weight q n < cost_weight p m
unfolding cost_weight
cost_weight-free p m q n free paid = default_heavy _ _ free paid (cost_moderate q n)

-- ===== src/Services/Ranker.antt =====
-- app/services/ranker.py: `ProviderRanker`, over Redis. A median latency is kept in tenths of a
-- millisecond and an error rate in hundredths of a percent, as they are rounded in Redis; a score
-- is kept in whole units of their product with the cost weight, which stands in units of 10^-8
-- dollars. `rounded x k` is `x / k` rounded to a whole number, as Python's `round` does it.
pub mod Order
pub mod Weight
pub mod Stats
use ultimate_assistant_ai_ga.Base.{
  ℕ, ◌+◌, ◌*◌, ◌≤◌, ◌<◌, String, Bool, true, false, Option, none, some, List, [], ◌∷◌, map, ltb,
  leb, if◌then◌else◌, length, ◌==◌,
}
use ultimate_assistant_ai_ga.Base.Action.{Action, ok, modify}
use ultimate_assistant_ai_ga.Redis.{
  Key, Value, text, number, count_of, Redis, latency_p50, errors_rate, stats_success, stats_failure,
}
use ultimate_assistant_ai_ga.Providers.Capabilities.{Candidate}
use ultimate_assistant_ai_ga.Services.Cost.{estimate_cost}
use ultimate_assistant_ai_ga.Services.Interfaces.{Ranker}

-- `rounded` is at most a half away from `x / k`.
abbrev pub IsNearest : ℕ → ℕ → ℕ → Type 0
IsNearest rounded x k = (2 * x ≤ 2 * (rounded * k) + k) × (2 * (rounded * k) ≤ 2 * x + k)

-- Rounding goes to a nearest number.
pub record Rounding : Type 0 where
  pub rounded : ℕ → ℕ → ℕ
  pub rounded-IsNearest : (x k : ℕ) → 0 < k → IsNearest (rounded x k) x k

abbrev pub hour : ℕ
hour = 3600000000

-- `_get_float`, where the number is kept in Redis
abbrev pub number_or : ℕ → Option Value → ℕ
number_or default (some (number n)) = n
number_or default _ = default

-- `estimate_cost(...) or _DEFAULT_COST_WEIGHT`
abbrev or_default : ℕ → ℕ
or_default cost = if cost == 0 then 100000000 else cost

unfoldable pub cost_weight : String → String → ℕ
cost_weight provider model = or_default (estimate_cost provider model 1000 1000)

pub record Scored : Type 0 where
  pub score : ℕ
  pub candidate : Candidate

-- One step of the stable sort by the score: before the first that scores higher.
unfoldable pub place : Scored → List Scored → List Scored
place x [] = x ∷ []
place x (y ∷ ys) = if leb x.score y.score then x ∷ y ∷ ys else y ∷ place x ys

-- `scored.sort(key=lambda x: x[0])`, which is stable
unfoldable pub sort : List Scored → List Scored
unfolding place
sort [] = []
sort (x ∷ xs) = place x (sort xs)

module _ {Store : Type 0} (r : Redis Store) (rounding : Rounding) where
  unfoldable pub score_of : ℕ → Store → Candidate → ℕ
  unfolding cost_weight
  score_of now s c =
      let p50 = number_or 5000 (r.get now (latency_p50 c.provider c.model) s) in
      let error_rate = number_or 0 (r.get now (errors_rate c.provider) s) in
      p50 * (10000 + error_rate) * cost_weight c.provider c.model

  abbrev pub scored : ℕ → Store → List Candidate → List Scored
  scored now s = map (λ c. record { score = score_of now s c; candidate = c })

  unfoldable pub rank : ℕ → Store → List Candidate → List Candidate
  unfolding sort score_of
  rank now s candidates =
      if leb (length candidates) 1
      then candidates
      else map (λ x. x.candidate) (sort (scored now s candidates))

  -- `_update_error_rate`
  unfoldable pub update_error_rate : ℕ → String → Store → Store
  update_error_rate now provider s =
      let successes = count_of (r.get now (stats_success provider) s) in
      let failures = count_of (r.get now (stats_failure provider) s) in
      let total = successes + failures in
      let rate = if ltb 0 total then rounding.rounded (failures * 10000) total else 0 in
      r.setex now (errors_rate provider) hour (number rate) s

  -- `pipe.incr(key); pipe.expire(key, 3600)`
  abbrev pub count_one : ℕ → Key → Store → Store
  count_one now key s = r.expire now key hour (r.incr now key s).1

  -- the moving average: 0.7 of the old value and 0.3 of the new, which is in milliseconds
  abbrev pub new_average : ℕ → ℕ → ℕ
  new_average current latency_ms = rounding.rounded (current * 7 + latency_ms * 10 * 3) 10

  unfoldable pub record_success : ℕ → String → String → ℕ → Store → Store
  unfolding update_error_rate
  record_success now provider model latency_ms s =
      let key = latency_p50 provider model in
      let current = number_or (latency_ms * 10) (r.get now key s) in
      let s1 = r.setex now key hour (number (new_average current latency_ms)) s in
      update_error_rate now provider (count_one now (stats_success provider) s1)

  unfoldable pub record_failure : ℕ → String → String → Store → Store
  unfolding update_error_rate
  record_failure now provider model s =
      update_error_rate now provider (count_one now (stats_failure provider) s)

-- The ranker of a world that holds the Redis server and a clock.
abbrev pub provider_ranker :
    {Store W : Type 0} → Redis Store → Rounding → (W → ℕ) → (W → Store) → (Store → W → W) → Ranker W
provider_ranker r rounding clock redis write = record {
  rank = λ cs w. (ok (rank r rounding (clock w) (redis w) cs), w);
  record_success = λ provider model ms.
      modify (λ w. write (record_success r rounding (clock w) provider model ms (redis w)) w);
  record_failure = λ provider model.
      modify (λ w. write (record_failure r rounding (clock w) provider model (redis w)) w);
}

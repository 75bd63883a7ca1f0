-- ===== src/Services/Ranker/Stats.antt =====
-- What the ranker's statistics hold.
use ultimate_assistant_ai_ga.Base.{
  ℕ, ◌+◌, ◌*◌, ◌<◌, ◌≡◌, refl, ap, ◌∙◌, String, some, none, arith, ltb, if◌then◌else◌, ◌⊎◌, inl,
  inr,
}
use ultimate_assistant_ai_ga.Redis.{
  Key, Value, number, count_of, Redis, RedisLaws, latency_p50, errors_rate, stats_success,
  stats_failure,
}
use ultimate_assistant_ai_ga.Services.Ranker.{
  Rounding, IsNearest, hour, number_or, update_error_rate, count_one, record_success,
}

module _ {Store : Type 0} (r : Redis Store) (laws : RedisLaws r) (rounding : Rounding) where
  setex_self :
      (now : ℕ) (k : Key) (v : Value) (s : Store) → r.get now k (r.setex now k hour v s) ≡ some v
  setex_self now k v s = ground (arith, laws.get-setex now now hour k k v s)

  setex_other :
      (now : ℕ) (k j : Key) (v : Value) (s : Store)
      → (j ≡ k → ⊥)
      → r.get now k (r.setex now j hour v s) ≡ r.get now k s
  setex_other now k j v s ne = ground (arith, laws.get-setex now now hour k j v s)

  count_one_self :
      (now : ℕ) (k : Key) (s : Store)
      → r.get now k (count_one r rounding now k s) ≡ some (number (count_of (r.get now k s) + 1))
  count_one_self now k s =
      ground (arith, laws.get-expire now now hour k (r.incr now k s).1, laws.get-incr now k s)

  count_one_other :
      (now : ℕ) (k j : Key) (s : Store)
      → (j ≡ k → ⊥)
      → r.get now k (count_one r rounding now j s) ≡ r.get now k s
  count_one_other now k j s ne =
      laws.get-expire_ne now now hour k j (r.incr now j s).1 ne ∙ laws.get-incr_ne now now k j s ne

  -- the rate that is kept, of the counts that stand in Redis then
  rate_read :
      (now successes failures : ℕ) (provider : String) (s : Store)
      → count_of (r.get now (stats_success provider) s) ≡ successes
      → count_of (r.get now (stats_failure provider) s) ≡ failures
      → 0 < successes + failures
      → r.get now (errors_rate provider) (update_error_rate r rounding now provider s)
        ≡ some (number (rounding.rounded (failures * 10000) (successes + failures)))
  unfolding update_error_rate
  rate_read now successes failures provider s a b h =
      let n = count_of (r.get now (stats_success provider) s) in
      let m = count_of (r.get now (stats_failure provider) s) in
      let rate : (if ltb 0 (n + m) then rounding.rounded (m * 10000) (n + m) else 0)
          ≡ rounding.rounded (failures * 10000) (successes + failures) =
        rw (a, b) (ground arith) in
      setex_self now (errors_rate provider)
        (number (if ltb 0 (n + m) then rounding.rounded (m * 10000) (n + m) else 0)) s
      ∙ ap (λ x. some (number x)) rate

  rate_apart :
      (now : ℕ) (provider : String) (k : Key) (s : Store)
      → (errors_rate provider ≡ k → ⊥)
      → r.get now k (update_error_rate r rounding now provider s) ≡ r.get now k s
  unfolding update_error_rate
  rate_apart now provider k s ne = setex_other now k (errors_rate provider) _ s ne

  module _ (now : ℕ) (provider model : String) (latency_ms known : ℕ) (s : Store) where
    -- the latency known so far, in tenths of a millisecond: the new one, if there is none
    abbrev pub IsKnown : Type 0
    IsKnown =
        (r.get now (latency_p50 provider model) s ≡ some (number known))
        ⊎ ((r.get now (latency_p50 provider model) s ≡ none) × (known ≡ latency_ms * 10))

    known_read :
        IsKnown → number_or (latency_ms * 10) (r.get now (latency_p50 provider model) s) ≡ known
    known_read (inl e) = rw e refl
    known_read (inr (e, n)) = rw (e, n) refl

    abbrev average : ℕ
    average = rounding.rounded (known * 7 + latency_ms * 10 * 3) 10

    -- the store once the latency is written, and once the success is counted too
    abbrev timed : Store
    timed = r.setex now (latency_p50 provider model) hour (number average) s

    abbrev counted : Store
    counted = count_one r rounding now (stats_success provider) timed

    success_steps :
        IsKnown
        → record_success r rounding now provider model latency_ms s
          ≡ update_error_rate r rounding now provider counted
    unfolding record_success
    success_steps h = rw (known_read h) refl

    timed-successes :
        r.get now (stats_success provider) timed ≡ r.get now (stats_success provider) s
    timed-successes =
        setex_other now (stats_success provider) (latency_p50 provider model) _ s (λ e. cc)

    counted-successes :
        r.get now (stats_success provider) counted
        ≡ some (number (count_of (r.get now (stats_success provider) s) + 1))
    counted-successes =
        count_one_self now (stats_success provider) timed
        ∙ ap (λ o. some (number (count_of o + 1))) timed-successes

    counted-failures :
        r.get now (stats_failure provider) counted ≡ r.get now (stats_failure provider) s
    counted-failures =
        count_one_other now (stats_failure provider) (stats_success provider) timed (λ e. cc)
        ∙ setex_other now (stats_failure provider) (latency_p50 provider model) _ s (λ e. cc)

    counted-latency : r.get now (latency_p50 provider model) counted ≡ some (number average)
    counted-latency =
        count_one_other now (latency_p50 provider model) (stats_success provider) timed (λ e. cc)
        ∙ setex_self now (latency_p50 provider model) (number average) s

    -- After a success the model's latency is seven tenths of what was known and three tenths of the new one, to the
    -- nearest tenth of a millisecond, where a first latency counts as known; the provider has one success more and as
    -- many failures as before; and its error rate is the share of the failures in all of them, to the nearest
    -- hundredth of a percent.
    pub record_success_stats :
        IsKnown
        → let s' = record_success r rounding now provider model latency_ms s in
          let successes = count_of (r.get now (stats_success provider) s) in
          let failures = count_of (r.get now (stats_failure provider) s) in
          (latency rate : ℕ) × (r.get now (latency_p50 provider model) s' ≡ some (number latency))
          × IsNearest latency (7 * known + 3 * (10 * latency_ms)) 10
          × (r.get now (stats_success provider) s' ≡ some (number (successes + 1)))
          × (r.get now (stats_failure provider) s' ≡ r.get now (stats_failure provider) s)
          × (r.get now (errors_rate provider) s' ≡ some (number rate))
          × IsNearest rate (10000 * failures) (successes + 1 + failures)
    record_success_stats h =
        let successes = count_of (r.get now (stats_success provider) s) in
        let failures = count_of (r.get now (stats_failure provider) s) in
        let total = successes + 1 + failures in
        let near = rounding.rounded-IsNearest (failures * 10000) total (omega arith) in
        let mean = rounding.rounded-IsNearest (known * 7 + latency_ms * 10 * 3) 10 (omega arith) in
        rw (success_steps h) (
          average,
          rounding.rounded (failures * 10000) total,
          rate_apart now provider (latency_p50 provider model) counted (λ e. cc) ∙ counted-latency,
          omega (arith, mean),
          rate_apart now provider (stats_success provider) counted (λ e. cc) ∙ counted-successes,
          rate_apart now provider (stats_failure provider) counted (λ e. cc) ∙ counted-failures,
          rate_read now (successes + 1) failures provider counted (ap count_of counted-successes)
              (ap count_of counted-failures) (omega arith),
          omega (arith, near),
        )

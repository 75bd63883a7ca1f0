-- ===== src/Providers/CircuitBreaker/Shared.antt =====
-- The breaker over Redis, for every server that keeps the documented laws.
use ultimate_assistant_ai_ga.Base.{
  ℕ, ◌+◌, ◌-◌, ◌*◌, ◌≤◌, ◌<◌, ◌≡◌, refl, String, true, false, str_dec, arith, none, some, ◌⊎◌,
}
use ultimate_assistant_ai_ga.Redis.{
  Value, text, number, count_of, Redis, RedisLaws, cb_state, cb_last_fail, cb_failures,
  cb_probe_lock,
}
use ultimate_assistant_ai_ga.Providers.CircuitBreaker.{
  redis_is_open, redis_record_success, note_failure, redis_record_failure,
}

module _ {Store : Type 0} (r : Redis Store) (laws : RedisLaws r) (threshold timeout : ℕ) where
  -- A success closes the circuit for good, forgets the failures and frees the probe lock.
  pub redis_success_closes :
      (p : String) (now later : ℕ) (s : Store)
      → let s' = redis_record_success r threshold timeout p s in
        (r.get later (cb_state p) s' ≡ some (text "closed"))
        × (r.get later (cb_failures p) s' ≡ none)
        × (r.get later (cb_probe_lock p) s' ≡ none)
        × ((redis_is_open r threshold timeout p now s').0 ≡ false)
  unfolding redis_record_success redis_is_open str_dec
  redis_success_closes p now later s = (
    grind (arith, laws.get-delete, laws.get-set),
    grind (arith, laws.get-delete, laws.get-set),
    grind (arith, laws.get-delete, laws.get-set),
    grind (arith, laws.get-delete, laws.get-set),
  )

  open_recovered :
      (p : String) (now : ℕ) (s : Store)
      → r.get now (cb_state p) s ≡ some (text "open")
      → timeout < now - count_of (r.get now (cb_last_fail p) s)
      → redis_is_open r threshold timeout p now s
        ≡ (false, r.setex now (cb_state p) timeout (text "half_open") s)
  unfolding redis_is_open str_dec
  open_recovered p now s o h = ground arith

  half_free :
      (p : String) (now : ℕ) (s : Store)
      → r.get now (cb_state p) s ≡ some (text "half_open")
      → r.get now (cb_probe_lock p) s ≡ none
      → redis_is_open r threshold timeout p now s
        ≡ (false, (r.set_nx_ex now (cb_probe_lock p) 10000000 (text "1") s).1)
  unfolding redis_is_open str_dec
  half_free p now s o h =
      ground (arith, laws.set_nx_done now 10000000 (cb_probe_lock p) (text "1") s)

  half_locked :
      (p : String) (now : ℕ) (s : Store) (v : Value)
      → r.get now (cb_state p) s ≡ some (text "half_open")
      → r.get now (cb_probe_lock p) s ≡ some v
      → (redis_is_open r threshold timeout p now s).0 ≡ true
  unfolding redis_is_open str_dec
  half_locked p now s v o h =
      ground (arith, laws.set_nx_done now 10000000 (cb_probe_lock p) (text "1") s)

  -- After the recovery timeout two requests are let through before the first has reported: the one
  -- that moves the circuit to half-open takes no probe lock, so the next one gets it. The third is
  -- refused.
  pub redis_two_probes :
      (p : String) (now : ℕ) (s : Store)
      → r.get now (cb_state p) s ≡ some (text "open")
      → timeout < now - count_of (r.get now (cb_last_fail p) s)
      → r.get now (cb_probe_lock p) s ≡ none
      → 0 < timeout
      → let (first, s1) = redis_is_open r threshold timeout p now s in
        let (second, s2) = redis_is_open r threshold timeout p now s1 in
        (first ≡ false) × (second ≡ false) × ((redis_is_open r threshold timeout p now s2).0 ≡ true)
  redis_two_probes p now s o rec free pos =
      let s1 = r.setex now (cb_state p) timeout (text "half_open") s in
      let s2 = (r.set_nx_ex now (cb_probe_lock p) 10000000 (text "1") s1).1 in
      let half : r.get now (cb_state p) s1 ≡ some (text "half_open") =
        ground
          (arith, laws.get-setex now now timeout (cb_state p) (cb_state p) (text "half_open") s) in
      let unlocked : r.get now (cb_probe_lock p) s1 ≡ none = ground (
        arith,
        laws.get-setex now now timeout (cb_probe_lock p) (cb_state p) (text "half_open") s,
      ) in
      let still : r.get now (cb_state p) s2 ≡ some (text "half_open") =
        ground
          (arith, laws.get-set_nx now now 10000000 (cb_state p) (cb_probe_lock p) (text "1") s1) in
      let locked : r.get now (cb_probe_lock p) s2 ≡ some (text "1") = ground (
        arith,
        laws.get-set_nx now now 10000000 (cb_probe_lock p) (cb_probe_lock p) (text "1") s1,
      ) in
      rw (open_recovered p now s o rec, half_free p now s1 half unlocked)
        (refl, refl, half_locked p now s2 (text "1") still locked)

  -- What the first commands of a recorded failure leave of the provider's keys.
  failure_reads :
      (p : String) (now later : ℕ) (s : Store)
      → let (count, s') = note_failure r threshold timeout p now s in
        (count ≡ count_of (r.get now (cb_failures p) s) + 1)
        × (r.get later (cb_state p) s' ≡ r.get later (cb_state p) s)
        × (r.get later (cb_last_fail p) s' ≡ some (number now))
  unfolding note_failure
  failure_reads p now later s =
      let s1 = (r.incr now (cb_failures p) s).1 in
      let s2 = r.expire now (cb_failures p) (timeout * 3) s1 in
      let s3 = r.set (cb_last_fail p) (number now) s2 in
      (
        laws.incr_count now (cb_failures p) s,
        ground (
          arith,
          laws.get-delete later (cb_state p) (cb_probe_lock p) s3,
          laws.get-set later (cb_state p) (cb_last_fail p) (number now) s2,
          laws.get-expire_ne later now (timeout * 3) (cb_state p) (cb_failures p) s1,
          laws.get-incr_ne later now (cb_state p) (cb_failures p) s,
        ),
        ground (
          arith,
          laws.get-delete later (cb_last_fail p) (cb_probe_lock p) s3,
          laws.get-set later (cb_last_fail p) (cb_last_fail p) (number now) s2,
        ),
      )

  opened_reads :
      (p : String) (now later : ℕ) (s : Store)
      → later < now + timeout * 2
      → let s' = r.setex now (cb_state p) (timeout * 2) (text "open") s in
        (r.get later (cb_state p) s' ≡ some (text "open"))
        × (r.get later (cb_last_fail p) s' ≡ r.get later (cb_last_fail p) s)
  opened_reads p now later s h = (
    ground
        (arith, laws.get-setex later now (timeout * 2) (cb_state p) (cb_state p) (text "open") s),
    ground (
      arith,
      laws.get-setex later now (timeout * 2) (cb_last_fail p) (cb_state p) (text "open") s,
    ),
  )

  -- A failure shuts the provider off if a probe was out, or if it is the one that brings the count
  -- to the threshold: the state then reads open for twice the recovery timeout, from the time of
  -- the failure.
  pub redis_failure_opens :
      (p : String) (now later : ℕ) (s : Store)
      → (r.get now (cb_state p) s ≡ some (text "half_open"))
        ⊎ (threshold ≤ count_of (r.get now (cb_failures p) s) + 1)
      → later < now + timeout * 2
      → let s' = redis_record_failure r threshold timeout p now s in
        (r.get later (cb_state p) s' ≡ some (text "open"))
        × (r.get later (cb_last_fail p) s' ≡ some (number now))
  unfolding redis_record_failure str_dec
  redis_failure_opens p now later s why h =
      let s' = (note_failure r threshold timeout p now s).1 in
      ground (
        arith,
        failure_reads p now now s,
        failure_reads p now later s,
        opened_reads p now later s' h,
      )

  -- A failure below the threshold, with no probe out, leaves the state as it was.
  pub redis_failure_keeps :
      (p : String) (now : ℕ) (s : Store)
      → r.get now (cb_state p) s ≡ none
      → count_of (r.get now (cb_failures p) s) + 1 < threshold
      → let s' = redis_record_failure r threshold timeout p now s in
        (r.get now (cb_state p) s' ≡ none)
        × ((redis_is_open r threshold timeout p now s').0 ≡ false)
  unfolding redis_record_failure redis_is_open str_dec
  redis_failure_keeps p now s none_yet h = ground (arith, failure_reads p now now s)

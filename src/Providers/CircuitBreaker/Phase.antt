-- ===== src/Providers/CircuitBreaker/Phase.antt =====
-- The in-process breaker against its contract: for each provider a machine with two phases.
use ultimate_assistant_ai_ga.Base.{
  ℕ, ◌+◌, ◌-◌, ◌<◌, ◌≡◌, refl, String, Bool, true, false, ltb, leb, if◌then◌else◌, ite, str_dec,
  arith, List, [], ◌∷◌, length, if_pos, ap, ◌∙◌,
}
use ultimate_assistant_ai_ga.Base.Dict.{get_or, get_or-insert}
use ultimate_assistant_ai_ga.Providers.CircuitBreaker.{
  CircuitBreaker, local_is_open, local_record_success, local_record_failure,
}

-- Closed with a count of failures, or open since the last failure.
pub data Phase : Type 0 where
  closed : ℕ → Phase
  tripped : ℕ → ℕ → Phase

module _ (threshold timeout : ℕ) where
  unfoldable pub ask : ℕ → Phase → Bool × Phase
  ask now (closed n) = (false, closed n)
  ask now (tripped n since) =
      if ltb timeout (now - since) then (false, closed 0) else (true, tripped n since)

  unfoldable pub fail : ℕ → Phase → Phase
  fail now (closed n) = if leb threshold (n + 1) then tripped (n + 1) now else closed (n + 1)
  fail now (tripped n since) = tripped (n + 1) now

-- What the three dicts say of one provider.
unfoldable pub phase : String → CircuitBreaker → Phase
phase p cb =
    if get_or p false cb.opened
    then tripped (get_or p 0 cb.failures) (get_or p 0 cb.last_failure)
    else closed (get_or p 0 cb.failures)

-- `is_open` answers as the state machine of closed and tripped phases does, moves the provider
-- asked for as the machine does, and no other.
pub local_is_open-refines :
    (p q : String) (now : ℕ) (cb : CircuitBreaker)
    → let (answer, cb') = local_is_open p now cb in
      (answer ≡ (ask cb.failure_threshold cb.recovery_timeout now (phase p cb)).0)
      × (phase q cb'
          ≡ ite
              (str_dec p q)
              (ask cb.failure_threshold cb.recovery_timeout now (phase p cb)).1
              (phase q cb))
unfolding local_is_open ask phase
local_is_open-refines p q now cb = (
  ground arith,
  ground (arith, get_or-insert p q false false cb.opened, get_or-insert p q 0 0 cb.failures),
)

-- A success closes the circuit of its provider with no failures counted, and of no other.
pub local_record_success-refines :
    (p q : String) (cb : CircuitBreaker)
    → phase q (local_record_success p cb) ≡ ite (str_dec p q) (closed 0) (phase q cb)
unfolding local_record_success phase
local_record_success-refines p q cb =
    ground (arith, get_or-insert p q false false cb.opened, get_or-insert p q 0 0 cb.failures)

-- A failure moves its provider as the machine does, and no other: it is counted, opens a closed
-- circuit at the threshold, and renews the time of an open one.
pub local_record_failure-refines :
    (p q : String) (now : ℕ) (cb : CircuitBreaker)
    → phase q (local_record_failure p now cb)
      ≡ ite
          (str_dec p q)
          (fail cb.failure_threshold cb.recovery_timeout now (phase p cb))
          (phase q cb)
unfolding local_record_failure phase fail
local_record_failure-refines p q now cb = ground (
  arith,
  get_or-insert p q true false cb.opened,
  get_or-insert p q (get_or p 0 cb.failures + 1) 0 cb.failures,
  get_or-insert p q now 0 cb.last_failure,
)

ask_closed : (threshold timeout now n : ℕ) → (ask threshold timeout now (closed n)).0 ≡ false
unfolding ask
ask_closed threshold timeout now n = refl

pub kept :
    (p : String) (t : ℕ) (cb : CircuitBreaker)
    → (local_record_failure p t cb).recovery_timeout ≡ cb.recovery_timeout
unfolding local_record_failure
kept p t cb = refl

-- `record_failure` at each of the given times.
abbrev pub failures_at : String → List ℕ → CircuitBreaker → CircuitBreaker
failures_at p [] cb = cb
failures_at p (t ∷ ts) cb = failures_at p ts (local_record_failure p t cb)

pub failures_at_threshold :
    (p : String) (ts : List ℕ) (cb : CircuitBreaker)
    → ((failures_at p ts cb).failure_threshold ≡ cb.failure_threshold)
      × ((failures_at p ts cb).recovery_timeout ≡ cb.recovery_timeout)
unfolding local_record_failure
failures_at_threshold p [] cb = (refl, refl)
failures_at_threshold p (t ∷ ts) cb = failures_at_threshold p ts (local_record_failure p t cb)

phase-failure :
    (p : String) (t n : ℕ) (cb : CircuitBreaker)
    → phase p cb ≡ closed n
    → phase p (local_record_failure p t cb)
      ≡ (if leb cb.failure_threshold (n + 1) then tripped (n + 1) t else closed (n + 1))
unfolding fail
phase-failure p t n cb e = rw (local_record_failure-refines p p t cb, if_pos (str_dec p p) refl, e)

below :
    (n threshold t : ℕ)
    → n + 1 < threshold
    → (if leb threshold (n + 1) then tripped (n + 1) t else closed (n + 1)) ≡ closed (n + 1)
below n threshold t h = ground arith

phase-failures_at :
    (p : String) (ts : List ℕ) (n : ℕ) (cb : CircuitBreaker)
    → phase p cb ≡ closed n
    → n + length ts < cb.failure_threshold
    → phase p (failures_at p ts cb) ≡ closed (n + length ts)
unfolding local_record_failure
phase-failures_at p [] n cb e h = e ∙ ap closed (omega arith)
phase-failures_at p (t ∷ ts) n cb e h =
    phase-failures_at p ts (n + 1) (local_record_failure p t cb)
      (phase-failure p t n cb e ∙ below n cb.failure_threshold t (omega arith)) (omega arith)
    ∙ ap closed (omega arith)

ask_tripped :
    (p : String) (now n t timeout : ℕ) (cb : CircuitBreaker)
    → phase p cb ≡ tripped n t
    → cb.recovery_timeout ≡ timeout
    → ((local_is_open p now cb).0 ≡ (if ltb timeout (now - t) then false else true))
      × (phase p (local_is_open p now cb).1
          ≡ (if ltb timeout (now - t) then closed 0 else tripped n t))
unfolding ask
ask_tripped p now n t timeout cb e r =
    let (answer, after) = local_is_open-refines p p now cb in
    (answer ∙ rw (e, r) (ground arith), after ∙ rw (if_pos (str_dec p p) refl, e, r) (ground arith))

phase_tripped :
    (p : String) (ts : List ℕ) (t : ℕ) (cb : CircuitBreaker)
    → phase p cb ≡ closed 0
    → length ts + 1 ≡ cb.failure_threshold
    → phase p (local_record_failure p t (failures_at p ts cb)) ≡ tripped (length ts + 1) t
phase_tripped p ts t cb e h =
    phase-failure p t (0 + length ts) (failures_at p ts cb)
      (phase-failures_at p ts 0 cb e (omega arith))
    ∙ rw (failures_at_threshold p ts cb).0 (ground arith)

-- From a closed breaker with no failures counted, fewer failures than the threshold leave the
-- provider open for requests.
pub trips_not_early :
    (p : String) (ts : List ℕ) (now : ℕ) (cb : CircuitBreaker)
    → phase p cb ≡ closed 0
    → length ts < cb.failure_threshold
    → (local_is_open p now (failures_at p ts cb)).0 ≡ false
trips_not_early p ts now cb e h =
    (local_is_open-refines p p now (failures_at p ts cb)).0
    ∙ rw (phase-failures_at p ts 0 cb e (omega arith)) (ask_closed _ _ now (0 + length ts))

-- From a closed breaker with no failures counted, the failure that reaches the threshold, at time
-- `t`, shuts the provider off for exactly the recovery timeout; the first question after that
-- closes the circuit and forgets the failures.
pub trips_at_threshold :
    (p : String) (ts : List ℕ) (t now : ℕ) (cb : CircuitBreaker)
    → phase p cb ≡ closed 0
    → length ts + 1 ≡ cb.failure_threshold
    → let cb' = failures_at p ts cb in
      let (answer, after) = local_is_open p now (local_record_failure p t cb') in
      (answer ≡ (if ltb cb.recovery_timeout (now - t) then false else true))
      × (phase p after
          ≡ (if ltb cb.recovery_timeout (now - t) then closed 0 else tripped (length ts + 1) t))
trips_at_threshold p ts t now cb e h =
    ask_tripped p now (length ts + 1) t cb.recovery_timeout
      (local_record_failure p t (failures_at p ts cb)) (phase_tripped p ts t cb e h)
      (kept p t (failures_at p ts cb) ∙ (failures_at_threshold p ts cb).1)

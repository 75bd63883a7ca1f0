-- ===== src/Tests/Resilience.antt =====
-- app/providers/retry.py: the breakers and the retry decorator on small runs.
use ultimate_assistant_ai_ga.Base.{
  ℕ, zero, suc, ◌+◌, ◌-◌, ◌<◌, ite, ◌≡◌, refl, String, Bool, true, false, none, some, [], ◌∷◌,
  arith, inl, inr, str_dec, ltb, if◌then◌else◌,
}
use ultimate_assistant_ai_ga.Base.Dict.{get_or, insert}
use ultimate_assistant_ai_ga.Base.Action.{
  not_json, Result, ok, err, Action, other_error, http_status_error, provider_error,
}
use ultimate_assistant_ai_ga.Redis.{count_of, text, number, cb_state, cb_last_fail, cb_probe_lock}
use ultimate_assistant_ai_ga.Redis.Memory.{Store, empty, memory, memory-RedisLaws}
use ultimate_assistant_ai_ga.Providers.CircuitBreaker.{
  init, local_is_open, local_record_failure, redis_is_open,
}
use ultimate_assistant_ai_ga.Providers.CircuitBreaker.Phase.{
  closed, tripped, ask, phase, failures_at, local_is_open-refines, trips_at_threshold,
}
use ultimate_assistant_ai_ga.Providers.CircuitBreaker.Shared.{redis_two_probes}
use ultimate_assistant_ai_ga.Providers.Retry.{
  is_retryable, safe_error_body, Breaker, classify, with_retry,
}
use ultimate_assistant_ai_ga.Providers.Retry.Attempts.{
  IsQuiet, AlwaysFails, Recovers, with_retry_exhausts, with_retry-Recovers,
}

program : Unit {0}
unfolding str_dec get_or insert init local_is_open local_record_failure phase is_retryable classify
    safe_error_body with_retry
program = tt

init_closed : phase "openai" init ≡ closed 0
unfolding program
init_closed = refl

trips_at_threshold_example :
    let cb' = failures_at "openai" (1 ∷ 2 ∷ 3 ∷ 4 ∷ []) init in
    let (answer, after) = local_is_open "openai" 600 (local_record_failure "openai" 500 cb') in
    (answer ≡ (if ltb init.recovery_timeout (600 - 500) then false else true))
    × (phase "openai" after
        ≡ (if ltb init.recovery_timeout (600 - 500) then closed 0 else tripped 5 500))
unfolding init
trips_at_threshold_example =
    trips_at_threshold "openai" (1 ∷ 2 ∷ 3 ∷ 4 ∷ []) 500 600 init init_closed refl

local_is_open-refines_example :
    let (answer, cb') = local_is_open "openai" 5 init in
    (answer ≡ (ask init.failure_threshold init.recovery_timeout 5 (phase "openai" init)).0)
    × (phase "groq" cb'
        ≡ ite
            (str_dec "openai" "groq")
            (ask init.failure_threshold init.recovery_timeout 5 (phase "openai" init)).1
            (phase "groq" init))
local_is_open-refines_example = local_is_open-refines "openai" "groq" 5 init

-- a circuit that opened at time 1
abbrev opened : Store
opened =
    memory.set (cb_last_fail "openai") (number 1)
      (memory.set (cb_state "openai") (text "open") empty)

opened_reads :
    (memory.get 99 (cb_state "openai") opened ≡ some (text "open"))
    × (memory.get 99 (cb_last_fail "openai") opened ≡ some (number 1))
    × (memory.get 99 (cb_probe_lock "openai") opened ≡ none)
opened_reads = (ground arith, ground arith, ground arith)

opened_long_ago : 30 < 99 - count_of (memory.get 99 (cb_last_fail "openai") opened)
opened_long_ago = rw opened_reads.1 (omega arith)

redis_two_probes_example :
    let (first, s1) = redis_is_open memory 5 30 "openai" 99 opened in
    let (second, s2) = redis_is_open memory 5 30 "openai" 99 s1 in
    (first ≡ false) × (second ≡ false) × ((redis_is_open memory 5 30 "openai" 99 s2).0 ≡ true)
redis_two_probes_example =
    redis_two_probes memory memory-RedisLaws 5 30 "openai" 99 opened opened_reads.0 opened_long_ago
      opened_reads.2 (omega arith)

-- The world of a retried call: how many calls were made, or how many failures are still to come.
abbrev quiet_breaker : Bool → Breaker ℕ
quiet_breaker shut = record {
  is_open = λ name w. (ok shut, w);
  record_success = λ name w. (ok tt, w);
  record_failure = λ name w. (ok tt, w);
}

abbrev breaker : Breaker ℕ
breaker = quiet_breaker false

abbrev sleep : ℕ → ℕ → ℕ
sleep attempt w = w

abbrev broken : Action ℕ String
broken w = (err (other_error "timeout"), w + 1)

abbrev flaky_at : ℕ → Result String × ℕ
flaky_at zero = (ok "hello", zero)
flaky_at (suc n) = (err (http_status_error 503 not_json "503"), n)

abbrev flaky : Action ℕ String
flaky w = flaky_at w

abbrev denied : Action ℕ String
denied w = (err (http_status_error 401 not_json "401"), w + 1)

not_retryable : is_retryable 401 ≡ false
unfolding program
not_retryable = refl

quiet : {A : Type 0} (func : Action ℕ A) → IsQuiet breaker sleep 3 "openai" func (λ w. w)
quiet func = record {
  asks = λ w. refl;
  clears = λ w. refl;
  clears_kept = λ w. refl;
  notes = λ w. refl;
  notes_kept = λ w. refl;
  sleeps = λ n w. refl;
}

broken-AlwaysFails : AlwaysFails breaker sleep 3 "openai" broken (λ w. w) (quiet broken)
unfolding program
broken-AlwaysFails w = (other_error "timeout", refl, refl, refl)

with_retry_exhausts_example :
    (text : String) × ((with_retry breaker sleep 3 "openai" broken 0).0
      ≡ err (provider_error "openai" text 502))
    × ((with_retry breaker sleep 3 "openai" broken 0).1 ≡ 0 + (3 + 1))
with_retry_exhausts_example =
    with_retry_exhausts breaker sleep 3 "openai" broken (λ w. w) (quiet broken) 0 0 refl
      broken-AlwaysFails

flaky-Recovers : Recovers breaker sleep 3 "openai" flaky (λ w. w) (quiet flaky) (λ w. w)
unfolding program
flaky-Recovers zero = inl (refl, "hello", refl)
flaky-Recovers (suc n) = inr (http_status_error 503 not_json "503", refl, refl, omega arith)

with_retry-Recovers_example :
    (a : String) × ((with_retry breaker sleep 3 "openai" flaky 2).0 ≡ ok a)
with_retry-Recovers_example =
    with_retry-Recovers breaker sleep 3 "openai" flaky (λ w. w) (quiet flaky) 2 2 refl
      flaky-Recovers (omega arith)

-- ===== src/Providers/CircuitBreaker.antt =====
-- app/providers/retry.py, class `CircuitBreaker`: the in-process state and its three methods, and
-- the three over Redis. Times are in microseconds; `now` is the clock at the call. The lifetimes
-- that the source writes as `int(recovery_timeout * k)` are exact for whole seconds.
pub mod Phase
pub mod Shared
use ultimate_assistant_ai_ga.Base.{
  ℕ, ◌+◌, ◌-◌, ◌*◌, String, Bool, true, false, Option, none, some, ltb, leb, if◌then◌else◌, [], ite,
  str_dec,
}
use ultimate_assistant_ai_ga.Base.Dict.{Dict, get_or, insert}
use ultimate_assistant_ai_ga.Redis.{
  Key, Value, text, number, count_of, Redis, cb_state, cb_last_fail, cb_failures, cb_probe_lock,
}

pub record CircuitBreaker : Type 0 where
  pub failure_threshold : ℕ
  pub recovery_timeout : ℕ
  pub failures : Dict ℕ
  pub last_failure : Dict ℕ
  pub opened : Dict Bool

-- `CircuitBreaker()`: five failures, thirty seconds
unfoldable pub init : CircuitBreaker
init = record {
  failure_threshold = 5;
  recovery_timeout = 30000000;
  failures = [];
  last_failure = [];
  opened = [];
}

unfoldable pub local_is_open : String → ℕ → CircuitBreaker → Bool × CircuitBreaker
local_is_open provider now cb =
    if get_or provider false cb.opened
    then if ltb cb.recovery_timeout (now - get_or provider 0 cb.last_failure)
      then (
        false,
        record cb {
          opened = insert provider false cb.opened;
          failures = insert provider 0 cb.failures;
        },
      )
      else (true, cb)
    else (false, cb)

unfoldable pub local_record_success : String → CircuitBreaker → CircuitBreaker
local_record_success provider cb = record cb {
  failures = insert provider 0 cb.failures;
  opened = insert provider false cb.opened;
}

unfoldable pub local_record_failure : String → ℕ → CircuitBreaker → CircuitBreaker
local_record_failure provider now cb =
    let count = get_or provider 0 cb.failures + 1 in
    record cb {
      failures = insert provider count cb.failures;
      last_failure = insert provider now cb.last_failure;
      opened = if leb cb.failure_threshold count then insert provider true cb.opened else cb.opened;
    }

-- The state over Redis, and the outcome of `is_open`.
module _ {Store : Type 0} (r : Redis Store) (failure_threshold recovery_timeout : ℕ) where
  -- `time.time() - float(last_fail or 0) > self.recovery_timeout`
  abbrev recovered : String → ℕ → Store → Bool
  recovered provider now s =
      ltb recovery_timeout (now - count_of (r.get now (cb_last_fail provider) s))

  abbrev is_state : String → Option Value → Bool
  is_state name none = false
  is_state name (some (number n)) = false
  is_state name (some (text t)) = ite (str_dec t name) true false

  -- the probe lock lasts ten seconds
  abbrev probe : String → ℕ → Store → Bool × Store
  probe provider now s =
      let (acquired, s') = r.set_nx_ex now (cb_probe_lock provider) 10000000 (text "1") s in
      (if acquired then false else true, s')

  unfoldable pub redis_is_open : String → ℕ → Store → Bool × Store
  redis_is_open provider now s =
      let state = r.get now (cb_state provider) s in
      if is_state "open" state
      then if recovered provider now s
        then (false, r.setex now (cb_state provider) recovery_timeout (text "half_open") s)
        else (true, s)
      else if is_state "half_open" state
      then probe provider now s
      else (false, s)

  unfoldable pub redis_record_success : String → Store → Store
  redis_record_success provider s =
      r.delete (cb_probe_lock provider)
        (r.set (cb_state provider) (text "closed") (r.delete (cb_failures provider) s))

  -- the four commands that come before the state is read, and the count of failures
  unfoldable pub note_failure : String → ℕ → Store → ℕ × Store
  note_failure provider now s =
      let (count, s1) = r.incr now (cb_failures provider) s in
      let s2 = r.expire now (cb_failures provider) (recovery_timeout * 3) s1 in
      let s3 = r.set (cb_last_fail provider) (number now) s2 in
      (count, r.delete (cb_probe_lock provider) s3)

  unfoldable pub redis_record_failure : String → ℕ → Store → Store
  redis_record_failure provider now s =
      let (count, s') = note_failure provider now s in
      let reopened = r.setex now (cb_state provider) (recovery_timeout * 2) (text "open") s' in
      if is_state "half_open" (r.get now (cb_state provider) s')
      then reopened
      else if leb failure_threshold count
      then reopened
      else s'

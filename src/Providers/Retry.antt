-- ===== src/Providers/Retry.antt =====
-- app/providers/retry.py: `with_retry`, around an adapter's method. The breaker, the wrapped call
-- and the wait between attempts act on a world `W`; how long a wait takes (backoff with jitter) is
-- the wait's own business. Logging is left out.
pub mod Attempts
use ultimate_assistant_ai_ga.Base.{
  ℕ, zero, suc, ◌+◌, String, Bool, true, false, Option, none, some, List, [], ◌∷◌, ltb, ◌==◌, ◌||◌,
  if◌then◌else◌,
}
use ultimate_assistant_ai_ga.Base.Text.{concat, show, truthy, or_else}
use ultimate_assistant_ai_ga.Base.Action.{
  Exc, ErrorField, falsy, nested, plain, Body, not_json, object, scalar, Result, ok, err, Action,
  pure, raise, raise_if, modify, catch, ◌>>=◌, ◌>>◌, provider_error, provider_unavailable,
  http_status_error,
}
use ultimate_assistant_ai_ga.Exceptions.{str_exc}

-- `status_code in RETRYABLE_STATUS`
unfoldable pub is_retryable : ℕ → Bool
is_retryable status =
    status == 408
    || status == 425
    || status == 429
    || status == 500
    || status == 502
    || status == 503
    || status == 504

-- `_safe_error_body`
unfoldable pub safe_error_body : ℕ → Body → String
safe_error_body status not_json = concat ("HTTP " ∷ show status ∷ [])
safe_error_body status (object falsy whole) = whole
safe_error_body status (object (nested message print) whole) = or_else message print
safe_error_body status (object (plain s) whole) = s
safe_error_body status (scalar s) = s

-- The global `circuit_breaker`, by its public methods.
pub record Breaker (W : Type 0) : Type 0 where
  pub is_open : String → Action W Bool
  pub record_success : String → Action W (Unit {0})
  pub record_failure : String → Action W (Unit {0})

-- How the `except` clauses sort an exception: raised at once, or kept for another attempt.
pub data Verdict : Type 0 where
  fatal : Exc → Verdict
  transient : Exc → Verdict

unfoldable pub classify : String → Exc → Verdict
unfolding is_retryable safe_error_body
classify name (provider_unavailable p) = fatal (provider_unavailable p)
classify name (http_status_error status body print) =
    if is_retryable status
    then transient (http_status_error status body print)
    else fatal (provider_error name (safe_error_body status body) status)
classify name e = transient e

-- `str(last_error)`; before any attempt it is None
abbrev pub str_last : Option Exc → String
str_last none = "None"
str_last (some e) = str_exc e

module _ {W A : Type 0} (breaker : Breaker W) (sleep : ℕ → W → W) (max_retries : ℕ) (name : String)
    (func : Action W A) where
  -- the `try` body
  abbrev pub call : Action W A
  call = func >>= λ result. breaker.record_success name >> pure result

  -- `if attempt < max_retries: await asyncio.sleep(wait)`
  abbrev pub wait : ℕ → Action W (Unit {0})
  wait attempt = if ltb attempt max_retries then modify (sleep attempt) else pure tt

  abbrev pub after_failure : ℕ → Verdict → (Exc → Action W A) → Action W A
  after_failure attempt (fatal e) again = raise e
  after_failure attempt (transient e) again =
      breaker.record_failure name >> (wait attempt >> again e)

  -- the loop, by the attempts that are left
  unfoldable pub attempts : ℕ → ℕ → Option Exc → Action W A
  attempts zero attempt last = raise (provider_error name (str_last last) 502)
  attempts (suc left) attempt last =
      catch call
        (λ e. after_failure attempt (classify name e) (λ e'. attempts left (attempt + 1) (some e')))

  unfoldable pub with_retry : Action W A
  unfolding attempts
  with_retry = do
    shut ← breaker.is_open name
    raise_if shut (provider_unavailable name)
    attempts (suc max_retries) 0 none

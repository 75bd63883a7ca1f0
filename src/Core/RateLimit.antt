-- ===== src/Core/RateLimit.antt =====
-- app/core/ratelimit.py: the token bucket of the Lua script, and `TokenBucketLimiter.check` around
-- it. Rates are in hundredths of a token per second and times in microseconds, so a token is
-- 10^8 units and every refill is exact. `now` does not run backwards.
pub mod Budget
use ultimate_assistant_ai_ga.Base.{
  ℕ, ◌+◌, ◌-◌, ◌*◌, ◌/◌, String, Bool, true, false, Option, none, some, List, [], ◌∷◌, min, leb,
  ltb, if◌then◌else◌, ite, str_dec,
}
use ultimate_assistant_ai_ga.Base.Text.{show, truthy}
use ultimate_assistant_ai_ga.Base.Dict.{Dict, lookup, get_or}

pub record Limit : Type 0 where
  pub max_tokens : ℕ
  pub refill_rate : ℕ

abbrev pub free : Limit
free = record { max_tokens = 30; refill_rate = 50 }

abbrev pub tier_limits : Dict Limit
tier_limits =
    ("free", free)
    ∷ ("pro", record { max_tokens = 300; refill_rate = 500 })
    ∷ ("enterprise", record { max_tokens = 3000; refill_rate = 5000 })
    ∷ []

abbrev pub endpoint_limits : Dict Limit
endpoint_limits =
    ("/api/v1/chat", record { max_tokens = 20; refill_rate = 33 })
    ∷ ("/api/v1/images", record { max_tokens = 10; refill_rate = 17 })
    ∷ ("/api/v1/models", record { max_tokens = 120; refill_rate = 200 })
    ∷ ("/api/v1/usage", record { max_tokens = 60; refill_rate = 100 })
    ∷ []

abbrev pub tier_limit : String → Limit
tier_limit tier = get_or tier free tier_limits

abbrev or_tier : Option Limit → String → Limit
or_tier none tier = tier_limit tier
or_tier (some l) tier = l

abbrev endpoint_limit : Bool → String → String → Limit
endpoint_limit false endpoint tier = tier_limit tier
endpoint_limit true endpoint tier = or_tier (lookup endpoint endpoint_limits) tier

-- `if endpoint and endpoint in ENDPOINT_LIMITS: ... else: ...`
unfoldable pub limit_for : String → Option String → Limit
limit_for tier none = tier_limit tier
limit_for tier (some endpoint) = endpoint_limit (truthy (some endpoint)) endpoint tier

-- The hash that the script keeps under the key.
pub record Bucket : Type 0 where
  pub tokens : ℕ
  pub last_refill : ℕ

abbrev pub unit : ℕ
unit = 100000000

-- the lifetime of `redis.call('expire', key, 120)`
abbrev pub lifetime : ℕ
lifetime = 120000000

-- What the script returns, and the bucket that it writes.
pub record Reply : Type 0 where
  pub allowed : Bool
  pub remaining : ℕ
  pub bucket : Bucket

-- the bucket as it stands at `now`: full if there was none, and refilled otherwise
unfoldable pub refill : Limit → ℕ → Option Bucket → ℕ
refill l now none = l.max_tokens * unit
refill l now (some b) = min (l.max_tokens * unit) (b.tokens + (now - b.last_refill) * l.refill_rate)

unfoldable pub lua_script : Limit → ℕ → Option Bucket → Reply
unfolding refill
lua_script l now stored =
    let tokens = refill l now stored in
    if leb unit tokens
    then record {
      allowed = true;
      remaining = (tokens - unit) / unit;
      bucket = record { tokens = tokens - unit; last_refill = now };
    }
    else record {
      allowed = false;
      remaining = tokens / unit;
      bucket = record { tokens = tokens; last_refill = now };
    }

-- `int(1 / refill_rate) if refill_rate > 0 else 60`
unfoldable pub retry_after : Limit → ℕ
retry_after l = if ltb 0 l.refill_rate then 100 / l.refill_rate else 60

-- The headers of an answer, or of the 429 that is raised.
pub data Checked : Type 0 where
  passed : Dict String → Checked
  too_many_requests : Dict String → Checked

-- `check`, given what Redis has under the key; the bucket that the script leaves there comes back.
unfoldable pub check : String → Option String → ℕ → Option Bucket → Checked × Bucket
unfolding limit_for lua_script retry_after
check tier endpoint now stored =
    let l = limit_for tier endpoint in
    let r = lua_script l now stored in
    (
      if r.allowed
          then passed (
              ("X-RateLimit-Limit", show l.max_tokens)
              ∷ ("X-RateLimit-Remaining", show r.remaining)
              ∷ [])
          else too_many_requests (
              ("Retry-After", show (retry_after l))
              ∷ ("X-RateLimit-Limit", show l.max_tokens)
              ∷ ("X-RateLimit-Remaining", "0")
              ∷ []),
      r.bucket,
    )

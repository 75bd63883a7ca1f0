-- ===== src/Core/RateLimit/Budget.antt =====
-- How many requests a bucket can let through in a span of time, whatever the requests' times and
-- whenever the server drops the key.
use ultimate_assistant_ai_ga.Base.{
  ℕ, ◌+◌, ◌-◌, ◌*◌, ◌≤◌, ◌<◌, ◌≡◌, refl, ap, String, true, false, Option, none, some, if◌then◌else◌,
  arith,
}
use ultimate_assistant_ai_ga.Base.Dict.{lookup, get_or-All, lookup-All}
use ultimate_assistant_ai_ga.Core.RateLimit.{
  Limit, tier_limits, endpoint_limits, limit_for, tier_limit, or_tier, free, Bucket, unit, lifetime,
  Reply, refill, lua_script, retry_after,
}

-- What the server hands the script at `now`: the bucket that was written last, or nothing once the
-- key's lifetime is over. (It may also be gone late.)
pub data Fetched (b : Bucket) (now : ℕ) : Option Bucket → Type 0 where
  kept : Fetched b now (some b)
  expired : b.last_refill + lifetime ≤ now → Fetched b now none

abbrev pub granted : Reply → ℕ
granted r = if r.allowed then 1 else 0

-- The history of one key since it was first used at `start`: the number of requests let through, and
-- the bucket.
pub data History (l : Limit) (start : ℕ) : ℕ → Bucket → Type 0 where
  first : History l start (granted (lua_script l start none)) (lua_script l start none).bucket
  next :
      {n : ℕ} {b : Bucket} {stored : Option Bucket} (now : ℕ)
      → History l start n b
      → b.last_refill ≤ now
      → Fetched b now stored
      → History l start (n + granted (lua_script l now stored)) (lua_script l now stored).bucket

-- An idle bucket is full again before its key expires.
abbrev pub Refills : Limit → Type 0
Refills l = l.max_tokens * unit ≤ lifetime * l.refill_rate

-- What a request takes from the bucket, and what the bucket can hold.
pub script_takes :
    (l : Limit) (now : ℕ) (stored : Option Bucket)
    → let r = lua_script l now stored in
      (granted r * unit + r.bucket.tokens ≡ refill l now stored) × (r.bucket.last_refill ≡ now)
unfolding lua_script
script_takes l now stored = ground arith

mul_split : (r a b : ℕ) → a ≤ b → (b - a) * r + a * r ≡ b * r
mul_split r a b h = let e : b - a + a ≡ b = omega arith in omega (arith, ap (λ (t : ℕ). t * r) e)

mul_mono : (r a b : ℕ) → a ≤ b → a * r ≤ b * r
mul_mono r a b h = grind arith

-- A refill adds at most what the time since the last one is worth.
refill-le :
    (l : Limit) (b : Bucket) (now : ℕ) {stored : Option Bucket}
    → Refills l
    → b.last_refill ≤ now
    → Fetched b now stored
    → refill l now stored + b.last_refill * l.refill_rate ≤ b.tokens + now * l.refill_rate
unfolding refill
refill-le l b now r h kept = omega (arith, mul_split l.refill_rate b.last_refill now h)
refill-le l b now r h (expired e) = omega (
  arith,
  mul_split l.refill_rate b.last_refill now h,
  mul_mono l.refill_rate lifetime (now - b.last_refill) (omega arith),
)

refill_capped :
    (l : Limit) (now : ℕ) (stored : Option Bucket) → refill l now stored ≤ l.max_tokens * unit
unfolding refill
refill_capped l now none = omega arith
refill_capped l now (some b) = omega arith

-- The bucket never holds more than its size.
pub tokens_capped :
    {l : Limit} {start n : ℕ} {b : Bucket} → History l start n b → b.tokens ≤ l.max_tokens * unit
tokens_capped {l} {start} first =
    omega (arith, (script_takes l start none).0, refill_capped l start none)
tokens_capped {l} (next {stored = stored} now h later f) =
    omega (arith, (script_takes l now stored).0, refill_capped l now stored)

-- Under a limit whose bucket fills up within the key's lifetime, what has been let through since the
-- key was first used, and what the bucket still holds, is at most one full bucket and what the
-- elapsed time refills, in units of a token.
pub History-budget :
    {l : Limit} {start n : ℕ} {b : Bucket}
    → Refills l
    → History l start n b
    → (start ≤ b.last_refill)
      × (n * unit + b.tokens + start * l.refill_rate
          ≤ l.max_tokens * unit + b.last_refill * l.refill_rate)
History-budget {l} {start} r first =
    let (taken, at) = script_takes l start none in
    let capped = refill_capped l start none in (omega arith, rw at (omega arith))
History-budget {l} {start} r (next {n} {b} {stored} now h later f) =
    let (started, budget) = History-budget r h in
    let (taken, at) = script_takes l now stored in
    let refilled = refill-le l b now r later f in (omega arith, rw at (omega arith))

tier_limit-Refills : (tier : String) → Refills (tier_limit tier)
tier_limit-Refills tier = get_or-All Refills tier free tier_limits (omega arith) (omega arith)

or_tier-Refills :
    (endpoint : String) (o : Option Limit) (tier : String)
    → lookup endpoint endpoint_limits ≡ o
    → Refills (or_tier o tier)
or_tier-Refills endpoint none tier e = tier_limit-Refills tier
or_tier-Refills endpoint (some l) tier e =
    lookup-All Refills endpoint endpoint_limits l (omega arith) e

-- Every limit that the gateway configures fills its bucket within the key's lifetime.
pub limit_for-Refills :
    (tier : String) (endpoint : Option String) → Refills (limit_for tier endpoint)
unfolding limit_for
limit_for-Refills tier none = tier_limit-Refills tier
limit_for-Refills tier (some String.[]) = tier_limit-Refills tier
limit_for-Refills tier (some (String.◌∷◌ c s)) =
    or_tier-Refills (String.◌∷◌ c s) (lookup (String.◌∷◌ c s) endpoint_limits) tier refl

allowed_of_refill :
    (l : Limit) (now : ℕ) (stored : Option Bucket)
    → unit ≤ refill l now stored
    → (lua_script l now stored).allowed ≡ true
unfolding lua_script
allowed_of_refill l now stored h = ground arith

refill_wait :
    (l : Limit) (b : Bucket) (now wait : ℕ)
    → b.last_refill ≡ now
    → 0 < l.max_tokens
    → unit ≤ wait * l.refill_rate
    → unit ≤ refill l (now + wait) (some b)
unfolding refill
refill_wait l b now wait e pos h =
    let d : now + wait - b.last_refill ≡ wait = omega arith in rw d (omega arith)

-- After a request under a limit of at least one token, a wait that refills one token gets the
-- next request through, if nothing else was asked in between.
pub lua_script-after_wait :
    (l : Limit) (now wait : ℕ) (stored : Option Bucket)
    → 0 < l.max_tokens
    → unit ≤ wait * l.refill_rate
    → (lua_script l (now + wait) (some (lua_script l now stored).bucket)).allowed ≡ true
lua_script-after_wait l now wait stored pos h =
    allowed_of_refill l (now + wait) _
      (refill_wait l _ now wait (script_takes l now stored).1 pos h)

refused_of_refill :
    (l : Limit) (now : ℕ) (stored : Option Bucket)
    → refill l now stored < unit
    → (lua_script l now stored).allowed ≡ false
unfolding lua_script
refused_of_refill l now stored h = ground arith

refill_short :
    (l : Limit) (now k : ℕ)
    → k * l.refill_rate < 100
    → refill l (now + k * 1000000) (some (record { tokens = 0; last_refill = now })) < unit
unfolding refill
refill_short l now k h =
    let d : now + k * 1000000 - now ≡ k * 1000000 = omega arith in rw d (omega arith)

-- Waiting for the seconds of the Retry-After header is not always enough: where those seconds refill
-- less than a token, an empty bucket refuses again after exactly that wait.
pub retry_after_too_short :
    (l : Limit) (now : ℕ)
    → retry_after l * l.refill_rate < 100
    → (lua_script l
        (now + retry_after l * 1000000)
        (some (record { tokens = 0; last_refill = now }))).allowed
      ≡ false
retry_after_too_short l now h =
    refused_of_refill l (now + retry_after l * 1000000) _ (refill_short l now (retry_after l) h)

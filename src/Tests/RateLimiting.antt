-- ===== src/Tests/RateLimiting.antt =====
-- app/core/ratelimit.py on the tightest endpoint limit.
use ultimate_assistant_ai_ga.Base.{◌+◌, ◌*◌, ◌≤◌, ◌≡◌, refl, none, some, [], ◌∷◌, arith, str_dec}
use ultimate_assistant_ai_ga.Base.Text.{show}
use ultimate_assistant_ai_ga.Base.Dict.{lookup, get_or}
use ultimate_assistant_ai_ga.Core.RateLimit.{
  Limit, free, limit_for, Reply, unit, refill, lua_script, retry_after, check, passed,
  too_many_requests,
}
use ultimate_assistant_ai_ga.Core.RateLimit.Budget.{
  granted, History, first, next, kept, script_takes, History-budget,
}

program : Unit {0}
unfolding str_dec lookup get_or limit_for refill lua_script retry_after check show
program = tt

abbrev images : Limit
images = record { max_tokens = 10; refill_rate = 17 }

images_limit : limit_for "free" (some "/api/v1/images") ≡ images
unfolding program
images_limit = refl

check_first : check "free" none 5 none ≡ (
  passed (("X-RateLimit-Limit", "30") ∷ ("X-RateLimit-Remaining", "29") ∷ []),
  record { tokens = 29 * unit; last_refill = 5 },
)
unfolding program
check_first = refl

-- the header of the enterprise tier tells the client not to wait at all
check_refused : check "enterprise" none 5 (some (record { tokens = 0; last_refill = 5 })) ≡ (
  too_many_requests
      (("Retry-After", "0") ∷ ("X-RateLimit-Limit", "3000") ∷ ("X-RateLimit-Remaining", "0") ∷ []),
  record { tokens = 0; last_refill = 5 },
)
unfolding program
check_refused = refl

-- two requests a second apart
abbrev after_first : Reply
after_first = lua_script free 0 none

abbrev after_second : Reply
after_second = lua_script free 1000000 (some after_first.bucket)

two_requests : History free 0 (granted after_first + granted after_second) after_second.bucket
two_requests = next 1000000 first (omega (arith, (script_takes free 0 none).1)) kept

History-budget_example :
    (0 ≤ after_second.bucket.last_refill)
    × ((granted after_first + granted after_second) * unit + after_second.bucket.tokens + 0 * 50
        ≤ 30 * unit + after_second.bucket.last_refill * 50)
History-budget_example = History-budget {l = free} (omega arith) two_requests

images_wait : retry_after images ≡ 5
unfolding program
images_wait = refl

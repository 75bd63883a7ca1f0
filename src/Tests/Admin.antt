-- ===== src/Tests/Admin.antt =====
-- app/api/v1/routes/admin.py: an admin switches a provider off, and another user tries to.
use ultimate_assistant_ai_ga.Base.{
  ℕ, ◌-◌, ◌≡◌, ◌≢◌, refl, String, true, false, [], ◌∷◌, str_dec, ltb, if◌then◌else◌, ◌⊎◌,
}
use ultimate_assistant_ai_ga.Base.Action.{Exc, ok, err, http_exception}
use ultimate_assistant_ai_ga.Redis.{Key-discrete}
use ultimate_assistant_ai_ga.Redis.Memory.{Store, empty}
use ultimate_assistant_ai_ga.Core.Security.{access_payload, decode_token, is_token_revoked}
use ultimate_assistant_ai_ga.Providers.CircuitBreaker.{init, local_is_open, local_record_failure}
use ultimate_assistant_ai_ga.Providers.CircuitBreaker.Phase.{phase}
use ultimate_assistant_ai_ga.Base.Dict.{get_or, insert}
use ultimate_assistant_ai_ga.Api.Deps.{get_current_user_id}
use ultimate_assistant_ai_ga.Api.Admin.{AdminWorld, disable_provider, enable_provider}
use ultimate_assistant_ai_ga.Api.Admin.Switch.{IsAdmin, disable_provider_lem}
use ultimate_assistant_ai_ga.Tests.Token.{plain, numbers, spell_payload, parse}
use ultimate_assistant_ai_ga.Tests.Auth.{env, user}

abbrev token : String
token = plain.encode (access_payload 0 (numbers.print 7) "j")

abbrev boss : AdminWorld Store
boss = record {
  api = record { redis = empty; users = record user { role = "admin" } ∷ []; drawn = 20 };
  breaker = init;
}

abbrev clerk : AdminWorld Store
clerk = record boss { api = record { redis = empty; users = user ∷ []; drawn = 20 } }

program : Unit {0}
unfolding str_dec Key-discrete access_payload decode_token is_token_revoked init local_is_open
    local_record_failure get_or insert get_current_user_id spell_payload parse disable_provider
    enable_provider
program = tt

switched :
    (disable_provider env 5 token (λ k. k) "openai" boss).0
    ≡ ok (record { status = "disabled"; provider = "openai" })
unfolding program
switched = refl

refused :
    disable_provider env 5 token (λ k. k) "openai" clerk
    ≡ (err (http_exception 403 "Admin access required"), clerk)
unfolding program
refused = refl

disable_provider_lem_example :
    let (r, w') = disable_provider env 5 token (λ k. k) "openai" boss in
    ((u : ℕ) × IsAdmin env 5 token boss u
      × (r ≡ ok (record { status = "disabled"; provider = "openai" }))
      × ((later : ℕ)
          → (local_is_open "openai" later w'.breaker).0 ≡ (
              if ltb boss.breaker.recovery_timeout (later - boss.breaker.failure_threshold)
              then false
              else true))
      × ((q : String) → "openai" ≢ q → phase q w'.breaker ≡ phase q boss.breaker))
    ⊎ ((e : Exc) × (disable_provider env 5 token (λ k. k) "openai" boss ≡ (err e, boss)))
disable_provider_lem_example = disable_provider_lem env 5 token (λ k. k) "openai" boss

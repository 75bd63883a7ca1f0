-- ===== src/Services/Router.antt =====
-- app/services/router.py: `ModalityRouter`. Logging is left out. A registry, a key store, the
-- optional ranker and the host are the parameters; `req.model` is written by the loop, so the
-- request goes from one round to the next.
pub mod Frame
pub mod Selection
pub mod Failover
pub mod Classes
pub mod Routing
use ultimate_assistant_ai_ga.Base.{
  ℕ, ◌-◌, ◌/◌, String, Bool, true, false, Option, none, some, List, [], ◌∷◌, map, ltb,
  if◌then◌else◌, same, ite, str_dec, is_nil, keep, length,
}
use ultimate_assistant_ai_ga.Base.Text.{or_else, concat, join, contains, truthy}
use ultimate_assistant_ai_ga.Base.Action.{
  Exc, Result, ok, err, Action, pure, raise, raise_if, modify, ◌>>=◌, ◌>>◌, provider_error,
  provider_key_missing, capability_not_supported,
}
use ultimate_assistant_ai_ga.Exceptions.{str_exc}
use ultimate_assistant_ai_ga.Schemas.{
  UnifiedRequest, UnifiedResponse, MediaResult, RouteResult, unified, media,
}
use ultimate_assistant_ai_ga.Providers.Capabilities.{
  Modality, text, image, audio, video, vector, Candidate, parse_modality,
}
use ultimate_assistant_ai_ga.Providers.Interface.{
  Provider, Method, chat_of, text_video_of, image_video_of,
}
use ultimate_assistant_ai_ga.Providers.Registry.{
  ProviderRegistry, get_provider, get_capable_providers, bad_modality,
}
use ultimate_assistant_ai_ga.Services.Interfaces.{KeyStore, Ranker, Host}

abbrev pub from_result : {W A : Type 0} → Result A → Action W A
from_result r w = (r, w)

module _ {W : Type 0} (input_mod output_mod : String) where
  abbrev pub unsupported : {A : Type 0} → Action W A
  unsupported = raise (capability_not_supported input_mod output_mod)

  abbrev pub call_unified :
      Option (Method W UnifiedResponse) → UnifiedRequest → String → Action W RouteResult
  call_unified none req api_key = unsupported
  call_unified (some m) req api_key = m req api_key >>= λ r. pure (unified r)

  abbrev pub call_media :
      Option (Method W MediaResult) → UnifiedRequest → String → Action W RouteResult
  call_media none req api_key = unsupported
  call_media (some m) req api_key = m req api_key >>= λ r. pure (media r)

  -- the ladder of `if`s over the two modalities
  unfoldable pub dispatch_pair :
      Modality → Modality → Provider W → UnifiedRequest → String → Action W RouteResult
  dispatch_pair text text p req key = call_unified (chat_of p) req key
  dispatch_pair text image p req key = call_media p.text_to_image req key
  dispatch_pair image text p req key = call_unified p.image_to_text req key
  dispatch_pair text audio p req key = call_media p.text_to_speech req key
  dispatch_pair audio text p req key = call_unified p.speech_to_text req key
  dispatch_pair text vector p req key = call_unified p.embed req key
  dispatch_pair text video p req key = call_media (text_video_of p) req key
  dispatch_pair image video p req key = call_media (image_video_of p) req key
  dispatch_pair _ _ p req key = unsupported

  abbrev dispatch_parsed :
      Option Modality
      → Option Modality
      → Provider W
      → UnifiedRequest
      → String
      → Action W RouteResult
  dispatch_parsed none o p req key = from_result (bad_modality input_mod)
  dispatch_parsed (some i) none p req key = from_result (bad_modality output_mod)
  dispatch_parsed (some i) (some o) p req key = dispatch_pair i o p req key

  -- `_dispatch`
  unfoldable pub dispatch : Provider W → UnifiedRequest → String → Action W RouteResult
  dispatch = dispatch_parsed (parse_modality input_mod) (parse_modality output_mod)

-- `req.model = req.model or model_id`
unfoldable pub set_model : UnifiedRequest → String → UnifiedRequest
set_model req model_id = record req { model = some (or_else req.model model_id) }

-- What the two `isinstance` branches write into the result.
unfoldable pub stamp : Candidate → ℕ → RouteResult → RouteResult
stamp c elapsed_ms (unified r) =
    unified (record r { provider = some c.provider; latency_ms = some elapsed_ms })
stamp c elapsed_ms (media r) = media (record r { latency_ms = some elapsed_ms })

-- How one round of the loop ends: `return result`, or `continue` with `last_error`.
pub data Attempt : Type 0 where
  success : RouteResult → Attempt
  failure : Exc → Attempt

-- `return result` leaves the loop; `continue` goes on with the error.
abbrev pub next_round : {W : Type 0} → Attempt → (Exc → Action W RouteResult) → Action W RouteResult
next_round (success r) continue = pure r
next_round (failure e) continue = continue e

-- `if preferred: available = [...] or available`
unfoldable pub prefer_provider : Option String → List Candidate → List Candidate
prefer_provider none available = available
prefer_provider (some name) available =
    let preferred = keep (λ c. same c.provider name) available in
    if truthy (some name) then if is_nil preferred then available else preferred else available

unfoldable pub prefer_model : Option String → List Candidate → List Candidate
prefer_model none available = available
prefer_model (some model) available =
    let model_match = keep (λ c. same c.model model) available in
    if truthy (some model) then if is_nil model_match then available else model_match else available

-- `[(p, m) for p, m in capable if p in user_providers]`
unfoldable pub with_keys : List String → List Candidate → List Candidate
with_keys user_providers = keep (λ c. contains c.provider user_providers)

module _ {W : Type 0} where
  -- `if self.ranker and len(available) > 1: available = await self.ranker.rank(available)`
  abbrev pub ranked : Option (Ranker W) → List Candidate → Action W (List Candidate)
  ranked none available = pure available
  ranked (some r) available = if ltb 1 (length available) then r.rank available else pure available

  -- `if self.ranker: await self.ranker.record_success(...)`
  abbrev pub tell_success : Option (Ranker W) → Candidate → ℕ → Action W (Unit {0})
  tell_success none c ms = pure tt
  tell_success (some r) c ms = r.record_success c.provider c.model ms

  abbrev pub tell_failure : Option (Ranker W) → Candidate → Action W (Unit {0})
  tell_failure none c = pure tt
  tell_failure (some r) c = r.record_failure c.provider c.model

module _ {W : Type 0} (registry : ProviderRegistry W) (keys : KeyStore W)
    (ranker : Option (Ranker W)) (host : Host W) where
  module _ (user_id : ℕ) (input_mod output_mod : String) where
    -- the rest of the `try` body, once the provider has answered
    unfoldable pub finish : Candidate → ℕ → RouteResult → Action W RouteResult
    finish c start result w =
        let elapsed_ms = (host.monotonic w - start) / 1000 in
        (do
          modify (host.count_request c "success")
          modify (host.observe_latency c elapsed_ms)
          tell_success ranker c elapsed_ms
          pure (stamp c elapsed_ms result))
          w

    -- the two `except` branches, which differ in what they log
    unfoldable pub give_up : Candidate → Exc → Action W Attempt
    give_up c e = do modify (host.count_request c "error"); tell_failure ranker c; pure (failure e)

    abbrev settle : Candidate → Result RouteResult → Action W Attempt
    settle c (ok r) = pure (success r)
    settle c (err e) = give_up c e

    -- one round with a registered provider and a key
    unfoldable pub attempt : Candidate → Provider W → UnifiedRequest → String → Action W Attempt
    unfolding finish give_up
    attempt c p req api_key w =
        let (r, w') =
          (dispatch input_mod output_mod p req api_key >>= finish c (host.monotonic w)) w in
        settle c r w'

    abbrev pub all_failed : Option Exc → Exc
    all_failed none = capability_not_supported input_mod output_mod
    all_failed (some e) =
        provider_error "all" (concat ("All providers failed. Last error: " ∷ str_exc e ∷ [])) 502

    -- the loop over the candidates
    unfoldable pub failover : List Candidate → Option Exc → UnifiedRequest → Action W RouteResult
    unfolding attempt
    failover [] last_error req = raise (all_failed last_error)
    failover (c ∷ cs) last_error req = elim (get_provider registry c.provider) [
      | none ↦ failover cs last_error req
      | some p ↦ keys.get_decrypted_key user_id c.provider >>= λ api_key.
          attempt c p (set_model req c.model) api_key >>= λ outcome.
          next_round outcome (λ e. failover cs (some e) (set_model req c.model))
    ]

    unfoldable pub key_missing : List Candidate → Exc
    key_missing capable =
        provider_key_missing (join ", " (host.list_set (map (λ c. c.provider) capable)))

    -- steps 2 to 4: who may serve the request, best first
    unfoldable pub select :
        List Candidate → Option String → Option String → Action W (List Candidate)
    unfolding key_missing
    select capable preferred_provider preferred_model = do
      user_providers ← keys.get_user_providers user_id
      let available = with_keys user_providers capable
      raise_if (is_nil available) (key_missing capable)
      ranked ranker (prefer_model preferred_model (prefer_provider preferred_provider available))

    unfoldable pub route : UnifiedRequest → Option String → Option String → Action W RouteResult
    unfolding select failover
    route req preferred_provider preferred_model = do
      capable ← from_result (get_capable_providers registry input_mod output_mod)
      raise_if (is_nil capable) (capability_not_supported input_mod output_mod)
      available ← select capable preferred_provider preferred_model
      failover available none req

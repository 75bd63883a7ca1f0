-- ===== src/Services/Conversion/Fallback.antt =====
-- The direct route, and the pipeline behind it.
use ultimate_assistant_ai_ga.Base.{ℕ, ◌≡◌, String, Bool, true, Option, some, List, []}
use ultimate_assistant_ai_ga.Base.Action.{
  ok, err, Action, Keeps, >>=-Keeps, catch-Keeps, catch, capability_not_supported,
}
use ultimate_assistant_ai_ga.Base.Text.{contains}
use ultimate_assistant_ai_ga.Providers.Registry.{ProviderRegistry, get_capable_providers}
use ultimate_assistant_ai_ga.Services.Interfaces.{KeyStore, Ranker, RankerLaws, Host}
use ultimate_assistant_ai_ga.Services.Router.Frame.{KeepsServices, KeepsDispatch}
use ultimate_assistant_ai_ga.Services.Router.Routing.{route-Keeps, route-unsupported}
use ultimate_assistant_ai_ga.Services.Pipeline.{pipeline_routes, steps_of, execute}
use ultimate_assistant_ai_ga.Services.Pipeline.Hops.{execute-Keeps}
use ultimate_assistant_ai_ga.Services.Conversion.{
  ConversionRequest, unified_request, direct, convert,
}

module _ {W : Type 0} (registry : ProviderRegistry W) (keys : KeyStore W)
    (ranker : Option (Ranker W)) (host : Host W) (generate_id : Action W String) (user_id : ℕ)
    (req : ConversionRequest) where
  -- A conversion that no provider serves directly and that has no list of hops is refused with
  -- CapabilityNotSupported, by the pipeline's own error, and nothing was called.
  pub convert-unsupported :
      (w : W)
      → get_capable_providers registry req.input_modality req.output_modality ≡ ok []
      → steps_of req.input_modality req.output_modality pipeline_routes ≡ []
      → convert registry keys ranker host generate_id user_id req w
        ≡ (err (capability_not_supported req.input_modality req.output_modality), w)
  unfolding convert execute
  convert-unsupported w e s = rw (
    route-unsupported registry keys ranker host user_id req.input_modality req.output_modality
        (unified_request req) req.provider req.model w e,
    e,
    s,
  )

  module _ (P : W → Type 0) (allowed : String → Bool)
      (s : KeepsServices keys ranker host registry user_id P)
      (d : (i o : String)
        → KeepsDispatch keys ranker host registry user_id P i o allowed (λ _. Unit {0}))
      (laws : (r : Ranker W) → ranker ≡ some r → RankerLaws r)
      (owned : (w : W) (l : List String)
        → (keys.get_user_providers user_id w).0 ≡ ok l
        → (name : String) → contains name l ≡ true
        → allowed name ≡ true)
      (fresh : Keeps P generate_id) where
    -- Whatever way a conversion takes, direct or through the hops of the pipeline after a failed
    -- direct route, it calls only providers that the user has a key for: a property that the
    -- services and the calls of allowed providers keep is kept by `convert`, where every provider
    -- of the user's keys is allowed.
    pub convert-Keeps : Keeps P (convert registry keys ranker host generate_id user_id req)
    unfolding convert
    convert-Keeps =
        >>=-Keeps P (catch (direct registry keys ranker host generate_id user_id req) _) _
          (catch-Keeps P (direct registry keys ranker host generate_id user_id req) _
            (route-Keeps registry keys ranker host user_id req.input_modality req.output_modality
              (unified_request req) req.provider req.model P allowed s
              (d req.input_modality req.output_modality) laws owned)
            (λ e.
              execute-Keeps registry keys ranker host user_id req.provider req.options P allowed s d
                laws owned req.input req.input_modality req.output_modality))
          (λ result. >>=-Keeps P generate_id _ fresh (λ id w h. h))

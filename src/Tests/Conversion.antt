-- ===== src/Tests/Conversion.antt =====
-- app/services/pipeline.py and app/services/conversion_service.py on the providers of the routing
-- tests, and on one that reads and makes images.
use ultimate_assistant_ai_ga.Base.{
  ◌≡◌, refl, subst, sym, String, true, Option, none, some, List, [], ◌∷◌, arith, str_dec, inl, inr,
  Option-cases,
}
use ultimate_assistant_ai_ga.Base.Text.{contains}
use package.text.Mathlib.TextEquality.{eq_iff}
use ultimate_assistant_ai_ga.Base.Action.{ok-injective, ok, Keeps, >>=-Keeps, Action, pure}
use ultimate_assistant_ai_ga.Schemas.{UnifiedRequest, UnifiedResponse, MediaResult, media, unified}
use ultimate_assistant_ai_ga.Providers.Capabilities.{
  Modality, text, image, audio, video, vector, Modality-discrete, parse_modality, get_pair,
  append_at, build_capability_map,
}
use ultimate_assistant_ai_ga.Providers.Interface.{Provider, Method}
use ultimate_assistant_ai_ga.Providers.Registry.{
  ProviderRegistry, advertised, find_provider, get_provider, get_capable_providers,
}
use ultimate_assistant_ai_ga.Services.Router.{
  dispatch_pair, dispatch, set_model, stamp, prefer_provider, prefer_model, with_keys, route,
}
use ultimate_assistant_ai_ga.Services.Router.Frame.{KeepsDispatch}
use ultimate_assistant_ai_ga.Services.Pipeline.{
  pipeline_routes, steps_of, next_data, run_hops, execute,
}
use ultimate_assistant_ai_ga.Services.Conversion.{ConversionRequest, respond, convert}
use ultimate_assistant_ai_ga.Services.Conversion.Fallback.{convert-Keeps}
use ultimate_assistant_ai_ga.Tests.Routing.{
  Log, reply, adapter, anthropic, openai, registry, keys, host, Spared, allowed, model_name,
  services_spare, found_allowed, not_groq,
}

abbrev prompt_of : Option String → String
prompt_of none = "-"
prompt_of (some s) = s

abbrev picture : MediaResult
picture = record {
  file_url = "out.png";
  mime_type = "image/png";
  model = "m";
  provider = "openai";
  latency_ms = none;
}

-- notes what it was asked for
abbrev studio : Provider Log
studio = record openai {
  capabilities = ((image, text), "eye" ∷ []) ∷ ((text, image), "brush" ∷ []) ∷ [];
  image_to_text = some (λ req key w. (ok reply, ("see", prompt_of req.prompt) ∷ w));
  text_to_image = some (λ req key w. (ok picture, ("draw", prompt_of req.prompt) ∷ w));
}

abbrev studios : ProviderRegistry Log
studios = record {
  client_pool = [];
  providers = ("openai", studio) ∷ [];
  capability_map = build_capability_map (advertised (("openai", studio) ∷ []));
}

program : Unit {0}
unfolding Modality-discrete str_dec parse_modality build_capability_map get_pair append_at
    get_provider find_provider get_capable_providers dispatch dispatch_pair set_model stamp
    prefer_provider prefer_model with_keys route steps_of next_data run_hops execute respond convert
program = tt

-- the text that the first hop returned is drawn by the second
image_to_image : execute studios keys none host 7 none none "cat.png" "image" "image" [] ≡ (
  ok (media (record picture { latency_ms = some 0 })),
  ("draw", "hello") ∷ ("see", "cat.png") ∷ [],
)
unfolding program
image_to_image = refl

not_direct : get_capable_providers studios "image" "image" ≡ ok []
unfolding program
not_direct = refl

abbrev generate_id : Action Log String
generate_id = pure "id"

abbrev request : String → String → ConversionRequest
request i o = record {
  input = "a cat";
  input_modality = i;
  output_modality = o;
  model = none;
  provider = none;
  options = none;
}

no_vector : get_capable_providers studios "vector" "text" ≡ ok []
unfolding program
no_vector = refl

no_hops : steps_of "vector" "text" pipeline_routes ≡ []
unfolding program
no_hops = refl

-- an adapter that only chats touches the log by its chat method
spared :
    (m n : Modality) (i o name : String) (models : List String) (chat : Method Log UnifiedResponse)
    (req : UnifiedRequest) (key : String)
    → Keeps Spared (chat req key)
    → Keeps Spared (dispatch_pair i o m n (adapter name models chat) req key)
unfolding dispatch_pair
spared text text i o name models chat req key c w h =
    >>=-Keeps Spared (chat req key) (λ r. pure (unified r)) c (λ r w h. h) w h
spared text image i o name models chat req key c w h = h
spared text audio i o name models chat req key c w h = h
spared text video i o name models chat req key c w h = h
spared text vector i o name models chat req key c w h = h
spared image text i o name models chat req key c w h = h
spared image image i o name models chat req key c w h = h
spared image audio i o name models chat req key c w h = h
spared image video i o name models chat req key c w h = h
spared image vector i o name models chat req key c w h = h
spared audio text i o name models chat req key c w h = h
spared audio image i o name models chat req key c w h = h
spared audio audio i o name models chat req key c w h = h
spared audio video i o name models chat req key c w h = h
spared audio vector i o name models chat req key c w h = h
spared video text i o name models chat req key c w h = h
spared video image i o name models chat req key c w h = h
spared video audio i o name models chat req key c w h = h
spared video video i o name models chat req key c w h = h
spared video vector i o name models chat req key c w h = h
spared vector text i o name models chat req key c w h = h
spared vector image i o name models chat req key c w h = h
spared vector audio i o name models chat req key c w h = h
spared vector video i o name models chat req key c w h = h
spared vector vector i o name models chat req key c w h = h

dispatched :
    (i o : String) (p : Provider Log) (req : UnifiedRequest) (key : String)
    → ((m n : Modality) → Keeps Spared (dispatch_pair i o m n p req key))
    → Keeps Spared (dispatch i o p req key)
unfolding dispatch
dispatched i o p req key k w h = elim (Option-cases (parse_modality i)) [
  | inl e ↦ rw e h
  | inr (m, e) ↦ elim (Option-cases (parse_modality o)) [
    | inl f ↦ rw (e, f) h
    | inr (n, f) ↦ rw (e, f) (k m n w h)
  ]
]

dispatch_spares :
    (i o : String) → KeepsDispatch keys none host registry 7 Spared i o allowed (λ _. Unit {0})
dispatch_spares i o name p req key a f q w h = elim (found_allowed name p a f) [
  | inl e ↦ rw e (
      dispatched i o anthropic req key
        (λ m n. spared m n i o _ _ _ req key (λ w h.
          not_groq "anthropic" (model_name req.model) w (ground (arith, eq_iff "anthropic" "groq"))
            h))
        w h)
  | inr e ↦ rw e (
      dispatched i o openai req key
        (λ m n. spared m n i o _ _ _ req key (λ w h.
          not_groq "openai" (model_name req.model) w (ground (arith, eq_iff "openai" "groq")) h))
        w h)
]

owned :
    (l : List String)
    → ("anthropic" ∷ "openai" ∷ []) ≡ l
    → (name : String) → contains name l ≡ true
    → allowed name ≡ true
owned l e name c = subst (λ x. contains name x ≡ true) (sym e) c

convert-Keeps_example :
    Spared (convert registry keys none host generate_id 7 (request "audio" "audio") []).1
convert-Keeps_example =
    convert-Keeps registry keys none host generate_id 7 (request "audio" "audio") Spared allowed
      services_spare dispatch_spares (λ r e. cc) (λ w l e name c. owned l (ok-injective e) name c)
      (λ w h. h) [] refl

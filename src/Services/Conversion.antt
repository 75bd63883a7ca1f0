-- ===== src/Services/Conversion.antt =====
-- app/services/conversion_service.py: `ConversionService.convert`, with app/schemas/conversion.py.
pub mod Fallback
use ultimate_assistant_ai_ga.Base.{ℕ, String, Option, none, some, List}
use ultimate_assistant_ai_ga.Base.Text.{or_else}
use ultimate_assistant_ai_ga.Base.Action.{Exc, Action, pure, catch, ◌>>=◌}
use ultimate_assistant_ai_ga.Schemas.{UnifiedRequest, blank_request, RouteResult, unified, media}
use ultimate_assistant_ai_ga.Providers.Registry.{ProviderRegistry}
use ultimate_assistant_ai_ga.Services.Interfaces.{KeyStore, Ranker, Host}
use ultimate_assistant_ai_ga.Services.Router.{route}
use ultimate_assistant_ai_ga.Services.Pipeline.{execute}

pub record ConversionRequest : Type 0 where
  pub input : String
  pub input_modality : String
  pub output_modality : String
  pub model : Option String
  pub provider : Option String
  pub options : Option (List (String × String))

pub record ConversionResponse : Type 0 where
  pub id : String
  pub output : String
  pub output_modality : String
  pub model : String
  pub provider : String
  pub latency_ms : Option ℕ
  pub file_id : Option String

-- the response under an id, by the two `isinstance` branches
unfoldable pub respond : ConversionRequest → RouteResult → String → ConversionResponse
respond req (unified r) id = record {
  id = id;
  output = or_else r.content "";
  output_modality = req.output_modality;
  model = or_else r.model "";
  provider = or_else r.provider "";
  latency_ms = r.latency_ms;
  file_id = none;
}
respond req (media r) id = record {
  id = id;
  output = r.file_url;
  output_modality = req.output_modality;
  model = r.model;
  provider = r.provider;
  latency_ms = r.latency_ms;
  file_id = none;
}

-- `UnifiedRequest(prompt=req.input, model=req.model, options=req.options)`
abbrev pub unified_request : ConversionRequest → UnifiedRequest
unified_request req = record blank_request {
  prompt = some req.input;
  model = req.model;
  options = req.options;
}

module _ {W : Type 0} (registry : ProviderRegistry W) (keys : KeyStore W)
    (ranker : Option (Ranker W)) (host : Host W) (generate_id : Action W String) (user_id : ℕ)
    (req : ConversionRequest) where
  abbrev pub direct : Action W RouteResult
  direct =
      route registry keys ranker host user_id req.input_modality req.output_modality
        (unified_request req) req.provider req.model

  abbrev pub composite : Action W RouteResult
  composite =
      execute registry keys ranker host user_id req.provider req.options req.input
        req.input_modality req.output_modality

  unfoldable pub convert : Action W ConversionResponse
  unfolding respond
  convert = do
    result ← catch direct (λ e. composite)
    id ← generate_id
    pure (respond req result id)

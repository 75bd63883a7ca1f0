-- ===== src/Tests/Catalogue.antt =====
-- The adapters of the catalogue, with methods that return.
use ultimate_assistant_ai_ga.Base.{◌≡◌, refl, false, none, [], inl, inr, is_nil}
use ultimate_assistant_ai_ga.Base.Lists.{Holds}
use ultimate_assistant_ai_ga.Base.Action.{ok}
use ultimate_assistant_ai_ga.Schemas.{blank_request, MediaResult, RouteResult}
use ultimate_assistant_ai_ga.Providers.Capabilities.{text, audio, Modality-discrete}
use ultimate_assistant_ai_ga.Providers.Pairs.{pair_text}
use ultimate_assistant_ai_ga.Providers.Adapter.{Methods, instance_of}
use ultimate_assistant_ai_ga.Providers.Catalogue.{catalogue}
use ultimate_assistant_ai_ga.Providers.Catalogue.Cohere.{cohere_adapter}
use ultimate_assistant_ai_ga.Providers.Catalogue.Elevenlabs.{elevenlabs_adapter}
use ultimate_assistant_ai_ga.Providers.Catalogue.Models.{
  models_of, models_listing, catalogue_models,
}
use ultimate_assistant_ai_ga.Providers.Catalogue.Served.{AllReturn, catalogue_dispatch}
use ultimate_assistant_ai_ga.Services.Router.{dispatch_pair}
use ultimate_assistant_ai_ga.Tests.Routing.{Log, reply}

abbrev speech : MediaResult
speech = record {
  file_url = "";
  mime_type = "audio/mpeg";
  model = "m";
  provider = "p";
  latency_ms = none;
}

abbrev methods : Methods Log
methods = record {
  chat = λ req key w. (ok reply, w);
  stream_chat = λ req key w. (record { chunks = []; raised = none }, w);
  text_to_image = λ req key w. (ok speech, w);
  image_to_text = λ req key w. (ok reply, w);
  text_to_speech = λ req key w. (ok speech, w);
  speech_to_text = λ req key w. (ok reply, w);
  embed = λ req key w. (ok reply, w);
  text_to_video = λ req key w. (ok speech, w);
  image_to_video = λ req key w. (ok speech, w);
}

methods_return : AllReturn methods
methods_return = record {
  chat = λ req key w. (reply, refl);
  text_to_image = λ req key w. (speech, refl);
  image_to_text = λ req key w. (reply, refl);
  text_to_speech = λ req key w. (speech, refl);
  speech_to_text = λ req key w. (reply, refl);
  embed = λ req key w. (reply, refl);
  text_to_video = λ req key w. (speech, refl);
  image_to_video = λ req key w. (speech, refl);
}

cohere_held : Holds cohere_adapter catalogue
cohere_held = inr (inl refl)

elevenlabs_held : Holds elevenlabs_adapter catalogue
elevenlabs_held = inr (inr (inr (inl refl)))

speaks : is_nil (models_of (text, audio) elevenlabs_adapter.capabilities) ≡ false
unfolding models_of Modality-discrete
speaks = refl

catalogue_dispatch_example :
    (r : RouteResult) × ((dispatch_pair "text" "audio" text audio
        (instance_of elevenlabs_adapter methods)
        blank_request
        "sk"
        []).0
      ≡ ok r)
catalogue_dispatch_example =
    catalogue_dispatch "text" "audio" elevenlabs_adapter methods methods_return blank_request "sk"
      [] (text, audio) elevenlabs_held speaks

catalogue_models_example :
    models_of (text, text) cohere_adapter.capabilities
    ≡ models_listing (pair_text (text, text)) cohere_adapter.models
catalogue_models_example = catalogue_models cohere_adapter (text, text) cohere_held

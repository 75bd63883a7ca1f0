-- ===== src/Providers/Adapter.antt =====
-- The classes of app/providers/*/adapter.py by what they declare: their name, base URL and protocols, and
-- what `get_capabilities` and `get_models` return. An adapter has the methods of its protocols.
use ultimate_assistant_ai_ga.Base.{String, Bool, true, false, Option, none, some, List, any, ite}
use ultimate_assistant_ai_ga.Schemas.{UnifiedResponse, MediaResult, ModelInfo}
use ultimate_assistant_ai_ga.Providers.Capabilities.{Capabilities}
use ultimate_assistant_ai_ga.Providers.Interface.{Provider, Method, StreamMethod}

pub data Protocol : Type 0 where
  chat_capable image_gen_capable vision_capable tts_capable stt_capable embed_capable
        video_gen_capable :
      Protocol

unfoldable pub Protocol-discrete : Discrete Protocol
Protocol-discrete = hlevel

pub record Adapter : Type 0 where
  pub name : String
  pub base_url : String
  pub protocols : List Protocol
  pub capabilities : Capabilities
  pub models : List ModelInfo

abbrev pub inherits : Protocol → List Protocol → Bool
inherits p ps = any (λ q. ite (Protocol-discrete p q) true false) ps

-- the bodies of the methods, which call the provider over HTTP
pub record Methods (W : Type 0) : Type 0 where
  pub chat : Method W UnifiedResponse
  pub stream_chat : StreamMethod W
  pub text_to_image : Method W MediaResult
  pub image_to_text : Method W UnifiedResponse
  pub text_to_speech : Method W MediaResult
  pub speech_to_text : Method W UnifiedResponse
  pub embed : Method W UnifiedResponse
  pub text_to_video : Method W MediaResult
  pub image_to_video : Method W MediaResult

abbrev pub when {ℓ} : {A : Type ℓ} → Bool → A → Option A
when true a = some a
when false a = none

-- an instance of the class
unfoldable pub instance_of : {W : Type 0} → Adapter → Methods W → Provider W
instance_of a m = record {
  name = a.name;
  capabilities = a.capabilities;
  chat = when (inherits chat_capable a.protocols) m.chat;
  stream_chat = when (inherits chat_capable a.protocols) m.stream_chat;
  text_to_image = when (inherits image_gen_capable a.protocols) m.text_to_image;
  image_to_text = when (inherits vision_capable a.protocols) m.image_to_text;
  text_to_speech = when (inherits tts_capable a.protocols) m.text_to_speech;
  speech_to_text = when (inherits stt_capable a.protocols) m.speech_to_text;
  embed = when (inherits embed_capable a.protocols) m.embed;
  text_to_video = when (inherits video_gen_capable a.protocols) m.text_to_video;
  image_to_video = when (inherits video_gen_capable a.protocols) m.image_to_video;
}

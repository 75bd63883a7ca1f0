-- ===== src/Providers/Interface.antt =====
-- app/providers/base.py: the protocols and `BaseProvider`. An adapter is a record of its methods;
-- a runtime-checkable protocol asks whether the methods are there.
use ultimate_assistant_ai_ga.Base.{String, Bool, true, false, Option, none, some, List, ◌&&◌, []}
use ultimate_assistant_ai_ga.Base.{◌∷◌}
use ultimate_assistant_ai_ga.Base.Action.{Exc, Action, ◌>>=◌, pure, catch}
use ultimate_assistant_ai_ga.Schemas.{
  UnifiedRequest, blank_request, UnifiedResponse, MediaResult, Chunk,
}
use ultimate_assistant_ai_ga.Providers.Capabilities.{Capabilities}

-- A call of an adapter's method with a request and an API key.
abbrev pub Method : Type 0 → Type 0 → Type 0
Method W A = UnifiedRequest → String → Action W A

-- What an `async for` over a stream sees: the chunks, and the exception that ended it, if one did. Its
-- reads and writes of the world come before them.
pub record Streamed : Type 0 where
  pub chunks : List Chunk
  pub raised : Option Exc

abbrev pub StreamMethod : Type 0 → Type 0
StreamMethod W = UnifiedRequest → String → W → Streamed × W

pub record Provider (W : Type 0) : Type 0 where
  pub name : String
  pub capabilities : Capabilities
  pub chat : Option (Method W UnifiedResponse)
  pub stream_chat : Option (StreamMethod W)
  pub text_to_image : Option (Method W MediaResult)
  pub image_to_text : Option (Method W UnifiedResponse)
  pub text_to_speech : Option (Method W MediaResult)
  pub speech_to_text : Option (Method W UnifiedResponse)
  pub embed : Option (Method W UnifiedResponse)
  pub text_to_video : Option (Method W MediaResult)
  pub image_to_video : Option (Method W MediaResult)

abbrev has : {A : Type 0} → Option A → Bool
has none = false
has (some a) = true

-- the test call of `validate_key`
abbrev ping : UnifiedRequest
ping = record blank_request {
  messages = some ((record { role = "user"; content = "hi" }) ∷ []);
  max_tokens = some 1;
}

module _ {W : Type 0} where
  -- `isinstance(provider, ChatCapable)` and `isinstance(provider, VideoGenCapable)`: two methods each
  abbrev pub is_chat_capable : Provider W → Bool
  is_chat_capable p = has p.chat && has p.stream_chat

  abbrev pub is_video_gen_capable : Provider W → Bool
  is_video_gen_capable p = has p.text_to_video && has p.image_to_video

  -- the chat method behind the guard
  abbrev pub chat_of : Provider W → Option (Method W UnifiedResponse)
  chat_of p = elim p.stream_chat [ none ↦ none | some s ↦ p.chat ]

  -- the streaming method behind the guard
  abbrev pub stream_of : Provider W → Option (StreamMethod W)
  stream_of p = elim p.chat [ none ↦ none | some s ↦ p.stream_chat ]

  -- the two video methods behind the guard
  abbrev pub text_video_of : Provider W → Option (Method W MediaResult)
  text_video_of p = elim p.image_to_video [ none ↦ none | some s ↦ p.text_to_video ]

  abbrev pub image_video_of : Provider W → Option (Method W MediaResult)
  image_video_of p = elim p.text_to_video [ none ↦ none | some s ↦ p.image_to_video ]

  abbrev ping_with : Option (Method W UnifiedResponse) → String → Action W Bool
  ping_with none api_key = pure true
  ping_with (some chat) api_key = catch (chat ping api_key >>= λ r. pure true) (λ e. pure false)

  -- `BaseProvider.validate_key`
  unfoldable pub validate_key : Provider W → String → Action W Bool
  validate_key p api_key = ping_with (chat_of p) api_key

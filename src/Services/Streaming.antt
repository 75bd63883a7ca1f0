-- ===== src/Services/Streaming.antt =====
-- app/services/streaming.py: chat streams over server-sent events and over a WebSocket. The events and
-- the JSON objects are data; `orjson.dumps` turns them into bytes, here texts. Sending succeeds.
pub mod Frames
pub mod Sessions
use ultimate_assistant_ai_ga.Base.{
  ℕ, String, Bool, true, false, Option, none, some, List, [], ◌∷◌, ◌++◌, map,
}
use ultimate_assistant_ai_ga.Base.Text.{concat}
use ultimate_assistant_ai_ga.Base.Action.{Exc, Result, ok, err}
use ultimate_assistant_ai_ga.Exceptions.{str_exc}
use ultimate_assistant_ai_ga.Schemas.{Message, UnifiedRequest, blank_request, Chunk}
use ultimate_assistant_ai_ga.Providers.Interface.{Provider, Streamed, StreamMethod, stream_of}
use ultimate_assistant_ai_ga.Providers.Registry.{ProviderRegistry, get_provider}
use ultimate_assistant_ai_ga.Services.Interfaces.{KeyStore}

-- The JSON objects sent: a chunk's content, finish reason and model; an error, alone or with `done`; `done`.
pub data Payload : Type 0 where
  chunk_data : String → Option String → Option String → Payload
  error_data : String → Payload
  done_data : Payload
  error_done_data : String → Payload

abbrev pub of_chunk : Chunk → Payload
of_chunk c = chunk_data c.content c.finish_reason c.model

abbrev pub no_chat : String → Payload
no_chat provider_name =
    error_data (concat ("Provider " ∷ provider_name ∷ " does not support chat" ∷ []))

-- An event of the stream: `data: ` with an object, or with the mark of the end.
pub data Event : Type 0 where
  data_event : Payload → Event
  done_event : Event

abbrev pub raised_event : Option Exc → List Event
raised_event none = []
raised_event (some e) = data_event (error_data (str_exc e)) ∷ []

-- `_data_stream`
unfoldable pub data_stream : Streamed → List Event
data_stream s =
    map (λ c. data_event (of_chunk c)) s.chunks ++ raised_event s.raised ++ done_event ∷ []

abbrev first_of : {A B C : Type 0} → (A → C) → A × B → C × B
first_of f (a, b) = (f a, b)

module _ {W : Type 0} (registry : ProviderRegistry W) where
  -- `provider` and `isinstance(provider, ChatCapable)`; an unknown name gives None, which is not
  abbrev pub chat_stream : Option (Provider W) → Option (StreamMethod W)
  chat_stream none = none
  chat_stream (some p) = stream_of p

  abbrev stream_events :
      String → Option (StreamMethod W) → UnifiedRequest → String → W → List Event × W
  stream_events provider_name none req api_key w = (data_event (no_chat provider_name) ∷ [], w)
  stream_events provider_name (some stream) req api_key w =
      first_of data_stream (stream req api_key w)

  unfoldable pub sse_stream : String → UnifiedRequest → String → W → List Event × W
  unfolding data_stream
  sse_stream provider_name req api_key =
      stream_events provider_name (chat_stream (get_provider registry provider_name)) req api_key

-- the bytes of the events
unfoldable pub frame : (Payload → String) → Event → String
frame dumps (data_event d) = concat ("data: " ∷ dumps d ∷ "\n\n" ∷ [])
frame dumps done_event = "data: [DONE]\n\n"

-- What a message of the socket holds, as far as it is read: the entries that are absent are `none`.
pub record SocketMessage : Type 0 where
  pub provider : Option String
  pub model : Option String
  pub messages : Option (List Message)
  pub temperature : Option ℕ
  pub max_tokens : Option ℕ

abbrev get_default : {A : Type 0} → Option A → A → A
get_default none d = d
get_default (some a) d = a

unfoldable pub socket_request : SocketMessage → UnifiedRequest
socket_request m = record blank_request {
  messages = some (get_default m.messages []);
  model = m.model;
  temperature = get_default m.temperature 70;
  max_tokens = m.max_tokens;
  stream = true;
}

abbrev pub ended_with : Option Exc → Payload
ended_with none = done_data
ended_with (some e) = error_done_data (str_exc e)

-- what is sent for a stream
unfoldable pub sent_stream : Streamed → List Payload
sent_stream s = map of_chunk s.chunks ++ ended_with s.raised ∷ []

-- The other end of the socket: the texts it will send before it leaves, what it was sent, and whether the
-- socket was closed.
pub record Socket : Type 0 where
  pub accepted : Bool
  pub sent : List Payload
  pub closed : Bool

module _ {W : Type 0} (registry : ProviderRegistry W) (key_service : KeyStore W) (user_id : ℕ) where
  abbrev answer_stream :
      String → Option (StreamMethod W) → UnifiedRequest → String → W → List Payload × W
  answer_stream provider_name none req api_key w = (no_chat provider_name ∷ [], w)
  answer_stream provider_name (some stream) req api_key w =
      first_of sent_stream (stream req api_key w)

  abbrev with_key : String → UnifiedRequest → Result String × W → List Payload × W
  with_key provider_name req (err e, w) = (error_data (str_exc e) ∷ [], w)
  with_key provider_name req (ok api_key, w) =
      answer_stream provider_name (chat_stream registry (get_provider registry provider_name)) req
        api_key w

  -- one round of the loop, after the message was read
  unfoldable pub answer : SocketMessage → W → List Payload × W
  unfolding socket_request sent_stream
  answer m w =
      let provider_name = get_default m.provider "openai" in
      with_key provider_name (socket_request m)
        (key_service.get_decrypted_key user_id provider_name w)

  abbrev push_sent : List Payload → Socket → Socket
  push_sent ps s = record s { sent = s.sent ++ ps }

  -- `while True`: a text that is no message, and the end of the texts, raise and leave the loop
  unfoldable pub receive_loop :
      (String → Result SocketMessage) → List String → Socket × W → Socket × W
  unfolding answer
  receive_loop loads [] (s, w) = (s, w)
  receive_loop loads (raw ∷ texts) (s, w) = elim (loads raw) [
    | ok m ↦ let (ps, w') = answer m w in receive_loop loads texts (push_sent ps s, w')
    | err e ↦ (s, w)
  ]

  abbrev close : Socket × W → Socket × W
  close (s, w) = (record s { closed = true }, w)

  unfoldable pub websocket_chat : (String → Result SocketMessage) → List String → W → Socket × W
  unfolding receive_loop
  websocket_chat loads texts w =
      close (receive_loop loads texts (record { accepted = true; sent = []; closed = false }, w))

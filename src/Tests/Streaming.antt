-- ===== src/Tests/Streaming.antt =====
-- app/services/streaming.py with a provider that streams two chunks and fails.
use ultimate_assistant_ai_ga.Base.{
  ◌≡◌, refl, String, true, false, none, some, List, [], ◌∷◌, map, str_dec, same, if◌then◌else◌,
}
use ultimate_assistant_ai_ga.Base.Text.{concat}
use ultimate_assistant_ai_ga.Base.Action.{Result, ok, err, other_error, value_error}
use ultimate_assistant_ai_ga.Exceptions.{str_exc}
use ultimate_assistant_ai_ga.Schemas.{blank_request, Chunk}
use ultimate_assistant_ai_ga.Providers.Interface.{Provider, StreamMethod}
use ultimate_assistant_ai_ga.Providers.Registry.{ProviderRegistry, get_provider, find_provider}
use ultimate_assistant_ai_ga.Services.Streaming.{
  Payload, chunk_data, error_data, done_data, error_done_data, frame, sse_stream, data_stream,
  SocketMessage, websocket_chat, receive_loop, answer, socket_request, sent_stream, chat_stream,
}
use ultimate_assistant_ai_ga.Services.Streaming.Frames.{blocks, is_one_line, sse_stream-blocks}
use ultimate_assistant_ai_ga.Services.Streaming.Sessions.{Session, websocket_chat_lem}
use ultimate_assistant_ai_ga.Tests.Routing.{Log, openai, keys}

abbrev chunk : String → Chunk
chunk s = record { content = s; finish_reason = none; model = none; tool_calls = none }

abbrev two_chunks : StreamMethod Log
two_chunks req key w = (
  record { chunks = chunk "hel" ∷ chunk "lo" ∷ []; raised = some (other_error "gone") },
  ("stream", key) ∷ w,
)

abbrev streaming : Provider Log
streaming = record openai { stream_chat = some two_chunks }

abbrev silent : Provider Log
silent = record openai { stream_chat = none }

abbrev registry : ProviderRegistry Log
registry = record {
  client_pool = [];
  providers = ("openai", streaming) ∷ ("fal", silent) ∷ [];
  capability_map = [];
}

abbrev dumps : Payload → String
dumps (chunk_data c f m) = "{content}"
dumps (error_data e) = "{error}"
dumps done_data = "{done}"
dumps (error_done_data e) = "{error, done}"

one_line : (d : Payload) → is_one_line (dumps d) ≡ true
one_line (chunk_data c f m) = refl
one_line (error_data e) = refl
one_line done_data = refl
one_line (error_done_data e) = refl

program : Unit {0}
unfolding str_dec get_provider find_provider sse_stream data_stream frame websocket_chat
    receive_loop answer socket_request sent_stream str_exc
program = tt

no_chat_provider :
    concat (map (frame dumps) (sse_stream registry "fal" blank_request "sk" []).0)
    ≡ "data: {error}\n\n"
unfolding program
no_chat_provider = refl

found : chat_stream registry (get_provider registry "openai") ≡ some two_chunks
unfolding program
found = refl

sse_stream-blocks_example :
    blocks false (concat (map (frame dumps) (sse_stream registry "openai" blank_request "sk" []).0))
    ≡ "data: {content}" ∷ "data: {content}" ∷ "data: {error}" ∷ "data: [DONE]" ∷ "" ∷ []
sse_stream-blocks_example =
    sse_stream-blocks dumps one_line registry "openai" blank_request "sk" [] two_chunks found

abbrev message : SocketMessage
message = record {
  provider = none;
  model = none;
  messages = none;
  temperature = none;
  max_tokens = none;
}

abbrev loads : String → Result SocketMessage
loads s =
    if same s "ping"
    then ok message
    else (if same s "fal"
        then ok (record message { provider = some "fal" })
        else err (value_error "not JSON"))

abbrev texts : List String
texts = "ping" ∷ "fal" ∷ "{" ∷ "ping" ∷ []

session :
    (websocket_chat registry keys 7 loads texts []).0.sent
    ≡ chunk_data "hel" none none
      ∷ chunk_data "lo" none none
      ∷ error_done_data "gone"
      ∷ error_data "Provider fal does not support chat"
      ∷ []
unfolding program
session = refl

websocket_chat_lem_example :
    let s = (websocket_chat registry keys 7 loads texts []).0 in
    Session registry keys 7 loads texts [] s.sent × (s.closed ≡ true)
websocket_chat_lem_example = websocket_chat_lem registry keys 7 loads texts []

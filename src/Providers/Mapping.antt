-- ===== src/Providers/Mapping.antt =====
-- app/providers/openai/mapping.py, the responses, and the loop of `stream_chat` over the lines of a stream that the
-- OpenAI-compatible adapters share. `loads` is `json.loads`, and `is_space` what Python takes for white space.
pub mod Stream
use Prim.Native.Char.{code}
use ultimate_assistant_ai_ga.Base.{
  ℕ, String, Bool, true, false, not, Option, none, some, List, [], ◌∷◌, ◌==◌, ◌&&◌, same,
  if◌then◌else◌,
}
use ultimate_assistant_ai_ga.Base.Action.{Result, ok, err}
use ultimate_assistant_ai_ga.Base.Json.{
  Json, null, string, object, no_fields, ◌>>=◌, subscript, first, get, is_true, as_text, as_number,
}
use ultimate_assistant_ai_ga.Schemas.{UnifiedResponse, Chunk}
use ultimate_assistant_ai_ga.Providers.Interface.{Streamed}
use ultimate_assistant_ai_ga.Core.Encryption.{strip, lstrip, rstrip}

-- `from_chat_response`; the fields are read first, and checked after
unfoldable pub from_chat_response : String → Json → Result UnifiedResponse
from_chat_response provider value = do
  choices ← subscript "choices" value
  choice ← first choices
  usage ← get "usage" (object no_fields) value
  message ← subscript "message" choice
  raw_content ← subscript "content" message
  raw_model ← get "model" null value
  raw_input ← get "prompt_tokens" null usage
  raw_output ← get "completion_tokens" null usage
  content ← as_text raw_content
  model ← as_text raw_model
  input_tokens ← as_number raw_input
  output_tokens ← as_number raw_output
  ok (record {
    content = content;
    file_url = none;
    model = model;
    provider = some provider;
    input_tokens = input_tokens;
    output_tokens = output_tokens;
    latency_ms = none;
    estimated_cost_usd = none;
    tool_calls = none;
  })

-- `content or ""`, which must be a text
abbrev text_or_empty : Option String → String
text_or_empty none = ""
text_or_empty (some s) = s

abbrev or_empty : Json → Json
or_empty content = if is_true content then content else string ""

abbrev make_chunk : Json → Json → Json → Result (Option Chunk)
make_chunk content finish_reason raw_model = do
  text ← as_text (or_empty content)
  finish ← as_text finish_reason
  model ← as_text raw_model
  ok (
      some (record {
        content = text_or_empty text;
        finish_reason = finish;
        model = model;
        tool_calls = none;
      }))

abbrev chunk_of_choice : Json → Json → Result (Option Chunk)
chunk_of_choice value choice = do
  delta ← get "delta" (object no_fields) choice
  content ← get "content" (string "") delta
  finish_reason ← get "finish_reason" null choice
  raw_model ← get "model" null value
  if not (is_true content) && not (is_true finish_reason)
      then ok none
      else make_chunk content finish_reason raw_model

-- a chunk of the adapters that do not ask first whether there are choices
unfoldable pub from_compatible_chunk : Json → Result (Option Chunk)
from_compatible_chunk value =
    subscript "choices" value >>= λ choices. first choices >>= chunk_of_choice value

-- `from_stream_chunk`
unfoldable pub from_stream_chunk : Json → Result (Option Chunk)
unfolding from_compatible_chunk
from_stream_chunk value = get "choices" null value >>= λ choices.
    if is_true choices then from_compatible_chunk value else ok none

-- `line[6:]` of a line that starts with the prefix
unfoldable pub after_prefix : String → String → Option String
after_prefix String.[] s = some s
after_prefix (String.◌∷◌ c p) String.[] = none
after_prefix (String.◌∷◌ c p) (String.◌∷◌ d s) =
    let rest = after_prefix p s in if code c == code d then rest else none

abbrev pub ended : Streamed
ended = record { chunks = []; raised = none }

abbrev pub prepend : Chunk → Streamed → Streamed
prepend c s = record s { chunks = c ∷ s.chunks }

module _ (is_space : ℕ → Bool) (loads : String → Result Json)
    (from_chunk : Json → Result (Option Chunk)) where
  abbrev pub with_chunk : Result (Option Chunk) → Streamed → Streamed
  with_chunk (err e) rest = record { chunks = []; raised = some e }
  with_chunk (ok none) rest = rest
  with_chunk (ok (some c)) rest = prepend c rest

  -- one line, before the rest of the stream
  abbrev pub with_line : Option String → Streamed → Streamed
  with_line none rest = rest
  with_line (some data_str) rest =
      if same (strip is_space data_str) "[DONE]"
      then ended
      else with_chunk (loads data_str >>= from_chunk) rest

  -- the loop of `stream_chat`, over the lines that the server sends
  unfoldable pub read_lines : List String → Streamed
  unfolding after_prefix lstrip rstrip
  read_lines [] = ended
  read_lines (line ∷ lines) = with_line (after_prefix "data: " line) (read_lines lines)

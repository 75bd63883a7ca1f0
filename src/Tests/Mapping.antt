-- ===== src/Tests/Mapping.antt =====
-- The stream of a provider with two chunks, in a JSON writer that knows these two.
use ultimate_assistant_ai_ga.Base.{
  ℕ, ◌≡◌, refl, String, true, Bool, none, some, [], ◌∷◌, ◌==◌, str_dec, same, if◌then◌else◌,
}
use ultimate_assistant_ai_ga.Base.Lists.{All}
use ultimate_assistant_ai_ga.Base.Action.{Result, ok, err, value_error}
use ultimate_assistant_ai_ga.Base.Json.{
  Json, null, array, object, no_items, no_fields, field, find, subscript, first, get, as_text,
  as_number,
}
use ultimate_assistant_ai_ga.Schemas.{Chunk}
use ultimate_assistant_ai_ga.Core.Encryption.{strip, lstrip, rstrip}
use ultimate_assistant_ai_ga.Providers.Mapping.{
  from_chat_response, from_stream_chunk, from_compatible_chunk, read_lines, after_prefix,
}
use ultimate_assistant_ai_ga.Providers.Mapping.Stream.{
  chunk_json, IsSent, sent_lines, read_lines-sent_lines,
}

abbrev hel : Chunk
hel = record { content = "hel"; finish_reason = none; model = some "m"; tool_calls = none }

abbrev lo : Chunk
lo = record { content = "lo"; finish_reason = some "stop"; model = none; tool_calls = none }

abbrev is_space : ℕ → Bool
is_space c = c == 32

-- chunks are told apart by whether their model is known
abbrev dumps : Json → String
dumps (object (field k v (field l null fs))) = "{lo} "
dumps _ = "{hel}"

abbrev loads : String → Result Json
loads s =
    if same s "{hel}"
    then ok (chunk_json hel)
    else (if same s "{lo} " then ok (chunk_json lo) else err (value_error "Expecting value"))

program : Unit {0}
unfolding str_dec lstrip rstrip find subscript first get as_text as_number from_chat_response
    from_stream_chunk from_compatible_chunk read_lines after_prefix
program = tt

both-IsSent : All (IsSent is_space loads dumps) (hel ∷ lo ∷ [])
unfolding program
both-IsSent = (((refl, refl), refl, refl), (((refl, refl), refl, refl), tt))

mark : same (strip is_space "[DONE]") "[DONE]" ≡ true
unfolding program
mark = refl

read_lines-sent_lines_example :
    read_lines is_space loads from_stream_chunk
      (sent_lines is_space loads dumps (hel ∷ lo ∷ []) ("data: [" ∷ []))
    ≡ record { chunks = hel ∷ lo ∷ []; raised = none }
read_lines-sent_lines_example =
    read_lines-sent_lines is_space loads dumps (hel ∷ lo ∷ []) ("data: [" ∷ []) mark both-IsSent

-- a response without choices
no_choices : from_stream_chunk (object (field "choices" (array no_items) no_fields)) ≡ ok none
unfolding program
no_choices = refl

cut_short :
    read_lines is_space loads from_stream_chunk ("data: {hel}" ∷ "data: {" ∷ [])
    ≡ record { chunks = hel ∷ []; raised = some (value_error "Expecting value") }
unfolding program
cut_short = refl

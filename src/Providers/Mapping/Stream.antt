-- ===== src/Providers/Mapping/Stream.antt =====
-- A stream that a provider sends in the format of OpenAI, read by the adapter.
use Prim.Native.String.{◌++◌ as ◌<+>◌}
use text.Mathlib.TextLemmas.{cons-append, nil-append}
use ultimate_assistant_ai_ga.Providers.Mapping.{
  from_stream_chunk, from_compatible_chunk, after_prefix, ended, prepend, read_lines, with_line,
}
use ultimate_assistant_ai_ga.Base.{
  ℕ, String, Bool, true, false, Option, none, some, List, [], ◌∷◌, ◌≡◌, refl, sym, ap, ◌∙◌, arith,
  ◌||◌, not, same, str_dec,
}
use ultimate_assistant_ai_ga.Base.Lists.{All}
use ultimate_assistant_ai_ga.Base.Text.{is_empty, truthy}
use ultimate_assistant_ai_ga.Base.Action.{Result, ok}
use ultimate_assistant_ai_ga.Base.Json.{
  Json, null, string, array, object, no_items, item, no_fields, field, find, subscript, first, get,
  as_text,
}
use ultimate_assistant_ai_ga.Schemas.{Chunk}
use ultimate_assistant_ai_ga.Core.Encryption.{strip}

abbrev json_text : Option String → Json
json_text none = null
json_text (some s) = string s

-- the object of a chunk
abbrev pub chunk_json : Chunk → Json
chunk_json c = object (
    field "choices"
      (array (
        item
          (object (
            field "delta" (object (field "content" (string c.content) no_fields))
              (field "finish_reason" (json_text c.finish_reason) no_fields)))
          no_items))
      (field "model" (json_text c.model) no_fields))

-- A chunk that carries a text or the reason of the end, and no tool calls.
abbrev pub IsPlain : Chunk → Type 0
IsPlain c = ((not (is_empty c.content) || truthy c.finish_reason) ≡ true) × (c.tool_calls ≡ none)

from_stream_chunk-plain :
    (content : String) (finish model : Option String)
    → (not (is_empty content) || truthy finish) ≡ true
    → let c : Chunk = record {
      content = content;
      finish_reason = finish;
      model = model;
      tool_calls = none;
    } in
      from_stream_chunk (chunk_json c) ≡ ok (some c)
unfolding from_stream_chunk from_compatible_chunk subscript first get find as_text str_dec
from_stream_chunk-plain String.[] none model h = cc
from_stream_chunk-plain String.[] (some String.[]) model h = cc
from_stream_chunk-plain String.[] (some (String.◌∷◌ c s)) none h = refl
from_stream_chunk-plain String.[] (some (String.◌∷◌ c s)) (some m) h = refl
from_stream_chunk-plain (String.◌∷◌ c s) none none h = refl
from_stream_chunk-plain (String.◌∷◌ c s) none (some m) h = refl
from_stream_chunk-plain (String.◌∷◌ c s) (some f) none h = refl
from_stream_chunk-plain (String.◌∷◌ c s) (some f) (some m) h = refl

from_stream_chunk-chunk_json :
    (c : Chunk) → IsPlain c → from_stream_chunk (chunk_json c) ≡ ok (some c)
from_stream_chunk-chunk_json c (h, t) =
    from_stream_chunk-plain c.content c.finish_reason c.model h
    ∙ ap (λ l. ok (some (record c { tool_calls = l }))) (sym t)

after_prefix-append : (p s : String) → after_prefix p (◌<+>◌ p s) ≡ some s
unfolding after_prefix
after_prefix-append String.[] s = ap some (nil-append s)
after_prefix-append (String.◌∷◌ c p) s =
    rw (cons-append c p s) (ground (arith, after_prefix-append p s))

module _ (is_space : ℕ → Bool) (loads : String → Result Json) (dumps : Json → String) where
  -- the lines of the chunks, each with the blank line after it, the mark of the end, and whatever comes after it
  abbrev pub sent_lines : List Chunk → List String → List String
  sent_lines [] rest = "data: [DONE]" ∷ rest
  sent_lines (c ∷ cs) rest = ◌<+>◌ "data: " (dumps (chunk_json c)) ∷ "" ∷ sent_lines cs rest

  -- A plain chunk whose text reads back, and is not the mark of the end.
  abbrev pub IsSent : Chunk → Type 0
  IsSent c =
      IsPlain c
      × (loads (dumps (chunk_json c)) ≡ ok (chunk_json c))
      × (same (strip is_space (dumps (chunk_json c))) "[DONE]" ≡ false)

  -- What a provider streams is what the adapter hands out: the chunks of the lines in their order and nothing else,
  -- whatever the server sends after the mark of the end. Each chunk is supposed to carry a text or the reason of the
  -- end, without which it is not handed out, and no tool calls, which are not read; its text to read back, and not to
  -- be the mark of the end; and that mark to be left as it is when its white space is stripped.
  pub read_lines-sent_lines :
      (cs : List Chunk) (rest : List String)
      → same (strip is_space "[DONE]") "[DONE]" ≡ true
      → All IsSent cs
      → read_lines is_space loads from_stream_chunk (sent_lines cs rest)
        ≡ record { chunks = cs; raised = none }
  unfolding read_lines
  read_lines-sent_lines [] rest mark h =
      let marked : after_prefix "data: " "data: [DONE]" ≡ some "[DONE]" =
        after_prefix-append "data: " "[DONE]" in
      let stops : with_line is_space loads from_stream_chunk (some "[DONE]")
            (read_lines is_space loads from_stream_chunk rest)
          ≡ ended =
        rw mark refl in
      ap
        (λ o.
          with_line is_space loads from_stream_chunk o
            (read_lines is_space loads from_stream_chunk rest))
        marked
      ∙ stops
  read_lines-sent_lines (c ∷ cs) rest mark h =
      let j = chunk_json c in
      let more = read_lines is_space loads from_stream_chunk (sent_lines cs rest) in
      let hands : with_line is_space loads from_stream_chunk (some (dumps j)) more
          ≡ prepend c more =
        rw (h.0.2, h.0.1, from_stream_chunk-chunk_json c h.0.0) refl in
      ap (λ o. with_line is_space loads from_stream_chunk o more)
        (after_prefix-append "data: " (dumps j))
      ∙ hands
      ∙ ap (prepend c) (read_lines-sent_lines cs rest mark h.1)

-- ===== src/Services/Streaming/Frames.antt =====
-- The bytes of a stream of server-sent events, as a client splits them at blank lines.
use Prim.Native.Char.{Char, code}
use Prim.Native.String.{◌++◌ as ◌<+>◌}
use text.Mathlib.TextLemmas.{append_assoc, nil-append, cons-append}
use ultimate_assistant_ai_ga.Services.Streaming.{
  Payload, error_data, of_chunk, Event, data_event, done_event, data_stream, sse_stream, frame,
  chat_stream,
}
use ultimate_assistant_ai_ga.Base.{
  String, Bool, true, false, Option, none, some, List, [], ◌∷◌, ◌++◌, ◌≡◌, refl, map, not, ◌==◌,
  ◌&&◌, ap, ◌∙◌, Bool-cases, inl, inr,
}
use ultimate_assistant_ai_ga.Base.Text.{concat}
use ultimate_assistant_ai_ga.Base.Action.{Exc}
use ultimate_assistant_ai_ga.Exceptions.{str_exc}
use ultimate_assistant_ai_ga.Schemas.{UnifiedRequest, Chunk}
use ultimate_assistant_ai_ga.Providers.Interface.{StreamMethod}
use ultimate_assistant_ai_ga.Providers.Registry.{ProviderRegistry, get_provider}

abbrev newline : Char → Bool
newline c = code c == 10

abbrev pub is_one_line : String → Bool
is_one_line String.[] = true
is_one_line (String.◌∷◌ c s) = not (newline c) && is_one_line s

abbrev into_first : Char → List String → List String
into_first c [] = String.◌∷◌ c String.[] ∷ []
into_first c (t ∷ ts) = String.◌∷◌ c t ∷ ts

abbrev held_back : Bool → List String → List String
held_back true l = into_first "\n" l
held_back false l = l

-- What stands between blank lines, and last what is not ended by one. The Boolean says that a line just
-- ended.
unfoldable pub blocks : Bool → String → List String
blocks ended String.[] = held_back ended ("" ∷ [])
blocks true (String.◌∷◌ c s) = elim (newline c) [
  | true ↦ "" ∷ blocks false s
  | false ↦ into_first "\n" (into_first c (blocks false s))
]
blocks false (String.◌∷◌ c s) = elim (newline c) [
  | true ↦ blocks true s
  | false ↦ into_first c (blocks false s)
]

blank : (rest : String) → ◌<+>◌ "\n\n" rest ≡ String.◌∷◌ "\n" (String.◌∷◌ "\n" rest)
blank rest =
    cons-append "\n" "\n" rest
    ∙ ap (String.◌∷◌ "\n") (cons-append "\n" "" rest ∙ ap (String.◌∷◌ "\n") (nil-append rest))

blocks-line :
    (t rest : String)
    → is_one_line t ≡ true
    → blocks false (◌<+>◌ t (String.◌∷◌ "\n" (String.◌∷◌ "\n" rest))) ≡ t ∷ blocks false rest
unfolding blocks
blocks-line String.[] rest h = rw (nil-append (String.◌∷◌ "\n" (String.◌∷◌ "\n" rest))) refl
blocks-line (String.◌∷◌ c t) rest h = elim (Bool-cases (newline c)) [
  | inl e ↦ let x : false ≡ true = rw e at h in cc
  | inr e ↦
      let g = blocks-line t rest (rw e at h) in
      rw (cons-append c t (String.◌∷◌ "\n" (String.◌∷◌ "\n" rest)), blocks, e, g) refl
]

-- the line of an event
abbrev pub line : (Payload → String) → Event → String
line dumps (data_event d) = ◌<+>◌ "data: " (dumps d)
line dumps done_event = "data: [DONE]"

text-frame :
    (dumps : Payload → String) (e : Event) (rest : String)
    → ◌<+>◌ (frame dumps e) rest ≡ ◌<+>◌ (line dumps e) (String.◌∷◌ "\n" (String.◌∷◌ "\n" rest))
unfolding frame
text-frame dumps (data_event d) rest =
    rw
      (
        append_assoc "data: " (◌<+>◌ (dumps d) "\n\n") rest,
        append_assoc (dumps d) "\n\n" rest,
        blank rest,
        append_assoc "data: " (dumps d) (String.◌∷◌ "\n" (String.◌∷◌ "\n" rest)),
      )
      refl
text-frame dumps done_event rest =
    append_assoc "data: [DONE]" "\n\n" rest ∙ ap (◌<+>◌ "data: [DONE]") (blank rest)

is_one_line-append :
    (s t : String) → is_one_line s ≡ true → is_one_line t ≡ true → is_one_line (◌<+>◌ s t) ≡ true
is_one_line-append String.[] t h k = rw (nil-append t) k
is_one_line-append (String.◌∷◌ c s) t h k = elim (Bool-cases (newline c)) [
  | inl e ↦ let x : false ≡ true = rw e at h in cc
  | inr e ↦ rw (cons-append c s t, e) (is_one_line-append s t (rw e at h) k)
]

module _ (dumps : Payload → String) (one_line : (d : Payload) → is_one_line (dumps d) ≡ true) where
  line-one : (e : Event) → is_one_line (line dumps e) ≡ true
  line-one (data_event d) = is_one_line-append "data: " (dumps d) refl (one_line d)
  line-one done_event = refl

  pub blocks-frames :
      (es : List Event)
      → blocks false (concat (map (frame dumps) es)) ≡ map (line dumps) es ++ "" ∷ []
  unfolding blocks
  blocks-frames [] = refl
  blocks-frames (e ∷ es) =
      rw
        (
          text-frame dumps e (concat (map (frame dumps) es)),
          blocks-line (line dumps e) (concat (map (frame dumps) es)) (line-one e),
          blocks-frames es,
        )
        refl

  abbrev pub error_line : Option Exc → List String
  error_line none = []
  error_line (some e) = ◌<+>◌ "data: " (dumps (error_data (str_exc e))) ∷ []

  abbrev pub chunk_lines : List Chunk → List String
  chunk_lines = map (λ c. ◌<+>◌ "data: " (dumps (of_chunk c)))

  map-data_stream :
      (cs : List Chunk) (e : Option Exc)
      → map (line dumps) (data_stream (record { chunks = cs; raised = e }))
        ≡ chunk_lines cs ++ error_line e ++ "data: [DONE]" ∷ []
  unfolding data_stream
  map-data_stream [] none = refl
  map-data_stream [] (some e) = refl
  map-data_stream (c ∷ cs) e = ap (◌∷◌ (◌<+>◌ "data: " (dumps (of_chunk c)))) (map-data_stream cs e)

  -- The bytes of a chat stream, split at blank lines, are a data line for each chunk of the provider in its
  -- order, then one with the error if the provider raised, then the mark of the end, and nothing after it,
  -- if the serializer writes no line break.
  pub sse_stream-blocks :
      {W : Type 0} (registry : ProviderRegistry W) (provider_name : String) (req : UnifiedRequest)
      (api_key : String) (w : W) (stream : StreamMethod W)
      → chat_stream registry (get_provider registry provider_name) ≡ some stream
      → blocks false
          (concat (map (frame dumps) (sse_stream registry provider_name req api_key w).0))
        ≡ (chunk_lines (stream req api_key w).0.chunks
            ++ error_line (stream req api_key w).0.raised
            ++ "data: [DONE]" ∷ [])
          ++ "" ∷ []
  unfolding sse_stream
  sse_stream-blocks registry provider_name req api_key w stream found =
      let s = (stream req api_key w).0 in
      rw (found, blocks-frames (data_stream s), map-data_stream s.chunks s.raised) refl

-- ===== src/Tests/Codec.antt =====
-- A codec for the response cache that keeps its laws, for the examples: texts are spelled one after the other, and
-- the digest of a query is its whole spelling.
use ultimate_assistant_ai_ga.Base.{
  ◌≡◌, refl, sym, ap, ◌∙◌, String, Bool, true, false, Option, none, some, List, [], ◌∷◌,
}
use ultimate_assistant_ai_ga.Schemas.{Message}
use ultimate_assistant_ai_ga.Services.Cache.{CacheQuery, CachedResponse, CacheCodec, CacheCodecLaws}
use ultimate_assistant_ai_ga.Tests.Token.{
  spell, read, read-spell, marks, count_marks, count_marks-marks, spell_text, text_of,
  text_of-spell_text, spell_number, number_of, number_of-spell_number, reading,
}

abbrev spell_all : List String → String
spell_all [] = ""
spell_all (s ∷ ss) = spell s (spell_all ss)

abbrev first_of : String → Option (String × String) → String
first_of d none = d
first_of d (some (s, r)) = s

abbrev rest_of : String → Option (String × String) → String
rest_of d none = d
rest_of d (some (s, r)) = r

abbrev is_some : Option (String × String) → Bool
is_some none = false
is_some (some x) = true

spell-injective : (s t r q : String) → spell s r ≡ spell t q → (s ≡ t) × (r ≡ q)
spell-injective s t r q e =
    let x : some (s, r) ≡ some (t, q) = sym (read-spell s r) ∙ ap read e ∙ read-spell t q in
    (ap (λ o. first_of s o) x, ap (λ o. rest_of r o) x)

spell_all-injective : (ss ts : List String) → spell_all ss ≡ spell_all ts → ss ≡ ts
spell_all-injective [] [] e = refl
spell_all-injective [] (t ∷ ts) e =
    let x : false ≡ true = ap is_some (ap read e ∙ read-spell t (spell_all ts)) in cc
spell_all-injective (s ∷ ss) [] e =
    let x : true ≡ false = ap is_some (sym (read-spell s (spell_all ss)) ∙ ap read e) in cc
spell_all-injective (s ∷ ss) (t ∷ ts) e =
    let (a, b) = spell-injective s t (spell_all ss) (spell_all ts) e in
    let c = spell_all-injective ss ts b in cc

abbrev flat : List Message → List String
flat [] = []
flat (m ∷ ms) = m.role ∷ m.content ∷ flat ms

abbrev unflat : List String → List Message
unflat [] = []
unflat (r ∷ []) = []
unflat (r ∷ c ∷ ss) = record { role = r; content = c } ∷ unflat ss

unflat-flat : (ms : List Message) → unflat (flat ms) ≡ ms
unflat-flat [] = refl
unflat-flat (m ∷ ms) = ap (◌∷◌ m) (unflat-flat ms)

abbrev fields : CacheQuery → List String
fields q = q.user_id ∷ q.provider ∷ q.model ∷ marks q.temperature ∷ flat q.messages

abbrev query_of : List String → Option CacheQuery
query_of (u ∷ p ∷ m ∷ t ∷ ss) = some (record {
  user_id = u;
  provider = p;
  model = m;
  messages = unflat ss;
  temperature = count_marks t;
})
query_of _ = none

query_of-fields : (q : CacheQuery) → query_of (fields q) ≡ some q
query_of-fields q = rw (unflat-flat q.messages, count_marks-marks q.temperature) refl

spelled-injective : {p q : CacheQuery} → spell_all (fields p) ≡ spell_all (fields q) → p ≡ q
spelled-injective {p} {q} e =
    let x : some p ≡ some q =
      sym (query_of-fields p)
      ∙ ap query_of (spell_all-injective (fields p) (fields q) e)
      ∙ query_of-fields q in
    cc

abbrev dumps : CachedResponse → String
dumps r = spell r.conversation_id (
    spell r.content (
      spell (spell_text r.model) (
        spell (spell_text r.provider) (
          spell (spell_number r.input_tokens) (
            spell (spell_number r.output_tokens) (spell (spell_number r.estimated_cost_usd) ""))))))

abbrev loads : String → Option CachedResponse
loads t = reading (read t) λ a t1. reading (read t1) λ b t2. reading (read t2) λ c t3.
    reading (read t3) λ d t4. reading (read t4) λ e t5. reading (read t5) λ f t6.
      reading (read t6) λ g t7. some (record {
        conversation_id = a;
        content = b;
        model = text_of c;
        provider = text_of d;
        input_tokens = number_of e;
        output_tokens = number_of f;
        estimated_cost_usd = number_of g;
      })

loads-dumps : (r : CachedResponse) → loads (dumps r) ≡ some r
loads-dumps r =
    let g = spell (spell_number r.estimated_cost_usd) "" in
    let f = spell (spell_number r.output_tokens) g in
    let e = spell (spell_number r.input_tokens) f in
    let d = spell (spell_text r.provider) e in
    let c = spell (spell_text r.model) d in
    let b = spell r.content c in
    rw
      (
        read-spell r.conversation_id b,
        read-spell r.content c,
        read-spell (spell_text r.model) d,
        read-spell (spell_text r.provider) e,
        read-spell (spell_number r.input_tokens) f,
        read-spell (spell_number r.output_tokens) g,
        read-spell (spell_number r.estimated_cost_usd) "",
        text_of-spell_text r.model,
        text_of-spell_text r.provider,
        number_of-spell_number r.input_tokens,
        number_of-spell_number r.output_tokens,
        number_of-spell_number r.estimated_cost_usd,
      )
      refl

abbrev pub spelled : CacheCodec
spelled = record { sha256 = λ q. spell_all (fields q); dumps = dumps; loads = loads }

pub spelled-CacheCodecLaws : CacheCodecLaws spelled
spelled-CacheCodecLaws = record { sha256-injective = spelled-injective; loads-dumps = loads-dumps }

-- ===== src/Tests/Token.antt =====
-- An unsigned token format that keeps the laws of JWT, for the examples: a text is spelled with a mark
-- before each character and ends in a stop, and a number is that many marks.
use Prim.Native.Char.{Char, code}
use ultimate_assistant_ai_ga.Base.{
  ℕ, zero, suc, ◌+◌, ◌*◌, ◌<◌, ◌≡◌, refl, ap, ◌∙◌, sym, String, Bool, true, false, Option, none,
  some, arith, ◌==◌, ltb, if◌then◌else◌, inl, inr, Bool-cases, same, str_dec, if_pos,
}
use ultimate_assistant_ai_ga.Core.Security.{Payload, Jwt, JwtLaws, Uuid, Passwords, second}

abbrev marked : Char → String → String
marked c s = String.◌∷◌ "x" (String.◌∷◌ c s)

-- the text, then the rest
abbrev pub spell : String → String → String
spell String.[] rest = String.◌∷◌ "." rest
spell (String.◌∷◌ c s) rest = marked c (spell s rest)

abbrev push : Char → Option (String × String) → Option (String × String)
push c none = none
push c (some (s, rest)) = some (String.◌∷◌ c s, rest)

abbrev pub read : String → Option (String × String)
read String.[] = none
read (String.◌∷◌ c String.[]) = if code c == b'.' then some ("", "") else none
read (String.◌∷◌ c (String.◌∷◌ d s)) =
    let more = push d (read s) in
    if code c == b'.' then some ("", String.◌∷◌ d s) else if code c == b'x' then more else none

pub read-spell : (s rest : String) → read (spell s rest) ≡ some (s, rest)
read-spell String.[] String.[] = refl
read-spell String.[] (String.◌∷◌ c rest) = refl
read-spell (String.◌∷◌ c s) rest = rw (read-spell s rest)

abbrev pub marks : ℕ → String
marks zero = ""
marks (suc n) = String.◌∷◌ "x" (marks n)

abbrev pub count_marks : String → ℕ
count_marks String.[] = 0
count_marks (String.◌∷◌ c s) = suc (count_marks s)

pub count_marks-marks : (n : ℕ) → count_marks (marks n) ≡ n
count_marks-marks zero = refl
count_marks-marks (suc n) = ap suc (count_marks-marks n)

abbrev pub spell_text : Option String → String
spell_text none = ""
spell_text (some s) = String.◌∷◌ "s" s

abbrev pub text_of : String → Option String
text_of String.[] = none
text_of (String.◌∷◌ c s) = some s

pub text_of-spell_text : (o : Option String) → text_of (spell_text o) ≡ o
text_of-spell_text none = refl
text_of-spell_text (some s) = refl

abbrev pub spell_number : Option ℕ → String
spell_number none = ""
spell_number (some n) = String.◌∷◌ "n" (marks n)

abbrev pub number_of : String → Option ℕ
number_of String.[] = none
number_of (String.◌∷◌ c s) = some (count_marks s)

pub number_of-spell_number : (o : Option ℕ) → number_of (spell_number o) ≡ o
number_of-spell_number none = refl
number_of-spell_number (some n) = ap some (count_marks-marks n)

unfoldable pub spell_payload : Payload → String
spell_payload p =
    spell (spell_text p.sub)
      (spell (spell_number p.exp) (spell (spell_text p.kind) (spell (spell_text p.jti) "")))

-- reads one text and goes on with the rest
abbrev pub reading :
    {A : Type 0} → Option (String × String) → (String → String → Option A) → Option A
reading none k = none
reading (some (s, rest)) k = k s rest

unfoldable pub parse : String → Option Payload
parse t = reading (read t) λ a t1. reading (read t1) λ b t2. reading (read t2) λ c t3.
    reading (read t3) λ d t4.
      some (record { sub = text_of a; exp = number_of b; kind = text_of c; jti = text_of d })

parse-spell_payload : (p : Payload) → parse (spell_payload p) ≡ some p
unfolding parse spell_payload
parse-spell_payload p = rw (
  read-spell (spell_text p.sub)
      (spell (spell_number p.exp) (spell (spell_text p.kind) (spell (spell_text p.jti) ""))),
  read-spell (spell_number p.exp) (spell (spell_text p.kind) (spell (spell_text p.jti) "")),
  read-spell (spell_text p.kind) (spell (spell_text p.jti) ""),
  read-spell (spell_text p.jti) "",
  text_of-spell_text p.sub,
  number_of-spell_number p.exp,
  text_of-spell_text p.kind,
  text_of-spell_text p.jti,
)

-- the payload, unless the second of its expiry is over
abbrev alive : ℕ → Option ℕ → Bool
alive n none = true
alive n (some e) = ltb n ((e + 1) * second)

abbrev unexpired : ℕ → Option Payload → Option Payload
unexpired n none = none
unexpired n (some p) = if alive n p.exp then some p else none

abbrev pub plain : Jwt
plain = record { encode = spell_payload; decode = λ n t. unexpired n (parse t) }

payload_of : (n : ℕ) (o : Option Payload) (p : Payload) → unexpired n o ≡ some p → o ≡ some p
payload_of n none p e = cc
payload_of n (some q) p e = elim (Bool-cases (alive n q.exp)) [
  | inl live ↦ rw live at e
  | inr dead ↦ let absurd : none ≡ some p = rw dead at e in cc
]

some-injective : {A : Type 0} {a b : A} → some a ≡ some b → a ≡ b
some-injective e = cc

alive_of :
    (n : ℕ) (o : Option Payload) (p : Payload) (e : ℕ)
    → unexpired n o ≡ some p
    → p.exp ≡ some e
    → n < (e + 1) * second
alive_of n none p e h x = cc
alive_of n (some q) p e h x = elim (Bool-cases (alive n q.exp)) [
  | inl live ↦
      let same_payload : q ≡ p = some-injective (payload_of n (some q) p h) in
      let live' : alive n (some e) ≡ true = rw (same_payload, x) at live in ground (arith, live')
  | inr dead ↦ let absurd : none ≡ some p = rw dead at h in cc
]

fresh_alive :
    (n e : ℕ) (p : Payload) → p.exp ≡ some e → n < e * second → unexpired n (some p) ≡ some p
fresh_alive n e p x h = let live : alive n (some e) ≡ true = ground arith in rw (x, live)

pub plain-JwtLaws : JwtLaws plain
plain-JwtLaws = record {
  decode_same = λ {n} {m} {t} {p} {q} a b.
      some-injective (sym (payload_of n (parse t) p a) ∙ payload_of m (parse t) q b);
  decode-encode = λ n e p x h. rw (parse-spell_payload p) (fresh_alive n e p x h);
  decode_expired = λ {n} {e} {t} {p} d x. alive_of n (parse t) p e d x;
}

abbrev pub numbers : Uuid
numbers = record {
  print = marks;
  parse = λ s. some (count_marks s);
  parse-print = λ n. ap some (count_marks-marks n);
}

pub same_self : (p : String) → same p p ≡ true
same_self p = if_pos (str_dec p p) refl true false

abbrev pub plain_passwords : Passwords
plain_passwords = record { hash = λ salt p. p; verify = same; verify-hash = λ salt p. same_self p }

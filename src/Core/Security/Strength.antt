-- ===== src/Core/Security/Strength.antt =====
-- When a password passes `validate_password_strength`.
use Prim.Native.Char.{code}
use Prim.Native.String.{count}
use ultimate_assistant_ai_ga.Base.{
  ℕ, ◌≤◌, ◌≡◌, String, Bool, true, [], arith, ◌↔◌, leb, ◌⊎◌, inl, inr, Bool-cases,
}
use ultimate_assistant_ai_ga.Core.Security.{
  search, is_upper, is_lower, is_special, password_min_length, validate_password_strength,
}

-- A character of the text whose code satisfies the test.
pub HasChar : (ℕ → Bool) → String → Type 0
HasChar p String.[] = ⊥
HasChar p (String.◌∷◌ c s) = (p (code c) ≡ true) ⊎ HasChar p s

search_sound : (p : ℕ → Bool) (s : String) → search p s ≡ true → HasChar p s
unfolding search HasChar
search_sound p String.[] h = cc
search_sound p (String.◌∷◌ c s) h = elim (Bool-cases (p (code c))) [
  | inl hit ↦ inl hit
  | inr miss ↦ inr (search_sound p s (rw miss at h))
]

search_complete : (p : ℕ → Bool) (s : String) → HasChar p s → search p s ≡ true
unfolding search HasChar
search_complete p String.[] h = elim h [ ]
search_complete p (String.◌∷◌ c s) (inl hit) = rw hit
search_complete p (String.◌∷◌ c s) (inr later) = ground (arith, search_complete p s later)

NoIssue : (long upper lower digit special : Bool) → Type 0
NoIssue long upper lower digit special =
    (long ≡ true) × (upper ≡ true) × (lower ≡ true) × (digit ≡ true) × (special ≡ true)

no_issues :
    (is_decimal : ℕ → Bool) (password : String)
    → validate_password_strength is_decimal password ≡ []
    → NoIssue
        (leb password_min_length (count password))
        (search is_upper password)
        (search is_lower password)
        (search is_decimal password)
        (search is_special password)
unfolding validate_password_strength NoIssue
no_issues is_decimal password h = ground arith

issues_none :
    (is_decimal : ℕ → Bool) (password : String)
    → NoIssue
        (leb password_min_length (count password))
        (search is_upper password)
        (search is_lower password)
        (search is_decimal password)
        (search is_special password)
    → validate_password_strength is_decimal password ≡ []
unfolding validate_password_strength NoIssue
issues_none is_decimal password (a, b, c, d, e) = rw (a, b, c, d, e)

-- A password passes exactly if it has eight characters or more, and among them an upper-case letter,
-- a lower-case letter, a decimal digit and one of the special characters.
pub validate_password_strength_lem :
    (is_decimal : ℕ → Bool) (password : String)
    → (validate_password_strength is_decimal password ≡ []) ↔ (
        (8 ≤ count password)
        × HasChar is_upper password
        × HasChar is_lower password
        × HasChar is_decimal password
        × HasChar is_special password)
unfolding NoIssue
validate_password_strength_lem is_decimal password = (
  λ h.
      let (long, up, low, dig, spec) = no_issues is_decimal password h in
      (
        ground arith,
        search_sound is_upper password up,
        search_sound is_lower password low,
        search_sound is_decimal password dig,
        search_sound is_special password spec,
      ),
  λ (long, up, low, dig, spec). issues_none is_decimal password (
    ground arith,
    search_complete is_upper password up,
    search_complete is_lower password low,
    search_complete is_decimal password dig,
    search_complete is_special password spec,
  ),
)

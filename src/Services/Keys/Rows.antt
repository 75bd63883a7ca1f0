-- ===== src/Services/Keys/Rows.antt =====
-- The rows of the table of keys by their user and provider.
use ultimate_assistant_ai_ga.Services.Keys.{
  ApiKey, same_key, is_current, is_row, get_by_user_and_provider,
}
use ultimate_assistant_ai_ga.Base.{
  ℕ, String, true, false, List, [], ◌∷◌, ◌++◌, ◌≡◌, ◌==◌, not, refl, arith, same, keep, Bool-cases,
  inl, inr,
}
use ultimate_assistant_ai_ga.Base.Lists.{keep-cons-false, keep-keep}

-- A row of one user and provider is no row of another's.
pub is_current-other :
    (u v : ℕ) (p q : String) (k : ApiKey)
    → k.user_id ≡ u
    → k.provider ≡ p
    → same_key (u, p) (v, q) ≡ false
    → is_current v q k ≡ false
is_current-other u v p q k e f h = elim (Bool-cases (u == v)) [
  | inl a ↦ rw (e, f, a) (let g : same p q ≡ false = rw a at h in rw g refl)
  | inr a ↦ rw (e, a) refl
]

pub is_row-other :
    (key_id u v : ℕ) (q : String) (k : ApiKey)
    → (u == v) ≡ false
    → is_current v q k ≡ true
    → not (is_row key_id u k) ≡ true
is_row-other key_id u v q k n h = grind arith

-- A row added for one user and provider is not among another's.
pub get_by-add :
    (keys : List ApiKey) (k : ApiKey) (v : ℕ) (q : String)
    → is_current v q k ≡ false
    → get_by_user_and_provider v q (keys ++ k ∷ []) ≡ get_by_user_and_provider v q keys
unfolding get_by_user_and_provider
get_by-add keys k v q h = rw (keep-cons-false (is_current v q) keys k h) refl

pub get_by-delete :
    (keys : List ApiKey) (key_id u v : ℕ) (q : String)
    → (u == v) ≡ false
    → get_by_user_and_provider v q (keep (λ k. not (is_row key_id u k)) keys)
      ≡ get_by_user_and_provider v q keys
unfolding get_by_user_and_provider
get_by-delete keys key_id u v q n =
    rw
      (keep-keep (is_current v q) (λ k. not (is_row key_id u k)) keys
        (λ k h. is_row-other key_id u v q k n h))
      refl

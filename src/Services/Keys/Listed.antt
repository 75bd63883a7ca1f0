-- ===== src/Services/Keys/Listed.antt =====
-- The providers listed for a user have a key.
use ultimate_assistant_ai_ga.Services.Keys.{
  ApiKey, CacheKey, TtlCache, TtlCacheLaws, KeyState, is_current, get_by_user_and_provider,
  get_decrypted_key, get_user_providers, providers_of, distinct,
}
use ultimate_assistant_ai_ga.Services.Keys.Coherence.{fetch}
use ultimate_assistant_ai_ga.Services.Keys.RoundTrip.{KeyRequest, run, get_decrypted_key-run}
use ultimate_assistant_ai_ga.Base.{
  ℕ, String, true, false, none, List, [], ◌∷◌, ◌≡◌, ◌≢◌, ◌==◌, ◌&&◌, refl, arith, List-cases,
  Option-cases, same, str_dec, if_pos, if_neg, keep, map, inl, inr, Bool-cases, sym, ◌∙◌,
}
use ultimate_assistant_ai_ga.Base.Lists.{every}
use ultimate_assistant_ai_ga.Base.Text.{contains}
use ultimate_assistant_ai_ga.Base.Action.{
  ok, err, ok-injective, other_error, value_error, multiple_results, provider_key_missing,
}
use ultimate_assistant_ai_ga.Core.Encryption.{Fernet, decrypt_api_key}

distinct-contains :
    (s : String) (l : List String) → contains s (distinct l) ≡ true → contains s l ≡ true
unfolding distinct
distinct-contains s [] h = h
distinct-contains s (p ∷ ps) h = elim (str_dec s p) [
  | yes e ↦ rw (if_pos (str_dec s p) e) refl
  | no n ↦ rw (if_neg (str_dec s p) n) (
      distinct-contains s ps (elim (Bool-cases (contains p (distinct ps))) [
        | inl b ↦ rw b at h
        | inr b ↦
            let g : contains s (p ∷ distinct ps) ≡ true = rw b at h in
            rw (if_neg (str_dec s p) n) at g
      ]))
]

-- a listed provider has a valid row
keep-listed :
    (u : ℕ) (p : String) (keys : List ApiKey)
    → contains p (map (λ k. k.provider) (keep (λ (k : ApiKey). k.user_id == u && k.is_valid) keys))
      ≡ true
    → keep (is_current u p) keys ≢ []
keep-listed u p [] h e = cc
keep-listed u p (k ∷ keys) h e = elim (Bool-cases (k.user_id == u && k.is_valid)) [
  | inl b ↦ elim (str_dec p k.provider) [
    | yes q ↦
        let m : same k.provider p ≡ true = if_pos (str_dec k.provider p) (sym q) true false in
        let c : is_current u p k ≡ true = grind arith in
        let x : k ∷ keep (is_current u p) keys ≡ [] = rw c at e in cc
    | no n ↦
        let m : same k.provider p ≡ false =
          if_neg (str_dec k.provider p) (λ q. n (sym q)) true false in
        let c : is_current u p k ≡ false = grind arith in
        keep-listed u p keys (rw (b, if_neg (str_dec p k.provider) n) at h) (rw c at e)
  ]
  | inr b ↦
      let c : is_current u p k ≡ false = grind arith in keep-listed u p keys (rw b at h) (rw c at e)
]

module _ (f : Fernet) (k : String) (ks : List String) where
  fetch-listed :
      (u : ℕ) (p : String) (keys : List ApiKey)
      → contains p (providers_of u keys) ≡ true
      → fetch f (ok (k, ks)) keys u p ≢ err (provider_key_missing p)
  unfolding decrypt_api_key get_by_user_and_provider providers_of
  fetch-listed u p keys h e = elim (List-cases (keep (is_current u p) keys)) [
    | inl n ↦ keep-listed u p keys (distinct-contains p _ h) n
    | inr (x, l, n) ↦ elim (List-cases l) [
      | inl m ↦ elim (Bool-cases (every f.is_key (k ∷ ks))) [
        | inr v ↦
            let y : err (value_error "Fernet key must be 32 url-safe base64-encoded bytes.")
                ≡ err (provider_key_missing p) =
              rw (n, m, v) at e in
            cc
        | inl v ↦ elim (Option-cases (f.decrypt (k ∷ ks) x.encrypted_key)) [
          | inl d ↦
              let y : err (other_error "InvalidToken") ≡ err (provider_key_missing p) =
                rw (n, m, v, d) at e in
              cc
          | inr (s, d) ↦ let y : ok s ≡ err (provider_key_missing p) = rw (n, m, v, d) at e in cc
        ]
      ]
      | inr (z, r, m) ↦
          let y : err multiple_results ≡ err (provider_key_missing p) = rw (n, m) at e in cc
    ]
  ]

module _ {C : Type 0} (cache : TtlCache C) (laws : TtlCacheLaws cache) (f : Fernet) (k : String)
    (ks : List String) where
  -- After any requests since the cache was empty, a provider that the service lists for a user has a key:
  -- asking for it never raises that the key is missing.
  pub get_user_providers_lem :
      (rs : List KeyRequest) (w : KeyState C) (now user_id : ℕ) (provider : String)
      (listed : List String)
      → ((n : ℕ) (j : CacheKey) → cache.get n j w.cached ≡ none)
      → (get_user_providers cache f (ok (k, ks)) user_id (run cache f (ok (k, ks)) rs w)).0
        ≡ ok listed
      → contains provider listed ≡ true
      → (get_decrypted_key cache f
          (ok (k, ks))
          now
          user_id
          provider
          (run cache f (ok (k, ks)) rs w)).0
        ≢ err (provider_key_missing provider)
  unfolding get_user_providers
  get_user_providers_lem rs w now user_id provider listed empty asked h e =
      fetch-listed f k ks user_id provider (run cache f (ok (k, ks)) rs w).keys
        (rw (ok-injective asked) h)
        (sym (get_decrypted_key-run cache f (ok (k, ks)) laws rs w now user_id provider empty) ∙ e)

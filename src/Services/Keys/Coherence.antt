-- ===== src/Services/Keys/Coherence.antt =====
-- The cache of decrypted keys against the table: requests of the key service in any order.
use ultimate_assistant_ai_ga.Services.Keys.{
  ApiKey, CacheKey, same_key, TtlCache, TtlCacheLaws, KeyState, get_by_user_and_provider, add_key,
  delete_key, invalidate_user_cache, pop_all, load_key, get_decrypted_key, last_four, fits_columns,
}
use ultimate_assistant_ai_ga.Base.{
  ℕ, ◌+◌, String, true, false, Option, none, some, List, [], ◌∷◌, ◌++◌, ◌≡◌, ◌==◌, refl, arith,
  if◌then◌else◌, same, str_dec, if_neg, ap, sym, keep, any, Bool-cases, Option-cases, inl, inr,
}
use ultimate_assistant_ai_ga.Base.Lists.{any-keep}
use ultimate_assistant_ai_ga.Services.Keys.Rows.{get_by-add, get_by-delete}
use ultimate_assistant_ai_ga.Base.Action.{
  Result, ok, err, Result-cases, provider_key_missing, Keeps,
}
use ultimate_assistant_ai_ga.Core.Encryption.{Fernet, encrypt_api_key, decrypt_api_key}

module _ (f : Fernet) (master : Result (String × List String)) where
  abbrev decrypt_row : String → Option ApiKey → Result String
  decrypt_row provider none = err (provider_key_missing provider)
  decrypt_row provider (some k) = decrypt_api_key f master k.encrypted_key

  abbrev pub and_decrypt : String → Result (Option ApiKey) → Result String
  and_decrypt provider (err e) = err e
  and_decrypt provider (ok found) = decrypt_row provider found

  -- what the table says, without a cache
  abbrev pub fetch : List ApiKey → ℕ → String → Result String
  fetch keys user_id provider =
      and_decrypt provider (get_by_user_and_provider user_id provider keys)

  fetch-same_key :
      (keys : List ApiKey) (u v : ℕ) (p q : String)
      → same_key (u, p) (v, q) ≡ true
      → fetch keys u p ≡ fetch keys v q
  fetch-same_key keys u v p q h = elim (Bool-cases (u == v)) [
    | inl a ↦ elim (str_dec p q) [
      | yes e ↦ let n : u ≡ v = grind arith in rw (n, e) refl
      | no x ↦
          let y : same p q ≡ true = rw a at h in
          let z : false ≡ true = rw (if_neg (str_dec p q) x) at y in cc
    ]
    | inr a ↦ let y : false ≡ true = rw a at h in cc
  ]

module _ {C : Type 0} (cache : TtlCache C) (f : Fernet)
    (master : Result (String × List String)) where
  -- Whatever can be read from the cache is what the table says.
  abbrev pub IsSound : KeyState C → Type 0
  IsSound w =
      (n u : ℕ) (p s : String)
      → cache.get n (u, p) w.cached ≡ some s
      → fetch f master w.keys u p ≡ ok s

  module _ (laws : TtlCacheLaws cache) where
    -- A popped entry can no longer be read, and the others are as they were.
    pub pop-IsSound :
        (w : KeyState C) (u : ℕ) (p : String) (keys : List ApiKey) (d : ℕ)
        → ((v : ℕ) (q : String)
            → same_key (u, p) (v, q) ≡ false
            → fetch f master keys v q ≡ fetch f master w.keys v q)
        → IsSound w
        → IsSound (record { keys = keys; cached = cache.pop (u, p) w.cached; drawn = d })
    pop-IsSound w u p keys d same_elsewhere h n v q s e =
        let g : (if same_key (u, p) (v, q) then none else cache.get n (v, q) w.cached) ≡ some s =
          rw (laws.get-pop n (v, q) (u, p) w.cached) at e in
        elim (Bool-cases (same_key (u, p) (v, q))) [
          | inl b ↦ let x : none ≡ some s = rw b at g in cc
          | inr b ↦ rw (same_elsewhere v q b) (h n v q s (rw b at g))
        ]

    pub put-IsSound :
        (m u : ℕ) (p t : String) (w : KeyState C)
        → fetch f master w.keys u p ≡ ok t
        → IsSound w
        → IsSound (record w { cached = cache.put m (u, p) t w.cached })
    put-IsSound m u p t w hit h n v q s e =
        let g = laws.get-put n m (v, q) (u, p) t s w.cached e in
        elim (Bool-cases (same_key (u, p) (v, q))) [
          | inl b ↦
              let x : t ≡ s = rw b at g in
              rw (sym (fetch-same_key f master w.keys u v p q b), hit) (ap ok x)
          | inr b ↦ h n v q s (rw b at g)
        ]

module _ {C : Type 0} (cache : TtlCache C) (f : Fernet) (laws : TtlCacheLaws cache) where
  pub add_key-Keeps :
      (master : Result (String × List String)) (user_id : ℕ) (provider api_key label : String)
      → Keeps (IsSound cache f master) (add_key cache f master user_id provider api_key label)
  unfolding add_key
  add_key-Keeps master user_id provider api_key label w h =
      elim (Result-cases (encrypt_api_key f master w.drawn api_key)) [
        | inr (x, e) ↦ rw e h
        | inl (s, e) ↦
            let row : ApiKey = record {
              id = w.drawn + 1;
              user_id = user_id;
              provider = provider;
              label = label;
              encrypted_key = s;
              last4 = last_four api_key;
              is_valid = true;
            } in
            elim (Bool-cases (fits_columns row)) [
              | inr b ↦ rw (e, b) h
              | inl b ↦
                  rw (e, b)
                    (pop-IsSound cache f master laws w user_id provider (w.keys ++ row ∷ [])
                      (w.drawn + 2)
                      (λ v q n.
                        ap (and_decrypt f master q) (get_by-add w.keys row v q (grind arith)))
                      h)
            ]
      ]

  pop_all-IsSound :
      (master : Result (String × List String)) (ks : List CacheKey) (w : KeyState C)
      → IsSound cache f master w
      → IsSound cache f master (record w { cached = pop_all cache ks w.cached })
  pop_all-IsSound master [] w h = h
  pop_all-IsSound master ((u, p) ∷ ks) w h =
      pop_all-IsSound master ks (record w { cached = cache.pop (u, p) w.cached })
        (pop-IsSound cache f master laws w u p w.keys w.drawn (λ v q n. refl) h)

  -- Popping a list of keys makes those unreadable.
  pop_all-get :
      (ks : List CacheKey) (n : ℕ) (k : CacheKey) (s : String) (c : C)
      → cache.get n k (pop_all cache ks c) ≡ some s
      → (cache.get n k c ≡ some s) × (any (λ j. same_key j k) ks ≡ false)
  pop_all-get [] n k s c e = (e, refl)
  pop_all-get (j ∷ ks) n k s c e =
      let (g, m) = pop_all-get ks n k s (cache.pop j c) e in
      let g' : (if same_key j k then none else cache.get n k c) ≡ some s =
        rw (laws.get-pop n k j c) at g in
      elim (Bool-cases (same_key j k)) [
        | inl b ↦ let x : none ≡ some s = rw b at g' in cc
        | inr b ↦ (rw b at g', rw (b, m) refl)
      ]

  -- After the invalidation nothing of the user can be read.
  invalidate-get :
      (u n v : ℕ) (q s : String) (c : C)
      → cache.get n (v, q) (invalidate_user_cache cache u c) ≡ some s
      → (u == v) ≡ false
  unfolding invalidate_user_cache
  invalidate-get u n v q s c e =
      let ks = keep (λ (k : CacheKey). k.0 == u) (cache.entries c) in
      let (g, m) = pop_all-get ks n (v, q) s c e in
      elim (Bool-cases (u == v)) [
        | inl b ↦
            let t : any (λ j. same_key j (v, q)) ks ≡ true =
              any-keep (λ j. same_key j (v, q)) (λ (k : CacheKey). k.0 == u) (cache.entries c)
                (λ k h. grind arith) (laws.entries-get n (v, q) s c g) in
            cc
        | inr b ↦ b
      ]

  pub delete_key-Keeps :
      (master : Result (String × List String)) (key_id user_id : ℕ)
      → Keeps (IsSound cache f master) (delete_key cache f master key_id user_id)
  unfolding delete_key invalidate_user_cache
  delete_key-Keeps master key_id user_id w h n v q s e =
      let b = invalidate-get user_id n v q s w.cached e in
      rw (ap (and_decrypt f master q) (get_by-delete w.keys key_id user_id v q b)) (
        h n v q s
          (pop_all-get (keep (λ (k : CacheKey). k.0 == user_id) (cache.entries w.cached)) n (v, q) s
            w.cached e).0)

  load_key-fetch :
      (master : Result (String × List String)) (now user_id : ℕ) (provider : String)
      (w : KeyState C)
      → (load_key cache f master now user_id provider w).0 ≡ fetch f master w.keys user_id provider
  unfolding load_key
  load_key-fetch master now user_id provider w =
      elim (Result-cases (get_by_user_and_provider user_id provider w.keys)) [
        | inr (x, e) ↦ rw e refl
        | inl (o, e) ↦ elim (Option-cases o) [
          | inl n ↦ rw (e, n) refl
          | inr (k, q) ↦ elim (Result-cases (decrypt_api_key f master k.encrypted_key)) [
            | inl (s, d) ↦ rw (e, q, d) refl
            | inr (x, d) ↦ rw (e, q, d) refl
          ]
        ]
      ]

  load_key-Keeps :
      (master : Result (String × List String)) (now user_id : ℕ) (provider : String)
      → Keeps (IsSound cache f master) (load_key cache f master now user_id provider)
  unfolding load_key get_by_user_and_provider
  load_key-Keeps master now user_id provider w h =
      elim (Result-cases (get_by_user_and_provider user_id provider w.keys)) [
        | inr (x, e) ↦ rw e h
        | inl (o, e) ↦ elim (Option-cases o) [
          | inl n ↦ rw (e, n) h
          | inr (k, q) ↦ elim (Result-cases (decrypt_api_key f master k.encrypted_key)) [
            | inl (s, d) ↦
                rw (e, q, d)
                  (put-IsSound cache f master laws now user_id provider s w (rw (e, q, d) refl) h)
            | inr (x, d) ↦ rw (e, q, d) h
          ]
        ]
      ]

  pub get_decrypted_key-Keeps :
      (master : Result (String × List String)) (now user_id : ℕ) (provider : String)
      → Keeps (IsSound cache f master) (get_decrypted_key cache f master now user_id provider)
  unfolding get_decrypted_key get_by_user_and_provider
  get_decrypted_key-Keeps master now user_id provider w h =
      elim (Option-cases (cache.get now (user_id, provider) w.cached)) [
        | inl e ↦ rw e (load_key-Keeps master now user_id provider w h)
        | inr (s, e) ↦ rw e h
      ]

  pub get_decrypted_key-fetch :
      (master : Result (String × List String)) (now user_id : ℕ) (provider : String)
      (w : KeyState C)
      → IsSound cache f master w
      → (get_decrypted_key cache f master now user_id provider w).0
        ≡ fetch f master w.keys user_id provider
  unfolding get_decrypted_key
  get_decrypted_key-fetch master now user_id provider w h =
      elim (Option-cases (cache.get now (user_id, provider) w.cached)) [
        | inl e ↦ rw e (load_key-fetch master now user_id provider w)
        | inr (s, e) ↦ rw (e, h now user_id provider s e) refl
      ]

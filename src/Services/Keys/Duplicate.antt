-- ===== src/Services/Keys/Duplicate.antt =====
-- A second key of a user for one provider.
use ultimate_assistant_ai_ga.Services.Keys.{
  ApiKey, CacheKey, TtlCache, TtlCacheLaws, KeyState, is_current, get_by_user_and_provider,
  scalar_one_or_none, add_key, delete_key, load_key, get_decrypted_key, fits_columns,
}
use ultimate_assistant_ai_ga.Services.Keys.Coherence.{IsSound, get_decrypted_key-fetch}
use ultimate_assistant_ai_ga.Services.Keys.Rows.{get_by-delete}
use ultimate_assistant_ai_ga.Services.Keys.RoundTrip.{
  KeyRequest, add, delete, get, step, run, run-IsSound, current_itself, new_row, Fits, add_key-Fits,
}
use ultimate_assistant_ai_ga.Base.{
  ℕ, String, true, false, none, some, List, [], ◌∷◌, ◌++◌, ◌≡◌, ◌==◌, refl, sym, ap, ◌∙◌, keep, inl,
  inr, Bool-cases, Option-cases,
}
use ultimate_assistant_ai_ga.Base.Lists.{All, every, keep-append, append-nil, keep-cons-true}
use ultimate_assistant_ai_ga.Base.Action.{Result, ok, err, Result-cases, multiple_results}
use ultimate_assistant_ai_ga.Core.Encryption.{Fernet, encrypt_api_key, decrypt_api_key}

scalar-append-some :
    (xs : List ApiKey) (k r : ApiKey)
    → scalar_one_or_none xs ≡ ok (some r)
    → scalar_one_or_none (xs ++ k ∷ []) ≡ err multiple_results
scalar-append-some [] k r h = cc
scalar-append-some (x ∷ []) k r h = refl
scalar-append-some (x ∷ y ∷ xs) k r h = cc

scalar-append-err :
    (xs ys : List ApiKey)
    → scalar_one_or_none xs ≡ err multiple_results
    → scalar_one_or_none (xs ++ ys) ≡ err multiple_results
scalar-append-err [] ys h = cc
scalar-append-err (x ∷ []) ys h = cc
scalar-append-err (x ∷ y ∷ xs) ys h = refl

get_by-append-err :
    (u : ℕ) (p : String) (keys rows : List ApiKey)
    → get_by_user_and_provider u p keys ≡ err multiple_results
    → get_by_user_and_provider u p (keys ++ rows) ≡ err multiple_results
unfolding get_by_user_and_provider
get_by-append-err u p keys rows h =
    rw (keep-append (is_current u p) keys rows)
      (scalar-append-err (keep (is_current u p) keys) (keep (is_current u p) rows) h)

get_by-add-some :
    (keys : List ApiKey) (k r : ApiKey)
    → k.is_valid ≡ true
    → get_by_user_and_provider k.user_id k.provider keys ≡ ok (some r)
    → get_by_user_and_provider k.user_id k.provider (keys ++ k ∷ []) ≡ err multiple_results
unfolding get_by_user_and_provider
get_by-add-some keys k r valid h =
    rw (keep-cons-true (is_current k.user_id k.provider) keys k (current_itself keys k valid))
      (scalar-append-some (keep (is_current k.user_id k.provider) keys) k r h)

module _ {C : Type 0} (cache : TtlCache C) (f : Fernet)
    (master : Result (String × List String)) where
  -- Adding a key only appends to the table.
  add_key-appends :
      (u : ℕ) (p a l : String) (w : KeyState C)
      → (rows : List ApiKey) × ((add_key cache f master u p a l w).1.keys ≡ w.keys ++ rows)
  unfolding add_key
  add_key-appends u p a l w = elim (Result-cases (encrypt_api_key f master w.drawn a)) [
    | inr (x, e) ↦ ([], rw e (sym (append-nil w.keys)))
    | inl (s, e) ↦
        let row = new_row s u p a l w.drawn in
        elim (Bool-cases (fits_columns row)) [
          | inr b ↦ ([], rw (e, b) (sym (append-nil w.keys)))
          | inl b ↦ (row ∷ [], rw (e, b) refl)
        ]
  ]

  load_key-keys :
      (now u : ℕ) (p : String) (w : KeyState C)
      → (load_key cache f master now u p w).1.keys ≡ w.keys
  unfolding load_key
  load_key-keys now u p w = elim (Result-cases (get_by_user_and_provider u p w.keys)) [
    | inr (x, e) ↦ rw e refl
    | inl (o, e) ↦ elim (Option-cases o) [
      | inl n ↦ rw (e, n) refl
      | inr (k, q) ↦ elim (Result-cases (decrypt_api_key f master k.encrypted_key)) [
        | inl (s, d) ↦ rw (e, q, d) refl
        | inr (x, d) ↦ rw (e, q, d) refl
      ]
    ]
  ]

  get_decrypted_key-keys :
      (now u : ℕ) (p : String) (w : KeyState C)
      → (get_decrypted_key cache f master now u p w).1.keys ≡ w.keys
  unfolding get_decrypted_key
  get_decrypted_key-keys now u p w = elim (Option-cases (cache.get now (u, p) w.cached)) [
    | inl e ↦ rw e (load_key-keys now u p w)
    | inr (s, e) ↦ rw e refl
  ]

  module _ (user_id : ℕ) (provider : String) where
    -- a request that deletes no key of the user's
    abbrev pub DeletesNone : KeyRequest → Type 0
    DeletesNone (delete key_id v) = (v == user_id) ≡ false
    DeletesNone _ = Unit

    abbrev Several : KeyState C → Type 0
    Several w = get_by_user_and_provider user_id provider w.keys ≡ err multiple_results

    step-Several :
        (r : KeyRequest) (w : KeyState C)
        → DeletesNone r
        → Several w
        → Several (step cache f master r w)
    unfolding delete_key
    step-Several (add u p a l) w n h =
        let (rows, e) = add_key-appends u p a l w in
        ap (get_by_user_and_provider user_id provider) e
        ∙ get_by-append-err user_id provider w.keys rows h
    step-Several (delete key_id v) w n h = get_by-delete w.keys key_id v user_id provider n ∙ h
    step-Several (get now u p) w n h =
        ap (get_by_user_and_provider user_id provider) (get_decrypted_key-keys now u p w) ∙ h

    run-Several :
        (rs : List KeyRequest) (w : KeyState C)
        → All DeletesNone rs
        → Several w
        → Several (run cache f master rs w)
    run-Several [] w n h = h
    run-Several (r ∷ rs) w (n, ns) h =
        run-Several rs (step cache f master r w) ns (step-Several r w n h)

module _ {C : Type 0} (cache : TtlCache C) (laws : TtlCacheLaws cache) (f : Fernet) (k : String)
    (ks : List String) where
  -- Under encryption keys that are keys and stay the same, whatever API keys were added, deleted and used since the
  -- cache was empty: a second key for a provider is accepted if its texts fit into the columns, and from then on,
  -- whatever is requested next but deleting a key of the user's, every use of the provider raises MultipleResultsFound.
  pub get_decrypted_key-duplicate :
      (before after : List KeyRequest) (now user_id : ℕ) (provider api_key label : String)
      (r : ApiKey) (start : KeyState C)
      → let w = run cache f (ok (k, ks)) before start in
        every f.is_key (k ∷ ks) ≡ true
        → ((n : ℕ) (j : CacheKey) → cache.get n j start.cached ≡ none)
        → Fits provider label (f.encrypt k ks w.drawn api_key)
        → get_by_user_and_provider user_id provider w.keys ≡ ok (some r)
        → All (DeletesNone cache f (ok (k, ks)) user_id provider) after
        → let (added, w') = add_key cache f (ok (k, ks)) user_id provider api_key label w in
          (added
            ≡ ok (new_row (f.encrypt k ks w.drawn api_key) user_id provider api_key label w.drawn))
          × ((get_decrypted_key cache f
                (ok (k, ks))
                now
                user_id
                provider
                (run cache f (ok (k, ks)) after w')).0
              ≡ err multiple_results)
  get_decrypted_key-duplicate before after now user_id provider api_key label r start valid empty
        fit there spared =
      let master : Result (String × List String) = ok (k, ks) in
      let w = run cache f master before start in
      let request = KeyRequest.add user_id provider api_key label in
      let w' = step cache f master request w in
      let added = add_key-Fits cache laws f k ks user_id provider api_key label w valid fit in
      let row = new_row (f.encrypt k ks w.drawn api_key) user_id provider api_key label w.drawn in
      let several : get_by_user_and_provider user_id provider w'.keys ≡ err multiple_results =
        ap (λ x. get_by_user_and_provider user_id provider x.1.keys) added
        ∙ get_by-add-some w.keys row r refl there in
      let last = run cache f master after w' in
      let sound : IsSound cache f master start =
        λ n u p s e. (let x : none ≡ some s = sym (empty n (u, p)) ∙ e in cc) in
      let sound_then = run-IsSound cache f master laws after w' (
        run-IsSound cache f master laws (request ∷ []) w
          (run-IsSound cache f master laws before start sound)) in
      let raised = run-Several cache f master user_id provider after w' spared several in
      (
        ap (λ x. x.0) added,
        get_decrypted_key-fetch cache f laws master now user_id provider last sound_then
            ∙ rw raised refl,
      )

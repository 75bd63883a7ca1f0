-- ===== src/Services/Keys/RoundTrip.antt =====
-- What the users of the key service see: keys come back as they were added, whatever was requested in
-- between.
use Prim.Native.String.{String, count}
use text.Mathlib.TextLemmas.{length-cons}
use ultimate_assistant_ai_ga.Services.Keys.{
  ApiKey, CacheKey, same_key, TtlCache, TtlCacheLaws, KeyState, is_current,
  get_by_user_and_provider, scalar_one_or_none, add_key, delete_key, load_key, get_decrypted_key,
  last_four, fits_columns,
}
use ultimate_assistant_ai_ga.Services.Keys.Coherence.{
  IsSound, fetch, add_key-Keeps, delete_key-Keeps, get_decrypted_key-Keeps, get_decrypted_key-fetch,
}
use ultimate_assistant_ai_ga.Base.{
  ℕ, ◌+◌, ◌≤◌, true, false, none, some, List, [], ◌∷◌, ◌++◌, ◌≡◌, refl, arith, same, str_dec,
  if_pos, keep,
}
use ultimate_assistant_ai_ga.Base.Lists.{Holds, every, keep-cons-true}
use ultimate_assistant_ai_ga.Base.Action.{Result, ok}
use ultimate_assistant_ai_ga.Core.Encryption.{Fernet, encrypt_api_key, decrypt_api_key}

-- A request of a user, with the arguments of its method.
pub data KeyRequest : Type 0 where
  add : ℕ → String → String → String → KeyRequest
  delete : ℕ → ℕ → KeyRequest
  get : ℕ → ℕ → String → KeyRequest

module _ {C : Type 0} (cache : TtlCache C) (f : Fernet)
    (master : Result (String × List String)) where
  abbrev pub step : KeyRequest → KeyState C → KeyState C
  step (add user_id provider api_key label) w =
      (add_key cache f master user_id provider api_key label w).1
  step (delete key_id user_id) w = (delete_key cache f master key_id user_id w).1
  step (get now user_id provider) w = (get_decrypted_key cache f master now user_id provider w).1

  abbrev pub run : List KeyRequest → KeyState C → KeyState C
  run [] w = w
  run (r ∷ rs) w = run rs (step r w)

  module _ (laws : TtlCacheLaws cache) where
    step-IsSound :
        (r : KeyRequest) (w : KeyState C)
        → IsSound cache f master w
        → IsSound cache f master (step r w)
    step-IsSound (add user_id provider api_key label) w h =
        add_key-Keeps cache f laws master user_id provider api_key label w h
    step-IsSound (delete key_id user_id) w h =
        delete_key-Keeps cache f laws master key_id user_id w h
    step-IsSound (get now user_id provider) w h =
        get_decrypted_key-Keeps cache f laws master now user_id provider w h

    pub run-IsSound :
        (rs : List KeyRequest) (w : KeyState C)
        → IsSound cache f master w
        → IsSound cache f master (run rs w)
    run-IsSound [] w h = h
    run-IsSound (r ∷ rs) w h = run-IsSound rs (step r w) (step-IsSound r w h)

    -- Whatever keys were added, deleted and used since the cache was empty, a key is what the table of
    -- keys says without the cache: the decrypted key of the user's only valid row for the provider, or
    -- the exception for none or several.
    pub get_decrypted_key-run :
        (rs : List KeyRequest) (w : KeyState C) (now user_id : ℕ) (provider : String)
        → ((n : ℕ) (k : CacheKey) → cache.get n k w.cached ≡ none)
        → (get_decrypted_key cache f master now user_id provider (run rs w)).0
          ≡ fetch f master (run rs w).keys user_id provider
    get_decrypted_key-run rs w now user_id provider empty =
        get_decrypted_key-fetch cache f laws master now user_id provider (run rs w)
          (run-IsSound rs w (λ n u p s e. let x : none ≡ some s = rw (empty n (u, p)) at e in cc))

pub same_refl : (s : String) → same s s ≡ true
same_refl s = if_pos (str_dec s s) refl true false

scalar-append-none :
    (xs : List ApiKey) (k : ApiKey)
    → scalar_one_or_none xs ≡ ok none
    → scalar_one_or_none (xs ++ k ∷ []) ≡ ok (some k)
scalar-append-none [] k h = refl
scalar-append-none (x ∷ []) k h = cc
scalar-append-none (x ∷ y ∷ xs) k h = cc

module _ (keys : List ApiKey) (k : ApiKey) (valid : k.is_valid ≡ true) where
  pub current_itself : is_current k.user_id k.provider k ≡ true
  current_itself = rw (same_refl k.provider, valid) (grind arith)

  get_by-add-none :
      get_by_user_and_provider k.user_id k.provider keys ≡ ok none
      → get_by_user_and_provider k.user_id k.provider (keys ++ k ∷ []) ≡ ok (some k)
  unfolding get_by_user_and_provider
  get_by-add-none h =
      rw (keep-cons-true (is_current k.user_id k.provider) keys k current_itself)
        (scalar-append-none (keep (is_current k.user_id k.provider) keys) k h)

pub count-last_four-le : (s : String) → count (last_four s) ≤ 4
unfolding last_four
count-last_four-le String.[] = omega arith
count-last_four-le (String.◌∷◌ c s) = ground (arith, length-cons c s, count-last_four-le s)

-- The row that is made of a key.
abbrev pub new_row : String → ℕ → String → String → String → ℕ → ApiKey
new_row encrypted user_id provider api_key label drawn = record {
  id = drawn + 1;
  user_id = user_id;
  provider = provider;
  label = label;
  encrypted_key = encrypted;
  last4 = last_four api_key;
  is_valid = true;
}

-- What fits: the columns take 50, 100 and 500 characters of the provider, the label and the encrypted key.
abbrev pub Fits : String → String → String → Type 0
Fits provider label encrypted =
    (count provider ≤ 50) × (count label ≤ 100) × (count encrypted ≤ 500)

pub fits_columns-new_row :
    (encrypted : String) (user_id : ℕ) (provider api_key label : String) (drawn : ℕ)
    → Fits provider label encrypted
    → fits_columns (new_row encrypted user_id provider api_key label drawn) ≡ true
fits_columns-new_row encrypted user_id provider api_key label drawn h =
    ground (arith, count-last_four-le api_key)

module _ {C : Type 0} (cache : TtlCache C) (laws : TtlCacheLaws cache) (f : Fernet) (k : String)
    (ks : List String) where
  popped :
      (n user_id : ℕ) (provider : String) (c : C)
      → cache.get n (user_id, provider) (cache.pop (user_id, provider) c) ≡ none
  popped n user_id provider c =
      let b : same_key (user_id, provider) (user_id, provider) ≡ true =
        rw (same_refl provider) (grind arith) in
      rw (laws.get-pop n (user_id, provider) (user_id, provider) c, b) refl

  module _ (user_id : ℕ) (provider api_key label : String) (w : KeyState C) where
    abbrev encrypted : String
    encrypted = f.encrypt k ks w.drawn api_key

    -- the state after a key was added
    abbrev with_key : KeyState C
    with_key = record {
      keys = w.keys ++ new_row encrypted user_id provider api_key label w.drawn ∷ [];
      cached = cache.pop (user_id, provider) w.cached;
      drawn = w.drawn + 1 + 1;
    }

    -- A key whose texts fit is added.
    pub add_key-Fits :
        every f.is_key (k ∷ ks) ≡ true
        → Fits provider label encrypted
        → add_key cache f (ok (k, ks)) user_id provider api_key label w
          ≡ (ok (new_row encrypted user_id provider api_key label w.drawn), with_key)
    unfolding add_key encrypt_api_key
    add_key-Fits valid fitting =
        let fit = fits_columns-new_row encrypted user_id provider api_key label w.drawn fitting in
        rw (valid, fit) refl

    -- A key that is added for a provider without a valid row, under encryption keys that are keys, is accepted if the
    -- provider, the label and the encrypted key fit into 50, 100 and 500 characters, and is what the service hands out
    -- next, also when the encryption keys were rotated in between, as long as the new ones are keys and the first of
    -- the old ones is still among them.
    pub get_decrypted_key-add_key :
        (k' : String) (ks' : List String) (now : ℕ)
        → every f.is_key (k ∷ ks) ≡ true
        → every f.is_key (k' ∷ ks') ≡ true
        → Holds k (k' ∷ ks')
        → Fits provider label encrypted
        → get_by_user_and_provider user_id provider w.keys ≡ ok none
        → let (added, w') = add_key cache f (ok (k, ks)) user_id provider api_key label w in
          (added ≡ ok (new_row encrypted user_id provider api_key label w.drawn))
          × ((get_decrypted_key cache f (ok (k', ks')) now user_id provider w').0 ≡ ok api_key)
    unfolding get_decrypted_key load_key decrypt_api_key
    get_decrypted_key-add_key k' ks' now valid valid' held fitting fresh =
        let row = new_row encrypted user_id provider api_key label w.drawn in
        let first : f.is_key k ≡ true = grind arith in
        rw (add_key-Fits valid fitting) (
          refl,
          rw
              (
                popped now user_id provider w.cached,
                get_by-add-none w.keys row refl fresh,
                valid',
                f.decrypt-encrypt k ks (k' ∷ ks') w.drawn api_key first valid' held,
              )
              refl,
        )

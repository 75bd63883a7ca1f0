-- ===== src/Services/Keys.antt =====
-- app/services/key_service.py and app/db/repositories/key_repo.py: users' API keys, encrypted in a
-- table and decrypted through an in-process cache. The cache (cachetools.TTLCache) is a parameter; its
-- keys are kept as the user and the provider. The clock is `now`.
pub mod Rows
pub mod Coherence
pub mod RoundTrip
pub mod Duplicate
pub mod Listed
use Prim.Native.String.{count}
use ultimate_assistant_ai_ga.Base.{
  ℕ, ◌+◌, String, Bool, true, false, Option, none, some, List, [], ◌∷◌, ◌++◌, ◌≡◌, ◌≢◌, ◌==◌, ◌&&◌,
  ◌||◌, ltb, leb, not, if◌then◌else◌, same, keep, any, length, map,
}
use ultimate_assistant_ai_ga.Base.Text.{contains}
use ultimate_assistant_ai_ga.Base.Action.{
  Result, ok, err, Action, pure, raise, gets, modify, or_raise, ◌>>=◌, ◌>>◌, provider_key_missing,
  multiple_results, raise_if, other_error,
}
use ultimate_assistant_ai_ga.Core.Encryption.{Fernet, encrypt_api_key, decrypt_api_key}

-- a row of app/models/api_key.py
pub record ApiKey : Type 0 where
  pub id : ℕ
  pub user_id : ℕ
  pub provider : String
  pub label : String
  pub encrypted_key : String
  pub last4 : String
  pub is_valid : Bool

-- what the columns of the table take
abbrev pub fits_columns : ApiKey → Bool
fits_columns k =
    leb (count k.provider) 50
    && (leb (count k.label) 100 && (leb (count k.encrypted_key) 500 && leb (count k.last4) 4))

-- "{user_id}:{provider}"
abbrev pub CacheKey : Type 0
CacheKey = ℕ × String

abbrev pub same_key : CacheKey → CacheKey → Bool
same_key (u, p) (v, q) = u == v && same p q

pub record TtlCache (C : Type 0) : Type 0 where
  pub get : ℕ → CacheKey → C → Option String
  pub put : ℕ → CacheKey → String → C → C
  pub pop : CacheKey → C → C
  -- iterating over the cache
  pub entries : C → List CacheKey

-- What cachetools documents: `put` may evict or expire other entries, never invent or change one; `pop`
-- removes its key; and iterating finds every entry that can be read.
pub record TtlCacheLaws {C : Type 0} (t : TtlCache C) : Type 0 where
  pub get-put :
      (n m : ℕ) (k j : CacheKey) (v s : String) (c : C)
      → t.get n k (t.put m j v c) ≡ some s
      → (if same_key j k then v ≡ s else t.get n k c ≡ some s)
  pub get-pop :
      (n : ℕ) (k j : CacheKey) (c : C)
      → t.get n k (t.pop j c) ≡ (if same_key j k then none else t.get n k c)
  pub entries-get :
      (n : ℕ) (k : CacheKey) (s : String) (c : C)
      → t.get n k c ≡ some s
      → any (λ j. same_key j k) (t.entries c) ≡ true

-- The table, the cache, and how many random values (IDs and nonces) were drawn.
pub record KeyState (C : Type 0) : Type 0 where
  pub keys : List ApiKey
  pub cached : C
  pub drawn : ℕ

abbrev pub is_current : ℕ → String → ApiKey → Bool
is_current user_id provider k = k.user_id == user_id && same k.provider provider && k.is_valid

abbrev scalar_one_or_none : List ApiKey → Result (Option ApiKey)
scalar_one_or_none [] = ok none
scalar_one_or_none (k ∷ []) = ok (some k)
scalar_one_or_none (k ∷ l ∷ ks) = err multiple_results

-- `KeyRepository.get_by_user_and_provider`
unfoldable pub get_by_user_and_provider : ℕ → String → List ApiKey → Result (Option ApiKey)
get_by_user_and_provider user_id provider keys =
    scalar_one_or_none (keep (is_current user_id provider) keys)

abbrev once : String → List String → List String
once p ps = if contains p ps then ps else p ∷ ps

-- `KeyRepository.get_user_providers`; the order of a DISTINCT is the database's, here that of the last
-- rows
unfoldable pub distinct : List String → List String
distinct [] = []
distinct (p ∷ ps) = once p (distinct ps)

unfoldable pub providers_of : ℕ → List ApiKey → List String
unfolding distinct
providers_of user_id keys =
    distinct (map (λ k. k.provider) (keep (λ k. k.user_id == user_id && k.is_valid) keys))

-- `api_key[-4:]`
unfoldable pub last_four : String → String
last_four String.[] = ""
last_four (String.◌∷◌ c s) =
    let rest = last_four s in if leb (count s) 3 then String.◌∷◌ c s else rest

abbrev pub is_row : ℕ → ℕ → ApiKey → Bool
is_row key_id user_id k = k.id == key_id && k.user_id == user_id

module _ {C : Type 0} (cache : TtlCache C) where
  abbrev pub pop_all : List CacheKey → C → C
  pop_all [] c = c
  pop_all (k ∷ ks) c = pop_all ks (cache.pop k c)

  -- `_invalidate_user_cache`
  unfoldable pub invalidate_user_cache : ℕ → C → C
  invalidate_user_cache user_id c = pop_all (keep (λ k. k.0 == user_id) (cache.entries c)) c

module _ {C : Type 0} (cache : TtlCache C) (f : Fernet)
    (master : Result (String × List String)) where
  abbrev from_result : {A : Type 0} → Result A → Action (KeyState C) A
  from_result x w = (x, w)

  abbrev draw : Action (KeyState C) ℕ
  draw w = (ok w.drawn, record w { drawn = w.drawn + 1 })

  -- `KeyRepository.create`, where the database refuses a row with a text that is too long
  abbrev add_row : ApiKey → Action (KeyState C) (Unit {0})
  add_row k = do
    raise_if (not (fits_columns k)) (other_error "DataError")
    modify (λ w. record w { keys = w.keys ++ k ∷ [] })

  unfoldable pub add_key : ℕ → String → String → String → Action (KeyState C) ApiKey
  unfolding encrypt_api_key last_four
  add_key user_id provider api_key label = do
    nonce ← draw
    encrypted ← from_result (encrypt_api_key f master nonce api_key)
    id ← draw
    let row : ApiKey = record {
      id = id;
      user_id = user_id;
      provider = provider;
      label = label;
      encrypted_key = encrypted;
      last4 = last_four api_key;
      is_valid = true;
    }
    add_row row
    modify (λ w. record w { cached = cache.pop (user_id, provider) w.cached })
    pure row

  -- `KeyService.delete_key`, and the DELETE of the repository; whether a row was there
  unfoldable pub delete_key : ℕ → ℕ → Action (KeyState C) Bool
  unfolding invalidate_user_cache
  delete_key key_id user_id = do
    modify (λ w. record w { cached = invalidate_user_cache cache user_id w.cached })
    found ← gets (λ w. ltb 0 (length (keep (is_row key_id user_id) w.keys)))
    modify (λ w. record w { keys = keep (λ k. not (is_row key_id user_id k)) w.keys })
    pure found

  -- the part behind the cache
  unfoldable pub load_key : ℕ → ℕ → String → Action (KeyState C) String
  unfolding decrypt_api_key get_by_user_and_provider
  load_key now user_id provider = do
    found ← gets (λ w. get_by_user_and_provider user_id provider w.keys) >>= from_result
    key_record ← or_raise (provider_key_missing provider) found
    decrypted ← from_result (decrypt_api_key f master key_record.encrypted_key)
    modify (λ w. record w { cached = cache.put now (user_id, provider) decrypted w.cached })
    pure decrypted

  abbrev or_load : Option String → Action (KeyState C) String → Action (KeyState C) String
  or_load none load = load
  or_load (some decrypted) load = pure decrypted

  unfoldable pub get_decrypted_key : ℕ → ℕ → String → Action (KeyState C) String
  unfolding load_key
  get_decrypted_key now user_id provider = do
    cached ← gets (λ w. cache.get now (user_id, provider) w.cached)
    or_load cached (load_key now user_id provider)

  unfoldable pub get_user_providers : ℕ → Action (KeyState C) (List String)
  unfolding providers_of
  get_user_providers user_id = gets (λ w. providers_of user_id w.keys)

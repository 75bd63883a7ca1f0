-- ===== src/Core/Encryption.antt =====
-- app/core/security.py, the encryption of API keys. Fernet is a parameter: a text is encrypted under
-- the first key of a list, and decrypting tries all of a list's keys.
use Prim.Native.Char.{Char, code}
use ultimate_assistant_ai_ga.Base.{
  ℕ, String, Bool, true, false, Option, none, some, List, [], ◌∷◌, ◌≡◌, ◌==◌, ◌&&◌, if◌then◌else◌,
}
use ultimate_assistant_ai_ga.Base.Lists.{Holds, every}
use ultimate_assistant_ai_ga.Base.Text.{is_empty}
use ultimate_assistant_ai_ga.Base.Action.{Result, ok, err, other_error, value_error}

-- `Fernet` and `MultiFernet`; `is_key` says whether a text is 32 bytes in url-safe base64, as a key has to be.
-- Encrypting draws a random value, and decrypting nothing stands for InvalidToken.
pub record Fernet : Type 0 where
  pub is_key : String → Bool
  pub encrypt : String → List String → ℕ → String → String
  pub decrypt : List String → String → Option String
  pub decrypt-encrypt :
      (k : String) (ks keys : List String) (n : ℕ) (s : String)
      → is_key k ≡ true
      → every is_key keys ≡ true
      → Holds k keys
      → decrypt keys (encrypt k ks n s) ≡ some s

-- `raw.split(",")`: the pieces between the commas, of which there is always one
abbrev into_first : Char → List String → List String
into_first c [] = String.◌∷◌ c String.[] ∷ []
into_first c (t ∷ ts) = String.◌∷◌ c t ∷ ts

unfoldable pub split_commas : String → List String
split_commas String.[] = "" ∷ []
split_commas (String.◌∷◌ c s) =
    let rest = split_commas s in if code c == b',' then "" ∷ rest else into_first c rest

module _ (is_space : ℕ → Bool) where
  -- `s.strip()`, where `is_space` is what Python takes for white space
  unfoldable pub lstrip : String → String
  lstrip String.[] = ""
  lstrip (String.◌∷◌ c s) =
      let rest = lstrip s in if is_space (code c) then rest else String.◌∷◌ c s

  unfoldable pub rstrip : String → String
  rstrip String.[] = ""
  rstrip (String.◌∷◌ c s) =
      let rest = rstrip s in if is_space (code c) && is_empty rest then "" else String.◌∷◌ c rest

  abbrev pub strip : String → String
  strip s = lstrip (rstrip s)

  abbrev cons_unless : Bool → String → List String → List String
  cons_unless true s l = l
  cons_unless false s l = s ∷ l

  -- `[k.strip() for k in pieces if k.strip()]`
  unfoldable pub stripped : List String → List String
  unfolding lstrip rstrip
  stripped [] = []
  stripped (k ∷ ks) = cons_unless (is_empty (strip k)) (strip k) (stripped ks)

  abbrev known : List String → Result (String × List String)
  known [] = err (other_error "MASTER_ENCRYPTION_KEYS contains no valid keys")
  known (k ∷ ks) = ok (k, ks)

  abbrev master_keys_of : Bool → String → Result (String × List String)
  master_keys_of true raw = err (other_error "MASTER_ENCRYPTION_KEYS is not set")
  master_keys_of false raw = known (stripped (split_commas raw))

  -- `_get_fernet`: the key for encrypting, and the others
  unfoldable pub master_keys : String → Result (String × List String)
  unfolding stripped split_commas
  master_keys raw = master_keys_of (is_empty raw) raw

abbrev decrypted : Option String → Result String
decrypted none = err (other_error "InvalidToken")
decrypted (some s) = ok s

module _ (f : Fernet) where
  -- the end of `_get_fernet`, which makes a Fernet of each key
  unfoldable pub fernets : Result (String × List String) → Result (String × List String)
  fernets (err e) = err e
  fernets (ok (k, ks)) =
      if every f.is_key (k ∷ ks)
      then ok (k, ks)
      else err (value_error "Fernet key must be 32 url-safe base64-encoded bytes.")

  abbrev encrypt_with : Result (String × List String) → ℕ → String → Result String
  encrypt_with (ok (k, ks)) n plaintext = ok (f.encrypt k ks n plaintext)
  encrypt_with (err e) n plaintext = err e

  -- `encrypt_api_key`, under the keys of the settings
  unfoldable pub encrypt_api_key : Result (String × List String) → ℕ → String → Result String
  unfolding fernets
  encrypt_api_key master = encrypt_with (fernets master)

  abbrev decrypt_with : Result (String × List String) → String → Result String
  decrypt_with (ok (k, ks)) ciphertext = decrypted (f.decrypt (k ∷ ks) ciphertext)
  decrypt_with (err e) ciphertext = err e

  unfoldable pub decrypt_api_key : Result (String × List String) → String → Result String
  unfolding fernets
  decrypt_api_key master = decrypt_with (fernets master)

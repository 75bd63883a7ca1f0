-- ===== src/Core/Security.antt =====
-- app/core/security.py, with the libraries it calls as parameters: JWT (jose), password hashing
-- (passlib), UUIDs and Unicode's decimal digits. `now` is the clock at the call, in microseconds;
-- the expiry of a token is in seconds. Encryption of API keys belongs to the key service.
pub mod Strength
pub mod Lockout
use Prim.Native.Char.{code}
use Prim.Native.String.{count}
use ultimate_assistant_ai_ga.Base.{
  ℕ, ◌+◌, ◌-◌, ◌*◌, ◌/◌, ◌≤◌, ◌<◌, ◌≡◌, max, String, Bool, true, false, Option, none, some, List,
  [], ◌∷◌, ◌++◌, ltb, leb, if◌then◌else◌, ◌==◌, ◌||◌, ◌&&◌,
}
use ultimate_assistant_ai_ga.Base.Text.{concat, show, truthy}
use ultimate_assistant_ai_ga.Base.Action.{Action, Result, ok, err, value_error}
use ultimate_assistant_ai_ga.Redis.{
  Redis, RedisLaws, text, number, Value, count_of, exists?, revoked, failed_login,
}

-- app/core/config.py
abbrev pub jwt_access_token_expire_minutes : ℕ
jwt_access_token_expire_minutes = 30

abbrev pub jwt_refresh_token_expire_days : ℕ
jwt_refresh_token_expire_days = 7

abbrev pub password_min_length : ℕ
password_min_length = 8

abbrev pub max_failed_login_attempts : ℕ
max_failed_login_attempts = 5

abbrev pub second : ℕ
second = 1000000

-- ACCOUNT_LOCKOUT_SECONDS
abbrev pub account_lockout : ℕ
account_lockout = 900 * second

-- A decoded payload, whose entries may be missing.
pub record Payload : Type 0 where
  pub sub : Option String
  pub exp : Option ℕ
  pub kind : Option String
  pub jti : Option String

-- `jwt.encode` and `jwt.decode` with the settings' key; `decode` returns nothing where it raises
-- JWTError.
pub record Jwt : Type 0 where
  pub encode : Payload → String
  pub decode : ℕ → String → Option Payload

-- A token carries one payload; a token that was encoded decodes until it expires; and a token is
-- not accepted once the second of its expiry is over.
pub record JwtLaws (j : Jwt) : Type 0 where
  pub decode_same :
      {n m : ℕ} {t : String} {p q : Payload} → j.decode n t ≡ some p → j.decode m t ≡ some q → p ≡ q
  pub decode-encode :
      (n e : ℕ) (p : Payload) → p.exp ≡ some e → n < e * second → j.decode n (j.encode p) ≡ some p
  pub decode_expired :
      {n e : ℕ} {t : String} {p : Payload}
      → j.decode n t ≡ some p
      → p.exp ≡ some e
      → n < (e + 1) * second

-- `uuid.uuid4()` draws a new UUID each time: the n-th is kept as `n`.
pub record Uuid : Type 0 where
  pub print : ℕ → String
  pub parse : String → Option ℕ
  pub parse-print : (n : ℕ) → parse (print n) ≡ some n

-- `pwd_context`; the salt is drawn anew for each hash.
pub record Passwords : Type 0 where
  pub hash : ℕ → String → String
  pub verify : String → String → Bool
  pub verify-hash : (salt : ℕ) (p : String) → verify p (hash salt p) ≡ true

-- `re.search("[...]", s)`: some character's code passes the test
unfoldable pub search : (ℕ → Bool) → String → Bool
search p String.[] = false
search p (String.◌∷◌ c s) = p (code c) || search p s

abbrev between : ℕ → ℕ → ℕ → Bool
between a b c = leb a c && leb c b

abbrev pub is_upper : ℕ → Bool
is_upper = between b'A' b'Z'

abbrev pub is_lower : ℕ → Bool
is_lower = between b'a' b'z'

abbrev any_code : List ℕ → ℕ → Bool
any_code [] c = false
any_code (d ∷ ds) c = c == d || any_code ds c

abbrev pub is_special : ℕ → Bool
is_special = any_code (
    b'!' ∷ b'@' ∷ b'#' ∷ b'$' ∷ b'%' ∷ b'^' ∷ b'&' ∷ b'*' ∷ b'(' ∷ b')' ∷ b',' ∷ b'.' ∷ b'?' ∷ b'"'
    ∷ b':' ∷ b'{' ∷ b'}' ∷ b'|' ∷ b'<' ∷ b'>' ∷ [])

-- `if not ...: issues.append(...)`
abbrev require : Bool → String → List String → List String
require true issue issues = issues
require false issue issues = issue ∷ issues

-- `is_decimal` is what `\d` matches.
unfoldable pub validate_password_strength : (ℕ → Bool) → String → List String
unfolding search
validate_password_strength is_decimal password =
    require (leb password_min_length (count password))
      (concat ("Password must be at least " ∷ show password_min_length ∷ " characters" ∷ []))
      (require (search is_upper password) "Password must contain at least one uppercase letter" (
        require (search is_lower password) "Password must contain at least one lowercase letter" (
          require (search is_decimal password) "Password must contain at least one digit" (
            require (search is_special password)
              "Password must contain at least one special character" []))))

-- the payload of `create_access_token`, which no caller gives an `extra`
unfoldable pub access_payload : ℕ → String → String → Payload
access_payload now subject jti = record {
  sub = some subject;
  exp = some ((now + jwt_access_token_expire_minutes * 60 * second) / second);
  kind = some "access";
  jti = some jti;
}

unfoldable pub refresh_payload : ℕ → String → String → Payload
refresh_payload now subject jti = record {
  sub = some subject;
  exp = some ((now + jwt_refresh_token_expire_days * 86400 * second) / second);
  kind = some "refresh";
  jti = some jti;
}

abbrev decoded : Option Payload → Result Payload
decoded none = err (value_error "Invalid token")
decoded (some p) = ok p

-- `decode_token`; the text of the JWTError is left out.
unfoldable pub decode_token : Jwt → ℕ → String → Result Payload
decode_token j now token = decoded (j.decode now token)

-- `max(int(payload["exp"] - time.time()), 1)`, in seconds
unfoldable pub remaining_ttl : ℕ → ℕ → ℕ
remaining_ttl exp now = max ((exp * second - now) / second) 1

module _ {Store : Type 0} (r : Redis Store) where
  unfoldable pub revoke_token : ℕ → String → ℕ → Store → Store
  revoke_token now jti ttl_seconds = r.setex now (revoked jti) (ttl_seconds * second) (text "1")

  unfoldable pub is_token_revoked : ℕ → String → Store → Bool
  is_token_revoked now jti s = exists? (r.get now (revoked jti) s)

  unfoldable pub record_failed_login : ℕ → String → Store → ℕ × Store
  record_failed_login now email s =
      let (count, s') = r.incr now (failed_login email) s in
      (count, r.expire now (failed_login email) account_lockout s')

  unfoldable pub is_account_locked : ℕ → String → Store → Bool
  is_account_locked now email s =
      leb max_failed_login_attempts (count_of (r.get now (failed_login email) s))

  unfoldable pub clear_failed_logins : String → Store → Store
  clear_failed_logins email = r.delete (failed_login email)

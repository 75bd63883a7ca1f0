-- ===== src/Api/Auth.antt =====
-- app/api/v1/routes/auth.py. A handler reads the clock once, as `now`.
pub mod Revocation
pub mod BruteForce
pub mod Register
use ultimate_assistant_ai_ga.Base.{
  ℕ, ◌+◌, String, Bool, true, false, Option, none, some, List, [], ◌∷◌, not, is_nil, same,
  if◌then◌else◌,
}
use ultimate_assistant_ai_ga.Base.Text.{concat, join, truthy}
use ultimate_assistant_ai_ga.Base.Action.{
  Exc, Action, Result, ok, err, pure, raise, raise_if, or_raise, gets, modify, catch, ◌>>=◌, ◌>>◌,
  value_error, key_error, http_exception,
}
use ultimate_assistant_ai_ga.Core.Security.{
  Payload, access_payload, refresh_payload, decode_token, remaining_ttl, revoke_token,
  record_failed_login, is_account_locked, clear_failed_logins, validate_password_strength,
}
use ultimate_assistant_ai_ga.Api.World.{World, Env, User, draw, get_by_email, create}
use ultimate_assistant_ai_ga.Api.Deps.{returned, unauthorized, checked_payload, get_current_user_id}

pub record TokenResponse : Type 0 where
  pub access_token : String
  pub refresh_token : String

module _ {Store : Type 0} (env : Env Store) where
  unfoldable pub create_access_token : ℕ → String → Action (World Store) String
  create_access_token now subject w = (
    ok (env.jwt.encode (access_payload now subject (env.uuid.print w.drawn))),
    record w { drawn = w.drawn + 1 },
  )

  unfoldable pub create_refresh_token : ℕ → String → Action (World Store) String
  create_refresh_token now subject w = (
    ok (env.jwt.encode (refresh_payload now subject (env.uuid.print w.drawn))),
    record w { drawn = w.drawn + 1 },
  )

  -- the `TokenResponse` with which three handlers end
  unfoldable pub tokens_for : ℕ → String → Action (World Store) TokenResponse
  unfolding create_access_token create_refresh_token
  tokens_for now user_id = do
    access ← create_access_token now user_id
    fresh ← create_refresh_token now user_id
    pure (record { access_token = access; refresh_token = fresh })

  -- the salt is a draw; the detail's list of issues is kept joined
  unfoldable pub register : ℕ → String → String → Action (World Store) TokenResponse
  unfolding tokens_for create
  register now email password = do
    let issues = validate_password_strength env.is_decimal password
    raise_if (not (is_nil issues)) (http_exception 422 (join "; " issues))
    existing ← gets (get_by_email email)
    raise_if (found existing) (http_exception 409 "Email already registered")
    salt ← draw
    user ← create email (env.passwords.hash salt password)
    tokens_for now (env.uuid.print user.id)
    where
      found : Option User → Bool
      found none = false
      found (some u) = true

  abbrev pub locked_message : String
  locked_message =
      "Account temporarily locked due to too many failed login attempts. Try again later."

  -- `not user or not verify_password(...)`, with the failure recorded if there is a user
  abbrev pub authenticated : ℕ → String → String → Option User → Action (World Store) User
  authenticated now email password none = raise (http_exception 401 "Invalid credentials")
  authenticated now email password (some user) =
      if env.passwords.verify password user.hashed_password
      then pure user
      else (modify (λ w. record w { redis = (record_failed_login env.server now email w.redis).1 })
          >> raise (http_exception 401 "Invalid credentials"))

  unfoldable pub login : ℕ → String → String → Action (World Store) TokenResponse
  unfolding tokens_for
  login now email password = do
    locked ← gets (λ w. is_account_locked env.server now email w.redis)
    raise_if locked (http_exception 429 locked_message)
    found ← gets (get_by_email email)
    user ← authenticated now email password found
    raise_if (not user.is_active) (http_exception 403 "Account disabled")
    modify (λ w. record w { redis = clear_failed_logins env.server email w.redis })
    tokens_for now (env.uuid.print user.id)

  abbrev revoke_until : ℕ → String → Option ℕ → Action (World Store) (Unit {0})
  revoke_until now jti none = raise (key_error "exp")
  revoke_until now jti (some exp) =
      modify
        (λ w. record w { redis = revoke_token env.server now jti (remaining_ttl exp now) w.redis })

  -- `if jti: ... await revoke_token(...)`
  abbrev pub revoke_payload : ℕ → Option String → Option ℕ → Action (World Store) (Unit {0})
  revoke_payload now none exp = pure tt
  revoke_payload now (some jti) exp =
      if truthy (some jti) then revoke_until now jti exp else pure tt

  unfoldable pub refresh : ℕ → String → Action (World Store) TokenResponse
  unfolding tokens_for
  refresh now token = do
    (payload, user_id) ←
        catch
          (do
            payload ← checked_payload env now "refresh" "Not a refresh token" token
            sub ← or_raise (key_error "sub") payload.sub
            pure (payload, sub))
          (unauthorized "Invalid refresh token")
    revoke_payload now payload.jti payload.exp
    tokens_for now user_id

  -- `except ValueError: pass`
  abbrev pass_value_error : Exc → Action (World Store) (Unit {0})
  pass_value_error (value_error text) = pure tt
  pass_value_error e = raise e

  -- `auth_header.removeprefix("Bearer ")`, of the header with this scheme and this token
  abbrev header_token : String → String → String
  header_token scheme token =
      if same scheme "Bearer" then token else concat (scheme ∷ " " ∷ token ∷ [])

  -- The security scheme takes `Bearer` in any case; the token has no blanks around it.
  unfoldable pub logout : ℕ → String → String → Action (World Store) (Unit {0})
  logout now scheme token = do
    user_id ← get_current_user_id env now token
    catch
        (do
          payload ← returned (decode_token env.jwt now (header_token scheme token))
          revoke_payload now payload.jti payload.exp)
        pass_value_error

-- ===== src/Api/Deps.antt =====
-- app/api/v1/deps.py: `get_current_user_id`. The other dependencies only construct services.
pub mod Checks
use ultimate_assistant_ai_ga.Base.{
  ℕ, String, Bool, true, false, Option, none, some, not, same, if◌then◌else◌,
}
use ultimate_assistant_ai_ga.Base.Text.{truthy}
use ultimate_assistant_ai_ga.Base.Action.{
  Exc, Action, Result, ok, err, pure, raise, raise_if, or_raise, gets, catch, ◌>>=◌, ◌>>◌,
  value_error, key_error, http_exception,
}
use ultimate_assistant_ai_ga.Redis.{Redis}
use ultimate_assistant_ai_ga.Core.Security.{Payload, decode_token, is_token_revoked}
use ultimate_assistant_ai_ga.Api.World.{World, Env}

-- `payload.get("type") != name`
abbrev pub is_kind : String → Option String → Bool
is_kind name none = false
is_kind name (some k) = same k name

-- `jti and await is_token_revoked(jti, redis)`
abbrev pub is_revoked : {Store : Type 0} → Redis Store → ℕ → Option String → Store → Bool
is_revoked r now none s = false
is_revoked r now (some jti) s = if truthy (some jti) then is_token_revoked r now jti s else false

abbrev pub returned : {W A : Type 0} → Result A → Action W A
returned x w = (x, w)

-- `except (ValueError, KeyError): raise HTTPException(401, detail)`
abbrev pub unauthorized : {W A : Type 0} → String → Exc → Action W A
unauthorized detail (value_error text) = raise (http_exception 401 detail)
unauthorized detail (key_error text) = raise (http_exception 401 detail)
unauthorized detail e = raise e

module _ {Store : Type 0} (env : Env Store) where
  -- the part that `get_current_user_id` and `refresh` share: decode, and check type and revocation
  unfoldable pub checked_payload : ℕ → String → String → String → Action (World Store) Payload
  checked_payload now name complaint token = do
    payload ← returned (decode_token env.jwt now token)
    raise_if (not (is_kind name payload.kind)) (value_error complaint)
    revoked ← gets (λ w. is_revoked env.server now payload.jti w.redis)
    raise_if revoked (value_error "Token has been revoked")
    pure payload

  unfoldable pub get_current_user_id : ℕ → String → Action (World Store) ℕ
  unfolding checked_payload
  get_current_user_id now token =
      catch
        (do
          payload ← checked_payload now "access" "Not an access token" token
          sub ← or_raise (key_error "sub") payload.sub
          or_raise (value_error "badly formed hexadecimal UUID string") (env.uuid.parse sub))
        (unauthorized "Invalid or expired token")

-- ===== src/Api/Deps/Checks.antt =====
-- What a token's payload and the revocation list decide.
use ultimate_assistant_ai_ga.Base.{
  ℕ, ◌+◌, ◌*◌, ◌/◌, ◌<◌, ◌≡◌, refl, String, true, false, none, some, arith, str_dec, inl, inr,
  Option-cases,
}
use ultimate_assistant_ai_ga.Base.Action.{ok, err, value_error, http_exception}
use ultimate_assistant_ai_ga.Core.Security.{
  Payload, Jwt, JwtLaws, second, decode_token, access_payload, refresh_payload,
  jwt_access_token_expire_minutes,
}
use ultimate_assistant_ai_ga.Api.World.{World, Env, EnvLaws}
use ultimate_assistant_ai_ga.Api.Deps.{is_kind, is_revoked, checked_payload, get_current_user_id}

module _ {Store : Type 0} (env : Env Store) (now : ℕ) (name complaint token : String)
    (w : World Store) where
  pub checked_payload-undecoded :
      env.jwt.decode now token ≡ none
      → checked_payload env now name complaint token w ≡ (err (value_error "Invalid token"), w)
  unfolding checked_payload decode_token
  checked_payload-undecoded e = rw e

  pub checked_payload-other_kind :
      (p : Payload)
      → env.jwt.decode now token ≡ some p
      → is_kind name p.kind ≡ false
      → checked_payload env now name complaint token w ≡ (err (value_error complaint), w)
  unfolding checked_payload decode_token
  checked_payload-other_kind p e k = rw (e, k)

  module _ (p : Payload) (e : env.jwt.decode now token ≡ some p)
      (k : is_kind name p.kind ≡ true) where
    pub checked_payload-live :
        is_revoked env.server now p.jti w.redis ≡ false
        → checked_payload env now name complaint token w ≡ (ok p, w)
    unfolding checked_payload decode_token
    checked_payload-live r = rw (e, k, r)

    pub checked_payload-revoked :
        is_revoked env.server now p.jti w.redis ≡ true
        → checked_payload env now name complaint token w
          ≡ (err (value_error "Token has been revoked"), w)
    unfolding checked_payload decode_token
    checked_payload-revoked r = rw (e, k, r)

kind_access : is_kind "access" (some "access") ≡ true
unfolding str_dec
kind_access = refl

kind_refresh : is_kind "access" (some "refresh") ≡ false
unfolding str_dec
kind_refresh = refl

-- A token that was encoded with an expiry carries the payload it was made of.
pub decode-encode_same :
    (j : Jwt) (laws : JwtLaws j) (n e : ℕ) (p : Payload) {q : Payload}
    → p.exp ≡ some e
    → 0 < e
    → j.decode n (j.encode p) ≡ some q
    → q ≡ p
decode-encode_same j laws n e p x pos d =
    laws.decode_same d (laws.decode-encode 0 e p x (omega arith))

module _ {Store : Type 0} (env : Env Store) (laws : EnvLaws env) where
  -- The access token that is issued at `now` for a user is accepted as that user's until it expires, 30
  -- minutes later to the second, unless it is revoked.
  pub get_current_user_id-access_payload :
      (now n user_id : ℕ) (jti : String) (w : World Store)
      → n < (now + jwt_access_token_expire_minutes * 60 * second) / second * second
      → is_revoked env.server n (some jti) w.redis ≡ false
      → get_current_user_id env n
          (env.jwt.encode (access_payload now (env.uuid.print user_id) jti))
          w
        ≡ (ok user_id, w)
  unfolding get_current_user_id access_payload
  get_current_user_id-access_payload now n user_id jti w h r =
      let p : Payload = access_payload now (env.uuid.print user_id) jti in
      let d : env.jwt.decode n (env.jwt.encode p) ≡ some p =
        laws.jwt.decode-encode n ((now + jwt_access_token_expire_minutes * 60 * second) / second) p
          refl h in
      rw (
        checked_payload-live env n "access" "Not an access token" (env.jwt.encode p) w p d
            kind_access r,
        env.uuid.parse-print user_id,
      )

  -- A refresh token never passes for an access token.
  pub get_current_user_id-refresh_payload :
      (now n : ℕ) (subject jti : String) (w : World Store)
      → get_current_user_id env n (env.jwt.encode (refresh_payload now subject jti)) w
        ≡ (err (http_exception 401 "Invalid or expired token"), w)
  unfolding get_current_user_id refresh_payload
  get_current_user_id-refresh_payload now n subject jti w =
      let p : Payload = refresh_payload now subject jti in
      let t : String = env.jwt.encode p in
      elim (Option-cases (env.jwt.decode n t)) [
        | inl e ↦ rw (checked_payload-undecoded env n "access" "Not an access token" t w e)
        | inr (q, e) ↦
            let same_payload : q ≡ p =
              decode-encode_same env.jwt laws.jwt n ((now + 7 * 86400 * second) / second) p refl
                (omega arith) e in
            let other : is_kind "access" q.kind ≡ false = rw (same_payload) kind_refresh in
            rw (checked_payload-other_kind env n "access" "Not an access token" t w q e other)
      ]

-- ===== src/Api/Auth/Revocation.antt =====
-- Tokens that were used up: a refresh token after `refresh`, an access token after `logout`.
use ultimate_assistant_ai_ga.Base.{
  ℕ, ◌+◌, ◌*◌, ◌<◌, ◌≤◌, ◌≡◌, refl, ap, ◌∙◌, String, true, false, none, some, same, arith, str_dec,
  inl, inr, ◌⊎◌, Option-cases, [], ◌∷◌,
}
use ultimate_assistant_ai_ga.Base.Text.{truthy, concat}
use ultimate_assistant_ai_ga.Base.Action.{ok, err, value_error, http_exception}
use ultimate_assistant_ai_ga.Redis.{Value, text, revoked, exists?, RedisLaws, Redis}
use ultimate_assistant_ai_ga.Core.Security.{
  Payload, second, decode_token, remaining_ttl, revoke_token, is_token_revoked,
}
use ultimate_assistant_ai_ga.Api.World.{World, Env, EnvLaws}
use ultimate_assistant_ai_ga.Api.Deps.{is_kind, is_revoked, checked_payload, get_current_user_id}
use ultimate_assistant_ai_ga.Api.Deps.Checks.{
  checked_payload-undecoded, checked_payload-live, checked_payload-revoked,
}
use ultimate_assistant_ai_ga.Api.Auth.{TokenResponse, tokens_for, refresh, logout}

revoked_answer :
    {Store : Type 0} (r : Redis Store) (n : ℕ) (jti : String) (s : Store)
    → truthy (some jti) ≡ true
    → is_revoked r n (some jti) s ≡ exists? (r.get n (revoked jti) s)
unfolding is_token_revoked
revoked_answer r n jti s t = rw t

revoke_reads :
    {Store : Type 0} (r : Redis Store) (laws : RedisLaws r) (now n ttl : ℕ) (jti : String)
    (s : Store)
    → n < now + ttl * second
    → r.get n (revoked jti) (revoke_token r now jti ttl s) ≡ some (text "1")
unfolding revoke_token
revoke_reads r laws now n ttl jti s h =
    ground (arith, laws.get-setex n now (ttl * second) (revoked jti) (revoked jti) (text "1") s)

revoke_over :
    {Store : Type 0} (r : Redis Store) (laws : RedisLaws r) (now n ttl : ℕ) (jti : String)
    (s : Store)
    → now + ttl * second ≤ n
    → r.get n (revoked jti) (revoke_token r now jti ttl s) ≡ none
unfolding revoke_token
revoke_over r laws now n ttl jti s h =
    ground (arith, laws.get-setex n now (ttl * second) (revoked jti) (revoked jti) (text "1") s)

module _ {Store : Type 0} (env : Env Store) (laws : EnvLaws env) where
  -- A token of the given kind with all its entries.
  pub record IsToken (name token sub jti : String) (p : Payload) (exp : ℕ) : Type 0 where
    pub kind : is_kind name p.kind ≡ true
    pub subject : p.sub ≡ some sub
    pub id : p.jti ≡ some jti
    pub id_given : truthy (some jti) ≡ true
    pub expiry : p.exp ≡ some exp

  module _ (name token sub jti : String) (p : Payload) (exp : ℕ)
      (it : IsToken name token sub jti p exp) where
    -- what the handlers find of a token, by what Redis has under its id
    found_live :
        (now : ℕ) (complaint : String) (w : World Store)
        → env.jwt.decode now token ≡ some p
        → env.server.get now (revoked jti) w.redis ≡ none
        → checked_payload env now name complaint token w ≡ (ok p, w)
    found_live now complaint w d free =
        checked_payload-live env now name complaint token w p d it.kind
          (rw (it.id, revoked_answer env.server now jti w.redis it.id_given, free))

    found_revoked :
        (now : ℕ) (complaint : String) (w : World Store) (v : Value)
        → env.jwt.decode now token ≡ some p
        → env.server.get now (revoked jti) w.redis ≡ some v
        → checked_payload env now name complaint token w
          ≡ (err (value_error "Token has been revoked"), w)
    found_revoked now complaint w v d there =
        checked_payload-revoked env now name complaint token w p d it.kind
          (rw (it.id, revoked_answer env.server now jti w.redis it.id_given, there))

    -- the token does not decode any more, or its id is still on the list
    found_dead :
        (n : ℕ) (complaint : String) (w : World Store) {v : Value} (now : ℕ)
        → env.jwt.decode now token ≡ some p
        → (env.server.get n (revoked jti) w.redis ≡ some v) ⊎ ((exp + 1) * second ≤ n)
        → (t : String) × (checked_payload env n name complaint token w ≡ (err (value_error t), w))
    found_dead n complaint w now d why = elim (Option-cases (env.jwt.decode n token)) [
      | inl e ↦ ("Invalid token", checked_payload-undecoded env n name complaint token w e)
      | inr (q, e) ↦
          let q_is_p : q ≡ p = laws.jwt.decode_same e d in
          let e' : env.jwt.decode n token ≡ some p = e ∙ ap some q_is_p in
          elim why [
            | inl there ↦ ("Token has been revoked", found_revoked n complaint w _ e' there)
            | inr over ↦
                let early : n < (exp + 1) * second = laws.jwt.decode_expired e' it.expiry in
                let absurd : ⊥ = omega arith in elim absurd [ ]
          ]
    ]

  tokens_for_succeeds :
      (now : ℕ) (sub : String) (w : World Store)
      → (t : TokenResponse) × ((tokens_for env now sub w).0 ≡ ok t)
        × ((tokens_for env now sub w).1.redis ≡ w.redis)
  unfolding tokens_for
  tokens_for_succeeds now sub w = (_, refl, refl)

  module _ (token sub jti : String) (p : Payload) (exp now : ℕ) (w : World Store)
      (d : env.jwt.decode now token ≡ some p)
      (free : env.server.get now (revoked jti) w.redis ≡ none) where
    abbrev ttl : ℕ
    ttl = remaining_ttl exp now

    -- `refresh` answers with new tokens and puts the id on the list.
    refreshed :
        IsToken "refresh" token sub jti p exp
        → (t : TokenResponse) × ((refresh env now token w).0 ≡ ok t)
          × ((refresh env now token w).1.redis ≡ revoke_token env.server now jti ttl w.redis)
    unfolding refresh
    refreshed it =
        rw
          (
            found_live "refresh" token sub jti p exp it now "Not a refresh token" w d free,
            it.subject,
            it.id,
            it.id_given,
            it.expiry,
          )
          (tokens_for_succeeds now sub
            (record w { redis = revoke_token env.server now jti ttl w.redis }))

    -- A refresh token that is not revoked is good for one use: `refresh` answers with new tokens,
    -- and from then on the same token is refused, until the remaining lifetime that was rounded
    -- down to whole seconds is over, and again once the token has expired; `w'` is any later
    -- world in which the entry that `refresh` made has not been touched.
    pub refresh_once :
        (n : ℕ) (w' : World Store)
        → IsToken "refresh" token sub jti p exp
        → (n < now + ttl * second) ⊎ ((exp + 1) * second ≤ n)
        → env.server.get n (revoked jti) w'.redis
          ≡ env.server.get n (revoked jti) (refresh env now token w).1.redis
        → ((t : TokenResponse) × ((refresh env now token w).0 ≡ ok t))
          × (refresh env n token w' ≡ (err (http_exception 401 "Invalid refresh token"), w'))
    unfolding refresh
    refresh_once n w' it why kept =
        let (t, done, listed) = refreshed it in
        let there = kept ∙ ap (env.server.get n (revoked jti)) listed in
        let (complaint, dead) =
          found_dead "refresh" token sub jti p exp it n "Not a refresh token" w' now d (elim why [
            | inl h ↦ inl (there ∙ revoke_reads env.server laws.server now n ttl jti w.redis h)
            | inr h ↦ inr h
          ]) in
        ((t, done), rw dead)

    -- From the end of that rounded lifetime on, a used refresh token that still decodes is taken
    -- again; `w'` is any later world in which the entry that the first `refresh` made has not
    -- been touched.
    pub refresh_reused :
        (n : ℕ) (w' : World Store)
        → IsToken "refresh" token sub jti p exp
        → now + ttl * second ≤ n
        → env.jwt.decode n token ≡ some p
        → env.server.get n (revoked jti) w'.redis
          ≡ env.server.get n (revoked jti) (refresh env now token w).1.redis
        → (t : TokenResponse) × ((refresh env n token w').0 ≡ ok t)
    unfolding refresh
    refresh_reused n w' it h d' kept =
        let (t, done, listed) = refreshed it in
        let gone : env.server.get n (revoked jti) w'.redis ≡ none =
          kept
          ∙ ap (env.server.get n (revoked jti)) listed
          ∙ revoke_over env.server laws.server now n ttl jti w.redis h in
        rw
          (
            found_live "refresh" token sub jti p exp it n "Not a refresh token" w' d' gone,
            it.subject,
            it.id,
            it.id_given,
            it.expiry,
          )
          (let (u, done', _) = tokens_for_succeeds n sub (record w' {
            redis = revoke_token env.server n jti (remaining_ttl exp n) w'.redis;
          }) in
            (u, done'))

    logged_out :
        (user_id : ℕ)
        → IsToken "access" token sub jti p exp
        → env.uuid.parse sub ≡ some user_id
        → logout env now "Bearer" token w
          ≡ (ok tt, record w { redis = revoke_token env.server now jti ttl w.redis })
    unfolding logout get_current_user_id decode_token str_dec
    logged_out user_id it u = rw (
      found_live "access" token sub jti p exp it now "Not an access token" w d free,
      it.subject,
      u,
      d,
      it.id,
      it.id_given,
      it.expiry,
    )

    -- `logout` with the header's usual scheme ends the token: it is refused until its remaining
    -- lifetime, rounded down to whole seconds, is over, and again once it has expired; `w'` is any
    -- later world in which the entry that `logout` made has not been touched.
    pub logout_revokes :
        (user_id n : ℕ) (w' : World Store)
        → IsToken "access" token sub jti p exp
        → env.uuid.parse sub ≡ some user_id
        → (n < now + ttl * second) ⊎ ((exp + 1) * second ≤ n)
        → env.server.get n (revoked jti) w'.redis
          ≡ env.server.get n (revoked jti) (logout env now "Bearer" token w).1.redis
        → ((logout env now "Bearer" token w).0 ≡ ok tt)
          × (get_current_user_id env n token w'
              ≡ (err (http_exception 401 "Invalid or expired token"), w'))
    unfolding get_current_user_id
    logout_revokes user_id n w' it u why kept =
        let done = logged_out user_id it u in
        let there = kept ∙ ap (λ x. env.server.get n (revoked jti) x.1.redis) done in
        let (complaint, dead) =
          found_dead "access" token sub jti p exp it n "Not an access token" w' now d (elim why [
            | inl h ↦ inl (there ∙ revoke_reads env.server laws.server now n ttl jti w.redis h)
            | inr h ↦ inr h
          ]) in
        (ap (λ x. x.0) done, rw dead)

    -- With any other spelling of the scheme `logout` succeeds as well, and leaves the world as it
    -- was, the token unrevoked, where the header as a whole does not decode as a token.
    pub logout_other_scheme :
        (user_id : ℕ) (scheme : String)
        → IsToken "access" token sub jti p exp
        → env.uuid.parse sub ≡ some user_id
        → same scheme "Bearer" ≡ false
        → env.jwt.decode now (concat (scheme ∷ " " ∷ token ∷ [])) ≡ none
        → logout env now scheme token w ≡ (ok tt, w)
    unfolding logout get_current_user_id decode_token
    logout_other_scheme user_id scheme it u other bad = rw (
      found_live "access" token sub jti p exp it now "Not an access token" w d free,
      it.subject,
      u,
      other,
      bad,
    )

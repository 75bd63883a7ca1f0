-- ===== src/Api/Auth/BruteForce.antt =====
-- Guessing a password through `login`.
use ultimate_assistant_ai_ga.Base.{
  ℕ, suc, ◌+◌, ◌<◌, ◌≤◌, ◌≡◌, refl, ◌∙◌, String, true, false, some, List, [], ◌∷◌, arith, ltb, leb,
  if◌then◌else◌, length,
}
use ultimate_assistant_ai_ga.Base.Action.{ok, err, http_exception}
use ultimate_assistant_ai_ga.Core.Security.{
  account_lockout, max_failed_login_attempts, record_failed_login, is_account_locked,
}
use ultimate_assistant_ai_ga.Core.Security.Lockout.{failures, failures-record_failed_login}
use ultimate_assistant_ai_ga.Api.World.{World, Env, EnvLaws, User, get_by_email}
use ultimate_assistant_ai_ga.Api.Auth.{TokenResponse, login, locked_message, tokens_for}

module _ {Store : Type 0} (env : Env Store) (laws : EnvLaws env) (email : String) where
  -- One login after the other, at the given times and with the given passwords.
  unfoldable pub tries : List (ℕ × String) → World Store → World Store
  tries [] w = w
  tries ((t, password) ∷ ts) w = tries ts (login env t email password w).1

  -- Each attempt comes before the lockout that the one before it has started is over.
  unfoldable pub Spaced : ℕ → List (ℕ × String) → Type 0
  Spaced t [] = Unit
  Spaced t ((t', password) ∷ ts) = (t ≤ t') × (t' < t + account_lockout) × Spaced t' ts

  unfoldable pub last_time : ℕ → List (ℕ × String) → ℕ
  last_time t [] = t
  last_time t ((t', password) ∷ ts) = last_time t' ts

  module _ (user : User) where
    unfoldable pub Wrong : List (ℕ × String) → Type 0
    Wrong [] = Unit
    Wrong ((t, password) ∷ ts) =
        (env.passwords.verify password user.hashed_password ≡ false) × Wrong ts

    -- The counter stands at `k` since `t`.
    Counts : ℕ → ℕ → World Store → Type 0
    Counts k t w =
        (get_by_email email w ≡ some user)
        × ((n : ℕ)
            → t ≤ n
            → failures env.server laws.server n email w.redis
              ≡ (if ltb n (t + account_lockout) then k else 0))

    login_wrong :
        (t : ℕ) (password : String) (w : World Store)
        → get_by_email email w ≡ some user
        → failures env.server laws.server t email w.redis < 5
        → env.passwords.verify password user.hashed_password ≡ false
        → login env t email password w ≡ (
          err (http_exception 401 "Invalid credentials"),
          record w { redis = (record_failed_login env.server t email w.redis).1 },
        )
    unfolding login is_account_locked
    login_wrong t password w f h v =
        let few : leb max_failed_login_attempts (failures env.server laws.server t email w.redis)
            ≡ false =
          ground arith in
        rw (few, f, v)

    counted :
        (k t : ℕ) (password : String) (w : World Store)
        → get_by_email email w ≡ some user
        → failures env.server laws.server t email w.redis ≡ k
        → k < 5
        → env.passwords.verify password user.hashed_password ≡ false
        → Counts (suc k) t (login env t email password w).1
    unfolding Counts get_by_email
    counted k t password w f c h v = rw (login_wrong t password w f (rw c h) v) (
      f,
      λ n later.
          failures-record_failed_login env.server laws.server t n email w.redis later
          ∙ rw c (ground arith),
    )

    counted_next :
        (k t t' : ℕ) (password : String) (w : World Store)
        → Counts k t w
        → k < 5
        → t ≤ t'
        → t' < t + account_lockout
        → env.passwords.verify password user.hashed_password ≡ false
        → Counts (suc k) t' (login env t' email password w).1
    unfolding Counts
    counted_next k t t' password w c h later soon v =
        counted k t' password w c.0 (c.1 t' later ∙ ground arith) h v

    Counts-after :
        (k m t : ℕ) (ts : List (ℕ × String)) (w : World Store)
        → Counts k t w
        → k + length ts ≡ m
        → m ≤ 5
        → Spaced t ts
        → Wrong ts
        → Counts m (last_time t ts) (tries ts w)
    unfolding Spaced Wrong tries last_time
    Counts-after k m t [] w c e h s v = let k_is_m : k ≡ m = omega arith in rw (← k_is_m) c
    Counts-after k m t ((t', password) ∷ ts) w c e h (later, soon, s) (v, vs) =
        Counts-after (suc k) m t' ts (login env t' email password w).1
          (counted_next k t t' password w c (omega arith) later soon v) (omega arith) h s vs

    locked_at :
        (n t : ℕ) (password : String) (w : World Store)
        → Counts 5 t w
        → t ≤ n
        → n < t + account_lockout
        → login env n email password w ≡ (err (http_exception 429 (locked_message env)), w)
    unfolding login is_account_locked Counts
    locked_at n t password w c later soon =
        let full : failures env.server laws.server n email w.redis ≡ 5 =
          c.1 n later ∙ ground arith in
        rw full

    -- For an account with no failures counted: after five wrong passwords, each before the
    -- lockout of the one before is over, every login for the account is refused with 429 until
    -- the lockout time after the fifth has passed, the right password included, and a refused
    -- login changes nothing.
    pub login_locks :
        (t n : ℕ) (first password : String) (ts : List (ℕ × String)) (w : World Store)
        → get_by_email email w ≡ some user
        → failures env.server laws.server t email w.redis ≡ 0
        → length ts ≡ 4
        → Spaced t ts
        → Wrong ((t, first) ∷ ts)
        → last_time t ts ≤ n
        → n < last_time t ts + account_lockout
        → let w' = tries ((t, first) ∷ ts) w in
          login env n email password w' ≡ (err (http_exception 429 (locked_message env)), w')
    unfolding tries Wrong
    login_locks t n first password ts w f c four s (v, vs) later soon =
        locked_at n (last_time t ts) password (tries ts (login env t email first w).1)
          (Counts-after 1 5 t ts (login env t email first w).1
            (counted 0 t first w f c (omega arith) v) (omega arith) (omega arith) s vs)
          later soon

    -- For an active account with no failures counted: once the lockout time after the last of up
    -- to five wrong passwords has passed, each given before the lockout of the one before was
    -- over, the right one gets the user in again.
    pub login_reopens :
        (t n : ℕ) (first password : String) (ts : List (ℕ × String)) (w : World Store)
        → get_by_email email w ≡ some user
        → failures env.server laws.server t email w.redis ≡ 0
        → length ts ≤ 4
        → Spaced t ts
        → Wrong ((t, first) ∷ ts)
        → last_time t ts + account_lockout ≤ n
        → env.passwords.verify password user.hashed_password ≡ true
        → user.is_active ≡ true
        → (answer : TokenResponse) × ((login env n email password (tries ((t, first) ∷ ts) w)).0
            ≡ ok answer)
    unfolding tries Wrong login is_account_locked tokens_for Counts
    login_reopens t n first password ts w f c few s (v, vs) over right active =
        let w' = tries ts (login env t email first w).1 in
        let counts =
          Counts-after 1 (1 + length ts) t ts (login env t email first w).1
            (counted 0 t first w f c (omega arith) v) refl (omega arith) s vs in
        let none_left : failures env.server laws.server n email w'.redis ≡ 0 =
          counts.1 n (omega arith) ∙ ground arith in
        let found : get_by_email email w' ≡ some user = counts.0 in
        rw (none_left, found, right, active) (_, refl)

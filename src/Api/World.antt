-- ===== src/Api/World.antt =====
-- What the handlers of a request share: the Redis server, the table of users (app/models/user.py,
-- app/db/repositories/user_repo.py), and how many random values (UUIDs and salts) were drawn.
use ultimate_assistant_ai_ga.Base.{
  ℕ, ◌+◌, String, Bool, true, Option, none, some, List, [], ◌∷◌, ◌++◌, same, find_first,
}
use ultimate_assistant_ai_ga.Base.Action.{ok, err, Action, other_error}
use ultimate_assistant_ai_ga.Redis.{Redis, RedisLaws}
use ultimate_assistant_ai_ga.Core.Security.{Jwt, JwtLaws, Uuid, Passwords}

pub record User : Type 0 where
  pub id : ℕ
  pub email : String
  pub hashed_password : String
  pub is_active : Bool
  pub role : String
  pub tier : String
  pub monthly_budget_usd : Option ℕ

pub record World (Store : Type 0) : Type 0 where
  pub redis : Store
  pub users : List User
  pub drawn : ℕ

-- The libraries behind the handlers.
pub record Env (Store : Type 0) : Type 0 where
  pub server : Redis Store
  pub jwt : Jwt
  pub uuid : Uuid
  pub passwords : Passwords
  -- what `\d` matches
  pub is_decimal : ℕ → Bool

pub record EnvLaws {Store : Type 0} (env : Env Store) : Type 0 where
  pub server : RedisLaws env.server
  pub jwt : JwtLaws env.jwt

module _ {Store : Type 0} where
  abbrev pub draw : Action (World Store) ℕ
  draw w = (ok w.drawn, record w { drawn = w.drawn + 1 })

  -- `UserRepository.get_by_email`
  unfoldable pub get_by_email : String → World Store → Option User
  get_by_email email w = find_first (λ u. same u.email email) w.users

  abbrev taken : Option User → Action (World Store) User → Action (World Store) User
  taken none k w = k w
  taken (some u) k w = (err (other_error "IntegrityError"), w)

  -- `UserRepository.create`: the columns' defaults, and the unique email
  unfoldable pub create : String → String → Action (World Store) User
  unfolding get_by_email
  create email hashed_password w =
      let user : User = record {
        id = w.drawn;
        email = email;
        hashed_password = hashed_password;
        is_active = true;
        role = "user";
        tier = "free";
        monthly_budget_usd = none;
      } in
      taken (get_by_email email w)
        (λ w. (ok user, record w { users = w.users ++ user ∷ []; drawn = w.drawn + 1 })) w

-- ===== src/Api/Admin.antt =====
-- app/api/v1/routes/admin.py: `require_admin` and the two routes that switch a provider. The global
-- `circuit_breaker` is made without a Redis client, so it is the in-process one. `clock` gives the time at
-- each of its calls in the request.
pub mod Rounds
pub mod Switch
use ultimate_assistant_ai_ga.Base.{
  ℕ, zero, suc, ◌+◌, ◌==◌, String, Bool, true, false, not, Option, none, some, same, find_first,
}
use ultimate_assistant_ai_ga.Base.Action.{
  Result, ok, err, Action, pure, raise_if, gets, modify, ◌>>=◌, ◌>>◌, http_exception,
}
use ultimate_assistant_ai_ga.Providers.CircuitBreaker.{
  CircuitBreaker, local_record_failure, local_record_success,
}
use ultimate_assistant_ai_ga.Api.World.{World, Env, User}
use ultimate_assistant_ai_ga.Api.Deps.{get_current_user_id}

pub record AdminWorld (Store : Type 0) : Type 0 where
  pub api : World Store
  pub breaker : CircuitBreaker

-- `UserRepository.get_by_id`
unfoldable pub get_user : {Store : Type 0} → ℕ → World Store → Option User
get_user user_id w = find_first (λ u. u.id == user_id) w.users

-- `not user or user.role != "admin"`, the other way round
abbrev pub is_admin : Option User → Bool
is_admin none = false
is_admin (some user) = same user.role "admin"

-- The response of the two routes.
pub record Switched : Type 0 where
  pub status : String
  pub provider : String

abbrev with_api :
    {Store A : Type 0} → AdminWorld Store → Result A × World Store → Result A × AdminWorld Store
with_api w (r, api) = (r, record w { api = api })

module _ {Store : Type 0} (env : Env Store) (now : ℕ) (token : String) where
  unfoldable pub require_admin : Action (AdminWorld Store) ℕ
  unfolding get_user
  require_admin = do
    user_id ← λ w. with_api w (get_current_user_id env now token w.api)
    user ← gets (λ w. get_user user_id w.api)
    raise_if (not (is_admin user)) (http_exception 403 "Admin access required")
    pure user_id

  unfoldable pub enable_provider : String → Action (AdminWorld Store) Switched
  unfolding require_admin
  enable_provider provider_name = do
    require_admin
    modify (λ w. record w { breaker = local_record_success provider_name w.breaker })
    pure (record { status = "enabled"; provider = provider_name })

  module _ (clock : ℕ → ℕ) (provider_name : String) where
    -- `for _ in range(...): await circuit_breaker.record_failure(provider_name)`, from the k-th call on
    unfoldable pub record_failures : ℕ → ℕ → CircuitBreaker → CircuitBreaker
    record_failures zero k cb = cb
    record_failures (suc n) k cb =
        record_failures n (suc k) (local_record_failure provider_name (clock k) cb)

    unfoldable pub disable_provider : Action (AdminWorld Store) Switched
    unfolding record_failures require_admin
    disable_provider = do
      require_admin
      modify (λ w. record w { breaker = local_record_failure provider_name (clock 0) w.breaker })
      modify (λ w. record w { breaker = record_failures w.breaker.failure_threshold 1 w.breaker })
      pure (record { status = "disabled"; provider = provider_name })

-- ===== src/Api/Auth/Register.antt =====
-- A registered user, seen by the later handlers.
use ultimate_assistant_ai_ga.Base.{ℕ, ◌+◌, ◌≡◌, String, true, none, []}
use ultimate_assistant_ai_ga.Core.Security.{validate_password_strength}
use ultimate_assistant_ai_ga.Api.World.{World, Env, User, get_by_email}

module _ {Store : Type 0} (env : Env Store) (now : ℕ) (email password : String) (w : World Store)
    (strong : validate_password_strength env.is_decimal password ≡ [])
    (new : get_by_email email w ≡ none) where
  -- the row that `register` adds
  abbrev row : User
  row = record {
    id = w.drawn + 1;
    email = email;
    hashed_password = env.passwords.hash w.drawn password;
    is_active = true;
    role = "user";
    tier = "free";
    monthly_budget_usd = none;
  }

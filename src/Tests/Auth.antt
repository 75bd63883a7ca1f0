-- ===== src/Tests/Auth.antt =====
-- app/core/security.py and app/api/v1/routes/auth.py for one account, with the store and the token format
-- of the examples.
use ultimate_assistant_ai_ga.Base.{
  ℕ, ◌+◌, ◌*◌, ◌≡◌, refl, String, Bool, true, false, none, some, List, [], ◌∷◌, arith, inl, leb,
  ◌&&◌, str_dec, same,
}
use ultimate_assistant_ai_ga.Base.Text.{concat, show}
use ultimate_assistant_ai_ga.Base.Action.{ok, err, http_exception}
use ultimate_assistant_ai_ga.Redis.{Key-discrete}
use ultimate_assistant_ai_ga.Redis.Memory.{Store, empty, memory, memory-RedisLaws}
use ultimate_assistant_ai_ga.Core.Security.{
  Payload, second, access_payload, refresh_payload, remaining_ttl, search,
  validate_password_strength, is_token_revoked, is_account_locked,
}
use ultimate_assistant_ai_ga.Api.World.{User, World, Env, EnvLaws, get_by_email}
use ultimate_assistant_ai_ga.Api.Deps.{get_current_user_id}
use ultimate_assistant_ai_ga.Api.Auth.{TokenResponse, login, locked_message, refresh, logout}
use ultimate_assistant_ai_ga.Api.Auth.Revocation.{
  IsToken, refresh_once, refresh_reused, logout_revokes,
}
use ultimate_assistant_ai_ga.Api.Auth.BruteForce.{tries, Spaced, Wrong, last_time, login_locks}
use ultimate_assistant_ai_ga.Tests.Token.{
  plain, plain-JwtLaws, numbers, parse, spell_payload, plain_passwords,
}

program : Unit {0}
unfolding str_dec search validate_password_strength show is_token_revoked is_account_locked
    remaining_ttl get_by_email Key-discrete access_payload refresh_payload
program = tt

abbrev pub is_digit : ℕ → Bool
is_digit c = leb b'0' c && leb c b'9'

abbrev pub env : Env Store
env = record {
  server = memory;
  jwt = plain;
  uuid = numbers;
  passwords = plain_passwords;
  is_decimal = is_digit;
}

env_laws : EnvLaws env
env_laws = record { server = memory-RedisLaws; jwt = plain-JwtLaws }

abbrev pub user : User
user = record {
  id = 7;
  email = "a@b.c";
  hashed_password = "Secret1!";
  is_active = true;
  role = "user";
  tier = "free";
  monthly_budget_usd = none;
}

abbrev world : World Store
world = record { redis = empty; users = user ∷ []; drawn = 20 }

abbrev nobody : World Store
nobody = record { redis = empty; users = []; drawn = 20 }

weak :
    validate_password_strength is_digit "secret1"
    ≡ "Password must be at least 8 characters"
      ∷ "Password must contain at least one uppercase letter"
      ∷ "Password must contain at least one special character" ∷ []
unfolding program
weak = refl

-- a refresh token issued at the start, good for a week
abbrev p : Payload
p = record {
  sub = some (numbers.print 7);
  exp = some 604800;
  kind = some "refresh";
  jti = some "j";
}

p-IsToken : IsToken env env_laws "refresh" (plain.encode p) (numbers.print 7) "j" p 604800
unfolding program
p-IsToken = record { kind = refl; subject = refl; id = refl; id_given = refl; expiry = refl }

ttl_at_start : remaining_ttl 604800 0 ≡ 604800
unfolding program
ttl_at_start = refl

refresh_once_example :
    let w' = (refresh env 0 (plain.encode p) world).1 in
    ((t : TokenResponse) × ((refresh env 0 (plain.encode p) world).0 ≡ ok t))
    × (refresh env 9 (plain.encode p) w' ≡ (err (http_exception 401 "Invalid refresh token"), w'))
refresh_once_example =
    refresh_once env env_laws (plain.encode p) (numbers.print 7) "j" p 604800 0 world
      (plain-JwtLaws.decode-encode 0 604800 p refl (omega arith)) refl 9
      (refresh env 0 (plain.encode p) world).1 p-IsToken (inl (omega (arith, ttl_at_start))) refl

-- half a second before a full second, the remaining lifetime loses the half
ttl_late : remaining_ttl 604800 (604790 * second + 500000) ≡ 9
unfolding program
ttl_late = refl

refresh_reused_example :
    let w' = (refresh env (604790 * second + 500000) (plain.encode p) world).1 in
    (t : TokenResponse) × ((refresh env (604799 * second + 600000) (plain.encode p) w').0 ≡ ok t)
refresh_reused_example =
    let now = 604790 * second + 500000 in
    let later = 604799 * second + 600000 in
    refresh_reused env env_laws (plain.encode p) (numbers.print 7) "j" p 604800 now world
      (plain-JwtLaws.decode-encode now 604800 p refl (omega arith)) refl later
      (refresh env now (plain.encode p) world).1 p-IsToken (omega (arith, ttl_late))
      (plain-JwtLaws.decode-encode later 604800 p refl (omega arith)) refl

abbrev q : Payload
q = record { sub = some (numbers.print 7); exp = some 1800; kind = some "access"; jti = some "j" }

q-IsToken : IsToken env env_laws "access" (plain.encode q) (numbers.print 7) "j" q 1800
unfolding program
q-IsToken = record { kind = refl; subject = refl; id = refl; id_given = refl; expiry = refl }

q_ttl : remaining_ttl 1800 0 ≡ 1800
unfolding program
q_ttl = refl

logout_revokes_example :
    let w' = (logout env 0 "Bearer" (plain.encode q) world).1 in
    ((logout env 0 "Bearer" (plain.encode q) world).0 ≡ ok tt)
    × (get_current_user_id env 9 (plain.encode q) w'
        ≡ (err (http_exception 401 "Invalid or expired token"), w'))
logout_revokes_example =
    logout_revokes env env_laws (plain.encode q) (numbers.print 7) "j" q 1800 0 world
      (plain-JwtLaws.decode-encode 0 1800 q refl (omega arith)) refl 7 9
      (logout env 0 "Bearer" (plain.encode q) world).1 q-IsToken (numbers.parse-print 7)
      (inl (omega (arith, q_ttl))) refl

lower_case : same "bearer" "Bearer" ≡ false
unfolding program
lower_case = refl

whole_header : plain.decode 0 (concat ("bearer" ∷ " " ∷ plain.encode q ∷ [])) ≡ none
unfolding parse spell_payload
whole_header = refl

abbrev guesses : List (ℕ × String)
guesses = (2, "b") ∷ (3, "c") ∷ (4, "d") ∷ (5, "e") ∷ []

user_found : get_by_email "a@b.c" world ≡ some user
unfolding program
user_found = refl

guesses-Spaced : Spaced env env_laws "a@b.c" 1 guesses
unfolding Spaced
guesses-Spaced = omega arith

guesses-Wrong : Wrong env env_laws "a@b.c" user ((1, "a") ∷ guesses)
unfolding Wrong str_dec
guesses-Wrong = (refl, (refl, (refl, (refl, (refl, tt)))))

login_locks_example :
    let w' = tries env env_laws "a@b.c" ((1, "a") ∷ guesses) world in
    login env 100 "a@b.c" "Secret1!" w' ≡ (err (http_exception 429 (locked_message env)), w')
unfolding last_time
login_locks_example =
    login_locks env env_laws "a@b.c" user 1 100 "a" "Secret1!" guesses world user_found refl refl
      guesses-Spaced guesses-Wrong (omega arith) (omega arith)

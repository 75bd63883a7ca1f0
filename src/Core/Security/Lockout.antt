-- ===== src/Core/Security/Lockout.antt =====
-- The failed-login counter over time.
use ultimate_assistant_ai_ga.Base.{ℕ, ◌+◌, ◌≤◌, ◌≡◌, String, arith, ltb, if◌then◌else◌}
use ultimate_assistant_ai_ga.Redis.{Redis, RedisLaws, count_of, failed_login}
use ultimate_assistant_ai_ga.Core.Security.{
  account_lockout, record_failed_login, clear_failed_logins,
}

module _ {Store : Type 0} (r : Redis Store) (laws : RedisLaws r) where
  abbrev pub failures : ℕ → String → Store → ℕ
  failures n email s = count_of (r.get n (failed_login email) s)

  -- A failed login counts one more for the lockout time, and nothing after it.
  pub failures-record_failed_login :
      (t n : ℕ) (email : String) (s : Store)
      → t ≤ n
      → failures n email (record_failed_login r t email s).1
        ≡ (if ltb n (t + account_lockout) then failures t email s + 1 else 0)
  unfolding record_failed_login
  failures-record_failed_login t n email s h =
      let s' = (r.incr t (failed_login email) s).1 in
      rw
        (
          laws.get-expire n t account_lockout (failed_login email) s' h,
          laws.get-incr t (failed_login email) s,
        )
        (ground arith)

  pub failures-clear_failed_logins :
      (n : ℕ) (email : String) (s : Store) → failures n email (clear_failed_logins r email s) ≡ 0
  unfolding clear_failed_logins
  failures-clear_failed_logins n email s =
      ground (arith, laws.get-delete n (failed_login email) (failed_login email) s)

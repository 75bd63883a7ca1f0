-- ===== src/Redis.antt =====
-- The Redis server, which the gateway only calls: the commands it uses, and what their
-- documentation says of them. A key is an f-string of the source; it is kept as its family and its
-- fields. Times and lifetimes are in microseconds, and `now` is the server's time at the call.
pub mod Memory
use ultimate_assistant_ai_ga.Base.{
  ℕ, ◌+◌, ◌≤◌, String, Bool, true, false, Option, none, some, ◌≡◌, ite, ltb, if◌then◌else◌, str_dec,
  ℕ_discrete,
}

pub data Key : Type 0 where
  -- app/providers/retry.py
  cb_state cb_last_fail cb_failures cb_probe_lock : String → Key
  -- app/core/security.py
  revoked failed_login : String → Key
  -- app/services/ranker.py
  latency_p50 : String → String → Key
  errors_rate stats_success stats_failure : String → Key
  -- app/services/cache.py, by the digest
  cache : String → Key
  -- app/workers/tasks
  job_status job_result job_error job_progress : String → Key

unfoldable pub Key-discrete : Discrete Key
Key-discrete = hlevel str_dec

-- A stored text: some other text, or the print of a number.
pub data Value : Type 0 where
  text : String → Value
  number : ℕ → Value

-- `int(value or 0)`; a text that prints no number raises in the source, and is never stored there.
abbrev pub count_of : Option Value → ℕ
count_of none = 0
count_of (some (text s)) = 0
count_of (some (number n)) = n

abbrev pub exists? : Option Value → Bool
exists? none = false
exists? (some v) = true

pub record Redis (Store : Type 0) : Type 0 where
  pub get : ℕ → Key → Store → Option Value
  pub set : Key → Value → Store → Store
  pub setex : ℕ → Key → ℕ → Value → Store → Store
  pub delete : Key → Store → Store
  pub incr : ℕ → Key → Store → ℕ × Store
  pub expire : ℕ → Key → ℕ → Store → Store
  -- SET key value NX EX ttl, and whether it was set
  pub set_nx_ex : ℕ → Key → ℕ → Value → Store → Bool × Store

-- What Redis documents. A command touches its own key; SET drops a lifetime, SETEX starts one,
-- INCR keeps it, EXPIRE renews it, and a key whose lifetime is over reads as absent.
pub record RedisLaws {Store : Type 0} (r : Redis Store) : Type 0 where
  pub get-set :
      (n : ℕ) (k j : Key) (v : Value) (s : Store)
      → r.get n k (r.set j v s) ≡ ite (Key-discrete j k) (some v) (r.get n k s)
  pub get-setex :
      (n t ttl : ℕ) (k j : Key) (v : Value) (s : Store)
      → r.get n k (r.setex t j ttl v s)
        ≡ ite (Key-discrete j k) (if ltb n (t + ttl) then some v else none) (r.get n k s)
  pub get-delete :
      (n : ℕ) (k j : Key) (s : Store)
      → r.get n k (r.delete j s) ≡ ite (Key-discrete j k) none (r.get n k s)
  pub incr_count : (n : ℕ) (j : Key) (s : Store) → (r.incr n j s).0 ≡ count_of (r.get n j s) + 1
  pub get-incr_ne :
      (n t : ℕ) (k j : Key) (s : Store) → (j ≡ k → ⊥) → r.get n k (r.incr t j s).1 ≡ r.get n k s
  pub get-incr :
      (n : ℕ) (j : Key) (s : Store)
      → r.get n j (r.incr n j s).1 ≡ some (number (count_of (r.get n j s) + 1))
  pub get-expire_ne :
      (n t ttl : ℕ) (k j : Key) (s : Store)
      → (j ≡ k → ⊥)
      → r.get n k (r.expire t j ttl s) ≡ r.get n k s
  pub get-expire :
      (n t ttl : ℕ) (j : Key) (s : Store)
      → t ≤ n
      → r.get n j (r.expire t j ttl s) ≡ (if ltb n (t + ttl) then r.get t j s else none)
  pub set_nx_done :
      (n ttl : ℕ) (j : Key) (v : Value) (s : Store)
      → (r.set_nx_ex n j ttl v s).0 ≡ (if exists? (r.get n j s) then false else true)
  pub get-set_nx :
      (n t ttl : ℕ) (k j : Key) (v : Value) (s : Store)
      → r.get n k (r.set_nx_ex t j ttl v s).1 ≡ (
          if exists? (r.get t j s)
          then r.get n k s
          else ite (Key-discrete j k) (if ltb n (t + ttl) then some v else none) (r.get n k s))

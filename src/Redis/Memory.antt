-- ===== src/Redis/Memory.antt =====
-- A store that keeps the laws: each key with its value and the end of its lifetime. The examples
-- run on it.
use ultimate_assistant_ai_ga.Base.{
  ℕ, ◌+◌, true, false, Option, none, some, ◌≡◌, ite, ltb, if◌then◌else◌, arith, refl,
}
use ultimate_assistant_ai_ga.Redis.{
  Key, Key-discrete, Value, number, count_of, exists?, Redis, RedisLaws,
}

abbrev pub Store : Type 0
Store = Key → Option (Value × Option ℕ)

abbrev pub empty : Store
empty k = none

abbrev read : ℕ → Option (Value × Option ℕ) → Option Value
read n none = none
read n (some (v, none)) = some v
read n (some (v, some end)) = if ltb n end then some v else none

abbrev write : Key → Option (Value × Option ℕ) → Store → Store
write j e s k = ite (Key-discrete j k) e (s k)

-- the lifetime that INCR keeps
abbrev lifetime : ℕ → Option (Value × Option ℕ) → Option ℕ
lifetime n none = none
lifetime n (some (v, none)) = none
lifetime n (some (v, some end)) = if ltb n end then some end else none

-- EXPIRE on an absent key does nothing
abbrev renew : ℕ → ℕ → Option Value → Option (Value × Option ℕ)
renew t ttl none = none
renew t ttl (some v) = some (v, some (t + ttl))

abbrev pub memory : Redis Store
memory = record {
  get = λ n k s. read n (s k);
  set = λ k v s. write k (some (v, none)) s;
  setex = λ n k ttl v s. write k (some (v, some (n + ttl))) s;
  delete = λ k s. write k none s;
  incr = λ n k s.
      let c = count_of (read n (s k)) + 1 in (c, write k (some (number c, lifetime n (s k))) s);
  expire = λ n k ttl s. write k (renew n ttl (read n (s k))) s;
  set_nx_ex = λ n k ttl v s.
      if exists? (read n (s k)) then (false, s) else (true, write k (some (v, some (n + ttl))) s);
}

memory-get-incr :
    (n : ℕ) (j : Key) (s : Store)
    → memory.get n j (memory.incr n j s).1 ≡ some (number (count_of (memory.get n j s) + 1))
memory-get-incr n j s = ground arith

pub memory-RedisLaws : RedisLaws memory
memory-RedisLaws = record {
  get-set = λ n k j v s. ground arith;
  get-setex = λ n t ttl k j v s. ground arith;
  get-delete = λ n k j s. ground arith;
  incr_count = λ n j s. refl;
  get-incr_ne = λ n t k j s h. ground arith;
  get-incr = memory-get-incr;
  get-expire_ne = λ n t ttl k j s h. ground arith;
  get-expire = λ n t ttl j s h. ground arith;
  set_nx_done = λ n ttl j v s. ground arith;
  get-set_nx = λ n t ttl k j v s. ground arith;
}

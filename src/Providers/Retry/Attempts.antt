-- ===== src/Providers/Retry/Attempts.antt =====
-- What a decorated call does: fail fast, give up at once, try again, and how often.
use ultimate_assistant_ai_ga.Base.{
  ℕ, zero, suc, ◌+◌, ◌≤◌, ◌<◌, ◌≡◌, refl, ap, sym, ◌∙◌, String, Bool, true, false, Option, none,
  some, arith, ltb, Bool-cases, inl, inr, ◌⊎◌,
}
use ultimate_assistant_ai_ga.Base.Action.{
  Exc, Body, Result, ok, err, Action, pure, handle, and_then, ◌>>◌, provider_error,
  provider_unavailable, http_status_error,
}
use ultimate_assistant_ai_ga.Providers.Retry.{
  is_retryable, safe_error_body, Breaker, transient, classify, str_last, call, wait, after_failure,
  attempts, with_retry,
}

module _ {W A : Type 0} (breaker : Breaker W) (sleep : ℕ → W → W) (max_retries : ℕ) (name : String)
    (func : Action W A) where
  -- With the circuit open the call is refused at once, and nothing but the question to the breaker
  -- has happened.
  pub with_retry-open :
      (w w' : W)
      → breaker.is_open name w ≡ (ok true, w')
      → with_retry breaker sleep max_retries name func w ≡ (err (provider_unavailable name), w')
  unfolding with_retry
  with_retry-open w w' e = rw (e, with_retry)

  -- A status that is not worth a retry ends the call at the first attempt, with the provider's own
  -- status and the safe text of its body; the breaker is not told.
  pub with_retry-client_error :
      (w w1 w2 : W) (status : ℕ) (body : Body) (print : String)
      → breaker.is_open name w ≡ (ok false, w1)
      → func w1 ≡ (err (http_status_error status body print), w2)
      → is_retryable status ≡ false
      → with_retry breaker sleep max_retries name func w
        ≡ (err (provider_error name (safe_error_body status body) status), w2)
  unfolding with_retry classify
  with_retry-client_error w w1 w2 status body print o f n = rw (o, with_retry, f, n)

  noted :
      {B : Type 0} (r : Result (Unit {0}) × W) (k : Action W B)
      → r.0 ≡ ok tt
      → and_then r (λ _. k) ≡ k r.1
  noted (ok tt, w) k e = refl
  noted (err x, w) k e = cc

  failed_bind :
      {B C : Type 0} (r : Result B × W) (f : B → Action W C) (e : Exc)
      → r.0 ≡ err e
      → and_then r f ≡ (err e, r.1)
  failed_bind (ok b, w) f e h = cc
  failed_bind (err x, w) f e h = cc

  -- The breaker and the wait return, and do not touch the count `calls`.
  pub record IsQuiet (calls : W → ℕ) : Type 0 where
    pub asks : (w : W) → calls (breaker.is_open name w).1 ≡ calls w
    pub clears : (w : W) → (breaker.record_success name w).0 ≡ ok tt
    pub clears_kept : (w : W) → calls (breaker.record_success name w).1 ≡ calls w
    pub notes : (w : W) → (breaker.record_failure name w).0 ≡ ok tt
    pub notes_kept : (w : W) → calls (breaker.record_failure name w).1 ≡ calls w
    pub sleeps : (n : ℕ) (w : W) → calls (sleep n w) ≡ calls w

  module _ (calls : W → ℕ) (quiet : IsQuiet calls) where
    -- after a failure that is worth another attempt
    after_transient :
        (n : ℕ) (e : Exc) (again : Exc → Action W A) (w : W)
        → (w' : W) × (calls w' ≡ calls w)
          × (after_failure breaker sleep max_retries name func n (transient e) again w ≡ again e w')
    after_transient n e again w =
        let w1 = (breaker.record_failure name w).1 in
        let go =
          noted (breaker.record_failure name w)
            (wait breaker sleep max_retries name func n >> again e) (quiet.notes w) in
        elim (Bool-cases (ltb n max_retries)) [
          | inl more ↦ (sleep n w1, quiet.sleeps n w1 ∙ quiet.notes_kept w, go ∙ rw more)
          | inr last ↦ (w1, quiet.notes_kept w, go ∙ rw last)
        ]

    -- The wrapped call always fails in a way worth another attempt, and counts itself.
    abbrev pub AlwaysFails : Type 0
    AlwaysFails =
        (w : W)
        → (e : Exc) × ((func w).0 ≡ err e)
          × (classify name e ≡ transient e)
          × (calls (func w).1 ≡ calls w + 1)

    call-err :
        (w : W) (e : Exc)
        → (func w).0 ≡ err e
        → call breaker sleep max_retries name func w ≡ (err e, (func w).1)
    call-err w e f = failed_bind (func w) _ e f

    -- one round of a failing call
    round :
        (left n : ℕ) (last : Option Exc) (w : W) (e : Exc)
        → (func w).0 ≡ err e
        → classify name e ≡ transient e
        → (w' : W) × (calls w' ≡ calls (func w).1)
          × (attempts breaker sleep max_retries name func (suc left) n last w
              ≡ attempts breaker sleep max_retries name func left (n + 1) (some e) w')
    unfolding attempts
    round left n last w e raised kind =
        let again =
          λ (e' : Exc). attempts breaker sleep max_retries name func left (n + 1) (some e') in
        let (w', kept, step) = after_transient n e again (func w).1 in
        (w', kept, rw (call-err w e raised, kind) step)

    exhausts :
        AlwaysFails
        → (left n : ℕ) (last : Option Exc) (w : W)
        → (text : String) × ((attempts breaker sleep max_retries name func left n last w).0
            ≡ err (provider_error name text 502))
          × (calls (attempts breaker sleep max_retries name func left n last w).1 ≡ calls w + left)
    unfolding attempts
    exhausts fails zero n last w = (str_last last, refl, omega arith)
    exhausts fails (suc left) n last w =
        let (e, raised_e, kind, counted) = fails w in
        let (w', kept, step) = round left n last w e raised_e kind in
        let (text, raised, total) = exhausts fails left (n + 1) (some e) w' in
        (text, rw (step, attempts) raised, rw (step, attempts) (omega arith))

    -- With the circuit closed, and a breaker and waits that return and make no calls, a call that
    -- always fails in a way worth a retry is made exactly `max_retries + 1` times, and then
    -- ProviderError is raised with status 502.
    pub with_retry_exhausts :
        (w w1 : W)
        → breaker.is_open name w ≡ (ok false, w1)
        → AlwaysFails
        → (text : String) × ((with_retry breaker sleep max_retries name func w).0
            ≡ err (provider_error name text 502))
          × (calls (with_retry breaker sleep max_retries name func w).1
              ≡ calls w + (max_retries + 1))
    unfolding with_retry
    with_retry_exhausts w w1 o fails =
        let (text, raised, total) = exhausts fails (suc max_retries) 0 none w1 in
        let asked : calls w1 ≡ calls w =
          ap (λ (t : Result Bool × W). calls t.1) (sym o) ∙ quiet.asks w in
        (text, rw (o, with_retry) raised, rw (o, with_retry) (omega arith))

    -- The wrapped call fails in a way worth another attempt while `m` counts down, and then returns.
    abbrev pub Recovers : (W → ℕ) → Type 0
    Recovers m =
        (w : W)
        → ((m w ≡ 0) × (a : A) × ((func w).0 ≡ ok a))
          ⊎ ((e : Exc) × ((func w).0 ≡ err e)
              × (classify name e ≡ transient e)
              × (m (func w).1 + 1 ≡ m w))

    call-ok :
        (w : W) (a : A) → (func w).0 ≡ ok a → (call breaker sleep max_retries name func w).0 ≡ ok a
    call-ok w a f = told (func w) a f
      where
        cleared :
            (r : Result (Unit {0}) × W) (b : A) → r.0 ≡ ok tt → (and_then r (λ _. pure b)).0 ≡ ok b
        cleared (ok tt, w') b e = refl
        cleared (err x, w') b e = cc

        told :
            (r : Result A × W) (b : A)
            → r.0 ≡ ok b
            → (and_then r (λ result. breaker.record_success name >> pure result)).0 ≡ ok b
        told (ok c, w') b e = cleared (breaker.record_success name w') c (quiet.clears w') ∙ e
        told (err x, w') b e = cc

    caught : (r : Result A × W) (h : Exc → Action W A) (a : A) → r.0 ≡ ok a → (handle r h).0 ≡ ok a
    caught (ok b, w) h a e = e
    caught (err x, w) h a e = cc

    recovers :
        Recovers calls
        → (left n : ℕ) (last : Option Exc) (w : W) → calls w < left
        → (a : A) × ((attempts breaker sleep max_retries name func left n last w).0 ≡ ok a)
    unfolding attempts
    recovers h zero n last w lt = elim lt [ ]
    recovers h (suc left) n last w lt = elim (h w) [
      | inl (z, a, f) ↦ (a, caught (call breaker sleep max_retries name func w) _ a (call-ok w a f))
      | inr (e, raised, kind, fewer) ↦
          let (w', kept, step) = round left n last w e raised kind in
          let (a, done) = recovers h left (n + 1) (some e) w' (omega arith) in
          (a, rw (step, attempts) done)
    ]

    -- With the circuit closed, and a breaker and waits that return, a call that fails at most
    -- `max_retries` times in a row, each time in a way worth a retry, and then returns, returns
    -- through `with_retry`.
    pub with_retry-Recovers :
        (w w1 : W)
        → breaker.is_open name w ≡ (ok false, w1)
        → Recovers calls
        → calls w ≤ max_retries
        → (a : A) × ((with_retry breaker sleep max_retries name func w).0 ≡ ok a)
    unfolding with_retry
    with_retry-Recovers w w1 o h few =
        let asked : calls w1 ≡ calls w =
          ap (λ (t : Result Bool × W). calls t.1) (sym o) ∙ quiet.asks w in
        let (a, done) = recovers h (suc max_retries) 0 none w1 (omega arith) in
        (a, rw (o, with_retry) done)

-- ===== src/Api/Admin/Rounds.antt =====
-- The failures that switching a provider off records.
use ultimate_assistant_ai_ga.Base.{
  ℕ, zero, suc, ◌+◌, ◌-◌, ◌≤◌, ◌<◌, ◌≡◌, ◌≢◌, refl, sym, ap, subst, ◌∙◌, String, true, false,
  if_pos, if_neg, str_dec, arith, ltb, leb, if◌then◌else◌, ◌⊎◌, inl, inr, Bool-cases,
}
use ultimate_assistant_ai_ga.Providers.CircuitBreaker.{
  CircuitBreaker, local_is_open, local_record_failure,
}
use ultimate_assistant_ai_ga.Providers.CircuitBreaker.Phase.{
  Phase, closed, tripped, ask, fail, phase, kept, local_is_open-refines,
  local_record_failure-refines,
}
use ultimate_assistant_ai_ga.Api.World.{Env}
use ultimate_assistant_ai_ga.Api.Admin.{record_failures}

threshold_kept :
    (p : String) (t : ℕ) (cb : CircuitBreaker)
    → (local_record_failure p t cb).failure_threshold ≡ cb.failure_threshold
unfolding local_record_failure
threshold_kept p t cb = refl

module _ (p : String) where
  -- After `j` failures, the last at `t`: shut since then, or closed with at least `j` below the threshold.
  abbrev Failing : ℕ → ℕ → ℕ → Phase → Type 0
  Failing threshold j t ph =
      ((c : ℕ) × (ph ≡ tripped c t)) ⊎ ((c : ℕ) × (ph ≡ closed c) × (j ≤ c) × (c < threshold))

  fail-Failing_first :
      (threshold timeout t : ℕ) (ph : Phase) → Failing threshold 1 t (fail threshold timeout t ph)
  unfolding fail
  fail-Failing_first threshold timeout t (tripped n since) = inl (n + 1, refl)
  fail-Failing_first threshold timeout t (closed n) = elim (Bool-cases (leb threshold (n + 1))) [
    | inl e ↦ rw e (inl (n + 1, refl))
    | inr e ↦ rw e (inr (n + 1, refl, omega arith, ground arith))
  ]

  fail-Failing :
      (threshold timeout j s t : ℕ) (ph : Phase)
      → Failing threshold j s ph
      → Failing threshold (suc j) t (fail threshold timeout t ph)
  unfolding fail
  fail-Failing threshold timeout j s t ph (inl (c, e)) = rw e (inl (c + 1, refl))
  fail-Failing threshold timeout j s t ph (inr (c, e, le, lt)) =
      elim (Bool-cases (leb threshold (c + 1))) [
        | inl b ↦ rw (e, b) (inl (c + 1, refl))
        | inr b ↦ rw (e, b) (inr (c + 1, refl, omega arith, ground arith))
      ]

  phase-failed :
      (t : ℕ) (cb : CircuitBreaker)
      → phase p (local_record_failure p t cb)
        ≡ fail cb.failure_threshold cb.recovery_timeout t (phase p cb)
  phase-failed t cb = rw (local_record_failure-refines p p t cb, if_pos (str_dec p p) refl)

  pub phase-failed_other :
      (q : String) (t : ℕ) (cb : CircuitBreaker)
      → p ≢ q
      → phase q (local_record_failure p t cb) ≡ phase q cb
  phase-failed_other q t cb n = rw (local_record_failure-refines p q t cb, if_neg (str_dec p q) n)

  module _ {Store : Type 0} (env : Env Store) (now : ℕ) (token : String) (clock : ℕ → ℕ) where
    abbrev pub rounds : ℕ → ℕ → CircuitBreaker → CircuitBreaker
    rounds = record_failures env now token clock p

    -- What the rounds leave: the threshold, the timeout, the other providers, and failing since the last.
    rounds-Failing :
        (n k T : ℕ) (cb : CircuitBreaker)
        → cb.failure_threshold ≡ T
        → Failing T (suc k) (clock k) (phase p cb)
        → Failing T (suc (k + n)) (clock (k + n)) (phase p (rounds n (suc k) cb))
    unfolding record_failures
    rounds-Failing zero k T cb e f =
        subst (λ m. Failing T (suc m) (clock m) (phase p cb)) (omega arith) f
    rounds-Failing (suc n) k T cb e f =
        let now_at = clock (suc k) in
        let cb1 = local_record_failure p now_at cb in
        let failed =
          fail-Failing cb.failure_threshold cb.recovery_timeout (suc k) (clock k) now_at
            (phase p cb) (subst (λ m. Failing m (suc k) (clock k) (phase p cb)) (sym e) f) in
        let moved =
          subst (λ ph. Failing cb.failure_threshold (suc (suc k)) now_at ph)
            (sym (phase-failed now_at cb)) failed in
        let at_T = subst (λ m. Failing m (suc (suc k)) now_at (phase p cb1)) e moved in
        subst (λ m. Failing T (suc m) (clock m) (phase p (rounds n (suc (suc k)) cb1)))
          (omega arith) (rounds-Failing n (suc k) T cb1 (threshold_kept p now_at cb ∙ e) at_T)

    pub rounds_kept :
        (n k : ℕ) (cb : CircuitBreaker)
        → let cb' = rounds n k cb in
          (cb'.failure_threshold ≡ cb.failure_threshold)
          × (cb'.recovery_timeout ≡ cb.recovery_timeout)
          × ((q : String) → p ≢ q → phase q cb' ≡ phase q cb)
    unfolding record_failures
    rounds_kept zero k cb = (refl, refl, λ q n. refl)
    rounds_kept (suc n) k cb =
        let cb1 = local_record_failure p (clock k) cb in
        let (a, b, c) = rounds_kept n (suc k) cb1 in
        (
          a ∙ threshold_kept p (clock k) cb,
          b ∙ kept p (clock k) cb,
          λ q ne. c q ne ∙ phase-failed_other q (clock k) cb ne,
        )

    -- the breaker once the provider was switched off
    abbrev pub off : CircuitBreaker → CircuitBreaker
    off cb = let cb1 = local_record_failure p (clock 0) cb in rounds cb1.failure_threshold 1 cb1

    Failing-over :
        (T j t : ℕ) (ph : Phase) → Failing T j t ph → T < j → (c : ℕ) × (ph ≡ tripped c t)
    Failing-over T j t ph (inl f) h = f
    Failing-over T j t ph (inr (c, e, le, lt)) h = absurd (omega arith)

    off_tripped :
        (cb : CircuitBreaker)
        → (c : ℕ) × (phase p (off cb) ≡ tripped c (clock cb.failure_threshold))
    off_tripped cb =
        let cb1 = local_record_failure p (clock 0) cb in
        let T = cb.failure_threshold in
        let e = threshold_kept p (clock 0) cb in
        let first =
          subst (λ ph. Failing T 1 (clock 0) ph) (sym (phase-failed (clock 0) cb))
            (fail-Failing_first T cb.recovery_timeout (clock 0) (phase p cb)) in
        let n = cb1.failure_threshold in
        let (c, trips) =
          Failing-over T (suc (0 + n)) (clock (0 + n)) (phase p (off cb))
            (rounds-Failing n 0 T cb1 e first) (omega arith) in
        let last : 0 + n ≡ T = omega arith in (c, trips ∙ ap (λ m. tripped c (clock m)) last)

    pub off_is_open :
        (later : ℕ) (cb : CircuitBreaker)
        → (local_is_open p later (off cb)).0
          ≡ (if ltb cb.recovery_timeout (later - clock cb.failure_threshold) then false else true)
    unfolding ask
    off_is_open later cb =
        let cb1 = local_record_failure p (clock 0) cb in
        let (c, e) = off_tripped cb in
        let (answer, after) = local_is_open-refines p p later (off cb) in
        answer
        ∙ rw (e, (rounds_kept cb1.failure_threshold 1 cb1).1, kept p (clock 0) cb) (ground arith)

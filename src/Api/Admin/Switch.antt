-- ===== src/Api/Admin/Switch.antt =====
-- What an admin's switch does to a provider, and to the others.
use ultimate_assistant_ai_ga.Base.{
  ℕ, ◌-◌, ◌≡◌, ◌≢◌, refl, ◌∙◌, String, true, false, some, same, if_pos, if_neg, str_dec, arith, ltb,
  if◌then◌else◌, ◌⊎◌, inl, inr, Bool-cases, Option-cases,
}
use ultimate_assistant_ai_ga.Base.Action.{Exc, Result, ok, err, Result-cases, http_exception}
use ultimate_assistant_ai_ga.Providers.CircuitBreaker.{
  local_is_open, local_record_failure, local_record_success,
}
use ultimate_assistant_ai_ga.Providers.CircuitBreaker.Phase.{
  ask, phase, local_is_open-refines, local_record_success-refines,
}
use ultimate_assistant_ai_ga.Api.World.{World, Env, User}
use ultimate_assistant_ai_ga.Core.Security.{decode_token}
use ultimate_assistant_ai_ga.Api.Deps.{get_current_user_id}
use ultimate_assistant_ai_ga.Api.Admin.{
  AdminWorld, get_user, require_admin, disable_provider, enable_provider,
}
use ultimate_assistant_ai_ga.Api.Admin.Rounds.{phase-failed_other, rounds_kept, off_is_open}

module _ {Store : Type 0} (env : Env Store) (now : ℕ) (token : String) where
  -- checking a token writes nothing
  get_current_user_id-same : (w : World Store) → (get_current_user_id env now token w).1 ≡ w
  unfolding get_current_user_id decode_token
  get_current_user_id-same w = ground arith

  -- The token is that of a user who is an admin.
  abbrev pub IsAdmin : AdminWorld Store → ℕ → Type 0
  IsAdmin w u =
      (user : User) × (get_current_user_id env now token w.api ≡ (ok u, w.api))
      × (get_user u w.api ≡ some user)
      × (same user.role "admin" ≡ true)

  abbrev Refused : {A : Type 0} → Result A × AdminWorld Store → AdminWorld Store → Type 0
  Refused r w = (e : Exc) × (r ≡ (err e, w))

  require_admin-cases :
      (w : AdminWorld Store)
      → ((u : ℕ) × IsAdmin w u × (require_admin env now token w ≡ (ok u, w)))
        ⊎ Refused (require_admin env now token w) w
  unfolding require_admin
  require_admin-cases w =
      let g = get_current_user_id env now token w.api in
      let same_api = get_current_user_id-same w.api in
      elim (Result-cases g.0) [
        | inr (e, q) ↦
            let whole : g ≡ (err e, w.api) = λ i. (q i, same_api i) in inr (e, rw whole refl)
        | inl (u, q) ↦
            let whole : g ≡ (ok u, w.api) = λ i. (q i, same_api i) in
            elim (Option-cases (get_user u w.api)) [
              | inl none_there ↦
                  inr (http_exception 403 "Admin access required", rw (whole, none_there) refl)
              | inr (user, there) ↦ elim (Bool-cases (same user.role "admin")) [
                | inl yes_admin ↦
                    inl (u, (user, whole, there, yes_admin), rw (whole, there, yes_admin) refl)
                | inr no_admin ↦
                    inr
                      (http_exception 403 "Admin access required", rw (whole, there, no_admin) refl)
              ]
            ]
      ]

  module _ (clock : ℕ → ℕ) (p : String) where
    -- Only an admin switches a provider off; the switch shuts that provider until the recovery timeout has passed
    -- since the last of the failures that it records, whatever was recorded before, and no other provider's
    -- circuit moves. Anybody else is refused and changes nothing.
    pub disable_provider_lem :
        (w : AdminWorld Store)
        → let (r, w') = disable_provider env now token clock p w in
          ((u : ℕ) × IsAdmin w u
            × (r ≡ ok (record { status = "disabled"; provider = p }))
            × ((later : ℕ)
                → (local_is_open p later w'.breaker).0 ≡ (
                    if ltb w.breaker.recovery_timeout (later - clock w.breaker.failure_threshold)
                    then false
                    else true))
            × ((q : String) → p ≢ q → phase q w'.breaker ≡ phase q w.breaker))
          ⊎ Refused (disable_provider env now token clock p w) w
    unfolding disable_provider
    disable_provider_lem w = elim (require_admin-cases w) [
      | inl (u, admin, e) ↦
          let cb1 = local_record_failure p (clock 0) w.breaker in
          let (th, to, others) = rounds_kept p env now token clock cb1.failure_threshold 1 cb1 in
          rw e (
            inl (
              u,
              admin,
              refl,
              λ later. off_is_open p env now token clock later w.breaker,
              λ q ne. others q ne ∙ phase-failed_other p q (clock 0) w.breaker ne,
            ))
      | inr (x, e) ↦ rw e (inr (x, refl))
    ]

  -- An admin's enabling lets requests through at once and at any later time, and moves no other circuit.
  pub enable_provider_lem :
      (p : String) (w : AdminWorld Store)
      → let (r, w') = enable_provider env now token p w in
        ((u : ℕ) × IsAdmin w u
          × (r ≡ ok (record { status = "enabled"; provider = p }))
          × ((later : ℕ) → (local_is_open p later w'.breaker).0 ≡ false)
          × ((q : String) → p ≢ q → phase q w'.breaker ≡ phase q w.breaker))
        ⊎ Refused (enable_provider env now token p w) w
  unfolding enable_provider ask
  enable_provider_lem p w = elim (require_admin-cases w) [
    | inl (u, admin, e) ↦
        let cb' = local_record_success p w.breaker in
        let shut = local_record_success-refines p p w.breaker in
        rw e (
          inl (
            u,
            admin,
            refl,
            λ later.
                (local_is_open-refines p p later cb').0 ∙ rw (shut, if_pos (str_dec p p) refl) refl,
            λ q ne. rw (local_record_success-refines p q w.breaker, if_neg (str_dec p q) ne),
          ))
    | inr (x, e) ↦ rw e (inr (x, refl))
  ]

-- ===== src/Services/Router/Failover.antt =====
-- The failover loop: when it answers, and which model it asks for.
use ultimate_assistant_ai_ga.Base.{
  ℕ, ◌≡◌, refl, ap, subst, String, true, false, Option, none, some, List, [], ◌∷◌, inl, inr,
  Option-cases, ◌-◌, ◌/◌,
}
use ultimate_assistant_ai_ga.Base.Lists.{All, Holds}
use ultimate_assistant_ai_ga.Base.Text.{truthy, or_else-falsy, or_else_idem}
use ultimate_assistant_ai_ga.Base.Action.{
  Exc, Result, ok, err, Action, Succeeds, Keeps, >>=-Succeeds, and_then, pure,
}
use ultimate_assistant_ai_ga.Schemas.{UnifiedRequest, RouteResult}
use ultimate_assistant_ai_ga.Providers.Capabilities.{Candidate}
use ultimate_assistant_ai_ga.Providers.Interface.{Provider}
use ultimate_assistant_ai_ga.Providers.Registry.{ProviderRegistry, get_provider}
use ultimate_assistant_ai_ga.Services.Interfaces.{KeyStore, Ranker, Host}
use ultimate_assistant_ai_ga.Services.Router.{
  dispatch, set_model, stamp, Attempt, success, failure, tell_success, tell_failure, finish,
  give_up, settle, attempt, failover, next_round,
}
use ultimate_assistant_ai_ga.Services.Router.Frame.{KeepsServices, KeepsDispatch, failover-Keeps}

module _ {W : Type 0} (registry : ProviderRegistry W) (keys : KeyStore W)
    (ranker : Option (Ranker W)) (host : Host W) (user_id : ℕ) (input_mod output_mod : String)
    (told : (c : Candidate) (ms : ℕ) → Succeeds (tell_success ranker c ms))
    (told_failure : (c : Candidate) → Succeeds (tell_failure ranker c))
    (decrypted : (name : String) → Succeeds (keys.get_decrypted_key user_id name)) where
  finish-Succeeds :
      (c : Candidate) (start : ℕ) (r : RouteResult)
      → Succeeds (finish registry keys ranker host user_id input_mod output_mod c start r)
  unfolding finish
  finish-Succeeds c start r w =
      let ms = (host.monotonic w - start) / 1000 in
      >>=-Succeeds (tell_success ranker c ms) (λ _. pure (stamp c ms r)) (told c ms)
        (λ _ w'. (stamp c ms r, refl))
        (host.observe_latency c ms (host.count_request c "success" w))

  settle-Succeeds :
      (c : Candidate) (r : Result RouteResult)
      → Succeeds (settle registry keys ranker host user_id input_mod output_mod c r)
  unfolding give_up
  settle-Succeeds c (ok r) w = (success r, refl)
  settle-Succeeds c (err e) w =
      >>=-Succeeds (tell_failure ranker c) (λ _. pure (failure e)) (told_failure c)
        (λ _ w'. (failure e, refl)) (host.count_request c "error" w)

  -- A round always comes to an end that the loop can go on from.
  attempt-Succeeds :
      (c : Candidate) (p : Provider W) (req : UnifiedRequest) (api_key : String)
      → Succeeds (attempt registry keys ranker host user_id input_mod output_mod c p req api_key)
  unfolding attempt
  attempt-Succeeds c p req api_key w = settle-Succeeds c _ _

  settle-success :
      (c : Candidate) (r : Result RouteResult) (w : W) (a : RouteResult)
      → r ≡ ok a
      → (settle registry keys ranker host user_id input_mod output_mod c r w).0 ≡ ok (success a)
  settle-success c (ok r) w a e = cc
  settle-success c (err x) w a e = cc

  -- A provider that answers ends the loop.
  attempt-success :
      (c : Candidate) (p : Provider W) (req : UnifiedRequest) (api_key : String)
      → Succeeds (dispatch input_mod output_mod p req api_key)
      → (w : W)
      → (a : RouteResult) × ((attempt registry keys ranker host user_id input_mod output_mod c p req
            api_key w).0
          ≡ ok (success a))
  unfolding attempt
  attempt-success c p req api_key h w =
      let (a, e) =
        >>=-Succeeds (dispatch input_mod output_mod p req api_key)
          (finish registry keys ranker host user_id input_mod output_mod c (host.monotonic w)) h
          (finish-Succeeds c (host.monotonic w)) w in
      (a, settle-success c _ _ a e)

  next_round-success :
      (r : Result Attempt × W) (continue : Exc → Action W RouteResult) (a : RouteResult)
      → r.0 ≡ ok (success a)
      → (and_then r (λ o. next_round o continue)).0 ≡ ok a
  next_round-success (ok (success b), w) continue a e = cc
  next_round-success (ok (failure x), w) continue a e = cc
  next_round-success (err x, w) continue a e = cc

  next_round-Succeeds :
      (o : Attempt) (continue : Exc → Action W RouteResult)
      → ((e : Exc) → Succeeds (continue e))
      → Succeeds (next_round o continue)
  next_round-Succeeds (success r) continue h w = (r, refl)
  next_round-Succeeds (failure e) continue h w = h e w

  module _ (good : Candidate) (p : Provider W)
      (found : get_provider registry good.provider ≡ some p)
      (answers : (req : UnifiedRequest) (api_key : String)
        → Succeeds (dispatch input_mod output_mod p req api_key)) where
    -- The loop answers if one of its candidates is registered and always answers, whatever the
    -- others do, where the key store and the ranker do not raise.
    pub failover-Succeeds :
        (cs : List Candidate) (last : Option Exc) (req : UnifiedRequest)
        → Holds good cs
        → Succeeds (failover registry keys ranker host user_id input_mod output_mod cs last req)
    unfolding failover
    failover-Succeeds [] last req h w = elim h [ ]
    failover-Succeeds (c ∷ cs) last req (inl e) w =
        let here : get_provider registry c.provider ≡ some p = rw (← e) found in
        rw (here, failover)
          (>>=-Succeeds (keys.get_decrypted_key user_id c.provider) _ (decrypted c.provider)
            (λ api_key w'.
              let (a, done) =
                attempt-success c p (set_model req c.model) api_key
                  (answers (set_model req c.model) api_key) w' in
              (a, next_round-success _ _ a done))
            w)
    failover-Succeeds (c ∷ cs) last req (inr later) w =
        elim (Option-cases (get_provider registry c.provider)) [
          | inl n ↦ rw (n, failover) (failover-Succeeds cs last req later w)
          | inr (q, e) ↦
              rw (e, failover)
                (>>=-Succeeds (keys.get_decrypted_key user_id c.provider) _ (decrypted c.provider)
                  (λ api_key.
                    >>=-Succeeds _ _ (attempt-Succeeds c q (set_model req c.model) api_key) (λ o.
                      next_round-Succeeds o _
                        (λ x. failover-Succeeds cs (some x) (set_model req c.model) later)))
                  w)
        ]

All-trivial : (cs : List Candidate) → All (λ c. true ≡ true) cs
All-trivial [] = tt
All-trivial (c ∷ cs) = (refl, All-trivial cs)

-- `req.model or model_id` leaves a model that is there.
set_model-keeps :
    (req : UnifiedRequest) (m n : String)
    → req.model ≡ some m
    → truthy (some m) ≡ true
    → (set_model req n).model ≡ some m
unfolding set_model
set_model-keeps req String.[] n e t = cc
set_model-keeps req (String.◌∷◌ x m) n e t = rw e

set_model-fresh :
    (req : UnifiedRequest) (m : String)
    → truthy req.model ≡ false
    → (set_model req m).model ≡ some m
unfolding set_model
set_model-fresh req m t = ap some (or_else-falsy req.model m t)

set_model_idem :
    (req : UnifiedRequest) (m : String) → set_model (set_model req m) m ≡ set_model req m
unfolding set_model
set_model_idem req m = ap (λ x. record req { model = some x }) (or_else_idem req.model m)

module _ {W : Type 0} (registry : ProviderRegistry W) (keys : KeyStore W)
    (ranker : Option (Ranker W)) (host : Host W) (user_id : ℕ) (input_mod output_mod : String) where
  set_model-failover :
      (c : Candidate) (cs : List Candidate) (last : Option Exc) (req : UnifiedRequest)
      {p : Provider W}
      → get_provider registry c.provider ≡ some p
      → failover registry keys ranker host user_id input_mod output_mod
          (c ∷ cs)
          last
          (set_model req c.model)
        ≡ failover registry keys ranker host user_id input_mod output_mod (c ∷ cs) last req
  unfolding failover
  set_model-failover c cs last req e = rw (e, failover, set_model_idem)

  -- A request that names no model asks every provider of the loop for the first candidate's
  -- model, where that candidate is registered: a property that the services and the calls with
  -- that model keep is kept by the loop.
  pub failover_pins_model :
      (P : W → Type 0) (c : Candidate) (cs : List Candidate) (req : UnifiedRequest) {p : Provider W}
      → KeepsServices keys ranker host registry user_id P
      → KeepsDispatch keys ranker host registry user_id P input_mod output_mod
          (λ _. true)
          (λ r. r.model ≡ some c.model)
      → get_provider registry c.provider ≡ some p
      → truthy req.model ≡ false
      → truthy (some c.model) ≡ true
      → Keeps P (failover registry keys ranker host user_id input_mod output_mod (c ∷ cs) none req)
  failover_pins_model P c cs req s d e fresh named w h =
      subst (λ m. P (m w).1) (set_model-failover c cs none req e)
        (failover-Keeps keys ranker host registry user_id P input_mod output_mod (λ _. true)
          (λ r. r.model ≡ some c.model) s d (λ r m q. set_model-keeps r c.model m q named) (c ∷ cs)
          none (set_model req c.model) (All-trivial (c ∷ cs)) (set_model-fresh req c.model fresh) w
          h)

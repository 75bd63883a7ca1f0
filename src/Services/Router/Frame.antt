-- ===== src/Services/Router/Frame.antt =====
-- What a routed request can touch: a property of the world that the permitted calls keep is kept
-- by the whole of `route`.
use ultimate_assistant_ai_ga.Base.{
  ℕ, ◌≡◌, String, Bool, true, Option, some, List, [], ◌∷◌, inl, inr, Option-cases, ◌-◌, ◌/◌,
}
use ultimate_assistant_ai_ga.Base.Lists.{All}
use ultimate_assistant_ai_ga.Base.Action.{
  Exc, Result, ok, err, Action, Keeps, >>=-Keeps, pure, ◌>>◌,
}
use ultimate_assistant_ai_ga.Schemas.{UnifiedRequest, RouteResult}
use ultimate_assistant_ai_ga.Providers.Capabilities.{Candidate}
use ultimate_assistant_ai_ga.Providers.Interface.{Provider}
use ultimate_assistant_ai_ga.Providers.Registry.{ProviderRegistry, get_provider}
use ultimate_assistant_ai_ga.Services.Interfaces.{KeyStore, Ranker, Host}
use ultimate_assistant_ai_ga.Services.Router.{
  dispatch, set_model, stamp, Attempt, success, failure, ranked, tell_success, tell_failure, finish,
  give_up, settle, attempt, failover, next_round,
}

module _ {W : Type 0} (keys : KeyStore W) (ranker : Option (Ranker W)) (host : Host W)
    (registry : ProviderRegistry W) (user_id : ℕ) (P : W → Type 0) where
  -- The key store, the ranker and the host keep `P`.
  pub record KeepsServices : Type 0 where
    pub list_keys : Keeps P (keys.get_user_providers user_id)
    pub decrypt : (name : String) → Keeps P (keys.get_decrypted_key user_id name)
    pub count : (c : Candidate) (s : String) (w : W) → P w → P (host.count_request c s w)
    pub observe : (c : Candidate) (ms : ℕ) (w : W) → P w → P (host.observe_latency c ms w)
    pub ranking : (cs : List Candidate) → Keeps P (ranked ranker cs)
    pub succeeded : (c : Candidate) (ms : ℕ) → Keeps P (tell_success ranker c ms)
    pub failed : (c : Candidate) → Keeps P (tell_failure ranker c)

  module _ (input_mod output_mod : String) (allowed : String → Bool)
      (Q : UnifiedRequest → Type 0) where
    -- A call of an allowed provider with a request in `Q` keeps `P`.
    abbrev pub KeepsDispatch : Type 0
    KeepsDispatch =
        (name : String) (p : Provider W) (req : UnifiedRequest) (api_key : String)
        → allowed name ≡ true
        → get_provider registry name ≡ some p
        → Q req
        → Keeps P (dispatch input_mod output_mod p req api_key)

    module _ (s : KeepsServices) (d : KeepsDispatch) where
      finish-Keeps :
          (c : Candidate) (start : ℕ) (r : RouteResult)
          → Keeps P (finish registry keys ranker host user_id input_mod output_mod c start r)
      unfolding finish
      finish-Keeps c start r w h =
          let ms = (host.monotonic w - start) / 1000 in
          let tail = tell_success ranker c ms >> pure (stamp c ms r) in
          >>=-Keeps P (tell_success ranker c ms) (λ _. pure (stamp c ms r)) (s.succeeded c ms)
            (λ _ w' h'. h') (host.observe_latency c ms (host.count_request c "success" w))
            (s.observe c ms _ (s.count c "success" w h))

      settle-Keeps :
          (c : Candidate) (r : Result RouteResult)
          → Keeps P (settle registry keys ranker host user_id input_mod output_mod c r)
      unfolding give_up
      settle-Keeps c (ok r) w h = h
      settle-Keeps c (err e) w h =
          >>=-Keeps P (tell_failure ranker c) (λ _. pure (failure e)) (s.failed c) (λ _ w' h'. h')
            (host.count_request c "error" w) (s.count c "error" w h)

      attempt-Keeps :
          (c : Candidate) (p : Provider W) (req : UnifiedRequest) (api_key : String)
          → allowed c.provider ≡ true
          → get_provider registry c.provider ≡ some p
          → Q req
          → Keeps P (attempt registry keys ranker host user_id input_mod output_mod c p req api_key)
      unfolding attempt
      attempt-Keeps c p req api_key a e q w h = settle-Keeps c _ _ (
          >>=-Keeps P (dispatch input_mod output_mod p req api_key) _
            (d c.provider p req api_key a e q) (finish-Keeps c (host.monotonic w)) w h)

      next_round-Keeps :
          (outcome : Attempt) (continue : Exc → Action W RouteResult)
          → ((e : Exc) → Keeps P (continue e))
          → Keeps P (next_round outcome continue)
      next_round-Keeps (success r) continue k w h = h
      next_round-Keeps (failure e) continue k w h = k e w h

      module _ (closed : (req : UnifiedRequest) (m : String) → Q req → Q (set_model req m)) where
        -- The loop over allowed candidates keeps `P`.
        pub failover-Keeps :
            (cs : List Candidate) (last : Option Exc) (req : UnifiedRequest)
            → All (λ c. allowed c.provider ≡ true) cs
            → Q req
            → Keeps P (failover registry keys ranker host user_id input_mod output_mod cs last req)
        unfolding failover
        failover-Keeps [] last req a q w h = h
        failover-Keeps (c ∷ cs) last req a q w h =
            let req' = set_model req c.model in
            let q' : Q req' = closed req c.model q in
            elim (Option-cases (get_provider registry c.provider)) [
              | inl e ↦ rw (e, failover) (failover-Keeps cs last req a.1 q w h)
              | inr (p, e) ↦
                  rw (e, failover)
                    (>>=-Keeps P (keys.get_decrypted_key user_id c.provider) _
                      (s.decrypt c.provider)
                      (λ api_key.
                        >>=-Keeps P _ _ (attempt-Keeps c p req' api_key a.0 e q') (λ outcome.
                          next_round-Keeps outcome _ (λ x. failover-Keeps cs (some x) req' a.1 q')))
                      w h)
            ]

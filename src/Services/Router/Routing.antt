-- ===== src/Services/Router/Routing.antt =====
-- The theorems of `route` as a whole: what it refuses and with what, whom it calls, and when it
-- answers.
use ultimate_assistant_ai_ga.Base.{
  ℕ, ◌≡◌, String, Bool, true, Option, none, some, List, [], ◌∷◌, is_nil,
}
use ultimate_assistant_ai_ga.Base.Lists.{All}
use ultimate_assistant_ai_ga.Base.Text.{contains}
use ultimate_assistant_ai_ga.Base.Action.{
  ok, err, Keeps, >>=-Keeps, >>=-Keeps_post, raise_if, raise_if-Keeps, capability_not_supported,
}
use ultimate_assistant_ai_ga.Schemas.{UnifiedRequest}
use ultimate_assistant_ai_ga.Providers.Capabilities.{Candidate}
use ultimate_assistant_ai_ga.Providers.Registry.{ProviderRegistry, get_capable_providers}
use ultimate_assistant_ai_ga.Services.Interfaces.{KeyStore, Ranker, RankerLaws, Host}
use ultimate_assistant_ai_ga.Services.Router.{
  with_keys, select, route, from_result, prefer_model, prefer_provider, key_missing,
}
use ultimate_assistant_ai_ga.Services.Router.Frame.{KeepsServices, KeepsDispatch, failover-Keeps}
use ultimate_assistant_ai_ga.Services.Router.Selection.{select-All}

All-units : (cs : List Candidate) → All (λ c. Unit {0}) cs
All-units [] = tt
All-units (c ∷ cs) = (tt, All-units cs)

module _ {W : Type 0} (registry : ProviderRegistry W) (keys : KeyStore W)
    (ranker : Option (Ranker W)) (host : Host W) (user_id : ℕ) (input_mod output_mod : String)
    (req : UnifiedRequest) (pp pm : Option String) where
  -- With no capable provider `route` raises CapabilityNotSupported and does nothing.
  pub route-unsupported :
      (w : W)
      → get_capable_providers registry input_mod output_mod ≡ ok []
      → route registry keys ranker host user_id input_mod output_mod req pp pm w
        ≡ (err (capability_not_supported input_mod output_mod), w)
  unfolding route
  route-unsupported w e = rw e

  -- With capable providers, but a key for none of them, `route` raises ProviderKeyMissing with the
  -- capable providers' names, and has only listed the user's keys.
  pub route-no_key :
      (c : Candidate) (cs : List Candidate) (ups : List String) (w w' : W)
      → get_capable_providers registry input_mod output_mod ≡ ok (c ∷ cs)
      → keys.get_user_providers user_id w ≡ (ok ups, w')
      → with_keys ups (c ∷ cs) ≡ []
      → route registry keys ranker host user_id input_mod output_mod req pp pm w
        ≡ (err (key_missing registry keys ranker host user_id input_mod output_mod (c ∷ cs)), w')
  unfolding route
  route-no_key c cs ups w w' e k n = rw (e, route, k, n)

  module _ (P : W → Type 0) (allowed : String → Bool)
      (s : KeepsServices keys ranker host registry user_id P)
      (d : KeepsDispatch keys ranker host registry user_id P input_mod output_mod allowed
        (λ _. Unit {0}))
      (laws : (r : Ranker W) → ranker ≡ some r → RankerLaws r)
      (owned : (w : W) (l : List String)
        → (keys.get_user_providers user_id w).0 ≡ ok l
        → (name : String) → contains name l ≡ true
        → allowed name ≡ true) where
    select-Keeps :
        (capable : List Candidate)
        → Keeps P (select registry keys ranker host user_id input_mod output_mod capable pp pm)
    unfolding select
    select-Keeps capable = >>=-Keeps P (keys.get_user_providers user_id) _ s.list_keys (λ ups.
        >>=-Keeps P (raise_if (is_nil (with_keys ups capable)) _) _ (raise_if-Keeps P _ _)
          (λ _. s.ranking (prefer_model pm (prefer_provider pp (with_keys ups capable)))))

    allowed_of :
        (ups : List String) (cs : List Candidate)
        → ((name : String) → contains name ups ≡ true → allowed name ≡ true)
        → All (λ c. Unit {0} × (contains c.provider ups ≡ true)) cs
        → All (λ c. allowed c.provider ≡ true) cs
    allowed_of ups [] k h = tt
    allowed_of ups (c ∷ cs) k h = (k c.provider h.0.1, allowed_of ups cs k h.1)

    -- `route` calls only providers that the user has a key for: a property of the world that the
    -- key store, the ranker and the host keep, and that the calls of allowed providers keep, is
    -- kept by `route`, where every provider of the user's keys is allowed and the ranker hands
    -- back what it is given.
    pub route-Keeps :
        Keeps P (route registry keys ranker host user_id input_mod output_mod req pp pm)
    unfolding route
    route-Keeps =
        >>=-Keeps P (from_result (get_capable_providers registry input_mod output_mod)) _ (λ w h. h)
          (λ capable. >>=-Keeps P (raise_if (is_nil capable) _) _ (raise_if-Keeps P _ _) (λ _.
            >>=-Keeps_post P (All (λ c. allowed c.provider ≡ true))
              (select registry keys ranker host user_id input_mod output_mod capable pp pm) _
              (select-Keeps capable)
              (λ w cs e.
                let (ups, listed, all) =
                  select-All registry keys ranker host laws user_id input_mod output_mod
                    (λ _. Unit {0}) capable cs pp pm w (All-units capable) e in
                allowed_of ups cs (owned w ups listed) all)
              (λ cs a.
                failover-Keeps keys ranker host registry user_id P input_mod output_mod allowed
                  (λ _. Unit {0}) s d (λ _ _ q. q) cs none req a tt)))

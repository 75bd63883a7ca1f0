-- ===== src/Services/Router/Selection.antt =====
-- Steps 2 to 4 of `route`: who may serve a request.
use ultimate_assistant_ai_ga.Base.{
  ℕ, ◌≡◌, refl, subst, String, true, false, Option, none, some, List, [], ◌∷◌, arith, inl, inr,
  keep, is_nil, same, ltb, length, Bool-cases,
}
use ultimate_assistant_ai_ga.Base.Lists.{All, All-keep}
use ultimate_assistant_ai_ga.Base.Text.{contains, truthy}
use ultimate_assistant_ai_ga.Base.Action.{ok, ok-injective, >>=-eq-ok, raise_if}
use ultimate_assistant_ai_ga.Providers.Capabilities.{Candidate}
use ultimate_assistant_ai_ga.Providers.Registry.{ProviderRegistry}
use ultimate_assistant_ai_ga.Services.Interfaces.{KeyStore, Ranker, RankerLaws, Host}
use ultimate_assistant_ai_ga.Services.Router.{
  prefer_provider, prefer_model, with_keys, ranked, select,
}

-- A preference narrows the list, or is dropped when nothing fits it.
pub prefer_provider-All :
    (Q : Candidate → Type 0) (p : Option String) (cs : List Candidate)
    → All Q cs
    → All Q (prefer_provider p cs)
unfolding prefer_provider
prefer_provider-All Q none cs h = h
prefer_provider-All Q (some name) cs h =
    ground (arith, All-keep Q (λ (c : Candidate). same c.provider name) cs h)

pub prefer_model-All :
    (Q : Candidate → Type 0) (p : Option String) (cs : List Candidate)
    → All Q cs
    → All Q (prefer_model p cs)
unfolding prefer_model
prefer_model-All Q none cs h = h
prefer_model-All Q (some name) cs h =
    ground (arith, All-keep Q (λ (c : Candidate). same c.model name) cs h)

pub with_keys-All :
    (Q : Candidate → Type 0) (ups : List String) (cs : List Candidate)
    → All Q cs
    → All (λ c. Q c × (contains c.provider ups ≡ true)) (with_keys ups cs)
unfolding with_keys
with_keys-All Q ups [] h = tt
with_keys-All Q ups (c ∷ cs) h = ground (arith, with_keys-All Q ups cs h.1)

-- A preference for a provider that can serve is honoured: nobody else is left.
pub prefer_provider-honoured :
    (name : String) (cs : List Candidate)
    → truthy (some name) ≡ true
    → is_nil (keep (λ c. same c.provider name) cs) ≡ false
    → All (λ c. c.provider ≡ name) (prefer_provider (some name) cs)
unfolding prefer_provider
prefer_provider-honoured name cs t n = rw (t, n) (only cs)
  where
    only : (l : List Candidate) → All (λ c. c.provider ≡ name) (keep (λ c. same c.provider name) l)
    only [] = tt
    only (c ∷ l) = ground (arith, only l)

ranked-All :
    {W : Type 0} (ranker : Option (Ranker W))
    → ((r : Ranker W) → ranker ≡ some r → RankerLaws r)
    → (Q : Candidate → Type 0) (cs cs' : List Candidate) (w : W) → All Q cs
    → (ranked ranker cs w).0 ≡ ok cs'
    → All Q cs'
ranked-All none laws Q cs cs' w a e = ground arith
ranked-All (some r) laws Q cs cs' w a e = elim (Bool-cases (ltb 1 (length cs))) [
  | inl many ↦ (laws r refl).rank-All Q cs cs' w a (rw many at e)
  | inr few ↦ subst (All Q) (ok-injective (rw few at e)) a
]

module _ {W : Type 0} (registry : ProviderRegistry W) (keys : KeyStore W)
    (ranker : Option (Ranker W)) (host : Host W)
    (laws : (r : Ranker W) → ranker ≡ some r → RankerLaws r) where
  module _ (user_id : ℕ) (input_mod output_mod : String) where
    -- Where the ranker hands back what it is given, whoever is selected is capable, and belongs
    -- to a provider that the user has a key for.
    pub select-All :
        (Q : Candidate → Type 0) (capable cs : List Candidate) (pp pm : Option String) (w : W)
        → All Q capable
        → (select registry keys ranker host user_id input_mod output_mod capable pp pm w).0 ≡ ok cs
        → (ups : List String) × ((keys.get_user_providers user_id w).0 ≡ ok ups)
          × All (λ c. Q c × (contains c.provider ups ≡ true)) cs
    unfolding select
    select-All Q capable cs pp pm w h e =
        let (ups, listed, e') = >>=-eq-ok (keys.get_user_providers user_id) _ w e in
        let available = with_keys ups capable in
        let R : Candidate → Type 0 = λ c. Q c × (contains c.provider ups ≡ true) in
        let (u, passed, e'') = >>=-eq-ok (raise_if (is_nil available) _) _ _ e' in
        (
          ups,
          listed,
          ranked-All ranker laws R (prefer_model pm (prefer_provider pp available)) cs _
              (prefer_model-All R pm _ (prefer_provider-All R pp _ (with_keys-All Q ups capable h)))
              e'',
        )

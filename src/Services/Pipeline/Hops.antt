-- ===== src/Services/Pipeline/Hops.antt =====
-- A pipeline as a chain of routed hops.
use ultimate_assistant_ai_ga.Base.{
  ℕ, ◌≡◌, ◌≢◌, String, Bool, true, Option, none, some, List, [], ◌∷◌, is_nil, ◌⊎◌, inl, inr,
  Bool-cases,
}
use ultimate_assistant_ai_ga.Base.Action.{Result, ok, err, Exc, Action, Keeps, >>=-Keeps}
use ultimate_assistant_ai_ga.Base.Text.{contains}
use ultimate_assistant_ai_ga.Schemas.{RouteResult, unified, media, blank_request}
use ultimate_assistant_ai_ga.Providers.Registry.{ProviderRegistry, get_capable_providers}
use ultimate_assistant_ai_ga.Services.Interfaces.{KeyStore, Ranker, RankerLaws, Host}
use ultimate_assistant_ai_ga.Services.Router.{from_result, route}
use ultimate_assistant_ai_ga.Services.Router.Frame.{KeepsServices, KeepsDispatch}
use ultimate_assistant_ai_ga.Services.Router.Routing.{route-Keeps}
use ultimate_assistant_ai_ga.Services.Pipeline.{
  Hop, pipeline_routes, steps_of, next_data, hop, run_hops, run_steps, execute,
}

-- What a hop hands on: the text or the address of its answer, or what it got, if that is missing or empty.
abbrev pub Handed : String → RouteResult → String → Type 0
Handed current (unified r) next =
    ((r.content ≡ some next) × (next ≢ ""))
    ⊎ (((r.content ≡ none) ⊎ (r.content ≡ some "")) × (next ≡ current))
Handed current (media r) next =
    ((r.file_url ≡ next) × (next ≢ "")) ⊎ ((r.file_url ≡ "") × (next ≡ current))

-- Hops that lead from one modality to another: each takes what the one before gives.
abbrev pub Linked : String → String → Hop → List Hop → Type 0
Linked i o (a, b) [] = (a ≡ i) × (b ≡ o)
Linked i o (a, b) (next ∷ rest) = (a ≡ i) × Linked b o next rest

abbrev AreLinked : String → String → List Hop → Type 0
AreLinked i o [] = Unit
AreLinked i o (first ∷ rest) = Linked i o first rest

module _ {W : Type 0} (registry : ProviderRegistry W) (keys : KeyStore W)
    (ranker : Option (Ranker W)) (host : Host W) (user_id : ℕ) (pp : Option String)
    (options : Option (List (String × String))) where
  -- a routed call of one hop, for the preferred provider and with the options
  abbrev pub routed : Hop → String → Action W RouteResult
  routed h current =
      route registry keys ranker host user_id h.0 h.1
        (record blank_request { prompt = some current; options = options }) pp none

  -- The hops run one after the other, each on what the one before handed on, and how the last one or the
  -- first that raises ends is how the chain ends.
  pub data Chain : Hop → List Hop → String → W → Result RouteResult → W → Type 0 where
    last :
        {h : Hop} {current : String} {w w' : W} {r : Result RouteResult}
        → routed h current w ≡ (r, w')
        → Chain h [] current w r w'
    stops :
        {h next : Hop} {rest : List Hop} {current : String} {w w' : W} {e : Exc}
        → routed h current w ≡ (err e, w')
        → Chain h (next ∷ rest) current w (err e) w'
    goes_on :
        {h next : Hop} {rest : List Hop} {current handed : String} {w w' w'' : W} {a : RouteResult}
        {r : Result RouteResult}
        → routed h current w ≡ (ok a, w')
        → Handed current a handed
        → Chain next rest handed w' r w''
        → Chain h (next ∷ rest) current w r w''

  module _ (P : W → Type 0) (allowed : String → Bool)
      (s : KeepsServices keys ranker host registry user_id P)
      (d : (i o : String)
        → KeepsDispatch keys ranker host registry user_id P i o allowed (λ _. Unit {0}))
      (laws : (r : Ranker W) → ranker ≡ some r → RankerLaws r)
      (owned : (w : W) (l : List String)
        → (keys.get_user_providers user_id w).0 ≡ ok l
        → (name : String) → contains name l ≡ true
        → allowed name ≡ true) where
    hop-Keeps :
        (i o current : String)
        → Keeps P (hop registry keys ranker host user_id pp options i o current)
    hop-Keeps i o current =
        route-Keeps registry keys ranker host user_id i o _ pp none P allowed s (d i o) laws owned

    run_hops-Keeps :
        (h : Hop) (rest : List Hop) (current : String)
        → Keeps P (run_hops registry keys ranker host user_id pp options h rest current)
    unfolding run_hops
    run_hops-Keeps (i, o) [] current = hop-Keeps i o current
    run_hops-Keeps (i, o) (next ∷ rest) current =
        >>=-Keeps P (hop registry keys ranker host user_id pp options i o current) _
          (hop-Keeps i o current) (λ a. run_hops-Keeps next rest (next_data current a))

    run_steps-Keeps :
        (i o : String) (steps : List Hop) (current : String)
        → Keeps P (run_steps registry keys ranker host user_id pp options i o steps current)
    run_steps-Keeps i o [] current w h = h
    run_steps-Keeps i o (first ∷ rest) current w h = run_hops-Keeps first rest current w h

    -- A pipeline, too, calls only providers that the user has a key for.
    pub execute-Keeps :
        (current i o : String)
        → Keeps P (execute registry keys ranker host user_id pp options current i o)
    unfolding execute
    execute-Keeps current i o =
        >>=-Keeps P (from_result (get_capable_providers registry i o)) _ (λ w h. h)
          (λ capable. elim (Bool-cases (is_nil capable)) [
            | inl no_one ↦ rw no_one (run_steps-Keeps i o (steps_of i o pipeline_routes) current)
            | inr someone ↦ rw someone (hop-Keeps i o current)
          ])

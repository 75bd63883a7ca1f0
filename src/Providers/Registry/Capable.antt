-- ===== src/Providers/Registry/Capable.antt =====
-- What the capability map answers, against a plain comprehension over the adapters.
use ultimate_assistant_ai_ga.Base.{
  ◌≡◌, refl, String, Bool, true, false, List, [], ◌∷◌, ◌++◌, arith, ite, inl, inr, ◌⊎◌, ◌≢◌, ap,
  sym, ◌∙◌,
}
use mathlib.Core.List.{append-nil, append_assoc}
use ultimate_assistant_ai_ga.Providers.Capabilities.{
  Modality-discrete, ModalityPair, Capabilities, CapabilityMap, Candidate, get_pair, ensure_pair,
  append_at, add_models, add_pairs, add_providers, build_capability_map,
}

abbrev pub entries : String → List String → List Candidate
entries name [] = []
entries name (model_id ∷ ids) = (record { provider = name; model = model_id }) ∷ entries name ids

-- the models of one advertised pair, if it is the pair asked for
abbrev pub matching : ModalityPair → ModalityPair → String → List String → List Candidate
matching k j name ids =
    ite (Modality-discrete j.0 k.0) (ite (Modality-discrete j.1 k.1) (entries name ids) []) []

-- `[(name, m) for pair, ms in caps.items() if pair == k for m in ms]`
abbrev pub of_adapter : ModalityPair → String → Capabilities → List Candidate
of_adapter k name [] = []
of_adapter k name ((j, ids) ∷ caps) = matching k j name ids ++ of_adapter k name caps

-- The same over every adapter, in the registry's order.
abbrev pub of_adapters : ModalityPair → List (String × Capabilities) → List Candidate
of_adapters k [] = []
of_adapters k ((name, caps) ∷ ps) = of_adapter k name caps ++ of_adapters k ps

abbrev has_pair : ModalityPair → CapabilityMap → Bool
has_pair k [] = false
has_pair k ((j, cs) ∷ m) =
    ite (Modality-discrete j.0 k.0) (ite (Modality-discrete j.1 k.1) true (has_pair k m))
      (has_pair k m)

pair_cases : (j k : ModalityPair) → (j ≡ k) ⊎ (j ≢ k)
pair_cases j k = elim (Modality-discrete j.0 k.0) [
  | yes p ↦ elim (Modality-discrete j.1 k.1) [
    | yes q ↦ inl (ground arith)
    | no q ↦ inr (λ e. q (ap (λ t. t.1) e))
  ]
  | no p ↦ inr (λ e. p (ap (λ t. t.0) e))
]

matching_ne :
    (k j : ModalityPair) (name : String) (ids : List String) → j ≢ k → matching k j name ids ≡ []
matching_ne k j name ids h = ground arith

get_pair-ensure_pair :
    (k j : ModalityPair) (m : CapabilityMap) → get_pair k (ensure_pair j m) ≡ get_pair k m
unfolding get_pair ensure_pair
get_pair-ensure_pair k j [] = ground arith
get_pair-ensure_pair k j (e ∷ m) = ground (arith, get_pair-ensure_pair k j m)

has_pair-ensure_pair : (k : ModalityPair) (m : CapabilityMap) → has_pair k (ensure_pair k m) ≡ true
unfolding ensure_pair
has_pair-ensure_pair k [] = ground arith
has_pair-ensure_pair k (e ∷ m) = ground (arith, has_pair-ensure_pair k m)

has_pair-append_at :
    (k : ModalityPair) (c : Candidate) (m : CapabilityMap)
    → has_pair k (append_at k c m) ≡ has_pair k m
unfolding append_at
has_pair-append_at k c [] = refl
has_pair-append_at k c (e ∷ m) = ground (arith, has_pair-append_at k c m)

get_pair-append_at_self :
    (k : ModalityPair) (c : Candidate) (m : CapabilityMap)
    → has_pair k m ≡ true
    → get_pair k (append_at k c m) ≡ get_pair k m ++ c ∷ []
unfolding get_pair append_at
get_pair-append_at_self k c [] h = ground arith
get_pair-append_at_self k c (e ∷ m) h = ground (arith, get_pair-append_at_self k c m)

get_pair-append_at_ne :
    (k j : ModalityPair) (c : Candidate) (m : CapabilityMap)
    → k ≢ j
    → get_pair k (append_at j c m) ≡ get_pair k m
unfolding get_pair append_at
get_pair-append_at_ne k j c [] h = refl
get_pair-append_at_ne k j c (e ∷ m) h = ground (arith, get_pair-append_at_ne k j c m)

get_pair-add_models_self :
    (k : ModalityPair) (name : String) (ids : List String) (m : CapabilityMap)
    → has_pair k m ≡ true
    → get_pair k (add_models name k ids m) ≡ get_pair k m ++ entries name ids
unfolding add_models
get_pair-add_models_self k name [] m h = sym (append-nil (get_pair k m))
get_pair-add_models_self k name (i ∷ ids) m h =
    let c : Candidate = record { provider = name; model = i } in
    get_pair-add_models_self k name ids (append_at k c m) (has_pair-append_at k c m ∙ h)
    ∙ rw (get_pair-append_at_self k c m h) (append_assoc (get_pair k m) (c ∷ []) (entries name ids))

get_pair-add_models_ne :
    (k j : ModalityPair) (name : String) (ids : List String) (m : CapabilityMap)
    → k ≢ j
    → get_pair k (add_models name j ids m) ≡ get_pair k m
unfolding add_models
get_pair-add_models_ne k j name [] m h = refl
get_pair-add_models_ne k j name (i ∷ ids) m h =
    let c : Candidate = record { provider = name; model = i } in
    get_pair-add_models_ne k j name ids (append_at j c m) h ∙ get_pair-append_at_ne k j c m h

get_pair-add_pair :
    (k j : ModalityPair) (name : String) (ids : List String) (m : CapabilityMap)
    → get_pair k (add_models name j ids (ensure_pair j m)) ≡ get_pair k m ++ matching k j name ids
get_pair-add_pair k j name ids m = elim (pair_cases j k) [
  | inl e ↦ rw e (
      get_pair-add_models_self k name ids (ensure_pair k m) (has_pair-ensure_pair k m)
      ∙ rw (get_pair-ensure_pair k k m) (ap (◌++◌ (get_pair k m)) (ground arith)))
  | inr n ↦
      get_pair-add_models_ne k j name ids (ensure_pair j m) (λ e. n (sym e))
      ∙ get_pair-ensure_pair k j m
      ∙ sym (ap (◌++◌ (get_pair k m)) (matching_ne k j name ids n) ∙ append-nil (get_pair k m))
]

get_pair-add_pairs :
    (k : ModalityPair) (name : String) (caps : Capabilities) (m : CapabilityMap)
    → get_pair k (add_pairs name caps m) ≡ get_pair k m ++ of_adapter k name caps
unfolding add_pairs
get_pair-add_pairs k name [] m = sym (append-nil (get_pair k m))
get_pair-add_pairs k name ((j, ids) ∷ caps) m =
    get_pair-add_pairs k name caps (add_models name j ids (ensure_pair j m))
    ∙ rw (get_pair-add_pair k j name ids m)
        (append_assoc (get_pair k m) (matching k j name ids) (of_adapter k name caps))

get_pair-add_providers :
    (k : ModalityPair) (ps : List (String × Capabilities)) (m : CapabilityMap)
    → get_pair k (add_providers ps m) ≡ get_pair k m ++ of_adapters k ps
unfolding add_providers
get_pair-add_providers k [] m = sym (append-nil (get_pair k m))
get_pair-add_providers k ((name, caps) ∷ ps) m =
    get_pair-add_providers k ps (add_pairs name caps m)
    ∙ rw (get_pair-add_pairs k name caps m)
        (append_assoc (get_pair k m) (of_adapter k name caps) (of_adapters k ps))

-- Looking a conversion up in the capability map gives exactly the models that the adapters
-- advertise for it: adapter by adapter in registration order, each adapter's in its own order.
pub get_pair-build_capability_map :
    (k : ModalityPair) (ps : List (String × Capabilities))
    → get_pair k (build_capability_map ps) ≡ of_adapters k ps
unfolding build_capability_map get_pair
get_pair-build_capability_map k ps = get_pair-add_providers k ps []

-- ===== src/Providers/Catalogue/Models.antt =====
-- `get_models` against `get_capabilities`.
use ultimate_assistant_ai_ga.Providers.Catalogue.{catalogue}
use ultimate_assistant_ai_ga.Base.{
  String, List, [], ◌∷◌, ◌≡◌, refl, map, keep, ite, if_neg, Bool, true, false, Bool-cases, ◌&&◌,
  same, str_dec, sym, subst, inl, inr,
}
use ultimate_assistant_ai_ga.Base.Lists.{All, Holds, every, every-All}
use ultimate_assistant_ai_ga.Base.Text.{contains}
use ultimate_assistant_ai_ga.Schemas.{ModelInfo}
use ultimate_assistant_ai_ga.Providers.Capabilities.{Modality-discrete, ModalityPair, Capabilities}
use ultimate_assistant_ai_ga.Providers.Pairs.{pair_text, value, all_pairs, every_pair}
use ultimate_assistant_ai_ga.Providers.Adapter.{Adapter}

-- what holds of all of a list holds of what it holds
pub All-Holds : {A : Type 0} (P : A → Type 0) (a : A) (l : List A) → All P l → Holds a l → P a
All-Holds P a [] h m = elim m [ ]
All-Holds P a (x ∷ l) h (inl e) = subst P (sym e) h.0
All-Holds P a (x ∷ l) h (inr m) = All-Holds P a l h.1 m

-- the models advertised for a pair
unfoldable pub models_of : ModalityPair → Capabilities → List String
models_of k [] = []
models_of k ((j, ids) ∷ caps) =
    ite (Modality-discrete j.0 k.0) (ite (Modality-discrete j.1 k.1) ids (models_of k caps))
      (models_of k caps)

-- the models that list a pair among their modalities
unfoldable pub models_listing : String → List ModelInfo → List String
models_listing s ms = map (λ m. m.id) (keep (λ (m : ModelInfo). contains s m.modalities) ms)

abbrev same_list : List String → List String → Bool
same_list [] [] = true
same_list (s ∷ ss) (t ∷ ts) = same s t && same_list ss ts
same_list _ _ = false

same-≡ : (s t : String) → same s t ≡ true → s ≡ t
same-≡ s t h = elim (str_dec s t) [
  | yes e ↦ e
  | no n ↦ let x : false ≡ true = rw (if_neg (str_dec s t) n) at h in cc
]

same_list-≡ : (ss ts : List String) → same_list ss ts ≡ true → ss ≡ ts
same_list-≡ [] [] h = refl
same_list-≡ [] (t ∷ ts) h = cc
same_list-≡ (s ∷ ss) [] h = cc
same_list-≡ (s ∷ ss) (t ∷ ts) h = elim (Bool-cases (same s t)) [
  | inl e ↦ let a = same-≡ s t e in let b = same_list-≡ ss ts (rw e at h) in cc
  | inr e ↦ let x : false ≡ true = rw e at h in cc
]

abbrev agrees_at : Adapter → ModalityPair → Bool
agrees_at a k = same_list (models_of k a.capabilities) (models_listing (pair_text k) a.models)

abbrev agrees : Adapter → Bool
agrees a = every (agrees_at a) all_pairs

catalogue-agrees : every agrees catalogue ≡ true
unfolding models_of models_listing pair_text value Modality-discrete str_dec
catalogue-agrees = refl

-- Every adapter lists exactly the models that it advertises: for every pair of modalities, the models that
-- `get_capabilities` gives are those whose `ModelInfo` names the pair, in the same order, so that a pair that is
-- not advertised is named by no model.
pub catalogue_models :
    (a : Adapter) (k : ModalityPair)
    → Holds a catalogue
    → models_of k a.capabilities ≡ models_listing (pair_text k) a.models
catalogue_models a k held =
    let here : agrees a ≡ true =
      All-Holds (λ b. agrees b ≡ true) a catalogue (every-All agrees catalogue catalogue-agrees)
        held in
    same_list-≡ (models_of k a.capabilities) (models_listing (pair_text k) a.models)
      (every_pair (λ j. agrees_at a j ≡ true) (every-All (agrees_at a) all_pairs here) k)

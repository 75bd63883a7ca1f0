-- ===== src/Providers/Capabilities.antt =====
-- app/providers/capabilities.py: the modalities, and the capability map that the registry builds
-- from what the adapters advertise. A dict is an association list in insertion order.
use ultimate_assistant_ai_ga.Base.{
  String, Bool, true, false, Option, none, some, List, [], ◌∷◌, ◌++◌, ite, str_dec,
}

pub data Modality : Type 0 where
  text image audio video vector : Modality

unfoldable pub Modality-discrete : Discrete Modality
Modality-discrete = hlevel

-- `Modality(value)`; `none` is its ValueError.
unfoldable pub parse_modality : String → Option Modality
parse_modality s = ite (str_dec s "text") (some text) (
    ite (str_dec s "image") (some image) (
      ite (str_dec s "audio") (some audio)
        (ite (str_dec s "video") (some video) (ite (str_dec s "vector") (some vector) none))))

abbrev pub ModalityPair : Type 0
ModalityPair = Modality × Modality

abbrev pub same_pair : ModalityPair → ModalityPair → Bool
same_pair (a, b) (c, d) = ite (Modality-discrete a c) (ite (Modality-discrete b d) true false) false

-- (provider_name, model_id)
pub record Candidate : Type 0 where
  pub provider : String
  pub model : String

abbrev pub CapabilityMap : Type 0
CapabilityMap = List (ModalityPair × List Candidate)

-- What one adapter's `get_capabilities` returns.
abbrev pub Capabilities : Type 0
Capabilities = List (ModalityPair × List String)

-- `cap_map.get(pair, [])`
unfoldable pub get_pair : ModalityPair → CapabilityMap → List Candidate
get_pair k [] = []
get_pair k ((j, cs) ∷ m) =
    ite (Modality-discrete j.0 k.0) (ite (Modality-discrete j.1 k.1) cs (get_pair k m))
      (get_pair k m)

-- `if pair not in cap_map: cap_map[pair] = []`
unfoldable pub ensure_pair : ModalityPair → CapabilityMap → CapabilityMap
ensure_pair k [] = (k, []) ∷ []
ensure_pair k ((j, cs) ∷ m) =
    ite (Modality-discrete j.0 k.0)
      (ite (Modality-discrete j.1 k.1) ((j, cs) ∷ m) ((j, cs) ∷ ensure_pair k m))
      ((j, cs) ∷ ensure_pair k m)

-- `cap_map[pair].append(entry)`, at a pair that is present
unfoldable pub append_at : ModalityPair → Candidate → CapabilityMap → CapabilityMap
append_at k c [] = []
append_at k c ((j, cs) ∷ m) =
    ite (Modality-discrete j.0 k.0)
      (ite (Modality-discrete j.1 k.1) ((j, cs ++ c ∷ []) ∷ m) ((j, cs) ∷ append_at k c m))
      ((j, cs) ∷ append_at k c m)

-- The innermost loop, over the models of one pair.
unfoldable pub add_models : String → ModalityPair → List String → CapabilityMap → CapabilityMap
add_models name k [] m = m
add_models name k (model_id ∷ ids) m =
    add_models name k ids (append_at k (record { provider = name; model = model_id }) m)

-- The loop over the pairs of one adapter.
unfoldable pub add_pairs : String → Capabilities → CapabilityMap → CapabilityMap
unfolding add_models ensure_pair
add_pairs name [] m = m
add_pairs name ((k, ids) ∷ caps) m = add_pairs name caps (add_models name k ids (ensure_pair k m))

-- The loop over the adapters, by their names and capabilities.
unfoldable pub add_providers : List (String × Capabilities) → CapabilityMap → CapabilityMap
unfolding add_pairs
add_providers [] m = m
add_providers ((name, caps) ∷ ps) m = add_providers ps (add_pairs name caps m)

unfoldable pub build_capability_map : List (String × Capabilities) → CapabilityMap
unfolding add_providers
build_capability_map ps = add_providers ps []

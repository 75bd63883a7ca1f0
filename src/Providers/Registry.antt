-- ===== src/Providers/Registry.antt =====
-- app/providers/registry.py: `ProviderRegistry`. The adapter classes that `discover_adapters`
-- finds by scanning the package are a parameter, in its order; a class is the function that makes
-- the adapter from its client, under the class's name.
pub mod Capable
use ultimate_assistant_ai_ga.Base.{String, Option, none, some, List, [], ◌∷◌, map, ite, str_dec}
use ultimate_assistant_ai_ga.Base.Text.{concat}
use ultimate_assistant_ai_ga.Base.Action.{Result, ok, err, value_error}
use ultimate_assistant_ai_ga.Providers.Capabilities.{
  Modality, Capabilities, CapabilityMap, Candidate, parse_modality, get_pair, build_capability_map,
}
use ultimate_assistant_ai_ga.Providers.Interface.{Provider}
use ultimate_assistant_ai_ga.Providers.ClientPool.{ClientPool, get}

pub record AdapterClass (W : Type 0) : Type 0 where
  pub name : String
  pub construct : String → Result (Provider W)

pub record ProviderRegistry (W : Type 0) : Type 0 where
  pub client_pool : ClientPool
  pub providers : List (String × Provider W)
  pub capability_map : CapabilityMap

abbrev pub bad_modality : {A : Type 0} → String → Result A
bad_modality s = err (value_error (concat ("'" ∷ s ∷ "' is not a valid Modality" ∷ [])))

abbrev lookup_parsed :
    String → String → Option Modality → Option Modality → CapabilityMap → Result (List Candidate)
lookup_parsed input_mod output_mod none o m = bad_modality input_mod
lookup_parsed input_mod output_mod (some i) none m = bad_modality output_mod
lookup_parsed input_mod output_mod (some i) (some o) m = ok (get_pair (i, o) m)

module _ {W : Type 0} where
  -- `self.providers[name] = adapter`
  unfoldable pub set_provider :
      String → Provider W → List (String × Provider W) → List (String × Provider W)
  set_provider k p [] = (k, p) ∷ []
  set_provider k p ((j, q) ∷ ps) = ite (str_dec j k) ((k, p) ∷ ps) ((j, q) ∷ set_provider k p ps)

  -- `self.providers.get(name)`
  unfoldable pub find_provider : String → List (String × Provider W) → Option (Provider W)
  find_provider k [] = none
  find_provider k ((j, q) ∷ ps) = ite (str_dec j k) (some q) (find_provider k ps)

  abbrev construct_with : AdapterClass W → Result String → Result (Provider W)
  construct_with cls (ok client) = cls.construct client
  construct_with cls (err e) = err e

  -- one round of the loop of `load_all`: a class that raises is left out
  abbrev load_result : Result (Provider W) → List (String × Provider W) → List (String × Provider W)
  load_result (ok adapter) ps = set_provider adapter.name adapter ps
  load_result (err e) ps = ps

  unfoldable pub load_classes :
      ClientPool → List (AdapterClass W) → List (String × Provider W) → List (String × Provider W)
  load_classes pool [] ps = ps
  load_classes pool (cls ∷ classes) ps =
      load_classes pool classes (load_result (construct_with cls (get pool cls.name)) ps)

  abbrev pub advertised : List (String × Provider W) → List (String × Capabilities)
  advertised = map (λ e. (e.0, e.1.capabilities))

  unfoldable pub init : ClientPool → ProviderRegistry W
  init pool = record { client_pool = pool; providers = []; capability_map = [] }

  unfoldable pub load_all : List (AdapterClass W) → ProviderRegistry W → ProviderRegistry W
  unfolding load_classes
  load_all classes r =
      let ps = load_classes r.client_pool classes r.providers in
      record r { providers = ps; capability_map = build_capability_map (advertised ps) }

  unfoldable pub get_provider : ProviderRegistry W → String → Option (Provider W)
  get_provider r name = find_provider name r.providers

  unfoldable pub get_capable_providers :
      ProviderRegistry W → String → String → Result (List Candidate)
  get_capable_providers r input_mod output_mod =
      lookup_parsed input_mod output_mod (parse_modality input_mod) (parse_modality output_mod)
        r.capability_map

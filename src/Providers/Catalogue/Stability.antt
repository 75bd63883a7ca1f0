-- ===== src/Providers/Catalogue/Stability.antt =====
-- app/providers/stability/adapter.py: the class `StabilityAdapter` with its protocols, `get_capabilities` and `get_models`.
use ultimate_assistant_ai_ga.Base.{none, List, [], ◌∷◌}
use ultimate_assistant_ai_ga.Schemas.{ModelInfo, model_info}
use ultimate_assistant_ai_ga.Providers.Capabilities.{text, image, Capabilities}
use ultimate_assistant_ai_ga.Providers.Adapter.{Adapter, image_gen_capable}

abbrev pub stability_capabilities : Capabilities
stability_capabilities = ((text, image), "sd3.5-large" ∷ "sd3.5-medium" ∷ "sd3-turbo" ∷ []) ∷ []

abbrev pub stability_models : List ModelInfo
stability_models =
    model_info "sd3.5-large" "Stable Diffusion 3.5 Large" "stability" ("text→image" ∷ []) none none
    ∷ model_info "sd3.5-medium" "Stable Diffusion 3.5 Medium" "stability" ("text→image" ∷ []) none
        none
    ∷ model_info "sd3-turbo" "Stable Diffusion 3 Turbo" "stability" ("text→image" ∷ []) none none
    ∷ []

abbrev pub stability_adapter : Adapter
stability_adapter = record {
  name = "stability";
  base_url = "https://api.stability.ai";
  protocols = image_gen_capable ∷ [];
  capabilities = stability_capabilities;
  models = stability_models;
}

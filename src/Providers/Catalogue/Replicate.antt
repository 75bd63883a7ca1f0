-- ===== src/Providers/Catalogue/Replicate.antt =====
-- app/providers/replicate/adapter.py: the class `ReplicateAdapter` with its protocols, `get_capabilities` and `get_models`.
use ultimate_assistant_ai_ga.Base.{none, List, [], ◌∷◌}
use ultimate_assistant_ai_ga.Schemas.{ModelInfo, model_info}
use ultimate_assistant_ai_ga.Providers.Capabilities.{text, image, video, Capabilities}
use ultimate_assistant_ai_ga.Providers.Adapter.{Adapter, image_gen_capable, video_gen_capable}

abbrev pub replicate_capabilities : Capabilities
replicate_capabilities =
    (
      (text, image),
      "black-forest-labs/flux-1.1-pro" ∷ "black-forest-labs/flux-schnell" ∷ "stability-ai/sdxl"
          ∷ [],
    )
    ∷ ((text, video), "minimax/video-01-live" ∷ [])
    ∷ ((image, video), "minimax/video-01-live" ∷ [])
    ∷ []

abbrev pub replicate_models : List ModelInfo
replicate_models =
    model_info "black-forest-labs/flux-1.1-pro" "Flux 1.1 Pro" "replicate" ("text→image" ∷ []) none
      none
    ∷ model_info "black-forest-labs/flux-schnell" "Flux Schnell" "replicate" ("text→image" ∷ [])
        none none
    ∷ model_info "stability-ai/sdxl" "SDXL" "replicate" ("text→image" ∷ []) none none
    ∷ model_info "minimax/video-01-live" "MiniMax Video-01" "replicate"
        ("text→video" ∷ "image→video" ∷ []) none none
    ∷ []

abbrev pub replicate_adapter : Adapter
replicate_adapter = record {
  name = "replicate";
  base_url = "https://api.replicate.com";
  protocols = image_gen_capable ∷ video_gen_capable ∷ [];
  capabilities = replicate_capabilities;
  models = replicate_models;
}

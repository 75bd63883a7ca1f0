-- ===== src/Providers/Catalogue/Fal.antt =====
-- app/providers/fal/adapter.py: the class `FalAdapter` with its protocols, `get_capabilities` and `get_models`.
use ultimate_assistant_ai_ga.Base.{none, List, [], ◌∷◌}
use ultimate_assistant_ai_ga.Schemas.{ModelInfo, model_info}
use ultimate_assistant_ai_ga.Providers.Capabilities.{text, image, video, Capabilities}
use ultimate_assistant_ai_ga.Providers.Adapter.{Adapter, image_gen_capable, video_gen_capable}

abbrev pub fal_capabilities : Capabilities
fal_capabilities =
    ((text, image), "fal-ai/flux/dev" ∷ "fal-ai/flux-realism" ∷ "fal-ai/recraft-v3" ∷ [])
    ∷ ((text, video), "fal-ai/kling-video/v2/master/text-to-video" ∷ [])
    ∷ ((image, video), "fal-ai/kling-video/v2/master/image-to-video" ∷ [])
    ∷ []

abbrev pub fal_models : List ModelInfo
fal_models =
    model_info "fal-ai/flux/dev" "Flux Dev" "fal" ("text→image" ∷ []) none none
    ∷ model_info "fal-ai/flux-realism" "Flux Realism" "fal" ("text→image" ∷ []) none none
    ∷ model_info "fal-ai/recraft-v3" "Recraft V3" "fal" ("text→image" ∷ []) none none
    ∷ model_info "fal-ai/kling-video/v2/master/text-to-video" "Kling Video V2 (txt2vid)" "fal"
        ("text→video" ∷ []) none none
    ∷ model_info "fal-ai/kling-video/v2/master/image-to-video" "Kling Video V2 (img2vid)" "fal"
        ("image→video" ∷ []) none none
    ∷ []

abbrev pub fal_adapter : Adapter
fal_adapter = record {
  name = "fal";
  base_url = "https://fal.run";
  protocols = image_gen_capable ∷ video_gen_capable ∷ [];
  capabilities = fal_capabilities;
  models = fal_models;
}

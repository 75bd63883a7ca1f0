-- ===== src/Providers/Catalogue/Xai.antt =====
-- app/providers/xai/adapter.py: the class `XAIAdapter` with its protocols, `get_capabilities` and `get_models`.
use ultimate_assistant_ai_ga.Base.{some, List, [], ◌∷◌}
use ultimate_assistant_ai_ga.Schemas.{ModelInfo, model_info}
use ultimate_assistant_ai_ga.Providers.Capabilities.{text, image, Capabilities}
use ultimate_assistant_ai_ga.Providers.Adapter.{Adapter, chat_capable, vision_capable}

abbrev pub xai_capabilities : Capabilities
xai_capabilities =
    ((text, text), "grok-3" ∷ "grok-3-fast" ∷ "grok-3-mini" ∷ "grok-3-mini-fast" ∷ [])
    ∷ ((image, text), "grok-3" ∷ "grok-3-fast" ∷ [])
    ∷ []

abbrev pub xai_models : List ModelInfo
xai_models =
    model_info "grok-3" "Grok 3" "xai" ("text→text" ∷ "image→text" ∷ []) (some 131072) (some 16384)
    ∷ model_info "grok-3-fast" "Grok 3 Fast" "xai" ("text→text" ∷ "image→text" ∷ []) (some 131072)
        (some 16384)
    ∷ model_info "grok-3-mini" "Grok 3 Mini" "xai" ("text→text" ∷ []) (some 131072) (some 16384)
    ∷ model_info "grok-3-mini-fast" "Grok 3 Mini Fast" "xai" ("text→text" ∷ []) (some 131072)
        (some 16384)
    ∷ []

abbrev pub xai_adapter : Adapter
xai_adapter = record {
  name = "xai";
  base_url = "https://api.x.ai";
  protocols = chat_capable ∷ vision_capable ∷ [];
  capabilities = xai_capabilities;
  models = xai_models;
}

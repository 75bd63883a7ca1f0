-- ===== src/Providers/Catalogue/Google.antt =====
-- app/providers/google/adapter.py: the class `GoogleAdapter` with its protocols, `get_capabilities` and `get_models`.
use ultimate_assistant_ai_ga.Base.{none, some, List, [], ◌∷◌}
use ultimate_assistant_ai_ga.Schemas.{ModelInfo, model_info}
use ultimate_assistant_ai_ga.Providers.Capabilities.{text, image, vector, Capabilities}
use ultimate_assistant_ai_ga.Providers.Adapter.{
  Adapter, chat_capable, embed_capable, image_gen_capable, vision_capable,
}

abbrev pub google_capabilities : Capabilities
google_capabilities =
    ((text, text), "gemini-2.5-pro" ∷ "gemini-2.5-flash" ∷ "gemini-2.0-flash" ∷ [])
    ∷ ((text, image), "imagen-4" ∷ [])
    ∷ ((image, text), "gemini-2.5-pro" ∷ "gemini-2.5-flash" ∷ [])
    ∷ ((text, vector), "text-embedding-004" ∷ [])
    ∷ []

abbrev pub google_models : List ModelInfo
google_models =
    model_info "gemini-2.5-pro" "Gemini 2.5 Pro" "google" ("text→text" ∷ "image→text" ∷ [])
      (some 1048576) (some 65536)
    ∷ model_info "gemini-2.5-flash" "Gemini 2.5 Flash" "google" ("text→text" ∷ "image→text" ∷ [])
        (some 1048576) (some 65536)
    ∷ model_info "gemini-2.0-flash" "Gemini 2.0 Flash" "google" ("text→text" ∷ []) (some 1048576)
        (some 8192)
    ∷ model_info "imagen-4" "Imagen 4" "google" ("text→image" ∷ []) none none
    ∷ model_info "text-embedding-004" "Text Embedding 004" "google" ("text→vector" ∷ []) (some 2048)
        none
    ∷ []

abbrev pub google_adapter : Adapter
google_adapter = record {
  name = "google";
  base_url = "https://generativelanguage.googleapis.com";
  protocols = chat_capable ∷ image_gen_capable ∷ vision_capable ∷ embed_capable ∷ [];
  capabilities = google_capabilities;
  models = google_models;
}

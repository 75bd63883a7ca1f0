-- ===== src/Providers/Catalogue/Cohere.antt =====
-- app/providers/cohere/adapter.py: the class `CohereAdapter` with its protocols, `get_capabilities` and `get_models`.
use ultimate_assistant_ai_ga.Base.{none, some, List, [], ◌∷◌}
use ultimate_assistant_ai_ga.Schemas.{ModelInfo, model_info}
use ultimate_assistant_ai_ga.Providers.Capabilities.{text, vector, Capabilities}
use ultimate_assistant_ai_ga.Providers.Adapter.{Adapter, chat_capable, embed_capable}

abbrev pub cohere_capabilities : Capabilities
cohere_capabilities =
    ((text, text), "command-r-plus" ∷ "command-r" ∷ "command-a-03-2025" ∷ [])
    ∷ ((text, vector), "embed-v4.0" ∷ "embed-english-v3.0" ∷ "embed-multilingual-v3.0" ∷ [])
    ∷ []

abbrev pub cohere_models : List ModelInfo
cohere_models =
    model_info "command-r-plus" "Command R+" "cohere" ("text→text" ∷ []) (some 128000) (some 4096)
    ∷ model_info "command-r" "Command R" "cohere" ("text→text" ∷ []) (some 128000) (some 4096)
    ∷ model_info "command-a-03-2025" "Command A" "cohere" ("text→text" ∷ []) (some 256000)
        (some 8192)
    ∷ model_info "embed-v4.0" "Embed v4.0" "cohere" ("text→vector" ∷ []) (some 128000) none
    ∷ model_info "embed-english-v3.0" "Embed English v3.0" "cohere" ("text→vector" ∷ []) (some 512)
        none
    ∷ model_info "embed-multilingual-v3.0" "Embed Multilingual v3.0" "cohere" ("text→vector" ∷ [])
        (some 512) none
    ∷ []

abbrev pub cohere_adapter : Adapter
cohere_adapter = record {
  name = "cohere";
  base_url = "https://api.cohere.com";
  protocols = chat_capable ∷ embed_capable ∷ [];
  capabilities = cohere_capabilities;
  models = cohere_models;
}

-- ===== src/Providers/Catalogue/Mistral.antt =====
-- app/providers/mistral/adapter.py: the class `MistralAdapter` with its protocols, `get_capabilities` and `get_models`.
use ultimate_assistant_ai_ga.Base.{none, some, List, [], ◌∷◌}
use ultimate_assistant_ai_ga.Schemas.{ModelInfo, model_info}
use ultimate_assistant_ai_ga.Providers.Capabilities.{text, vector, Capabilities}
use ultimate_assistant_ai_ga.Providers.Adapter.{Adapter, chat_capable, embed_capable}

abbrev pub mistral_capabilities : Capabilities
mistral_capabilities =
    (
      (text, text),
      "mistral-large-latest" ∷ "mistral-medium-latest" ∷ "mistral-small-latest" ∷ "codestral-latest"
          ∷ [],
    )
    ∷ ((text, vector), "mistral-embed" ∷ [])
    ∷ []

abbrev pub mistral_models : List ModelInfo
mistral_models =
    model_info "mistral-large-latest" "Mistral Large" "mistral" ("text→text" ∷ []) (some 128000)
      (some 8192)
    ∷ model_info "mistral-medium-latest" "Mistral Medium" "mistral" ("text→text" ∷ []) (some 128000)
        (some 8192)
    ∷ model_info "mistral-small-latest" "Mistral Small" "mistral" ("text→text" ∷ []) (some 128000)
        (some 8192)
    ∷ model_info "codestral-latest" "Codestral" "mistral" ("text→text" ∷ []) (some 256000)
        (some 8192)
    ∷ model_info "mistral-embed" "Mistral Embed" "mistral" ("text→vector" ∷ []) (some 8192) none
    ∷ []

abbrev pub mistral_adapter : Adapter
mistral_adapter = record {
  name = "mistral";
  base_url = "https://api.mistral.ai";
  protocols = chat_capable ∷ embed_capable ∷ [];
  capabilities = mistral_capabilities;
  models = mistral_models;
}

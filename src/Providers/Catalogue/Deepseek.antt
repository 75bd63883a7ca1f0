-- ===== src/Providers/Catalogue/Deepseek.antt =====
-- app/providers/deepseek/adapter.py: the class `DeepSeekAdapter` with its protocols, `get_capabilities` and `get_models`.
use ultimate_assistant_ai_ga.Base.{some, List, [], ◌∷◌}
use ultimate_assistant_ai_ga.Schemas.{ModelInfo, model_info}
use ultimate_assistant_ai_ga.Providers.Capabilities.{text, Capabilities}
use ultimate_assistant_ai_ga.Providers.Adapter.{Adapter, chat_capable}

abbrev pub deepseek_capabilities : Capabilities
deepseek_capabilities = ((text, text), "deepseek-chat" ∷ "deepseek-reasoner" ∷ []) ∷ []

abbrev pub deepseek_models : List ModelInfo
deepseek_models =
    model_info "deepseek-chat" "DeepSeek V3" "deepseek" ("text→text" ∷ []) (some 65536) (some 8192)
    ∷ model_info "deepseek-reasoner" "DeepSeek R1" "deepseek" ("text→text" ∷ []) (some 65536)
        (some 8192)
    ∷ []

abbrev pub deepseek_adapter : Adapter
deepseek_adapter = record {
  name = "deepseek";
  base_url = "https://api.deepseek.com";
  protocols = chat_capable ∷ [];
  capabilities = deepseek_capabilities;
  models = deepseek_models;
}

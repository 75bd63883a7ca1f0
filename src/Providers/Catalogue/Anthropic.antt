-- ===== src/Providers/Catalogue/Anthropic.antt =====
-- app/providers/anthropic/adapter.py: the class `AnthropicAdapter` with its protocols, `get_capabilities` and `get_models`.
use ultimate_assistant_ai_ga.Base.{some, List, [], ◌∷◌}
use ultimate_assistant_ai_ga.Schemas.{ModelInfo, model_info}
use ultimate_assistant_ai_ga.Providers.Capabilities.{text, image, Capabilities}
use ultimate_assistant_ai_ga.Providers.Adapter.{Adapter, chat_capable, vision_capable}

abbrev pub anthropic_capabilities : Capabilities
anthropic_capabilities =
    (
      (text, text),
      "claude-sonnet-4-20250514" ∷ "claude-opus-4-20250514" ∷ "claude-3-5-haiku-20241022" ∷ [],
    )
    ∷ ((image, text), "claude-sonnet-4-20250514" ∷ "claude-opus-4-20250514" ∷ [])
    ∷ []

abbrev pub anthropic_models : List ModelInfo
anthropic_models =
    model_info "claude-sonnet-4-20250514" "Claude Sonnet 4" "anthropic"
      ("text→text" ∷ "image→text" ∷ []) (some 200000) (some 64000)
    ∷ model_info "claude-opus-4-20250514" "Claude Opus 4" "anthropic"
        ("text→text" ∷ "image→text" ∷ []) (some 200000) (some 32000)
    ∷ model_info "claude-3-5-haiku-20241022" "Claude 3.5 Haiku" "anthropic" ("text→text" ∷ [])
        (some 200000) (some 8192)
    ∷ []

abbrev pub anthropic_adapter : Adapter
anthropic_adapter = record {
  name = "anthropic";
  base_url = "https://api.anthropic.com";
  protocols = chat_capable ∷ vision_capable ∷ [];
  capabilities = anthropic_capabilities;
  models = anthropic_models;
}

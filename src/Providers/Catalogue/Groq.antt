-- ===== src/Providers/Catalogue/Groq.antt =====
-- app/providers/groq/adapter.py: the class `GroqAdapter` with its protocols, `get_capabilities` and `get_models`.
use ultimate_assistant_ai_ga.Base.{none, some, List, [], ◌∷◌}
use ultimate_assistant_ai_ga.Schemas.{ModelInfo, model_info}
use ultimate_assistant_ai_ga.Providers.Capabilities.{text, audio, Capabilities}
use ultimate_assistant_ai_ga.Providers.Adapter.{Adapter, chat_capable, stt_capable}

abbrev pub groq_capabilities : Capabilities
groq_capabilities =
    (
      (text, text),
      "llama-3.3-70b-versatile" ∷ "llama-3.1-8b-instant" ∷ "gemma2-9b-it" ∷ "mixtral-8x7b-32768"
          ∷ [],
    )
    ∷ ((audio, text), "whisper-large-v3" ∷ "whisper-large-v3-turbo" ∷ [])
    ∷ []

abbrev pub groq_models : List ModelInfo
groq_models =
    model_info "llama-3.3-70b-versatile" "Llama 3.3 70B" "groq" ("text→text" ∷ []) (some 128000)
      (some 32768)
    ∷ model_info "llama-3.1-8b-instant" "Llama 3.1 8B" "groq" ("text→text" ∷ []) (some 131072)
        (some 8192)
    ∷ model_info "gemma2-9b-it" "Gemma 2 9B" "groq" ("text→text" ∷ []) (some 8192) (some 8192)
    ∷ model_info "mixtral-8x7b-32768" "Mixtral 8x7B" "groq" ("text→text" ∷ []) (some 32768)
        (some 32768)
    ∷ model_info "whisper-large-v3" "Whisper Large V3" "groq" ("audio→text" ∷ []) none none
    ∷ model_info "whisper-large-v3-turbo" "Whisper Large V3 Turbo" "groq" ("audio→text" ∷ []) none
        none
    ∷ []

abbrev pub groq_adapter : Adapter
groq_adapter = record {
  name = "groq";
  base_url = "https://api.groq.com/openai";
  protocols = chat_capable ∷ stt_capable ∷ [];
  capabilities = groq_capabilities;
  models = groq_models;
}

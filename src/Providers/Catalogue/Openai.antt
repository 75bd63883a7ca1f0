-- ===== src/Providers/Catalogue/Openai.antt =====
-- app/providers/openai/adapter.py: the class `OpenAIAdapter` with its protocols, `get_capabilities` and `get_models`.
use ultimate_assistant_ai_ga.Base.{none, some, List, [], ◌∷◌}
use ultimate_assistant_ai_ga.Schemas.{ModelInfo, model_info}
use ultimate_assistant_ai_ga.Providers.Capabilities.{text, image, audio, vector, Capabilities}
use ultimate_assistant_ai_ga.Providers.Adapter.{
  Adapter, chat_capable, embed_capable, image_gen_capable, stt_capable, tts_capable, vision_capable,
}

abbrev pub openai_capabilities : Capabilities
openai_capabilities =
    (
      (text, text),
      "gpt-4o" ∷ "gpt-4o-mini" ∷ "gpt-4.1" ∷ "gpt-4.1-mini" ∷ "gpt-4.1-nano" ∷ "o3" ∷ "o4-mini"
          ∷ [],
    )
    ∷ ((text, image), "gpt-image-1" ∷ [])
    ∷ ((image, text), "gpt-4o" ∷ "gpt-4o-mini" ∷ [])
    ∷ ((text, audio), "tts-1" ∷ "tts-1-hd" ∷ [])
    ∷ ((audio, text), "whisper-1" ∷ [])
    ∷ ((text, vector), "text-embedding-3-small" ∷ "text-embedding-3-large" ∷ [])
    ∷ []

abbrev pub openai_models : List ModelInfo
openai_models =
    model_info "gpt-4o" "GPT-4o" "openai" ("text→text" ∷ "image→text" ∷ []) (some 128000)
      (some 16384)
    ∷ model_info "gpt-4o-mini" "GPT-4o Mini" "openai" ("text→text" ∷ "image→text" ∷ [])
        (some 128000) (some 16384)
    ∷ model_info "gpt-4.1" "GPT-4.1" "openai" ("text→text" ∷ []) (some 1047576) (some 32768)
    ∷ model_info "gpt-4.1-mini" "GPT-4.1 Mini" "openai" ("text→text" ∷ []) (some 1047576)
        (some 32768)
    ∷ model_info "gpt-4.1-nano" "GPT-4.1 Nano" "openai" ("text→text" ∷ []) (some 1047576)
        (some 32768)
    ∷ model_info "o3" "o3" "openai" ("text→text" ∷ []) (some 200000) (some 100000)
    ∷ model_info "o4-mini" "o4 Mini" "openai" ("text→text" ∷ []) (some 200000) (some 100000)
    ∷ model_info "gpt-image-1" "GPT Image 1" "openai" ("text→image" ∷ []) none none
    ∷ model_info "tts-1" "TTS-1" "openai" ("text→audio" ∷ []) none none
    ∷ model_info "tts-1-hd" "TTS-1 HD" "openai" ("text→audio" ∷ []) none none
    ∷ model_info "whisper-1" "Whisper" "openai" ("audio→text" ∷ []) none none
    ∷ model_info "text-embedding-3-small" "Embedding 3 Small" "openai" ("text→vector" ∷ [])
        (some 8191) none
    ∷ model_info "text-embedding-3-large" "Embedding 3 Large" "openai" ("text→vector" ∷ [])
        (some 8191) none
    ∷ []

abbrev pub openai_adapter : Adapter
openai_adapter = record {
  name = "openai";
  base_url = "https://api.openai.com";
  protocols =
      chat_capable ∷ image_gen_capable ∷ vision_capable ∷ tts_capable ∷ stt_capable ∷ embed_capable
      ∷ [];
  capabilities = openai_capabilities;
  models = openai_models;
}

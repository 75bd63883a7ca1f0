-- ===== src/Providers/Catalogue/Elevenlabs.antt =====
-- app/providers/elevenlabs/adapter.py: the class `ElevenLabsAdapter` with its protocols, `get_capabilities` and `get_models`.
use ultimate_assistant_ai_ga.Base.{none, List, [], ◌∷◌}
use ultimate_assistant_ai_ga.Schemas.{ModelInfo, model_info}
use ultimate_assistant_ai_ga.Providers.Capabilities.{text, audio, Capabilities}
use ultimate_assistant_ai_ga.Providers.Adapter.{Adapter, stt_capable, tts_capable}

abbrev pub elevenlabs_capabilities : Capabilities
elevenlabs_capabilities =
    ((text, audio), "eleven_multilingual_v2" ∷ "eleven_turbo_v2_5" ∷ "eleven_flash_v2_5" ∷ [])
    ∷ ((audio, text), "scribe_v1" ∷ [])
    ∷ []

abbrev pub elevenlabs_models : List ModelInfo
elevenlabs_models =
    model_info "eleven_multilingual_v2" "Multilingual V2" "elevenlabs" ("text→audio" ∷ []) none none
    ∷ model_info "eleven_turbo_v2_5" "Turbo V2.5" "elevenlabs" ("text→audio" ∷ []) none none
    ∷ model_info "eleven_flash_v2_5" "Flash V2.5" "elevenlabs" ("text→audio" ∷ []) none none
    ∷ model_info "scribe_v1" "Scribe V1 (STT)" "elevenlabs" ("audio→text" ∷ []) none none
    ∷ []

abbrev pub elevenlabs_adapter : Adapter
elevenlabs_adapter = record {
  name = "elevenlabs";
  base_url = "https://api.elevenlabs.io";
  protocols = tts_capable ∷ stt_capable ∷ [];
  capabilities = elevenlabs_capabilities;
  models = elevenlabs_models;
}

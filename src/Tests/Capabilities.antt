-- ===== src/Tests/Capabilities.antt =====
-- app/providers/registry.py on two adapters.
use ultimate_assistant_ai_ga.Base.{◌≡◌, refl, String, some, List, [], ◌∷◌, str_dec}
use ultimate_assistant_ai_ga.Providers.Capabilities.{
  Modality, Modality-discrete, Capabilities, parse_modality, get_pair, ensure_pair, append_at,
  add_models, add_pairs, add_providers, build_capability_map,
}
use ultimate_assistant_ai_ga.Providers.Registry.Capable.{of_adapters}

program : Unit {0}
unfolding str_dec Modality-discrete parse_modality get_pair ensure_pair append_at add_models
    add_pairs add_providers build_capability_map
program = tt

abbrev chat : Modality
chat = Modality.text

abbrev adapters : List (String × Capabilities)
adapters =
    ("groq", ((chat, chat), "llama" ∷ []) ∷ [])
    ∷ (
      "openai",
      ((chat, Modality.image), "dall-e-3" ∷ [])
          ∷ ((chat, chat), "gpt-4o" ∷ "gpt-4o-mini" ∷ [])
          ∷ [],
    )
    ∷ []

parse_image : parse_modality "image" ≡ some Modality.image
unfolding program
parse_image = refl

chat_models :
    of_adapters (chat, chat) adapters
    ≡ record { provider = "groq"; model = "llama" }
      ∷ record { provider = "openai"; model = "gpt-4o" }
      ∷ record { provider = "openai"; model = "gpt-4o-mini" }
      ∷ []
unfolding program
chat_models = refl

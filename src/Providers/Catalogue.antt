-- ===== src/Providers/Catalogue.antt =====
-- The adapters that app/providers holds, in the order of their packages' names, which is that of the scan in
-- app/providers/registry.py.
pub mod Anthropic
pub mod Cohere
pub mod Deepseek
pub mod Elevenlabs
pub mod Fal
pub mod Google
pub mod Groq
pub mod Mistral
pub mod Ollama
pub mod Openai
pub mod Replicate
pub mod Stability
pub mod Xai
pub mod Served
pub mod Models
use ultimate_assistant_ai_ga.Base.{List, [], ◌∷◌}
use ultimate_assistant_ai_ga.Providers.Adapter.{Adapter}
use Anthropic.{anthropic_adapter}
use Cohere.{cohere_adapter}
use Deepseek.{deepseek_adapter}
use Elevenlabs.{elevenlabs_adapter}
use Fal.{fal_adapter}
use Google.{google_adapter}
use Groq.{groq_adapter}
use Mistral.{mistral_adapter}
use Ollama.{ollama_adapter}
use Openai.{openai_adapter}
use Replicate.{replicate_adapter}
use Stability.{stability_adapter}
use Xai.{xai_adapter}

abbrev pub catalogue : List Adapter
catalogue =
    anthropic_adapter ∷ cohere_adapter ∷ deepseek_adapter ∷ elevenlabs_adapter ∷ fal_adapter
    ∷ google_adapter ∷ groq_adapter ∷ mistral_adapter ∷ ollama_adapter ∷ openai_adapter
    ∷ replicate_adapter ∷ stability_adapter ∷ xai_adapter ∷ []

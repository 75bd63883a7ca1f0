-- ===== src/Tests/Context.antt =====
-- `get_streaming_context` on the three chat providers.
use ultimate_assistant_ai_ga.Base.{◌≡◌, refl, String, true, false, none, some, [], ◌∷◌, str_dec}
use ultimate_assistant_ai_ga.Base.Action.{ok, err, index_error}
use ultimate_assistant_ai_ga.Providers.Capabilities.{
  Candidate, Modality-discrete, parse_modality, get_pair, append_at, build_capability_map,
}
use ultimate_assistant_ai_ga.Providers.Registry.{get_capable_providers}
use ultimate_assistant_ai_ga.Services.Router.{prefer_provider, prefer_model, with_keys}
use ultimate_assistant_ai_ga.Services.Chat.{ChatRequest}
use ultimate_assistant_ai_ga.Services.Chat.Context.{get_streaming_context, stream_request}
use ultimate_assistant_ai_ga.Tests.Routing.{registry, keys, keys_for}

abbrev question : ChatRequest
question = record {
  model = none;
  provider = some "openai";
  messages = [];
  temperature = 70;
  max_tokens = none;
  stream = true;
  conversation_id = none;
  tools = none;
  tool_choice = none;
  bypass_cache = false;
}

abbrev candidate : String → String → Candidate
candidate p m = record { provider = p; model = m }

program : Unit {0}
unfolding Modality-discrete str_dec parse_modality build_capability_map get_pair append_at
    get_capable_providers prefer_provider prefer_model with_keys get_streaming_context
program = tt

no_key :
    (get_streaming_context registry (keys_for []) (λ r. []) question 7 []).0
    ≡ err (index_error "list index out of range")
unfolding program
no_key = refl

capable :
    get_capable_providers registry "text" "text"
    ≡ ok (
        candidate "anthropic" "claude-opus"
        ∷ candidate "openai" "gpt-4o"
        ∷ candidate "groq" "llama"
        ∷ [])
unfolding program
capable = refl

chosen :
    (get_streaming_context registry keys (λ r. []) question 7 []).0
    ≡ ok (
      candidate "openai" "gpt-4o",
      stream_request registry keys (λ r. []) question 7 "gpt-4o",
      "sk",
    )
unfolding program
chosen = refl

abbrev HasModel : Candidate → Type 0
HasModel c = (m : String) × (c.model ≡ m)

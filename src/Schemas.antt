-- ===== src/Schemas.antt =====
-- app/schemas/provider.py: the provider-agnostic request and responses. A temperature is kept in
-- hundredths. Tools and tool choices only pass through: each is its JSON text.
pub mod Chat
use ultimate_assistant_ai_ga.Base.{ℕ, String, Option, none, List, Bool, true, false}

pub record Message : Type 0 where
  pub role : String
  pub content : String

pub record UnifiedRequest : Type 0 where
  pub prompt : Option String
  pub messages : Option (List Message)
  pub model : Option String
  pub max_tokens : Option ℕ
  pub temperature : ℕ
  pub stream : Bool
  pub input_url : Option String
  -- the bytes, as a text of them
  pub input_data : Option String
  pub options : Option (List (String × String))
  pub tools : Option (List String)
  pub tool_choice : Option String

-- `UnifiedRequest()` with the schema's defaults.
abbrev pub blank_request : UnifiedRequest
blank_request = record {
  prompt = none;
  messages = none;
  model = none;
  max_tokens = none;
  temperature = 70;
  stream = false;
  input_url = none;
  input_data = none;
  options = none;
  tools = none;
  tool_choice = none;
}

pub record UnifiedResponse : Type 0 where
  pub content : Option String
  pub file_url : Option String
  pub model : Option String
  pub provider : Option String
  pub input_tokens : Option ℕ
  pub output_tokens : Option ℕ
  pub latency_ms : Option ℕ
  -- in units of 10^-8 dollars
  pub estimated_cost_usd : Option ℕ
  pub tool_calls : Option (List String)

pub record MediaResult : Type 0 where
  pub file_url : String
  pub mime_type : String
  pub model : String
  pub provider : String
  pub latency_ms : Option ℕ

-- `UnifiedResponse | MediaResult`
pub data RouteResult : Type 0 where
  unified : UnifiedResponse → RouteResult
  media : MediaResult → RouteResult

pub record Chunk : Type 0 where
  pub content : String
  pub finish_reason : Option String
  pub model : Option String
  pub tool_calls : Option (List String)

pub record ModelInfo : Type 0 where
  pub id : String
  pub name : String
  pub provider : String
  pub modalities : List String
  pub context_window : Option ℕ
  pub max_output_tokens : Option ℕ
  pub supports_tools : Bool
  pub supports_vision : Bool
  pub supports_streaming : Bool

-- `ModelInfo(...)` with the schema's defaults for what it supports
abbrev pub model_info : String → String → String → List String → Option ℕ → Option ℕ → ModelInfo
model_info id name provider modalities context_window max_output_tokens = record {
  id = id;
  name = name;
  provider = provider;
  modalities = modalities;
  context_window = context_window;
  max_output_tokens = max_output_tokens;
  supports_tools = false;
  supports_vision = false;
  supports_streaming = true;
}

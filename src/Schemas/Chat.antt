-- ===== src/Schemas/Chat.antt =====
-- app/schemas/chat.py, as the chat service uses it. A temperature is kept in hundredths. A content part is kept by its
-- text and its print; tools and tool choices are their JSON texts.
use ultimate_assistant_ai_ga.Base.{ℕ, String, Bool, Option, List}

pub record ContentPart : Type 0 where
  pub text : Option String
  pub printed : String

pub data Content : Type 0 where
  no_content : Content
  plain : String → Content
  parts : List ContentPart → Content

pub record ChatMessage : Type 0 where
  pub role : String
  pub content : Content

pub record ChatRequest : Type 0 where
  pub model : Option String
  pub provider : Option String
  pub messages : List ChatMessage
  pub temperature : ℕ
  pub max_tokens : Option ℕ
  pub stream : Bool
  pub conversation_id : Option String
  pub tools : Option (List String)
  pub tool_choice : Option String
  pub bypass_cache : Bool

pub record ChatResponse : Type 0 where
  pub id : String
  pub content : String
  pub model : String
  pub provider : String
  pub input_tokens : Option ℕ
  pub output_tokens : Option ℕ
  pub latency_ms : ℕ
  pub estimated_cost_usd : Option ℕ
  pub tool_calls : Option (List String)
  pub cached : Bool

-- ===== src/Services/ChatSetup.antt =====
-- app/services/chat_service.py: what the chat service is built with, the parts of a request, and steps 1 and 2 of
-- `ChatService.chat`. The router is an action on what lies behind it.
use ultimate_assistant_ai_ga.Base.{
  ℕ, ◌-◌, ◌/◌, String, Bool, false, not, Option, none, some, List, [], ◌∷◌, ◌++◌, ◌==◌, ◌&&◌, map,
  if◌then◌else◌,
}
use ultimate_assistant_ai_ga.Base.Text.{or_else, is_empty, join}
use ultimate_assistant_ai_ga.Base.Action.{Exc, Action, pure, raise_if, modify, type_error}
use ultimate_assistant_ai_ga.Schemas.{Message, UnifiedRequest, RouteResult}
pub use ultimate_assistant_ai_ga.Schemas.Chat.{
  ContentPart, Content, no_content, plain, parts, ChatMessage, ChatRequest, ChatResponse,
}
use ultimate_assistant_ai_ga.Core.Security.{Uuid}
use ultimate_assistant_ai_ga.Redis.{Redis}
use ultimate_assistant_ai_ga.Db.{ChatWorld, Metric}
use ultimate_assistant_ai_ga.Services.Guardrails.{Regex, pre_check}
use ultimate_assistant_ai_ga.Services.Cache.{CacheQuery, CacheCodec}

-- `req.messages[-1] if req.messages else None`
abbrev pub last_of : List ChatMessage → Option ChatMessage
last_of [] = none
last_of (m ∷ []) = some m
last_of (m ∷ n ∷ ms) = last_of (n ∷ ms)

-- the text that the guardrails see, if the content is true
abbrev pub guarded_text : Content → Option String
guarded_text no_content = none
guarded_text (plain s) = if is_empty s then none else some s
guarded_text (parts []) = none
guarded_text (parts (p ∷ ps)) =
    some (join " " (map (λ (q : ContentPart). or_else q.text "") (p ∷ ps)))

-- `req.tools` as the adapters get it
abbrev pub tools_of : Option (List String) → Option (List String)
tools_of none = none
tools_of (some []) = none
tools_of (some (t ∷ ts)) = some (t ∷ ts)

-- `result.input_tokens and result.output_tokens`
abbrev pub both : Option ℕ → Option ℕ → Option (ℕ × ℕ)
both (some i) (some o) = if i == 0 then none else (if o == 0 then none else some (i, o))
both _ _ = none

abbrev pub or_zero : Option ℕ → ℕ
or_zero none = 0
or_zero (some n) = n

-- `AppException(status_code=422, detail=...)` lacks the message that the constructor requires.
abbrev pub no_message : Exc
no_message = type_error "AppException.__init__() missing 1 required positional argument: 'message'"

-- What the service is built with.
pub record ChatHost (Store V : Type 0) : Type 0 where
  pub server : Redis Store
  pub codec : CacheCodec
  pub regex : Regex
  pub uuid : Uuid
  -- the print of a list of content parts
  pub str_parts : List ContentPart → String
  -- `time.monotonic()`, and the server's clock, in microseconds
  pub monotonic : ChatWorld Store V → ℕ
  pub now : ChatWorld Store V → ℕ
  -- `router.route(req, user_id, "text", "text", preferred_provider, preferred_model)`
  pub route : UnifiedRequest → ℕ → Option String → Option String → Action V RouteResult

module _ {Store V : Type 0} (host : ChatHost Store V) where
  -- the content, or its `str`
  abbrev pub str_content : Content → String
  str_content no_content = "None"
  str_content (plain s) = s
  str_content (parts ps) = host.str_parts ps

  abbrev pub messages_for_hash : List ChatMessage → List Message
  messages_for_hash =
      map (λ (m : ChatMessage). record { role = m.role; content = str_content m.content })

  abbrev pub check_text : Option String → Action (ChatWorld Store V) (Unit {0})
  check_text none = pure tt
  check_text (some text) =
      let guard_result = pre_check host.regex text "free" false in
      raise_if guard_result.blocked no_message

  abbrev pub check_message : Option ChatMessage → Action (ChatWorld Store V) (Unit {0})
  check_message none = pure tt
  check_message (some m) = check_text (guarded_text m.content)

  -- step 1
  unfoldable pub guard : ChatRequest → Action (ChatWorld Store V) (Unit {0})
  guard req = check_message (last_of req.messages)

  abbrev pub is_cacheable : ChatRequest → Bool
  is_cacheable req = not req.stream && req.temperature == 0 && not req.bypass_cache

  abbrev pub query : ChatRequest → ℕ → String → String → CacheQuery
  query req user_id provider model = record {
    user_id = host.uuid.print user_id;
    provider = provider;
    model = model;
    messages = messages_for_hash req.messages;
    temperature = req.temperature;
  }

  abbrev pub count_metric : Metric → Action (ChatWorld Store V) (Unit {0})
  count_metric m = modify (λ w. record w { metrics = w.metrics ++ m ∷ [] })

  abbrev pub elapsed_ms : ℕ → ChatWorld Store V → ℕ
  elapsed_ms start w = (host.monotonic w - start) / 1000

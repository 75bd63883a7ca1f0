-- ===== src/Services/Chat.antt =====
-- app/services/chat_service.py: `ChatService`. The router is a parameter, as an action on what lies behind it;
-- so are the clock, the response cache's codec, the regular expressions, and the print of a list of content
-- parts. Logging is left out.
pub mod Frame
pub mod Isolation
pub mod Cached
pub mod Effects
pub mod Writes
pub mod Context
use ultimate_assistant_ai_ga.Base.{
  ℕ, ◌+◌, ◌-◌, ◌/◌, String, Bool, true, false, not, Option, none, some, List, [], ◌∷◌, ◌++◌, ◌==◌,
  ◌&&◌, map, if◌then◌else◌,
}
use ultimate_assistant_ai_ga.Base.Text.{or_else, truthy, is_empty, join}
use ultimate_assistant_ai_ga.Base.Action.{
  Exc, Result, ok, err, Action, pure, raise, raise_if, gets, modify, or_raise, ◌>>=◌, ◌>>◌,
  type_error, value_error, attribute_error,
}
use ultimate_assistant_ai_ga.Schemas.{
  Message, UnifiedRequest, blank_request, UnifiedResponse, RouteResult, unified, media,
}
pub use ultimate_assistant_ai_ga.Schemas.Chat.{
  ContentPart, Content, no_content, plain, parts, ChatMessage, ChatRequest, ChatResponse,
}
use ultimate_assistant_ai_ga.Core.Security.{Uuid}
use ultimate_assistant_ai_ga.Redis.{Redis}
use ultimate_assistant_ai_ga.Db.{
  ChatWorld, Metric, cache_operation, tokens_used, estimated_cost, draw, create_conversation,
  add_message, record_usage,
}
use ultimate_assistant_ai_ga.Services.Cost.{estimate}
use ultimate_assistant_ai_ga.Services.Guardrails.{Regex, GuardrailResult, pre_check}
use ultimate_assistant_ai_ga.Services.Cache.{CacheQuery, CachedResponse, CacheCodec}
use ultimate_assistant_ai_ga.Services.Cache
pub use ultimate_assistant_ai_ga.Services.ChatSetup.{
  last_of, guarded_text, tools_of, both, or_zero, no_message, ChatHost, str_content,
  messages_for_hash, check_text, check_message, is_cacheable, query, count_metric, elapsed_ms,
}
unfoldable pub use ultimate_assistant_ai_ga.Services.ChatSetup.{guard}

module _ {Store V : Type 0} (host : ChatHost Store V) where
  -- step 3
  unfoldable pub lookup : ChatRequest → ℕ → ChatWorld Store V → Option CachedResponse
  lookup req user_id w =
      if is_cacheable host req
      then Cache.get host.server host.codec (host.now w)
          (query host req user_id (or_else req.provider "") (or_else req.model "")) w.redis
      else none

  -- The response of a hit: `ChatResponse` refuses a model or a provider that is None. The default of the ID is
  -- drawn whether it is used or not.
  unfoldable pub from_cache : ℕ → CachedResponse → Action (ChatWorld Store V) ChatResponse
  from_cache start cached = do
    count_metric host (cache_operation "hit")
    elapsed ← gets (elapsed_ms host start)
    spare ← draw
    model ← or_raise (value_error "model") cached.model
    provider ← or_raise (value_error "provider") cached.provider
    pure (record {
      id = cached.conversation_id;
      content = cached.content;
      model = model;
      provider = provider;
      input_tokens = cached.input_tokens;
      output_tokens = cached.output_tokens;
      latency_ms = elapsed;
      estimated_cost_usd = cached.estimated_cost_usd;
      tool_calls = none;
      cached = true;
    })

  abbrev conversation_of : ℕ → Option String → Action (ChatWorld Store V) ℕ
  conversation_of user_id none =
      create_conversation user_id "New Conversation" >>= λ conv. pure conv.id
  conversation_of user_id (some String.[]) =
      create_conversation user_id "New Conversation" >>= λ conv. pure conv.id
  conversation_of user_id (some (String.◌∷◌ c s)) =
      or_raise (value_error "badly formed hexadecimal UUID string")
        (host.uuid.parse (String.◌∷◌ c s))

  abbrev store_message : ℕ → Option ChatMessage → Action (ChatWorld Store V) (Unit {0})
  store_message conv_id none = pure tt
  store_message conv_id (some m) =
      add_message conv_id m.role (str_content host m.content) none none none none

  abbrev pub store_question : ChatRequest → ℕ → Action (ChatWorld Store V) ℕ
  store_question req conv_id = do store_message conv_id (last_of req.messages); pure conv_id

  -- step 4
  unfoldable pub open_conversation : ChatRequest → ℕ → Action (ChatWorld Store V) ℕ
  open_conversation req user_id = conversation_of user_id req.conversation_id >>= store_question req

  abbrev pub to_unified : ChatRequest → UnifiedRequest
  to_unified req = record blank_request {
    messages = some (messages_for_hash host req.messages);
    model = req.model;
    temperature = req.temperature;
    max_tokens = req.max_tokens;
    tools = tools_of req.tools;
    tool_choice = req.tool_choice;
  }

  abbrev expect_unified : RouteResult → Action (ChatWorld Store V) UnifiedResponse
  expect_unified (unified r) = pure r
  expect_unified (media r) =
      raise (attribute_error "'MediaResult' object has no attribute 'content'")

  abbrev pub behind : {A : Type 0} → Action V A → Action (ChatWorld Store V) A
  behind m w = let (r, v) = m w.gateway in (r, record w { gateway = v })

  -- step 5; the check of the answer in step 6 only logs
  unfoldable pub ask_router : ChatRequest → ℕ → Action (ChatWorld Store V) UnifiedResponse
  ask_router req user_id =
      behind (host.route (to_unified req) user_id req.provider req.model) >>= expect_unified

  abbrev count_cost : String → String → Option (ℕ × ℕ) → Action (ChatWorld Store V) (Option ℕ)
  count_cost provider model none = pure none
  count_cost provider model (some (i, o)) =
      let cost_usd = estimate provider model i o in
      do
        count_metric host (tokens_used provider model "input" i)
        count_metric host (tokens_used provider model "output" o)
        count_metric host (estimated_cost provider model cost_usd)
        pure (some cost_usd)

  -- steps 7 to 9
  unfoldable pub account : ℕ → ℕ → ℕ → UnifiedResponse → Action (ChatWorld Store V) (Option ℕ)
  account user_id conv_id elapsed result = do
    cost_usd ←
        count_cost (or_else result.provider "") (or_else result.model "")
          (both result.input_tokens result.output_tokens)
    record_usage user_id (or_else result.provider "") (or_else result.model "")
        (or_zero result.input_tokens) (or_zero result.output_tokens) elapsed
    add_message conv_id "assistant" (or_else result.content "") result.model result.provider
        result.input_tokens result.output_tokens
    pure cost_usd

  abbrev pub cache_entry : ℕ → Option ℕ → UnifiedResponse → CachedResponse
  cache_entry conv_id cost_usd result = record {
    conversation_id = host.uuid.print conv_id;
    content = or_else result.content "";
    model = result.model;
    provider = result.provider;
    input_tokens = result.input_tokens;
    output_tokens = result.output_tokens;
    estimated_cost_usd = cost_usd;
  }

  abbrev pub store :
      ChatRequest → ℕ → UnifiedResponse → CachedResponse → ChatWorld Store V → ChatWorld Store V
  store req user_id result entry w = record w {
    redis =
        Cache.set host.server host.codec (host.now w)
          (query host req user_id (or_else result.provider "") (or_else result.model "")) entry
          w.redis;
  }

  -- the end of step 10
  unfoldable pub cache_response :
      ChatRequest → ℕ → ℕ → Option ℕ → UnifiedResponse → Action (ChatWorld Store V) (Unit {0})
  cache_response req user_id conv_id cost_usd result =
      if is_cacheable host req && truthy result.content
      then modify (store req user_id result (cache_entry conv_id cost_usd result))
      else pure tt

  abbrev pub response_of : ℕ → ℕ → UnifiedResponse → Option ℕ → ChatResponse
  response_of conv_id elapsed result cost_usd = record {
    id = host.uuid.print conv_id;
    content = or_else result.content "";
    model = or_else result.model "";
    provider = or_else result.provider "";
    input_tokens = result.input_tokens;
    output_tokens = result.output_tokens;
    latency_ms = elapsed;
    estimated_cost_usd = cost_usd;
    tool_calls = result.tool_calls;
    cached = false;
  }

  module _ (req : ChatRequest) (user_id start : ℕ) where
    abbrev pub finish_cost :
        ℕ → ℕ → UnifiedResponse → Option ℕ → Action (ChatWorld Store V) ChatResponse
    finish_cost conv_id elapsed result cost_usd = do
      cache_response req user_id conv_id cost_usd result
      pure (response_of conv_id elapsed result cost_usd)

    abbrev pub finish_at : ℕ → UnifiedResponse → ℕ → Action (ChatWorld Store V) ChatResponse
    finish_at conv_id result elapsed =
        account user_id conv_id elapsed result >>= finish_cost conv_id elapsed result

    abbrev pub finish : ℕ → UnifiedResponse → Action (ChatWorld Store V) ChatResponse
    finish conv_id result = gets (elapsed_ms host start) >>= finish_at conv_id result

    abbrev pub ask : ℕ → Action (ChatWorld Store V) ChatResponse
    ask conv_id = ask_router req user_id >>= finish conv_id

    -- steps 4 to 10
    unfoldable pub answer : Action (ChatWorld Store V) ChatResponse
    unfolding open_conversation ask_router account cache_response
    answer = open_conversation req user_id >>= ask

  abbrev pub or_answer :
      ChatRequest → ℕ → ℕ → Option CachedResponse → Action (ChatWorld Store V) ChatResponse
  or_answer req user_id start (some cached) = from_cache start cached
  or_answer req user_id start none = do
    if is_cacheable host req then count_metric host (cache_operation "miss") else pure tt
    answer req user_id start

  unfoldable pub chat : ChatRequest → ℕ → Action (ChatWorld Store V) ChatResponse
  unfolding guard lookup from_cache answer
  chat req user_id = do
    start ← gets host.monotonic
    guard host req
    cached ← gets (lookup req user_id)
    or_answer req user_id start cached

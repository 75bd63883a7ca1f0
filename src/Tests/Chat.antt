-- ===== src/Tests/Chat.antt =====
-- app/services/chat_service.py with a router that answers, or is down, and a cache that is a store of its own.
use ultimate_assistant_ai_ga.Base.{
  ℕ, ◌+◌, ◌≡◌, refl, String, true, false, none, some, List, [], ◌∷◌, ◌++◌, arith, map, str_dec, ◌⊎◌,
  ◌==◌, ◌&&◌, not,
}
use ultimate_assistant_ai_ga.Base.Lists.{All}
use ultimate_assistant_ai_ga.Base.Action.{ok, err, other_error}
use ultimate_assistant_ai_ga.Schemas.{UnifiedResponse, unified}
use ultimate_assistant_ai_ga.Redis.{Key-discrete}
use ultimate_assistant_ai_ga.Redis.Memory.{Store, empty, memory, memory-RedisLaws}
use ultimate_assistant_ai_ga.Db.{
  Conversation, MessageRow, ChatWorld, cache_operation, add_message, create_conversation,
  record_usage, delete_conversation, get_by_id, in_session,
}
use ultimate_assistant_ai_ga.Db.Conversations.{delete_conversation_lem}
use ultimate_assistant_ai_ga.Services.Guardrails.{Regex, pre_check, max_input_chars}
use ultimate_assistant_ai_ga.Services.Cache.{CacheQuery, CachedResponse, cache_ttl}
use ultimate_assistant_ai_ga.Services.Cache
use ultimate_assistant_ai_ga.Services.Cost.{estimate, rates_of}
use ultimate_assistant_ai_ga.Services.Chat.{
  plain, ChatRequest, ChatHost, ChatResponse, chat, guard, lookup, from_cache, answer,
  open_conversation, ask_router, account, cache_response, query, last_of,
}
use ultimate_assistant_ai_ga.Tests.Token.{numbers}
use ultimate_assistant_ai_ga.Tests.Routing.{reply}
use ultimate_assistant_ai_ga.Tests.Codec.{spelled, spelled-CacheCodecLaws}
use ultimate_assistant_ai_ga.Services.Chat.Isolation.{chat-isolated}
use ultimate_assistant_ai_ga.Services.Chat.Cached.{chat-hit}
use ultimate_assistant_ai_ga.Services.Chat.Effects.{answer_row, usage_row, asked}
use ultimate_assistant_ai_ga.Services.Chat.Writes.{answer_lem, answer_of, request_of}

-- finds nothing
abbrev blind : Regex
blind = record { search = λ p s. false; findall = λ p s. 0; sub = λ p r s. s }

abbrev answered : UnifiedResponse
answered = record reply { model = some "gpt-4o"; provider = some "openai" }

-- The router's world is the number of its calls.
abbrev host : ChatHost Store ℕ
host = record {
  server = memory;
  codec = spelled;
  regex = blind;
  uuid = numbers;
  str_parts = λ ps. "parts";
  monotonic = λ w. 0;
  now = λ w. 5;
  route = λ req u p m calls. (ok (unified answered), calls + 1);
}

abbrev down : ChatHost Store ℕ
down = record host { route = λ req u p m calls. (err (other_error "down"), calls + 1) }

abbrev hello : ChatRequest
hello = record {
  model = some "gpt-4o";
  provider = some "openai";
  messages = record { role = "user"; content = plain "hi" } ∷ [];
  temperature = 0;
  max_tokens = none;
  stream = false;
  conversation_id = none;
  tools = none;
  tool_choice = none;
  bypass_cache = false;
}

-- the conversation of user 8
abbrev others : Conversation
others = record { id = 3; user_id = 8; title = "New Conversation" }

abbrev start : ChatWorld Store ℕ
start = record {
  redis = empty;
  tables = record { conversations = others ∷ []; messages = []; usage = [] };
  metrics = [];
  drawn = 4;
  gateway = 0;
}

program : Unit {0}
unfolding str_dec Key-discrete chat guard pre_check max_input_chars lookup from_cache answer
    open_conversation ask_router account cache_response Cache.get Cache.set add_message
    create_conversation record_usage estimate rates_of delete_conversation get_by_id in_session
program = tt

-- user 7 writes into the conversation of user 8
abbrev intruding : ChatRequest
intruding = record hello { conversation_id = some "xxx" }

intruder_writes :
    map {B = ℕ × String}
      (λ (m : MessageRow). (m.conversation_id, m.content))
      (chat host intruding 7 start).1.tables.messages
    ≡ (3, "hi") ∷ (3, "hello") ∷ []
unfolding program
intruder_writes = refl

rolled_back : (in_session (chat down hello 7) start).1.tables ≡ start.tables
unfolding program
rolled_back = refl

chat-isolated_example :
    Cache.get memory spelled 5
      (query host hello 8 "openai" "gpt-4o")
      (chat host hello 7 start).1.redis
    ≡ Cache.get memory spelled 5 (query host hello 8 "openai" "gpt-4o") empty
chat-isolated_example =
    chat-isolated host memory-RedisLaws spelled-CacheCodecLaws hello 7 8 5 "openai" "gpt-4o" hello
      start (λ e. omega arith)

abbrev first_answer : ChatResponse
first_answer = record {
  id = "xxxx";
  content = "hello";
  model = "gpt-4o";
  provider = "openai";
  input_tokens = some 3;
  output_tokens = some 5;
  latency_ms = 0;
  estimated_cost_usd = some 5750;
  tool_calls = none;
  cached = false;
}

answered_first : (chat host hello 7 start).0 ≡ ok first_answer
unfolding program
answered_first = refl

-- the world after the first chat, with the entry of another user's
abbrev after : ChatWorld Store ℕ
after = record (chat host hello 7 start).1 {
  redis =
      Cache.set memory spelled 5 (query host hello 8 "openai" "gpt-4o")
        (record {
          conversation_id = "x";
          content = "theirs";
          model = some "gpt-4o";
          provider = some "openai";
          input_tokens = none;
          output_tokens = none;
          estimated_cost_usd = none;
        })
        (chat host hello 7 start).1.redis;
}

still_there :
    Cache.get memory spelled 5 (query host hello 7 "openai" "gpt-4o") after.redis
    ≡ Cache.get memory spelled 5
        (query host hello 7 "openai" "gpt-4o")
        (chat host hello 7 start).1.redis
unfolding program
still_there = refl

chat-hit_example : chat host hello 7 after ≡ (
  ok (record first_answer { latency_ms = 0; tool_calls = none; cached = true }),
  record after { metrics = after.metrics ++ cache_operation "hit" ∷ []; drawn = after.drawn + 1 },
)
chat-hit_example =
    chat-hit host memory-RedisLaws spelled-CacheCodecLaws hello 7 first_answer start after refl
      answered_first refl refl (refl, refl) (refl, refl) (λ x s. refl) (omega arith) still_there

answered_once : (answer host hello 7 0 start).0 ≡ ok first_answer
unfolding program
answered_once = refl

answer_lem_example :
    let t = (answer host hello 7 0 start).1.tables in
    (c id : ℕ) × (r : UnifiedResponse) × (rows : List MessageRow) × ((host.route
        (request_of host hello)
        7
        (some "openai")
        (some "gpt-4o")
        0).0
      ≡ ok (unified r))
    × (t.messages ≡ ([] ++ rows) ++ answer_row host (id + 1) c r ∷ [])
    × All (λ (m : MessageRow). m.conversation_id ≡ c) rows
    × (map (λ (m : MessageRow). (m.role, m.content)) rows ≡ asked host (last_of hello.messages))
    × (t.usage ≡ [] ++ usage_row host id 7 0 r ∷ [])
    × (first_answer ≡ answer_of host c r first_answer)
answer_lem_example = answer_lem host hello 7 0 first_answer start answered_once

delete_conversation_lem_example :
    let (r, w') = delete_conversation 3 8 start in
    ((c : Conversation) × (ms : List MessageRow) × (get_by_id 3 8 start.tables ≡ some (c, ms))
      × (c.user_id ≡ 8)
      × (r ≡ ok true)
      × ((v : ℕ) → get_by_id 3 v w'.tables ≡ none)
      × All (λ (m : MessageRow). not (m.conversation_id == 3) ≡ true) w'.tables.messages
      × ((d v : ℕ) → (d == 3) ≡ false → get_by_id d v w'.tables ≡ get_by_id d v start.tables)
      × (w' ≡ record start {
        tables = record start.tables {
          conversations = w'.tables.conversations;
          messages = w'.tables.messages;
        };
      }))
    ⊎ ((r ≡ ok false)
        × All
            (λ (c : Conversation). (c.id == 3 && c.user_id == 8) ≡ false)
            start.tables.conversations
        × (w' ≡ start))
delete_conversation_lem_example = delete_conversation_lem 3 8 start

-- ===== src/Db.antt =====
-- app/models/{conversation,message,usage}.py as rows, app/db/session.py, app/db/repositories/conversation_repo.py
-- without `list_by_user`, and `UsageService.record` of app/services/usage_service.py. The world holds the
-- tables, the Redis server, the metrics, how many IDs were drawn, and what lies behind the router.
pub mod Conversations
use ultimate_assistant_ai_ga.Base.{
  ℕ, ◌+◌, String, Bool, true, false, Option, none, some, List, [], ◌∷◌, ◌++◌, ◌==◌, ◌&&◌, not, keep,
  find_first, any,
}
use ultimate_assistant_ai_ga.Base.Action.{
  Result, ok, err, Action, pure, raise_if, modify, gets, ◌>>=◌, ◌>>◌, other_error,
}
use ultimate_assistant_ai_ga.Services.Cost.{estimate}

pub record Conversation : Type 0 where
  pub id : ℕ
  pub user_id : ℕ
  pub title : String

pub record MessageRow : Type 0 where
  pub id : ℕ
  pub conversation_id : ℕ
  pub role : String
  pub content : String
  pub modality : String
  pub model_used : Option String
  pub provider_used : Option String
  pub input_tokens : Option ℕ
  pub output_tokens : Option ℕ

-- money in units of 10^-8 dollars
pub record Usage : Type 0 where
  pub id : ℕ
  pub user_id : ℕ
  pub provider : String
  pub model : String
  pub input_tokens : ℕ
  pub output_tokens : ℕ
  pub cost : ℕ
  pub estimated_cost_usd : ℕ
  pub latency_ms : ℕ

pub record Tables : Type 0 where
  pub conversations : List Conversation
  pub messages : List MessageRow
  pub usage : List Usage

-- what the chat service counts for Prometheus
pub data Metric : Type 0 where
  cache_operation : String → Metric
  tokens_used : String → String → String → ℕ → Metric
  estimated_cost : String → String → ℕ → Metric

pub record ChatWorld (Store V : Type 0) : Type 0 where
  pub redis : Store
  pub tables : Tables
  pub metrics : List Metric
  pub drawn : ℕ
  pub gateway : V

abbrev pub is_conversation : ℕ → ℕ → Conversation → Bool
is_conversation conv_id user_id c = c.id == conv_id && c.user_id == user_id

-- the relationship `Conversation.messages`, in the order of their creation
unfoldable pub messages_of : ℕ → Tables → List MessageRow
messages_of conv_id t = keep (λ m. m.conversation_id == conv_id) t.messages

abbrev with_messages : ℕ → Tables → Option Conversation → Option (Conversation × List MessageRow)
with_messages conv_id t none = none
with_messages conv_id t (some c) = some (c, messages_of conv_id t)

-- `ConversationRepository.get_by_id`, with the messages that it loads; an id is a primary key
unfoldable pub get_by_id : ℕ → ℕ → Tables → Option (Conversation × List MessageRow)
unfolding messages_of
get_by_id conv_id user_id t =
    with_messages conv_id t (find_first (is_conversation conv_id user_id) t.conversations)

-- the foreign key of a message
abbrev pub has_conversation : ℕ → Tables → Bool
has_conversation conv_id t = any (λ (c : Conversation). c.id == conv_id) t.conversations

module _ {Store V : Type 0} where
  abbrev pub draw : Action (ChatWorld Store V) ℕ
  draw w = (ok w.drawn, record w { drawn = w.drawn + 1 })

  abbrev pub update_tables : (Tables → Tables) → Action (ChatWorld Store V) (Unit {0})
  update_tables f = modify (λ w. record w { tables = f w.tables })

  abbrev finish_session :
      {A : Type 0} → Tables → Result A × ChatWorld Store V → Result A × ChatWorld Store V
  finish_session before (ok a, w) = (ok a, w)
  finish_session before (err e, w) = (err e, record w { tables = before })

  -- `get_session` around a handler: commit, or roll back and raise again
  unfoldable pub in_session :
      {A : Type 0} → Action (ChatWorld Store V) A → Action (ChatWorld Store V) A
  in_session m w = finish_session w.tables (m w)

  -- `ConversationRepository.create`
  unfoldable pub create_conversation : ℕ → String → Action (ChatWorld Store V) Conversation
  create_conversation user_id title = do
    id ← draw
    let conv : Conversation = record { id = id; user_id = user_id; title = title }
    update_tables (λ t. record t { conversations = t.conversations ++ conv ∷ [] })
    pure conv

  -- `ConversationRepository.add_message`, by the row without its id
  unfoldable pub add_message :
      ℕ
      → String
      → String
      → Option String
      → Option String
      → Option ℕ
      → Option ℕ
      → Action (ChatWorld Store V) (Unit {0})
  add_message conversation_id role content model_used provider_used input_tokens output_tokens = do
    id ← draw
    known ← gets (λ w. has_conversation conversation_id w.tables)
    raise_if (not known) (other_error "IntegrityError")
    let msg : MessageRow = record {
      id = id;
      conversation_id = conversation_id;
      role = role;
      content = content;
      modality = "text";
      model_used = model_used;
      provider_used = provider_used;
      input_tokens = input_tokens;
      output_tokens = output_tokens;
    }
    update_tables (λ t. record t { messages = t.messages ++ msg ∷ [] })

  abbrev deleted : ℕ → Option (Conversation × List MessageRow) → Action (ChatWorld Store V) Bool
  deleted conv_id none = pure false
  deleted conv_id (some c) = do
    update_tables (λ t. record t {
      conversations = keep (λ c. not (c.id == conv_id)) t.conversations;
      messages = keep (λ m. not (m.conversation_id == conv_id)) t.messages;
    })
    pure true

  -- `ConversationRepository.delete`, which deletes the messages too
  unfoldable pub delete_conversation : ℕ → ℕ → Action (ChatWorld Store V) Bool
  unfolding get_by_id
  delete_conversation conv_id user_id = do
    conv ← gets (λ w. get_by_id conv_id user_id w.tables)
    deleted conv_id conv

  -- `UsageService.record`, with the default cost
  unfoldable pub record_usage :
      ℕ → String → String → ℕ → ℕ → ℕ → Action (ChatWorld Store V) (Unit {0})
  unfolding estimate
  record_usage user_id provider model input_tokens output_tokens latency_ms = do
    id ← draw
    let usage : Usage = record {
      id = id;
      user_id = user_id;
      provider = provider;
      model = model;
      input_tokens = input_tokens;
      output_tokens = output_tokens;
      cost = 0;
      estimated_cost_usd = estimate provider model input_tokens output_tokens;
      latency_ms = latency_ms;
    }
    update_tables (λ t. record t { usage = t.usage ++ usage ∷ [] })

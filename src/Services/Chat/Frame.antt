-- ===== src/Services/Chat/Frame.antt =====
-- The steps of a chat that leave the Redis server alone.
use ultimate_assistant_ai_ga.Services.Chat.{
  ChatRequest, ChatMessage, ChatHost, last_of, guard, check_message, check_text, guarded_text,
  from_cache, open_conversation, conversation_of, store_message, ask_router, expect_unified,
  account, count_cost, count_metric, cache_response, answer, or_answer, chat, lookup, both,
  is_cacheable, elapsed_ms, finish_at, finish_cost, finish, ask, response_of,
}
use ultimate_assistant_ai_ga.Base.{
  ℕ, String, Bool, true, false, Option, none, some, inl, inr, Bool-cases, Option-cases,
  if◌then◌else◌,
}
use ultimate_assistant_ai_ga.Base.Action.{
  Action, Exc, Keeps, >>=-Keeps, pure, raise_if-Keeps, or_raise, gets, ◌>>=◌,
}
use ultimate_assistant_ai_ga.Schemas.{RouteResult, UnifiedResponse, unified, media}
use ultimate_assistant_ai_ga.Db.{
  ChatWorld, create_conversation, add_message, record_usage, has_conversation, cache_operation,
}
use ultimate_assistant_ai_ga.Services.Cache.{CachedResponse}

module _ {Store V : Type 0} (host : ChatHost Store V) (P : Store → Type 0) where
  abbrev pub OnRedis : ChatWorld Store V → Type 0
  OnRedis w = P w.redis

  abbrev pub Spares : {A : Type 0} → Action (ChatWorld Store V) A → Type 0
  Spares m = Keeps OnRedis m

  or_raise-Spares : {A : Type 0} (e : Exc) (o : Option A) → Spares (or_raise e o)
  or_raise-Spares e none w h = h
  or_raise-Spares e (some a) w h = h

  then-Spares :
      {A B : Type 0} (m : Action (ChatWorld Store V) A) (f : A → Action (ChatWorld Store V) B)
      → Spares m
      → ((a : A) → Spares (f a))
      → Spares (m >>= f)
  then-Spares m f = >>=-Keeps OnRedis m f

  guard-Spares : (req : ChatRequest) → Spares (guard host req)
  unfolding guard
  guard-Spares req = message (last_of req.messages)
    where
      text : (o : Option String) → Spares (check_text host o)
      text none w h = h
      text (some s) w h = raise_if-Keeps OnRedis _ _ w h

      message : (o : Option ChatMessage) → Spares (check_message host o)
      message none w h = h
      message (some m) w h = text (guarded_text m.content) w h

  from_cache-Spares : (start : ℕ) (c : CachedResponse) → Spares (from_cache host start c)
  unfolding from_cache
  from_cache-Spares start c w h = elim (Option-cases c.model) [
    | inl e ↦ rw e h
    | inr (m, e) ↦ elim (Option-cases c.provider) [ inl d ↦ rw (e, d) h | inr (p, d) ↦ rw (e, d) h ]
  ]

  add_message-Spares :
      (id : ℕ) (role content : String) (m p : Option String) (i o : Option ℕ)
      → Spares (add_message {Store = Store} {V = V} id role content m p i o)
  unfolding add_message
  add_message-Spares id role content m p i o w h =
      elim (Bool-cases (has_conversation id w.tables)) [ inl e ↦ rw e h | inr e ↦ rw e h ]

  conversation-Spares : (user_id : ℕ) (o : Option String) → Spares (conversation_of host user_id o)
  unfolding create_conversation
  conversation-Spares user_id none w h = h
  conversation-Spares user_id (some String.[]) w h = h
  conversation-Spares user_id (some (String.◌∷◌ c s)) w h =
      or_raise-Spares _ (host.uuid.parse (String.◌∷◌ c s)) w h

  store_message-Spares : (id : ℕ) (o : Option ChatMessage) → Spares (store_message host id o)
  store_message-Spares id none w h = h
  store_message-Spares id (some m) w h = add_message-Spares id m.role _ none none none none w h

  open_conversation-Spares :
      (req : ChatRequest) (user_id : ℕ) → Spares (open_conversation host req user_id)
  unfolding open_conversation
  open_conversation-Spares req user_id =
      then-Spares (conversation_of host user_id req.conversation_id) _
        (conversation-Spares user_id req.conversation_id)
        (λ id.
          then-Spares (store_message host id (last_of req.messages)) _
            (store_message-Spares id (last_of req.messages)) (λ u w h. h))

  expect-Spares : (r : RouteResult) → Spares (expect_unified host r)
  expect-Spares (unified r) w h = h
  expect-Spares (media r) w h = h

  ask_router-Spares : (req : ChatRequest) (user_id : ℕ) → Spares (ask_router host req user_id)
  unfolding ask_router
  ask_router-Spares req user_id = then-Spares _ (expect_unified host) (λ w h. h) expect-Spares

  count_cost-Spares : (p m : String) (o : Option (ℕ × ℕ)) → Spares (count_cost host p m o)
  count_cost-Spares p m none w h = h
  count_cost-Spares p m (some (i, o)) w h = h

  usage-Spares :
      (u : ℕ) (p m : String) (i o ms : ℕ)
      → Spares (record_usage {Store = Store} {V = V} u p m i o ms)
  unfolding record_usage
  usage-Spares u p m i o ms w h = h

  account-Spares : (u c ms : ℕ) (r : UnifiedResponse) → Spares (account host u c ms r)
  unfolding account
  account-Spares u c ms r =
      then-Spares (count_cost host _ _ (both r.input_tokens r.output_tokens)) _
        (count_cost-Spares _ _ (both r.input_tokens r.output_tokens))
        (λ cost. then-Spares (record_usage u _ _ _ _ ms) _ (usage-Spares u _ _ _ _ ms) (λ x.
          then-Spares
            (add_message c "assistant" _ r.model r.provider r.input_tokens r.output_tokens) _
            (add_message-Spares c "assistant" _ r.model r.provider r.input_tokens r.output_tokens)
            (λ y w h. h)))

  module _ (req : ChatRequest) (user_id : ℕ)
      (cached : (c : ℕ) (cost : Option ℕ) (r : UnifiedResponse)
        → Spares (cache_response host req user_id c cost r)) where
    finish_at-Spares :
        (start c : ℕ) (r : UnifiedResponse) (ms : ℕ)
        → Spares (finish_at host req user_id start c r ms)
    finish_at-Spares start c r ms =
        then-Spares (account host user_id c ms r) (finish_cost host req user_id start c ms r)
          (account-Spares user_id c ms r)
          (λ cost.
            then-Spares (cache_response host req user_id c cost r)
              (λ u. pure (response_of host c ms r cost)) (cached c cost r) (λ u w h. h))

    finish-Spares : (start c : ℕ) (r : UnifiedResponse) → Spares (finish host req user_id start c r)
    finish-Spares start c r =
        then-Spares (gets (elapsed_ms host start)) (finish_at host req user_id start c r) (λ w h. h)
          (finish_at-Spares start c r)

    answer-Spares : (start : ℕ) → Spares (answer host req user_id start)
    unfolding answer
    answer-Spares start =
        then-Spares (open_conversation host req user_id) (ask host req user_id start)
          (open_conversation-Spares req user_id)
          (λ c.
            then-Spares (ask_router host req user_id) (finish host req user_id start c)
              (ask_router-Spares req user_id) (finish-Spares start c))

    miss-Spares :
        (b : Bool) → Spares (if b then count_metric host (cache_operation "miss") else pure tt)
    miss-Spares true w h = h
    miss-Spares false w h = h

    or_answer-Spares :
        (start : ℕ) (o : Option CachedResponse) → Spares (or_answer host req user_id start o)
    or_answer-Spares start (some c) = from_cache-Spares start c
    or_answer-Spares start none =
        then-Spares
          (if is_cacheable host req then count_metric host (cache_operation "miss") else pure tt)
          (λ u. answer host req user_id start) (miss-Spares (is_cacheable host req))
          (λ u. answer-Spares start)

    -- A chat keeps what holds of the Redis server if its last step, storing the response, does.
    pub chat-Spares : Spares (chat host req user_id)
    unfolding chat
    chat-Spares w h =
        then-Spares (guard host req)
          (λ u. gets (lookup host req user_id) >>= or_answer host req user_id (host.monotonic w))
          (guard-Spares req)
          (λ u.
            then-Spares (gets (lookup host req user_id))
              (or_answer host req user_id (host.monotonic w)) (λ w h. h)
              (or_answer-Spares (host.monotonic w)))
          w h

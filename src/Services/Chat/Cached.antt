-- ===== src/Services/Chat/Cached.antt =====
-- A response that was cached, asked for again.
use ultimate_assistant_ai_ga.Services.Chat.{
  ChatMessage, ChatRequest, ChatResponse, ChatHost, chat, guard, guarded_text, last_of, no_message,
  lookup, from_cache, cache_response, is_cacheable, cache_entry, query, elapsed_ms, answer,
  open_conversation, ask, ask_router, finish, finish_cost, account, response_of, or_answer,
}
use ultimate_assistant_ai_ga.Services.ChatSetup.{check_message, check_text}
use ultimate_assistant_ai_ga.Services.Guardrails.{pre_check}
use ultimate_assistant_ai_ga.Base.{
  ℕ, ◌+◌, ◌<◌, String, Bool, true, false, Option, none, some, [], ◌∷◌, ◌++◌, ◌≡◌, refl, sym, ap,
  ◌∙◌, if_pos, lt→ltb, ◌&&◌, arith, inl, inr, Bool-cases, Option-cases,
}
use ultimate_assistant_ai_ga.Base.Text.{truthy, or_else, is_empty}
use ultimate_assistant_ai_ga.Base.Action.{
  ok, err, Exc, raise_if, value_error, ok-injective, pure, gets, ◌>>=◌, >>=-eq-ok, >>=-ok,
}
use ultimate_assistant_ai_ga.Schemas.{UnifiedResponse}
use ultimate_assistant_ai_ga.Redis.{Key-discrete, cache, RedisLaws, text}
use ultimate_assistant_ai_ga.Db.{ChatWorld, cache_operation}
use ultimate_assistant_ai_ga.Services.Cache.{CacheQuery, CacheCodecLaws, CachedResponse, cache_ttl}
use ultimate_assistant_ai_ga.Services.Cache

or_else-truthy : (o : Option String) → is_empty (or_else o "") ≡ false → truthy o ≡ true
or_else-truthy none h = cc
or_else-truthy (some String.[]) h = cc
or_else-truthy (some (String.◌∷◌ c s)) h = refl

or_else-some : (o : Option String) → is_empty (or_else o "") ≡ false → o ≡ some (or_else o "")
or_else-some none h = cc
or_else-some (some String.[]) h = cc
or_else-some (some (String.◌∷◌ c s)) h = refl

or_else_self : (s : String) → or_else (some s) "" ≡ s
or_else_self String.[] = refl
or_else_self (String.◌∷◌ c s) = refl

module _ {Store V : Type 0} (host : ChatHost Store V) (server : RedisLaws host.server)
    (codec : CacheCodecLaws host.codec) where
  pub get-set :
      (now t : ℕ) (q : CacheQuery) (r : CachedResponse) (s : Store)
      → now < t + cache_ttl
      → Cache.get host.server host.codec now q (Cache.set host.server host.codec t q r s) ≡ some r
  unfolding Cache.get Cache.set
  get-set now t q r s h =
      let k = cache (host.codec.sha256 q) in
      rw
        (
          server.get-setex now t cache_ttl k k (text (host.codec.dumps r)) s,
          if_pos (Key-discrete k k) refl,
          lt→ltb now (t + cache_ttl) h,
        )
        (codec.loads-dumps r)

  cache_response-now :
      ((x : ChatWorld Store V) (s : Store) → host.now (record x { redis = s }) ≡ host.now x)
      → (req : ChatRequest) (u c : ℕ) (cost : Option ℕ) (r : UnifiedResponse)
        (w : ChatWorld Store V)
      → host.now (cache_response host req u c cost r w).1 ≡ host.now w
  unfolding cache_response
  cache_response-now clock req u c cost r w =
      elim (Bool-cases (is_cacheable host req && truthy r.content)) [
        | inl b ↦ rw b (clock w _)
        | inr b ↦ rw b refl
      ]

  -- The guardrails look at the request alone.
  raise_if-again :
      (b : Bool) (e : Exc) (x : Unit {0}) (w w2 : ChatWorld Store V)
      → (raise_if b e w).0 ≡ ok x
      → raise_if b e w2 ≡ (ok tt, w2)
  raise_if-again true e x w w2 h = cc
  raise_if-again false e x w w2 h = refl

  check_text-again :
      (o : Option String) (x : Unit {0}) (w w2 : ChatWorld Store V)
      → (check_text host o w).0 ≡ ok x
      → check_text host o w2 ≡ (ok tt, w2)
  check_text-again none x w w2 h = refl
  check_text-again (some t) x w w2 h =
      raise_if-again (pre_check host.regex t "free" false).blocked no_message x w w2 h

  check_message-again :
      (o : Option ChatMessage) (x : Unit {0}) (w w2 : ChatWorld Store V)
      → (check_message host o w).0 ≡ ok x
      → check_message host o w2 ≡ (ok tt, w2)
  check_message-again none x w w2 h = refl
  check_message-again (some m) x w w2 h = check_text-again (guarded_text m.content) x w w2 h

  guard-again :
      (req : ChatRequest) (x : Unit {0}) (w w2 : ChatWorld Store V)
      → (guard host req w).0 ≡ ok x
      → guard host req w2 ≡ (ok tt, w2)
  unfolding guard
  guard-again req x w w2 h = check_message-again (last_of req.messages) x w w2 h

  from_cache-cached :
      (start : ℕ) (c : CachedResponse) (resp : ChatResponse) (w : ChatWorld Store V)
      → (from_cache host start c w).0 ≡ ok resp
      → resp.cached ≡ true
  unfolding from_cache
  from_cache-cached start c resp w e = elim (Option-cases c.model) [
    | inl m ↦ let x : err (value_error "model") ≡ ok resp = rw m at e in cc
    | inr (model, m) ↦ elim (Option-cases c.provider) [
      | inl p ↦ let x : err (value_error "provider") ≡ ok resp = rw (m, p) at e in cc
      | inr (provider, p) ↦
          sym (ap (λ (r : ChatResponse). r.cached) (ok-injective (rw (m, p) at e)))
    ]
  ]

  module _ (req : ChatRequest) (user_id : ℕ) where
    -- An answer ends by offering the response to the cache.
    answer-end :
        (start : ℕ) (resp : ChatResponse) (w : ChatWorld Store V)
        → (answer host req user_id start w).0 ≡ ok resp
        → (c ms : ℕ) × (cost : Option ℕ) × (r : UnifiedResponse) × (w3 : ChatWorld Store V) × (resp
            ≡ response_of host c ms r cost)
          × ((answer host req user_id start w).1 ≡ (cache_response host req user_id c cost r w3).1)
    unfolding answer
    answer-end start resp w e =
        let (c, e1, e2) =
          >>=-eq-ok (open_conversation host req user_id) (ask host req user_id start) w e in
        let w1 = (open_conversation host req user_id w).1 in
        let (r, e3, e4) =
          >>=-eq-ok (ask_router host req user_id) (finish host req user_id start c) w1 e2 in
        let w2 = (ask_router host req user_id w1).1 in
        let ms = elapsed_ms host start w2 in
        let (cost, e5, e6) =
          >>=-eq-ok (account host user_id c ms r) (finish_cost host req user_id start c ms r) w2
            e4 in
        let w3 = (account host user_id c ms r w2).1 in
        let last = λ (x : Unit {0}). pure {W = ChatWorld Store V} (response_of host c ms r cost) in
        let (x, e7, e8) = >>=-eq-ok (cache_response host req user_id c cost r) last w3 e6 in
        (
          c,
          ms,
          cost,
          r,
          w3,
          sym (ok-injective e8),
          ap (λ p. p.1)
              (>>=-ok (open_conversation host req user_id) (ask host req user_id start) w c e1
                ∙ >>=-ok (ask_router host req user_id) (finish host req user_id start c) w1 r e3
                ∙ >>=-ok (account host user_id c ms r) (finish_cost host req user_id start c ms r)
                    w2 cost e5
                ∙ >>=-ok (cache_response host req user_id c cost r) last w3 x e7),
        )

    -- A chat that was not answered from the cache was answered after a miss.
    chat-miss :
        (resp : ChatResponse) (w : ChatWorld Store V)
        → is_cacheable host req ≡ true
        → (chat host req user_id w).0 ≡ ok resp
        → resp.cached ≡ false
        → (x : Unit {0}) × ((guard host req w).0 ≡ ok x)
          × (chat host req user_id w
              ≡ answer host req user_id
                  (host.monotonic w)
                  (record w { metrics = w.metrics ++ cache_operation "miss" ∷ [] }))
    unfolding chat
    chat-miss resp w cacheable e fresh =
        let next = λ (x : Unit {0}).
          gets (lookup host req user_id) >>= or_answer host req user_id (host.monotonic w) in
        let (x, passed, rest) = >>=-eq-ok (guard host req) next w e in
        let same = guard-again req x w w passed in
        elim (Option-cases (lookup host req user_id w)) [
          | inr (c, found) ↦
              let hit : (from_cache host (host.monotonic w) c w).0 ≡ ok resp =
                rw (same, found) at e in
              let y = from_cache-cached (host.monotonic w) c resp w hit in
              let z : true ≡ false = sym y ∙ fresh in cc
          | inl nothing ↦ (x, passed, rw (same, nothing, cacheable) refl)
        ]

    module _ (conv_id : ℕ) (cost_usd : Option ℕ) (result : UnifiedResponse)
        (w w2 : ChatWorld Store V) (cacheable : is_cacheable host req ≡ true)
        (content : truthy result.content ≡ true)
        (same_model : or_else req.model "" ≡ or_else result.model "")
        (same_provider : or_else req.provider "" ≡ or_else result.provider "")
        (soon : host.now w2 < host.now w + cache_ttl) where
      abbrev asked_for : CacheQuery
      asked_for = query host req user_id (or_else result.provider "") (or_else result.model "")

      stored :
          Cache.get host.server host.codec
            (host.now w2)
            asked_for
            (cache_response host req user_id conv_id cost_usd result w).1.redis
          ≡ some (cache_entry host conv_id cost_usd result)
      unfolding cache_response
      stored =
          rw (cacheable, content)
            (get-set (host.now w2) (host.now w) asked_for (cache_entry host conv_id cost_usd result)
              w.redis soon)

      lookup-cached :
          Cache.get host.server host.codec (host.now w2) asked_for w2.redis
            ≡ some (cache_entry host conv_id cost_usd result)
          → lookup host req user_id w2 ≡ some (cache_entry host conv_id cost_usd result)
      unfolding lookup
      lookup-cached found = rw (cacheable, same_model, same_provider) found

    chat-from_cache :
        (c : CachedResponse) (model provider : String) (w : ChatWorld Store V)
        → guard host req w ≡ (ok tt, w)
        → lookup host req user_id w ≡ some c
        → c.model ≡ some model
        → c.provider ≡ some provider
        → let counted = record w { metrics = w.metrics ++ cache_operation "hit" ∷ [] } in
          chat host req user_id w ≡ (
            ok (record {
              id = c.conversation_id;
              content = c.content;
              model = model;
              provider = provider;
              input_tokens = c.input_tokens;
              output_tokens = c.output_tokens;
              latency_ms = elapsed_ms host (host.monotonic w) counted;
              estimated_cost_usd = c.estimated_cost_usd;
              tool_calls = none;
              cached = true;
            }),
            record counted { drawn = w.drawn + 1 },
          )
    unfolding chat from_cache
    chat-from_cache c model provider w passed found m p = rw (passed, found, m, p) refl

    -- A cacheable request that a provider answered, with a text, as the provider and the model that the request names:
    -- when the same user asks it again within an hour of the first answer, and the server still gives for it what the
    -- first chat left there, it is answered from the cache, with the conversation, the text, the model, the provider,
    -- the tokens and the cost of the first response, without its tool calls, without asking the router and without
    -- writing to the database. The server's clock is supposed not to move while the cache is written.
    pub chat-hit :
        (resp : ChatResponse) (w w2 : ChatWorld Store V)
        → is_cacheable host req ≡ true
        → (chat host req user_id w).0 ≡ ok resp
        → resp.cached ≡ false
        → is_empty resp.content ≡ false
        → (req.model ≡ some resp.model) × (is_empty resp.model ≡ false)
        → (req.provider ≡ some resp.provider) × (is_empty resp.provider ≡ false)
        → ((x : ChatWorld Store V) (s : Store) → host.now (record x { redis = s }) ≡ host.now x)
        → let w1 = (chat host req user_id w).1 in
          let q = query host req user_id resp.provider resp.model in
          host.now w2 < host.now w1 + cache_ttl
          → Cache.get host.server host.codec (host.now w2) q w2.redis
            ≡ Cache.get host.server host.codec (host.now w2) q w1.redis
          → let counted = record w2 { metrics = w2.metrics ++ cache_operation "hit" ∷ [] } in
            chat host req user_id w2 ≡ (
              ok (record resp {
                latency_ms = elapsed_ms host (host.monotonic w2) counted;
                tool_calls = none;
                cached = true;
              }),
              record counted { drawn = w2.drawn + 1 },
            )
    chat-hit resp w w2 cacheable answered fresh said (m, model) (p, provider) clock soon kept =
        let (x, passed, missed) = chat-miss resp w cacheable answered fresh in
        let miss = record w { metrics = w.metrics ++ cache_operation "miss" ∷ [] } in
        let (c, ms, cost, r, w3, given, ended) =
          answer-end (host.monotonic w) resp miss (ap (λ z. z.0) (sym missed) ∙ answered) in
        let counted = record w2 { metrics = w2.metrics ++ cache_operation "hit" ∷ [] } in
        let left : (chat host req user_id w).1 ≡ (cache_response host req user_id c cost r w3).1 =
          ap (λ z. z.1) missed ∙ ended in
        let its_text : or_else r.content "" ≡ resp.content = ap (λ z. z.content) (sym given) in
        let its_model : or_else r.model "" ≡ resp.model = ap (λ z. z.model) (sym given) in
        let its_provider : or_else r.provider "" ≡ resp.provider =
          ap (λ z. z.provider) (sym given) in
        let content = or_else-truthy r.content (ap is_empty its_text ∙ said) in
        let same_model : or_else req.model "" ≡ or_else r.model "" =
          ap (λ o. or_else o "") m ∙ or_else_self resp.model ∙ sym its_model in
        let same_provider : or_else req.provider "" ≡ or_else r.provider "" =
          ap (λ o. or_else o "") p ∙ or_else_self resp.provider ∙ sym its_provider in
        let time : host.now (chat host req user_id w).1 ≡ host.now w3 =
          ap host.now left ∙ cache_response-now clock req user_id c cost r w3 in
        let soon' : host.now w2 < host.now w3 + cache_ttl = omega arith in
        let same_query : query host req user_id (or_else r.provider "") (or_else r.model "")
            ≡ query host req user_id resp.provider resp.model =
          ap (λ n. query host req user_id n (or_else r.model "")) its_provider
          ∙ ap (query host req user_id resp.provider) its_model in
        let at = Cache.get host.server host.codec (host.now w2) in
        let read =
          ap (λ q. at q w2.redis) same_query
          ∙ (kept
              ∙ (ap (λ z. at (query host req user_id resp.provider resp.model) z.redis) left
                  ∙ (ap (λ q. at q (cache_response host req user_id c cost r w3).1.redis)
                        (sym same_query)
                      ∙ stored c cost r w3 w2 cacheable content same_model same_provider soon'))) in
        chat-from_cache (cache_entry host c cost r) (or_else r.model "") (or_else r.provider "") w2
          (guard-again req x w w2 passed)
          (lookup-cached c cost r w3 w2 cacheable content same_model same_provider soon' read)
          (or_else-some r.model (ap is_empty its_model ∙ model))
          (or_else-some r.provider (ap is_empty its_provider ∙ provider))
        ∙ ap
            (λ (z : ChatResponse). (
              ok (record z {
                latency_ms = elapsed_ms host (host.monotonic w2) counted;
                tool_calls = none;
                cached = true;
              }),
              record counted { drawn = w2.drawn + 1 },
            ))
            (sym given)

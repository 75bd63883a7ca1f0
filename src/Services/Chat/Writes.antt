-- ===== src/Services/Chat/Writes.antt =====
-- The database after a chat that was answered by a provider.
use ultimate_assistant_ai_ga.Services.Chat.{
  ChatRequest, ChatMessage, ChatHost, ChatResponse, last_of, to_unified, str_content, tools_of,
  open_conversation, ask_router, expect_unified, behind, account, cache_response, is_cacheable,
  answer, ask, finish, finish_cost, response_of, elapsed_ms,
}
use ultimate_assistant_ai_ga.Services.Chat.Effects.{
  asked, open_conversation-Asked, open_conversation-gateway, account-tables, answer_row, usage_row,
}
use ultimate_assistant_ai_ga.Base.{
  ℕ, ◌+◌, false, Option, some, List, [], ◌∷◌, ◌++◌, ◌≡◌, refl, sym, ap, subst, ◌∙◌, inl, inr,
  Bool-cases, map, ◌&&◌,
}
use ultimate_assistant_ai_ga.Base.Lists.{All}
use ultimate_assistant_ai_ga.Base.Text.{truthy, or_else}
use ultimate_assistant_ai_ga.Base.Action.{ok, pure, >>=-Keeps, >>=-eq-ok, >>=-ok, ok-injective}
use ultimate_assistant_ai_ga.Schemas.{
  UnifiedRequest, blank_request, RouteResult, UnifiedResponse, unified, media,
}
use ultimate_assistant_ai_ga.Db.{ChatWorld, Tables, MessageRow}

module _ {Store V : Type 0} (host : ChatHost Store V) where
  ask_router-tables :
      (req : ChatRequest) (u : ℕ) (w : ChatWorld Store V)
      → (ask_router host req u w).1.tables ≡ w.tables
  unfolding ask_router
  ask_router-tables req u w =
      >>=-Keeps (λ w'. w'.tables ≡ w.tables) (behind host (host.route _ u req.provider req.model))
        (expect_unified host) (λ w' h. h) expected w refl
    where
      expected :
          (r : RouteResult) (w' : ChatWorld Store V)
          → w'.tables ≡ w.tables
          → (expect_unified host r w').1.tables ≡ w.tables
      expected (unified r) w' h = h
      expected (media r) w' h = h

  cache_response-tables :
      (req : ChatRequest) (u c : ℕ) (cost : Option ℕ) (r : UnifiedResponse) (w : ChatWorld Store V)
      → (cache_response host req u c cost r w).1.tables ≡ w.tables
  unfolding cache_response
  cache_response-tables req u c cost r w =
      elim (Bool-cases (is_cacheable host req && truthy r.content)) [
        | inl b ↦ rw b refl
        | inr b ↦ rw b refl
      ]

  -- The response to an answer, up to the latency and the cost.
  abbrev pub answer_of : ℕ → UnifiedResponse → ChatResponse → ChatResponse
  answer_of c r resp = record {
    id = host.uuid.print c;
    content = or_else r.content "";
    model = or_else r.model "";
    provider = or_else r.provider "";
    input_tokens = r.input_tokens;
    output_tokens = r.output_tokens;
    latency_ms = resp.latency_ms;
    estimated_cost_usd = resp.estimated_cost_usd;
    tool_calls = r.tool_calls;
    cached = false;
  }

  -- What the router is asked.
  abbrev pub request_of : ChatRequest → UnifiedRequest
  request_of req = record blank_request {
    messages = some (
        map (λ (m : ChatMessage). record { role = m.role; content = str_content host m.content })
          req.messages);
    model = req.model;
    temperature = req.temperature;
    max_tokens = req.max_tokens;
    tools = tools_of req.tools;
    tool_choice = req.tool_choice;
  }

  -- What the steps after the provider's answer do.
  ask_router-eq-ok :
      (req : ChatRequest) (u : ℕ) (r : UnifiedResponse) (w : ChatWorld Store V)
      → (ask_router host req u w).0 ≡ ok r
      → (host.route (to_unified host req) u req.provider req.model w.gateway).0 ≡ ok (unified r)
  unfolding ask_router
  ask_router-eq-ok req u r w e =
      let asking = behind host (host.route (to_unified host req) u req.provider req.model) in
      let (x, e1, e2) = >>=-eq-ok asking (expect_unified host) w e in
      e1 ∙ expected x (asking w).1 e2
    where
      expected :
          (x : RouteResult) (w' : ChatWorld Store V)
          → (expect_unified host x w').0 ≡ ok r
          → ok x ≡ ok (unified r)
      expected (unified y) w' h = ap (λ z. ok (unified z)) (ok-injective h)
      expected (media y) w' h = cc

  abbrev Finished : ℕ → ℕ → UnifiedResponse → ChatResponse → ChatWorld Store V → Tables → Type 0
  Finished u c r resp w t =
      (t ≡ record w.tables {
        messages = w.tables.messages ++ answer_row host (w.drawn + 1) c r ∷ [];
        usage = w.tables.usage ++ usage_row host w.drawn u resp.latency_ms r ∷ [];
      })
      × (resp ≡ answer_of c r resp)

  finish-Finished :
      (req : ChatRequest) (u start c : ℕ) (r : UnifiedResponse) (resp : ChatResponse)
      (w : ChatWorld Store V)
      → (finish host req u start c r w).0 ≡ ok resp
      → Finished u c r resp w (finish host req u start c r w).1.tables
  finish-Finished req u start c r resp w e =
      let ms = elapsed_ms host start w in
      let (cost, e1, e2) =
        >>=-eq-ok (account host u c ms r) (finish_cost host req u start c ms r) w e in
      let w1 = (account host u c ms r w).1 in
      let (x, e3, e4) =
        >>=-eq-ok (cache_response host req u c cost r) (λ t. pure (response_of host c ms r cost)) w1
          e2 in
      let ran : finish host req u start c r w
          ≡ (ok (response_of host c ms r cost), (cache_response host req u c cost r w1).1) =
        >>=-ok (account host u c ms r) (finish_cost host req u start c ms r) w cost e1
        ∙ >>=-ok (cache_response host req u c cost r) (λ t. pure (response_of host c ms r cost)) w1
            x e3 in
      let same_response : response_of host c ms r cost ≡ resp = ok-injective e4 in
      subst (λ p. Finished u c r p w (finish host req u start c r w).1.tables) same_response
        (
          ap (λ p. p.1.tables) ran
              ∙ cache_response-tables req u c cost r w1
              ∙ account-tables host u c ms r cost w e1,
          refl,
        )

  -- A chat that was answered gives the answer that the router gave to its request when it was asked, in the world
  -- that the chat started with. It has stored the question, if there is one, and then that answer with its model,
  -- its provider and its tokens, as the last messages of the conversation of the response, and recorded one usage of
  -- the user with the provider, the model and the tokens of the answer and the latency of the response. Nothing else
  -- was added to the messages and the usage, and the response carries the answer's text, model, provider and tokens.
  pub answer_lem :
      (req : ChatRequest) (u start : ℕ) (resp : ChatResponse) (w : ChatWorld Store V)
      → (answer host req u start w).0 ≡ ok resp
      → let t = (answer host req u start w).1.tables in
        (c id : ℕ) × (r : UnifiedResponse) × (rows : List MessageRow) × ((host.route
            (request_of req)
            u
            req.provider
            req.model
            w.gateway).0
          ≡ ok (unified r))
        × (t.messages ≡ (w.tables.messages ++ rows) ++ answer_row host (id + 1) c r ∷ [])
        × All (λ (m : MessageRow). m.conversation_id ≡ c) rows
        × (map (λ (m : MessageRow). (m.role, m.content)) rows ≡ asked host (last_of req.messages))
        × (t.usage ≡ w.tables.usage ++ usage_row host id u resp.latency_ms r ∷ [])
        × (resp ≡ answer_of c r resp)
  unfolding answer
  answer_lem req u start resp w e =
      let (c, e1, e2) = >>=-eq-ok (open_conversation host req u) (ask host req u start) w e in
      let w1 = (open_conversation host req u w).1 in
      let (r, e3, e4) = >>=-eq-ok (ask_router host req u) (finish host req u start c) w1 e2 in
      let w2 = (ask_router host req u w1).1 in
      let ran : answer host req u start w ≡ finish host req u start c r w2 =
        >>=-ok (open_conversation host req u) (ask host req u start) w c e1
        ∙ >>=-ok (ask_router host req u) (finish host req u start c) w1 r e3 in
      let (tables, given) = finish-Finished req u start c r resp w2 e4 in
      let (rows, added, theirs, printed, used) = open_conversation-Asked host req u c w e1 in
      let same_tables = ask_router-tables req u w1 in
      let same_gateway = open_conversation-gateway host req u w in
      (
        c,
        w2.drawn,
        r,
        rows,
        ap (λ g. (host.route (request_of req) u req.provider req.model g).0) (sym same_gateway)
            ∙ ask_router-eq-ok req u r w1 e3,
        ap (λ p. p.1.tables.messages) ran
            ∙ ap (λ t. t.messages) tables
            ∙ ap (λ t. t.messages ++ answer_row host (w2.drawn + 1) c r ∷ []) same_tables
            ∙ ap (λ ms. ms ++ answer_row host (w2.drawn + 1) c r ∷ []) added,
        theirs,
        printed,
        ap (λ p. p.1.tables.usage) ran
            ∙ ap (λ t. t.usage) tables
            ∙ ap (λ t. t.usage ++ usage_row host w2.drawn u resp.latency_ms r ∷ []) same_tables
            ∙ ap (λ us. us ++ usage_row host w2.drawn u resp.latency_ms r ∷ []) used,
        given,
      )

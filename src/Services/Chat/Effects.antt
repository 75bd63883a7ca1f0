-- ===== src/Services/Chat/Effects.antt =====
-- What the steps of a chat write to the database.
use ultimate_assistant_ai_ga.Services.Chat.{
  ChatRequest, ChatMessage, ChatHost, last_of, open_conversation, conversation_of, store_message,
  store_question, str_content, account, both, or_zero,
}
use ultimate_assistant_ai_ga.Base.{
  ℕ, ◌+◌, String, Option, none, some, List, [], ◌∷◌, ◌++◌, map, ◌≡◌, refl, sym, ap, subst, ◌∙◌, inl,
  inr, Bool-cases, Option-cases,
}
use ultimate_assistant_ai_ga.Base.Lists.{All, append-nil}
use ultimate_assistant_ai_ga.Base.Text.{or_else}
use ultimate_assistant_ai_ga.Base.Action.{
  ok, err, other_error, pure, >>=-Keeps, >>=-eq-ok, >>=-ok, ok-injective,
}
use ultimate_assistant_ai_ga.Schemas.{UnifiedResponse}
use ultimate_assistant_ai_ga.Db.{
  ChatWorld, Tables, MessageRow, Usage, create_conversation, add_message, record_usage,
  has_conversation,
}
use ultimate_assistant_ai_ga.Services.Cost.{estimate}

module _ {Store V : Type 0} (host : ChatHost Store V) where
  -- the row of the answer
  abbrev pub answer_row : ℕ → ℕ → UnifiedResponse → MessageRow
  answer_row id c r = record {
    id = id;
    conversation_id = c;
    role = "assistant";
    content = or_else r.content "";
    modality = "text";
    model_used = r.model;
    provider_used = r.provider;
    input_tokens = r.input_tokens;
    output_tokens = r.output_tokens;
  }

  abbrev pub usage_row : ℕ → ℕ → ℕ → UnifiedResponse → Usage
  usage_row id u ms r = record {
    id = id;
    user_id = u;
    provider = or_else r.provider "";
    model = or_else r.model "";
    input_tokens = or_zero r.input_tokens;
    output_tokens = or_zero r.output_tokens;
    cost = 0;
    estimated_cost_usd =
        estimate (or_else r.provider "") (or_else r.model "") (or_zero r.input_tokens)
          (or_zero r.output_tokens);
    latency_ms = ms;
  }

  pub account-tables :
      (u c ms : ℕ) (r : UnifiedResponse) (cost : Option ℕ) (w : ChatWorld Store V)
      → (account host u c ms r w).0 ≡ ok cost
      → (account host u c ms r w).1.tables ≡ record w.tables {
        messages = w.tables.messages ++ answer_row (w.drawn + 1) c r ∷ [];
        usage = w.tables.usage ++ usage_row w.drawn u ms r ∷ [];
      }
  unfolding account record_usage add_message
  account-tables u c ms r cost w e = elim (Option-cases (both r.input_tokens r.output_tokens)) [
    | inl b ↦ elim (Bool-cases (has_conversation c w.tables)) [
      | inl k ↦ rw (b, k) refl
      | inr k ↦ let x : err (other_error "IntegrityError") ≡ ok cost = rw (b, k) at e in cc
    ]
    | inr (io, b) ↦ elim (Bool-cases (has_conversation c w.tables)) [
      | inl k ↦ rw (b, k) refl
      | inr k ↦ let x : err (other_error "IntegrityError") ≡ ok cost = rw (b, k) at e in cc
    ]
  ]

  -- the role and the content of the question as it is stored
  abbrev pub asked : Option ChatMessage → List (String × String)
  asked none = []
  asked (some m) = (m.role, str_content host m.content) ∷ []

  -- What storing the question appends: rows of the conversation.
  abbrev pub Asked : Option ChatMessage → ℕ → Tables → Tables → Type 0
  Asked o c t t' =
      (rows : List MessageRow) × (t'.messages ≡ t.messages ++ rows)
      × All (λ (m : MessageRow). m.conversation_id ≡ c) rows
      × (map (λ (m : MessageRow). (m.role, m.content)) rows ≡ asked o)
      × (t'.usage ≡ t.usage)

  store_message-Asked :
      (c : ℕ) (o : Option ChatMessage) (w : ChatWorld Store V)
      → (store_message host c o w).0 ≡ ok tt
      → Asked o c w.tables (store_message host c o w).1.tables
  unfolding add_message
  store_message-Asked c none w e = ([], sym (append-nil w.tables.messages), tt, refl, refl)
  store_message-Asked c (some m) w e = elim (Bool-cases (has_conversation c w.tables)) [
    | inl k ↦ rw k (_, refl, (refl, tt), refl, refl)
    | inr k ↦ let x : err (other_error "IntegrityError") ≡ ok tt = rw k at e in cc
  ]

  conversation-tables :
      (u : ℕ) (o : Option String) (w : ChatWorld Store V)
      → let t = (conversation_of host u o w).1.tables in
        (t.messages ≡ w.tables.messages) × (t.usage ≡ w.tables.usage)
  unfolding create_conversation
  conversation-tables u none w = (refl, refl)
  conversation-tables u (some String.[]) w = (refl, refl)
  conversation-tables u (some (String.◌∷◌ c s)) w =
      elim (Option-cases (host.uuid.parse (String.◌∷◌ c s))) [
        | inl e ↦ rw e (refl, refl)
        | inr (n, e) ↦ rw e (refl, refl)
      ]

  pub open_conversation-Asked :
      (req : ChatRequest) (u c : ℕ) (w : ChatWorld Store V)
      → (open_conversation host req u w).0 ≡ ok c
      → Asked (last_of req.messages) c w.tables (open_conversation host req u w).1.tables
  unfolding open_conversation
  open_conversation-Asked req u c w e =
      let o = last_of req.messages in
      let (d, e1, e2) =
        >>=-eq-ok (conversation_of host u req.conversation_id) (store_question host req) w e in
      let w1 = (conversation_of host u req.conversation_id w).1 in
      let (x, e3, e4) = >>=-eq-ok (store_message host d o) (λ u. pure d) w1 e2 in
      let same_id : d ≡ c = ok-injective e4 in
      let ran : open_conversation host req u w ≡ (ok d, (store_message host d o w1).1) =
        >>=-ok (conversation_of host u req.conversation_id) (store_question host req) w d e1
        ∙ >>=-ok (store_message host d o) (λ u. pure d) w1 x e3 in
      let (rows, added, theirs, printed, used) = store_message-Asked d o w1 e3 in
      let (messages, usage) = conversation-tables u req.conversation_id w in
      (
        rows,
        ap (λ r. r.1.tables.messages) ran ∙ added ∙ ap (λ ms. ms ++ rows) messages,
        subst (λ n. All (λ (m : MessageRow). m.conversation_id ≡ n) rows) same_id theirs,
        printed,
        ap (λ r. r.1.tables.usage) ran ∙ used ∙ usage,
      )

  conversation-gateway :
      (u : ℕ) (o : Option String) (w : ChatWorld Store V)
      → (conversation_of host u o w).1.gateway ≡ w.gateway
  unfolding create_conversation
  conversation-gateway u none w = refl
  conversation-gateway u (some String.[]) w = refl
  conversation-gateway u (some (String.◌∷◌ c s)) w =
      elim (Option-cases (host.uuid.parse (String.◌∷◌ c s))) [
        | inl e ↦ rw e refl
        | inr (n, e) ↦ rw e refl
      ]

  store_message-gateway :
      (c : ℕ) (o : Option ChatMessage) (w : ChatWorld Store V)
      → (store_message host c o w).1.gateway ≡ w.gateway
  unfolding add_message
  store_message-gateway c none w = refl
  store_message-gateway c (some m) w = elim (Bool-cases (has_conversation c w.tables)) [
    | inl k ↦ rw k refl
    | inr k ↦ rw k refl
  ]

  -- The router's world is as it was when the router is asked.
  pub open_conversation-gateway :
      (req : ChatRequest) (u : ℕ) (w : ChatWorld Store V)
      → (open_conversation host req u w).1.gateway ≡ w.gateway
  unfolding open_conversation
  open_conversation-gateway req u w =
      let Same : ChatWorld Store V → Type 0 = λ w'. w'.gateway ≡ w.gateway in
      >>=-Keeps Same (conversation_of host u req.conversation_id) (store_question host req)
        (λ w' h. conversation-gateway u req.conversation_id w' ∙ h)
        (λ c.
          >>=-Keeps Same (store_message host c (last_of req.messages)) (λ x. pure c)
            (λ w' h. store_message-gateway c (last_of req.messages) w' ∙ h) (λ x w' h. h))
        w refl

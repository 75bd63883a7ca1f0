-- ===== src/Services/Streaming/Sessions.antt =====
-- A WebSocket session of the chat: what is sent for each of its messages, in their order.
use ultimate_assistant_ai_ga.Services.Streaming.{
  Payload, chunk_data, error_data, done_data, error_done_data, no_chat, SocketMessage, Socket,
  socket_request, sent_stream, ended_with, answer, answer_stream, with_key, receive_loop,
  websocket_chat, chat_stream, push_sent, get_default,
}
use ultimate_assistant_ai_ga.Base.{
  ℕ, String, true, Option, none, some, List, [], ◌∷◌, ◌++◌, ◌≡◌, refl, sym, ap, ◌∙◌, ◌⊎◌, inl, inr,
  map, subst, false,
}
use ultimate_assistant_ai_ga.Base.Lists.{append-nil}
use ultimate_assistant_ai_ga.Base.Text.{concat}
use ultimate_assistant_ai_ga.Base.Action.{Exc, Result, ok, err, Result-cases}
use ultimate_assistant_ai_ga.Exceptions.{str_exc}
use ultimate_assistant_ai_ga.Schemas.{UnifiedRequest, Chunk}
use ultimate_assistant_ai_ga.Providers.Interface.{StreamMethod}
use ultimate_assistant_ai_ga.Providers.Registry.{ProviderRegistry, get_provider}
use ultimate_assistant_ai_ga.Services.Interfaces.{KeyStore}
use mathlib.Core.List.{append_assoc}

abbrev sent_chunks : List Chunk → List Payload
sent_chunks = map (λ (c : Chunk). chunk_data c.content c.finish_reason c.model)

-- How a stream ends: with a `done`, or with the text of what the provider raised.
abbrev pub IsEnd : Option Exc → Payload → Type 0
IsEnd none end = end ≡ done_data
IsEnd (some e) end = end ≡ error_done_data (str_exc e)

ended_with-IsEnd : (o : Option Exc) → IsEnd o (ended_with o)
ended_with-IsEnd none = refl
ended_with-IsEnd (some e) = refl

module _ {W : Type 0} (registry : ProviderRegistry W) (key_service : KeyStore W) (user_id : ℕ) where
  -- With the user's key: a provider that does not chat gets nothing but an error, and of one that does, all the
  -- chunks are sent that it streams.
  abbrev pub StreamedTo :
      Option (StreamMethod W)
      → String
      → UnifiedRequest
      → String
      → W
      → List Chunk
      → Payload
      → W
      → Type 0
  StreamedTo none name req key w chunks end w' =
      (chunks ≡ [])
      × (end ≡ error_data (concat ("Provider " ∷ name ∷ " does not support chat" ∷ [])))
      × (w' ≡ w)
  StreamedTo (some stream) name req key w chunks end w' =
      (chunks ≡ (stream req key w).0.chunks)
      × IsEnd (stream req key w).0.raised end
      × (w' ≡ (stream req key w).1)

  -- The chunks and the end that a message is answered with.
  abbrev pub Replied : SocketMessage → W → List Chunk → Payload → W → Type 0
  Replied m w chunks end w' =
      (name : String) × (((m.provider ≡ none) × (name ≡ "openai")) ⊎ (m.provider ≡ some name))
      × (((e : Exc) × (key_service.get_decrypted_key user_id name w ≡ (err e, w'))
            × (chunks ≡ [])
            × (end ≡ error_data (str_exc e)))
          ⊎ ((key : String) × (w1 : W) × (key_service.get_decrypted_key user_id name w
                ≡ (ok key, w1))
              × StreamedTo (chat_stream registry (get_provider registry name)) name
                  (socket_request m) key w1 chunks end w'))

  -- What is sent in a session: for each text, until one is no message, the chunks, then the end, and then what the
  -- texts after it get.
  abbrev pub Session : (String → Result SocketMessage) → List String → W → List Payload → Type 0
  Session loads [] w sent = sent ≡ []
  Session loads (text ∷ texts) w sent =
      ((e : Exc) × (loads text ≡ err e) × (sent ≡ []))
      ⊎ ((m : SocketMessage) × (chunks : List Chunk) × (end : Payload) × (w' : W) × (rest : List
            Payload)
          × (loads text ≡ ok m)
          × Replied m w chunks end w'
          × Session loads texts w' rest
          × (sent ≡ sent_chunks chunks ++ end ∷ rest))

  -- an answer, by its chunks and its end
  abbrev Parts : (List Chunk → Payload → W → Type 0) → List Payload × W → Type 0
  Parts P (ps, w') =
      (chunks : List Chunk) × (end : Payload) × (ps ≡ sent_chunks chunks ++ end ∷ [])
      × P chunks end w'

  Parts-answer_stream :
      (name : String) (o : Option (StreamMethod W)) (req : UnifiedRequest) (key : String) (w : W)
      → Parts
          (StreamedTo o name req key w)
          (answer_stream registry key_service user_id name o req key w)
  unfolding sent_stream
  Parts-answer_stream name none req key w = ([], no_chat name, refl, (refl, refl, refl))
  Parts-answer_stream name (some stream) req key w = (
    (stream req key w).0.chunks,
    ended_with (stream req key w).0.raised,
    refl,
    (refl, ended_with-IsEnd (stream req key w).0.raised, refl),
  )

  name_of :
      (o : Option String)
      → ((o ≡ none) × (get_default o "openai" ≡ "openai")) ⊎ (o ≡ some (get_default o "openai"))
  name_of none = inl (refl, refl)
  name_of (some s) = inr refl

  Parts-with_key :
      (m : SocketMessage) (w : W) (r : Result String × W)
      → key_service.get_decrypted_key user_id (get_default m.provider "openai") w ≡ r
      → Parts (Replied m w) (
          with_key registry key_service user_id
            (get_default m.provider "openai")
            (socket_request m)
            r)
  Parts-with_key m w (err e, w') got = (
    [],
    error_data (str_exc e),
    refl,
    (get_default m.provider "openai", name_of m.provider, inl (e, got, refl, refl)),
  )
  Parts-with_key m w (ok key, w1) got =
      let name = get_default m.provider "openai" in
      let (chunks, end, sent, streamed) =
        Parts-answer_stream name (chat_stream registry (get_provider registry name))
          (socket_request m) key w1 in
      (chunks, end, sent, (name, name_of m.provider, inr (key, w1, got, streamed)))

  Parts-answer :
      (m : SocketMessage) (w : W) → Parts (Replied m w) (answer registry key_service user_id m w)
  unfolding answer
  Parts-answer m w = Parts-with_key m w _ refl

  module _ (loads : String → Result SocketMessage) where
    receive_loop-Session :
        (texts : List String) (s : Socket) (w : W)
        → (out : List Payload) × ((receive_loop registry key_service user_id loads texts
              (s, w)).0.sent
            ≡ s.sent ++ out)
          × Session loads texts w out
    unfolding receive_loop
    receive_loop-Session [] s w = ([], sym (append-nil s.sent), refl)
    receive_loop-Session (t ∷ ts) s w = elim (Result-cases (loads t)) [
      | inr (x, e) ↦ rw (receive_loop, e) ([], sym (append-nil s.sent), inl (x, refl, refl))
      | inl (m, e) ↦
          let (chunks, end, sent, replied) = Parts-answer m w in
          let ps = (answer registry key_service user_id m w).0 in
          let w' = (answer registry key_service user_id m w).1 in
          let (out, more, session) =
            receive_loop-Session ts (push_sent registry key_service user_id ps s) w' in
          rw (receive_loop, e)
            (
              sent_chunks chunks ++ end ∷ out,
              more
                  ∙ ap (λ qs. (s.sent ++ qs) ++ out) sent
                  ∙ append_assoc s.sent (sent_chunks chunks ++ end ∷ []) out
                  ∙ ap (λ qs. s.sent ++ qs) (append_assoc (sent_chunks chunks) (end ∷ []) out),
              inr (m, chunks, end, w', out, refl, replied, session, refl),
            )
    ]

    -- A session answers every text before the first that is no message, in their order, and sends nothing else. For a
    -- message it sends the provider's chunks in their order and then one end, a `done` or an error, after which nothing
    -- more comes for it: where the user's key is not to be had or the provider does not chat, the error alone, and where
    -- the provider raises, the error after the chunks. The socket is closed at the end.
    pub websocket_chat_lem :
        (texts : List String) (w : W)
        → let s = (websocket_chat registry key_service user_id loads texts w).0 in
          Session loads texts w s.sent × (s.closed ≡ true)
    unfolding websocket_chat
    websocket_chat_lem texts w =
        let (out, sent, session) =
          receive_loop-Session texts (record { accepted = true; sent = []; closed = false }) w in
        (subst (λ ps. Session loads texts w ps) (sym sent) session, refl)

-- ===== src/Db/Conversations.antt =====
-- Conversations belong to their users: reading, deleting and rolling back.
use ultimate_assistant_ai_ga.Db.{
  Conversation, MessageRow, ChatWorld, Tables, get_by_id, messages_of, delete_conversation,
  is_conversation,
}
use ultimate_assistant_ai_ga.Base.{
  ℕ, true, false, none, some, List, [], ◌∷◌, ◌≡◌, refl, arith, ◌==◌, ◌&&◌, find_first, keep, not,
  ◌⊎◌, inl, inr, Bool-cases, Option-cases,
}
use ultimate_assistant_ai_ga.Base.Action.{ok}
use ultimate_assistant_ai_ga.Base.Lists.{All, keep-All, keep-keep}

find-dropped :
    (c v : ℕ) (l : List Conversation)
    → find_first (is_conversation c v) (keep (λ (x : Conversation). not (x.id == c)) l) ≡ none
find-dropped c v [] = refl
find-dropped c v (x ∷ l) = elim (Bool-cases (x.id == c)) [
  | inl e ↦ rw e (find-dropped c v l)
  | inr e ↦ rw (e, e) (find-dropped c v l)
]

find-others :
    (c d v : ℕ) (l : List Conversation)
    → (d == c) ≡ false
    → find_first (is_conversation d v) (keep (λ (x : Conversation). not (x.id == c)) l)
      ≡ find_first (is_conversation d v) l
find-others c d v [] n = refl
find-others c d v (x ∷ l) n = ground (arith, find-others c d v l n)

find-owner :
    (c v : ℕ) (l : List Conversation) (x : Conversation)
    → find_first (is_conversation c v) l ≡ some x
    → x.user_id ≡ v
find-owner c v [] x e = cc
find-owner c v (y ∷ l) x e = elim (Bool-cases (is_conversation c v y)) [
  | inl b ↦ let f : some y ≡ some x = rw b at e in let g : y ≡ x = cc in rw (← g) (grind arith)
  | inr b ↦ find-owner c v l x (rw b at e)
]

find-nobody :
    (c v : ℕ) (l : List Conversation)
    → find_first (is_conversation c v) l ≡ none
    → All (λ (x : Conversation). is_conversation c v x ≡ false) l
find-nobody c v [] e = tt
find-nobody c v (y ∷ l) e = elim (Bool-cases (is_conversation c v y)) [
  | inl b ↦ let f : some y ≡ none = rw b at e in cc
  | inr b ↦ (b, find-nobody c v l (rw b at e))
]

get_by_id-owner :
    (c v : ℕ) (t : Tables) (x : Conversation) (ms : List MessageRow)
    → get_by_id c v t ≡ some (x, ms)
    → x.user_id ≡ v
unfolding get_by_id
get_by_id-owner c v t x ms e =
    elim (Option-cases (find_first (is_conversation c v) t.conversations)) [
      | inl f ↦ let g : none ≡ some (x, ms) = rw f at e in cc
      | inr (y, f) ↦
          let g : some (y, messages_of c t) ≡ some (x, ms) = rw f at e in
          let h : y ≡ x = cc in rw (← h) (find-owner c v t.conversations y f)
    ]

get_by_id-none :
    (c v : ℕ) (t : Tables)
    → get_by_id c v t ≡ none
    → All (λ (x : Conversation). is_conversation c v x ≡ false) t.conversations
unfolding get_by_id
get_by_id-none c v t e = elim (Option-cases (find_first (is_conversation c v) t.conversations)) [
  | inl f ↦ find-nobody c v t.conversations f
  | inr (y, f) ↦ let g : some (y, messages_of c t) ≡ none = rw f at e in cc
]

module _ (c d : ℕ) (n : (d == c) ≡ false) where
  messages-others :
      (l : List MessageRow)
      → keep
          (λ (m : MessageRow). m.conversation_id == d)
          (keep (λ m. not (m.conversation_id == c)) l)
        ≡ keep (λ m. m.conversation_id == d) l
  messages-others l =
      keep-keep (λ (m : MessageRow). m.conversation_id == d)
        (λ (m : MessageRow). not (m.conversation_id == c)) l (λ m h. grind arith)

abbrev without : ℕ → Tables → Tables
without c t = record t {
  conversations = keep (λ x. not (x.id == c)) t.conversations;
  messages = keep (λ m. not (m.conversation_id == c)) t.messages;
}

get_by_id-gone : (c v : ℕ) (t : Tables) → get_by_id c v (without c t) ≡ none
unfolding get_by_id
get_by_id-gone c v t = rw (find-dropped c v t.conversations) refl

get_by_id-others :
    (c d v : ℕ) (t : Tables) → (d == c) ≡ false → get_by_id d v (without c t) ≡ get_by_id d v t
unfolding get_by_id messages_of
get_by_id-others c d v t n =
    elim (Option-cases (find_first (is_conversation d v) t.conversations)) [
      | inl e ↦ rw (find-others c d v t.conversations n, e) refl
      | inr (x, e) ↦
          rw (find-others c d v t.conversations n, e, messages-others c d n t.messages) refl
    ]

module _ {Store V : Type 0} where
  -- A conversation that its owner deletes is gone for everybody and so are its messages, every other conversation
  -- reads as before, with its messages, and the usage, the conversations of other ids and whatever is not in the
  -- tables stay as they are. Whoever does not own a conversation is told so and changes nothing.
  pub delete_conversation_lem :
      (conv_id user_id : ℕ) (w : ChatWorld Store V)
      → let (r, w') = delete_conversation conv_id user_id w in
        ((c : Conversation) × (ms : List MessageRow) × (get_by_id conv_id user_id w.tables
            ≡ some (c, ms))
          × (c.user_id ≡ user_id)
          × (r ≡ ok true)
          × ((v : ℕ) → get_by_id conv_id v w'.tables ≡ none)
          × All (λ (m : MessageRow). not (m.conversation_id == conv_id) ≡ true) w'.tables.messages
          × ((d v : ℕ) → (d == conv_id) ≡ false → get_by_id d v w'.tables ≡ get_by_id d v w.tables)
          × (w' ≡ record w {
            tables = record w.tables {
              conversations = w'.tables.conversations;
              messages = w'.tables.messages;
            };
          }))
        ⊎ ((r ≡ ok false)
            × All
                (λ (c : Conversation). (c.id == conv_id && c.user_id == user_id) ≡ false)
                w.tables.conversations
            × (w' ≡ w))
  unfolding delete_conversation
  delete_conversation_lem conv_id user_id w =
      elim (Option-cases (get_by_id conv_id user_id w.tables)) [
        | inl e ↦ rw e (inr (refl, get_by_id-none conv_id user_id w.tables e, refl))
        | inr ((c, ms), e) ↦ rw e (
            inl (
              c,
              ms,
              refl,
              get_by_id-owner conv_id user_id w.tables c ms e,
              refl,
              λ v. get_by_id-gone conv_id v w.tables,
              keep-All (λ (m : MessageRow). not (m.conversation_id == conv_id)) w.tables.messages,
              λ d v n. get_by_id-others conv_id d v w.tables n,
              refl,
            ))
      ]

-- ===== src/Providers/Polling/Fal/Waits.antt =====
-- When a queued job of Fal's returns.
use ultimate_assistant_ai_ga.Base.{
  ℕ, zero, suc, ◌<◌, String, Bool, true, false, ◌≡◌, refl, [], ◌∷◌, inl, inr, arith, Bool-cases,
  if◌then◌else◌,
}
use ultimate_assistant_ai_ga.Base.Text.{concat}
use ultimate_assistant_ai_ga.Base.Action.{Result, ok, err, Result-cases, Action, ◌>>=◌, and_then}
use ultimate_assistant_ai_ga.Base.Json.{Json, null, object, Fields, is_true, get as get_entry}
use ultimate_assistant_ai_ga.Providers.Polling.{Client, is_one_of, lift}
use ultimate_assistant_ai_ga.Providers.Polling.Fal.{
  poll, request_url, job_failed, by_status, is_in, submit_and_poll,
}

abbrev pub is_completed : Json → Bool
is_completed = is_one_of ("COMPLETED" ∷ [])

abbrev pub is_failed : Json → Bool
is_failed = is_one_of ("FAILED" ∷ [])

module _ {W : Type 0} (client : Client W) (model key : String) (id : Json) where
  abbrev pub ask : W → Result Json × W
  ask w = client.get (concat (request_url client model id ∷ "/status" ∷ [])) key (client.sleep w)

  abbrev pub fetch : W → Result Json × W
  fetch = client.get (request_url client model id) key

  -- `k` rounds that find neither status lead from one world to the other.
  abbrev pub Waited : ℕ → W → W → Type 0
  Waited zero w w' = w ≡ w'
  Waited (suc k) w w' =
      (s : Json) × (st : Json) × (w1 : W) × (ask w ≡ (ok s, w1))
      × (get_entry "status" null s ≡ ok st)
      × (is_completed st ≡ false)
      × (is_failed st ≡ false)
      × Waited k w1 w'

  -- After fewer than `n` rounds the status was COMPLETED, and the result was fetched then.
  abbrev pub Completed : ℕ → W → Json → W → Type 0
  Completed n w x w' =
      (k : ℕ) × (w2 : W) × (s : Json) × (st : Json) × (w3 : W) × (k < n)
      × Waited k w w2
      × (ask w2 ≡ (ok s, w3))
      × (get_entry "status" null s ≡ ok st)
      × (is_completed st ≡ true)
      × (fetch w3 ≡ (ok x, w'))

  later :
      (n : ℕ) (w w1 w' : W) (s st x : Json)
      → ask w ≡ (ok s, w1)
      → get_entry "status" null s ≡ ok st
      → is_completed st ≡ false
      → is_failed st ≡ false
      → Completed n w1 x w'
      → Completed (suc n) w x w'
  later n w w1 w' s st x a g c f (k, w2, s', st', w3, lt, waited, a', g', c', x') =
      (suc k, w2, s', st', w3, omega arith, (s, st, w1, a, g, c, f, waited), a', g', c', x')

  abbrev go_on : ℕ → Json → Json → Action W Json
  go_on n s = by_status client model id key s (poll client n model id key)

  module _ (n : ℕ) (w w' : W) (x : Json)
      (ih : (w1 : W) → poll client n model id key w1 ≡ (ok x, w') → Completed n w1 x w') where
    -- a round, once the status was read
    by_status-ok :
        (w1 : W) (s st : Json)
        → ask w ≡ (ok s, w1)
        → get_entry "status" null s ≡ ok st
        → go_on n s st w1 ≡ (ok x, w')
        → Completed (suc n) w x w'
    by_status-ok w1 s st a g e = elim (Bool-cases (is_completed st)) [
      | inl c ↦ (0, w, s, st, w1, omega arith, refl, a, g, c, rw c at e)
      | inr c ↦
          let e1 : (if is_failed st then job_failed client s else poll client n model id key) w1
              ≡ (ok x, w') =
            rw c at e in
          elim (Bool-cases (is_failed st)) [
            | inl f ↦ let e2 : job_failed client s w1 ≡ (ok x, w') = rw f at e1 in cc
            | inr f ↦ later n w w1 w' s st x a g c f (ih w1 (rw f at e1))
          ]
    ]

    round-ok :
        (r : Result Json × W)
        → ask w ≡ r
        → and_then r (λ s. lift (get_entry "status" null s) >>= go_on n s) ≡ (ok x, w')
        → Completed (suc n) w x w'
    round-ok (err y, w1) a e = cc
    round-ok (ok s, w1) a e = elim (Result-cases (get_entry "status" null s)) [
      | inl (st, g) ↦ by_status-ok w1 s st a g (rw g at e)
      | inr (y, g) ↦ let e1 : and_then (err y, w1) (go_on n s) ≡ (ok x, w') = rw g at e in cc
    ]

  -- what a loop returned
  poll-eq-ok :
      (n : ℕ) (w w' : W) (x : Json) → poll client n model id key w ≡ (ok x, w') → Completed n w x w'
  unfolding poll
  poll-eq-ok zero w w' x e = cc
  poll-eq-ok (suc n) w w' x e = round-ok n w w' x (λ w1. poll-eq-ok n w1 w' x) (ask w) refl e

module _ {W : Type 0} (client : Client W) where
  -- Of a job that Fal has queued, `_submit_and_poll` returns only what Fal gives as the result right after it has
  -- said, in one of 180 rounds, that the job is completed: never anything of a job that failed, and
  -- never anything after the last round.
  pub submit_and_poll-eq-ok :
      (model key : String) (input : Fields) (result id x : Json) (w w1 w' : W)
      → client.post (concat ("/" ∷ model ∷ [])) (object input) key w ≡ (ok result, w1)
      → is_in "images" result ≡ ok false
      → is_in "video" result ≡ ok false
      → get_entry "request_id" null result ≡ ok id
      → is_true id ≡ true
      → submit_and_poll client model input key w ≡ (ok x, w')
      → Completed client model key id 180 w1 x w'
  unfolding submit_and_poll
  submit_and_poll-eq-ok model key input result id x w w1 w' made images video entry given e =
      poll-eq-ok client model key id 180 w1 w' x (rw (made, images, video, entry, given) at e)

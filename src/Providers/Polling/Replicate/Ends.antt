-- ===== src/Providers/Polling/Replicate/Ends.antt =====
-- What becomes of a prediction of Replicate's, once it was created.
use ultimate_assistant_ai_ga.Base.{ℕ, zero, suc, ◌+◌, String, true, false, ◌≡◌}
use ultimate_assistant_ai_ga.Base.Text.{or_else}
use ultimate_assistant_ai_ga.Base.Action.{ok}
use ultimate_assistant_ai_ga.Base.Json.{Json, subscript, get as get_entry}
use ultimate_assistant_ai_ga.Schemas.{UnifiedRequest}
use ultimate_assistant_ai_ga.Providers.Polling.{Client}
use ultimate_assistant_ai_ga.Providers.Polling.Replicate.{is_final}

module _ {W : Type 0} (client : Client W) (url key : String) where
  -- `k` rounds of the loop that find no final status lead from one world to the other.
  abbrev pub Waited : ℕ → W → W → Type 0
  Waited zero w w' = w ≡ w'
  Waited (suc k) w w' =
      (r : Json) × (st : Json) × (w1 : W) × (client.get url key (client.sleep w) ≡ (ok r, w1))
      × (subscript "status" r ≡ ok st)
      × (is_final st ≡ false)
      × Waited k w1 w'

  -- A round of the loop that finds a final status.
  abbrev pub Finished : W → Json → W → Type 0
  Finished w r w' =
      (st : Json) × (client.get url key (client.sleep w) ≡ (ok r, w'))
      × (subscript "status" r ≡ ok st)
      × (is_final st ≡ true)

  -- How the loop ends where no call fails: with a final status within 120 rounds, whichever it is, or
  -- after as many rounds without one, and then with the answer `p` that created the prediction.
  pub data Ended (p : Json) (w : W) (r : Json) (w' : W) : Type 0 where
    final : (k n : ℕ) (w2 : W) → k + suc n ≡ 120 → Waited k w w2 → Finished w2 r w' → Ended p w r w'
    given_up : (k : ℕ) → k ≡ 120 → Waited k w w' → r ≡ p → Ended p w r w'

module _ {W : Type 0} (client : Client W) where
  abbrev pub video_model : UnifiedRequest → String
  video_model req = or_else req.model "minimax/video-01-live"

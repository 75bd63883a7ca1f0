-- ===== src/Services/Interfaces.antt =====
-- What the services take from one another and from their host, over a world `W`: the key service
-- (app/services/key_service.py), the ranker (app/services/ranker.py), and the clock and the
-- Prometheus registry.
use ultimate_assistant_ai_ga.Base.{ℕ, String, List, ◌≡◌}
use ultimate_assistant_ai_ga.Base.Lists.{All}
use ultimate_assistant_ai_ga.Base.Action.{Action, ok}
use ultimate_assistant_ai_ga.Providers.Capabilities.{Candidate}

-- Users are told apart by their UUIDs, which are numbers.
pub record KeyStore (W : Type 0) : Type 0 where
  pub get_user_providers : ℕ → Action W (List String)
  pub get_decrypted_key : ℕ → String → Action W String

pub record Ranker (W : Type 0) : Type 0 where
  pub rank : List Candidate → Action W (List Candidate)
  pub record_success : String → String → ℕ → Action W (Unit {0})
  pub record_failure : String → String → Action W (Unit {0})

-- `rank` hands back candidates that it was given.
pub record RankerLaws {W : Type 0} (r : Ranker W) : Type 1 where
  pub rank-All :
      (Q : Candidate → Type 0) (cs cs' : List Candidate) (w : W)
      → All Q cs
      → (r.rank cs w).0 ≡ ok cs'
      → All Q cs'

-- `time.monotonic()` in microseconds, the two metrics of a routed request, and the order in which
-- Python lists a set of texts.
pub record Host (W : Type 0) : Type 0 where
  pub monotonic : W → ℕ
  pub count_request : Candidate → String → W → W
  pub observe_latency : Candidate → ℕ → W → W
  pub list_set : List String → List String

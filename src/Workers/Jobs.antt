-- ===== src/Workers/Jobs.antt =====
-- What a poll of a video job says once the worker is done with it.
use ultimate_assistant_ai_ga.Base.{ℕ, String, true, Option, none, some, List, ◌≡◌, refl, ◌⊎◌}
use ultimate_assistant_ai_ga.Base.Text.{truthy}
use ultimate_assistant_ai_ga.Base.Action.{Exc, Result, ok, err, Action}
use ultimate_assistant_ai_ga.Exceptions.{str_exc}
use ultimate_assistant_ai_ga.Redis.{
  Redis, RedisLaws, text, job_status, job_result, job_error, job_progress,
}
use ultimate_assistant_ai_ga.Schemas.{UnifiedRequest, blank_request, RouteResult}
use ultimate_assistant_ai_ga.Providers.Registry.{ProviderRegistry}
use ultimate_assistant_ai_ga.Services.Router.{route}
use ultimate_assistant_ai_ga.Workers.{
  TaskHost, generate_video, decode, decoded, get_job_status, JobStatusResponse, url_of,
  input_modality, Finish, ended, stopped,
}

module _ {Store : Type 0} (server : Redis Store) (laws : RedisLaws server)
    (float : String → Result ℕ) (now user_id : ℕ) (job_id : String) where
  -- the poll answers with this status and this result
  abbrev pub Polled : Store → String → Option String → Type 0
  Polled s status result =
      (p : JobStatusResponse) × (get_job_status server float now job_id user_id s ≡ ok p)
      × (p.status ≡ status)
      × (p.result ≡ result)

  poll :
      (s : Store) (status result : String)
      → truthy (some status) ≡ true
      → server.get now (job_status job_id) s ≡ some (text status)
      → server.get now (job_result job_id) s ≡ some (text result)
      → server.get now (job_progress job_id) s ≡ none
      → Polled s status (some result)
  unfolding get_job_status decode
  poll s status result t a b c = (
    record {
      job_id = job_id;
      status = status;
      result = some result;
      error = decoded (server.get now (job_error job_id) s);
      progress = none;
    },
    rw (a, b, c, t) refl,
    refl,
    refl,
  )

  -- a poll that finds the status and no progress
  pub poll_status :
      (s : Store) (status : String)
      → truthy (some status) ≡ true
      → server.get now (job_status job_id) s ≡ some (text status)
      → server.get now (job_progress job_id) s ≡ none
      → Polled s status (decoded (server.get now (job_result job_id) s))
  unfolding get_job_status decode
  poll_status s status t a c = (
    record {
      job_id = job_id;
      status = status;
      result = decoded (server.get now (job_result job_id) s);
      error = decoded (server.get now (job_error job_id) s);
      progress = none;
    },
    rw (a, c, t) refl,
    refl,
    refl,
  )

module _ {Store W : Type 0} (server : Redis Store) (task : TaskHost (Store × W))
    (job_id : String) where
  module _ (user_id_str prompt : String) (image_url model provider : Option String)
      (options : Option (List (String × String))) where
    abbrev pub request : UnifiedRequest
    request = record blank_request {
      prompt = some prompt;
      model = model;
      input_url = image_url;
      options = options;
    }

    abbrev pub routed : ProviderRegistry (Store × W) → ℕ → Action (Store × W) RouteResult
    routed registry user_id =
        route registry task.keys none task.host user_id (input_modality image_url) "video" request
          provider model

    abbrev pub final : Store × W → Finish × (Store × W)
    final = generate_video server task job_id user_id_str prompt image_url model provider options

    -- the state in which the body starts
    abbrev pub started : Store × W → Store × W
    started s = (server.set (job_status job_id) (text "processing") s.0, s.1)

    module _ (laws : RedisLaws server) (keeps : (s : Store × W) → (task.shutdown s).1.0 ≡ s.0)
        (float : String → Result ℕ) (now asker : ℕ) where
      -- What a poll finds when the job returned: the address of what the router returned for the user and the
      -- providers of the job.
      abbrev pub Done : Store × W → Finish × (Store × W) → Type 0
      Done s r =
          (r.0 ≡ ended (ok tt))
          × (registry : ProviderRegistry (Store × W)) × (user_id : ℕ) × (result : RouteResult)
          × (url : String) × (task.parse_uuid user_id_str ≡ ok user_id)
          × ((task.load (started s)).0 ≡ ok registry)
          × ((routed registry user_id (task.load (started s)).1).0 ≡ ok result)
          × (url_of result ≡ some url)
          × Polled server laws float now asker job_id r.1.0 "completed" (some url)

      -- What it finds when the job raised: the text of the exception, as the result.
      abbrev pub Failed : Finish × (Store × W) → Type 0
      Failed r =
          (e : Exc) × (r.0 ≡ ended (err e))
          × Polled server laws float now asker job_id r.1.0 "failed" (some (str_exc e))

      -- What it finds when the worker cancelled the job: a job in progress, or one that was completed when the
      -- cancellation came.
      abbrev pub Stuck : Finish × (Store × W) → Type 0
      Stuck r =
          (r.0 ≡ stopped)
          × (Polled server laws float now asker job_id r.1.0 "processing"
                (decoded (server.get now (job_result job_id) r.1.0))
              ⊎ Polled server laws float now asker job_id r.1.0 "completed"
                  (decoded (server.get now (job_result job_id) r.1.0)))

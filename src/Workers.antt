-- ===== src/Workers.antt =====
-- app/workers/tasks/video_generation.py, and the poll of a job in app/api/v1/routes/video.py. The state is
-- the Redis server's with whatever the router works on. Of the providers' setup and the client pool only
-- the calls are seen; the database session only serves reads and is left out with the logging.
pub mod Jobs
use ultimate_assistant_ai_ga.Base.{ℕ, String, Option, none, some, List, if◌then◌else◌}
use ultimate_assistant_ai_ga.Base.Text.{truthy, show}
use ultimate_assistant_ai_ga.Base.Action.{
  Exc, Result, ok, err, Action, raise, catch, modify, ◌>>=◌, ◌>>◌, http_exception,
}
use ultimate_assistant_ai_ga.Exceptions.{str_exc}
use ultimate_assistant_ai_ga.Redis.{
  Redis, Key, Value, text, number, job_status, job_result, job_error, job_progress,
}
use ultimate_assistant_ai_ga.Schemas.{UnifiedRequest, blank_request, RouteResult, unified, media}
use ultimate_assistant_ai_ga.Providers.Registry.{ProviderRegistry}
use ultimate_assistant_ai_ga.Services.Interfaces.{KeyStore, Host}
use ultimate_assistant_ai_ga.Services.Router.{from_result, route}

-- What the task is handed by libraries: the reading of a UUID, the start of the client pool with the loading
-- of the providers, the end of the pool, and what redis-py raises for a value of None. The worker ends a job that
-- is not done by its `job_timeout` with a CancelledError at the call for which it waits: `cancelled` gives the
-- state at that moment, if it comes before the `try` body that starts here is over.
pub record TaskHost (S : Type 0) : Type 0 where
  pub parse_uuid : String → Result ℕ
  pub load : Action S (ProviderRegistry S)
  pub shutdown : Action S (Unit {0})
  pub data_error : Exc
  pub cancelled : S → Option S
  pub keys : KeyStore S
  pub host : Host S

-- How the coroutine ends: CancelledError is no Exception.
pub data Finish : Type 0 where
  ended : Result (Unit {0}) → Finish
  stopped : Finish

abbrev pub finish_of : {S : Type 0} → Result (Unit {0}) × S → Finish × S
finish_of (r, s) = (ended r, s)

abbrev pub url_of : RouteResult → Option String
url_of (unified r) = r.file_url
url_of (media r) = some r.file_url

unfoldable pub input_modality : Option String → String
input_modality image_url = if truthy image_url then "image" else "text"

module _ {Store W : Type 0} (server : Redis Store) where
  -- `await redis.set(key, value)`
  abbrev pub write : Key → String → Action (Store × W) (Unit {0})
  write k v = modify (λ s. (server.set k (text v) s.0, s.1))

  abbrev pub write_optional : Exc → Key → Option String → Action (Store × W) (Unit {0})
  write_optional e k none = raise e
  write_optional e k (some v) = write k v

  module _ (task : TaskHost (Store × W)) (job_id : String) where
    -- once the router has answered
    unfoldable pub completed : RouteResult → Action (Store × W) (Unit {0})
    completed result = do
      write (job_status job_id) "completed"
      write_optional task.data_error (job_result job_id) (url_of result)
      task.shutdown

    -- the `except` branch
    unfoldable pub failed : Exc → Action (Store × W) (Unit {0})
    failed e = do write (job_status job_id) "failed"; write (job_result job_id) (str_exc e); raise e

    -- the `try` body
    unfoldable pub generate :
        String
        → String
        → Option String
        → Option String
        → Option String
        → Option (List (String × String))
        → Action (Store × W) (Unit {0})
    unfolding completed input_modality
    generate user_id_str prompt image_url model provider options = do
      user_id ← from_result (task.parse_uuid user_id_str)
      registry ← task.load
      let req = record blank_request {
        prompt = some prompt;
        model = model;
        input_url = image_url;
        options = options;
      }
      result ←
          route registry task.keys none task.host user_id (input_modality image_url) "video" req
            provider model
      completed result

    -- the `try` statement: its handler takes an Exception, and lets a cancellation pass
    abbrev pub try_generate :
        Option (Store × W) → Action (Store × W) (Unit {0}) → Store × W → Finish × (Store × W)
    try_generate none body s = finish_of (catch body failed s)
    try_generate (some s') body s = (stopped, s')

    unfoldable pub generate_video :
        String
        → String
        → Option String
        → Option String
        → Option String
        → Option (List (String × String))
        → Store × W
        → Finish × (Store × W)
    unfolding generate failed
    generate_video user_id_str prompt image_url model provider options s =
        let started = (write (job_status job_id) "processing" s).1 in
        try_generate (task.cancelled started)
          (generate user_id_str prompt image_url model provider options) started

pub record JobStatusResponse : Type 0 where
  pub job_id : String
  pub status : String
  pub result : Option String
  pub error : Option String
  pub progress : Option ℕ

-- `v.decode()`, the text that is stored
unfoldable pub decode : Value → String
decode (text s) = s
decode (number n) = show n

abbrev pub decoded : Option Value → Option String
decoded none = none
decoded (some v) = some (decode v)

abbrev some_of : Result ℕ → Result (Option ℕ)
some_of (ok n) = ok (some n)
some_of (err e) = err e

abbrev answered : JobStatusResponse → Result (Option ℕ) → Result JobStatusResponse
answered r (ok progress) = ok (record r { progress = progress })
answered r (err e) = err e

module _ {Store : Type 0} (server : Redis Store) (float : String → Result ℕ) where
  -- `float(progress) if progress else None`
  abbrev progress_of : Option String → Result (Option ℕ)
  progress_of none = ok none
  progress_of (some s) = if truthy (some s) then some_of (float s) else ok none

  abbrev job_response :
      String
      → Option String
      → Option String
      → Option String
      → Option String
      → Result JobStatusResponse
  job_response job_id none result error progress =
      err (http_exception 404 "Job not found or expired")
  job_response job_id (some status) result error progress =
      if truthy (some status)
      then answered
          (record {
            job_id = job_id;
            status = status;
            result = result;
            error = error;
            progress = none;
          })
          (progress_of progress)
      else err (http_exception 404 "Job not found or expired")

  -- `get_job_status`; who asks is authenticated and not looked at otherwise
  unfoldable pub get_job_status : ℕ → String → ℕ → Store → Result JobStatusResponse
  unfolding decode
  get_job_status now job_id user_id s =
      job_response job_id (decoded (server.get now (job_status job_id) s))
        (decoded (server.get now (job_result job_id) s))
        (decoded (server.get now (job_error job_id) s))
        (decoded (server.get now (job_progress job_id) s))

-- ===== src/Tests/Video.antt =====
-- app/workers/tasks/video_generation.py with one video provider, and with a user who has no key.
use ultimate_assistant_ai_ga.Base.{◌≡◌, refl, String, Option, none, some, [], ◌∷◌, str_dec}
use ultimate_assistant_ai_ga.Base.Action.{ok, err, value_error, http_exception, other_error}
use ultimate_assistant_ai_ga.Exceptions.{str_exc}
use ultimate_assistant_ai_ga.Schemas.{MediaResult}
use ultimate_assistant_ai_ga.Providers.Capabilities.{
  text, video, Modality-discrete, parse_modality, get_pair, append_at, build_capability_map,
}
use ultimate_assistant_ai_ga.Providers.Interface.{Provider}
use ultimate_assistant_ai_ga.Providers.Registry.{
  ProviderRegistry, advertised, find_provider, get_provider, get_capable_providers,
}
use ultimate_assistant_ai_ga.Redis.{Key-discrete}
use ultimate_assistant_ai_ga.Redis.Memory.{Store, empty, memory}
use ultimate_assistant_ai_ga.Services.Router.{
  dispatch_pair, dispatch, set_model, stamp, prefer_provider, prefer_model, with_keys, route,
}
use ultimate_assistant_ai_ga.Workers.{
  TaskHost, Finish, generate_video, get_job_status, JobStatusResponse, decode, input_modality,
  generate, completed, failed,
}

abbrev World : Type 0
World = Store × Unit {0}

abbrev film : MediaResult
film = record {
  file_url = "film.mp4";
  mime_type = "video/mp4";
  model = "kling";
  provider = "fal";
  latency_ms = none;
}

abbrev fal : Provider World
fal = record {
  name = "fal";
  capabilities = ((text, video), "kling" ∷ []) ∷ [];
  chat = none;
  stream_chat = none;
  text_to_image = none;
  image_to_text = none;
  text_to_speech = none;
  speech_to_text = none;
  embed = none;
  text_to_video = some (λ req key w. (ok film, w));
  image_to_video = some (λ req key w. (ok film, w));
}

abbrev registry : ProviderRegistry World
registry = record {
  client_pool = [];
  providers = ("fal", fal) ∷ [];
  capability_map = build_capability_map (advertised (("fal", fal) ∷ []));
}

abbrev task : TaskHost World
task = record {
  parse_uuid = λ s. ok 7;
  load = λ w. (ok registry, w);
  shutdown = λ w. (ok tt, w);
  cancelled = λ w. none;
  data_error = other_error "Invalid input of type: 'NoneType'";
  keys = record {
    get_user_providers = λ user w. (ok ("fal" ∷ []), w);
    get_decrypted_key = λ user name w. (ok "sk", w);
  };
  host = record {
    monotonic = λ w. 0;
    count_request = λ c s w. w;
    observe_latency = λ c ms w. w;
    list_set = λ l. l;
  };
}

-- a task whose user ID is no UUID
abbrev misnamed : TaskHost World
misnamed = record task { parse_uuid = λ s. err (value_error "badly formed UUID") }

program : Unit {0}
unfolding Modality-discrete Key-discrete str_dec parse_modality build_capability_map get_pair
    append_at get_provider find_provider get_capable_providers dispatch dispatch_pair set_model
    stamp prefer_provider prefer_model with_keys route completed failed generate input_modality
    generate_video decode get_job_status str_exc
program = tt

-- a task that is cancelled as soon as it starts
abbrev slow : TaskHost World
slow = record task { cancelled = λ w. some w }

abbrev run : TaskHost World → Finish × World
run t = generate_video memory t "j1" "u" "a cat" none none none none (empty, tt)

abbrev polled : String → Option String → JobStatusResponse
polled status result = record {
  job_id = "j1";
  status = status;
  result = result;
  error = none;
  progress = none;
}

-- before the worker takes the job up, the poll knows nothing of it
unknown :
    get_job_status memory (λ s. ok 0) 5 "j1" 9 empty
    ≡ err (http_exception 404 "Job not found or expired")
unfolding program
unknown = refl

made :
    get_job_status memory (λ s. ok 0) 5 "j1" 9 (run task).1.0
    ≡ ok (polled "completed" (some "film.mp4"))
unfolding program
made = refl

refused :
    get_job_status memory (λ s. ok 0) 5 "j1" 9 (run misnamed).1.0
    ≡ ok (polled "failed" (some "badly formed UUID"))
unfolding program
refused = refl

cancelled_job :
    get_job_status memory (λ s. ok 0) 5 "j1" 9 (run slow).1.0 ≡ ok (polled "processing" none)
unfolding program
cancelled_job = refl

-- ===== src/Tests/Polling.antt =====
-- app/providers/replicate/adapter.py on a prediction that fails after two rounds, and app/providers/fal/adapter.py on a
-- job that is completed after two. The world counts the seconds waited.
use ultimate_assistant_ai_ga.Base.{
  ℕ, ◌+◌, ◌≡◌, refl, String, false, some, leb, same, str_dec, if◌then◌else◌,
}
use ultimate_assistant_ai_ga.Base.Action.{ok}
use ultimate_assistant_ai_ga.Base.Json.{
  Json, null, string, object, field, no_fields, subscript, find, get,
}
use ultimate_assistant_ai_ga.Schemas.{UnifiedRequest, blank_request}
use ultimate_assistant_ai_ga.Providers.Polling.{
  Client, media_of, as_url, has_slash, put, update, required_text,
}
use ultimate_assistant_ai_ga.Providers.Polling.Replicate.{
  poll_url_of, poll, run_prediction, media_result, text_to_video,
}
use ultimate_assistant_ai_ga.Providers.Polling.Fal
use ultimate_assistant_ai_ga.Providers.Polling.Fal.Waits.{Completed, submit_and_poll-eq-ok}

abbrev film_request : UnifiedRequest
film_request = record blank_request { prompt = some "a cat" }

abbrev prediction : String → Json
prediction status =
    object
      (field "id" (string "p1") (field "status" (string status) (field "output" null no_fields)))

abbrev replicate : Client ℕ
replicate = record {
  post = λ url body key w. (ok (prediction "starting"), w);
  get = λ url key w. (ok (if leb 2 w then prediction "failed" else prediction "processing"), w);
  sleep = λ w. w + 1;
  print = λ v. "...";
}

program : Unit {0}
unfolding str_dec find subscript get as_url has_slash put update required_text poll_url_of poll
    run_prediction media_result text_to_video Fal.is_in Fal.poll Fal.submit_and_poll
program = tt

-- a video of a prediction that failed
failed_video :
    text_to_video replicate film_request "sk" 0
    ≡ (ok (media_of "None" "video/mp4" "minimax/video-01-live" "replicate"), 2)
unfolding program
failed_video = refl

abbrev job : String → Json
job status = object (field "status" (string status) no_fields)

abbrev accepted : Json
accepted = object (field "request_id" (string "r1") no_fields)

abbrev result : Json
result = object (field "video" (string "film.mp4") no_fields)

abbrev fal : Client ℕ
fal = record {
  post = λ url body key w. (ok accepted, w);
  get = λ url key w. (
    ok (
        if same url "https://queue.fal.run/m/requests/r1"
        then result
        else if leb 2 w
        then job "COMPLETED"
        else job "IN_PROGRESS"),
    w,
  );
  sleep = λ w. w + 1;
  print = λ v. "...";
}

done : Fal.submit_and_poll fal "m" no_fields "sk" 0 ≡ (ok result, 2)
unfolding program
done = refl

no_images : Fal.is_in "images" accepted ≡ ok false
unfolding program
no_images = refl

no_video : Fal.is_in "video" accepted ≡ ok false
unfolding program
no_video = refl

numbered : get "request_id" null accepted ≡ ok (string "r1")
unfolding program
numbered = refl

submit_and_poll-eq-ok_example : Completed fal "m" "sk" (string "r1") 180 0 result 2
submit_and_poll-eq-ok_example =
    submit_and_poll-eq-ok fal "m" "sk" no_fields accepted (string "r1") result 0 0 2 refl no_images
      no_video numbered refl done

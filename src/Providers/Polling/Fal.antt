-- ===== src/Providers/Polling/Fal.antt =====
-- app/providers/fal/adapter.py: a job is queued and its status polled for up to 180 rounds.
pub mod Waits
use ultimate_assistant_ai_ga.Base.{
  ℕ, zero, suc, String, Bool, true, false, Option, none, some, List, [], ◌∷◌, ◌||◌, str_dec, same,
  if◌then◌else◌,
}
use ultimate_assistant_ai_ga.Base.Text.{concat, contains, or_else}
use ultimate_assistant_ai_ga.Base.Action.{
  Result, ok, err, Action, ◌>>=◌, ◌>>◌, modify, pure, raise, other_error, type_error,
}
use ultimate_assistant_ai_ga.Base.Json.{
  Json, null, number, string, array, object, Items, no_items, item, Fields, no_fields, field, first,
  is_true, get as get_entry, find,
}
use ultimate_assistant_ai_ga.Schemas.{UnifiedRequest, MediaResult}
use ultimate_assistant_ai_ga.Providers.Polling.{
  Client, lift, str_of, optional, update, update_options, only, is_one_of, required_text, media_of,
  put,
}

abbrev has_text : String → Items → Bool
has_text k no_items = false
has_text k (item v l) = is_one_of (k ∷ []) v || has_text k l

abbrev found : Option Json → Bool
found none = false
found (some v) = true

-- `k in v`. Of a text it would look for a part; that makes no difference, since a text has no `get`.
unfoldable pub is_in : String → Json → Result Bool
is_in k (object fs) = ok (found (find k fs))
is_in k (array l) = ok (has_text k l)
is_in k (string s) = ok false
is_in k _ = err (type_error "argument is not iterable")

module _ {W : Type 0} (client : Client W) where
  abbrev pub request_url : String → Json → String
  request_url model request_id =
      concat ("https://queue.fal.run/" ∷ model ∷ "/requests/" ∷ str_of client.print request_id ∷ [])

  abbrev pub timed_out : String → Action W Json
  timed_out model = raise (other_error (concat ("Fal job timed out for model " ∷ model ∷ [])))

  abbrev pub job_failed : Json → Action W Json
  job_failed status_data =
      raise (other_error (concat ("Fal job failed: " ∷ str_of client.print status_data ∷ [])))

  -- what a round does with the status that it reads
  abbrev pub by_status : String → Json → String → Json → Action W Json → Json → Action W Json
  by_status model request_id api_key status_data again status =
      if is_one_of ("COMPLETED" ∷ []) status
      then client.get (request_url model request_id) api_key
      else if is_one_of ("FAILED" ∷ []) status
      then job_failed status_data
      else again

  -- the loop, by the rounds that are left
  unfoldable pub poll : ℕ → String → Json → String → Action W Json
  unfolding get_entry find
  poll zero model request_id api_key = timed_out model
  poll (suc left) model request_id api_key =
      let again = poll left model request_id api_key in
      (do
        modify client.sleep
        status_data ← client.get (concat (request_url model request_id ∷ "/status" ∷ [])) api_key
        status ← lift (get_entry "status" null status_data)
        by_status model request_id api_key status_data again status)

  abbrev await_job : String → String → Json → Json → Action W Json
  await_job model api_key result request_id =
      if is_true request_id then poll 180 model request_id api_key else pure result

  abbrev queued : String → String → Json → Action W Json
  queued model api_key result =
      lift (get_entry "request_id" null result) >>= await_job model api_key result

  -- `_submit_and_poll`
  unfoldable pub submit_and_poll : String → Fields → String → Action W Json
  unfolding get_entry find poll is_in
  submit_and_poll model input_data api_key = do
    result ← client.post (concat ("/" ∷ model ∷ [])) (object input_data) api_key
    images ← lift (is_in "images" result)
    video ← lift (if images then ok true else is_in "video" result)
    if video then pure result else queued model api_key result

  -- `images[0].get("url", "") if images else ""`
  abbrev image_url : Json → Action W Json
  image_url images =
      if is_true images
      then (lift (first images) >>= λ image. lift (get_entry "url" (string "") image))
      else pure (string "")

  -- `video.get("url", "") if isinstance(video, dict) else str(video)`
  abbrev video_url : Json → Action W Json
  video_url (object fs) = lift (get_entry "url" (string "") (object fs))
  video_url v = pure (string (str_of client.print v))

  unfoldable pub text_to_image : UnifiedRequest → String → Action W MediaResult
  unfolding update put submit_and_poll get_entry find first required_text
  text_to_image req api_key =
      let model = or_else req.model "fal-ai/flux/dev" in
      let input_data =
        update_options
          (only ("image_size" ∷ "num_inference_steps" ∷ "guidance_scale" ∷ []) req.options)
          (field "prompt" (optional req.prompt) (field "num_images" (number 1) no_fields)) in
      (do
        result ← submit_and_poll model input_data api_key
        images ← lift (get_entry "images" (array no_items) result)
        url ← image_url images
        file_url ← lift (required_text url)
        pure (media_of file_url "image/png" model "fal"))

  unfoldable pub video_result : String → Json → Action W MediaResult
  unfolding get_entry find required_text
  video_result model result = do
    video ← lift (get_entry "video" (object no_fields) result)
    url ← video_url video
    file_url ← lift (required_text url)
    pure (media_of file_url "video/mp4" model "fal")

  unfoldable pub text_to_video : UnifiedRequest → String → Action W MediaResult
  unfolding update put submit_and_poll video_result
  text_to_video req api_key =
      let model = or_else req.model "fal-ai/kling-video/v2/master/text-to-video" in
      let input_data =
        update_options req.options (field "prompt" (optional req.prompt) no_fields) in
      submit_and_poll model input_data api_key >>= video_result model

  unfoldable pub image_to_video : UnifiedRequest → String → Action W MediaResult
  unfolding update put submit_and_poll video_result
  image_to_video req api_key =
      let model = or_else req.model "fal-ai/kling-video/v2/master/image-to-video" in
      let input_data = update_options req.options (
        field "image_url" (optional req.input_url)
          (field "prompt" (string (or_else req.prompt "")) no_fields)) in
      submit_and_poll model input_data api_key >>= video_result model

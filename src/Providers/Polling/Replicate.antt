-- ===== src/Providers/Polling/Replicate.antt =====
-- app/providers/replicate/adapter.py: a prediction is created and polled for up to 120 rounds.
pub mod Ends
use ultimate_assistant_ai_ga.Base.{
  ℕ, zero, suc, String, Bool, Option, none, some, List, [], ◌∷◌, str_dec, if◌then◌else◌,
}
use ultimate_assistant_ai_ga.Base.Text.{concat, contains, or_else}
use ultimate_assistant_ai_ga.Base.Action.{Result, ok, err, Action, ◌>>=◌, ◌>>◌, modify, pure}
use ultimate_assistant_ai_ga.Base.Json.{
  Json, null, number, string, array, object, no_items, item, Fields, no_fields, field, subscript,
  get as get_entry, find,
}
use ultimate_assistant_ai_ga.Schemas.{UnifiedRequest, MediaResult}
use ultimate_assistant_ai_ga.Providers.Polling.{
  Client, lift, str_of, optional, update, update_options, only, is_one_of, required_text, as_url,
  has_slash, media_of, put,
}

-- the statuses that end the loop
abbrev pub is_final : Json → Bool
is_final = is_one_of ("succeeded" ∷ "failed" ∷ "canceled" ∷ [])

module _ {W : Type 0} (client : Client W) where
  -- The URL to poll: the default is built in any case, so the answer must have an `id`, but only after
  -- `.get` was found.
  unfoldable pub poll_url_of : Json → Action W String
  unfolding get_entry subscript as_url find
  poll_url_of prediction = do
    urls ← lift (get_entry "urls" (object no_fields) prediction)
    found ← lift (get_entry "get" null urls)
    id ← lift (subscript "id" prediction)
    let default = string (concat ("/v1/predictions/" ∷ str_of client.print id ∷ []))
    url ← lift (get_entry "get" default urls)
    lift (as_url url)

  -- the loop, by the rounds that are left
  unfoldable pub poll : ℕ → String → String → Json → Action W Json
  unfolding subscript find
  poll zero poll_url api_key prediction = pure prediction
  poll (suc left) poll_url api_key prediction =
      let again = poll left poll_url api_key prediction in
      (do
        modify client.sleep
        result ← client.get poll_url api_key
        status ← lift (subscript "status" result)
        if is_final status then pure result else again)

  abbrev create : String → Fields → String → Action W Json
  create model input api_key =
      if has_slash model
      then client.post (concat ("/v1/models/" ∷ model ∷ "/predictions" ∷ []))
          (object (field "input" (object input) no_fields)) api_key
      else client.post "/v1/predictions"
          (object (field "version" (string model) (field "input" (object input) no_fields))) api_key

  -- `_run_prediction`
  unfoldable pub run_prediction : String → Fields → String → Action W Json
  unfolding poll_url_of poll has_slash
  run_prediction model input api_key = do
    prediction ← create model input api_key
    poll_url ← poll_url_of prediction
    poll 120 poll_url api_key prediction

  -- `output[0] if isinstance(output, list) and output else str(output)`
  abbrev pub output_url : Json → Result String
  output_url (array (item v l)) = required_text v
  output_url v = ok (str_of client.print v)

  -- what the three methods do with the prediction
  unfoldable pub media_result : Json → String → String → Json → Action W MediaResult
  unfolding get_entry find required_text
  media_result default mime_type model result = do
    output ← lift (get_entry "output" default result)
    file_url ← lift (output_url output)
    pure (media_of file_url mime_type model "replicate")

  unfoldable pub text_to_image : UnifiedRequest → String → Action W MediaResult
  unfolding update put run_prediction media_result
  text_to_image req api_key =
      let model = or_else req.model "black-forest-labs/flux-schnell" in
      let input_data =
        update_options
          (only ("width" ∷ "height" ∷ "num_inference_steps" ∷ "guidance_scale" ∷ []) req.options)
          (field "prompt" (optional req.prompt) (field "num_outputs" (number 1) no_fields)) in
      run_prediction model input_data api_key >>= media_result (array no_items) "image/png" model

  unfoldable pub text_to_video : UnifiedRequest → String → Action W MediaResult
  unfolding update put run_prediction media_result
  text_to_video req api_key =
      let model = or_else req.model "minimax/video-01-live" in
      let input_data =
        update_options req.options (field "prompt" (optional req.prompt) no_fields) in
      run_prediction model input_data api_key >>= media_result (string "") "video/mp4" model

  unfoldable pub image_to_video : UnifiedRequest → String → Action W MediaResult
  unfolding update put run_prediction media_result
  image_to_video req api_key =
      let model = or_else req.model "minimax/video-01-live" in
      let input_data = update_options req.options (
        field "image" (optional req.input_url)
          (field "prompt" (string (or_else req.prompt "")) no_fields)) in
      run_prediction model input_data api_key >>= media_result (string "") "video/mp4" model

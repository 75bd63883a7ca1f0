-- ===== src/Api/Media.antt =====
-- app/api/v1/routes/images.py and app/api/v1/routes/audio.py. The router has no ranker here. What pydantic checks of a request
-- is left out; options are texts, and a number among them is its print.
pub mod Answers
use Prim.Native.String.{count}
use ultimate_assistant_ai_ga.Base.{
  ℕ, ◌*◌, String, Bool, true, false, not, ◌||◌, Option, none, some, List, [], ◌∷◌, if◌then◌else◌,
}
use ultimate_assistant_ai_ga.Base.Dict.{Dict, insert, get_or}
use ultimate_assistant_ai_ga.Base.Text.{concat, contains, or_else, show, truthy}
use ultimate_assistant_ai_ga.Base.Action.{
  Result, ok, err, Action, pure, raise_if, ◌>>=◌, ◌>>◌, http_exception, attribute_error,
  value_error,
}
use ultimate_assistant_ai_ga.Schemas.{
  UnifiedRequest, blank_request, UnifiedResponse, RouteResult, unified, media,
}
use ultimate_assistant_ai_ga.Providers.Registry.{ProviderRegistry}
use ultimate_assistant_ai_ga.Services.Interfaces.{KeyStore, Host}
use ultimate_assistant_ai_ga.Services.Router.{route, from_result}
use ultimate_assistant_ai_ga.Api.Uploads.{
  UploadFile, Texts, extension, mebibyte, check_size, check_given,
}

pub record ImageGenRequest : Type 0 where
  pub prompt : String
  pub model : Option String
  pub provider : Option String
  pub size : String
  pub quality : String
  pub style : String
  pub n : ℕ
  pub options : Option (Dict String)

pub record VisionRequest : Type 0 where
  pub image_url : String
  pub prompt : String
  pub model : Option String
  pub provider : Option String
  pub max_tokens : Option ℕ

pub record VisionResponse : Type 0 where
  pub content : String
  pub model : Option String
  pub provider : Option String
  pub input_tokens : Option ℕ
  pub output_tokens : Option ℕ
  pub latency_ms : Option ℕ

pub record TtsRequest : Type 0 where
  pub text : String
  pub model : Option String
  pub provider : Option String
  pub voice : String
  pub format : String
  -- the print of a float
  pub speed : String

pub record TtsResponse : Type 0 where
  pub file_url : String
  pub mime_type : String
  pub model : String
  pub provider : String
  pub format : String
  pub latency_ms : Option ℕ

pub record SttResponse : Type 0 where
  pub text : String
  pub model : Option String
  pub provider : Option String
  pub language : Option String
  -- in milliseconds
  pub duration_seconds : Option ℕ
  pub input_tokens : Option ℕ
  pub latency_ms : Option ℕ

abbrev pub no_content : {A : Type 0} → Result A
no_content = err (attribute_error "'MediaResult' object has no attribute 'content'")

unfoldable pub vision_response : RouteResult → Result VisionResponse
vision_response (unified r) = ok (record {
  content = or_else r.content "";
  model = r.model;
  provider = r.provider;
  input_tokens = r.input_tokens;
  output_tokens = r.output_tokens;
  latency_ms = r.latency_ms;
})
vision_response (media r) = no_content

unfoldable pub stt_response : Option String → RouteResult → Result SttResponse
stt_response language (unified r) = ok (record {
  text = or_else r.content "";
  model = r.model;
  provider = r.provider;
  language = language;
  duration_seconds = none;
  input_tokens = r.input_tokens;
  latency_ms = r.latency_ms;
})
stt_response language (media r) = no_content

-- `mime_map`
abbrev pub mime_map : Dict String
mime_map =
    ("mp3", "audio/mpeg")
    ∷ ("opus", "audio/opus")
    ∷ ("aac", "audio/aac")
    ∷ ("flac", "audio/flac")
    ∷ ("wav", "audio/wav")
    ∷ ("pcm", "audio/pcm")
    ∷ []

abbrev tts_fields :
    String → Option ℕ → Option String → Option String → Option String → Result TtsResponse
tts_fields format latency_ms (some file_url) (some model) (some provider) = ok (record {
  file_url = file_url;
  mime_type = get_or format "audio/mpeg" mime_map;
  model = model;
  provider = provider;
  format = format;
  latency_ms = latency_ms;
})
tts_fields format latency_ms _ _ _ = err (value_error "Input should be a valid string")

unfoldable pub tts_response : String → RouteResult → Result TtsResponse
unfolding get_or
tts_response format (media r) =
    tts_fields format r.latency_ms (some r.file_url) (some r.model) (some r.provider)
tts_response format (unified r) = tts_fields format r.latency_ms r.file_url r.model r.provider

abbrev pub max_image_size_bytes : ℕ
max_image_size_bytes = 20 * mebibyte

abbrev pub max_audio_size_bytes : ℕ
max_audio_size_bytes = 25 * mebibyte

abbrev pub allowed_image_types : List String
allowed_image_types =
    "image/png" ∷ "image/jpeg" ∷ "image/jpg" ∷ "image/gif" ∷ "image/webp" ∷ "image/svg+xml"
    ∷ "image/bmp" ∷ "image/tiff" ∷ []

abbrev pub allowed_audio_types : List String
allowed_audio_types =
    "audio/mpeg" ∷ "audio/mp3" ∷ "audio/mp4" ∷ "audio/x-m4a" ∷ "audio/wav" ∷ "audio/x-wav"
    ∷ "audio/webm" ∷ "audio/ogg" ∷ "audio/flac" ∷ "audio/x-flac" ∷ "video/webm" ∷ "video/mp4"
    ∷ "application/octet-stream" ∷ []

abbrev pub allowed_audio_extensions : List String
allowed_audio_extensions =
    ".mp3" ∷ ".mp4" ∷ ".m4a" ∷ ".wav" ∷ ".webm" ∷ ".ogg" ∷ ".oga" ∷ ".flac" ∷ ".opus" ∷ []

abbrev pub supported_tts_formats : List String
supported_tts_formats = "mp3" ∷ "opus" ∷ "aac" ∷ "flac" ∷ "wav" ∷ "pcm" ∷ []

abbrev pub supported_voices : List String
supported_voices =
    "alloy" ∷ "ash" ∷ "ballad" ∷ "coral" ∷ "echo" ∷ "fable" ∷ "onyx" ∷ "nova" ∷ "sage" ∷ "shimmer"
    ∷ []

abbrev pub content_type_of : UploadFile → String
content_type_of file = or_else file.content_type "application/octet-stream"

abbrev pub too_large : String → String → Texts → UploadFile → String
too_large what limit texts file = concat (
    what
    ∷ " exceeds max size of "
    ∷ limit
    ∷ " MB (received "
    ∷ texts.megabytes (count file.content)
    ∷ " MB)"
    ∷ [])

-- `{"language": language}` or no options
abbrev language_options : Option String → Option (Dict String)
language_options none = none
language_options (some l) = if truthy (some l) then some (("language", l) ∷ []) else none

module _ {W : Type 0} (registry : ProviderRegistry W) (keys : KeyStore W) (host : Host W)
    (texts : Texts) (user_id : ℕ) where
  abbrev pub ask :
      String → String → UnifiedRequest → Option String → Option String → Action W RouteResult
  ask = route registry keys none host user_id

  unfoldable pub generate_image : ImageGenRequest → Action W RouteResult
  unfolding insert
  generate_image req =
      let given : Dict String = elim req.options [ none ↦ [] | some options ↦ options ] in
      let options =
        insert "n" (show req.n) (
          insert "style" req.style (insert "quality" req.quality (insert "size" req.size given))) in
      ask "text" "image"
        (record blank_request {
          prompt = some req.prompt;
          model = req.model;
          options = some options;
        })
        req.provider req.model

  abbrev pub vision_request : VisionRequest → UnifiedRequest
  vision_request req = record blank_request {
    prompt = some req.prompt;
    model = req.model;
    input_url = some req.image_url;
    max_tokens = req.max_tokens;
  }

  abbrev pub analyze : VisionRequest → Action W VisionResponse
  analyze req = ask "image" "text" (vision_request req) req.provider req.model >>= λ r.
      from_result (vision_response r)

  unfoldable pub image_to_text : VisionRequest → Action W VisionResponse
  unfolding vision_response
  image_to_text = analyze

  abbrev pub data_uri : UploadFile → String
  data_uri file =
      concat ("data:" ∷ content_type_of file ∷ ";base64," ∷ texts.b64encode file.content ∷ [])

  abbrev unsupported_image : UploadFile → String
  unsupported_image file = concat (
      "Unsupported image format: "
      ∷ content_type_of file
      ∷ ". Allowed: image/bmp, image/gif, image/jpeg, image/jpg, image/png, image/svg+xml, image/tiff, image/webp"
      ∷ [])

  unfoldable pub image_to_text_upload :
      UploadFile → String → Option String → Option String → Option ℕ → Action W VisionResponse
  unfolding vision_response
  image_to_text_upload file prompt model provider max_tokens = do
    raise_if (not (contains (content_type_of file) allowed_image_types))
        (http_exception 422 (unsupported_image file))
    check_size max_image_size_bytes (too_large "Image" "20" texts file) file.content
    analyze (record {
      image_url = data_uri file;
      prompt = prompt;
      model = model;
      provider = provider;
      max_tokens = max_tokens;
    })

  abbrev unsupported_voice : TtsRequest → String
  unsupported_voice req = concat (
      "Unsupported voice: " ∷ req.voice
      ∷ ". Supported: alloy, ash, ballad, coral, echo, fable, nova, onyx, sage, shimmer" ∷ [])

  abbrev unsupported_format : TtsRequest → String
  unsupported_format req =
      concat
        ("Unsupported format: " ∷ req.format ∷ ". Supported: aac, flac, mp3, opus, pcm, wav" ∷ [])

  abbrev pub tts_request : TtsRequest → UnifiedRequest
  tts_request req = record blank_request {
    prompt = some req.text;
    model = req.model;
    options = some (("voice", req.voice) ∷ ("format", req.format) ∷ ("speed", req.speed) ∷ []);
  }

  unfoldable pub text_to_speech : TtsRequest → Action W TtsResponse
  unfolding tts_response
  text_to_speech req = do
    raise_if (not (contains req.voice supported_voices))
        (http_exception 422 (unsupported_voice req))
    raise_if (not (contains req.format supported_tts_formats))
        (http_exception 422 (unsupported_format req))
    result ← ask "text" "audio" (tts_request req) req.provider req.model
    from_result (tts_response req.format result)

  abbrev pub audio_extension : UploadFile → String
  audio_extension file = extension texts (or_else file.filename "")

  unfoldable pub is_audio : UploadFile → Bool
  unfolding extension
  is_audio file =
      contains (content_type_of file) allowed_audio_types
      || contains (audio_extension file) allowed_audio_extensions

  abbrev pub unsupported_audio : UploadFile → String
  unsupported_audio file = concat (
      "Unsupported audio format: "
      ∷ content_type_of file
      ∷ " ("
      ∷ or_else (some (audio_extension file)) "no extension"
      ∷ "). Accepted formats: MP3, MP4, M4A, WAV, WebM, OGG, FLAC, Opus."
      ∷ [])

  abbrev pub stt_request : UploadFile → Option String → Option String → UnifiedRequest
  stt_request file model language = record blank_request {
    model = model;
    input_data = some file.content;
    options = language_options language;
  }

  unfoldable pub speech_to_text :
      UploadFile → Option String → Option String → Option String → Action W SttResponse
  unfolding is_audio stt_response
  speech_to_text file model provider language = do
    raise_if (not (is_audio file)) (http_exception 422 (unsupported_audio file))
    check_size max_audio_size_bytes (too_large "Audio file" "25" texts file) file.content
    check_given "Audio file is empty." file.content
    result ← ask "audio" "text" (stt_request file model language) provider model
    from_result (stt_response language result)

-- ===== src/Api/Media/Answers.antt =====
-- When the media routes answer: what they check first, and that the router's answer always has what they read.
use Prim.Native.String.{count}
use ultimate_assistant_ai_ga.Base.{ℕ, ◌≡◌, refl, String, true, Option, none, some, str_dec, ◌⊎◌}
use ultimate_assistant_ai_ga.Base.Action.{
  Result, ok, err, is_ok, Exc, Action, and_then, Returns, ◌>>=◌, http_exception,
}
use ultimate_assistant_ai_ga.Schemas.{RouteResult, UnifiedResponse, unified, media}
use ultimate_assistant_ai_ga.Providers.Capabilities.{text, audio, parse_modality}
use ultimate_assistant_ai_ga.Providers.Registry.{ProviderRegistry}
use ultimate_assistant_ai_ga.Services.Interfaces.{KeyStore, Host}
use ultimate_assistant_ai_ga.Services.Router.{from_result}
use ultimate_assistant_ai_ga.Services.Router.Classes.{IsAnswer, route-Returns}
use ultimate_assistant_ai_ga.Api.Uploads.{UploadFile, Texts}
use ultimate_assistant_ai_ga.Api.Media.{
  VisionRequest, SttResponse, vision_response, stt_response, tts_response, ask, vision_request,
  image_to_text, stt_request, speech_to_text,
}

parsed_text : parse_modality "text" ≡ some text
unfolding parse_modality str_dec
parsed_text = refl

parsed_audio : parse_modality "audio" ≡ some audio
unfolding parse_modality str_dec
parsed_audio = refl

is_ok-vision_response : (r : RouteResult) → IsAnswer text r → is_ok (vision_response r) ≡ true
unfolding vision_response
is_ok-vision_response (unified r) h = refl
is_ok-vision_response (media r) h = cc

is_ok-stt_response :
    (language : Option String) (r : RouteResult)
    → IsAnswer text r
    → is_ok (stt_response language r) ≡ true
unfolding stt_response
is_ok-stt_response language (unified r) h = refl
is_ok-stt_response language (media r) h = cc

is_ok-tts_response :
    (format : String) (r : RouteResult) → IsAnswer audio r → is_ok (tts_response format r) ≡ true
unfolding tts_response
is_ok-tts_response format (media r) h = refl
is_ok-tts_response format (unified r) h = cc

module _ {W B : Type 0} (Post : RouteResult → Type 0) (f : RouteResult → Result B)
    (good : (r : RouteResult) → Post r → is_ok (f r) ≡ true) where
  is_ok-and_then :
      (x : Result RouteResult × W)
      → ((r : RouteResult) → x.0 ≡ ok r → Post r)
      → is_ok (and_then x (λ r. from_result (f r))).0 ≡ is_ok x.0
  is_ok-and_then (ok r, w) h = good r (h r refl)
  is_ok-and_then (err e, w) h = refl

  -- A response made of the router's answer is there whenever the answer is.
  is_ok-response :
      (m : Action W RouteResult) (w : W)
      → Returns Post m
      → is_ok ((m >>= λ r. from_result (f r)) w).0 ≡ is_ok (m w).0
  is_ok-response m w h = is_ok-and_then (m w) (h w)

-- The response that `f` makes of the router's text, or the exception of the router.
abbrev pub RelayedBy :
    {W B : Type 0} → (RouteResult → Result B) → Result RouteResult × W → Result B × W → Type 0
RelayedBy f given made =
    ((r : UnifiedResponse) × (given.0 ≡ ok (unified r)) × (made ≡ (f (unified r), given.1)))
    ⊎ ((e : Exc) × (given.0 ≡ err e) × (made ≡ (err e, given.1)))

module _ {W : Type 0} (registry : ProviderRegistry W) (keys : KeyStore W) (host : Host W)
    (texts : Texts) (user_id : ℕ) where
  -- An image is described exactly when the router answers.
  pub image_to_text_lem :
      (req : VisionRequest) (w : W)
      → is_ok (image_to_text registry keys host texts user_id req w).0
        ≡ is_ok
            (ask registry keys host texts user_id "image" "text"
              (vision_request registry keys host texts user_id req)
              req.provider
              req.model
              w).0
  unfolding image_to_text
  image_to_text_lem req w =
      let sent = vision_request registry keys host texts user_id req in
      is_ok-response (IsAnswer text) vision_response is_ok-vision_response
        (ask registry keys host texts user_id "image" "text" sent req.provider req.model) w
        (route-Returns registry keys none host user_id "image" "text" text parsed_text sent
          req.provider req.model)

  module _ (file : UploadFile) (model provider language : Option String) (w : W) where
    abbrev size : ℕ
    size = count file.content

    abbrev answer : Result SttResponse × W
    answer = speech_to_text registry keys host texts user_id file model provider language w

    abbrev asked : Action W RouteResult
    asked =
        ask registry keys host texts user_id "audio" "text"
          (stt_request registry keys host texts user_id file model language) provider model

    -- refused with a status, and nothing has changed
    abbrev pub Refused : ℕ → Type 0
    Refused status = (message : String) × (answer ≡ (err (http_exception status message), w))

    -- what becomes of an answer of the router
    abbrev pub Relayed : Type 0
    Relayed = RelayedBy (stt_response language) (asked w) answer

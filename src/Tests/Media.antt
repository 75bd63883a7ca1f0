-- ===== src/Tests/Media.antt =====
-- app/api/v1/routes/audio.py and the classes of the router's answers, on the chat providers of the routing tests: none
-- of them transcribes.
use ultimate_assistant_ai_ga.Base.{◌≡◌, refl, true, some, none, [], str_dec}
use ultimate_assistant_ai_ga.Base.Action.{ok}
use ultimate_assistant_ai_ga.Schemas.{blank_request, RouteResult, unified}
use ultimate_assistant_ai_ga.Providers.Capabilities.{text, parse_modality}
use ultimate_assistant_ai_ga.Services.Router.{route}
use ultimate_assistant_ai_ga.Services.Router.Classes.{IsAnswer, route-Returns}
use ultimate_assistant_ai_ga.Api.Uploads.{UploadFile}
use ultimate_assistant_ai_ga.Api.Media.{is_audio}
use ultimate_assistant_ai_ga.Tests.Routing.{registry, keys, host, reply, program}
use ultimate_assistant_ai_ga.Tests.Files.{texts}

abbrev clip : UploadFile
clip = record { content_type = none; filename = some "clip.exe"; content = "la la" }

-- without a content type, any extension passes
untyped : is_audio registry keys host texts 7 clip ≡ true
unfolding is_audio str_dec
untyped = refl

parsed : parse_modality "text" ≡ some text
unfolding parse_modality str_dec
parsed = refl

abbrev answered : RouteResult
answered = unified (record reply { provider = some "openai"; latency_ms = some 0 })

routed : (route registry keys none host 7 "text" "text" blank_request none none []).0 ≡ ok answered
unfolding program
routed = refl

route-Returns_example : IsAnswer text answered
route-Returns_example =
    route-Returns registry keys none host 7 "text" "text" text parsed blank_request none none []
      answered routed

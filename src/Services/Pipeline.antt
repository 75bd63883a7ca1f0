-- ===== src/Services/Pipeline.antt =====
-- app/services/pipeline.py: `Pipeline`, over the router. Logging is left out.
pub mod Hops
use ultimate_assistant_ai_ga.Base.{
  ℕ, String, Bool, true, false, Option, none, some, List, [], ◌∷◌, ite, str_dec, is_nil,
  if◌then◌else◌,
}
use ultimate_assistant_ai_ga.Base.Text.{or_else}
use ultimate_assistant_ai_ga.Base.Action.{
  Result, ok, err, Action, pure, raise, ◌>>=◌, capability_not_supported,
}
use ultimate_assistant_ai_ga.Schemas.{
  UnifiedRequest, blank_request, UnifiedResponse, MediaResult, RouteResult, unified, media,
}
use ultimate_assistant_ai_ga.Providers.Registry.{ProviderRegistry, get_capable_providers}
use ultimate_assistant_ai_ga.Services.Interfaces.{KeyStore, Ranker, Host}
use ultimate_assistant_ai_ga.Services.Router.{route, from_result}

abbrev pub Hop : Type 0
Hop = String × String

abbrev pub pipeline_routes : List (Hop × List Hop)
pipeline_routes =
    (("audio", "audio"), ("audio", "text") ∷ ("text", "text") ∷ ("text", "audio") ∷ [])
    ∷ (("image", "audio"), ("image", "text") ∷ ("text", "audio") ∷ [])
    ∷ (("audio", "image"), ("audio", "text") ∷ ("text", "image") ∷ [])
    ∷ (("image", "image"), ("image", "text") ∷ ("text", "image") ∷ [])
    ∷ (("video", "text"), ("video", "text") ∷ [])
    ∷ []

-- `PIPELINE_ROUTES.get(route_key)`; a missing key and an empty list are both false
unfoldable pub steps_of : String → String → List (Hop × List Hop) → List Hop
steps_of i o [] = []
steps_of i o (((a, b), steps) ∷ routes) =
    ite (str_dec a i) (ite (str_dec b o) steps (steps_of i o routes)) (steps_of i o routes)

-- `UnifiedRequest(prompt=current_data, options=options)`
abbrev pub hop_request : Option (List (String × String)) → String → UnifiedRequest
hop_request options current = record blank_request { prompt = some current; options = options }

-- what the next hop gets
unfoldable pub next_data : String → RouteResult → String
next_data current (unified r) = or_else r.content current
next_data current (media r) = or_else (some r.file_url) current

module _ {W : Type 0} (registry : ProviderRegistry W) (keys : KeyStore W)
    (ranker : Option (Ranker W)) (host : Host W) (user_id : ℕ) (preferred_provider : Option String)
    (options : Option (List (String × String))) where
  abbrev pub hop : String → String → String → Action W RouteResult
  hop i o current =
      route registry keys ranker host user_id i o (hop_request options current) preferred_provider
        none

  -- the loop, from the hop that the list starts with
  unfoldable pub run_hops : Hop → List Hop → String → Action W RouteResult
  run_hops (i, o) [] current = hop i o current
  run_hops (i, o) (next ∷ rest) current = do
    result ← hop i o current
    run_hops next rest (next_data current result)

  abbrev pub run_steps : String → String → List Hop → String → Action W RouteResult
  run_steps i o [] current = raise (capability_not_supported i o)
  run_steps i o (first ∷ rest) current = run_hops first rest current

  unfoldable pub execute : String → String → String → Action W RouteResult
  unfolding steps_of run_hops
  execute input_data i o = do
    capable ← from_result (get_capable_providers registry i o)
    if is_nil capable
        then run_steps i o (steps_of i o pipeline_routes) input_data
        else hop i o input_data

-- ===== src/Tests/Routing.antt =====
-- app/services/router.py on three chat providers, one of them down, and a user with keys for two.
-- The world is the list of the calls made, last first.
use ultimate_assistant_ai_ga.Base.{
  ◌≡◌, refl, ap, sym, subst, String, Bool, true, false, Option, none, some, List, [], ◌∷◌, arith,
  inl, inr, ◌⊎◌, ◌≢◌, str_dec, map,
}
use ultimate_assistant_ai_ga.Base.Text.{contains}
use package.text.Mathlib.TextEquality.{eq_iff}
use ultimate_assistant_ai_ga.Base.Lists.{All}
use ultimate_assistant_ai_ga.Services.Router.Failover.{failover-Succeeds}
use ultimate_assistant_ai_ga.Base.Action.{ok-injective, Result, ok, err, other_error, Succeeds}
use ultimate_assistant_ai_ga.Schemas.{
  UnifiedRequest, blank_request, UnifiedResponse, RouteResult, unified,
}
use ultimate_assistant_ai_ga.Providers.Capabilities.{
  text, Candidate, Modality-discrete, parse_modality, get_pair, append_at, build_capability_map,
}
use ultimate_assistant_ai_ga.Providers.Interface.{Provider, Method, chat_of}
use ultimate_assistant_ai_ga.Providers.Registry.{
  ProviderRegistry, advertised, find_provider, get_provider, get_capable_providers,
}
use ultimate_assistant_ai_ga.Services.Interfaces.{KeyStore, Host}
use ultimate_assistant_ai_ga.Services.Router.{
  call_unified, dispatch_pair, dispatch, set_model, stamp, prefer_provider, prefer_model, with_keys,
  failover, select, route,
}
use ultimate_assistant_ai_ga.Services.Router.Frame.{KeepsServices, KeepsDispatch}
use ultimate_assistant_ai_ga.Services.Router.Routing.{route-Keeps}

abbrev pub Log : Type 0
Log = List (String × String)

abbrev pub reply : UnifiedResponse
reply = record {
  content = some "hello";
  file_url = none;
  model = none;
  provider = none;
  input_tokens = some 3;
  output_tokens = some 5;
  latency_ms = none;
  estimated_cost_usd = none;
  tool_calls = none;
}

abbrev pub model_name : Option String → String
model_name none = "-"
model_name (some m) = m

-- notes the provider and the model asked for
abbrev pub noted_call : String → UnifiedRequest → String × String
noted_call name req = (name, model_name req.model)

abbrev pub adapter : String → List String → Method Log UnifiedResponse → Provider Log
adapter name models chat = record {
  name = name;
  capabilities = ((text, text), models) ∷ [];
  chat = some chat;
  stream_chat = some (λ req key w. (record { chunks = []; raised = none }, w));
  text_to_image = none;
  image_to_text = none;
  text_to_speech = none;
  speech_to_text = none;
  embed = none;
  text_to_video = none;
  image_to_video = none;
}

abbrev pub anthropic : Provider Log
anthropic =
    adapter "anthropic" ("claude-opus" ∷ [])
      (λ req key w. (err (other_error "down"), noted_call "anthropic" req ∷ w))

abbrev pub openai : Provider Log
openai = adapter "openai" ("gpt-4o" ∷ []) (λ req key w. (ok reply, noted_call "openai" req ∷ w))

abbrev pub groq : Provider Log
groq = adapter "groq" ("llama" ∷ []) (λ req key w. (ok reply, noted_call "groq" req ∷ w))

abbrev pub providers : List (String × Provider Log)
providers = ("anthropic", anthropic) ∷ ("openai", openai) ∷ ("groq", groq) ∷ []

abbrev pub registry : ProviderRegistry Log
registry = record {
  client_pool = [];
  providers = providers;
  capability_map = build_capability_map (advertised providers);
}

abbrev pub keys_for : List String → KeyStore Log
keys_for names = record {
  get_user_providers = λ user w. (ok names, w);
  get_decrypted_key = λ user name w. (ok "sk", w);
}

abbrev pub keys : KeyStore Log
keys = keys_for ("anthropic" ∷ "openai" ∷ [])

abbrev pub host : Host Log
host = record {
  monotonic = λ w. 0;
  count_request = λ c s w. w;
  observe_latency = λ c ms w. w;
  list_set = λ l. l;
}

unfoldable pub program : Unit {0}
unfolding Modality-discrete str_dec parse_modality build_capability_map get_pair append_at
    get_provider find_provider get_capable_providers dispatch dispatch_pair set_model stamp
    prefer_provider prefer_model with_keys route
program = tt

-- the failed call, and the call that answers: both ask for the first provider's model
route_fails_over : route registry keys none host 7 "text" "text" blank_request none none [] ≡ (
  ok (unified (record reply { provider = some "openai"; latency_ms = some 0 })),
  ("openai", "claude-opus") ∷ ("anthropic", "claude-opus") ∷ [],
)
unfolding program
route_fails_over = refl

no_capability : get_capable_providers registry "text" "video" ≡ ok []
unfolding program
no_capability = refl

abbrev c1 : Candidate
c1 = record { provider = "anthropic"; model = "claude-opus" }

abbrev c2 : Candidate
c2 = record { provider = "openai"; model = "gpt-4o" }

abbrev c3 : Candidate
c3 = record { provider = "groq"; model = "llama" }

capable_text : get_capable_providers registry "text" "text" ≡ ok (c1 ∷ c2 ∷ c3 ∷ [])
unfolding program
capable_text = refl

no_key_fits : with_keys ("fal" ∷ []) (c1 ∷ c2 ∷ c3 ∷ []) ≡ []
unfolding program
no_key_fits = refl

abbrev pub allowed : String → Bool
allowed name = contains name ("anthropic" ∷ "openai" ∷ [])

-- groq has not been called
abbrev pub Spared : Log → Type 0
Spared w = contains "groq" (map (λ c. c.0) w) ≡ false

pub services_spare : KeepsServices keys none host registry 7 Spared
services_spare = record {
  list_keys = λ w h. h;
  decrypt = λ name w h. h;
  count = λ c s w h. h;
  observe = λ c ms w h. h;
  ranking = λ cs w h. h;
  succeeded = λ c ms w h. h;
  failed = λ c w h. h;
}

pub found_allowed :
    (name : String) (p : Provider Log)
    → allowed name ≡ true
    → get_provider registry name ≡ some p
    → (p ≡ anthropic) ⊎ (p ≡ openai)
unfolding get_provider find_provider
found_allowed name p a f = ground arith

dispatch_text :
    (p : Provider Log) (req : UnifiedRequest) (key : String) (w : Log)
    → dispatch "text" "text" p req key w ≡ call_unified "text" "text" (chat_of p) req key w
unfolding program
dispatch_text p req key w = refl

pub not_groq : (name m : String) (w : Log) → (name ≢ "groq") → Spared w → Spared ((name, m) ∷ w)
not_groq name m w n h = ground arith

dispatch_spares :
    KeepsDispatch keys none host registry 7 Spared "text" "text" allowed (λ _. Unit {0})
dispatch_spares name p req key a f q w h =
    rw (dispatch_text p req key w) (elim (found_allowed name p a f) [
      | inl e ↦ rw e (
          not_groq "anthropic" (model_name req.model) w (ground (arith, eq_iff "anthropic" "groq"))
            h)
      | inr e ↦
          rw e
            (not_groq "openai" (model_name req.model) w (ground (arith, eq_iff "openai" "groq")) h)
    ])

route-Keeps_example :
    Spared (route registry keys none host 7 "text" "text" blank_request none none []).1
route-Keeps_example =
    route-Keeps registry keys none host 7 "text" "text" blank_request none none Spared allowed
      services_spare dispatch_spares (λ r e. cc) (λ w l e name c. owned l (ok-injective e) name c)
      [] refl
  where
    owned :
        (l : List String)
        → ("anthropic" ∷ "openai" ∷ []) ≡ l
        → (name : String) → contains name l ≡ true
        → allowed name ≡ true
    owned l e name c = subst (λ x. contains name x ≡ true) (sym e) c

-- every call so far asked for the model of the first candidate
abbrev OneModel : Log → Type 0
OneModel w = All (λ c. c.1 ≡ "claude-opus") w

services_one : KeepsServices keys none host registry 7 OneModel
services_one = record {
  list_keys = λ w h. h;
  decrypt = λ name w h. h;
  count = λ c s w h. h;
  observe = λ c ms w h. h;
  ranking = λ cs w h. h;
  succeeded = λ c ms w h. h;
  failed = λ c w h. h;
}

found_any :
    (name : String) (p : Provider Log)
    → get_provider registry name ≡ some p
    → (p ≡ anthropic) ⊎ (p ≡ openai) ⊎ (p ≡ groq)
unfolding get_provider find_provider
found_any name p f = ground arith

dispatch_one :
    KeepsDispatch keys none host registry 7 OneModel "text" "text"
      (λ _. true)
      (λ r. r.model ≡ some "claude-opus")
dispatch_one name p req key a f q w h = rw (dispatch_text p req key w) (elim (found_any name p f) [
  | inl e ↦ rw e (named, h)
  | inr (inl e) ↦ rw e (named, h)
  | inr (inr e) ↦ rw e (named, h)
])
  where
    named : model_name req.model ≡ "claude-opus"
    named = rw q

found_first : get_provider registry "anthropic" ≡ some anthropic
unfolding program
found_first = refl

openai_answers :
    (req : UnifiedRequest) (key : String) → Succeeds (dispatch "text" "text" openai req key)
openai_answers req key w =
    (unified reply, ap (λ (t : Result RouteResult × Log). t.0) (dispatch_text openai req key w))

found_openai : get_provider registry "openai" ≡ some openai
unfolding program
found_openai = refl

failover-Succeeds_example :
    (r : RouteResult) × ((failover registry keys none host 7 "text" "text"
        (c1 ∷ c2 ∷ [])
        none
        blank_request
        []).0
      ≡ ok r)
failover-Succeeds_example =
    failover-Succeeds registry keys none host 7 "text" "text" (λ c ms w. (tt, refl))
      (λ c w. (tt, refl)) (λ name w. ("sk", refl)) c2 openai found_openai openai_answers
      (c1 ∷ c2 ∷ []) none blank_request (inr (inl refl)) []

select_runs :
    (select registry keys none host 7 "text" "text" (c1 ∷ c2 ∷ c3 ∷ []) (some "openai") none []).0
    ≡ ok (c2 ∷ [])
unfolding program select
select_runs = refl

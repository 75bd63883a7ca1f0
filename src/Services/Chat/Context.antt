-- ===== src/Services/Chat/Context.antt =====
-- `ChatService.get_streaming_context`: who streams the answer.
use ultimate_assistant_ai_ga.Services.Chat.{ChatRequest, tools_of}
use ultimate_assistant_ai_ga.Base.{ℕ, String, true, some, List, [], ◌∷◌, ◌≡◌, sym, ap, subst, ◌∙◌}
use ultimate_assistant_ai_ga.Base.Lists.{All}
use ultimate_assistant_ai_ga.Base.Text.{or_else, contains}
use ultimate_assistant_ai_ga.Base.Action.{
  ok, Action, pure, raise, ◌>>=◌, >>=-eq-ok, ok-injective, index_error,
}
use ultimate_assistant_ai_ga.Schemas.{Message, UnifiedRequest, blank_request}
use ultimate_assistant_ai_ga.Providers.Capabilities.{Candidate}
use ultimate_assistant_ai_ga.Providers.Registry.{ProviderRegistry, get_capable_providers}
use ultimate_assistant_ai_ga.Services.Interfaces.{KeyStore}
use ultimate_assistant_ai_ga.Services.Router.{prefer_provider, prefer_model, with_keys, from_result}
use ultimate_assistant_ai_ga.Services.Router.Selection.{
  prefer_provider-All, prefer_model-All, with_keys-All,
}

module _ {W : Type 0} (registry : ProviderRegistry W) (key_service : KeyStore W)
    (to_messages : ChatRequest → List Message) (req : ChatRequest) (user_id : ℕ) where
  abbrev pub stream_request : String → UnifiedRequest
  stream_request model_id = record blank_request {
    messages = some (to_messages req);
    model = some (or_else req.model model_id);
    temperature = req.temperature;
    max_tokens = req.max_tokens;
    stream = true;
    tools = tools_of req.tools;
    tool_choice = req.tool_choice;
  }

  -- `available[0]`
  abbrev pub first_available : List Candidate → Action W Candidate
  first_available [] = raise (index_error "list index out of range")
  first_available (c ∷ cs) = pure c

  abbrev pub choose : List Candidate → List String → Action W Candidate
  choose capable user_providers =
      first_available
        (prefer_model req.model (prefer_provider req.provider (with_keys user_providers capable)))

  abbrev pub with_its_key : Candidate → Action W (Candidate × UnifiedRequest × String)
  with_its_key c = key_service.get_decrypted_key user_id c.provider >>= λ api_key.
      pure (c, stream_request c.model, api_key)

  abbrev pub choose_and_load :
      List Candidate → List String → Action W (Candidate × UnifiedRequest × String)
  choose_and_load capable user_providers = choose capable user_providers >>= with_its_key

  abbrev pub among : List Candidate → Action W (Candidate × UnifiedRequest × String)
  among capable = key_service.get_user_providers user_id >>= choose_and_load capable

  -- The context, with the model beside the provider.
  unfoldable pub get_streaming_context : Action W (Candidate × UnifiedRequest × String)
  get_streaming_context = from_result (get_capable_providers registry "text" "text") >>= among

  first-All :
      (Q : Candidate → Type 0) (cs : List Candidate) (c : Candidate) (w : W)
      → All Q cs
      → (first_available cs w).0 ≡ ok c
      → Q c
  first-All Q [] c w a e = cc
  first-All Q (d ∷ cs) c w a e = subst Q (ok-injective e) a.0

  -- Whoever streams is one of the providers that advertise chat with one of its models, and the user has a key for
  -- it; the request asks for the user's model, or for that one, and is a streaming one.
  pub get_streaming_context_lem :
      (Q : Candidate → Type 0) (capable : List Candidate) (c : Candidate) (stream : UnifiedRequest)
      (api_key : String) (w : W)
      → get_capable_providers registry "text" "text" ≡ ok capable
      → All Q capable
      → (get_streaming_context w).0 ≡ ok (c, stream, api_key)
      → Q c
        × ((ups : List String) × ((key_service.get_user_providers user_id w).0 ≡ ok ups)
            × (contains c.provider ups ≡ true))
        × (stream.model ≡ some (or_else req.model c.model))
        × (stream.stream ≡ true)
  unfolding get_streaming_context
  get_streaming_context_lem Q capable c stream api_key w found all e =
      let (cs, e1, e2) =
        >>=-eq-ok (from_result (get_capable_providers registry "text" "text")) among w e in
      let same_list : cs ≡ capable = ok-injective (sym e1 ∙ found) in
      let (ups, e3, e4) =
        >>=-eq-ok (key_service.get_user_providers user_id) (choose_and_load cs) w e2 in
      let w1 = (key_service.get_user_providers user_id w).1 in
      let (d, e5, e6) = >>=-eq-ok (choose cs ups) with_its_key w1 e4 in
      let (key, e7, e8) =
        >>=-eq-ok (key_service.get_decrypted_key user_id d.provider)
          (λ k. pure (d, stream_request d.model, k)) (choose cs ups w1).1 e6 in
      let whole : (d, stream_request d.model, key) ≡ (c, stream, api_key) = ok-injective e8 in
      let R : Candidate → Type 0 = λ x. Q x × (contains x.provider ups ≡ true) in
      let chosen : R d =
        first-All R (prefer_model req.model (prefer_provider req.provider (with_keys ups cs))) d w1
          (prefer_model-All R req.model _ (
            prefer_provider-All R req.provider _
              (with_keys-All Q ups cs (subst (All Q) (sym same_list) all))))
          e5 in
      let chosen' : R c = subst R (ap (λ t. t.0) whole) chosen in
      (
        chosen'.0,
        (ups, e3, chosen'.1),
        sym (ap (λ t. t.1.model) whole) ∙ ap (λ t. some (or_else req.model t.0.model)) whole,
        sym (ap (λ t. t.1.stream) whole),
      )

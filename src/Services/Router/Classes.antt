-- ===== src/Services/Router/Classes.antt =====
-- Which of the two result classes `route` returns, by the output modality.
use ultimate_assistant_ai_ga.Base.{
  ℕ, ◌-◌, ◌/◌, String, Bool, true, false, Option, none, some, List, [], ◌∷◌, ◌≡◌, refl, sym, ap,
  ◌∙◌, subst, is_nil, Option-cases, inl, inr,
}
use ultimate_assistant_ai_ga.Base.Action.{
  Exc, Result, ok, err, ok-injective, Action, pure, modify, raise_if, Returns, >>=-Returns,
  >>=-Returns_post, ◌>>=◌, capability_not_supported,
}
use ultimate_assistant_ai_ga.Schemas.{
  UnifiedRequest, UnifiedResponse, MediaResult, RouteResult, unified, media,
}
use ultimate_assistant_ai_ga.Providers.Capabilities.{
  Modality, text, image, audio, video, vector, Candidate, parse_modality,
}
use ultimate_assistant_ai_ga.Providers.Interface.{
  Provider, Method, chat_of, text_video_of, image_video_of,
}
use ultimate_assistant_ai_ga.Providers.Registry.{
  ProviderRegistry, get_provider, get_capable_providers,
}
use ultimate_assistant_ai_ga.Services.Interfaces.{KeyStore, Ranker, Host}
use ultimate_assistant_ai_ga.Services.Router.{
  call_unified, call_media, dispatch_pair, dispatch, dispatch_parsed, stamp, finish, give_up,
  settle, attempt, Attempt, success, failure, next_round, failover, select, route, from_result,
  set_model, tell_success, tell_failure,
}

abbrev pub is_unified : RouteResult → Bool
is_unified (unified r) = true
is_unified (media r) = false

-- what is answered as text
abbrev pub is_textual : Modality → Bool
is_textual text = true
is_textual vector = true
is_textual _ = false

abbrev pub IsAnswer : Modality → RouteResult → Type 0
IsAnswer o r = is_unified r ≡ is_textual o

module _ {W : Type 0} (input_mod output_mod : String) where
  call_unified-Returns :
      (m : Option (Method W UnifiedResponse)) (req : UnifiedRequest) (key : String)
      → Returns (λ r. is_unified r ≡ true) (call_unified input_mod output_mod m req key)
  call_unified-Returns none req key = λ w r e. cc
  call_unified-Returns (some m) req key =
      >>=-Returns (λ r. is_unified r ≡ true) (m req key) _
        (λ u w r e. ap is_unified (sym (ok-injective e)))

  call_media-Returns :
      (m : Option (Method W MediaResult)) (req : UnifiedRequest) (key : String)
      → Returns (λ r. is_unified r ≡ false) (call_media input_mod output_mod m req key)
  call_media-Returns none req key = λ w r e. cc
  call_media-Returns (some m) req key =
      >>=-Returns (λ r. is_unified r ≡ false) (m req key) _
        (λ u w r e. ap is_unified (sym (ok-injective e)))

  dispatch_pair-Returns :
      (i o : Modality) (p : Provider W) (req : UnifiedRequest) (key : String)
      → Returns
          (λ r. is_unified r ≡ is_textual o)
          (dispatch_pair input_mod output_mod i o p req key)
  unfolding dispatch_pair
  dispatch_pair-Returns text text p req key = call_unified-Returns (chat_of p) req key
  dispatch_pair-Returns text image p req key = call_media-Returns p.text_to_image req key
  dispatch_pair-Returns image text p req key = call_unified-Returns p.image_to_text req key
  dispatch_pair-Returns text audio p req key = call_media-Returns p.text_to_speech req key
  dispatch_pair-Returns audio text p req key = call_unified-Returns p.speech_to_text req key
  dispatch_pair-Returns text vector p req key = call_unified-Returns p.embed req key
  dispatch_pair-Returns text video p req key = call_media-Returns (text_video_of p) req key
  dispatch_pair-Returns image video p req key = call_media-Returns (image_video_of p) req key
  dispatch_pair-Returns _ _ p req key = λ w r e. cc

  dispatch-Returns :
      (o : Modality) (p : Provider W) (req : UnifiedRequest) (key : String)
      → parse_modality output_mod ≡ some o
      → Returns (IsAnswer o) (dispatch input_mod output_mod p req key)
  unfolding dispatch
  dispatch-Returns o p req key parsed w r e = elim (Option-cases (parse_modality input_mod)) [
    | inl q ↦
        let e1 : (dispatch_parsed input_mod output_mod none (parse_modality output_mod) p req key
              w).0
            ≡ ok r =
          rw q at e in
        cc
    | inr (i, q) ↦ dispatch_pair-Returns i o p req key w r (rw (q, parsed) at e)
  ]

is_unified-stamp :
    (c : Candidate) (ms : ℕ) (r : RouteResult) → is_unified (stamp c ms r) ≡ is_unified r
unfolding stamp
is_unified-stamp c ms (unified r) = refl
is_unified-stamp c ms (media r) = refl

module _ {W : Type 0} (registry : ProviderRegistry W) (keys : KeyStore W)
    (ranker : Option (Ranker W)) (host : Host W) (user_id : ℕ) (input_mod output_mod : String)
    (o : Modality) (parsed : parse_modality output_mod ≡ some o) where
  finish-Returns :
      (c : Candidate) (start : ℕ) (result : RouteResult)
      → IsAnswer o result
      → Returns
          (IsAnswer o)
          (finish registry keys ranker host user_id input_mod output_mod c start result)
  unfolding finish
  finish-Returns c start result h w r e =
      let ms = (host.monotonic w - start) / 1000 in
      let done : Unit {0} → Action W RouteResult = λ _. pure (stamp c ms result) in
      let told : Unit {0} → Action W RouteResult = λ _. tell_success ranker c ms >>= done in
      let observed : Unit {0} → Action W RouteResult =
        λ _. modify (host.observe_latency c ms) >>= told in
      >>=-Returns (IsAnswer o) (modify (host.count_request c "success")) observed
        (λ _. >>=-Returns (IsAnswer o) (modify (host.observe_latency c ms)) told (λ _.
          >>=-Returns (IsAnswer o) (tell_success ranker c ms) done (λ _ w' r' e'.
            ap is_unified (sym (ok-injective e')) ∙ (is_unified-stamp c ms result ∙ h))))
        w r e

  abbrev IsGood : Attempt → Type 0
  IsGood (success r) = IsAnswer o r
  IsGood (failure e) = Unit

  settle-Returns :
      (c : Candidate) (x : Result RouteResult)
      → ((r : RouteResult) → x ≡ ok r → IsAnswer o r)
      → Returns IsGood (settle registry keys ranker host user_id input_mod output_mod c x)
  unfolding give_up
  settle-Returns c (ok r) h = λ w a e. subst IsGood (ok-injective e) (h r refl)
  settle-Returns c (err x) h =
      let gave : Unit {0} → Action W Attempt = λ _. pure (failure x) in
      let told : Unit {0} → Action W Attempt = λ _. tell_failure ranker c >>= gave in
      >>=-Returns IsGood (modify (host.count_request c "error")) told (λ _.
        >>=-Returns IsGood (tell_failure ranker c) gave
          (λ _ w a e. subst IsGood {x = failure x} (ok-injective e) tt))

  attempt-Returns :
      (c : Candidate) (p : Provider W) (req : UnifiedRequest) (key : String)
      → Returns IsGood (attempt registry keys ranker host user_id input_mod output_mod c p req key)
  unfolding attempt
  attempt-Returns c p req key w a e =
      let m =
        dispatch input_mod output_mod p req key
        >>= finish registry keys ranker host user_id input_mod output_mod c (host.monotonic w) in
      settle-Returns c (m w).0
        (λ r q.
          >>=-Returns_post (IsAnswer o) (IsAnswer o) (dispatch input_mod output_mod p req key)
            (finish registry keys ranker host user_id input_mod output_mod c (host.monotonic w))
            (dispatch-Returns input_mod output_mod o p req key parsed)
            (finish-Returns c (host.monotonic w)) w r q)
        (m w).1 a e

  next_round-Returns :
      (a : Attempt) (continue : Exc → Action W RouteResult)
      → IsGood a
      → ((e : Exc) → Returns (IsAnswer o) (continue e))
      → Returns (IsAnswer o) (next_round a continue)
  next_round-Returns (success r) continue g h = λ w r' e. subst (IsAnswer o) (ok-injective e) g
  next_round-Returns (failure x) continue g h = h x

  failover-Returns :
      (cs : List Candidate) (last : Option Exc) (req : UnifiedRequest)
      → Returns
          (IsAnswer o)
          (failover registry keys ranker host user_id input_mod output_mod cs last req)
  unfolding failover
  failover-Returns [] last req w r e = cc
  failover-Returns (c ∷ cs) last req w r e =
      elim (Option-cases (get_provider registry c.provider)) [
        | inl q ↦ failover-Returns cs last req w r (rw (failover, q) at e)
        | inr (p, q) ↦
            let req' = set_model req c.model in
            let again : Exc → Action W RouteResult = λ x.
              failover registry keys ranker host user_id input_mod output_mod cs (some x) req' in
            let try_key : String → Action W Attempt =
              attempt registry keys ranker host user_id input_mod output_mod c p req' in
            let go_on : Attempt → Action W RouteResult = λ a. next_round a again in
            let with_key : String → Action W RouteResult = λ key. try_key key >>= go_on in
            >>=-Returns (IsAnswer o) (keys.get_decrypted_key user_id c.provider) with_key
              (λ key.
                >>=-Returns_post IsGood (IsAnswer o) (try_key key) go_on
                  (attempt-Returns c p req' key)
                  (λ a g. next_round-Returns a again g (λ x. failover-Returns cs (some x) req')))
              w r (rw (failover, q) at e)
      ]

  -- The class of the answer goes by the output modality alone: what `route` returns for text or for a vector
  -- is a UnifiedResponse, and what it returns for an image, audio or a video is a MediaResult.
  pub route-Returns :
      (req : UnifiedRequest) (pp pm : Option String)
      → Returns
          (IsAnswer o)
          (route registry keys ranker host user_id input_mod output_mod req pp pm)
  unfolding route
  route-Returns req pp pm =
      let try_all : List Candidate → Action W RouteResult = λ available.
        failover registry keys ranker host user_id input_mod output_mod available none req in
      let chosen : List Candidate → Action W RouteResult = λ capable.
        select registry keys ranker host user_id input_mod output_mod capable pp pm >>= try_all in
      let refused : List Candidate → Action W (Unit {0}) =
        λ capable. raise_if (is_nil capable) (capability_not_supported input_mod output_mod) in
      let checked : List Candidate → Action W RouteResult =
        λ capable. refused capable >>= λ _. chosen capable in
      >>=-Returns (IsAnswer o) (from_result (get_capable_providers registry input_mod output_mod))
        checked
        (λ capable.
          >>=-Returns (IsAnswer o) (refused capable) (λ _. chosen capable)
            (λ _.
              >>=-Returns (IsAnswer o)
                (select registry keys ranker host user_id input_mod output_mod capable pp pm)
                try_all (λ available. failover-Returns available none req)))

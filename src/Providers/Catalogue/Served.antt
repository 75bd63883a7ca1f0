-- ===== src/Providers/Catalogue/Served.antt =====
-- What the adapters advertise, against the methods that the router's dispatch finds.
use ultimate_assistant_ai_ga.Providers.Catalogue.{catalogue}
use ultimate_assistant_ai_ga.Providers.Catalogue.Models.{All-Holds, models_of}
use ultimate_assistant_ai_ga.Base.{String, List, ◌≡◌, refl, Bool, true, false, ◌||◌, is_nil}
use ultimate_assistant_ai_ga.Base.Lists.{Holds, every, every-All}
use ultimate_assistant_ai_ga.Base.Action.{ok}
use ultimate_assistant_ai_ga.Schemas.{UnifiedRequest, RouteResult, unified, media}
use ultimate_assistant_ai_ga.Providers.Capabilities.{
  Modality-discrete, ModalityPair, text, image, audio, video, vector,
}
use ultimate_assistant_ai_ga.Providers.Interface.{Method}
use ultimate_assistant_ai_ga.Providers.Pairs.{all_pairs, every_pair}
use ultimate_assistant_ai_ga.Providers.Adapter.{
  Protocol, chat_capable, image_gen_capable, vision_capable, tts_capable, stt_capable,
  embed_capable, video_gen_capable, Protocol-discrete, Adapter, Methods, inherits, instance_of,
}
use ultimate_assistant_ai_ga.Services.Router.{dispatch_pair}

-- whether the protocols hold the method for a pair
abbrev served : ModalityPair → List Protocol → Bool
served (text, text) ps = inherits chat_capable ps
served (text, image) ps = inherits image_gen_capable ps
served (image, text) ps = inherits vision_capable ps
served (text, audio) ps = inherits tts_capable ps
served (audio, text) ps = inherits stt_capable ps
served (text, vector) ps = inherits embed_capable ps
served (text, video) ps = inherits video_gen_capable ps
served (image, video) ps = inherits video_gen_capable ps
served _ ps = false

abbrev kept_at : Adapter → ModalityPair → Bool
kept_at a k = is_nil (models_of k a.capabilities) || served k a.protocols

abbrev kept : Adapter → Bool
kept a = every (kept_at a) all_pairs

catalogue-kept : every kept catalogue ≡ true
unfolding models_of Modality-discrete Protocol-discrete
catalogue-kept = refl

-- A method that returns, whatever it is asked.
abbrev pub Returns : {W A : Type 0} → Method W A → Type 0
Returns {W} {A} m =
    (req : UnifiedRequest) (key : String) (w : W) → (r : A) × ((m req key w).0 ≡ ok r)

pub record AllReturn {W : Type 0} (m : Methods W) : Type 0 where
  pub chat : Returns m.chat
  pub text_to_image : Returns m.text_to_image
  pub image_to_text : Returns m.image_to_text
  pub text_to_speech : Returns m.text_to_speech
  pub speech_to_text : Returns m.speech_to_text
  pub embed : Returns m.embed
  pub text_to_video : Returns m.text_to_video
  pub image_to_video : Returns m.image_to_video

module _ {W : Type 0} (input_mod output_mod : String) (a : Adapter) (m : Methods W)
    (returns : AllReturn m) (req : UnifiedRequest) (key : String) (w : W) where
  abbrev pub Dispatched : ModalityPair → Type 0
  Dispatched k =
      (r : RouteResult) × ((dispatch_pair input_mod output_mod k.0 k.1 (instance_of a m) req key
          w).0
        ≡ ok r)

  served-dispatch : (k : ModalityPair) → served k a.protocols ≡ true → Dispatched k
  unfolding dispatch_pair instance_of
  served-dispatch (text, text) h =
      let (r, e) = returns.chat req key w in (unified r, rw (h, e) refl)
  served-dispatch (text, image) h =
      let (r, e) = returns.text_to_image req key w in (media r, rw (h, e) refl)
  served-dispatch (image, text) h =
      let (r, e) = returns.image_to_text req key w in (unified r, rw (h, e) refl)
  served-dispatch (text, audio) h =
      let (r, e) = returns.text_to_speech req key w in (media r, rw (h, e) refl)
  served-dispatch (audio, text) h =
      let (r, e) = returns.speech_to_text req key w in (unified r, rw (h, e) refl)
  served-dispatch (text, vector) h =
      let (r, e) = returns.embed req key w in (unified r, rw (h, e) refl)
  served-dispatch (text, video) h =
      let (r, e) = returns.text_to_video req key w in (media r, rw (h, e) refl)
  served-dispatch (image, video) h =
      let (r, e) = returns.image_to_video req key w in (media r, rw (h, e) refl)
  served-dispatch (k, j) h = cc

  -- Every conversion that an adapter advertises models for is one that the router can dispatch to it: with methods
  -- that return, the dispatch returns a result, and never that the conversion is not supported.
  pub catalogue_dispatch :
      (k : ModalityPair)
      → Holds a catalogue
      → is_nil (models_of k a.capabilities) ≡ false
      → (r : RouteResult) × ((dispatch_pair input_mod output_mod k.0 k.1
            (instance_of a m)
            req
            key
            w).0
          ≡ ok r)
  catalogue_dispatch k held some_model =
      let here : kept a ≡ true =
        All-Holds (λ b. kept b ≡ true) a catalogue (every-All kept catalogue catalogue-kept) held in
      let at : is_nil (models_of k a.capabilities) || served k a.protocols ≡ true =
        every_pair (λ j. kept_at a j ≡ true) (every-All (kept_at a) all_pairs here) k in
      served-dispatch k (rw some_model at at)

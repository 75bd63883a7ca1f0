-- ===== src/Providers/Pairs.antt =====
-- The pairs of modalities, listed.
use ultimate_assistant_ai_ga.Base.{String, List, [], ◌∷◌}
use ultimate_assistant_ai_ga.Base.Lists.{All}
use ultimate_assistant_ai_ga.Base.Text.{concat}
use ultimate_assistant_ai_ga.Providers.Capabilities.{
  Modality, text, image, audio, video, vector, ModalityPair,
}

-- `modality.value`
unfoldable pub value : Modality → String
value text = "text"
value image = "image"
value audio = "audio"
value video = "video"
value vector = "vector"

-- `f"{k[0].value}→{k[1].value}"`
unfoldable pub pair_text : ModalityPair → String
unfolding value
pair_text (i, o) = concat (value i ∷ "→" ∷ value o ∷ [])

abbrev pub all_pairs : List ModalityPair
all_pairs =
    (text, text)
    ∷ (text, image)
    ∷ (text, audio)
    ∷ (text, video)
    ∷ (text, vector)
    ∷ (image, text)
    ∷ (image, image)
    ∷ (image, audio)
    ∷ (image, video)
    ∷ (image, vector)
    ∷ (audio, text)
    ∷ (audio, image)
    ∷ (audio, audio)
    ∷ (audio, video)
    ∷ (audio, vector)
    ∷ (video, text)
    ∷ (video, image)
    ∷ (video, audio)
    ∷ (video, video)
    ∷ (video, vector)
    ∷ (vector, text)
    ∷ (vector, image)
    ∷ (vector, audio)
    ∷ (vector, video)
    ∷ (vector, vector)
    ∷ []

-- What holds of all of them holds of each.
pub every_pair {ℓ} : (P : ModalityPair → Type ℓ) → All P all_pairs → (k : ModalityPair) → P k
every_pair P h (text, text) = h.0
every_pair P h (text, image) = h.1.0
every_pair P h (text, audio) = h.1.1.0
every_pair P h (text, video) = h.1.1.1.0
every_pair P h (text, vector) = h.1.1.1.1.0
every_pair P h (image, text) = h.1.1.1.1.1.0
every_pair P h (image, image) = h.1.1.1.1.1.1.0
every_pair P h (image, audio) = h.1.1.1.1.1.1.1.0
every_pair P h (image, video) = h.1.1.1.1.1.1.1.1.0
every_pair P h (image, vector) = h.1.1.1.1.1.1.1.1.1.0
every_pair P h (audio, text) = h.1.1.1.1.1.1.1.1.1.1.0
every_pair P h (audio, image) = h.1.1.1.1.1.1.1.1.1.1.1.0
every_pair P h (audio, audio) = h.1.1.1.1.1.1.1.1.1.1.1.1.0
every_pair P h (audio, video) = h.1.1.1.1.1.1.1.1.1.1.1.1.1.0
every_pair P h (audio, vector) = h.1.1.1.1.1.1.1.1.1.1.1.1.1.1.0
every_pair P h (video, text) = h.1.1.1.1.1.1.1.1.1.1.1.1.1.1.1.0
every_pair P h (video, image) = h.1.1.1.1.1.1.1.1.1.1.1.1.1.1.1.1.0
every_pair P h (video, audio) = h.1.1.1.1.1.1.1.1.1.1.1.1.1.1.1.1.1.0
every_pair P h (video, video) = h.1.1.1.1.1.1.1.1.1.1.1.1.1.1.1.1.1.1.0
every_pair P h (video, vector) = h.1.1.1.1.1.1.1.1.1.1.1.1.1.1.1.1.1.1.1.0
every_pair P h (vector, text) = h.1.1.1.1.1.1.1.1.1.1.1.1.1.1.1.1.1.1.1.1.0
every_pair P h (vector, image) = h.1.1.1.1.1.1.1.1.1.1.1.1.1.1.1.1.1.1.1.1.1.0
every_pair P h (vector, audio) = h.1.1.1.1.1.1.1.1.1.1.1.1.1.1.1.1.1.1.1.1.1.1.0
every_pair P h (vector, video) = h.1.1.1.1.1.1.1.1.1.1.1.1.1.1.1.1.1.1.1.1.1.1.1.0
every_pair P h (vector, vector) = h.1.1.1.1.1.1.1.1.1.1.1.1.1.1.1.1.1.1.1.1.1.1.1.1.0

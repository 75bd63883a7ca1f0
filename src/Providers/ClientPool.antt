-- ===== src/Providers/ClientPool.antt =====
-- app/providers/client_pool.py: which providers have an HTTP client. A client stands for itself
-- by its base URL.
use ultimate_assistant_ai_ga.Base.{String, List, [], ◌∷◌, ite, str_dec}
use ultimate_assistant_ai_ga.Base.Text.{concat}
use ultimate_assistant_ai_ga.Base.Action.{Result, ok, err, value_error}

abbrev pub provider_urls : List (String × String)
provider_urls =
    ("openai", "https://api.openai.com")
    ∷ ("anthropic", "https://api.anthropic.com")
    ∷ ("google", "https://generativelanguage.googleapis.com")
    ∷ ("xai", "https://api.x.ai")
    ∷ ("mistral", "https://api.mistral.ai")
    ∷ ("cohere", "https://api.cohere.com")
    ∷ ("groq", "https://api.groq.com/openai")
    ∷ ("deepseek", "https://api.deepseek.com")
    ∷ ("elevenlabs", "https://api.elevenlabs.io")
    ∷ ("replicate", "https://api.replicate.com")
    ∷ ("stability", "https://api.stability.ai")
    ∷ ("fal", "https://fal.run")
    ∷ ("ollama", "http://localhost:11434")
    ∷ []

-- `self._clients`
abbrev pub ClientPool : Type 0
ClientPool = List (String × String)

unfoldable pub set_client : String → String → ClientPool → ClientPool
set_client k u [] = (k, u) ∷ []
set_client k u ((j, v) ∷ cs) = ite (str_dec j k) ((k, u) ∷ cs) ((j, v) ∷ set_client k u cs)

-- `startup`, over a table of URLs
unfoldable pub startup_from : List (String × String) → ClientPool → ClientPool
unfolding set_client
startup_from [] pool = pool
startup_from ((name, base_url) ∷ urls) pool = startup_from urls (set_client name base_url pool)

unfoldable pub startup : ClientPool → ClientPool
unfolding startup_from
startup pool = startup_from provider_urls pool

unfoldable pub shutdown : ClientPool → ClientPool
shutdown pool = []

unfoldable pub get : ClientPool → String → Result String
get [] provider = err (value_error (concat ("No client for provider: " ∷ provider ∷ [])))
get ((j, u) ∷ cs) provider = ite (str_dec j provider) (ok u) (get cs provider)

-- ===== src/Providers/Catalogue/Ollama.antt =====
-- app/providers/ollama/adapter.py: the class `OllamaAdapter` with its protocols, `get_capabilities` and `get_models`.
use ultimate_assistant_ai_ga.Base.{true, none, some, List, [], ◌∷◌}
use ultimate_assistant_ai_ga.Schemas.{ModelInfo, model_info}
use ultimate_assistant_ai_ga.Providers.Capabilities.{text, image, vector, Capabilities}
use ultimate_assistant_ai_ga.Providers.Adapter.{
  Adapter, chat_capable, embed_capable, vision_capable,
}

abbrev pub ollama_capabilities : Capabilities
ollama_capabilities =
    (
      (text, text),
      "llama3.2" ∷ "llama3.2:1b" ∷ "llama3.1" ∷ "llama3.1:70b" ∷ "mistral" ∷ "mistral-nemo" ∷ "phi4"
          ∷ "gemma3" ∷ "gemma3:12b" ∷ "qwen3" ∷ "qwen3:8b" ∷ "deepseek-r1" ∷ "deepseek-r1:8b"
          ∷ "codellama" ∷ "command-r" ∷ [],
    )
    ∷ ((image, text), "llava" ∷ "llava:13b" ∷ "llava-llama3" ∷ "moondream" ∷ [])
    ∷ ((text, vector), "nomic-embed-text" ∷ "mxbai-embed-large" ∷ "all-minilm" ∷ [])
    ∷ []

abbrev pub ollama_models : List ModelInfo
ollama_models =
    (record (model_info "llama3.2" "Llama 3.2 3B" "ollama" ("text→text" ∷ []) (some 131072)
      (some 8192)) { supports_tools = true })
    ∷ model_info "llama3.2:1b" "Llama 3.2 1B" "ollama" ("text→text" ∷ []) (some 131072) (some 8192)
    ∷ (record (model_info "llama3.1" "Llama 3.1 8B" "ollama" ("text→text" ∷ []) (some 131072)
        (some 8192)) { supports_tools = true })
    ∷ (record (model_info "llama3.1:70b" "Llama 3.1 70B" "ollama" ("text→text" ∷ []) (some 131072)
        (some 8192)) { supports_tools = true })
    ∷ model_info "mistral" "Mistral 7B" "ollama" ("text→text" ∷ []) (some 32768) (some 4096)
    ∷ (record (model_info "mistral-nemo" "Mistral Nemo 12B" "ollama" ("text→text" ∷ [])
        (some 131072) (some 4096)) { supports_tools = true })
    ∷ model_info "phi4" "Phi-4 14B" "ollama" ("text→text" ∷ []) (some 16384) (some 4096)
    ∷ model_info "gemma3" "Gemma 3 4B" "ollama" ("text→text" ∷ []) (some 131072) (some 8192)
    ∷ model_info "gemma3:12b" "Gemma 3 12B" "ollama" ("text→text" ∷ []) (some 131072) (some 8192)
    ∷ (record (model_info "qwen3" "Qwen 3 4B" "ollama" ("text→text" ∷ []) (some 40960)
        (some 4096)) { supports_tools = true })
    ∷ (record (model_info "qwen3:8b" "Qwen 3 8B" "ollama" ("text→text" ∷ []) (some 40960)
        (some 4096)) { supports_tools = true })
    ∷ model_info "deepseek-r1" "DeepSeek R1 7B" "ollama" ("text→text" ∷ []) (some 65536) (some 8192)
    ∷ model_info "deepseek-r1:8b" "DeepSeek R1 8B" "ollama" ("text→text" ∷ []) (some 65536)
        (some 8192)
    ∷ model_info "codellama" "Code Llama 7B" "ollama" ("text→text" ∷ []) (some 16384) (some 4096)
    ∷ (record (model_info "command-r" "Command R" "ollama" ("text→text" ∷ []) (some 131072)
        (some 4096)) { supports_tools = true })
    ∷ (record (model_info "llava" "LLaVA 7B" "ollama" ("image→text" ∷ []) (some 4096) none) {
      supports_vision = true;
    })
    ∷ (record (model_info "llava:13b" "LLaVA 13B" "ollama" ("image→text" ∷ []) (some 4096) none) {
      supports_vision = true;
    })
    ∷ (record (model_info "llava-llama3" "LLaVA Llama 3" "ollama" ("image→text" ∷ []) (some 8192)
        none) { supports_vision = true })
    ∷ (record (model_info "moondream" "Moondream 2" "ollama" ("image→text" ∷ []) (some 2048) none) {
      supports_vision = true;
    })
    ∷ model_info "nomic-embed-text" "Nomic Embed Text" "ollama" ("text→vector" ∷ []) (some 8192)
        none
    ∷ model_info "mxbai-embed-large" "mxbai Embed Large" "ollama" ("text→vector" ∷ []) (some 512)
        none
    ∷ model_info "all-minilm" "all-MiniLM-L6-v2" "ollama" ("text→vector" ∷ []) (some 512) none
    ∷ []

abbrev pub ollama_adapter : Adapter
ollama_adapter = record {
  name = "ollama";
  base_url = "http://localhost:11434";
  protocols = chat_capable ∷ vision_capable ∷ embed_capable ∷ [];
  capabilities = ollama_capabilities;
  models = ollama_models;
}

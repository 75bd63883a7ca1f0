-- ===== src/Services/Cost.antt =====
-- app/utils/tokens.py, the prices and `estimate_cost`, and app/services/cost_service.py. A price is
-- kept in hundredths of a dollar per million tokens, and an amount of money in units of 10^-8
-- dollars, so that a cost is exact: the rounding to eight places changes nothing.
pub mod Budget
use ultimate_assistant_ai_ga.Base.{
  ℕ, ◌+◌, ◌*◌, ◌-◌, String, Bool, true, false, Option, none, some, List, [], ◌∷◌, ite, str_dec, ltb,
  if◌then◌else◌, ◌==◌,
}
use ultimate_assistant_ai_ga.Base.Int.{ℤ, pos, negsuc, ◌-ℤ◌}
use ultimate_assistant_ai_ga.Base.Action.{Result, ok, err, other_error}

-- input and output
pub record Rates : Type 0 where
  pub input : ℕ
  pub output : ℕ

abbrev priced : ℕ → ℕ → Rates
priced i o = record { input = i; output = o }

abbrev pub pricing : List ((String × String) × Rates)
pricing =
    (("openai", "gpt-4o"), priced 250 1000)
    ∷ (("openai", "gpt-4o-mini"), priced 15 60)
    ∷ (("openai", "gpt-4.1"), priced 200 800)
    ∷ (("openai", "gpt-4.1-mini"), priced 40 160)
    ∷ (("openai", "gpt-4.1-nano"), priced 10 40)
    ∷ (("openai", "o3"), priced 200 800)
    ∷ (("openai", "o4-mini"), priced 110 440)
    ∷ (("anthropic", "claude-sonnet-4-20250514"), priced 300 1500)
    ∷ (("anthropic", "claude-opus-4-20250514"), priced 1500 7500)
    ∷ (("anthropic", "claude-3-5-haiku-20241022"), priced 80 400)
    ∷ (("google", "gemini-2.5-flash"), priced 15 60)
    ∷ (("google", "gemini-2.5-pro"), priced 125 1000)
    ∷ (("groq", "llama-3.3-70b-versatile"), priced 59 79)
    ∷ (("deepseek", "deepseek-chat"), priced 27 110)
    ∷ (("mistral", "mistral-large-latest"), priced 200 600)
    ∷ (("cohere", "command-r"), priced 15 60)
    ∷ (("cohere", "command-r-plus"), priced 250 1000)
    ∷ (("xai", "grok-3-fast"), priced 500 2500)
    ∷ (("ollama", "llama3.2"), priced 0 0)
    ∷ (("ollama", "llama3.2:1b"), priced 0 0)
    ∷ (("ollama", "llama3.1"), priced 0 0)
    ∷ (("ollama", "llama3.1:70b"), priced 0 0)
    ∷ (("ollama", "mistral"), priced 0 0)
    ∷ (("ollama", "mistral-nemo"), priced 0 0)
    ∷ (("ollama", "phi4"), priced 0 0)
    ∷ (("ollama", "gemma3"), priced 0 0)
    ∷ (("ollama", "qwen3"), priced 0 0)
    ∷ (("ollama", "deepseek-r1"), priced 0 0)
    ∷ (("ollama", "codellama"), priced 0 0)
    ∷ (("ollama", "command-r"), priced 0 0)
    ∷ []

abbrev pub default_rates : Rates
default_rates = priced 100 300

-- `PRICING.get((provider, model), (1.0, 3.0))`
unfoldable pub rates_of : String → String → List ((String × String) × Rates) → Rates
rates_of provider model [] = default_rates
rates_of provider model (((p, m), r) ∷ prices) =
    ite (str_dec p provider) (ite (str_dec m model) r (rates_of provider model prices))
      (rates_of provider model prices)

unfoldable pub estimate_cost : String → String → ℕ → ℕ → ℕ
unfolding rates_of
estimate_cost provider model input_tokens output_tokens =
    let rates = rates_of provider model pricing in
    input_tokens * rates.input + output_tokens * rates.output

-- `CostService.estimate`
unfoldable pub estimate : String → String → ℕ → ℕ → ℕ
unfolding rates_of
estimate provider model input_tokens output_tokens =
    let rates = rates_of provider model pricing in
    input_tokens * rates.input + output_tokens * rates.output

-- The two warnings, by the amounts that they print.
pub data Warning : Type 0 where
  would_exceed : ℕ → ℕ → Warning
  nearly_spent : ℤ → ℕ → Warning

-- The dict that `check_budget` returns.
pub record Verdict : Type 0 where
  pub allowed : Bool
  pub remaining : Option ℤ
  pub warning : Option Warning

abbrev is_negative : ℤ → Bool
is_negative (pos n) = false
is_negative (negsuc n) = true

-- `remaining / user_monthly_budget < Decimal("0.1")`, where the budget is not zero
abbrev below_tenth : ℤ → ℕ → Bool
below_tenth (pos n) budget = ltb (n * 10) budget
below_tenth (negsuc n) budget = true

-- Dividing by a budget of zero raises.
unfoldable pub check_budget : Option ℕ → ℕ → ℕ → Result Verdict
check_budget none current_spend estimated_cost =
    ok (record { allowed = true; remaining = none; warning = none })
check_budget (some budget) current_spend estimated_cost =
    let remaining = pos budget -ℤ pos current_spend in
    if is_negative (remaining -ℤ pos estimated_cost)
    then ok (record {
      allowed = false;
      remaining = some remaining;
      warning = some (would_exceed budget current_spend);
    })
    else if budget == 0
    then err (other_error "InvalidOperation")
    else if below_tenth remaining budget
    then ok (record {
      allowed = true;
      remaining = some remaining;
      warning = some (nearly_spent remaining budget);
    })
    else ok (record { allowed = true; remaining = some remaining; warning = none })

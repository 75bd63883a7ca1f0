-- ===== src/Services/Guardrails.antt =====
-- app/services/guardrails.py with the settings' GUARDRAILS_ENABLED on. Python's regular expressions are
-- a parameter, by the text of their pattern.
pub mod Redaction
use Prim.Native.String.{count}
use ultimate_assistant_ai_ga.Base.{
  ℕ, zero, suc, ◌*◌, String, Bool, true, false, not, Option, none, some, List, [], ◌∷◌, ◌++◌, ltb,
  same, if◌then◌else◌,
}
use ultimate_assistant_ai_ga.Base.Text.{concat, show}

-- whether a pattern is found, how often it is found, and the text with what is found replaced
pub record Regex : Type 0 where
  pub search : String → String → Bool
  pub findall : String → String → ℕ
  pub sub : String → String → String → String

abbrev pub injection_patterns : List String
injection_patterns =
    "ignore\\s+(all\\s+)?previous\\s+instructions" ∷ "ignore\\s+(all\\s+)?above\\s+instructions"
    ∷ "disregard\\s+(all\\s+)?previous" ∷ "you\\s+are\\s+now\\s+(a|an)\\s+"
    ∷ "pretend\\s+(you\\s+are|to\\s+be)" ∷ "reveal\\s+(your|the)\\s+(system\\s+)?prompt"
    ∷ "what\\s+(is|are)\\s+your\\s+(system\\s+)?instructions"
    ∷ "repeat\\s+(the|your)\\s+system\\s+prompt" ∷ "jailbreak" ∷ "DAN\\s*mode" ∷ []

-- a kind of personal data: its name, the name in capitals, and its pattern
pub record Pii : Type 0 where
  pub name : String
  pub upper : String
  pub pattern : String

abbrev pub pii_patterns : List Pii
pii_patterns =
    record {
      name = "email";
      upper = "EMAIL";
      pattern = "\\b[A-Za-z0-9._%+-]+@[A-Za-z0-9.-]+\\.[A-Z|a-z]{2,}\\b";
    }
    ∷ record {
      name = "phone_us";
      upper = "PHONE_US";
      pattern = "\\b(\\+?1[-.\\s]?)?\\(?\\d{3}\\)?[-.\\s]?\\d{3}[-.\\s]?\\d{4}\\b";
    }
    ∷ record { name = "ssn"; upper = "SSN"; pattern = "\\b\\d{3}[-.\\s]?\\d{2}[-.\\s]?\\d{4}\\b" }
    ∷ record {
      name = "credit_card";
      upper = "CREDIT_CARD";
      pattern = "\\b\\d{4}[-.\\s]?\\d{4}[-.\\s]?\\d{4}[-.\\s]?\\d{4}\\b";
    }
    ∷ []

-- `_MAX_INPUT_CHARS.get(tier, _MAX_INPUT_CHARS["free"])`
unfoldable pub max_input_chars : String → ℕ
max_input_chars tier =
    if same tier "pro" then 32768 * 4 else (if same tier "enterprise" then 131072 * 4 else 4096 * 4)

pub record GuardrailResult : Type 0 where
  pub passed : Bool
  pub blocked : Bool
  pub warnings : List String
  pub pii_found : List String
  pub sanitized_text : Option String

-- `s[:n]`
abbrev first_chars : ℕ → String → String
first_chars zero s = ""
first_chars (suc n) String.[] = ""
first_chars (suc n) (String.◌∷◌ c s) = String.◌∷◌ c (first_chars n s)

abbrev found_injection : String → String
found_injection pattern =
    concat ("Potential prompt injection detected: '" ∷ first_chars 40 pattern ∷ "...'" ∷ [])

abbrev too_long : String → ℕ → ℕ → String
too_long tier length max_chars = concat (
    "Input exceeds maximum length for "
    ∷ tier
    ∷ " tier ("
    ∷ show length
    ∷ " > "
    ∷ show max_chars
    ∷ " chars)"
    ∷ [])

module _ (re : Regex) (text : String) where
  -- the warnings of the second step
  unfoldable pub injections : List String → List String
  injections [] = []
  injections (p ∷ ps) =
      if re.search p text then found_injection p ∷ injections ps else injections ps

  abbrev found_pii : Pii → String
  found_pii p = concat (p.name ∷ ": " ∷ show (re.findall p.pattern text) ∷ " instance(s)" ∷ [])

  -- the kinds found by the third step
  unfoldable pub pii_in : List Pii → List String
  pii_in [] = []
  pii_in (p ∷ ps) = if ltb 0 (re.findall p.pattern text) then found_pii p ∷ pii_in ps else pii_in ps

  -- the text with each kind found in the original replaced, one kind after the other
  unfoldable pub redact : List Pii → String → String
  redact [] sanitized = sanitized
  redact (p ∷ ps) sanitized = redact ps (
      if ltb 0 (re.findall p.pattern text)
      then re.sub p.pattern (concat ("[REDACTED_" ∷ p.upper ∷ "]" ∷ [])) sanitized
      else sanitized)

  abbrev pub blocked_result : String → GuardrailResult
  blocked_result tier = record {
    passed = false;
    blocked = true;
    warnings = too_long tier (count text) (max_input_chars tier) ∷ [];
    pii_found = [];
    sanitized_text = some text;
  }

  unfoldable pub pre_check : String → Bool → GuardrailResult
  unfolding injections pii_in redact
  pre_check tier redact_pii =
      if ltb (max_input_chars tier) (count text) then blocked_result tier else record {
        passed = true;
        blocked = false;
        warnings = injections injection_patterns;
        pii_found = pii_in pii_patterns;
        sanitized_text = some (if redact_pii then redact pii_patterns text else text);
      }

  unfoldable pub leaks : List Pii → List String
  leaks [] = []
  leaks (p ∷ ps) =
      if re.search p.pattern text
      then concat ("Response may contain " ∷ p.name ∷ []) ∷ leaks ps
      else leaks ps

  unfoldable pub post_check : GuardrailResult
  unfolding leaks
  post_check = record {
    passed = true;
    blocked = false;
    warnings = leaks pii_patterns;
    pii_found = [];
    sanitized_text = none;
  }

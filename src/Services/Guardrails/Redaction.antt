-- ===== src/Services/Guardrails/Redaction.antt =====
-- What a redacted text still shows.
use Prim.Native.String.{count}
use ultimate_assistant_ai_ga.Services.Guardrails.{
  Regex, Pii, pii_patterns, pre_check, max_input_chars, redact, pii_in, found_pii,
}
use ultimate_assistant_ai_ga.Base.{
  ◌<◌, String, Bool, true, false, some, List, [], ◌∷◌, ◌≡◌, refl, ltb, inl, inr, Bool-cases,
  if◌then◌else◌, ltb→lt, lt→ltb, ◌↔◌, ap,
}

module _ (re : Regex) (text : String) where
  redact-none : (ps : List Pii) (s : String) → pii_in re text ps ≡ [] → redact re text ps s ≡ s
  unfolding pii_in redact
  redact-none [] s h = refl
  redact-none (p ∷ ps) s h = elim (Bool-cases (ltb 0 (re.findall p.pattern text))) [
    | inl e ↦ let x : found_pii re text p ∷ pii_in re text ps ≡ [] = rw e at h in cc
    | inr e ↦ rw e (redact-none ps s (rw e at h))
  ]

  -- A text is blocked exactly if it is longer than its tier allows: a suspected injection or personal data
  -- only warns. A text in which no personal data is found is handed on unchanged, also with redaction.
  pub pre_check_lem :
      (tier : String) (redact_pii : Bool)
      → let g = pre_check re text tier redact_pii in
        ((g.blocked ≡ true) ↔ (max_input_chars tier < count text))
        × (g.pii_found ≡ [] → g.sanitized_text ≡ some text)
  unfolding pre_check
  pre_check_lem tier redact_pii = elim (Bool-cases (ltb (max_input_chars tier) (count text))) [
    | inl e ↦ rw e (((λ h. ltb→lt _ _ e), λ h. refl), λ h. refl)
    | inr e ↦ rw e (((λ h. cc), λ h. let x = lt→ltb _ _ h in cc), kept redact_pii)
  ]
    where
      kept :
          (b : Bool)
          → pii_in re text pii_patterns ≡ []
          → some (if b then redact re text pii_patterns text else text) ≡ some text
      kept true h = ap some (redact-none pii_patterns text h)
      kept false h = refl

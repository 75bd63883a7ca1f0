-- ===== src/Base/Text.antt =====
-- Texts as the source uses them: compared whole, tested for emptiness, and joined.
use Prim.Native.Nat.{ℕ, zero, suc, ◌+◌, ◌/◌, ◌%◌}
use Prim.Native.String.{String, ◌++◌ as ◌<+>◌}
use mathlib.Core.Path.{◌≡◌, refl}
use mathlib.Core.Logic.{ite}
use mathlib.Core.Bool.{Bool, true, false}
use mathlib.Core.List.{List, [], ◌∷◌}
use mathlib.Core.Option.{Option, none, some}
use text.Mathlib.Text.{◌==◌}
use text.Mathlib.TextEquality.{eq_iff}
use native.Mathlib.Omega.{arith}
use ultimate_assistant_ai_ga.Base.Tests.{ltb, if◌then◌else◌}

dec_of_test : (s t : String) (b : Bool) → (b ≡ true → s ≡ t) → (s ≡ t → b ≡ true) → Dec (s ≡ t)
dec_of_test s t true sound complete = yes (sound (ground arith))
dec_of_test s t false sound complete = no (λ e. cc (complete e))

-- `s == t` on Python's `str`, as a decision.
unfoldable pub str_dec : Discrete String
unfolding dec_of_test
str_dec s t = dec_of_test s t (s == t) (eq_iff s t).0 (eq_iff s t).1

abbrev pub same : String → String → Bool
same s t = ite (str_dec s t) true false

-- Python's truth value of a `str`: a text is true if it is not empty.
abbrev pub is_empty : String → Bool
is_empty String.[] = true
is_empty (String.◌∷◌ c s) = false

-- Python's truth value of a `str | None`.
abbrev pub truthy : Option String → Bool
truthy none = false
truthy (some String.[]) = false
truthy (some (String.◌∷◌ c s)) = true

-- `o or d` on a `str | None` and a `str`.
abbrev pub or_else : Option String → String → String
or_else none d = d
or_else (some String.[]) d = d
or_else (some (String.◌∷◌ c s)) d = String.◌∷◌ c s

-- An f-string, by its pieces.
abbrev pub concat : List String → String
concat [] = ""
concat (s ∷ ss) = ◌<+>◌ s (concat ss)

-- `sep.join(ss)`
abbrev pub join : String → List String → String
join sep [] = ""
join sep (s ∷ []) = s
join sep (s ∷ t ∷ ss) = ◌<+>◌ s (◌<+>◌ sep (join sep (t ∷ ss)))

-- `s in l`
abbrev pub contains : String → List String → Bool
contains s [] = false
contains s (t ∷ l) = ite (str_dec s t) true (contains s l)

pub or_else-falsy : (o : Option String) (d : String) → truthy o ≡ false → or_else o d ≡ d
or_else-falsy none d h = refl
or_else-falsy (some String.[]) d h = refl
or_else-falsy (some (String.◌∷◌ c s)) d h = cc

pub or_else_idem : (o : Option String) (d : String) → or_else (some (or_else o d)) d ≡ or_else o d
or_else_idem none String.[] = refl
or_else_idem none (String.◌∷◌ c s) = refl
or_else_idem (some String.[]) String.[] = refl
or_else_idem (some String.[]) (String.◌∷◌ c s) = refl
or_else_idem (some (String.◌∷◌ c s)) d = refl

digit : ℕ → String
digit zero = "0"
digit (suc zero) = "1"
digit (suc (suc zero)) = "2"
digit (suc (suc (suc zero))) = "3"
digit (suc (suc (suc (suc zero)))) = "4"
digit (suc (suc (suc (suc (suc zero))))) = "5"
digit (suc (suc (suc (suc (suc (suc zero)))))) = "6"
digit (suc (suc (suc (suc (suc (suc (suc zero))))))) = "7"
digit (suc (suc (suc (suc (suc (suc (suc (suc zero)))))))) = "8"
digit _ = "9"

-- The decimal digits of `n`, with one unit of fuel for each; a number has at most as many digits
-- as its value plus one.
show_fuel : ℕ → ℕ → String
unfolding digit
show_fuel zero n = ""
show_fuel (suc fuel) n =
    let rest = show_fuel fuel (n / 10) in if ltb n 10 then digit n else ◌<+>◌ rest (digit (n % 10))

-- `str(n)`
unfoldable pub show : ℕ → String
unfolding show_fuel
show n = show_fuel (n + 1) n

-- ===== src/Base/Dict.antt =====
-- A Python dict with texts for keys, in insertion order.
use Prim.Native.String.{String}
use mathlib.Core.Path.{◌≡◌, refl, subst}
use mathlib.Core.Logic.{ite, if_pos, if_neg}
use mathlib.Core.List.{List, [], ◌∷◌}
use mathlib.Core.Option.{Option, none, some}
use native.Mathlib.Omega.{arith}
use ultimate_assistant_ai_ga.Base.Lists.{All}
use ultimate_assistant_ai_ga.Base.Text.{str_dec}

abbrev pub Dict : Type 0 → Type 0
Dict V = List (String × V)

module _ {V : Type 0} where
  unfoldable pub lookup : String → Dict V → Option V
  lookup k [] = none
  lookup k ((j, v) ∷ d) = ite (str_dec j k) (some v) (lookup k d)

  -- `d.get(k, default)`
  unfoldable pub get_or : String → V → Dict V → V
  get_or k default [] = default
  get_or k default ((j, v) ∷ d) = ite (str_dec j k) v (get_or k default d)

  -- `d[k] = v`
  unfoldable pub insert : String → V → Dict V → Dict V
  insert k v [] = (k, v) ∷ []
  insert k v ((j, w) ∷ d) = ite (str_dec j k) ((k, v) ∷ d) ((j, w) ∷ insert k v d)

  pub lookup-insert :
      (k j : String) (v : V) (d : Dict V)
      → lookup j (insert k v d) ≡ ite (str_dec k j) (some v) (lookup j d)
  unfolding lookup insert
  lookup-insert k j v [] = refl
  lookup-insert k j v ((i, w) ∷ d) = ground (arith, lookup-insert k j v d)

  pub get_or-insert :
      (k j : String) (v default : V) (d : Dict V)
      → get_or j default (insert k v d) ≡ ite (str_dec k j) v (get_or j default d)
  unfolding get_or insert
  get_or-insert k j v default [] = refl
  get_or-insert k j v default ((i, w) ∷ d) = ground (arith, get_or-insert k j v default d)

-- What holds of every value of a dict, and of the default, holds of what is looked up.
module _ {V : Type 0} (P : V → Type 0) where
  pub get_or-All :
      (k : String) (default : V) (d : Dict V)
      → P default
      → All (λ e. P e.1) d
      → P (get_or k default d)
  unfolding get_or
  get_or-All k default [] h a = h
  get_or-All k default ((j, v) ∷ d) h a = elim (str_dec j k) [
    | yes e ↦ rw (if_pos _ e) a.0
    | no n ↦ rw (if_neg _ n) (get_or-All k default d h a.1)
  ]

  pub lookup-All :
      (k : String) (d : Dict V) (v : V) → All (λ e. P e.1) d → lookup k d ≡ some v → P v
  unfolding lookup
  lookup-All k [] v a e = cc
  lookup-All k ((j, w) ∷ d) v a e = elim (str_dec j k) [
    | yes p ↦ let q : some w ≡ some v = rw (if_pos _ p) at e in subst P (cc) a.0
    | no n ↦ lookup-All k d v a.1 (rw (if_neg _ n) at e)
  ]

-- ===== src/Base/Json.antt =====
-- JSON values as Python reads them, and the subscripts and `get` that the code applies to them. A number is a whole
-- number; the entries of an object stand in its order, and the first of a key counts.
use ultimate_assistant_ai_ga.Base.{
  ℕ, String, Bool, true, false, not, Option, none, some, ite, str_dec, ◌==◌,
}
use ultimate_assistant_ai_ga.Base.Text.{is_empty}
use ultimate_assistant_ai_ga.Base.Action.{
  Result, ok, err, key_error, index_error, type_error, attribute_error, value_error,
}

mutual
  pub data Json : Type 0 where
    null : Json
    boolean : Bool → Json
    number : ℕ → Json
    string : String → Json
    array : Items → Json
    object : Fields → Json

  pub data Items : Type 0 where
    no_items : Items
    item : Json → Items → Items

  pub data Fields : Type 0 where
    no_fields : Fields
    field : String → Json → Fields → Fields

infixl 5 ◌>>=◌
abbrev pub ◌>>=◌ {ℓ} : {A B : Type ℓ} → Result A → (A → Result B) → Result B
◌>>=◌ (ok a) f = f a
◌>>=◌ (err e) f = err e

unfoldable pub find : String → Fields → Option Json
find k no_fields = none
find k (field j v fs) = ite (str_dec j k) (some v) (find k fs)

abbrev or_key_error : String → Option Json → Result Json
or_key_error k none = err (key_error k)
or_key_error k (some v) = ok v

abbrev or_default : Json → Option Json → Json
or_default d none = d
or_default d (some v) = v

-- `v[k]`
unfoldable pub subscript : String → Json → Result Json
unfolding find
subscript k (object fs) = or_key_error k (find k fs)
subscript k (array l) = err (type_error "list indices must be integers or slices, not str")
subscript k (string s) = err (type_error "string indices must be integers, not 'str'")
subscript k _ = err (type_error "object is not subscriptable")

-- `v[0]`
unfoldable pub first : Json → Result Json
first (array (item v l)) = ok v
first (array no_items) = err (index_error "list index out of range")
first (string (String.◌∷◌ c s)) = ok (string (String.◌∷◌ c String.[]))
first (string String.[]) = err (index_error "string index out of range")
first (object fs) = err (key_error "0")
first _ = err (type_error "object is not subscriptable")

-- `v.get(k, d)`
unfoldable pub get : String → Json → Json → Result Json
unfolding find
get k d (object fs) = ok (or_default d (find k fs))
get k d _ = err (attribute_error "object has no attribute 'get'")

-- Python's truth value
abbrev pub is_true : Json → Bool
is_true null = false
is_true (boolean b) = b
is_true (number n) = not (n == 0)
is_true (string s) = not (is_empty s)
is_true (array no_items) = false
is_true (array (item v l)) = true
is_true (object no_fields) = false
is_true (object (field k v fs)) = true

-- How pydantic reads a `str | None`, and an `int | None`; it refuses the rest, where what it coerces to an int,
-- Booleans and texts of digits, is left out.
unfoldable pub as_text : Json → Result (Option String)
as_text null = ok none
as_text (string s) = ok (some s)
as_text _ = err (value_error "Input should be a valid string")

unfoldable pub as_number : Json → Result (Option ℕ)
as_number null = ok none
as_number (number n) = ok (some n)
as_number _ = err (value_error "Input should be a valid integer")

-- ===== src/Base/Action.antt =====
-- A coroutine of the gateway: it reads and writes a world `W`, and returns or raises. What was
-- written before a raise stays written. The exceptions are those of app/core/exceptions.py and
-- the ones of Python and its frameworks that the code raises or catches.
use Prim.Native.Nat.{ℕ}
use Prim.Native.String.{String}
use mathlib.Core.Bool.{Bool, true, false}
use mathlib.Core.Logic.{◌⊎◌, inl, inr}
use mathlib.Core.Option.{Option, none, some}
use mathlib.Core.Path.{◌≡◌, refl, sym, ap}

-- What the `error` entry of a JSON object holds: nothing that is true, an object with its `message`
-- and its print, or anything else by its print.
pub data ErrorField : Type 0 where
  falsy : ErrorField
  nested : Option String → String → ErrorField
  plain : String → ErrorField

-- The body of an HTTP response, as `response.json()` reads it: no JSON, an object with its print, or
-- another value by its print.
pub data Body : Type 0 where
  not_json : Body
  object : ErrorField → String → Body
  scalar : String → Body

pub data Exc : Type 0 where
  -- app/core/exceptions.py
  app_exception : String → ℕ → Exc
  provider_error : String → String → ℕ → Exc
  provider_key_missing : String → Exc
  provider_unavailable : String → Exc
  capability_not_supported : String → String → Exc
  -- fastapi.HTTPException, by its status and detail
  http_exception : ℕ → String → Exc
  -- httpx.HTTPStatusError, by the response's status and body, and its text
  http_status_error : ℕ → Body → String → Exc
  -- Python's own, by the text of `str(e)`
  value_error : String → Exc
  type_error : String → Exc
  attribute_error : String → Exc
  index_error : String → Exc
  key_error : String → Exc
  -- sqlalchemy.exc.MultipleResultsFound
  multiple_results : Exc
  -- any other subclass of Exception
  other_error : String → Exc

pub data Result {ℓ} (A : Type ℓ) : Type ℓ where
  ok : A → Result A
  err : Exc → Result A

pub ok-injective {ℓ} : {A : Type ℓ} {a b : A} → ok a ≡ ok b → a ≡ b
ok-injective e = cc

pub Result-cases {ℓ} :
    {A : Type ℓ} (r : Result A) → ((a : A) × (r ≡ ok a)) ⊎ ((e : Exc) × (r ≡ err e))
Result-cases (ok a) = inl (a, refl)
Result-cases (err e) = inr (e, refl)

abbrev pub is_ok {ℓ} : {A : Type ℓ} → Result A → Bool
is_ok (ok a) = true
is_ok (err e) = false

abbrev pub Action : Type 0 → Type 0 → Type 0
Action W A = W → Result A × W

module _ {W : Type 0} {A : Type 0} where
  abbrev pub pure : A → Action W A
  pure a w = (ok a, w)

  abbrev pub raise : Exc → Action W A
  raise e w = (err e, w)

  abbrev pub gets : (W → A) → Action W A
  gets f w = (ok (f w), w)

  abbrev pub or_raise : Exc → Option A → Action W A
  or_raise e none = raise e
  or_raise e (some a) = pure a

  abbrev pub handle : Result A × W → (Exc → Action W A) → Result A × W
  handle (ok a, w) h = (ok a, w)
  handle (err e, w) h = h e w

  -- `try: m except Exception as e: h e`
  abbrev pub catch : Action W A → (Exc → Action W A) → Action W A
  catch m h w = handle (m w) h

module _ {W : Type 0} where
  abbrev pub modify : (W → W) → Action W (Unit {0})
  modify f w = (ok tt, f w)

  abbrev pub raise_if : Bool → Exc → Action W (Unit {0})
  raise_if true e = raise e
  raise_if false e = pure tt

abbrev pub and_then : {W A B : Type 0} → Result A × W → (A → Action W B) → Result B × W
and_then (ok a, w) f = f a w
and_then (err e, w) f = (err e, w)

infixl 5 ◌>>=◌ ◌>>◌
abbrev pub ◌>>=◌ : {W A B : Type 0} → Action W A → (A → Action W B) → Action W B
◌>>=◌ m f w = and_then (m w) f

abbrev pub ◌>>◌ : {W A B : Type 0} → Action W A → Action W B → Action W B
m >> k = m >>= λ _. k

-- What an action does to a property of the world, however it ends.
abbrev pub Keeps {ℓ} : {W A : Type 0} → (W → Type ℓ) → Action W A → Type ℓ
Keeps {W} P m = (w : W) → P w → P (m w).1

-- An action that never raises.
abbrev pub Succeeds : {W A : Type 0} → Action W A → Type 0
Succeeds {W} {A} m = (w : W) → (a : A) × ((m w).0 ≡ ok a)

module _ {ℓ} {W A B : Type 0} (P : W → Type ℓ) where
  pub and_then-Keeps :
      (r : Result A × W) (f : A → Action W B)
      → P r.1
      → ((a : A) → Keeps P (f a))
      → P (and_then r f).1
  and_then-Keeps (ok a, w) f p h = h a w p
  and_then-Keeps (err e, w) f p h = p

  pub >>=-Keeps :
      (m : Action W A) (f : A → Action W B)
      → Keeps P m
      → ((a : A) → Keeps P (f a))
      → Keeps P (m >>= f)
  >>=-Keeps m f hm hf w p = and_then-Keeps (m w) f (hm w p) hf

module _ {ℓ} {W A : Type 0} (P : W → Type ℓ) where
  handle-Keeps :
      (r : Result A × W) (h : Exc → Action W A)
      → P r.1
      → ((e : Exc) → Keeps P (h e))
      → P (handle r h).1
  handle-Keeps (ok a, w) h p k = p
  handle-Keeps (err e, w) h p k = k e w p

  pub catch-Keeps :
      (m : Action W A) (h : Exc → Action W A)
      → Keeps P m
      → ((e : Exc) → Keeps P (h e))
      → Keeps P (catch m h)
  catch-Keeps m h hm hh w p = handle-Keeps (m w) h (hm w p) hh

module _ {W A B : Type 0} where
  pub and_then-Succeeds :
      (r : Result A × W) (f : A → Action W B) (a : A)
      → r.0 ≡ ok a
      → ((a : A) → Succeeds (f a))
      → (b : B) × ((and_then r f).0 ≡ ok b)
  and_then-Succeeds (ok a, w) f x e h = h a w
  and_then-Succeeds (err x, w) f a e h = cc

  pub >>=-Succeeds :
      (m : Action W A) (f : A → Action W B)
      → Succeeds m
      → ((a : A) → Succeeds (f a))
      → Succeeds (m >>= f)
  >>=-Succeeds m f hm hf w = and_then-Succeeds (m w) f (hm w).0 (hm w).1 hf

module _ {W A B : Type 0} where
  and_then-eq-ok :
      (r : Result A × W) (f : A → Action W B) {b : B}
      → (and_then r f).0 ≡ ok b
      → (a : A) × (r.0 ≡ ok a) × ((f a r.1).0 ≡ ok b)
  and_then-eq-ok (ok a, w) f e = (a, refl, e)
  and_then-eq-ok (err x, w) f e = cc

  and_then-ok :
      (r : Result A × W) (f : A → Action W B) (a : A) → r.0 ≡ ok a → and_then r f ≡ f a r.1
  and_then-ok (ok b, w) f a e = let x : b ≡ a = ok-injective e in ap (λ c. f c w) x
  and_then-ok (err x, w) f a e = cc

  -- A bind whose first action returned.
  pub >>=-ok :
      (m : Action W A) (f : A → Action W B) (w : W) (a : A)
      → (m w).0 ≡ ok a
      → (m >>= f) w ≡ f a (m w).1
  >>=-ok m f w a e = and_then-ok (m w) f a e

  -- Inversion of a bind that returned.
  pub >>=-eq-ok :
      (m : Action W A) (f : A → Action W B) (w : W) {b : B}
      → ((m >>= f) w).0 ≡ ok b
      → (a : A) × ((m w).0 ≡ ok a) × ((f a (m w).1).0 ≡ ok b)
  >>=-eq-ok m f w e = and_then-eq-ok (m w) f e

module _ {ℓ} {W A B : Type 0} (P : W → Type ℓ) (Post : A → Type 0) where
  and_then-Keeps_post :
      (r : Result A × W) (f : A → Action W B)
      → P r.1
      → ((a : A) → r.0 ≡ ok a → Post a)
      → ((a : A) → Post a → Keeps P (f a))
      → P (and_then r f).1
  and_then-Keeps_post (ok a, w) f p post h = h a (post a refl) w p
  and_then-Keeps_post (err e, w) f p post h = p

  -- The rule for bind, with what the first action's result satisfies.
  pub >>=-Keeps_post :
      (m : Action W A) (f : A → Action W B)
      → Keeps P m
      → ((w : W) (a : A) → (m w).0 ≡ ok a → Post a)
      → ((a : A) → Post a → Keeps P (f a))
      → Keeps P (m >>= f)
  >>=-Keeps_post m f hm post hf w p = and_then-Keeps_post (m w) f (hm w p) (post w) hf

pub raise_if-Keeps {ℓ} :
    {W : Type 0} (P : W → Type ℓ) (b : Bool) (e : Exc) → Keeps P (raise_if {W = W} b e)
raise_if-Keeps P true e w h = h
raise_if-Keeps P false e w h = h

-- A guard that was passed.
pub raise_if-ok :
    {W A : Type 0} (b : Bool) (e : Exc) (k : Action W A) (w : W) {w' : W} {a : A}
    → (raise_if b e >> k) w ≡ (ok a, w')
    → (b ≡ false) × (k w ≡ (ok a, w'))
raise_if-ok true e k w h = cc
raise_if-ok false e k w h = (refl, h)

-- An action whose result was only reshaped.
pub and_then-pure-ok :
    {W A B : Type 0} (f : A → B) (r : Result A × W) (w' : W) (b : B)
    → and_then r (λ a. pure (f a)) ≡ (ok b, w')
    → (a : A) × (r ≡ (ok a, w')) × (b ≡ f a)
and_then-pure-ok f (ok a, w) w' b h =
    (a, ap (λ z. (ok a, z.1)) h, sym (ok-injective (ap (λ z. z.0) h)))
and_then-pure-ok f (err e, w) w' b h = cc

-- What an action returns, if it returns.
abbrev pub Returns : {W A : Type 0} → (A → Type 0) → Action W A → Type 0
Returns {W} {A} Post m = (w : W) (a : A) → (m w).0 ≡ ok a → Post a

pub >>=-Returns :
    {W A B : Type 0} (Post : B → Type 0) (m : Action W A) (f : A → Action W B)
    → ((a : A) → Returns Post (f a))
    → Returns Post (m >>= f)
>>=-Returns Post m f h w b e = let (a, _, e') = >>=-eq-ok m f w e in h a (m w).1 b e'

pub >>=-Returns_post :
    {W A B : Type 0} (Pre : A → Type 0) (Post : B → Type 0) (m : Action W A) (f : A → Action W B)
    → Returns Pre m
    → ((a : A) → Pre a → Returns Post (f a))
    → Returns Post (m >>= f)
>>=-Returns_post Pre Post m f h k w b e =
    let (a, q, e') = >>=-eq-ok m f w e in k a (h w a q) (m w).1 b e'

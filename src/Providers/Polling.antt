-- ===== src/Providers/Polling.antt =====
-- app/providers/replicate/adapter.py and app/providers/fal/adapter.py: the methods, without `with_retry` around them, and
-- the loops that wait for a job. The HTTP client is a parameter; `print` is Python's `str` of a number, a Boolean,
-- a list or a dict. Options are texts.
pub mod Replicate
pub mod Fal
use Prim.Native.Char.{code}
use ultimate_assistant_ai_ga.Base.{
  ℕ, String, Bool, true, false, Option, none, some, List, [], ◌∷◌, ite, str_dec, ◌==◌, ◌||◌, keep,
  if◌then◌else◌,
}
use ultimate_assistant_ai_ga.Base.Text.{concat, contains}
use ultimate_assistant_ai_ga.Base.Action.{
  Result, ok, err, Action, ◌>>=◌, ◌>>◌, modify, type_error, value_error,
}
use ultimate_assistant_ai_ga.Base.Json.{
  Json, null, boolean, number, string, array, object, Items, no_items, item, Fields, no_fields,
  field,
}
use ultimate_assistant_ai_ga.Schemas.{MediaResult}

-- `client.post(url, json=…)` and `client.get(url)` with the headers of a key, then `raise_for_status()` and
-- `json()`; and `asyncio.sleep(1)`.
pub record Client (W : Type 0) : Type 0 where
  pub post : String → Json → String → Action W Json
  pub get : String → String → Action W Json
  pub sleep : W → W
  pub print : Json → String

abbrev pub lift : {W A : Type 0} → Result A → Action W A
lift r w = (r, w)

-- `str(v)`, also inside an f-string
abbrev pub str_of : (Json → String) → Json → String
str_of print null = "None"
str_of print (string s) = s
str_of print v = print v

abbrev pub optional : Option String → Json
optional none = null
optional (some s) = string s

-- `d[k] = v`
unfoldable pub put : String → Json → Fields → Fields
put k v no_fields = field k v no_fields
put k v (field j w fs) = ite (str_dec j k) (field j v fs) (field j w (put k v fs))

-- `d.update(options)`
unfoldable pub update : List (String × String) → Fields → Fields
unfolding put
update [] fs = fs
update ((k, v) ∷ options) fs = update options (put k (string v) fs)

-- `if req.options: d.update(req.options)`, where only some keys count
abbrev pub update_options : Option (List (String × String)) → Fields → Fields
update_options none fs = fs
update_options (some options) fs = update options fs

abbrev pub only : List String → Option (List (String × String)) → Option (List (String × String))
only keys none = none
only keys (some options) = some (keep (λ (o : String × String). contains o.0 keys) options)

-- `v in ("…", …)`
abbrev pub is_one_of : List String → Json → Bool
is_one_of texts (string s) = contains s texts
is_one_of texts _ = false

-- a field of type `str` of a pydantic model
unfoldable pub required_text : Json → Result String
required_text (string s) = ok s
required_text _ = err (value_error "Input should be a valid string")

-- what httpx takes for a URL
unfoldable pub as_url : Json → Result String
as_url (string s) = ok s
as_url _ = err (type_error "Invalid type for url")

-- `"/" in s`
unfoldable pub has_slash : String → Bool
has_slash String.[] = false
has_slash (String.◌∷◌ c s) = code c == b'/' || has_slash s

abbrev pub media_of : String → String → String → String → MediaResult
media_of file_url mime_type model provider = record {
  file_url = file_url;
  mime_type = mime_type;
  model = model;
  provider = provider;
  latency_ms = none;
}

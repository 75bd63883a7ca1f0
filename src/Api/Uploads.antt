-- ===== src/Api/Uploads.antt =====
-- What the upload routes of app/api/v1/routes share: the uploaded file, the extension of its name and the test of its size.
use Prim.Native.Char.{code}
use Prim.Native.String.{count}
use ultimate_assistant_ai_ga.Base.{
  ℕ, ◌*◌, String, Option, none, some, [], ◌∷◌, ◌==◌, ltb, if◌then◌else◌,
}
use ultimate_assistant_ai_ga.Base.Text.{concat}
use ultimate_assistant_ai_ga.Base.Action.{Action, raise_if, http_exception}

-- fastapi.UploadFile; the content is a text of its bytes
pub record UploadFile : Type 0 where
  pub content_type : Option String
  pub filename : Option String
  pub content : String

-- Python's texts: `s.lower()`, `f"{n / 1024 / 1024:.1f}"`, and `base64.b64encode(b).decode()`
pub record Texts : Type 0 where
  pub lower : String → String
  pub megabytes : ℕ → String
  pub b64encode : String → String

-- what follows the last dot
unfoldable pub after_dot : String → Option String
after_dot String.[] = none
after_dot (String.◌∷◌ c s) = elim (after_dot s) [
  | some t ↦ some t
  | none ↦ if code c == b'.' then some s else none
]

abbrev dotted : (String → String) → Option String → String
dotted lower none = ""
dotted lower (some t) = concat ("." ∷ lower t ∷ [])

-- `"." + filename.rsplit(".", 1)[-1].lower() if "." in filename else ""`
unfoldable pub extension : Texts → String → String
unfolding after_dot
extension texts filename = dotted texts.lower (after_dot filename)

abbrev pub mebibyte : ℕ
mebibyte = 1024 * 1024

-- `if len(content) > max_size: raise HTTPException(413, ...)`
abbrev pub check_size : {W : Type 0} → ℕ → String → String → Action W (Unit {0})
check_size max_size message content =
    raise_if (ltb max_size (count content)) (http_exception 413 message)

-- `if len(content) == 0: raise HTTPException(422, ...)`
abbrev pub check_given : {W : Type 0} → String → String → Action W (Unit {0})
check_given message content = raise_if (count content == 0) (http_exception 422 message)

-- ===== src/Services/Files.antt =====
-- app/services/file_service.py with app/models/file.py and app/services/parsers. The object store, the PDF and Word readers and
-- the decoding of bytes are parameters; contents are texts of bytes.
pub mod Stored
use Prim.Native.String.{count}
use ultimate_assistant_ai_ga.Base.{
  ℕ, ◌+◌, String, Bool, true, false, not, Option, none, some, List, [], ◌∷◌, ◌++◌, ◌==◌, ◌&&◌, keep,
  map, find_first, leb, if◌then◌else◌,
}
use ultimate_assistant_ai_ga.Base.Text.{concat, join, contains, is_empty}
use ultimate_assistant_ai_ga.Base.Action.{
  Result, ok, err, Action, pure, raise_if, gets, modify, ◌>>=◌, ◌>>◌, other_error,
}
use ultimate_assistant_ai_ga.Providers.Mapping.{after_prefix}
use ultimate_assistant_ai_ga.Core.Security.{Uuid}

pub record File : Type 0 where
  pub id : ℕ
  pub user_id : ℕ
  pub storage_key : String
  pub filename : String
  pub mime_type : String
  pub size_bytes : ℕ
  pub parsed_text : Option String
  pub created_at : ℕ

-- the table, how many IDs were drawn, the time on the database's clock, and the object store
pub record FileWorld (S : Type 0) : Type 0 where
  pub files : List File
  pub drawn : ℕ
  pub now : ℕ
  pub bucket : S

-- The libraries: `upload_fileobj` by key, content and content type, `generate_presigned_url` by key, the texts of a
-- PDF's pages and of a document's paragraphs, `bytes.decode("utf-8", errors="replace")` and `str` of a time.
pub record FileHost (S : Type 0) : Type 0 where
  pub put_object : String → String → String → S → Result (Unit {0}) × S
  pub presign : String → S → Result String × S
  pub pages : String → Result (List String)
  pub paragraphs : String → Result (List String)
  pub decode : String → String
  pub show_time : ℕ → String
  -- `not s.strip()`
  pub is_blank : String → Bool
  pub uuid : Uuid

abbrev pub on_bucket : {S A : Type 0} → (S → Result A × S) → Action (FileWorld S) A
on_bucket f w = let (r, bucket) = f w.bucket in (r, record w { bucket = bucket })

abbrev pub word_types : List String
word_types =
    "application/vnd.openxmlformats-officedocument.wordprocessingml.document" ∷ "application/msword"
    ∷ []

abbrev joined : Result (List String) → (String → Bool) → Option String
joined (err e) given = none
joined (ok texts) given = some (join "\n\n" (keep given texts))

abbrev is_given : {A : Type 0} → Option A → Bool
is_given none = false
is_given (some a) = true

module _ {S : Type 0} (host : FileHost S) where
  -- `_parse_file`: what the parsers raise is caught
  unfoldable pub parse_file : String → String → Option String
  unfolding after_prefix
  parse_file content mime_type =
      if contains mime_type ("application/pdf" ∷ [])
      then joined (host.pages content) (λ s. not (is_empty s))
      else if contains mime_type word_types
      then joined (host.paragraphs content) (λ s. not (host.is_blank s))
      else if is_given (after_prefix "text/" mime_type)
      then some (host.decode content)
      else none

  -- the lengths of the columns
  abbrev pub fits : File → Bool
  fits f =
      leb (count f.storage_key) 500 && leb (count f.filename) 255 && leb (count f.mime_type) 100

  abbrev draw : Action (FileWorld S) ℕ
  draw w = (ok w.drawn, record w { drawn = w.drawn + 1 })

  abbrev pub storage_key_of : ℕ → ℕ → String → String
  storage_key_of user_id file_id filename =
      concat
        ("uploads/" ∷ host.uuid.print user_id ∷ "/" ∷ host.uuid.print file_id ∷ "/" ∷ filename ∷ [])

  -- the row of an upload; the server fills `created_at` in
  abbrev pub file_of : ℕ → ℕ → ℕ → String → String → String → File
  file_of created_at file_id user_id filename content mime_type = record {
    id = file_id;
    user_id = user_id;
    storage_key = storage_key_of user_id file_id filename;
    filename = filename;
    mime_type = mime_type;
    size_bytes = count content;
    parsed_text = parse_file content mime_type;
    created_at = created_at;
  }

  -- `session.add` and `flush`
  abbrev pub add_file : File → Action (FileWorld S) File
  add_file f = do
    raise_if (not (fits f)) (other_error "DataError")
    modify (λ w. record w { files = w.files ++ f ∷ [] })
    pure f

  unfoldable pub upload : ℕ → String → String → String → Action (FileWorld S) File
  unfolding parse_file
  upload user_id filename content mime_type = do
    file_id ← draw
    on_bucket (host.put_object (storage_key_of user_id file_id filename) content mime_type)
    created_at ← gets (λ w. w.now)
    add_file (file_of created_at file_id user_id filename content mime_type)

  unfoldable pub download_url : File → Action (FileWorld S) String
  download_url f = on_bucket (host.presign f.storage_key)

abbrev pub is_file : ℕ → ℕ → File → Bool
is_file file_id user_id f = f.id == file_id && f.user_id == user_id

unfoldable pub get_file : {S : Type 0} → ℕ → ℕ → FileWorld S → Option File
get_file file_id user_id w = find_first (is_file file_id user_id) w.files

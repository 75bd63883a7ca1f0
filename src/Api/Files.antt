-- ===== src/Api/Files.antt =====
-- app/api/v1/routes/files.py. The session's roll back is left out: what raises here has added no row.
pub mod Upload
use Prim.Native.String.{count}
use ultimate_assistant_ai_ga.Base.{
  ℕ, ◌*◌, String, Bool, true, false, not, ◌&&◌, ◌||◌, Option, none, some, List, [], ◌∷◌,
  if◌then◌else◌,
}
use ultimate_assistant_ai_ga.Base.Text.{concat, contains, or_else}
use ultimate_assistant_ai_ga.Base.Action.{
  Action, pure, raise, raise_if, gets, ◌>>=◌, ◌>>◌, http_exception, attribute_error,
}
use ultimate_assistant_ai_ga.Services.Files.{
  File, FileWorld, FileHost, upload, download_url, get_file,
}
use ultimate_assistant_ai_ga.Api.Uploads.{
  UploadFile, Texts, extension, mebibyte, check_size, check_given,
}

-- fifty megabytes
abbrev pub max_file_size_bytes : ℕ
max_file_size_bytes = 50 * mebibyte

abbrev pub allowed_mime_types : List String
allowed_mime_types =
    "application/pdf" ∷ "application/vnd.openxmlformats-officedocument.wordprocessingml.document"
    ∷ "text/plain" ∷ "text/csv" ∷ "text/markdown" ∷ "application/json" ∷ "text/html"
    ∷ "application/xml" ∷ "text/xml" ∷ "image/png" ∷ "image/jpeg" ∷ "image/jpg" ∷ "image/gif"
    ∷ "image/webp" ∷ "image/svg+xml" ∷ "image/bmp" ∷ "image/tiff" ∷ "audio/mpeg" ∷ "audio/mp3"
    ∷ "audio/wav" ∷ "audio/x-wav" ∷ "audio/webm" ∷ "audio/ogg" ∷ "audio/flac" ∷ "audio/mp4"
    ∷ "audio/x-m4a" ∷ "video/mp4" ∷ "video/webm" ∷ "video/quicktime" ∷ "application/zip"
    ∷ "application/x-tar" ∷ "application/gzip" ∷ []

abbrev pub allowed_extensions : List String
allowed_extensions =
    ".pdf" ∷ ".docx" ∷ ".txt" ∷ ".csv" ∷ ".md" ∷ ".json" ∷ ".html" ∷ ".xml" ∷ ".png" ∷ ".jpg"
    ∷ ".jpeg" ∷ ".gif" ∷ ".webp" ∷ ".svg" ∷ ".bmp" ∷ ".tiff" ∷ ".mp3" ∷ ".wav" ∷ ".webm" ∷ ".ogg"
    ∷ ".flac" ∷ ".m4a" ∷ ".opus" ∷ ".mp4" ∷ ".mov" ∷ ".zip" ∷ ".tar" ∷ ".gz" ∷ []

pub record FileUploadResponse : Type 0 where
  pub id : String
  pub filename : String
  pub mime_type : String
  pub size_bytes : ℕ

pub record FileResponse : Type 0 where
  pub id : String
  pub filename : String
  pub mime_type : String
  pub size_bytes : ℕ
  pub download_url : Option String
  pub parsed_text : Option String
  pub created_at : String

abbrev pub content_type_of : UploadFile → String
content_type_of file = or_else file.content_type "application/octet-stream"

abbrev pub filename_of : UploadFile → String
filename_of file = or_else file.filename "unknown"

module _ {S : Type 0} (host : FileHost S) (texts : Texts) where
  -- by the content type or by the extension
  unfoldable pub is_allowed : UploadFile → Bool
  unfolding extension
  is_allowed file =
      contains (content_type_of file) allowed_mime_types
      || contains (extension texts (filename_of file)) allowed_extensions

  abbrev pub unsupported : UploadFile → String
  unsupported file = concat (
      "Unsupported file type: "
      ∷ content_type_of file
      ∷ " ("
      ∷ or_else (some (extension texts (filename_of file))) "no extension"
      ∷ "). See API docs for supported formats."
      ∷ [])

  abbrev pub too_large : UploadFile → String
  too_large file = concat (
      "File exceeds max size of 50 MB (received "
      ∷ texts.megabytes (count file.content)
      ∷ " MB)"
      ∷ [])

  abbrev pub upload_response : File → FileUploadResponse
  upload_response f = record {
    id = host.uuid.print f.id;
    filename = f.filename;
    mime_type = f.mime_type;
    size_bytes = f.size_bytes;
  }

  unfoldable pub upload_file : UploadFile → ℕ → Action (FileWorld S) FileUploadResponse
  unfolding is_allowed
  upload_file file user_id = do
    raise_if (not (is_allowed file)) (http_exception 422 (unsupported file))
    check_size max_file_size_bytes (too_large file) file.content
    check_given "File is empty." file.content
    f ← upload host user_id (filename_of file) file.content (content_type_of file)
    pure (upload_response f)

  abbrev found : Option File → Action (FileWorld S) File
  found none = raise (http_exception 404 "File not found")
  found (some f) = pure f

  -- the route `get_file`
  unfoldable pub get_file_response : ℕ → ℕ → Action (FileWorld S) FileResponse
  unfolding get_file download_url
  get_file_response file_id user_id = do
    entry ← gets (get_file file_id user_id)
    f ← found entry
    url ← download_url host f
    pure (record {
      id = host.uuid.print f.id;
      filename = f.filename;
      mime_type = f.mime_type;
      size_bytes = f.size_bytes;
      download_url = some url;
      parsed_text = f.parsed_text;
      created_at = host.show_time f.created_at;
    })

-- ===== src/Tests/Files.antt =====
-- app/api/v1/routes/files.py: a text is uploaded, and not deleted. The store is the list of its keys.
use ultimate_assistant_ai_ga.Base.{◌≡◌, refl, String, false, some, List, [], ◌∷◌, str_dec}
use ultimate_assistant_ai_ga.Base.Text.{show}
use ultimate_assistant_ai_ga.Base.Action.{ok, err, http_exception}
use ultimate_assistant_ai_ga.Providers.Mapping.{after_prefix}
use ultimate_assistant_ai_ga.Services.Files.{
  File, FileWorld, FileHost, upload, parse_file, get_file,
}
use ultimate_assistant_ai_ga.Api.Uploads.{UploadFile, Texts, after_dot, extension}
use ultimate_assistant_ai_ga.Api.Files.{FileUploadResponse, is_allowed, upload_file}
use ultimate_assistant_ai_ga.Api.Files.Upload.{IsUploaded, upload_file-IsUploaded}
use ultimate_assistant_ai_ga.Tests.Token.{numbers}

abbrev host : FileHost (List String)
host = record {
  put_object = λ key content mime s. (ok tt, key ∷ s);
  presign = λ key s. (ok key, s);
  pages = λ content. ok (content ∷ []);
  paragraphs = λ content. ok (content ∷ []);
  decode = λ content. content;
  show_time = show;
  is_blank = λ s. false;
  uuid = numbers;
}

abbrev pub texts : Texts
texts = record { lower = λ s. s; megabytes = show; b64encode = λ s. s }

abbrev file : UploadFile
file = record { content_type = some "text/plain"; filename = some "a.txt"; content = "meow" }

abbrev before : FileWorld (List String)
before = record { files = []; drawn = 3; now = 50; bucket = [] }

abbrev stored : File
stored = record {
  id = 3;
  user_id = 7;
  storage_key = "uploads/xxxxxxx/xxx/a.txt";
  filename = "a.txt";
  mime_type = "text/plain";
  size_bytes = 4;
  parsed_text = some "meow";
  created_at = 50;
}

abbrev after : FileWorld (List String)
after = record {
  files = stored ∷ [];
  drawn = 4;
  now = 50;
  bucket = "uploads/xxxxxxx/xxx/a.txt" ∷ [];
}

abbrev response : FileUploadResponse
response = record { id = "xxx"; filename = "a.txt"; mime_type = "text/plain"; size_bytes = 4 }

program : Unit {0}
unfolding str_dec after_prefix parse_file upload get_file after_dot extension is_allowed upload_file
program = tt

uploaded : upload_file host texts file 7 before ≡ (ok response, after)
unfolding program
uploaded = refl

refused :
    upload_file host texts (record file { content = "" }) 7 before
    ≡ (err (http_exception 422 "File is empty."), before)
unfolding program
refused = refl

upload_file-IsUploaded_example : IsUploaded host texts file 7 before response after
upload_file-IsUploaded_example =
    upload_file-IsUploaded host texts file 7 before after response tt uploaded

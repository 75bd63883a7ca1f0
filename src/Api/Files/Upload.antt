-- ===== src/Api/Files/Upload.antt =====
-- Uploading a file.
use Prim.Native.String.{count}
use ultimate_assistant_ai_ga.Base.{ℕ, ◌≤◌, ◌<◌, ◌≡◌, refl, Bool, true, false, not, ◌==◌, ltb, arith}
use ultimate_assistant_ai_ga.Base.Action.{
  ok, Action, ◌>>=◌, ◌>>◌, pure, raise_if-ok, and_then-pure-ok, http_exception,
}
use ultimate_assistant_ai_ga.Services.Files.{File, FileWorld, FileHost, upload}
use ultimate_assistant_ai_ga.Services.Files.Stored.{Fresh, IsStored, upload-IsStored}
use ultimate_assistant_ai_ga.Api.Uploads.{UploadFile, Texts, check_size, check_given}
use ultimate_assistant_ai_ga.Api.Files.{
  FileUploadResponse, max_file_size_bytes, content_type_of, filename_of, is_allowed, unsupported,
  too_large, upload_response, upload_file,
}

not-false : (b : Bool) → not b ≡ false → b ≡ true
not-false true h = refl
not-false false h = cc

leb_of : (n : ℕ) → ltb max_file_size_bytes n ≡ false → n ≤ max_file_size_bytes
leb_of n h = ground arith

module _ {S : Type 0} (host : FileHost S) (texts : Texts) where
  -- An upload that the route accepted: its type or its extension is allowed, it is neither empty nor larger than
  -- fifty megabytes, and the file is stored under the response's ID.
  pub record IsUploaded (file : UploadFile) (user_id : ℕ) (w : FileWorld S)
      (response : FileUploadResponse) (w' : FileWorld S) : Type 0 where
    pub allowed : is_allowed host texts file ≡ true
    pub bounds : (0 < count file.content) × (count file.content ≤ max_file_size_bytes)
    pub row : File
    pub stored :
        IsStored host user_id (filename_of file) file.content (content_type_of file) w row w'
    pub answered : response ≡ upload_response host texts row

  -- Where no file has an ID that is still to be drawn: a file that the route accepts has an allowed type or
  -- extension and between one byte and fifty megabytes. It is stored with its name, type, size and text
  -- under the ID of the response: its owner reads it back, nobody else does, every other file reads as
  -- before, and no ID that is still to be drawn is taken.
  pub upload_file-IsUploaded :
      (file : UploadFile) (user_id : ℕ) (w w' : FileWorld S) (response : FileUploadResponse)
      → Fresh w
      → upload_file host texts file user_id w ≡ (ok response, w')
      → IsUploaded file user_id w response w'
  unfolding upload_file
  upload_file-IsUploaded file user_id w w' response fresh e =
      let store = upload host user_id (filename_of file) file.content (content_type_of file) in
      let answer : Action (FileWorld S) FileUploadResponse =
        store >>= λ f. pure (upload_response host texts f) in
      let given = check_given "File is empty." file.content in
      let size = check_size max_file_size_bytes (too_large host texts file) file.content in
      let (a, e1) =
        raise_if-ok (not (is_allowed host texts file))
          (http_exception 422 (unsupported host texts file)) (size >> (given >> answer)) w e in
      let (b, e2) =
        raise_if-ok (ltb max_file_size_bytes (count file.content))
          (http_exception 413 (too_large host texts file)) (given >> answer) w e1 in
      let (c, e3) =
        raise_if-ok (count file.content == 0) (http_exception 422 "File is empty.") answer w e2 in
      let (f, e4, shown) = and_then-pure-ok (upload_response host texts) (store w) w' response e3 in
      record {
        allowed = not-false (is_allowed host texts file) a;
        bounds = (ground arith, leb_of (count file.content) b);
        row = f;
        stored =
            upload-IsStored host user_id (filename_of file) file.content (content_type_of file) w w'
              f fresh e4;
        answered = shown;
      }

-- ===== src/Services/Files/Stored.antt =====
-- A file that was uploaded, read back.
use ultimate_assistant_ai_ga.Base.{
  ℕ, ◌+◌, ◌<◌, ◌≡◌, refl, sym, ap, subst, ◌∙◌, String, true, false, none, some, List, [], ◌∷◌, ◌++◌,
  ◌==◌, find_first, arith, Bool-cases, inl, inr, if◌then◌else◌,
}
use ultimate_assistant_ai_ga.Base.Lists.{All, All-append}
use ultimate_assistant_ai_ga.Base.Action.{
  Result, ok, err, Result-cases, ok-injective, Exc, other_error,
}
use ultimate_assistant_ai_ga.Services.Files.{
  File, FileWorld, FileHost, upload, fits, file_of, storage_key_of, is_file, get_file,
}

-- No file has an ID that is still to be drawn.
abbrev pub Fresh : {S : Type 0} → FileWorld S → Type 0
Fresh w = All (λ (f : File). f.id < w.drawn) w.files

find-append_new :
    (c u : ℕ) (f : File) (fs : List File)
    → All (λ (g : File). g.id < c) fs
    → f.id ≡ c
    → find_first (is_file c u) (fs ++ f ∷ []) ≡ (if f.user_id == u then some f else none)
find-append_new c u f [] h e = ground arith
find-append_new c u f (g ∷ fs) h e = ground (arith, find-append_new c u f fs h.1 e)

find-append_old :
    (d u : ℕ) (f : File) (fs : List File)
    → (f.id == d) ≡ false
    → find_first (is_file d u) (fs ++ f ∷ []) ≡ find_first (is_file d u) fs
find-append_old d u f [] n = ground arith
find-append_old d u f (g ∷ fs) n = ground (arith, find-append_old d u f fs n)

All-later :
    (m : ℕ) (fs : List File) → All (λ (g : File). g.id < m) fs → All (λ (g : File). g.id < m + 1) fs
All-later m [] h = tt
All-later m (g ∷ fs) h = (omega arith, All-later m fs h.1)

module _ {S : Type 0} (host : FileHost S) (user_id : ℕ) (filename content mime_type : String) where
  -- The row that an upload makes, and what it leaves of the others.
  pub record IsStored (w : FileWorld S) (f : File) (w' : FileWorld S) : Type 0 where
    pub row : f ≡ file_of host w.now w.drawn user_id filename content mime_type
    pub found : get_file f.id user_id w' ≡ some f
    pub hidden : (v : ℕ) → (user_id == v) ≡ false → get_file f.id v w' ≡ none
    pub others : (d v : ℕ) → (f.id == d) ≡ false → get_file d v w' ≡ get_file d v w
    pub fresh : Fresh w'

  abbrev new_file : FileWorld S → File
  new_file w = file_of host w.now w.drawn user_id filename content mime_type

  abbrev grown : FileWorld S → S → FileWorld S
  grown w bucket = record {
    files = w.files ++ new_file w ∷ [];
    drawn = w.drawn + 1;
    now = w.now;
    bucket = bucket;
  }

  grown-IsStored :
      (w : FileWorld S) (bucket : S) → Fresh w → IsStored w (new_file w) (grown w bucket)
  unfolding get_file
  grown-IsStored w bucket fresh = record {
    row = refl;
    found = find-append_new w.drawn user_id (new_file w) w.files fresh refl ∙ ground arith;
    hidden = λ v n. find-append_new w.drawn v (new_file w) w.files fresh refl ∙ rw n refl;
    others = λ d v n. find-append_old d v (new_file w) w.files n;
    fresh =
        All-append (λ (g : File). g.id < w.drawn + 1) w.files (new_file w ∷ [])
          (All-later w.drawn w.files fresh) (omega arith, tt);
  }

  abbrev stored_object : FileWorld S → Result (Unit {0}) × S
  stored_object w =
      host.put_object (storage_key_of host user_id w.drawn filename) content mime_type w.bucket

  upload_stored :
      (w : FileWorld S) (bucket : S)
      → stored_object w ≡ (ok tt, bucket)
      → fits host (new_file w) ≡ true
      → upload host user_id filename content mime_type w ≡ (ok (new_file w), grown w bucket)
  unfolding upload
  upload_stored w bucket e y = rw (e, y) refl

  upload_refused :
      (w : FileWorld S) (bucket : S)
      → stored_object w ≡ (ok tt, bucket)
      → fits host (new_file w) ≡ false
      → (upload host user_id filename content mime_type w).0 ≡ err (other_error "DataError")
  unfolding upload
  upload_refused w bucket e n = rw (e, n) refl

  upload_failed :
      (w : FileWorld S) (x : Exc)
      → (stored_object w).0 ≡ err x
      → (upload host user_id filename content mime_type w).0 ≡ err x
  unfolding upload
  upload_failed w x e = rw e refl

  pub upload-IsStored :
      (w w' : FileWorld S) (f : File)
      → Fresh w
      → upload host user_id filename content mime_type w ≡ (ok f, w')
      → IsStored w f w'
  upload-IsStored w w' f fresh e = elim (Result-cases (stored_object w).0) [
    | inr (x, q) ↦ cc (upload_failed w x q)
    | inl (u, q) ↦
        let bucket = (stored_object w).1 in
        let done : stored_object w ≡ (ok tt, bucket) = λ i. (q i, bucket) in
        elim (Bool-cases (fits host (new_file w))) [
          | inr n ↦ cc (upload_refused w bucket done n)
          | inl y ↦
              let both = sym (upload_stored w bucket done y) ∙ e in
              let row : new_file w ≡ f = ok-injective (ap (λ r. r.0) both) in
              let world : grown w bucket ≡ w' = ap (λ r. r.1) both in
              subst (λ g. IsStored w g w') row
                (subst (λ v. IsStored w (new_file w) v) world (grown-IsStored w bucket fresh))
        ]
  ]

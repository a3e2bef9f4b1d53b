-- ===== src/Fetch/Http/Tidy/Fetched.antt =====
-- A fetch over HTTP leaves no temporary file behind.
use bb_remote_asset.Prelude.{
  String, ◌≡◌, refl, ap, ◌∙◌, inl, inr, not, ◌&&◌, Option, none, some, List, [], ◌∷◌, ◌==◌,
  Bool-cases,
}
use bb_remote_asset.Prelude.Effect.{ok, Error, Result, err, panic, Exec, pure, continue, ◌>>=◌}
use bb_remote_asset.Storage.Libraries.{Libraries, BlobAccess}
use bb_remote_asset.Fetch.Interface.{FetchRequest, FetchBlobResponse}
use bb_remote_asset.Fetch.Http.{keep, on_size, no_uri, try_uris, fetch_blob}
use bb_remote_asset.Fetch.Http.Checksum.{ExpectedChecksum}
use bb_remote_asset.Fetch.Http.Headers.{AuthHeaders}
use bb_remote_asset.Fetch.Http.Client.{Transfer}
use bb_remote_asset.Fetch.Http.Download.{close_temporary, Downloaded, download_blob}
use bb_remote_asset.Fetch.Http.Tidy.{Leaves, Leaves-lift, Leaves-bind, HandlesFiles}
use bb_remote_asset.Fetch.Http.Tidy.Held.{
  close_temporary-removes, Owns, logged-keeps, attempt-HoldsAt, IsHeld, as_download-IsHeld,
}

module _ (l : Libraries) {W : Type 0} (t : Transfer l W)
    (content_addressable_storage : BlobAccess l.Digest l.Buffer W) (temps : W → List t.File)
    (h : HandlesFiles l t content_addressable_storage temps) where
  -- What becomes of a download: its file is closed by the put or by the discard.
  then_pure :
      {A B : Type 0} (r : Result A × W) (b : B) → temps (continue r (λ _. pure b)).1 ≡ temps r.1
  then_pure (ok a, v) b = refl
  then_pure (err x e, v) b = refl
  then_pure (panic, v) b = refl

  keep-closes :
      (req : FetchRequest) (checksum : ExpectedChecksum l) (uri : String) (d : Downloaded l t)
      (fs : List t.File) (w : W)
      → Owns l t content_addressable_storage temps h fs d w
      → temps (keep l t content_addressable_storage req checksum uri d w).1 ≡ fs
  unfolding keep ◌>>=◌
  keep-closes req checksum uri d fs w (file, size, is_file, e) =
      elim (Bool-cases (not (checksum.0 == "") && not (d.checksum == checksum.0))) [
        | inl differs ↦ rw differs (discarded ∙ is_closed)
        | inr agrees ↦ rw agrees (
            then_pure _ _
            ∙ logged-keeps l t content_addressable_storage temps h uri _
            ∙ stored
            ∙ is_closed)
      ]
    where
      is_closed : temps (close_temporary l t file w).1 ≡ fs
      is_closed = close_temporary-removes l t content_addressable_storage temps h file fs w e

      discarded : temps (t.discard d.buffer w) ≡ temps (close_temporary l t file w).1
      discarded =
          ap (λ b. temps (t.discard b w)) is_file
          ∙ h.discard_closes file (close_temporary l t file) size w

      stored :
          temps (content_addressable_storage.put d.digest d.buffer w).1
          ≡ temps (close_temporary l t file w).1
      stored =
          ap (λ b. temps (content_addressable_storage.put d.digest b w).1) is_file
          ∙ h.put_closes d.digest file (close_temporary l t file) size w

  Leaves-no_uri : (last : Option Error) → Leaves temps (no_uri l t content_addressable_storage last)
  Leaves-no_uri none = Leaves-bind (Leaves-lift _) (λ e. record { at = λ w. refl })
  Leaves-no_uri (some e) = record { at = λ w. refl }

  after_download :
      (fs : List t.File) (r : Result (Downloaded l t) × W)
      (kept : Downloaded l t → Exec W FetchBlobResponse) (next : Error → Exec W FetchBlobResponse)
      → IsHeld l t content_addressable_storage temps h fs r
      → ((d : Downloaded l t) (v : W)
          → Owns l t content_addressable_storage temps h fs d v
          → temps (kept d v).1 ≡ fs)
      → ((e : Error) (v : W) → temps v ≡ fs → temps (next e v).1 ≡ fs)
      → temps
          (continue r (λ d.
            on_size l t content_addressable_storage (l.get_size_bytes d.buffer) (kept d) next)).1
        ≡ fs
  after_download fs (ok d, v) kept next (inl (file, size, is_file, e)) p q =
      let (n, has) = h.file_has_size file (close_temporary l t file) size in
      rw (ap l.get_size_bytes is_file ∙ has) (p d v (file, size, is_file, e))
  after_download fs (ok d, v) kept next (inr (x, is_error, e)) p q =
      rw (ap l.get_size_bytes is_error ∙ h.error_has_no_size x) (q x v e)
  after_download fs (err x e, v) kept next k p q = absurd k
  after_download fs (panic, v) kept next k p q = k

  try_uris-keeps :
      (req : FetchRequest) (f : l.Function) (checksum : ExpectedChecksum l) (auth : AuthHeaders)
      (uris : List String) (last : Option Error) (w : W)
      → temps (try_uris l t content_addressable_storage req f checksum auth uris last w).1 ≡ temps w
  unfolding try_uris ◌>>=◌
  try_uris-keeps req f checksum auth [] last w = unfold ◌>>=◌ in (Leaves-no_uri last).at w
  try_uris-keeps req f checksum auth (uri ∷ uris) last w =
      after_download (temps w) (download_blob l t uri f checksum auth w) _ _
        (unfold download_blob in
          as_download-IsHeld l t content_addressable_storage temps h (temps w) _
            (attempt-HoldsAt l t content_addressable_storage temps h uri f checksum auth w).at)
        (λ d v owned. keep-closes req checksum uri d (temps w) v owned)
        (λ e v p. try_uris-keeps req f checksum auth uris (some e) _ ∙ h.printf_keeps _ v ∙ p)

  -- On every path, errors and panics included, the temporary files after a FetchBlob over HTTP are
  -- those before it: what it creates it removes, or the CAS does that reads it. Creating a file adds
  -- it, removing it takes it away, no other call of the download touches the files, and a put or a
  -- discard closes the reader of its buffer, of which one on a file has a size and one on an error
  -- has none.
  pub fetch_blob-keeps_temporary_files :
      (req : FetchRequest) (w : W)
      → temps (fetch_blob l t content_addressable_storage req w).1 ≡ temps w
  unfolding fetch_blob
  fetch_blob-keeps_temporary_files req w =
      (Leaves-bind (Leaves-lift _) (λ f. Leaves-bind (Leaves-lift _) (λ checksum.
          Leaves-bind (Leaves-lift _)
            (λ auth. record { at = try_uris-keeps req f checksum auth req.uris none })))).at
        w

-- ===== src/Fetch/Http/Verified.antt =====
-- What a fetch over HTTP returns is what a server sent, with the checksum that was asked for.
use bb_remote_asset.Prelude.{
  ℕ, String, ◌≡◌, refl, sym, ap, ◌∙◌, subst, ◌⊎◌, inl, inr, true, false, not, ◌&&◌, Option, none,
  some, List, [], ◌∷◌, arith, ◌==◌, eq_iff, Bool-cases, any,
}
use bb_remote_asset.Prelude.Effect.{
  ok, Error, Result, err, panic, Exec, Ensures, Ensures-bind, Ensures-lift, Ensures-pure,
  Ensures-raise,
}
use bb_remote_asset.Storage.BlobStore.Refinement.{IsBlobMap}
use bb_remote_asset.Fetch.Interface.{FetchRequest, FetchBlobResponse}
use bb_remote_asset.Fetch.Utils.{get_digest_function}
use bb_remote_asset.Fetch.Http.{not_placed, response, place, keep, on_size, try_uris, fetch_blob}
use bb_remote_asset.Fetch.Http.Checksum.{ExpectedChecksum, get_checksum_sri}
use bb_remote_asset.Fetch.Http.Headers.{AuthHeaders, get_auth_headers}
use bb_remote_asset.Storage.Libraries.{Libraries, BlobAccess}
use bb_remote_asset.Fetch.Http.Client.{Transfer}
use bb_remote_asset.Fetch.Http.Download.{Downloaded, log_download, download_blob}
use bb_remote_asset.Fetch.Http.Download.Laws.{IsDownload, logged-eq-ok, download_blob-IsDownload}

module _ (l : Libraries) {W : Type 0} (t : Transfer l W)
    (content_addressable_storage : BlobAccess l.Digest l.Buffer W)
    (c : IsBlobMap content_addressable_storage)
    (error_has_no_size : (e : Error) → l.get_size_bytes (t.buffer_from_error e) ≡ err none e) where
  -- The blob of the response is what a server sent for its URI, a URI of the request, with the
  -- headers for it; it has the checksum, if there is one; and the CAS has its file.
  pub record IsVerified (req : FetchRequest) (f : l.Function) (checksum : ExpectedChecksum l)
      (auth : AuthHeaders) (resp : FetchBlobResponse) (v : W) : Type 0 where
    pub download : Downloaded l t
    pub is_download : IsDownload l t f checksum auth resp.uri download
    pub is_digest : resp.blob_digest ≡ some (l.get_proto download.digest)
    pub matches_checksum : (checksum.0 == "") ≡ false → download.checksum ≡ checksum.0
    pub is_stored : c.view v download.digest ≡ some download.buffer

  place-eq-ok :
      (uri : String) (d : Downloaded l t) (w v : W)
      → place l t content_addressable_storage uri d w ≡ (ok tt, v)
      → content_addressable_storage.put d.digest d.buffer w ≡ (ok tt, v)
  unfolding place
  place-eq-ok uri d w v h =
      logged-eq-ok l t (not_placed l t content_addressable_storage)
        (λ e. log_download l t uri (l.error_text e))
        (content_addressable_storage.put d.digest d.buffer w) h

  -- What a put leaves that returns.
  is_put :
      (d : l.Digest) (x : l.Buffer) (w v : W)
      → content_addressable_storage.put d x w ≡ (ok tt, v)
      → c.view v d ≡ some x
  is_put d x w v h =
      subst (λ (r : Result (Unit {0}) × W). c.view r.1 d ≡ some x) h
        (c.put_stores d x w (ap (λ (r : Result (Unit {0}) × W). r.0) h))

  keep_Ensures :
      (req : FetchRequest) (f : l.Function) (checksum : ExpectedChecksum l) (auth : AuthHeaders)
      (uri : String) (d : Downloaded l t) (w : W)
      → IsDownload l t f checksum auth uri d
      → Ensures w
          (keep l t content_addressable_storage req checksum uri d)
          (λ resp v. (resp.uri ≡ uri) × IsVerified req f checksum auth resp v)
  unfolding keep
  keep_Ensures req f checksum auth uri d w is_download =
      elim (Bool-cases (not (checksum.0 == "") && not (d.checksum == checksum.0))) [
        | inl differs ↦ rw differs (record { at = λ resp v h. cc })
        | inr agrees ↦ rw agrees (
            Ensures-bind (place l t content_addressable_storage uri d) _ (λ _ u p.
              Ensures-pure (response l t content_addressable_storage req uri d.digest) (
                refl,
                record {
                  download = d;
                  is_download = is_download;
                  is_digest = refl;
                  matches_checksum =
                      λ wanted. (eq_iff d.checksum checksum.0).0 (ground (arith, agrees, wanted));
                  is_stored = is_put d.digest d.buffer w u (place-eq-ok uri d w u p);
                },
              )))
      ]

  abbrev IsAmong : List String → String → Type 0
  IsAmong uris uri = any (λ u. u == uri) uris ≡ true

  no_size :
      (d : Downloaded l t) (x : Error) (n : ℕ)
      → d.buffer ≡ t.buffer_from_error x
      → l.get_size_bytes d.buffer ≡ ok n
      → ⊥
  no_size d x n is_error e = cc (sym (error_has_no_size x) ∙ ap l.get_size_bytes (sym is_error) ∙ e)

  -- What is expected of the response after a download for the first of the URIs.
  abbrev Expected :
      FetchRequest
      → l.Function
      → ExpectedChecksum l
      → AuthHeaders
      → List String
      → FetchBlobResponse
      → W
      → Type 0
  Expected req f checksum auth uris resp v =
      IsAmong uris resp.uri × IsVerified req f checksum auth resp v

  after_size :
      (req : FetchRequest) (f : l.Function) (checksum : ExpectedChecksum l) (auth : AuthHeaders)
      (uri : String) (uris : List String) (next : Error → Exec W FetchBlobResponse)
      (d : Downloaded l t) (u : W) (n : Result ℕ)
      → ((e : Error) → Ensures u (next e) (Expected req f checksum auth uris))
      → IsDownload l t f checksum auth uri d ⊎ ((e : Error) × (d.buffer ≡ t.buffer_from_error e))
      → l.get_size_bytes d.buffer ≡ n
      → Ensures u
          (on_size l t content_addressable_storage n
            (keep l t content_addressable_storage req checksum uri d)
            next)
          (Expected req f checksum auth (uri ∷ uris))
  after_size req f checksum auth uri uris next d u (ok n) rest (inl is_download) e = record {
    at = λ resp v h.
        let (same, verified) = (keep_Ensures req f checksum auth uri d u is_download).at resp v h in
        (ground (arith, eq_iff uri resp.uri, same), verified);
  }
  after_size req f checksum auth uri uris next d u (ok n) rest (inr (x, is_error)) e = record {
    at = λ resp v h. absurd (no_size d x n is_error e);
  }
  after_size req f checksum auth uri uris next d u (err y x) rest o e = record {
    at = λ resp v h.
        let (among, verified) = (rest x).at resp v h in (ground (arith, among), verified);
  }
  after_size req f checksum auth uri uris next d u panic rest o e = record { at = λ resp v h. cc }

  try_uris_Ensures :
      (req : FetchRequest) (f : l.Function) (checksum : ExpectedChecksum l) (auth : AuthHeaders)
      (uris : List String) (last : Option Error) (w : W)
      → Ensures w
          (try_uris l t content_addressable_storage req f checksum auth uris last)
          (Expected req f checksum auth uris)
  unfolding try_uris
  try_uris_Ensures req f checksum auth [] none w = Ensures-bind _ _ (λ e u _. Ensures-raise e)
  try_uris_Ensures req f checksum auth [] (some e) w = Ensures-raise _
  try_uris_Ensures req f checksum auth (uri ∷ uris) last w =
      Ensures-bind (download_blob l t uri f checksum auth) _ (λ d u p.
        after_size req f checksum auth uri uris _ d u (l.get_size_bytes d.buffer)
          (λ e. record {
            at =
                (try_uris_Ensures req f checksum auth uris (some e)
                  (log_download l t uri (l.error_text e) u)).at;
          })
          ((download_blob-IsDownload l t uri f checksum auth w).at d u p) refl)

  -- A FetchBlob over HTTP that succeeds returns the digest of what a server sent for the URI that
  -- it returns: one of the request, asked with the headers that the request assigns to it, and
  -- answered by 200 and a body that was read to its end. Where the request has a checksum, that is
  -- the checksum of this body. The CAS has under the digest the buffer on a temporary file, made
  -- after the response came, to which the whole body was written, and which is closed and removed
  -- with the buffer. The CAS is a map of blobs, and a buffer on an error has no size.
  pub fetch_blob-IsVerified :
      (req : FetchRequest) (w v : W) (resp : FetchBlobResponse)
      → fetch_blob l t content_addressable_storage req w ≡ (ok resp, v)
      → (f : l.Function) × (checksum : ExpectedChecksum l) × (auth : AuthHeaders)
        × (get_digest_function l req.digest_function req.instance_name ≡ ok f)
        × (get_checksum_sri l req.qualifiers ≡ ok checksum)
        × (get_auth_headers l t.unmarshal t.range req.uris req.qualifiers ≡ ok auth)
        × (any (λ u. u == resp.uri) req.uris ≡ true)
        × IsVerified req f checksum auth resp v
  unfolding fetch_blob
  fetch_blob-IsVerified req w v resp h =
      (Ensures-lift
          {Q = λ resp v.
            (f : l.Function) × (checksum : ExpectedChecksum l) × (auth : AuthHeaders)
            × (get_digest_function l req.digest_function req.instance_name ≡ ok f)
            × (get_checksum_sri l req.qualifiers ≡ ok checksum)
            × (get_auth_headers l t.unmarshal t.range req.uris req.qualifiers ≡ ok auth)
            × IsAmong req.uris resp.uri
            × IsVerified req f checksum auth resp v}
          _ _
          (λ f p. Ensures-lift _ _ (λ checksum q. Ensures-lift _ _ (λ auth r. record {
            at = λ resp v h.
                let (among, verified) =
                  (try_uris_Ensures req f checksum auth req.uris none w).at resp v h in
                (f, checksum, auth, p, q, r, among, verified);
          })))).at
        resp v h

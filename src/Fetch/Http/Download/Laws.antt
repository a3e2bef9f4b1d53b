-- ===== src/Fetch/Http/Download/Laws.antt =====
-- What `downloadBlob` returns when it succeeds.
use bb_remote_asset.Prelude.{
  String, ◌≡◌, refl, ◌∙◌, subst, ◌⊎◌, inl, inr, true, false, Option, none, some, List, [], ◌==◌,
  nat_eq,
}
use bb_remote_asset.Prelude.Int.{ℤ}
use bb_remote_asset.Prelude.Effect.{
  Code, ok, Error, Result, err, panic, Exec, Ensures, Ensures-bind, Ensures-lift, Ensures-pure,
  Ensures-if,
}
use bb_remote_asset.Storage.Libraries.{Libraries}
use bb_remote_asset.Storage.ActionCache.Value.{on_error, Ensures-change_error}
use bb_remote_asset.Fetch.Http.Checksum.{ExpectedChecksum}
use bb_remote_asset.Fetch.Http.Headers.{AuthHeaders, apply_headers}
use bb_remote_asset.Fetch.Http.Client.{Response, Transfer, after_failure, on_failure, log_error}
use bb_remote_asset.Fetch.Http.Download.{
  Downloaded, close_temporary, log_download, Generators, checksum_generator, checksum_of, save_body,
  saved, save, receive, refuse_status, send, attempt, as_download, download_blob,
}
use bb_remote_asset.Fetch.Http.Download.Copied.{
  chunks_of, WritesFile, written_to, ChecksumWritten, IsCopied, copy_Ensures,
}

module _ (l : Libraries) {W : Type 0} (t : Transfer l W) where
  -- The download is what the server sent for a request with these headers: the digest and the
  -- checksum are those of the whole body, and the buffer is on a temporary file, made after the
  -- response came, to which the whole body was written. It has the size that the digest has, and
  -- closing it closes and removes the file.
  pub record IsDownload (f : l.Function) (checksum : ExpectedChecksum l) (auth : AuthHeaders)
      (uri : String) (d : Downloaded l t) : Type 0 where
    pub before : W
    pub after : W
    pub response : Response l.Bytes t.Connection
    pub is_sent :
        t.do_request (apply_headers auth uri (record { uri = uri; headers = [] })) before
        ≡ (ok response, after)
    pub is_success : nat_eq response.status_code 200 ≡ true
    pub content : List l.Bytes
    pub is_body : chunks_of response.stream ≡ some content
    pub generator : l.Generator
    pub is_written : written_to l (l.new_generator f response.content_length) content ≡ ok generator
    pub is_digest : d.digest ≡ l.sum generator
    pub has_checksum :
        (checksum.0 == "") ≡ false
        → (g : l.Function) × (h : l.Generator) × (checksum.1 ≡ some g)
          × (written_to l (l.new_generator g response.content_length) content ≡ ok h)
          × (d.checksum ≡ (l.get_proto (l.sum h)).hash)
    pub file : t.File
    pub opened : W
    pub is_created : t.create_temp after ≡ (ok file, opened)
    pub complete : W
    pub is_in_file : WritesFile l t file content opened complete
    pub is_buffer :
        d.buffer
        ≡ t.buffer_from_reader_at file (close_temporary l t file) (l.get_proto d.digest).size_bytes

  -- The generator of the checksum is for the function of the checksum.
  is_for_checksum :
      (checksum : ExpectedChecksum l) (n : ℤ) (o : Option l.Generator)
      → checksum_generator l t checksum n ≡ ok o
      → (checksum.0 == "") ≡ false
      → (g : l.Function) × (checksum.1 ≡ some g) × (o ≡ some (l.new_generator g n))
  is_for_checksum (e, none) n o p q = cc (rw q at p)
  is_for_checksum (e, some g) n o p q = (g, refl, cc (rw q at p))

  checksum_after :
      (g : l.Generator) (bs : List l.Bytes) (o x : Option l.Generator)
      → o ≡ some g
      → ChecksumWritten l o bs x
      → (h : l.Generator) × (written_to l g bs ≡ ok h)
        × (checksum_of l t x ≡ (l.get_proto (l.sum h)).hash)
  checksum_after g bs o x e c =
      let (h, is_h, written) = subst (λ y. ChecksumWritten l y bs x) e c in
      (h, written, rw is_h refl)

  -- What is saved of a response.
  abbrev IsSaved :
      l.Function
      → ExpectedChecksum l
      → Response l.Bytes t.Connection
      → t.File
      → W
      → Generators l t
      → Type 0
  IsSaved f checksum resp file w hs =
      (o : Option l.Generator) × (checksum_generator l t checksum resp.content_length ≡ ok o)
      × ((v : W) × IsCopied l t file resp.stream (l.new_generator f resp.content_length, o) w v hs)

  save_body_Ensures :
      (resp : Response l.Bytes t.Connection) (file : t.File) (f : l.Function)
      (checksum : ExpectedChecksum l) (w : W)
      → Ensures w (save_body l t resp file f checksum) (λ hs v. IsSaved f checksum resp file w hs)
  unfolding save_body
  save_body_Ensures resp file f checksum w =
      Ensures-lift (checksum_generator l t checksum resp.content_length) _ (λ o p.
        Ensures-bind _ _ (λ hs u q. Ensures-bind _ _ (λ _ v _. Ensures-pure hs (
          o,
          p,
          (
            u,
            (Ensures-change_error _ _ (
                  copy_Ensures l t file resp.stream (l.new_generator f resp.content_length, o)
                    w)).at
                hs u q,
          ),
        ))))

  Ensures-on_failure :
      {A : Type 0} {w : W} {Q : A → W → Type 0} (cleanup : W → W) (m : Exec W A)
      → Ensures w m Q
      → Ensures w (on_failure cleanup m) Q
  Ensures-on_failure cleanup m k = record { at = λ a v h. k.at a v (same (m _) h) }
    where
      same :
          {A : Type 0} {a : A} {v : W} (r : Result A × W)
          → after_failure cleanup r ≡ (ok a, v)
          → r ≡ (ok a, v)
      same (ok a, v) h = h
      same (err x e, v) h = cc
      same (panic, v) h = cc

  -- An error that is logged and changed is an error.
  pub logged-eq-ok :
      {A : Type 0} (change : Error → Error) (printf : Error → W → W) (r : Result A × W) {a : A}
      {v : W}
      → ◌≡◌ {A = Result A × W}
          (on_error change (log_error printf r).0, (log_error printf r).1)
          (ok a, v)
      → r ≡ (ok a, v)
  logged-eq-ok change printf (ok a, v) h = h
  logged-eq-ok change printf (err x e, v) h = cc
  logged-eq-ok change printf (panic, v) h = cc

  send-eq-ok :
      (uri : String) (auth : AuthHeaders) (w : W) {resp : Response l.Bytes t.Connection} {v : W}
      → send l t uri auth w ≡ (ok resp, v)
      → t.do_request (apply_headers auth uri (record { uri = uri; headers = [] })) w ≡ (ok resp, v)
  unfolding send
  send-eq-ok uri auth w h =
      logged-eq-ok (λ e. l.status_wrap_with_code e Code.internal "HTTP request failed")
        (λ e. log_download l t uri (l.error_text e))
        (t.do_request (apply_headers auth uri (record { uri = uri; headers = [] })) w) h

  -- What follows a response with the status 200.
  receive_Ensures :
      (auth : AuthHeaders) (uri : String) (resp : Response l.Bytes t.Connection) (f : l.Function)
      (checksum : ExpectedChecksum l) (before w : W)
      → t.do_request (apply_headers auth uri (record { uri = uri; headers = [] })) before
        ≡ (ok resp, w)
      → nat_eq resp.status_code 200 ≡ true
      → Ensures w (receive l t resp f checksum) (λ d v. IsDownload f checksum auth uri d)
  unfolding receive save saved close_temporary
  receive_Ensures auth uri resp f checksum before w is_sent is_success = Ensures-on_failure _ _ (
      Ensures-bind _ _ (λ file u made. Ensures-bind _ _ (λ hs v q.
        let (o, is_o, (x, c)) =
          (Ensures-on_failure _ _ (save_body_Ensures resp file f checksum u)).at hs v q in
        Ensures-pure (saved l t file hs) (record {
          before = before;
          after = w;
          response = resp;
          is_sent = is_sent;
          is_success = is_success;
          content = c.content;
          is_body = c.is_body;
          generator = hs.0;
          is_written = c.digest_written;
          is_digest = refl;
          has_checksum = λ wanted.
              let (g, is_g, e) = is_for_checksum checksum resp.content_length o is_o wanted in
              let (h, written, same) = checksum_after _ c.content o hs.1 e c.checksum_is_written in
              (g, h, is_g, written, same);
          file = file;
          opened = u;
          is_created =
              (Ensures-change_error {Q = λ a b. t.create_temp w ≡ (ok a, b)} _ t.create_temp
                  (record { at = λ a b e. e })).at
                file u made;
          complete = x;
          is_in_file = c.writes_file;
          is_buffer = refl;
        }))))

  attempt_Ensures :
      (uri : String) (f : l.Function) (checksum : ExpectedChecksum l) (auth : AuthHeaders) (w : W)
      → Ensures w (attempt l t uri f checksum auth) (λ d v. IsDownload f checksum auth uri d)
  unfolding attempt
  attempt_Ensures uri f checksum auth w = Ensures-lift _ _ (λ _ _. Ensures-bind _ _ (λ resp u e.
      Ensures-if (nat_eq resp.status_code 200) (receive l t resp f checksum)
        (refuse_status l t uri resp)
        (receive_Ensures auth uri resp f checksum w u (send-eq-ok uri auth w e))
        (record { at = λ a v h. cc })))

  pub download_blob-IsDownload :
      (uri : String) (f : l.Function) (checksum : ExpectedChecksum l) (auth : AuthHeaders) (w : W)
      → Ensures w (download_blob l t uri f checksum auth) (λ d v.
        IsDownload f checksum auth uri d ⊎ ((e : Error) × (d.buffer ≡ t.buffer_from_error e)))
  unfolding download_blob
  download_blob-IsDownload uri f checksum auth w = record {
    at = λ d v h. go (attempt l t uri f checksum auth w) refl d v h;
  }
    where
      go :
          (r : Result (Downloaded l t) × W)
          → attempt l t uri f checksum auth w ≡ r
          → (d : Downloaded l t) (v : W) → as_download l t r ≡ (ok d, v)
          → IsDownload f checksum auth uri d ⊎ ((e : Error) × (d.buffer ≡ t.buffer_from_error e))
      go (ok x, u) p d v h = inl ((attempt_Ensures uri f checksum auth w).at d v (p ∙ h))
      go (err x e, u) p d v h = inr (e, cc h)
      go (panic, u) p d v h = cc

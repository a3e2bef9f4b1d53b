-- ===== src/Fetch/Http/Download.antt =====
-- `temporaryFile` and `downloadBlob` of pkg/fetch/http_fetcher.go: a body is streamed to a temporary
-- file while its digest and its checksum are computed.
pub mod Complete
pub mod Copied
pub mod Laws
use bb_remote_asset.Prelude.{
  String, Option, none, some, [], ◌∷◌, ◌==◌, nat_eq, if◌then◌else◌, concat,
}
use bb_remote_asset.Prelude.Int.{ℤ}
use bb_remote_asset.Prelude.Decimal.{decimal}
use bb_remote_asset.Prelude.Effect.{
  Code, ok, Error, Result, err, panic, status_error, Exec, pure, raise, lift, and_then, ◌>>=◌, ◌>>◌,
}
use bb_remote_asset.Storage.Libraries.{Libraries}
use bb_remote_asset.Storage.ActionCache.Value.{on_error, change_error}
use bb_remote_asset.Fetch.Http.Checksum.{ExpectedChecksum}
use bb_remote_asset.Fetch.Http.Headers.{AuthHeaders, apply_headers}
use bb_remote_asset.Fetch.Http.Client.{
  Stream, eof, failed, chunk, Response, Fallible, Transfer, on_failure, log_error,
}

module _ (l : Libraries) {W : Type 0} (t : Transfer l W) where
  open t use {
    Connection, File, new_request, do_request, close_body, create_temp, write_file, close_file,
    remove_file, file_name, is_not_exist, buffer_from_error, buffer_from_reader_at, bad_digest,
    printf,
  }

  abbrev close_outcome : Option Error → Option Error → Option Error
  close_outcome (some close_error) remove_error = some close_error
  close_outcome none none = none
  close_outcome none (some remove_error) =
      if is_not_exist remove_error then none else some remove_error

  -- `temporaryFile.Close`: the file is removed even if it cannot be closed.
  unfoldable pub close_temporary : File → Fallible W
  close_temporary file w =
      let (close_error, v) = close_file file w in
      let (remove_error, u) = remove_file file v in (close_outcome close_error remove_error, u)

  -- What `downloadBlob` returns: a buffer of the content, its digest and its checksum.
  pub record Downloaded : Type 0 where
    pub buffer : l.Buffer
    pub digest : l.Digest
    pub checksum : String

  abbrev pub wrapped : String → Error → Error
  wrapped message e = l.status_wrap_with_code e Code.internal message

  -- `Error downloading blob with URI %s: %v`
  abbrev pub log_download : String → String → W → W
  log_download uri reason =
      printf (concat ("Error downloading blob with URI " ∷ uri ∷ ": " ∷ reason ∷ []))

  -- The generators of the digest and, if there is one to compare with, of the checksum.
  abbrev pub Generators : Type 0
  Generators = l.Generator × Option l.Generator

  abbrev generator_for : Option l.Function → ℤ → Result (Option l.Generator)
  generator_for none size = panic
  generator_for (some f) size = ok (some (l.new_generator f size))

  abbrev pub checksum_generator : ExpectedChecksum l → ℤ → Result (Option l.Generator)
  checksum_generator checksum size =
      if checksum.0 == "" then ok none else generator_for checksum.1 size

  abbrev pub write_checksum : Option l.Generator → l.Bytes → Result (Option l.Generator)
  write_checksum none b = ok none
  write_checksum (some g) b = and_then (l.write g b) λ h. ok (some h)

  -- io.Copy to the io.MultiWriter of the file and the generators.
  unfoldable pub copy : File → Stream l.Bytes → Generators → Exec W Generators
  copy file eof gs = pure gs
  copy file (failed e) gs = raise e
  copy file (chunk b rest) gs = do
    _ ← write_file file b
    hasher ← lift (l.write gs.0 b)
    checksum ← lift (write_checksum gs.1 b)
    copy file rest (hasher, checksum)

  -- The body is closed before its digest counts.
  abbrev pub closed : Option Error × W → Result (Unit {0}) × W
  closed (none, w) = (ok tt, w)
  closed (some e, w) = (err none e, w)

  abbrev pub checksum_of : Option l.Generator → String
  checksum_of none = ""
  checksum_of (some g) = (l.get_proto (l.sum g)).hash

  -- The body, to the file.
  unfoldable pub save_body :
      Response l.Bytes Connection → File → l.Function → ExpectedChecksum l → Exec W Generators
  unfolding copy
  save_body resp file digest_function checksum = do
    generator ← lift (checksum_generator checksum resp.content_length)
    gs ←
        change_error (wrapped "Failed to read response body")
          (copy file resp.stream (l.new_generator digest_function resp.content_length, generator))
    _ ←
        change_error (wrapped "Failed to close response body")
          (λ w. closed (close_body resp.connection w))
    pure gs

  -- `Failed to close temporary file %s: %v`
  abbrev pub log_close : File → Option Error × W → W
  log_close file (none, w) = w
  log_close file (some e, w) =
      printf
        (concat ("Failed to close temporary file " ∷ file_name file ∷ ": " ∷ l.error_text e ∷ [])) w

  -- The buffer takes the file over, and closes it.
  unfoldable pub saved : File → Generators → Downloaded
  unfolding close_temporary
  saved file gs = record {
    buffer =
        buffer_from_reader_at file (close_temporary file) (l.get_proto (l.sum gs.0)).size_bytes;
    digest = l.sum gs.0;
    checksum = checksum_of gs.1;
  }

  -- From the temporary file on. It is closed if the body cannot be saved.
  unfoldable pub save :
      Response l.Bytes Connection → File → l.Function → ExpectedChecksum l → Exec W Downloaded
  unfolding save_body close_temporary saved
  save resp file digest_function checksum = do
    gs ←
        on_failure (λ w. log_close file (close_temporary file w))
          (save_body resp file digest_function checksum)
    pure (saved file gs)

  -- From the response with the status 200 on. Unless it has been closed, the body is.
  unfoldable pub receive :
      Response l.Bytes Connection → l.Function → ExpectedChecksum l → Exec W Downloaded
  unfolding save
  receive resp digest_function checksum =
      on_failure (λ w. (close_body resp.connection w).1)
        (do
          file ← change_error (wrapped "Failed to create temporary file") create_temp
          save resp file digest_function checksum)

  abbrev pub refuse_status : String → Response l.Bytes Connection → Exec W Downloaded
  refuse_status uri resp w = (
    err none (
        status_error Code.internal
          (concat ("HTTP request failed with status " ∷ l.quoted resp.status ∷ []))),
    log_download uri (decimal resp.status_code) w,
  )

  -- The request
  unfoldable pub send : String → AuthHeaders → Exec W (Response l.Bytes Connection)
  unfolding apply_headers
  send uri auth = change_error (wrapped "HTTP request failed") (λ w.
      log_error (λ e. log_download uri (l.error_text e))
        (do_request (apply_headers auth uri (record { uri = uri; headers = [] })) w))

  -- The request and the check of its status.
  unfoldable pub attempt :
      String → l.Function → ExpectedChecksum l → AuthHeaders → Exec W Downloaded
  unfolding receive send
  attempt uri digest_function checksum auth = do
    _ ← lift (on_error (wrapped "Failed to create HTTP request") (new_request uri))
    resp ← send uri auth
    if nat_eq resp.status_code 200
        then receive resp digest_function checksum
        else refuse_status uri resp

  -- A failure is a buffer that has the error.
  abbrev pub as_download : Result Downloaded × W → Result Downloaded × W
  as_download (ok d, w) = (ok d, w)
  as_download (err _ e, w) =
      (ok (record { buffer = buffer_from_error e; digest = bad_digest; checksum = "" }), w)
  as_download (panic, w) = (panic, w)

  -- `downloadBlob`
  unfoldable pub download_blob :
      String → l.Function → ExpectedChecksum l → AuthHeaders → Exec W Downloaded
  unfolding attempt
  download_blob uri digest_function checksum auth w =
      as_download (attempt uri digest_function checksum auth w)

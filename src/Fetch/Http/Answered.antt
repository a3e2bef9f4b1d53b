-- ===== src/Fetch/Http/Answered.antt =====
-- A fetch over HTTP goes on to the first URI that answers.
use bb_remote_asset.Prelude.{
  ℕ, String, ◌≡◌, refl, ap, ◌∙◌, false, not, ◌&&◌, Option, none, some, List, [], ◌∷◌, ◌++◌, ◌==◌,
  sym, subst, true, inl, inr, Bool-cases, eq_refl, arith, ◌⊎◌, nat_eq, if◌then◌else◌, All,
}
use bb_remote_asset.Prelude.Effect.{ok, Error, Result, err, panic, Exec, continue, ◌>>=◌}
use bb_remote_asset.Storage.Libraries.{Libraries, BlobAccess}
use bb_remote_asset.Storage.ActionCache.Value.{on_error}
use bb_remote_asset.Fetch.Interface.{FetchRequest, FetchBlobResponse}
use bb_remote_asset.Fetch.Utils.{get_digest_function}
use bb_remote_asset.Fetch.Http.Checksum.{ExpectedChecksum, get_checksum_sri}
use bb_remote_asset.Fetch.Http.Headers.{AuthHeaders, apply_headers, get_auth_headers}
use bb_remote_asset.Fetch.Http.Client.{Response, Transfer, log_error}
use bb_remote_asset.Fetch.Http.Download.{
  checksum_generator, checksum_of, saved, close_temporary, wrapped, Downloaded, log_download,
  receive, refuse_status, send, attempt, as_download, download_blob,
}
use bb_remote_asset.Prelude.Int.{ℤ}
use bb_remote_asset.Fetch.Http.Download.Copied.{chunks_of, written_to, ChecksumWritten}
use bb_remote_asset.Fetch.Http.Download.Complete.{TakesBodies, download_blob-eq-ok}
use bb_remote_asset.Fetch.Http.{response, place, keep, on_size, try_uris, fetch_blob}

module _ (l : Libraries) {W : Type 0} (t : Transfer l W)
    (content_addressable_storage : BlobAccess l.Digest l.Buffer W)
    (error_has_no_size : (e : Error) → l.get_size_bytes (t.buffer_from_error e) ≡ err none e) where
  abbrev IsRefusal : Result (Response l.Bytes t.Connection) × W → Type 0
  IsRefusal (ok resp, v) = nat_eq resp.status_code 200 ≡ false
  IsRefusal (err _ _, v) = Unit
  IsRefusal (panic, v) = ⊥

  -- No request for the URI is answered by the status 200.
  pub record Refuses (uri : String) : Type 0 where
    pub is_requested : t.new_request uri ≡ ok tt
    pub is_refused :
        (headers : List (String × String)) (w : W)
        → IsRefusal (t.do_request (record { uri = uri; headers = headers }) w)

  -- The download has no buffer but an error.
  abbrev IsFailed : Result (Downloaded l t) × W → Type 0
  IsFailed (ok d, v) = (e : Error) × (d.buffer ≡ t.buffer_from_error e)
  IsFailed (err _ _, v) = ⊥
  IsFailed (panic, v) = ⊥

  module _ (f : l.Function) (checksum : ExpectedChecksum l) (auth : AuthHeaders) where
    refusal-IsFailed :
        (uri : String) (p : Result (Response l.Bytes t.Connection) × W)
        → IsRefusal p
        → IsFailed (
            as_download l t (
              continue
                (
                  on_error
                      (wrapped l t "HTTP request failed")
                      (log_error (λ e. log_download l t uri (l.error_text e)) p).0,
                  (log_error (λ e. log_download l t uri (l.error_text e)) p).1,
                )
                (λ resp.
                  if nat_eq resp.status_code 200
                  then receive l t resp f checksum
                  else refuse_status l t uri resp)))
    refusal-IsFailed uri (ok resp, v) refused = rw refused (_, refl)
    refusal-IsFailed uri (err x e, v) refused = (_, refl)
    refusal-IsFailed uri (panic, v) refused = absurd refused

    download_blob-IsFailed :
        (uri : String) (w : W) → Refuses uri → IsFailed (download_blob l t uri f checksum auth w)
    unfolding download_blob attempt send apply_headers ◌>>=◌
    download_blob-IsFailed uri w refuses =
        rw refuses.is_requested (refusal-IsFailed uri (t.do_request _ w) (refuses.is_refused _ w))

    -- What comes of a download for the URI in the world `w`: a blob of a size, with the checksum if
    -- there is one, which the CAS takes.
    record IsAnswered (uri : String) (w : W) : Type 0 where
      pub download : Downloaded l t
      pub after : W
      pub size : ℕ
      pub is_downloaded : download_blob l t uri f checksum auth w ≡ (ok download, after)
      pub has_size : l.get_size_bytes download.buffer ≡ ok size
      pub agrees : (not (checksum.0 == "") && not (download.checksum == checksum.0)) ≡ false
      pub is_taken :
          (content_addressable_storage.put download.digest download.buffer after).0 ≡ ok tt

    -- The buffer on a temporary file.
    abbrev pub buffer_on : t.File → l.Digest → l.Buffer
    buffer_on file d =
        t.buffer_from_reader_at file (close_temporary l t file) (l.get_proto d).size_bytes

    -- The content is what the checksum is for, if the request has one.
    abbrev pub HasChecksum : ℤ → List l.Bytes → Type 0
    HasChecksum size content =
        ((checksum.0 == "") ≡ true)
        ⊎ ((g : l.Function) × (h : l.Generator) × (checksum.1 ≡ some g)
            × (written_to l (l.new_generator g size) content ≡ ok h)
            × ((l.get_proto (l.sum h)).hash ≡ checksum.0))

    -- In every world the server answers a request for the URI, with the headers for it, by the
    -- status 200 and a body of this content that ends without an error. The content has a digest
    -- and the checksum, and a buffer on a file has a size and is taken by the CAS under the digest.
    pub record Answers (uri : String) : Type 0 where
      pub is_requested : t.new_request uri ≡ ok tt
      pub content : List l.Bytes
      pub content_length : ℤ
      pub is_sent :
          (w : W)
          → (resp : Response l.Bytes t.Connection) × (v : W) × (t.do_request
                (apply_headers auth uri (record { uri = uri; headers = [] }))
                w
              ≡ (ok resp, v))
            × (nat_eq resp.status_code 200 ≡ true)
            × (chunks_of resp.stream ≡ some content)
            × (resp.content_length ≡ content_length)
      pub generator : l.Generator
      pub is_digested : written_to l (l.new_generator f content_length) content ≡ ok generator
      pub has_checksum : HasChecksum content_length content
      pub size : ℕ
      pub has_size : (file : t.File) → l.get_size_bytes (buffer_on file (l.sum generator)) ≡ ok size
      pub is_taken :
          (file : t.File) (w : W)
          → (content_addressable_storage.put
              (l.sum generator)
              (buffer_on file (l.sum generator))
              w).0
            ≡ ok tt

    -- The generators of the checksum before and after the content, which has it.
    checksum_generators :
        (n : ℤ) (content : List l.Bytes)
        → HasChecksum n content
        → (o : Option l.Generator) × (x : Option l.Generator) × (checksum_generator l t checksum n
            ≡ ok o)
          × ChecksumWritten l o content x
          × ((not (checksum.0 == "") && not (checksum_of l t x == checksum.0)) ≡ false)
    checksum_generators n content (inl unwanted) =
        (none, none, rw unwanted refl, refl, rw unwanted refl)
    checksum_generators n content (inr (g, h, is_g, written, same)) =
        elim (Bool-cases (checksum.0 == "")) [
          | inl unwanted ↦ (none, none, rw unwanted refl, refl, rw unwanted refl)
          | inr wanted ↦ (
            some (l.new_generator g n),
            some h,
            rw (wanted, is_g) refl,
            (h, refl, written),
            rw same (ground (arith, eq_refl checksum.0)),
          )
        ]

    answered : (uri : String) → TakesBodies l t → Answers uri → (w : W) → IsAnswered uri w
    unfolding saved close_temporary
    answered uri takes a w =
        let (resp, u, is_sent, success, is_body, same) = a.is_sent w in
        let (o, x, is_o, written, agrees) =
          checksum_generators resp.content_length a.content
            (subst (λ n. HasChecksum n a.content) (sym same) a.has_checksum) in
        let digested =
          subst (λ n. written_to l (l.new_generator f n) a.content ≡ ok a.generator) (sym same)
            a.is_digested in
        let (file, v, e) =
          download_blob-eq-ok l t takes uri f checksum auth resp a.content a.generator o x w u
            a.is_requested is_sent success is_body digested is_o written in
        record {
          download = saved l t file (a.generator, x);
          after = v;
          size = a.size;
          is_downloaded = e;
          has_size = a.has_size file;
          agrees = agrees;
          is_taken = a.is_taken file v;
        }

    abbrev Responds : FetchRequest → String → Exec W FetchBlobResponse → W → Type 0
    Responds req uri m w =
        (d : l.Digest) × ((m w).0 ≡ ok (response l t content_addressable_storage req uri d))

    keep-Responds :
        (req : FetchRequest) (uri : String) (w : W) (a : IsAnswered uri w)
        → Responds req uri
            (keep l t content_addressable_storage req checksum uri a.download)
            a.after
    unfolding keep place ◌>>=◌
    keep-Responds req uri w a = (a.download.digest, rw (a.agrees, taken) refl)
      where
        taken : content_addressable_storage.put a.download.digest a.download.buffer a.after ≡ (
          ok tt,
          (content_addressable_storage.put a.download.digest a.download.buffer a.after).1,
        )
        taken i = (
          a.is_taken i,
          (content_addressable_storage.put a.download.digest a.download.buffer a.after).1,
        )

    after_failure-Responds :
        (req : FetchRequest) (uri : String) (p : Result (Downloaded l t) × W)
        (kept : Downloaded l t → Exec W FetchBlobResponse) (next : Error → Exec W FetchBlobResponse)
        → IsFailed p
        → ((e : Error) (u : W) → Responds req uri (next e) u)
        → Responds req uri
            (λ _. continue p (λ d.
              on_size l t content_addressable_storage (l.get_size_bytes d.buffer) (kept d) next))
            p.1
    after_failure-Responds req uri (ok d, v) kept next (e, is_error) k =
        rw (ap l.get_size_bytes is_error ∙ error_has_no_size e) (k e v)
    after_failure-Responds req uri (err x e, v) kept next none_left k = absurd none_left
    after_failure-Responds req uri (panic, v) kept next none_left k = absurd none_left

    try_uris-Responds :
        (req : FetchRequest) (refusing : List String) (uri : String) (rest : List String)
        (last : Option Error) (w : W)
        → All Refuses refusing
        → ((u : W) → IsAnswered uri u)
        → Responds req uri
            (try_uris l t content_addressable_storage req f checksum auth
              (refusing ++ uri ∷ rest)
              last)
            w
    unfolding try_uris ◌>>=◌
    try_uris-Responds req [] uri rest last w none_refuse answers =
        let a = answers w in rw (a.is_downloaded, a.has_size) (keep-Responds req uri w a)
    try_uris-Responds req (first ∷ refusing) uri rest last w (refuses, refuse) answers =
        after_failure-Responds req uri (download_blob l t first f checksum auth w) _ _
          (download_blob-IsFailed first w refuses)
          (λ e u.
            try_uris-Responds req refusing uri rest (some e)
              (log_download l t first (l.error_text e) u) refuse answers)

    -- A FetchBlob over HTTP does not give up before a URI that answers: where every URI before it
    -- refuses, by an error of the request or by a status other than 200, the fetch succeeds with this
    -- URI, whatever follows it. The URI answers if the server sends for it, with the headers that are
    -- for it, the status 200 and a body that ends without an error, of which the digest can be
    -- computed, which has the checksum of the request if there is one, and whose buffer has a size and
    -- is taken by the CAS. Temporary files can be made and written to, and bodies closed. The digest
    -- function, the checksum and the headers of the request are valid, and a buffer on an error has no
    -- size.
    pub fetch_blob-Responds :
        (req : FetchRequest) (refusing : List String) (uri : String) (rest : List String) (w : W)
        → get_digest_function l req.digest_function req.instance_name ≡ ok f
        → get_checksum_sri l req.qualifiers ≡ ok checksum
        → get_auth_headers l t.unmarshal t.range req.uris req.qualifiers ≡ ok auth
        → req.uris ≡ refusing ++ uri ∷ rest
        → All Refuses refusing
        → TakesBodies l t
        → Answers uri
        → Responds req uri (fetch_blob l t content_addressable_storage req) w
    unfolding fetch_blob ◌>>=◌
    fetch_blob-Responds req refusing uri rest w is_f is_checksum is_auth uris refuse takes answers =
        let (d, e) =
          try_uris-Responds req refusing uri rest none w refuse (answered uri takes answers) in
        (
          d,
          rw (is_f, is_checksum, is_auth)
                (ap
                  (λ us. (try_uris l t content_addressable_storage req f checksum auth us none w).0)
                  uris)
              ∙ e,
        )

-- ===== src/Fetch/Http/Download/Complete.antt =====
-- `downloadBlob` succeeds where the server sends a whole body and the temporary file takes it.
use mathlib.Core.Option
use bb_remote_asset.Prelude.{
  String, ◌≡◌, refl, sym, subst, true, Option, none, some, List, [], ◌∷◌, nat_eq,
}
use bb_remote_asset.Prelude.Effect.{ok, ◌>>=◌, ok_injective, and_then-eq-ok}
use bb_remote_asset.Storage.Libraries.{Libraries}
use bb_remote_asset.Fetch.Http.Checksum.{ExpectedChecksum}
use bb_remote_asset.Fetch.Http.Headers.{AuthHeaders, apply_headers}
use bb_remote_asset.Fetch.Http.Client.{Stream, eof, failed, chunk, Response, Transfer}
use bb_remote_asset.Fetch.Http.Download.{
  checksum_generator, write_checksum, copy, save_body, saved, save, receive, send, attempt,
  download_blob,
}
use bb_remote_asset.Fetch.Http.Download.Copied.{chunks_of, written_to, ChecksumWritten}

module _ (l : Libraries) {W : Type 0} (t : Transfer l W) where
  -- Temporary files can be made and written to, and bodies closed.
  pub record TakesBodies : Type 0 where
    pub creates : (w : W) → (file : t.File) × (v : W) × (t.create_temp w ≡ (ok file, v))
    pub writes :
        (file : t.File) (b : l.Bytes) (w : W) → (v : W) × (t.write_file file b w ≡ (ok tt, v))
    pub closes : (c : t.Connection) (w : W) → (v : W) × (t.close_body c w ≡ (none, v))

  checksum_step :
      (o : Option l.Generator) (b : l.Bytes) (bs : List l.Bytes) (x : Option l.Generator)
      → ChecksumWritten l o (b ∷ bs) x
      → (n : Option l.Generator) × (write_checksum l t o b ≡ ok n) × ChecksumWritten l n bs x
  checksum_step none b bs x c = (none, refl, c)
  checksum_step (some k) b bs x (h, is_h, e) =
      let (n, p, q) = and_then-eq-ok (l.write k b) _ e in (some n, rw p refl, (h, is_h, q))

  module _ (takes : TakesBodies) where
    -- A body that ends without an error is copied.
    copy-eq-ok :
        (file : t.File) (s : Stream l.Bytes) (content : List l.Bytes) (g h : l.Generator)
        (o x : Option l.Generator) (w : W)
        → chunks_of s ≡ some content
        → written_to l g content ≡ ok h
        → ChecksumWritten l o content x
        → (v : W) × (copy l t file s (g, o) w ≡ (ok (h, x), v))
    unfolding copy ◌>>=◌
    copy-eq-ok file eof content g h o x w e written c =
        let is_nil : content ≡ [] = cc e in
        let same : g ≡ h = ok_injective (subst (λ bs. written_to l g bs ≡ ok h) is_nil written) in
        (w, rw (same, same_checksum o (subst (λ bs. ChecksumWritten l o bs x) is_nil c)) refl)
      where
        same_checksum : (o : Option l.Generator) → ChecksumWritten l o [] x → o ≡ x
        same_checksum none c = sym c
        same_checksum (some k) (h, is_h, e) = cc
    copy-eq-ok file (failed y) content g h o x w e written c = cc e
    copy-eq-ok file (chunk b rest) content g h o x w e written c =
        go (chunks_of rest) refl e λ bs k n u. copy-eq-ok file rest bs k h n x u
      where
        go :
            (r : Option (List l.Bytes))
            → chunks_of rest ≡ r
            → Option.map (λ bs. b ∷ bs) r ≡ some content
            → ((bs : List l.Bytes) (k : l.Generator) (n : Option l.Generator) (u : W)
                → chunks_of rest ≡ some bs
                → written_to l k bs ≡ ok h
                → ChecksumWritten l n bs x
                → (v : W) × (copy l t file rest (k, n) u ≡ (ok (h, x), v)))
            → (v : W) × (copy l t file (chunk b rest) (g, o) w ≡ (ok (h, x), v))
        go none p q ih = cc q
        go (some bs) p q ih =
            let is_cons : content ≡ b ∷ bs = cc q in
            let (k, is_k, more) =
              and_then-eq-ok (l.write g b) _
                (subst (λ ds. written_to l g ds ≡ ok h) is_cons written) in
            let (n, is_n, others) =
              checksum_step o b bs x (subst (λ ds. ChecksumWritten l o ds x) is_cons c) in
            let (u, is_u) = takes.writes file b w in
            let (v, is_v) = ih bs k n u p more others in (v, rw (is_u, is_k, is_n) is_v)

    -- The body of the response is saved.
    save_body-eq-ok :
        (resp : Response l.Bytes t.Connection) (file : t.File) (f : l.Function)
        (checksum : ExpectedChecksum l) (content : List l.Bytes) (h : l.Generator)
        (o x : Option l.Generator) (w : W)
        → chunks_of resp.stream ≡ some content
        → written_to l (l.new_generator f resp.content_length) content ≡ ok h
        → checksum_generator l t checksum resp.content_length ≡ ok o
        → ChecksumWritten l o content x
        → (v : W) × (save_body l t resp file f checksum w ≡ (ok (h, x), v))
    unfolding save_body ◌>>=◌
    save_body-eq-ok resp file f checksum content h o x w is_body written is_o c =
        let (u, is_u) = copy-eq-ok file resp.stream content _ h o x w is_body written c in
        let (v, is_v) = takes.closes resp.connection u in (v, rw (is_o, is_u, is_v) refl)

    receive-eq-ok :
        (resp : Response l.Bytes t.Connection) (f : l.Function) (checksum : ExpectedChecksum l)
        (content : List l.Bytes) (h : l.Generator) (o x : Option l.Generator) (w : W)
        → chunks_of resp.stream ≡ some content
        → written_to l (l.new_generator f resp.content_length) content ≡ ok h
        → checksum_generator l t checksum resp.content_length ≡ ok o
        → ChecksumWritten l o content x
        → (file : t.File) × (v : W) × (receive l t resp f checksum w
            ≡ (ok (saved l t file (h, x)), v))
    unfolding receive save ◌>>=◌
    receive-eq-ok resp f checksum content h o x w is_body written is_o c =
        let (file, u, is_u) = takes.creates w in
        let (v, is_v) =
          save_body-eq-ok resp file f checksum content h o x u is_body written is_o c in
        (file, v, rw (is_u, is_v) refl)

    -- The server answers by 200 and a body that ends without an error.
    pub download_blob-eq-ok :
        (uri : String) (f : l.Function) (checksum : ExpectedChecksum l) (auth : AuthHeaders)
        (resp : Response l.Bytes t.Connection) (content : List l.Bytes) (h : l.Generator)
        (o x : Option l.Generator) (w u : W)
        → t.new_request uri ≡ ok tt
        → t.do_request (apply_headers auth uri (record { uri = uri; headers = [] })) w
          ≡ (ok resp, u)
        → nat_eq resp.status_code 200 ≡ true
        → chunks_of resp.stream ≡ some content
        → written_to l (l.new_generator f resp.content_length) content ≡ ok h
        → checksum_generator l t checksum resp.content_length ≡ ok o
        → ChecksumWritten l o content x
        → (file : t.File) × (v : W) × (download_blob l t uri f checksum auth w
            ≡ (ok (saved l t file (h, x)), v))
    unfolding download_blob attempt send ◌>>=◌
    download_blob-eq-ok uri f checksum auth resp content h o x w u is_new is_sent success is_body
          written is_o c =
        let (file, v, e) = receive-eq-ok resp f checksum content h o x u is_body written is_o c in
        (file, v, rw (is_new, is_sent, success, e) refl)

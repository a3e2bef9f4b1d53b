-- ===== src/Fetch/Http/Download/Copied.antt =====
-- What has been read of a body was written to the generators.
use mathlib.Core.Option
use bb_remote_asset.Prelude.{◌≡◌, refl, sym, subst, Option, none, some, List, [], ◌∷◌}
use bb_remote_asset.Prelude.Effect.{
  ok, ok_injective, Result, and_then, and_then-eq-ok, Ensures, Ensures-bind, Ensures-lift,
  Ensures-pure, Ensures-raise,
}
use bb_remote_asset.Storage.Libraries.{Libraries}
use bb_remote_asset.Fetch.Http.Client.{Stream, eof, failed, chunk, Transfer}
use bb_remote_asset.Fetch.Http.Download.{Generators, write_checksum, copy}

-- The chunks of a body that ends without an error.
abbrev pub chunks_of : {Bytes : Type 0} → Stream Bytes → Option (List Bytes)
chunks_of eof = some []
chunks_of (failed e) = none
chunks_of (chunk b rest) = Option.map (λ bs. b ∷ bs) (chunks_of rest)

module _ (l : Libraries) where
  -- A generator after it was written to.
  abbrev pub written_to : l.Generator → List l.Bytes → Result l.Generator
  written_to g [] = ok g
  written_to g (b ∷ bs) = and_then (l.write g b) λ h. written_to h bs

  -- The generator of the checksum, if there is one, after the same.
  abbrev pub ChecksumWritten : Option l.Generator → List l.Bytes → Option l.Generator → Type 0
  ChecksumWritten none bs o = o ≡ none
  ChecksumWritten (some g) bs o = (h : l.Generator) × (o ≡ some h) × (written_to g bs ≡ ok h)

  module _ {W : Type 0} (t : Transfer l W) where
    -- From the world `w`, the chunks are written to the file in their order, and every write
    -- succeeds; `v` is the world after the last one.
    abbrev pub WritesFile : t.File → List l.Bytes → W → W → Type 0
    WritesFile file [] w v = w ≡ v
    WritesFile file (b ∷ bs) w v =
        (u : W) × (t.write_file file b w ≡ (ok tt, u)) × WritesFile file bs u v

    -- From the world `w` on, the whole body was written to the file and to the generators `gs`, and
    -- `v` and `hs` are what they are after it.
    pub record IsCopied (file : t.File) (s : Stream l.Bytes) (gs : Generators l t) (w v : W)
        (hs : Generators l t) : Type 0 where
      pub content : List l.Bytes
      pub writes_file : WritesFile file content w v
      pub is_body : chunks_of s ≡ some content
      pub digest_written : written_to gs.0 content ≡ ok hs.0
      pub checksum_is_written : ChecksumWritten gs.1 content hs.1

    checksum_more :
        (r : Option l.Generator) (b : l.Bytes) (bs : List l.Bytes) (o x : Option l.Generator)
        → write_checksum l t r b ≡ ok o
        → ChecksumWritten o bs x
        → ChecksumWritten r (b ∷ bs) x
    checksum_more none b bs o x q c = subst (λ y. ChecksumWritten y bs x) (sym (ok_injective q)) c
    checksum_more (some k) b bs o x q c =
        let (h, written, e) = and_then-eq-ok (l.write k b) _ q in
        let (y, is_y, more) = subst (λ y. ChecksumWritten y bs x) (sym (ok_injective e)) c in
        (y, is_y, rw written more)

    IsCopied-chunk :
        (file : t.File) (b : l.Bytes) (rest : Stream l.Bytes) (gs hs : Generators l t)
        (g : l.Generator) (o : Option l.Generator) (w u v : W)
        → t.write_file file b w ≡ (ok tt, u)
        → l.write gs.0 b ≡ ok g
        → write_checksum l t gs.1 b ≡ ok o
        → IsCopied file rest (g, o) u v hs
        → IsCopied file (chunk b rest) gs w v hs
    IsCopied-chunk file b rest gs hs g o w u v e p q c = record {
      content = b ∷ c.content;
      writes_file = (u, e, c.writes_file);
      is_body = rw c.is_body refl;
      digest_written = rw p c.digest_written;
      checksum_is_written = checksum_more gs.1 b c.content o hs.1 q c.checksum_is_written;
    }

    pub copy_Ensures :
        (file : t.File) (s : Stream l.Bytes) (gs : Generators l t) (w : W)
        → Ensures w (copy l t file s gs) (λ hs v. IsCopied file s gs w v hs)
    unfolding copy
    copy_Ensures file eof (g, none) w = Ensures-pure _ (record {
      content = [];
      writes_file = refl;
      is_body = refl;
      digest_written = refl;
      checksum_is_written = refl;
    })
    copy_Ensures file eof (g, some k) w = Ensures-pure _ (record {
      content = [];
      writes_file = refl;
      is_body = refl;
      digest_written = refl;
      checksum_is_written = (k, refl, refl);
    })
    copy_Ensures file (failed e) gs w = Ensures-raise e
    copy_Ensures file (chunk b rest) gs w = Ensures-bind (t.write_file file b) _ (λ _ u e.
        Ensures-lift (l.write gs.0 b) _ (λ g p. Ensures-lift (write_checksum l t gs.1 b) _ (λ o q.
          record {
            at = λ hs v h.
                IsCopied-chunk file b rest gs hs g o w u v e p q
                  ((copy_Ensures file rest (g, o) u).at hs v h);
          })))

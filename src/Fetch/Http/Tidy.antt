-- ===== src/Fetch/Http/Tidy.antt =====
-- What temporary files a fetch over HTTP may leave, and what does not touch them.
pub mod Held
pub mod Fetched
use bb_remote_asset.Prelude.{ℕ, String, ◌≡◌, refl, ◌∙◌, none, List, ◌∷◌}
use bb_remote_asset.Prelude.Int.{ℤ}
use bb_remote_asset.Prelude.Effect.{ok, Error, Result, err, panic, Exec, lift, continue, ◌>>=◌}
use bb_remote_asset.Storage.Libraries.{Libraries, BlobAccess}
use bb_remote_asset.Storage.ActionCache.Value.{change_error}
use bb_remote_asset.Fetch.Http.Headers.{Request}
use bb_remote_asset.Fetch.Http.Client.{Fallible, Transfer}

module _ {W F : Type 0} (temps : W → F) where
  -- The action leaves alone what `temps` shows of the world.
  pub record Leaves {A : Type 0} (m : Exec W A) : Type 0 where
    pub at : (w : W) → temps (m w).1 ≡ temps w

module _ {W F : Type 0} {temps : W → F} where
  pub Leaves-lift : {A : Type 0} (r : Result A) → Leaves temps (lift r)
  Leaves-lift r = record { at = λ w. refl }

  pub Leaves-bind :
      {A B : Type 0} {m : Exec W A} {f : A → Exec W B}
      → Leaves temps m
      → ((a : A) → Leaves temps (f a))
      → Leaves temps (m >>= f)
  unfolding ◌>>=◌
  Leaves-bind {A} {B} {m} {f} p q = record { at = λ w. go (m w) ∙ p.at w }
    where
      go : (r : Result A × W) → temps (continue r f).1 ≡ temps r.1
      go (ok a, v) = (q a).at v
      go (err x e, v) = refl
      go (panic, v) = refl

  pub Leaves-change_error :
      {A : Type 0} (change : Error → Error) {m : Exec W A}
      → Leaves temps m
      → Leaves temps (change_error change m)
  Leaves-change_error change p = record { at = p.at }

module _ (l : Libraries) {W : Type 0} (t : Transfer l W)
    (content_addressable_storage : BlobAccess l.Digest l.Buffer W) (temps : W → List t.File) where
  -- What a call of os.CreateTemp leaves: one more file, or none if it fails.
  abbrev pub IsCreated : List t.File → Result t.File × W → Type 0
  IsCreated fs (ok file, v) = temps v ≡ file ∷ fs
  IsCreated fs (err _ _, v) = temps v ≡ fs
  IsCreated fs (panic, v) = temps v ≡ fs

  -- What is documented of the file system, as far as temporary files go, and of the buffers: one
  -- on a file has a size, one on an error does not, and a put or a discard closes its reader.
  pub record HandlesFiles : Type 0 where
    pub created : (w : W) → IsCreated (temps w) (t.create_temp w)
    pub removed :
        (file : t.File) (fs : List t.File) (w : W)
        → temps w ≡ file ∷ fs
        → temps (t.remove_file file w).1 ≡ fs
    pub request_keeps : (r : Request) (w : W) → temps (t.do_request r w).1 ≡ temps w
    pub close_body_keeps : (c : t.Connection) (w : W) → temps (t.close_body c w).1 ≡ temps w
    pub write_keeps :
        (file : t.File) (b : l.Bytes) (w : W) → temps (t.write_file file b w).1 ≡ temps w
    pub close_file_keeps : (file : t.File) (w : W) → temps (t.close_file file w).1 ≡ temps w
    pub printf_keeps : (line : String) (w : W) → temps (t.printf line w) ≡ temps w
    pub error_has_no_size : (e : Error) → l.get_size_bytes (t.buffer_from_error e) ≡ err none e
    pub file_has_size :
        (file : t.File) (close : Fallible W) (size : ℤ)
        → (n : ℕ) × (l.get_size_bytes (t.buffer_from_reader_at file close size) ≡ ok n)
    pub put_closes :
        (d : l.Digest) (file : t.File) (close : Fallible W) (size : ℤ) (w : W)
        → temps (content_addressable_storage.put d (t.buffer_from_reader_at file close size) w).1
          ≡ temps (close w).1
    pub discard_closes :
        (file : t.File) (close : Fallible W) (size : ℤ) (w : W)
        → temps (t.discard (t.buffer_from_reader_at file close size) w) ≡ temps (close w).1

-- ===== src/Fetch/Http/Tidy/Held.antt =====
-- A download owns its temporary file, or has closed it.
use bb_remote_asset.Prelude.{
  String, ◌≡◌, refl, ◌∙◌, subst, ◌⊎◌, inl, inr, Bool, true, false, Option, none, some, List, ◌∷◌,
  nat_eq, if◌then◌else◌,
}
use bb_remote_asset.Prelude.Int.{ℤ}
use bb_remote_asset.Prelude.Effect.{ok, Error, Result, err, panic, Exec, pure, continue, ◌>>=◌}
use bb_remote_asset.Storage.Libraries.{Libraries, BlobAccess}
use bb_remote_asset.Storage.ActionCache.Value.{on_error}
use bb_remote_asset.Fetch.Http.Checksum.{ExpectedChecksum}
use bb_remote_asset.Fetch.Http.Headers.{AuthHeaders}
use bb_remote_asset.Fetch.Http.Client.{
  Stream, eof, failed, chunk, Response, Transfer, after_failure, log_error,
}
use bb_remote_asset.Fetch.Http.Download.{
  close_temporary, Downloaded, log_download, Generators, copy, closed, save_body, log_close, saved,
  save, receive, refuse_status, send, attempt, as_download,
}
use bb_remote_asset.Fetch.Http.Tidy.{
  Leaves, Leaves-lift, Leaves-bind, Leaves-change_error, IsCreated, HandlesFiles,
}

module _ (l : Libraries) {W : Type 0} (t : Transfer l W)
    (content_addressable_storage : BlobAccess l.Digest l.Buffer W) (temps : W → List t.File)
    (h : HandlesFiles l t content_addressable_storage temps) where
  Leaves-copy :
      (file : t.File) (s : Stream l.Bytes) (gs : Generators l t) → Leaves temps (copy l t file s gs)
  unfolding copy
  Leaves-copy file eof gs = record { at = λ w. refl }
  Leaves-copy file (failed e) gs = record { at = λ w. refl }
  Leaves-copy file (chunk b rest) gs =
      Leaves-bind (record { at = h.write_keeps file b })
        (λ _. Leaves-bind (Leaves-lift _) (λ hasher.
          Leaves-bind (Leaves-lift _) (λ checksum. Leaves-copy file rest (hasher, checksum))))

  closed-keeps : (r : Option Error × W) → temps (closed l t r).1 ≡ temps r.1
  closed-keeps (none, w) = refl
  closed-keeps (some e, w) = refl

  Leaves-save_body :
      (resp : Response l.Bytes t.Connection) (file : t.File) (f : l.Function)
      (checksum : ExpectedChecksum l)
      → Leaves temps (save_body l t resp file f checksum)
  unfolding save_body
  Leaves-save_body resp file f checksum = Leaves-bind (Leaves-lift _) (λ g.
      Leaves-bind (Leaves-change_error _ (Leaves-copy file resp.stream _)) (λ gs.
        Leaves-bind
          (Leaves-change_error _ (record {
            at = λ w.
                closed-keeps (t.close_body resp.connection w)
                ∙ h.close_body_keeps resp.connection w;
          }))
          (λ _. record { at = λ w. refl })))

  pub close_temporary-removes :
      (file : t.File) (fs : List t.File) (w : W)
      → temps w ≡ file ∷ fs
      → temps (close_temporary l t file w).1 ≡ fs
  unfolding close_temporary
  close_temporary-removes file fs w e = h.removed file fs _ (h.close_file_keeps file w ∙ e)

  log_close-keeps :
      (file : t.File) (r : Option Error × W) → temps (log_close l t file r) ≡ temps r.1
  log_close-keeps file (none, w) = refl
  log_close-keeps file (some e, w) = h.printf_keeps _ w

  -- The download is a buffer on a file that it owns.
  abbrev pub Owns : List t.File → Downloaded l t → W → Type 0
  Owns fs d v =
      (file : t.File) × (size : ℤ) × (d.buffer
        ≡ t.buffer_from_reader_at file (close_temporary l t file) size)
      × (temps v ≡ file ∷ fs)

  abbrev pub Holds : List t.File → Result (Downloaded l t) × W → Type 0
  Holds fs (ok d, v) = Owns fs d v
  Holds fs (err _ _, v) = temps v ≡ fs
  Holds fs (panic, v) = temps v ≡ fs

  Holds-bind :
      {A : Type 0} (fs : List t.File) (r : Result A × W) (f : A → Exec W (Downloaded l t))
      → temps r.1 ≡ fs
      → ((a : A) (u : W) → temps u ≡ fs → Holds fs (f a u))
      → Holds fs (continue r f)
  Holds-bind fs (ok a, v) f e k = k a v e
  Holds-bind fs (err x y, v) f e k = e
  Holds-bind fs (panic, v) f e k = e

  -- The file is closed if the body was not saved, and is the buffer's if it was.
  saved_or_closed :
      (file : t.File) (fs : List t.File) (r : Result (Generators l t) × W)
      → temps r.1 ≡ file ∷ fs
      → Holds fs (
          continue
            (after_failure (λ w. log_close l t file (close_temporary l t file w)) r)
            (λ gs. pure (saved l t file gs)))
  unfolding saved
  saved_or_closed file fs (ok gs, v) e = (file, _, refl, e)
  saved_or_closed file fs (err x y, v) e =
      log_close-keeps file _ ∙ close_temporary-removes file fs v e
  saved_or_closed file fs (panic, v) e =
      log_close-keeps file _ ∙ close_temporary-removes file fs v e

  save-Holds :
      (resp : Response l.Bytes t.Connection) (file : t.File) (f : l.Function)
      (checksum : ExpectedChecksum l) (fs : List t.File) (w : W)
      → temps w ≡ file ∷ fs
      → Holds fs (save l t resp file f checksum w)
  unfolding save ◌>>=◌
  save-Holds resp file f checksum fs w e =
      saved_or_closed file fs (save_body l t resp file f checksum w)
        ((Leaves-save_body resp file f checksum).at w ∙ e)

  -- The deferred close of the body.
  body_closed :
      (fs : List t.File) (c : t.Connection) (r : Result (Downloaded l t) × W)
      → Holds fs r
      → Holds fs (after_failure (λ w. (t.close_body c w).1) r)
  body_closed fs c (ok d, v) k = k
  body_closed fs c (err x y, v) k = h.close_body_keeps c v ∙ k
  body_closed fs c (panic, v) k = h.close_body_keeps c v ∙ k

  after_creation :
      (fs : List t.File) (change : Error → Error) (r : Result t.File × W)
      (f : t.File → Exec W (Downloaded l t))
      → IsCreated l t content_addressable_storage temps fs r
      → ((file : t.File) (u : W) → temps u ≡ file ∷ fs → Holds fs (f file u))
      → Holds fs (continue (on_error change r.0, r.1) f)
  after_creation fs change (ok file, v) f e k = k file v e
  after_creation fs change (err x y, v) f e k = e
  after_creation fs change (panic, v) f e k = e

  receive-Holds :
      (resp : Response l.Bytes t.Connection) (f : l.Function) (checksum : ExpectedChecksum l)
      (fs : List t.File) (w : W)
      → temps w ≡ fs
      → Holds fs (receive l t resp f checksum w)
  unfolding receive ◌>>=◌
  receive-Holds resp f checksum fs w e = body_closed fs resp.connection _ (
      after_creation fs _ (t.create_temp w) _
        (subst (λ x. IsCreated l t content_addressable_storage temps x (t.create_temp w)) e
          (h.created w))
        (λ file u. save-Holds resp file f checksum fs u))

  pub logged-keeps :
      {A : Type 0} (uri : String) (r : Result A × W)
      → temps (log_error (λ e. log_download l t uri (l.error_text e)) r).1 ≡ temps r.1
  logged-keeps uri (ok a, v) = refl
  logged-keeps uri (err x e, v) = h.printf_keeps _ v
  logged-keeps uri (panic, v) = refl

  pub record HoldsAt (fs : List t.File) (m : Exec W (Downloaded l t)) (w : W) : Type 0 where
    pub at : Holds fs (m w)

  HoldsAt-bind :
      {A : Type 0} (fs : List t.File) (m : Exec W A) (f : A → Exec W (Downloaded l t)) (w : W)
      → Leaves temps m
      → temps w ≡ fs
      → ((a : A) (u : W) → temps u ≡ fs → HoldsAt fs (f a) u)
      → HoldsAt fs (m >>= f) w
  unfolding ◌>>=◌
  HoldsAt-bind fs m f w p e k = record {
    at = Holds-bind fs (m w) f (p.at w ∙ e) (λ a u q. (k a u q).at);
  }

  HoldsAt-if :
      (fs : List t.File) (b : Bool) (m n : Exec W (Downloaded l t)) (w : W)
      → HoldsAt fs m w
      → HoldsAt fs n w
      → HoldsAt fs (if b then m else n) w
  HoldsAt-if fs true m n w p q = p
  HoldsAt-if fs false m n w p q = q

  Leaves-send : (uri : String) (auth : AuthHeaders) → Leaves temps (send l t uri auth)
  unfolding send
  Leaves-send uri auth =
      Leaves-change_error _ (record { at = λ v. logged-keeps uri _ ∙ h.request_keeps _ v })

  pub attempt-HoldsAt :
      (uri : String) (f : l.Function) (checksum : ExpectedChecksum l) (auth : AuthHeaders) (w : W)
      → HoldsAt (temps w) (attempt l t uri f checksum auth) w
  unfolding attempt
  attempt-HoldsAt uri f checksum auth w =
      HoldsAt-bind (temps w) _ _ w (Leaves-lift _) refl (λ _ u e.
        HoldsAt-bind (temps w) _ _ u (Leaves-send uri auth) e (λ resp v d.
          HoldsAt-if (temps w) (nat_eq resp.status_code 200) (receive l t resp f checksum)
            (refuse_status l t uri resp) v
            (record { at = receive-Holds resp f checksum (temps w) v d })
            (record { at = h.printf_keeps _ v ∙ d })))

  -- The download is a buffer on a file that it owns, or one on an error.
  abbrev pub IsHeld : List t.File → Result (Downloaded l t) × W → Type 0
  IsHeld fs (ok d, v) =
      Owns fs d v ⊎ ((e : Error) × (d.buffer ≡ t.buffer_from_error e) × (temps v ≡ fs))
  IsHeld fs (err _ _, v) = ⊥
  IsHeld fs (panic, v) = temps v ≡ fs

  pub as_download-IsHeld :
      (fs : List t.File) (r : Result (Downloaded l t) × W)
      → Holds fs r
      → IsHeld fs (as_download l t r)
  as_download-IsHeld fs (ok d, v) k = inl k
  as_download-IsHeld fs (err x e, v) k = inr (e, refl, k)
  as_download-IsHeld fs (panic, v) k = k

-- ===== src/Fetch/Authorizing/Laws.antt =====
-- What the authorizer lets through.
use bb_remote_asset.Prelude.{◌≡◌, refl, none}
use bb_remote_asset.Prelude.Effect.{ok, Result, err, panic, Exec, continue, ◌>>=◌}
use bb_remote_asset.Storage.Libraries.{Libraries, Authorizer}
use bb_remote_asset.Fetch.Interface.{FetchRequest, Fetcher}
use bb_remote_asset.Fetch.Authorizing.{new_authorizing_fetcher, fetch_blob, fetch_directory}

-- After the authorizer's answer `r`, the call `m` is made, or nothing is done and its error is
-- the outcome.
abbrev pub IsGuardedBy : {W A : Type 0} → Result (Unit {0}) × W → Exec W A → Result A × W → Type 0
IsGuardedBy (ok _, v) m out = out ≡ m v
IsGuardedBy (err _ e, v) m out = out ≡ (err none e, v)
IsGuardedBy (panic, v) m out = out ≡ (panic, v)

guarded :
    {W A : Type 0} (r : Result (Unit {0}) × W) (m : Exec W A)
    → IsGuardedBy r m (continue r (λ _. m))
guarded (ok _, v) m = refl
guarded (err _ e, v) m = refl
guarded (panic, v) m = refl

module _ (l : Libraries) {W : Type 0} (fetcher : Fetcher W)
    (authorizer : Authorizer l.InstanceName W) where
  -- For a well-formed instance name the wrapped fetcher is called exactly when the authorizer lets
  -- that name through, in the world that the authorizer left; otherwise the outcome is the
  -- authorizer's error, in that world.
  pub new_authorizing_fetcher-IsGuardedBy :
      (req : FetchRequest) (w : W) (i : l.InstanceName)
      → l.new_instance_name req.instance_name ≡ ok i
      → IsGuardedBy
          (authorizer.authorize i w)
          (fetcher.fetch_blob req)
          ((new_authorizing_fetcher l fetcher authorizer).fetch_blob req w)
        × IsGuardedBy
            (authorizer.authorize i w)
            (fetcher.fetch_directory req)
            ((new_authorizing_fetcher l fetcher authorizer).fetch_directory req w)
  unfolding new_authorizing_fetcher fetch_blob fetch_directory ◌>>=◌
  new_authorizing_fetcher-IsGuardedBy req w i e =
      rw e (guarded (authorizer.authorize i w) _, guarded (authorizer.authorize i w) _)

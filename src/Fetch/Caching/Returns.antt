-- ===== src/Fetch/Caching/Returns.antt =====
-- Storing a response returns it as it is.
use bb_remote_asset.Prelude.{
  String, ◌≡◌, refl, Bool, true, false, none, List, ltb, if◌then◌else◌, length,
}
use bb_remote_asset.Prelude.Effect.{
  ok, is_ok_code, Status, Error, Result, err, panic, convert, Exec, pure, Ensures, Ensures-pure,
}
use bb_remote_asset.Time.{Clock}
use bb_remote_asset.Qualifier.{Qualifier}
use bb_remote_asset.Storage.Messages.{Asset}
use bb_remote_asset.Storage.Libraries.{Libraries}
use bb_remote_asset.Storage.Store.{AssetStore}
use bb_remote_asset.Fetch.Caching.{change_failure, continue_beside, beside, store_fetched}

-- Run from any world, what the action returns is `a`.
abbrev pub Returns : {W A : Type 0} → Exec W A → A → Type 0
Returns {W} m a = (w : W) → Ensures w m (λ r _. a ≡ r)

module _ {W A : Type 0} where
  pub pure-Returns : (a : A) → Returns {W = W} (pure a) a
  pure-Returns a w = Ensures-pure a refl

  pub beside-Returns :
      {B : Type 0} (a : A) (n : Exec W B) (m : Exec W A) → Returns m a → Returns (beside a n m) a
  unfolding beside
  beside-Returns {B} a n m k w = record { at = λ r v h. go (n w) r v h }
    where
      go : (x : Result B × W) (r : A) (v : W) → continue_beside a x m ≡ (ok r, v) → a ≡ r
      go (ok b, u) r v h = (k u).at r v h
      go (err x e, u) r v h = cc
      go (panic, u) r v h = cc

  pub if-Returns :
      (b : Bool) (a : A) (m n : Exec W A)
      → Returns m a
      → Returns n a
      → Returns (if b then m else n) a
  if-Returns true a m n p q = p
  if-Returns false a m n p q = q

  -- A failure stays one.
  pub change_failure-eq-ok :
      (f : Status → Status) (x : Result A × W) {a : A} {v : W}
      → change_failure f x ≡ (ok a, v)
      → x ≡ (ok a, v)
  change_failure-eq-ok f (ok a, w) h = h
  change_failure-eq-ok f (err x e, w) {a} {v} h = go (is_ok_code (f (convert e)).code) h
    where
      go :
          (b : Bool)
          → ◌≡◌ {A = Result A × W}
              ((if b then panic else err none (Error.status (f (convert e)))), w)
              (ok a, v)
          → ◌≡◌ {A = Result A × W} (err x e, w) (ok a, v)
      go true h = cc
      go false h = cc
  change_failure-eq-ok f (panic, w) h = cc

module _ (l : Libraries) {W : Type 0} (store : AssetStore l.Function W) (clock : Clock W) where
  -- Storing a response does not change it.
  pub store_fetched-Returns :
      {A : Type 0} (uris : List String) (uri : String) (qs : List Qualifier) (make : W → Asset × W)
      (f : l.Function) (response : A)
      → Returns (store_fetched l store clock uris uri qs make f response) response
  unfolding store_fetched
  store_fetched-Returns uris uri qs make f response w = record {
    at = λ r v h.
        (beside-Returns response _ _
            (if-Returns (ltb 1 (length uris)) response _ _
              (beside-Returns response _ _ (pure-Returns response)) (pure-Returns response))
            (make w).1).at
          r v h;
  }

-- ===== src/Fetch/Caching/Refetch.antt =====
-- What has been fetched is stored, and what is not in the store is missed.
use mathlib.Core.List.{Mem, mem-cons_self, mem-cons_of_mem}
use mathlib.Core.List.Perm
use bb_remote_asset.Prelude.{
  String, ◌≡◌, refl, sym, ap, ◌∙◌, ◌≢◌, inr, true, false, none, some, List, [], ◌∷◌, ◌++◌, arith,
  ltb, if◌then◌else◌, length,
}
use bb_remote_asset.Prelude.Effect.{
  ok, Error, Result, err, panic, Exec, pure, ◌>>=◌, Ensures, Ensures-pure, Ensures-if,
}
use bb_remote_asset.Time.{Time, unix_epoch, Clock}
use bb_remote_asset.Qualifier.{Qualifier}
use bb_remote_asset.Storage.Messages.{AssetReference, Asset}
use bb_remote_asset.Storage.Libraries.{Libraries}
use bb_remote_asset.Storage.Reference.{new_asset_reference, new_asset_reference-eq_iff}
use bb_remote_asset.Storage.Asset.{get_default_timestamp}
use bb_remote_asset.Storage.Store.{AssetStore, IsAssetMap}
use bb_remote_asset.Fetch.Caching.{
  remove_volatile_qualifiers, is_expired, continue_beside, beside, get_and_check_asset, look_up,
  store_fetched,
}

-- A timestamp keeps the instant of the time that it is made of.
pub record KeepsInstants (l : Libraries) : Type 0 where
  pub same : (t : Time) → (l.as_time (some (l.new_timestamp t))).instant ≡ t.instant

module _ {W A B : Type 0} {w : W} {Q : A → W → Type 0} where
  Ensures-beside :
      (a : A) (n : Exec W B) (m : Exec W A)
      → ((b : B) (u : W) → n w ≡ (ok b, u) → Ensures u m Q)
      → Ensures w (beside a n m) Q
  unfolding beside
  Ensures-beside a n m k = record { at = λ r v h. go (n w) refl r v h }
    where
      go :
          (x : Result B × W) → n w ≡ x → (r : A) (v : W) → continue_beside a x m ≡ (ok r, v) → Q r v
      go (ok b, u) e r v h = (k b u e).at r v h
      go (err x e, u) p r v h = cc
      go (panic, u) p r v h = cc

module _ (l : Libraries) {W : Type 0} (store : AssetStore l.Function W) (clock : Clock W)
    (f : l.Function) (c : IsAssetMap store f) where
  abbrev pub single : String → List Qualifier → AssetReference
  single uri qs = new_asset_reference (uri ∷ []) (remove_volatile_qualifiers qs)

  -- Several URIs never have the reference of one.
  several-ne-single :
      (uris : List String) (uri : String) (qs rs : List Qualifier)
      → ltb 1 (length uris) ≡ true
      → new_asset_reference uris qs ≢ new_asset_reference (uri ∷ []) rs
  several-ne-single [] uri qs rs h e = cc
  several-ne-single (u ∷ []) uri qs rs h e = cc
  several-ne-single (u ∷ v ∷ uris) uri qs rs h e =
      let (p, _) = (new_asset_reference-eq_iff (u ∷ v ∷ uris) (uri ∷ []) qs rs).0 e in
      cc (Perm.length-eq p)

  module _ {A : Type 0} (uris : List String) (uri : String) (qs : List Qualifier) (response : A)
      (a : Asset) where
    abbrev Holds : A → W → Type 0
    Holds _ v = c.view v (single uri qs) ≡ some a

    abbrev list_reference : AssetReference
    list_reference = new_asset_reference uris (single uri qs).qualifiers

    -- Storing the list keeps what is stored for the URI.
    list_put_Ensures :
        (v : W)
        → ltb 1 (length uris) ≡ true
        → Holds response v
        → Ensures v (beside response (store.put list_reference a f) (pure response)) Holds
    list_put_Ensures v several h =
        Ensures-beside response (store.put list_reference a f) (pure response) λ _ u e.
          Ensures-pure response (
            ap (λ (x : Result (Unit {0}) × W). c.view x.1 (single uri qs)) (sym e)
            ∙ c.put_keeps list_reference (single uri qs) a v
                (several-ne-single uris uri _ _ several)
            ∙ h)

  -- What `make` makes is stored for the URI.
  pub store_fetched-stores :
      {A : Type 0} (uris : List String) (uri : String) (qs : List Qualifier) (response : A)
      (make : W → Asset × W) (w : W)
      → c.IsStorable (make w).0
      → Ensures w
          (store_fetched l store clock uris uri qs make f response)
          (Holds uris uri qs response (make w).0)
  unfolding store_fetched
  store_fetched-stores uris uri qs response make w storable = record {
    at = λ r v h. (stores (make w).0 (make w).1 storable).at r v h;
  }
    where
      stores :
          (a : Asset) (x : W)
          → c.IsStorable a
          → Ensures x
              (beside response (store.put (single uri qs) a f) (
                if ltb 1 (length uris)
                then beside response
                    (store.put (list_reference uris uri qs response a) a f)
                    (pure response)
                else pure response))
              (Holds uris uri qs response a)
      stores a x ready = Ensures-beside response (store.put (single uri qs) a f) _ λ _ u e.
          let stored : Holds uris uri qs response a response u =
            ap (λ (y : Result (Unit {0}) × W). c.view y.1 (single uri qs)) (sym e)
            ∙ c.put_stores (single uri qs) a x ready (ap (λ (y : Result (Unit {0}) × W). y.0) e) in
          Ensures-if (ltb 1 (length uris)) _ _
            (λ several. list_put_Ensures uris uri qs response a u several stored)
            (Ensures-pure response stored)

  -- A miss of the store for every URI is a miss of the look-up.
  pub look_up-eq-missed :
      (qs : List Qualifier) (oldest : Time) (uris : List String) (errors : List Error) (w : W)
      → ((uri : String) → Mem uri uris → c.view w (new_asset_reference (uri ∷ []) qs) ≡ none)
      → (es : List Error) × ((look_up l store clock qs f oldest errors uris w).0 ≡ ok (inr es))
  unfolding look_up get_and_check_asset ◌>>=◌
  look_up-eq-missed qs oldest [] errors w h = (errors, refl)
  look_up-eq-missed qs oldest (uri ∷ uris) errors w h =
      let ref = new_asset_reference (uri ∷ []) qs in
      let (e, p) = c.get_miss ref w (h uri mem-cons_self) in
      let (es, q) =
        look_up-eq-missed qs oldest uris (errors ++ e ∷ []) (store.get ref f w).1
          λ v m. c.get_keeps ref _ w ∙ h v (mem-cons_of_mem uri m) in
      (es, rw p q)

  pub default_never_expires :
      (now : Time) → KeepsInstants l → is_expired l now (some (get_default_timestamp l)) ≡ false
  unfolding is_expired get_default_timestamp
  default_never_expires now k = rw (k.same unix_epoch) (ground arith)

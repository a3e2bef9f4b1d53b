-- ===== src/Storage/BlobStore/Refinement.antt =====
-- The store on a blob store is the map that the interface promises, if the blob store is a map
-- from digests to buffers.
use bb_remote_asset.Prelude.{
  ℕ, ◌≤◌, ◌≡◌, sym, ap, ◌∙◌, ◌≢◌, ◌⊎◌, inl, inr, Option, none, some, arith, Option-cases,
}
use bb_remote_asset.Prelude.Effect.{ok, Error, err, and_then, ◌>>=◌, found, continue-lift}
use bb_remote_asset.Storage.Messages.{AssetReference, Asset, reference, asset}
use bb_remote_asset.Storage.Libraries.{Libraries, BlobAccess}
use bb_remote_asset.Storage.Digest.{Serialises, digest_of, proto_serialise-eq, digest_of_injective}
use bb_remote_asset.Storage.Store.{IsAssetMap, found-get}
use bb_remote_asset.Storage.BlobStore.{get, put, new_blob_access_asset_store}

-- What a blob store documents: it maps digests to buffers.
pub record IsBlobMap {Digest Buffer W : Type 0} (b : BlobAccess Digest Buffer W) : Type 0 where
  pub view : W → Digest → Option Buffer
  pub get_hit : (d : Digest) (w : W) (x : Buffer) → view w d ≡ some x → (b.get d w).0 ≡ ok x
  pub get_miss : (d : Digest) (w : W) → view w d ≡ none → (e : Error) × ((b.get d w).0 ≡ err none e)
  pub get_keeps : (d c : Digest) (w : W) → view (b.get d w).1 c ≡ view w c
  pub put_stores :
      (d : Digest) (x : Buffer) (w : W) → (b.put d x w).0 ≡ ok tt → view (b.put d x w).1 d ≡ some x
  pub put_keeps : (d c : Digest) (x : Buffer) (w : W) → d ≢ c → view (b.put d x w).1 c ≡ view w c

-- What the buffers document: an asset of at most `size` bytes is read back from its buffer, and
-- any other buffer is read as an asset or with an error.
pub record ReadsAssets (l : Libraries) (f : l.Function) (s : Serialises l f) (size : ℕ)
    : Type 0 where
  pub read_back :
      (a : Asset)
      → s.size_of (asset a) ≤ size
      → l.to_asset (l.new_proto_buffer (asset a)) size ≡ ok a
  pub read_fails :
      (x : l.Buffer)
      → ((a : Asset) × (l.to_asset x size ≡ ok a))
        ⊎ ((e : Error) × (l.to_asset x size ≡ err none e))

module _ (l : Libraries) {W : Type 0} (b : BlobAccess l.Digest l.Buffer W) (size : ℕ)
    (f : l.Function) (s : Serialises l f) (m : IsBlobMap b) (r : ReadsAssets l f s size) where
  asset_view : Option l.Buffer → Option Asset
  asset_view none = none
  asset_view (some x) = found (l.to_asset x size)

  key : AssetReference → l.Digest
  key ref = digest_of l f s (reference ref)

  get-eq :
      (ref : AssetReference) (w : W)
      → get l b size ref f w
        ≡ (and_then (b.get (key ref) w).0 (λ x. l.to_asset x size), (b.get (key ref) w).1)
  unfolding get key ◌>>=◌
  get-eq ref w =
      rw (proto_serialise-eq l f s (reference ref))
        (continue-lift (b.get (key ref) w) (λ x. l.to_asset x size))

  put-eq :
      (ref : AssetReference) (a : Asset) (w : W)
      → put l b size ref a f w ≡ b.put (key ref) (l.new_proto_buffer (asset a)) w
  unfolding put key ◌>>=◌
  put-eq ref a w = rw (proto_serialise-eq l f s (reference ref))

  key-ne : (p q : AssetReference) → p ≢ q → key p ≢ key q
  unfolding key
  key-ne p q h e = h (reference_injective (digest_of_injective l f s (reference p) (reference q) e))
    where
      reference_injective : reference p ≡ reference q → p ≡ q
      reference_injective e = cc

  hit :
      (ref : AssetReference) (w : W) (a : Asset)
      → asset_view (m.view w (key ref)) ≡ some a
      → (get l b size ref f w).0 ≡ ok a
  unfolding asset_view
  hit ref w a h = rw (get-eq ref w) (elim (Option-cases (m.view w (key ref))) [
    | inl n ↦ ground (arith, n)
    | inr (x, e) ↦ rw (m.get_hit (key ref) w x e) (elim (r.read_fails x) [
      | inl (c, p) ↦ ground (arith, e, p)
      | inr (c, p) ↦ ground (arith, e, p)
    ])
  ])

  miss :
      (ref : AssetReference) (w : W)
      → asset_view (m.view w (key ref)) ≡ none
      → (e : Error) × ((get l b size ref f w).0 ≡ err none e)
  unfolding asset_view
  miss ref w h = elim (Option-cases (m.view w (key ref))) [
    | inl n ↦ let (e, p) = m.get_miss (key ref) w n in (e, rw (get-eq ref w) (rw p))
    | inr (x, e) ↦ elim (r.read_fails x) [
      | inl (c, p) ↦ absurd (ground (arith, e, p))
      | inr (c, p) ↦ (c, rw (get-eq ref w) (rw (m.get_hit (key ref) w x e, p)))
    ]
  ]

  -- The store on a blob store is a map from references to assets, for the assets that fit into a
  -- message.
  pub new_blob_access_asset_store-IsAssetMap : IsAssetMap (new_blob_access_asset_store l b size) f
  unfolding new_blob_access_asset_store asset_view
  new_blob_access_asset_store-IsAssetMap = record {
    view = λ w ref. asset_view (m.view w (key ref));
    IsStorable = λ a. s.size_of (asset a) ≤ size;
    get_hit = hit;
    get_miss = miss;
    get_keeps = λ p q w. rw (get-eq p w) (ap asset_view (m.get_keeps (key p) (key q) w));
    put_stores = λ ref a w fits stored. rw (put-eq ref a w) (
        rw (m.put_stores (key ref) _ w (rw (put-eq ref a w) at stored))
          (ap found (r.read_back a fits)));
    put_keeps = λ p q a w apart.
        rw (put-eq p a w) (ap asset_view (m.put_keeps (key p) (key q) _ w (key-ne p q apart)));
  }

  -- An asset that fits into a message can be stored.
  pub new_blob_access_asset_store-IsStorable :
      (a : Asset) → s.size_of (asset a) ≤ size → new_blob_access_asset_store-IsAssetMap.IsStorable a
  unfolding new_blob_access_asset_store-IsAssetMap
  new_blob_access_asset_store-IsStorable a fits = fits

  -- Worlds in which the blob store looks the same look the same as maps of assets.
  pub new_blob_access_asset_store-view :
      (v w : W)
      → m.view v ≡ m.view w
      → new_blob_access_asset_store-IsAssetMap.view v
        ≡ new_blob_access_asset_store-IsAssetMap.view w
  unfolding new_blob_access_asset_store-IsAssetMap
  new_blob_access_asset_store-view v w e = ap (λ g ref. asset_view (g (key ref))) e

  -- A put returns where the blob store's puts do.
  pub put_returns :
      ((d : l.Digest) (x : l.Buffer) (w : W) → (b.put d x w).0 ≡ ok tt)
      → (ref : AssetReference) (a : Asset) (w : W)
      → ((new_blob_access_asset_store l b size).put ref a f w).0 ≡ ok tt
  unfolding new_blob_access_asset_store
  put_returns returns ref a w = rw (put-eq ref a w) (returns _ _ w)

  -- An asset that is put and fits into a message is what a get of its reference then returns.
  pub get-put_self :
      (ref : AssetReference) (a : Asset) (w : W)
      → s.size_of (asset a) ≤ size
      → (put l b size ref a f w).0 ≡ ok tt
      → (get l b size ref f (put l b size ref a f w).1).0 ≡ ok a
  unfolding new_blob_access_asset_store-IsAssetMap new_blob_access_asset_store
  get-put_self ref a w fits stored =
      let c = new_blob_access_asset_store-IsAssetMap in
      c.get_hit ref _ a (c.put_stores ref a w fits stored)

  -- A put, even a failed one, does not change what a get of another reference finds.
  pub get-put_ne :
      (p q : AssetReference) (a : Asset) (w : W)
      → p ≢ q
      → found (get l b size q f (put l b size p a f w).1).0 ≡ found (get l b size q f w).0
  unfolding new_blob_access_asset_store-IsAssetMap new_blob_access_asset_store
  get-put_ne p q a w apart =
      let c = new_blob_access_asset_store-IsAssetMap in
      found-get c q _ ∙ c.put_keeps p q a w apart ∙ sym (found-get c q w)

-- ===== src/Storage/ActionCache/Integrity.antt =====
-- Referential integrity: what an action in the action cache refers to is in the CAS.
use bb_remote_asset.Prelude.{
  ℕ, zero, suc, ◌≡◌, sym, ap, ◌∙◌, subst, ◌≢◌, none, List, [], ◌∷◌, ◌++◌, all, All, All-map,
}
use bb_remote_asset.Prelude.Effect.{
  ok, Result, Exec, Ensures, Ensures-bind, Ensures-lift, Ensures-pure,
}
use bb_remote_asset.Storage.Messages.{
  AssetType, blob, directory, other, AssetReference, Asset, Node, Directory, Action, Message,
  action,
}
use bb_remote_asset.Storage.Libraries.{Libraries, BlobAccess}
use bb_remote_asset.Storage.Digest.{Serialises, digest_of, proto_serialise-eq}
use bb_remote_asset.Storage.BlobStore.Refinement.{IsBlobMap}
use bb_remote_asset.Storage.ActionCache.Key.{asset_reference_to_action}
use bb_remote_asset.Storage.ActionCache.Key.Complete.{
  IsComplete, asset_reference_to_action-IsComplete,
}
use bb_remote_asset.Storage.ActionCache.Key.Laws.{key_of}
use bb_remote_asset.Storage.ActionCache.Value.{
  Ensures-change_error, get_directory, append_children, directory_node_to_directories,
  directory_to_tree, directory_result, typed_result, asset_to_action_result,
}
use bb_remote_asset.Storage.ActionCache.{ActionCacheAssetStore, put_objects, put}

module _ {Digest Buffer W : Type 0} {b : BlobAccess Digest Buffer W} (m : IsBlobMap b) where
  -- Something is stored under the digest.
  abbrev pub IsPresent : W → Digest → Type 0
  IsPresent w d = m.view w d ≢ none

  -- All that was stored is stored still.
  abbrev pub Keeps : W → W → Type 0
  Keeps w v = (d : Digest) → IsPresent w d → IsPresent v d

  pub get-Keeps : (d : Digest) (w : W) → Keeps w (b.get d w).1
  get-Keeps d w c there gone = there (sym (m.get_keeps d c w) ∙ gone)

  put-IsPresent :
      (d : Digest) (x : Buffer) (w : W) → (b.put d x w).0 ≡ ok tt → IsPresent (b.put d x w).1 d
  put-IsPresent d x w h gone = cc (m.put_stores d x w h)

  -- A put that returns overwrites nothing but its own digest.
  put-Keeps : (d : Digest) (x : Buffer) (w : W) → (b.put d x w).0 ≡ ok tt → Keeps w (b.put d x w).1
  put-Keeps d x w h c there gone = there (sym (m.put_keeps d c x w apart) ∙ gone)
    where
      apart : d ≢ c
      apart e = put-IsPresent d x w h (ap (m.view (b.put d x w).1) e ∙ gone)

  -- The same of a put whose outcome is known.
  pub put_loses_nothing :
      (d : Digest) (x : Buffer) (w v : W) → b.put d x w ≡ (ok tt, v) → IsPresent v d × Keeps w v
  put_loses_nothing d x w v h =
      let returned : (b.put d x w).0 ≡ ok tt = ap (λ (r : Result (Unit {0}) × W). r.0) h in
      let final : (b.put d x w).1 ≡ v = ap (λ (r : Result (Unit {0}) × W). r.1) h in
      (rw (← final) (put-IsPresent d x w returned), rw (← final) (put-Keeps d x w returned))

module _ (l : Libraries) {W : Type 0} (rs : ActionCacheAssetStore l W) (stack : ℕ) (f : l.Function)
    (s : Serialises l f) (cas : IsBlobMap rs.content_addressable_storage) where
  abbrev Kept : {A : Type 0} → W → A → W → Type 0
  Kept w a v = Keeps cas w v

  -- The message is in the CAS.
  abbrev pub IsUploaded : W → Message → Type 0
  IsUploaded w m = IsPresent cas w (digest_of l f s m)

  abbrev read_directory : l.Digest → Exec W Directory
  read_directory = get_directory l rs.content_addressable_storage rs.maximum_message_size_bytes f

  abbrev visit : ℕ → Node → Exec W (List Directory)
  visit =
      directory_node_to_directories l rs.content_addressable_storage rs.maximum_message_size_bytes f

  get_directory-Keeps : (d : l.Digest) (w : W) → Ensures w (read_directory d) (Kept w)
  unfolding get_directory
  get_directory-Keeps d w = Ensures-bind _ _ λ x u e. record {
    at = λ a v h c p.
        let there = get-Keeps cas d w c p in
        subst (λ w'. IsPresent cas w' c)
          (ap (λ (r : Result l.Buffer × W). r.1) e ∙ ap (λ (r : Result Directory × W). r.1) h)
          there;
  }

  append_children-Keeps :
      (go : Node → Exec W (List Directory))
      → ((n : Node) (w : W) → Ensures w (go n) (Kept w))
      → (nodes : List Node) (ds : List Directory) (w : W)
      → Ensures w
          (append_children l rs.content_addressable_storage rs.maximum_message_size_bytes f go nodes
            ds)
          (Kept w)
  unfolding append_children
  append_children-Keeps go k [] ds w = Ensures-pure ds (λ d p. p)
  append_children-Keeps go k (n ∷ nodes) ds w = Ensures-bind _ _ λ children u e. record {
    at = λ a v h d p.
        (append_children-Keeps go k nodes (ds ++ children) u).at a v h d
          ((k n w).at children u e d p);
  }

  visit-Keeps : (n : ℕ) (node : Node) (w : W) → Ensures w (visit n node) (Kept w)
  unfolding directory_node_to_directories
  visit-Keeps zero node w = record { at = λ a v h. cc }
  visit-Keeps (suc n) node w = Ensures-lift _ _ λ digest _. Ensures-bind _ _ λ d u e. record {
    at = λ a v h c p.
        (append_children-Keeps (visit n) (visit-Keeps n) d.directories (d ∷ []) u).at a v h c
          ((get_directory-Keeps digest w).at d u e c p);
  }

  put_object_Ensures :
      (obj : Message) (objs : List Message) (w : W)
      → ((v : W)
          → Ensures v
              (put_objects l rs stack objs f)
              (λ _ u. Keeps cas v u × All (IsUploaded u) objs))
      → Ensures w
          (put_objects l rs stack (obj ∷ objs) f)
          (λ _ u. Keeps cas w u × All (IsUploaded u) (obj ∷ objs))
  unfolding put_objects
  put_object_Ensures obj objs w ih = Ensures-lift _ _ λ (buf, digest) is_digest.
      Ensures-bind _ _ λ _ w₁ done. record {
        at = λ _ v h.
            let (kept, rest) = (ih w₁).at _ v h in
            let (there, before) = put_loses_nothing cas digest buf w w₁ done in
            let right : digest ≡ digest_of l f s obj = cc (proto_serialise-eq l f s obj) in
            (λ d p. kept d (before d p), (subst (IsPresent cas v) right (kept digest there), rest));
      }

  put_objects_Ensures :
      (objs : List Message) (w : W)
      → Ensures w (put_objects l rs stack objs f) (λ _ u. Keeps cas w u × All (IsUploaded u) objs)
  unfolding put_objects
  put_objects_Ensures [] w = Ensures-pure tt (λ d p. p, tt)
  put_objects_Ensures (obj ∷ objs) w = put_object_Ensures obj objs w (put_objects_Ensures objs)

  tree_Keeps :
      (d : Directory) (w : W)
      → Ensures w
          (directory_to_tree l rs.content_addressable_storage rs.maximum_message_size_bytes f stack
            d)
          (Kept w)
  unfolding directory_to_tree
  tree_Keeps d w = Ensures-bind _ _ λ children u e.
      Ensures-pure _ (
        (append_children-Keeps (visit stack) (visit-Keeps stack) d.directories [] w).at children u
          e)

  -- Making the action result of a directory uploads its tree and loses nothing.
  result_Keeps :
      (a : Asset) (w : W)
      → Ensures w
          (asset_to_action_result l rs.content_addressable_storage rs.maximum_message_size_bytes f
            stack a)
          (Kept w)
  unfolding asset_to_action_result
  result_Keeps a w = go a.type
    where
      directory_case :
          Ensures w
            (directory_result l rs.content_addressable_storage rs.maximum_message_size_bytes f stack
              a)
            (Kept w)
      directory_case = Ensures-lift _ _ λ digest _. Ensures-bind _ _ λ d w₁ e₁.
          Ensures-bind _ _ λ t w₂ e₂. Ensures-lift _ _ λ p _. Ensures-bind _ _ λ u w₃ e₃.
            Ensures-pure _ λ c there. (put_loses_nothing cas p.1 p.0 w₂ w₃ e₃).1 c (
              (Ensures-change_error _ _ (tree_Keeps d w₁)).at t w₂ e₂ c
                ((Ensures-change_error _ _ (get_directory-Keeps digest w)).at d w₁ e₁ c there))

      go :
          (t : AssetType)
          → Ensures w
              (typed_result l rs.content_addressable_storage rs.maximum_message_size_bytes f stack a
                t)
              (Kept w)
      go blob = Ensures-pure _ (λ d p. p)
      go directory = directory_case
      go (other n) = record { at = λ _ v h. cc }

  module _
      (apart : (d c : l.Digest) (x : l.Buffer) (w : W)
        → cas.view (rs.action_cache.put d x w).1 c ≡ cas.view w c) where
    cache_put_Keeps :
        (d : l.Digest) (x : l.Buffer) (w : W)
        → Ensures w (rs.action_cache.put d x) (λ _ v. Keeps cas w v)
    cache_put_Keeps d x w = record {
      at = λ _ v h c there.
          subst (λ w'. IsPresent cas w' c) (ap (λ (r : Result (Unit {0}) × W). r.1) h)
            (λ gone. there (sym (apart d c x w) ∙ gone));
    }

    Uploads : AssetReference → W → Type 0
    Uploads ref v =
        (key : Action) × (key_of (asset_reference_to_action l rs.platform ref f) ≡ ok key)
        × IsUploaded v (action key)
        × IsComplete l rs.platform f s (IsUploaded v) key

    uploads :
        (ref : AssetReference) (a : Asset) (w : W)
        → Ensures w (put l rs stack ref a f) (λ _ v. Uploads ref v)
    unfolding put Uploads
    uploads ref a w = Ensures-lift _ _ λ (key, objects) is_key.
        Ensures-lift _ _ λ (pb, digest) is_digest. Ensures-bind _ _ λ _ w₁ e₁.
          Ensures-bind _ _ λ _ w₂ e₂. Ensures-bind _ _ λ r w₃ e₃. record {
            at = λ _ v h.
                let right : digest ≡ digest_of l f s (action key) =
                  cc (proto_serialise-eq l f s (action key)) in
                let (there, _) = put_loses_nothing cas digest pb w w₁ e₁ in
                let (kept, all) = (put_objects_Ensures objects w₁).at tt w₂ e₂ in
                let later : Keeps cas w₂ v = λ d p.
                  (cache_put_Keeps digest _ w₃).at tt v h d ((result_Keeps a w₂).at r w₃ e₃ d p) in
                (
                  key,
                  ap key_of is_key,
                  subst (IsPresent cas v) right (later digest (kept digest there)),
                  asset_reference_to_action-IsComplete l rs.platform f s (IsUploaded v) ref key
                      objects is_key (All-map objects (λ m. later (digest_of l f s m)) all),
                );
          }

    -- The CAS is a map of blobs that writes to the action cache leave alone, and messages serialise,
    -- with digests that do not collide. After a put that
    -- returns, it holds the action of the reference, the command whose digest the action has, and
    -- the directory whose digest is that of its input root, which has no directories in it, with
    -- each of its files. The input root of an action may also be the empty directory: that this is
    -- in the CAS is not stated, and the put does not upload it.
    pub put-IsUploaded :
        (ref : AssetReference) (a : Asset) (w v : W)
        → put l rs stack ref a f w ≡ (ok tt, v)
        → (key : Action) × (key_of (asset_reference_to_action l rs.platform ref f) ≡ ok key)
          × IsUploaded v (action key)
          × IsComplete l rs.platform f s (IsUploaded v) key
    unfolding Uploads
    put-IsUploaded ref a w v h = (uploads ref a w).at tt v h

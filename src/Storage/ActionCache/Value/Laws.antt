-- ===== src/Storage/ActionCache/Value/Laws.antt =====
-- What of an asset survives in an action result.
use bb_remote_asset.Prelude.{
  ℕ, ◌≡◌, refl, ◌∙◌, ◌↔◌, inl, inr, false, Option, none, some, [], ◌∷◌, if◌then◌else◌, Bool-cases,
}
use bb_remote_asset.Prelude.Int.{pos}
use bb_remote_asset.Prelude.Effect.{ok, panic, Ensures, Ensures-bind, Ensures-lift, Ensures-pure}
use bb_remote_asset.Time.{Timestamp}
use bb_remote_asset.Storage.Messages.{
  ProtoDigest, AssetType, blob, directory, other, Asset, ExecutionMetadata, ActionResult,
}
use bb_remote_asset.Storage.Libraries.{Libraries, BlobAccess}
use bb_remote_asset.Storage.Asset.{get_default_timestamp}
use bb_remote_asset.Storage.ActionCache.Value.{
  out_path, last_directory, last_file, is_missing, action_result_to_asset, result_with,
  directory_result, typed_result, asset_to_action_result, cached_asset, file_asset,
}

-- The asset without its expiry: what an action result can hold.
abbrev pub forget_expiry : Libraries → Asset → Asset
forget_expiry l a = record a { expire_at = some (get_default_timestamp l) }

module _ (l : Libraries) where
  file_round_trip :
      (d : Option ProtoDigest) (t : Option Timestamp)
      → is_missing d ≡ false
      → action_result_to_asset l (result_with t (record { path = out_path; digest = d } ∷ []) [])
        ≡ ok (record {
          digest = d;
          expire_at = some (get_default_timestamp l);
          last_updated = t;
          type = blob;
        })
  unfolding action_result_to_asset
  file_round_trip d t h = rw h

  directory_round_trip :
      (d : Option ProtoDigest) (tree : ProtoDigest) (t : Option Timestamp)
      → is_missing d ≡ false
      → action_result_to_asset l (
          result_with t []
            (record { path = out_path; root_directory_digest = d; tree_digest = some tree } ∷ []))
        ≡ ok (record {
          digest = d;
          expire_at = some (get_default_timestamp l);
          last_updated = t;
          type = directory;
        })
  unfolding action_result_to_asset
  directory_round_trip d td t h = rw h

module _ (l : Libraries) {W : Type 0} (cas : BlobAccess l.Digest l.Buffer W) (size : ℕ)
    (f : l.Function) where
  IsFaithful : Asset → ActionResult → Type 0
  IsFaithful a r = action_result_to_asset l r ≡ ok (forget_expiry l a)

  directory_result-IsFaithful :
      (stack : ℕ) (a : Asset)
      → is_missing a.digest ≡ false
      → a.type ≡ directory
      → (w : W) → Ensures w (directory_result l cas size f stack a) (λ r _. IsFaithful a r)
  unfolding directory_result IsFaithful
  directory_result-IsFaithful stack a there is_directory w = Ensures-lift _ _ λ digest _.
      Ensures-bind _ _ λ d w₁ _. Ensures-bind _ _ λ t w₂ _. Ensures-lift _ _ λ p _.
        Ensures-bind _ _ λ u w₃ _.
          Ensures-pure _
            (directory_round_trip l a.digest (l.get_proto p.1) a.last_updated there ∙ cc)

  -- An asset with a digest comes back from the action result that is made of it, but for its
  -- expiry, which has become the default timestamp.
  pub action_result_to_asset-asset_to_action_result :
      (stack : ℕ) (a : Asset) (r : ActionResult) (w v : W)
      → is_missing a.digest ≡ false
      → asset_to_action_result l cas size f stack a w ≡ (ok r, v)
      → action_result_to_asset l r ≡ ok (forget_expiry l a)
  unfolding asset_to_action_result IsFaithful
  action_result_to_asset-asset_to_action_result stack a r w v there h = go a.type refl h
    where
      go :
          (t : AssetType)
          → a.type ≡ t
          → typed_result l cas size f stack a t w ≡ (ok r, v)
          → action_result_to_asset l r ≡ ok (forget_expiry l a)
      go blob e k =
          (Ensures-pure {w = w} {Q = λ r _. IsFaithful a r} _
              (file_round_trip l a.digest a.last_updated there ∙ cc)).at
            r v k
      go directory e k = (directory_result-IsFaithful stack a there e w).at r v k
      go (other n) e k = cc

-- The digest that an action result is read for: the last directory called "out", or else the
-- last file called "out".
abbrev pub directory_digest : ActionResult → Option ProtoDigest
directory_digest r =
    last_directory r.output_directories (some (record { hash = ""; size_bytes = pos 0 }))

abbrev pub result_digest : ActionResult → Option ProtoDigest
result_digest r =
    if is_missing (directory_digest r)
    then last_file r.output_files (directory_digest r)
    else directory_digest r

-- Reading an action result panics exactly when it has a digest for "out" and no execution
-- metadata.
pub action_result_to_asset-eq-panic_iff :
    (l : Libraries) (r : ActionResult)
    → (action_result_to_asset l r ≡ panic)
      ↔ ((is_missing (result_digest r) ≡ false) × (r.execution_metadata ≡ none))
unfolding action_result_to_asset
action_result_to_asset-eq-panic_iff l r =
    go (directory_digest r) (last_file r.output_files (directory_digest r)) r.execution_metadata
  where
    go :
        (d : Option ProtoDigest) (e : Option ProtoDigest) (m : Option ExecutionMetadata)
        → ((if is_missing d then file_asset l e m else cached_asset l d directory m) ≡ panic)
          ↔ ((is_missing (if is_missing d then e else d) ≡ false) × (m ≡ none))
    go d e m = elim (Bool-cases (is_missing d)) [
      | inl missing ↦ rw missing (elim (Bool-cases (is_missing e)) [
        | inl gone ↦ rw gone (λ h. cc, λ (h, _). cc)
        | inr there ↦ rw there (panics e blob m)
      ])
      | inr there ↦ rw there (rw there (panics d directory m))
    ]
      where
        panics :
            (d : Option ProtoDigest) (t : AssetType) (m : Option ExecutionMetadata)
            → (cached_asset l d t m ≡ panic) ↔ ((false ≡ false) × (m ≡ none))
        panics d t none = (λ _. (refl, refl), λ _. refl)
        panics d t (some x) = (λ h. cc, λ (_, h). cc)

-- ===== src/Storage/ActionCache/Key/Laws.antt =====
-- Which references share an action.
use mathlib.Core.List.{Perm}
use bb_remote_asset.Prelude.{
  ◌<◌, String, ◌≡◌, sym, ◌∙◌, ◌⊎◌, inl, inr, true, Option, none, List, [], ◌∷◌, arith, ltb, length,
}
use bb_remote_asset.Prelude.Effect.{ok, Error, Result, err, panic}
use bb_remote_asset.Qualifier.{Qualifier}
use bb_remote_asset.Qualifier.Sorter.{text_order, qualifier_order}
use bb_remote_asset.Qualifier.Translator.{Platform, Command, qualifiers_to_command}
use bb_remote_asset.Qualifier.Translator.Laws.{read_names, AgreeOn, qualifiers_to_command-cong}
use bb_remote_asset.Storage.Messages.{
  ProtoDigest, directory, AssetReference, Action, Message, reference, command,
}
use bb_remote_asset.Storage.Libraries.{Libraries}
use bb_remote_asset.Storage.Reference.{new_asset_reference, new_asset_reference-eq_iff}
use bb_remote_asset.Storage.Digest.{empty_digest, Serialises, digest_of, proto_serialise-eq}
use bb_remote_asset.Storage.ActionCache.Key.{
  uris_command, qualifier_directory, uris_action, generated_action, asset_reference_to_action,
  default_platform, command_action,
}

-- The action alone.
abbrev pub key_of : Result (Action × List Message) → Result Action
key_of (ok (key, _)) = ok key
key_of (err _ e) = err none e
key_of panic = panic

-- The qualifiers in the order in which the reference without URIs holds them.
abbrev pub sorted : List Qualifier → List Qualifier
sorted qs = (new_asset_reference [] qs).qualifiers

-- No command is generated for the reference: there is none for its qualifiers, or it has several
-- URIs.
abbrev pub UsesUris : AssetReference → Type 0
UsesUris ref =
    ((e : Error) × (qualifiers_to_command (sorted ref.qualifiers) ≡ err none e))
    ⊎ ((g : String → Result Command) × (qualifiers_to_command (sorted ref.qualifiers) ≡ ok g)
        × (1 < length ref.uris))

module _ (l : Libraries) (platform : Option Platform) (f : l.Function) (s : Serialises l f) where
  -- The digest of a message as a field of another.
  abbrev pub field_digest : Message → ProtoDigest
  field_digest m = l.get_proto (digest_of l f s m)

  abbrev pub qualifiers_message : List Qualifier → Message
  qualifiers_message qs = reference (new_asset_reference [] qs)

  abbrev pub directory_message : List Qualifier → Message
  directory_message qs = directory (qualifier_directory (field_digest (qualifiers_message qs)))

  abbrev pub objects_of : List Qualifier → List Message
  objects_of qs = qualifiers_message qs ∷ directory_message qs ∷ []

  pub action-eq :
      (ref : AssetReference)
      → asset_reference_to_action l platform ref f
        ≡ command_action l platform
            (qualifiers_to_command (sorted ref.qualifiers))
            ref.uris
            (digest_of l f s (directory_message ref.qualifiers))
            f
            (objects_of ref.qualifiers)
  unfolding asset_reference_to_action
  action-eq ref =
      rw (proto_serialise-eq l f s (qualifiers_message ref.qualifiers))
        (rw (proto_serialise-eq l f s (directory_message ref.qualifiers)))

  generated_key :
      (uri : String) (qs : List Qualifier) (g : String → Result Command) (c : Command)
      → qualifiers_to_command (sorted qs) ≡ ok g
      → g uri ≡ ok c
      → key_of
          (asset_reference_to_action l platform (record { uris = uri ∷ []; qualifiers = qs }) f)
        ≡ ok (record {
          command_digest = field_digest (command (default_platform platform c));
          input_root_digest = l.get_proto (empty_digest l f);
          platform = (default_platform platform c).platform;
        })
  unfolding generated_action
  generated_key uri qs g c e h =
      rw (action-eq (record { uris = uri ∷ []; qualifiers = qs }))
        (rw e (rw h (rw (proto_serialise-eq l f s (command (default_platform platform c))))))

  -- Messages serialise. If a command can be generated for a single URI, references that differ in other qualifiers
  -- than the six that the generator reads have one action.
  pub key_of-AgreeOn :
      (uri : String) (qs rs : List Qualifier) (g : String → Result Command) (c : Command)
      → AgreeOn read_names (sorted qs) (sorted rs)
      → qualifiers_to_command (sorted qs) ≡ ok g
      → g uri ≡ ok c
      → key_of
          (asset_reference_to_action l platform (record { uris = uri ∷ []; qualifiers = qs }) f)
        ≡ key_of
            (asset_reference_to_action l platform (record { uris = uri ∷ []; qualifiers = rs }) f)
  key_of-AgreeOn uri qs rs g c agree e h =
      generated_key uri qs g c e h
      ∙ sym (
          generated_key uri rs g c
            (sym (qualifiers_to_command-cong (sorted qs) (sorted rs) agree) ∙ e) h)

  uris_key :
      (ref : AssetReference)
      → UsesUris ref
      → key_of (asset_reference_to_action l platform ref f)
        ≡ ok (record {
          command_digest = field_digest (command (uris_command ref.uris platform));
          input_root_digest = field_digest (directory_message ref.qualifiers);
          platform = platform;
        })
  unfolding uris_action
  uris_key ref (inl (e, h)) =
      rw (action-eq ref)
        (rw h (rw (proto_serialise-eq l f s (command (uris_command ref.uris platform)))))
  uris_key ref (inr (g, h, many)) =
      let several : ltb 1 (length ref.uris) ≡ true = ground arith in
      rw (action-eq ref) (
        rw h
          (rw several (rw (proto_serialise-eq l f s (command (uris_command ref.uris platform))))))

  -- Two messages whose digests, as fields, are equal are the same message.
  abbrev pub IsApart : Message → Message → Type 0
  IsApart m n = field_digest m ≡ field_digest n → m ≡ n

  -- Without a generated command, and where the digests tell the messages of the two references
  -- apart, the action determines the reference: the URIs in their order, and the qualifiers up to
  -- order.
  pub uris_key_injective :
      (p q : AssetReference)
      → UsesUris p
      → UsesUris q
      → IsApart (command (uris_command p.uris platform)) (command (uris_command q.uris platform))
      → IsApart (directory_message p.qualifiers) (directory_message q.qualifiers)
      → IsApart (qualifiers_message p.qualifiers) (qualifiers_message q.qualifiers)
      → key_of (asset_reference_to_action l platform p f)
        ≡ key_of (asset_reference_to_action l platform q f)
      → (p.uris ≡ q.uris) × Perm p.qualifiers q.qualifiers
  unfolding uris_command qualifier_directory
  uris_key_injective p q up uq commands directories references e =
      let keys = sym (uris_key p up) ∙ e ∙ uris_key q uq in
      let same_command = commands (cc keys) in
      let same_directory = directories (cc keys) in
      let same_reference = references (cc same_directory) in
      (
        cc same_command,
        ((new_asset_reference-eq_iff [] [] p.qualifiers q.qualifiers).0 (cc same_reference)).1,
      )

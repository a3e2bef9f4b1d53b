-- ===== src/Storage/ActionCache/Key/Complete.antt =====
-- What the messages are that an action refers to.
use bb_remote_asset.Prelude.{
  String, ◌≡◌, refl, sym, ◌∙◌, subst, ◌⊎◌, inl, inr, Option, some, List, [], ltb, Bool-cases,
  length, All,
}
use bb_remote_asset.Prelude.Effect.{ok, Result, err, panic, ok_injective, and_then-eq-ok}
use bb_remote_asset.Qualifier.{Qualifier}
use bb_remote_asset.Qualifier.Translator.{Platform, Command, qualifiers_to_command}
use bb_remote_asset.Storage.Messages.{
  directory, AssetReference, Node, Directory, Action, Message, command,
}
use bb_remote_asset.Storage.Libraries.{Libraries}
use bb_remote_asset.Storage.Digest.{empty_digest, Serialises, digest_of, proto_serialise-eq}
use bb_remote_asset.Storage.ActionCache.Key.{
  uris_command, qualifier_directory, uris_action, generated_action, asset_reference_to_action,
  default_platform, first_uri, command_action,
}
use bb_remote_asset.Storage.ActionCache.Key.Laws.{
  sorted, field_digest, directory_message, objects_of, action-eq,
}

module _ (l : Libraries) (platform : Option Platform) (f : l.Function) (s : Serialises l f)
    (Has : Message → Type 0) where
  -- The file of a directory has a digest, which is that of a message that is there.
  abbrev pub HasFile : Node → Type 0
  HasFile node = (m : Message) × (node.digest ≡ some (field_digest l platform f s m)) × Has m

  -- The directory is there, with its files, and has no directories in it.
  abbrev pub HasDirectory : Directory → Type 0
  HasDirectory d = Has (directory d) × All HasFile d.files × (d.directories ≡ [])

  -- What an action refers to is there: the command, and an input root with its files, unless this is
  -- the empty directory.
  pub record IsComplete (key : Action) : Type 0 where
    pub has_command :
        (c : Command) × (key.command_digest ≡ field_digest l platform f s (command c))
        × Has (command c)
    pub has_input_root :
        ((d : Directory) × (key.input_root_digest ≡ field_digest l platform f s (directory d))
          × HasDirectory d)
        ⊎ (key.input_root_digest ≡ l.get_proto (empty_digest l f))

  uris_action-IsComplete :
      (uris : List String) (qs : List Qualifier) (key : Action) (objects : List Message)
      → uris_action l platform uris
          (digest_of l f s (directory_message l platform f s qs))
          f
          (objects_of l platform f s qs)
        ≡ ok (key, objects)
      → All Has objects
      → IsComplete key
  unfolding uris_action qualifier_directory
  uris_action-IsComplete uris qs key objects h =
      let made = rw (proto_serialise-eq l f s (command (uris_command uris platform))) at h in
      subst (λ (r : Action × List Message). All Has r.1 → IsComplete r.0) (ok_injective made)
        λ (has_reference, (has_directory, (has_command, _))). record {
          has_command = (_, refl, has_command);
          has_input_root = inl (_, refl, (has_directory, ((_, refl, has_reference), tt), refl));
        }

  generated_action-IsComplete :
      (g : String → Result Command) (uris : List String) (qs : List Qualifier) (key : Action)
      (objects : List Message)
      → generated_action l platform g uris f (objects_of l platform f s qs) ≡ ok (key, objects)
      → All Has objects
      → IsComplete key
  unfolding generated_action
  generated_action-IsComplete g uris qs key objects h =
      let (uri, _, h₁) = and_then-eq-ok (first_uri uris) _ h in
      let (c, _, h₂) = and_then-eq-ok (g uri) _ h₁ in
      let made = rw (proto_serialise-eq l f s (command (default_platform platform c))) at h₂ in
      subst (λ (r : Action × List Message). All Has r.1 → IsComplete r.0) (ok_injective made)
        λ (has_reference, (has_directory, (has_command, _))). record {
          has_command = (_, refl, has_command);
          has_input_root = inr refl;
        }

  command_action-IsComplete :
      (generator : Result (String → Result Command)) (ref : AssetReference) (key : Action)
      (objects : List Message)
      → command_action l platform generator ref.uris
          (digest_of l f s (directory_message l platform f s ref.qualifiers))
          f
          (objects_of l platform f s ref.qualifiers)
        ≡ ok (key, objects)
      → All Has objects
      → IsComplete key
  command_action-IsComplete (err _ e) ref key objects h =
      uris_action-IsComplete ref.uris ref.qualifiers key objects h
  command_action-IsComplete panic ref key objects h = cc
  command_action-IsComplete (ok g) ref key objects h = elim (Bool-cases (ltb 1 (length ref.uris))) [
    | inl many ↦ uris_action-IsComplete ref.uris ref.qualifiers key objects (rw many at h)
    | inr single ↦
        generated_action-IsComplete g ref.uris ref.qualifiers key objects (rw single at h)
  ]

  -- What the action of a reference refers to is there if the messages made with it are.
  pub asset_reference_to_action-IsComplete :
      (ref : AssetReference) (key : Action) (objects : List Message)
      → asset_reference_to_action l platform ref f ≡ ok (key, objects)
      → All Has objects
      → IsComplete key
  asset_reference_to_action-IsComplete ref key objects h =
      command_action-IsComplete (qualifiers_to_command (sorted ref.qualifiers)) ref key objects
        (sym (action-eq l platform f s ref) ∙ h)

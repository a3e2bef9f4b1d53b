-- ===== src/Storage/ActionCache/Key.antt =====
-- `assetReferenceToAction`: the action under which a reference is stored, and the messages that
-- it refers to.
pub mod Complete
pub mod Laws
use bb_remote_asset.Prelude.{
  String, Option, none, some, List, [], ◌∷◌, ◌++◌, ltb, if◌then◌else◌, length,
}
use bb_remote_asset.Prelude.Effect.{ok, Result, err, panic, and_then}
use bb_remote_asset.Qualifier.Translator.{
  Platform, tree_and_directory, Command, qualifiers_to_command,
}
use bb_remote_asset.Storage.Messages.{
  ProtoDigest, directory, AssetReference, Directory, Action, Message, reference, command,
}
use bb_remote_asset.Storage.Libraries.{Libraries}
use bb_remote_asset.Storage.Reference.{new_asset_reference}
use bb_remote_asset.Storage.Digest.{proto_serialise, empty_digest}

-- The command whose arguments are the URIs themselves.
unfoldable pub uris_command : List String → Option Platform → Command
uris_command uris platform = record {
  arguments = uris;
  output_paths = "out" ∷ [];
  output_directory_format = tree_and_directory;
  platform = platform;
}

-- `if command.Platform == nil { command.Platform = rs.platform }`
abbrev default_platform : Option Platform → Command → Command
default_platform p c = elim (c.platform) [ none ↦ record c { platform = p } | some _ ↦ c ]

-- `ref.Uris[0]`
abbrev first_uri : List String → Result String
first_uri [] = panic
first_uri (u ∷ _) = ok u

-- The directory that holds the qualifiers as a file.
unfoldable pub qualifier_directory : ProtoDigest → Directory
qualifier_directory digest = record {
  files = record { name = "AssetReference"; digest = some digest; unread = "" } ∷ [];
  directories = [];
  unread = "";
}

module _ (l : Libraries) (platform : Option Platform) where
  -- The branch that cannot generate a command.
  pub uris_action :
      List String → l.Digest → l.Function → List Message → Result (Action × List Message)
  uris_action uris directory_digest f objects =
      let c = uris_command uris platform in
      and_then (proto_serialise l (command c) f) λ (_, command_digest). ok (
        record {
          command_digest = l.get_proto command_digest;
          input_root_digest = l.get_proto directory_digest;
          platform = platform;
        },
        objects ++ command c ∷ [],
      )

  -- The branch that generates a command from the qualifiers.
  pub generated_action :
      (String → Result Command)
      → List String
      → l.Function
      → List Message
      → Result (Action × List Message)
  generated_action command_generator uris f objects = and_then (first_uri uris) λ uri.
      and_then (command_generator uri) λ generated.
        let c = default_platform platform generated in
        and_then (proto_serialise l (command c) f) λ (_, command_digest). ok (
          record {
            command_digest = l.get_proto command_digest;
            input_root_digest = l.get_proto (empty_digest l f);
            platform = c.platform;
          },
          objects ++ command c ∷ [],
        )

  abbrev command_action :
      Result (String → Result Command)
      → List String
      → l.Digest
      → l.Function
      → List Message
      → Result (Action × List Message)
  command_action (err _ _) uris d f objects = uris_action uris d f objects
  command_action panic uris d f objects = panic
  command_action (ok command_generator) uris d f objects =
      if ltb 1 (length uris)
      then uris_action uris d f objects
      else generated_action command_generator uris f objects

  -- `assetReferenceToAction`. Making the reference without URIs sorts `ref.Qualifiers` in place,
  -- so the qualifiers that are read below are the sorted ones.
  unfoldable pub asset_reference_to_action :
      AssetReference → l.Function → Result (Action × List Message)
  unfolding uris_action generated_action qualifier_directory
  asset_reference_to_action ref f =
      let qr = new_asset_reference [] ref.qualifiers in
      and_then (proto_serialise l (reference qr) f) λ (_, qr_digest).
        let d = qualifier_directory (l.get_proto qr_digest) in
        and_then (proto_serialise l (directory d) f) λ (_, directory_digest).
          command_action (qualifiers_to_command qr.qualifiers) ref.uris directory_digest f
            (reference qr ∷ directory d ∷ [])

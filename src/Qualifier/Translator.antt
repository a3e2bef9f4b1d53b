-- ===== src/Qualifier/Translator.antt =====
-- pkg/qualifier/qualifier_translator.go: from qualifiers to a command that fetches a URI.
pub mod Laws
pub mod Outcome
use bb_remote_asset.Prelude.{
  String, Option, none, some, List, [], ◌∷◌, ◌==◌, if◌then◌else◌, concat, split,
}
use bb_remote_asset.Prelude.Effect.{ok, plain, Result, err, panic, and_then}
use bb_remote_asset.Dict.{lookup, insert}
use bb_remote_asset.Qualifier.Defs.{Qualifier}

-- The message build.bazel.remote.execution.v2.Platform.
pub record Platform : Type 0 where
  pub properties : List (String × String)

-- Command.OutputDirectoryFormat; the program uses the third value alone.
pub data OutputDirectoryFormat : Type 0 where
  tree_only directory_only tree_and_directory : OutputDirectoryFormat

-- The fields of build.bazel.remote.execution.v2.Command that the program sets.
pub record Command : Type 0 where
  pub arguments : List String
  pub output_paths : List String
  pub output_directory_format : OutputDirectoryFormat
  pub platform : Option Platform

make_map_from : List (String × String) → List Qualifier → List (String × String)
make_map_from qual [] = qual
make_map_from qual (q ∷ qs) = make_map_from (insert q.name q.value qual) qs

-- `makeMap`
unfoldable pub make_map : List Qualifier → List (String × String)
unfolding make_map_from
make_map qualifiers = make_map_from [] qualifiers

abbrev with_branch : Option String → String → String
with_branch none script = script
with_branch (some branch) script = concat (script ∷ " --single-branch --branch " ∷ branch ∷ [])

abbrev with_commit : Option String → String → String
with_commit none script = script
with_commit (some commit) script = concat (script ∷ " && git -C out checkout " ∷ commit ∷ [])

-- `gitCommand`
unfoldable pub git_command : List (String × String) → String → Command
git_command qualifiers url =
    let cloned = concat ("git clone " ∷ url ∷ " out" ∷ []) in
    let branched = with_branch (lookup "vcs.branch" qualifiers) cloned in
    let script = with_commit (lookup "vcs.commit" qualifiers) branched in
    record {
      arguments = "sh" ∷ "-c" ∷ script ∷ [];
      output_paths = "out" ∷ [];
      output_directory_format = tree_and_directory;
      platform = none;
    }

-- The first two of the parts; indexing past the end panics.
abbrev first_two : List String → Result (String × String)
first_two (p ∷ q ∷ _) = ok (p, q)
first_two _ = panic

-- `parseChecksum`
unfoldable pub parse_checksum : String → Result (String × String)
parse_checksum c = first_two (split b'-' c)

abbrev with_username : Option String → String → String
with_username none script = script
with_username (some username) script = concat (script ∷ " --http-user=" ∷ username ∷ [])

abbrev with_password : Option String → String → String
with_password none script = script
with_password (some password) script = concat (script ∷ " --http-password=" ∷ password ∷ [])

abbrev checksum_script : String → String × String → String
checksum_script script (protocol, base64) = concat (
    script ∷ " && openssl dgst -" ∷ protocol ∷ " -binary out | openssl base64 -A | grep " ∷ base64
    ∷ [])

abbrev with_checksum : Option String → String → Result String
with_checksum none script = ok script
with_checksum (some checksum) script =
    and_then (parse_checksum checksum) λ parts. ok (checksum_script script parts)

-- The script before the checksum is looked at.
abbrev wget_script : List (String × String) → String → String
wget_script qualifiers url =
    let fetched = concat ("wget -O out " ∷ url ∷ []) in
    let named = with_username (lookup "auth.basic.username" qualifiers) fetched in
    with_password (lookup "auth.basic.password" qualifiers) named

-- `octetStreamCommand`
unfoldable pub octet_stream_command : List (String × String) → String → Result Command
unfolding parse_checksum
octet_stream_command qualifiers url =
    and_then (with_checksum (lookup "checksum.sri" qualifiers) (wget_script qualifiers url))
      λ script. ok (record {
        arguments = "sh" ∷ "-c" ∷ script ∷ [];
        output_paths = "out" ∷ [];
        output_directory_format = tree_and_directory;
        platform = none;
      })

-- The switch on the resource type.
command_for : List (String × String) → Option String → Result (String → Result Command)
command_for qualifiers none = err none (plain "missing resource_type")
command_for qualifiers (some resource_type) =
    if resource_type == "application/x-git"
    then ok (λ url. ok (git_command qualifiers url))
    else if resource_type == "application/octet-stream"
    then ok (octet_stream_command qualifiers)
    else err none (plain "unhandled resource_type")

-- `QualifiersToCommand`
unfoldable pub qualifiers_to_command : List Qualifier → Result (String → Result Command)
unfolding command_for
qualifiers_to_command q_arr =
    let qualifiers = make_map q_arr in command_for qualifiers (lookup "resource_type" qualifiers)

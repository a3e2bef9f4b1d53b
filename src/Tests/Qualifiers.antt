-- ===== src/Tests/Qualifiers.antt =====
-- The theorems on qualifiers and references, and what the operations compute, at concrete inputs.
use mathlib.Core.List.{Perm}
use bb_remote_asset.Prelude.{String, ◌≡◌, refl, ◌↔◌, true, some, [], ◌∷◌}
use bb_remote_asset.Dict.{lookup, insert}
use bb_remote_asset.Prelude.Effect.{ok, panic}
use bb_remote_asset.Qualifier.{Qualifier}
use bb_remote_asset.Qualifier.Translator.{make_map, git_command, qualifiers_to_command}
use bb_remote_asset.Qualifier.Translator.Laws.{
  last_value, read_names, AgreeOn, command_of, checksum_fault,
}
use bb_remote_asset.Qualifier.Translator.Outcome.{command_of-eq-panic_iff}
use bb_remote_asset.Storage.Reference.{new_asset_reference, new_asset_reference-eq_iff}
use bb_remote_asset.Qualifier.Sorter.{text_order, qualifier_order}

abbrev git_type : Qualifier
git_type = record { name = "resource_type"; value = "application/x-git" }

abbrev blob_type : Qualifier
blob_type = record { name = "resource_type"; value = "application/octet-stream" }

abbrev branch : Qualifier
branch = record { name = "vcs.branch"; value = "main" }

abbrev label : Qualifier
label = record { name = "label"; value = "x" }

abbrev bad_checksum : Qualifier
bad_checksum = record { name = "checksum.sri"; value = "sha256" }

agree : AgreeOn read_names (git_type ∷ branch ∷ []) (branch ∷ label ∷ git_type ∷ [])
unfolding last_value
agree = (refl, (refl, (refl, (refl, (refl, (refl, tt))))))

new_asset_reference-eq_iff_example :
    (new_asset_reference ("v" ∷ "u" ∷ []) [] ≡ new_asset_reference ("u" ∷ "v" ∷ []) [])
    ↔ (Perm {A = String} ("v" ∷ "u" ∷ []) ("u" ∷ "v" ∷ []) × Perm {A = Qualifier} [] [])
new_asset_reference-eq_iff_example =
    new_asset_reference-eq_iff ("v" ∷ "u" ∷ []) ("u" ∷ "v" ∷ []) [] []

command_of-eq-panic_iff_example :
    (command_of (blob_type ∷ bad_checksum ∷ []) "https://example.com/a" ≡ panic) ↔ (
      (last_value "resource_type" (blob_type ∷ bad_checksum ∷ []) ≡ some "application/octet-stream")
      × (checksum_fault (last_value "checksum.sri" (blob_type ∷ bad_checksum ∷ [])) ≡ true))
command_of-eq-panic_iff_example =
    command_of-eq-panic_iff (blob_type ∷ bad_checksum ∷ []) "https://example.com/a"

git_clone :
    command_of (git_type ∷ []) "https://example.com/a" ≡ ok (git_command [] "https://example.com/a")
unfolding command_of qualifiers_to_command lookup make_map insert git_command
git_clone = refl

-- ===== src/Fetch/Utils.antt =====
-- pkg/fetch/utils.go
use bb_remote_asset.Prelude.{String, [], ◌∷◌, concat}
use bb_remote_asset.Prelude.Effect.{unknown, Error, Result, and_then}
use bb_remote_asset.Storage.Messages.{DigestFunctionValue, unknown, sha256}
use bb_remote_asset.Storage.Libraries.{Libraries}
use bb_remote_asset.Storage.ActionCache.Value.{on_error}

-- SHA-256 stands for the unknown digest function.
abbrev pub default_function : DigestFunctionValue → DigestFunctionValue
default_function unknown = sha256
default_function v = v

abbrev pub invalid_instance_name : Libraries → String → Error → Error
invalid_instance_name l name e =
    l.status_wrap e (concat ("Invalid instance name " ∷ l.quoted name ∷ []))

-- `getDigestFunction`
unfoldable pub get_digest_function :
    (l : Libraries) → DigestFunctionValue → String → Result l.Function
get_digest_function l digest_function instance_name =
    and_then (on_error (invalid_instance_name l instance_name) (l.new_instance_name instance_name))
      λ instance_value. l.get_digest_function instance_value (default_function digest_function) 0

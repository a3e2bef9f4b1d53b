-- ===== src/Tests/Files.antt =====
-- The theorem on temporary files at a concrete input.
use bb_remote_asset.Prelude.{ℕ, String, ◌≡◌, refl, ap, false, none, List, [], ◌∷◌}
use bb_remote_asset.Prelude.Effect.{ok, Error, Result, err, status_error}
use bb_remote_asset.Storage.Messages.{DigestFunctionValue, Message}
use bb_remote_asset.Storage.Libraries.{Libraries, BlobAccess}
use bb_remote_asset.Fetch.Http.{fetch_blob}
use bb_remote_asset.Fetch.Http.Client.{Fallible, Transfer}
use bb_remote_asset.Fetch.Http.Tidy.{HandlesFiles}
use bb_remote_asset.Fetch.Http.Tidy.Fetched.{fetch_blob-keeps_temporary_files}
use bb_remote_asset.Tests.World.{missing, no_message, libraries}
use bb_remote_asset.Tests.Https.{no_json, in_order, answered, http_request, hello_digest}

-- A world of temporary files, whose buffers own one.
abbrev Files : Type 0
Files = List String

data FileBuffer : Type 0 where
  failure : Error → FileBuffer
  on_file : Fallible Files → FileBuffer

abbrev size_of : FileBuffer → Result ℕ
size_of (failure e) = err none e
size_of (on_file _) = ok 5

abbrev closes : FileBuffer → Files → Files
closes (failure _) w = w
closes (on_file close) w = (close w).1

abbrev last_removed : Files → Files
last_removed [] = []
last_removed (_ ∷ fs) = fs

abbrev file_libraries : Libraries
file_libraries = record {
  InstanceName = String;
  Function = DigestFunctionValue;
  Digest = Message;
  Generator = Message;
  new_instance_name = λ s. ok s;
  get_digest_function = λ _ v _. ok v;
  get_instance_name = λ _. "main";
  new_digest_from_proto = λ _ d. ok no_message;
  get_proto = λ _. hello_digest;
  zero_digest = no_message;
  new_generator = λ _ _. no_message;
  Bytes = Message;
  Buffer = FileBuffer;
  write = λ _ b. ok b;
  sum = λ g. g;
  new_proto_buffer = λ m. failure missing;
  get_size_bytes = size_of;
  to_byte_slice = λ b _. err none missing;
  to_asset = λ b _. err none missing;
  to_action_result = λ b _. err none missing;
  to_directory = λ b _. err none missing;
  to_tree = λ b _. err none missing;
  status_wrap = λ e _. e;
  status_wrap_with_code = λ e _ _. e;
  with_details = λ s ds. ok (record s { details = ds });
  as_time = libraries.as_time;
  check_valid = λ _. ok tt;
  new_timestamp = libraries.new_timestamp;
  error_text = λ _. "error";
  time_text = λ _. "time";
  quoted = λ s. s;
  type_text = λ _. "type";
}

abbrev file_transfer : Transfer file_libraries Files
file_transfer = record {
  Connection = String;
  File = String;
  new_request = λ _. ok tt;
  do_request = λ r w. (ok (answered r), w);
  close_body = λ _ w. (none, w);
  create_temp = λ w. (ok "tmp", "tmp" ∷ w);
  write_file = λ _ _ w. (ok tt, w);
  close_file = λ _ w. (none, w);
  remove_file = λ _ w. (none, last_removed w);
  file_name = λ s. s;
  is_not_exist = λ _. false;
  buffer_from_error = failure;
  buffer_from_reader_at = λ _ close _. on_file close;
  discard = closes;
  bad_digest = no_message;
  wrap_no_error = λ c m. ok (status_error c m);
  printf = λ _ w. w;
  unmarshal = no_json;
  range = in_order;
}

abbrev file_store : BlobAccess Message FileBuffer Files
file_store = record { get = λ d w. (err none missing, w); put = λ d x w. (ok tt, closes x w) }

handles_files : HandlesFiles file_libraries file_transfer file_store (λ w. w)
handles_files = record {
  created = λ w. refl;
  removed = λ file fs w e. ap last_removed e;
  request_keeps = λ r w. refl;
  close_body_keeps = λ c w. refl;
  write_keeps = λ file b w. refl;
  close_file_keeps = λ file w. refl;
  printf_keeps = λ line w. refl;
  error_has_no_size = λ e. refl;
  file_has_size = λ file close size. (5, refl);
  put_closes = λ d file close size w. refl;
  discard_closes = λ file close size w. refl;
}

fetch_blob-keeps_temporary_files_example :
    (fetch_blob file_libraries file_transfer file_store http_request ("other" ∷ [])).1
    ≡ ("other" ∷ [])
fetch_blob-keeps_temporary_files_example =
    fetch_blob-keeps_temporary_files file_libraries file_transfer file_store (λ w. w) handles_files
      http_request ("other" ∷ [])

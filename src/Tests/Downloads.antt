-- ===== src/Tests/Downloads.antt =====
-- The theorems on downloads at concrete inputs.
use bb_remote_asset.Prelude.Int.{negsuc}
use bb_remote_asset.Prelude.{
  inr, String, ◌≡◌, refl, ap, true, false, Option, none, some, [], ◌∷◌, ◌==◌, if◌then◌else◌, any,
  split_first, cut_prefix,
}
use bb_remote_asset.Prelude.Base64.{decode_base64, hex}
use bb_remote_asset.Prelude.Effect.{ok, plain, Result, err, status_error, and_then, ◌>>=◌}
use bb_remote_asset.Dict.{lookup, assign}
use bb_remote_asset.Storage.Messages.{DigestFunctionValue, sha256, Message}
use bb_remote_asset.Storage.Libraries.{Libraries, BlobAccess}
use bb_remote_asset.Storage.BlobStore.Refinement.{IsBlobMap}
use bb_remote_asset.Fetch.Utils.{get_digest_function}
use bb_remote_asset.Fetch.Http.{response, fetch_blob}
use bb_remote_asset.Fetch.Http.Checksum.{ExpectedChecksum, get_checksum_sri}
use bb_remote_asset.Fetch.Http.Headers.{AuthHeaders, apply_headers, get_auth_headers}
use bb_remote_asset.Fetch.Http.Client.{Transfer}
use bb_remote_asset.Fetch.Http.Download.Complete.{TakesBodies}
use bb_remote_asset.Fetch.Http.Verified.{IsVerified, fetch_blob-IsVerified}
use bb_remote_asset.Fetch.Http.Answered.{Refuses, Answers, fetch_blob-Responds}
use bb_remote_asset.Prelude.Updates.{changed, changed_same, changed_ne}
use bb_remote_asset.Tests.World.{Message-discrete, missing, answer, no_message, libraries}
use bb_remote_asset.Tests.Https.{
  checksum, for_second, both_uris, no_json, in_order, answered, http_request, hello_digest,
  downloaded,
}

-- A world whose buffers are results, which the CAS keeps.
abbrev ResultWorld : Type 0
ResultWorld = Message → Option (Result Message)

abbrev result_libraries : Libraries
result_libraries = record {
  InstanceName = String;
  Function = DigestFunctionValue;
  Digest = Message;
  Generator = Message;
  new_instance_name = λ s. ok s;
  get_digest_function = λ _ v _. ok v;
  get_instance_name = λ _. "main";
  new_digest_from_proto = λ _ d. ok no_message;
  get_proto = λ _. hello_digest;
  zero_digest = no_message;
  new_generator = λ _ _. no_message;
  Bytes = Message;
  Buffer = Result Message;
  write = λ _ b. ok b;
  sum = λ g. g;
  new_proto_buffer = λ m. ok m;
  get_size_bytes = λ b. and_then b (λ _. ok 5);
  to_byte_slice = λ b _. b;
  to_asset = λ b _. err none missing;
  to_action_result = λ b _. err none missing;
  to_directory = λ b _. err none missing;
  to_tree = λ b _. err none missing;
  status_wrap = λ e _. e;
  status_wrap_with_code = λ e _ _. e;
  with_details = λ s ds. ok (record s { details = ds });
  as_time = libraries.as_time;
  check_valid = λ _. ok tt;
  new_timestamp = libraries.new_timestamp;
  error_text = λ _. "error";
  time_text = λ _. "time";
  quoted = λ s. s;
  type_text = λ _. "type";
}

abbrev result_transfer : Transfer result_libraries ResultWorld
result_transfer = record {
  Connection = String;
  File = String;
  new_request = λ _. ok tt;
  do_request = λ r w. (ok (answered r), w);
  close_body = λ _ w. (none, w);
  create_temp = λ w. (ok "tmp", w);
  write_file = λ _ _ w. (ok tt, w);
  close_file = λ _ w. (none, w);
  remove_file = λ _ w. (none, w);
  file_name = λ s. s;
  is_not_exist = λ _. false;
  buffer_from_error = λ e. err none e;
  buffer_from_reader_at = λ _ _ _. ok no_message;
  discard = λ _ w. w;
  bad_digest = no_message;
  wrap_no_error = λ c m. ok (status_error c m);
  printf = λ _ w. w;
  unmarshal = no_json;
  range = in_order;
}

abbrev result_store : BlobAccess Message (Result Message) ResultWorld
result_store = record {
  get = λ d w. (and_then (answer (w d)) (λ b. ok b), w);
  put = λ d x w. (ok tt, changed Message-discrete d x w);
}

abbrev result_blob_map : IsBlobMap result_store
result_blob_map = record {
  view = λ w. w;
  get_hit = λ d w x e. ap (λ o. and_then (answer o) (λ b. ok b)) e;
  get_miss = λ d w e. (missing, ap (λ o. and_then (answer o) (λ b. ok b)) e);
  get_keeps = λ d c w. refl;
  put_stores = λ d x w _. changed_same Message-discrete d x w;
  put_keeps = λ d c x w apart. changed_ne Message-discrete d c x w apart;
}

abbrev no_results : ResultWorld
no_results _ = none

abbrev after_download : ResultWorld
after_download =
    (fetch_blob result_libraries result_transfer result_store http_request no_results).1

downloads :
    (fetch_blob result_libraries result_transfer result_store http_request no_results).0
    ≡ ok downloaded
unfolding fetch_blob ◌>>=◌ cut_prefix assign lookup split_first decode_base64 hex
downloads = refl

fetch_blob-IsVerified_example :
    (f : DigestFunctionValue) × (c : ExpectedChecksum result_libraries) × (auth : AuthHeaders)
    × (get_digest_function result_libraries sha256 "main" ≡ ok f)
    × (get_checksum_sri result_libraries (checksum ∷ for_second ∷ []) ≡ ok c)
    × (get_auth_headers result_libraries no_json in_order both_uris (checksum ∷ for_second ∷ [])
        ≡ ok auth)
    × (any (λ u. u == "https://example.com/b") both_uris ≡ true)
    × IsVerified result_libraries result_transfer result_store result_blob_map
        (λ e. refl)
        http_request
        f
        c
        auth
        downloaded
        after_download
fetch_blob-IsVerified_example =
    fetch_blob-IsVerified result_libraries result_transfer result_store result_blob_map (λ e. refl)
      http_request no_results after_download downloaded (λ i. (downloads i, after_download))

-- The first URI refuses the connection.
abbrev refusing_transfer : Transfer result_libraries ResultWorld
refusing_transfer = record result_transfer {
  do_request = λ r w.
      if r.uri == "https://example.com/a"
      then (err none (plain "connection refused"), w)
      else (ok (answered r), w);
}

first_is_refused :
    Refuses result_libraries refusing_transfer result_store (λ e. refl) "https://example.com/a"
first_is_refused = record { is_requested = refl; is_refused = λ headers w. tt }

abbrev hello_checksum : ExpectedChecksum result_libraries
hello_checksum = ("48656c6c6f", some sha256)

abbrev for_b : AuthHeaders
for_b = ("https://example.com/b", ("Authorization", "Basic x") ∷ []) ∷ []

takes_bodies : TakesBodies result_libraries refusing_transfer
takes_bodies = record {
  creates = λ w. ("tmp", w, refl);
  writes = λ file b w. (w, refl);
  closes = λ c w. (w, refl);
}

answers_second :
    Answers result_libraries refusing_transfer result_store
      (λ e. refl)
      sha256
      hello_checksum
      for_b
      "https://example.com/b"
unfolding apply_headers lookup
answers_second = record {
  is_requested = refl;
  content = no_message ∷ no_message ∷ [];
  content_length = negsuc 0;
  is_sent = λ w. (_, w, refl, refl, refl, refl);
  generator = no_message;
  is_digested = refl;
  has_checksum = inr (sha256, no_message, refl, refl, refl);
  size = 5;
  has_size = λ file. refl;
  is_taken = λ file w. refl;
}

function_of_request : get_digest_function result_libraries sha256 "main" ≡ ok sha256
unfolding get_digest_function
function_of_request = refl

checksum_of_request :
    get_checksum_sri result_libraries (checksum ∷ for_second ∷ []) ≡ ok hello_checksum
unfolding get_checksum_sri decode_base64 hex lookup split_first
checksum_of_request = refl

headers_of_request :
    get_auth_headers result_libraries no_json in_order both_uris (checksum ∷ for_second ∷ [])
    ≡ ok for_b
unfolding get_auth_headers cut_prefix assign lookup
headers_of_request = refl

fetch_blob-Responds_example :
    (d : Message) × ((fetch_blob result_libraries refusing_transfer result_store http_request
        no_results).0
      ≡ ok (
          response result_libraries refusing_transfer result_store http_request
            "https://example.com/b" d))
fetch_blob-Responds_example =
    fetch_blob-Responds result_libraries refusing_transfer result_store (λ e. refl) sha256
      hello_checksum for_b http_request ("https://example.com/a" ∷ []) "https://example.com/b" []
      no_results function_of_request checksum_of_request headers_of_request refl
      (first_is_refused, tt) takes_bodies answers_second

-- ===== src/Tests/World.antt =====
-- Libraries and worlds to run the program on: a message is its own buffer and its own digest, and
-- the stores are maps in memory.
use native.Mathlib.Decide.{ℕ_discrete}
use bb_remote_asset.Prelude.Updates.{String_discrete, changed, changed_same, changed_ne}
use bb_remote_asset.Storage.Trace.{AssetReference-discrete}
use bb_remote_asset.Prelude.{
  String, ◌≡◌, refl, ap, Option, none, some, [], ◌∷◌, ◌==◌, if◌then◌else◌,
}
use bb_remote_asset.Prelude.Int.{pos}
use bb_remote_asset.Prelude.Effect.{Code, ok, Error, Result, err, status_error}
use bb_remote_asset.Time.{utc, local, Time, Timestamp, Clock}
use bb_remote_asset.Qualifier.{Qualifier}
use bb_remote_asset.Storage.Messages.{
  ProtoDigest, DigestFunctionValue, blob, directory, AssetReference, Asset, Directory, Tree,
  ActionResult, Message, reference, asset, tree, action_result,
}
use bb_remote_asset.Storage.Libraries.{Libraries, BlobAccess, Authorizer}
use bb_remote_asset.Storage.Digest.{Serialises}
use bb_remote_asset.Storage.Store.{AssetStore, IsAssetMap}
use bb_remote_asset.Storage.BlobStore.Refinement.{IsBlobMap}

pub Message-discrete : Discrete Message
Message-discrete = hlevel (ℕ_discrete, String_discrete)

-- What the two blob stores of a world hold, and what its asset store holds.
pub record World : Type 0 where
  pub blobs : Message → Option Message
  pub results : Message → Option Message
  pub assets : AssetReference → Option Asset

abbrev pub empty_world : World
empty_world = record { blobs = λ _. none; results = λ _. none; assets = λ _. none }

abbrev pub missing : Error
missing = status_error Code.not_found "Object not found"

abbrev pub answer : {A : Type 0} → Option A → Result A
answer none = err none missing
answer (some a) = ok a

abbrev pub blob_store : BlobAccess Message Message World
blob_store = record {
  get = λ d w. (answer (w.blobs d), w);
  put = λ d x w. (ok tt, record w { blobs = changed Message-discrete d x w.blobs });
}

abbrev pub action_cache : BlobAccess Message Message World
action_cache = record {
  get = λ d w. (answer (w.results d), w);
  put = λ d x w. (ok tt, record w { results = changed Message-discrete d x w.results });
}

abbrev pub asset_store : AssetStore DigestFunctionValue World
asset_store = record {
  get = λ r f w. (answer (w.assets r), w);
  put = λ r a f w. (ok tt, record w { assets = changed AssetReference-discrete r a w.assets });
}

pub answer-hit : {A : Type 0} (o : Option A) (a : A) → o ≡ some a → answer o ≡ ok a
answer-hit o a e = ap answer e

pub answer-miss : {A : Type 0} (o : Option A) → o ≡ none → (e : Error) × (answer o ≡ err none e)
answer-miss o e = (missing, ap answer e)

abbrev pub blob_map : IsBlobMap blob_store
blob_map = record {
  view = λ (w : World). w.blobs;
  get_hit = λ d w x e. answer-hit (w.blobs d) x e;
  get_miss = λ d w e. answer-miss (w.blobs d) e;
  get_keeps = λ d c w. refl;
  put_stores = λ d x w _. changed_same Message-discrete d x w.blobs;
  put_keeps = λ d c x w apart. changed_ne Message-discrete d c x w.blobs apart;
}

abbrev pub result_map : IsBlobMap action_cache
result_map = record {
  view = λ (w : World). w.results;
  get_hit = λ d w x e. answer-hit (w.results d) x e;
  get_miss = λ d w e. answer-miss (w.results d) e;
  get_keeps = λ d c w. refl;
  put_stores = λ d x w _. changed_same Message-discrete d x w.results;
  put_keeps = λ d c x w apart. changed_ne Message-discrete d c x w.results apart;
}

abbrev pub asset_map : (f : DigestFunctionValue) → IsAssetMap asset_store f
asset_map f = record {
  view = λ (w : World). w.assets;
  IsStorable = λ _. Unit;
  get_hit = λ r w a e. answer-hit (w.assets r) a e;
  get_miss = λ r w e. answer-miss (w.assets r) e;
  get_keeps = λ r q w. refl;
  put_stores = λ r a w _ _. changed_same AssetReference-discrete r a w.assets;
  put_keeps = λ r q a w apart. changed_ne AssetReference-discrete r q a w.assets apart;
}

abbrev pub no_message : Message
no_message = reference (record { uris = []; qualifiers = [] })

abbrev read_asset : Message → Result Asset
read_asset (asset a) = ok a
read_asset _ = err none missing

abbrev read_result : Message → Result ActionResult
read_result (action_result r) = ok r
read_result _ = err none missing

abbrev read_directory : Message → Result Directory
read_directory (directory d) = ok d
read_directory _ = err none missing

abbrev read_tree : Message → Result Tree
read_tree (tree t) = ok t
read_tree _ = err none missing

-- A digest that a client gives stands for a reference with the hash as its URI.
abbrev given_digest : Option ProtoDigest → Result Message
given_digest none = err none (status_error Code.invalid_argument "No digest provided")
given_digest (some d) = ok (reference (record { uris = d.hash ∷ []; qualifiers = [] }))

abbrev time_of : Option Timestamp → Time
time_of none = record { instant = pos 0; location = utc }
time_of (some t) = record { instant = t.seconds; location = utc }

abbrev pub libraries : Libraries
libraries = record {
  InstanceName = String;
  Function = DigestFunctionValue;
  Digest = Message;
  Generator = Message;
  new_instance_name = λ s. ok s;
  get_digest_function = λ _ v _. ok v;
  get_instance_name = λ _. "main";
  new_digest_from_proto = λ _ d. given_digest d;
  get_proto = λ _. record { hash = "hash"; size_bytes = pos 0 };
  zero_digest = no_message;
  new_generator = λ _ _. no_message;
  Bytes = Message;
  Buffer = Message;
  write = λ _ b. ok b;
  sum = λ g. g;
  new_proto_buffer = λ m. m;
  get_size_bytes = λ _. ok 0;
  to_byte_slice = λ b _. ok b;
  to_asset = λ b _. read_asset b;
  to_action_result = λ b _. read_result b;
  to_directory = λ b _. read_directory b;
  to_tree = λ b _. read_tree b;
  status_wrap = λ e _. e;
  status_wrap_with_code = λ e _ _. e;
  with_details = λ s ds. ok (record s { details = ds });
  as_time = time_of;
  check_valid = λ _. ok tt;
  new_timestamp = λ t. record { seconds = t.instant; nanos = pos 0 };
  error_text = λ _. "error";
  time_text = λ _. "time";
  quoted = λ s. s;
  type_text = λ _. "type";
}

abbrev pub serialises : (f : DigestFunctionValue) → Serialises libraries f
serialises f = record {
  size_of = λ _. 0;
  bytes_of = λ m. m;
  written = λ _ b. b;
  hash = λ b. b;
  has_size = λ m. refl;
  has_bytes = λ m. refl;
  writes = λ n b. refl;
  sums = λ n b. refl;
  no_collision = λ m n e. e;
}

abbrev pub clock : Clock World
clock = record { now = λ w. (record { instant = pos 100; location = local }, w) }

-- An authorizer that knows one instance name.
abbrev pub allows : String → Authorizer String World
allows name = record {
  authorize = λ i w.
      if i == name
      then (ok tt, w)
      else (err none (status_error Code.permission_denied "Permission denied"), w);
}

abbrev pub digest : ProtoDigest
digest = record { hash = "root"; size_bytes = pos 5 }

abbrev pub stored_asset : Asset
stored_asset = record {
  digest = some digest;
  expire_at = some (record { seconds = pos 9; nanos = pos 0 });
  last_updated = some (record { seconds = pos 3; nanos = pos 0 });
  type = blob;
}

abbrev pub label : Qualifier
label = record { name = "label"; value = "x" }

abbrev pub git_type : Qualifier
git_type = record { name = "resource_type"; value = "application/x-git" }

abbrev pub one_uri : AssetReference
one_uri = record { uris = "https://example.com/a" ∷ []; qualifiers = label ∷ [] }

abbrev pub two_uris : AssetReference
two_uris = record { uris = "https://example.com/a" ∷ "https://example.com/b" ∷ []; qualifiers = [] }

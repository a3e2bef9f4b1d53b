-- ===== src/Fetch/Caching.antt =====
-- pkg/fetch/caching_fetcher.go: assets are looked up in an asset store, URI by URI, before the
-- wrapped fetcher is asked; what it fetches is stored.
pub mod Usable
pub mod Lookup
pub mod Returns
pub mod Served
pub mod Refetch
pub mod Kept
pub mod Stored
pub mod Failed
use text.Mathlib.Text.{starts_with}
use bb_remote_asset.Prelude.{
  String, ◌⊎◌, inl, inr, Bool, false, not, ◌&&◌, Option, none, some, List, [], ◌∷◌, ◌++◌, ◌==◌, ltb,
  if◌then◌else◌, length, is_nil, concat,
}
use bb_remote_asset.Prelude.Effect.{
  ok, is_ok_code, Status, Error, status, Result, err, panic, convert, Exec, pure, raise, crash,
  lift, and_then, ◌>>=◌, ◌>>◌, caught,
}
use bb_remote_asset.Time.{Time, unix_epoch, before, same_instant, same_struct, Timestamp, Clock}
use bb_remote_asset.Qualifier.{Qualifier}
use bb_remote_asset.Qualifier.Set.{NameSet}
use bb_remote_asset.Storage.Messages.{Asset}
use bb_remote_asset.Storage.Libraries.{Libraries}
use bb_remote_asset.Storage.Reference.{new_asset_reference}
use bb_remote_asset.Storage.Asset.{new_blob_asset, new_directory_asset, get_default_timestamp}
use bb_remote_asset.Storage.Store.{AssetStore}
use bb_remote_asset.Fetch.Interface.{
  FetchRequest, FetchBlobResponse, FetchDirectoryResponse, Fetcher, ok_status,
}
use bb_remote_asset.Fetch.Utils.{get_digest_function}
use bb_remote_asset.Fetch.ErrorFetcher.{error_proto}

-- `removeVolatileQualifiers`, into a new slice
unfoldable pub remove_volatile_qualifiers : List Qualifier → List Qualifier
remove_volatile_qualifiers [] = []
remove_volatile_qualifiers (q ∷ qs) =
    let rest = remove_volatile_qualifiers qs in
    if starts_with q.name "http_header_url:"
    then rest
    else if q.name == "bazel.auth_headers"
    then rest
    else q ∷ rest

-- The two checks of `getAndCheckAsset`, `now` being the time at which the first is made.
unfoldable pub is_expired : Libraries → Time → Option Timestamp → Bool
is_expired l now none = false
is_expired l now (some t) =
    before (l.as_time (some t)) now && not (same_instant (l.as_time (some t)) unix_epoch)

unfoldable pub is_too_old : Libraries → Time → Option Timestamp → Bool
is_too_old l oldest last_updated =
    not (same_struct oldest unix_epoch) && before (l.as_time last_updated) oldest

-- errors.Join: nil errors are not joined; of none it is nil, which prints as <nil>.
abbrev join_lines : List String → List String
join_lines [] = []
join_lines (s ∷ []) = s ∷ []
join_lines (s ∷ t ∷ ts) = s ∷ "\n" ∷ join_lines (t ∷ ts)

abbrev error_texts : Libraries → List Error → List String
error_texts l [] = []
error_texts l (e ∷ es) = l.error_text e ∷ error_texts l es

abbrev pub joined_text : Libraries → List Error → String
joined_text l errors = if is_nil errors then "<nil>" else concat (join_lines (error_texts l errors))

-- The message that a failure of the wrapped fetcher gets.
abbrev pub with_caching_errors : Libraries → String → List Error → Status → Status
with_caching_errors l kind errors s = record {
  code = s.code;
  message = concat (
      s.message
      ∷ " (retrieving cached "
      ∷ kind
      ∷ " failed with: "
      ∷ joined_text l errors
      ∷ ")"
      ∷ []);
  details = [];
}

-- `response, err := fetch(); if err != nil { return nil, status.Errorf(...) }`
abbrev pub change_failure : {W A : Type 0} → (Status → Status) → Result A × W → Result A × W
change_failure f (ok a, w) = (ok a, w)
change_failure f (err _ e, w) = (error_proto (f (convert e)), w)
change_failure f (panic, w) = (panic, w)

-- `if err != nil { return response, err }`
abbrev pub continue_beside : {W A B : Type 0} → A → Result B × W → Exec W A → Result A × W
continue_beside a (ok _, w) m = m w
continue_beside a (err _ e, w) m = (err (some a) e, w)
continue_beside a (panic, w) m = (panic, w)

unfoldable pub beside : {W A B : Type 0} → A → Exec W B → Exec W A → Exec W A
beside a n m w = continue_beside a (n w) m

module _ (l : Libraries) {W : Type 0} (store : AssetStore l.Function W) (clock : Clock W) where
  abbrev pub read_clock : Exec W Time
  read_clock w = (ok (clock.now w).0, (clock.now w).1)

  -- The check of `ExpireAt`, which reads the clock when it is set.
  unfoldable pub check_expiry : Option Timestamp → Exec W (Unit {0})
  check_expiry none = pure tt
  check_expiry (some t) = do
    now ← read_clock
    if is_expired l now (some t)
        then raise
            (Error.plain (concat ("Asset expired at " ∷ l.time_text (l.as_time (some t)) ∷ [])))
        else pure tt

  -- The check of `LastUpdated`
  unfoldable pub check_age : Time → Asset → Exec W Asset
  check_age oldest a =
      if is_too_old l oldest a.last_updated
      then raise (Error.plain (concat ("Asset older than " ∷ l.time_text oldest ∷ [])))
      else pure a

  -- `getAndCheckAsset`
  unfoldable pub get_and_check_asset : String → List Qualifier → l.Function → Time → Exec W Asset
  unfolding check_expiry check_age
  get_and_check_asset uri qualifiers f oldest = do
    a ← store.get (new_asset_reference (uri ∷ []) qualifiers) f
    _ ← check_expiry a.expire_at
    check_age oldest a

  -- The loop over the URIs: the first one with a usable asset, or the errors of all.
  unfoldable pub look_up :
      List Qualifier
      → l.Function
      → Time
      → List Error
      → List String
      → Exec W ((String × Asset) ⊎ List Error)
  unfolding get_and_check_asset
  look_up qualifiers f oldest errors [] = pure (inr errors)
  look_up qualifiers f oldest errors (uri ∷ uris) =
      (λ w. caught (get_and_check_asset uri qualifiers f oldest w)) >>= λ (r : Asset ⊎ Error).
      elim r [
        | inl a ↦ pure (inl (uri, a))
        | inr e ↦ look_up qualifiers f oldest (errors ++ e ∷ []) uris
      ]

  -- The response is stored for its own URI and, when the request has several, for their list;
  -- `make` makes the asset. An error of the store is returned beside the response.
  unfoldable pub store_fetched :
      {A : Type 0}
      → List String
      → String
      → List Qualifier
      → (W → Asset × W)
      → l.Function
      → A
      → Exec W A
  unfolding remove_volatile_qualifiers
  store_fetched uris uri qualifiers make f response w =
      let ref = new_asset_reference (uri ∷ []) (remove_volatile_qualifiers qualifiers) in
      let (a, v) = make w in
      beside response (store.put ref a f)
        (if ltb 1 (length uris)
          then beside response (store.put (new_asset_reference uris ref.qualifiers) a f)
              (pure response)
          else pure response)
        v

-- The oldest content that the request accepts; `FetchBlob` checks it for validity.
abbrev pub oldest_of : Libraries → Option Timestamp → Time
oldest_of l none = unix_epoch
oldest_of l (some t) = l.as_time (some t)

abbrev pub check_oldest : Libraries → Option Timestamp → Result Time
check_oldest l none = ok unix_epoch
check_oldest l (some t) = and_then (l.check_valid t) λ _. ok (l.as_time (some t))

module _ (l : Libraries) {W : Type 0} (fetcher : Fetcher W) (store : AssetStore l.Function W)
    (clock : Clock W) where
  -- What `FetchBlob` does with a response of the wrapped fetcher. A response without a status is
  -- a nil that is dereferenced.
  unfoldable pub keep_blob :
      FetchRequest → l.Function → FetchBlobResponse → Option Status → Exec W FetchBlobResponse
  unfolding store_fetched new_blob_asset
  keep_blob req f response none = crash
  keep_blob req f response (some s) =
      if not (is_ok_code s.code)
      then pure response
      else store_fetched l store clock req.uris response.uri response.qualifiers
          (new_blob_asset l clock response.blob_digest (some (get_default_timestamp l))) f response

  -- `FetchBlob` after its loop
  unfoldable pub finish_blob :
      FetchRequest → l.Function → (String × Asset) ⊎ List Error → Exec W FetchBlobResponse
  unfolding keep_blob
  finish_blob req f (inl (uri, a)) = pure (record {
    status = some (ok_status "Blob fetched successfully from asset cache");
    uri = uri;
    qualifiers = req.qualifiers;
    blob_digest = a.digest;
  })
  finish_blob req f (inr errors) = do
    response ← λ w. change_failure (with_caching_errors l "blob" errors) (fetcher.fetch_blob req w)
    keep_blob req f response response.status

  -- `FetchBlob`
  unfoldable pub fetch_blob : FetchRequest → Exec W FetchBlobResponse
  unfolding look_up finish_blob
  fetch_blob req = do
    f ← lift (get_digest_function l req.digest_function req.instance_name)
    oldest ← lift (check_oldest l req.oldest_content_accepted)
    r ← look_up l store clock (remove_volatile_qualifiers req.qualifiers) f oldest [] req.uris
    finish_blob req f r

  -- `FetchDirectory` after its loop. The status of the response is not looked at.
  unfoldable pub finish_directory :
      FetchRequest → l.Function → (String × Asset) ⊎ List Error → Exec W FetchDirectoryResponse
  unfolding store_fetched new_directory_asset
  finish_directory req f (inl (uri, a)) = pure (record {
    status = some (ok_status "Directory fetched successfully from asset cache");
    uri = uri;
    qualifiers = req.qualifiers;
    root_directory_digest = a.digest;
  })
  finish_directory req f (inr errors) = do
    response ← λ w.
        change_failure (with_caching_errors l "directory" errors) (fetcher.fetch_directory req w)
    store_fetched l store clock req.uris response.uri response.qualifiers
        (new_directory_asset l clock response.root_directory_digest
          (some (get_default_timestamp l)))
        f response

  -- `FetchDirectory`. The accepted age is not checked for validity.
  unfoldable pub fetch_directory : FetchRequest → Exec W FetchDirectoryResponse
  unfolding look_up finish_directory
  fetch_directory req = do
    f ← lift (get_digest_function l req.digest_function req.instance_name)
    r ←
        look_up l store clock (remove_volatile_qualifiers req.qualifiers) f
          (oldest_of l req.oldest_content_accepted) [] req.uris
    finish_directory req f r

  -- `CheckQualifiers`
  unfoldable pub check_qualifiers : NameSet → NameSet
  check_qualifiers qualifiers = fetcher.check_qualifiers qualifiers

  -- `NewCachingFetcher`
  unfoldable pub new_caching_fetcher : Fetcher W
  unfolding fetch_blob fetch_directory check_qualifiers
  new_caching_fetcher = record {
    fetch_blob = fetch_blob;
    fetch_directory = fetch_directory;
    check_qualifiers = check_qualifiers;
  }

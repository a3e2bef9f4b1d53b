-- ===== src/Fetch/ErrorFetcher.antt =====
-- pkg/fetch/error_fetcher.go, and `DefaultFetcher` of fetcher.go.
use bb_remote_asset.Prelude.{none, [], if◌then◌else◌}
use bb_remote_asset.Prelude.Effect.{Code, is_ok_code, Status, Error, Result, err, panic, lift}
use bb_remote_asset.Qualifier.Set.{empty}
use bb_remote_asset.Fetch.Interface.{Fetcher}

-- `return nil, status.ErrorProto(s)`. Of a status OK that is nil and no error, which every caller
-- dereferences; it is the panic that follows.
abbrev pub error_proto {ℓ} : {A : Type ℓ} → Status → Result A
error_proto s = if is_ok_code s.code then panic else err none (Error.status s)

-- `NewErrorFetcher`
unfoldable pub new_error_fetcher : {W : Type 0} → Status → Fetcher W
new_error_fetcher s = record {
  fetch_blob = λ req. lift (error_proto s);
  fetch_directory = λ req. lift (error_proto s);
  check_qualifiers = λ qualifiers. empty;
}

-- `DefaultFetcher`
unfoldable pub default_fetcher : {W : Type 0} → Fetcher W
unfolding new_error_fetcher
default_fetcher = new_error_fetcher (record {
  code = Code.unimplemented;
  message = "Fetching is not configured for this server";
  details = [];
})

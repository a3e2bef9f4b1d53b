-- ===== src/Tests/Decorators.antt =====
-- The theorems on the fetchers that decorate another at concrete inputs.
use bb_remote_asset.Prelude.{
  arith, String, ◌≡◌, refl, inl, inr, Bool, not, ◌&&◌, [], ◌∷◌, ◌==◌, eq_iff, if◌then◌else◌,
  Bool-cases,
}
use bb_remote_asset.Prelude.Effect.{ok, Code}
use bb_remote_asset.Qualifier.Set.{NameSet, contains, empty, new_set}
use bb_remote_asset.Fetch.Interface.{FetchRequest, Fetcher}
use bb_remote_asset.Fetch.Validating.{new_validating_fetcher}
use bb_remote_asset.Fetch.Validating.Laws.{
  ReportsUnsupported, TakesDetails, IsRefused, acceptable_request_is_forwarded,
  unacceptable_request-IsRefused,
}
use bb_remote_asset.Fetch.Authorizing.{new_authorizing_fetcher}
use bb_remote_asset.Fetch.Authorizing.Laws.{IsGuardedBy, new_authorizing_fetcher-IsGuardedBy}
use bb_remote_asset.Fetch.Metrics.{Metric, new_metrics_fetcher, new_metrics_fetcher-fetch_blob}
use bb_remote_asset.Fetch.Logging.{Line}
use bb_remote_asset.Tests.World.{clock, World, empty_world, libraries, allows}
use bb_remote_asset.Tests.Fetches.{blob_response, request, remote}

pub takes_details : TakesDetails libraries
takes_details = record { takes = λ s ds bad. (record s { details = ds }, refl, refl) }

-- It supports the names that are not "label".
abbrev pub supported : String → Bool
supported k = not ("label" == k)

abbrev pub selective : Fetcher World
selective = record (remote Code.ok) {
  check_qualifiers = λ names. if contains names "label" then new_set ("label" ∷ []) else empty;
}

pub reports : ReportsUnsupported selective.check_qualifiers supported
unfolding contains new_set
reports = record { contains-check = go }
  where
    go :
        (s : NameSet) (k : String)
        → contains (if contains s "label" then new_set ("label" ∷ []) else empty) k
          ≡ (contains s k && not (not ("label" == k)))
    go s k = elim (Bool-cases ("label" == k)) [
      | inl same ↦ rw (← (eq_iff "label" k).0 same) (elim (Bool-cases (contains s "label")) [
        | inl there ↦ rw there refl
        | inr gone ↦ rw gone refl
      ])
      | inr apart ↦ elim (Bool-cases (contains s "label")) [
        | inl there ↦ rw (there, apart) (ground arith)
        | inr gone ↦ rw (gone, apart) (ground arith)
      ]
    ]

abbrev plain_request : FetchRequest
plain_request = record request { qualifiers = [] }

acceptable_request_is_forwarded_example :
    ((new_validating_fetcher libraries selective).fetch_blob plain_request
      ≡ selective.fetch_blob plain_request)
    × ((new_validating_fetcher libraries selective).fetch_directory plain_request
        ≡ selective.fetch_directory plain_request)
acceptable_request_is_forwarded_example =
    acceptable_request_is_forwarded libraries selective supported reports plain_request refl

unacceptable_request-IsRefused_example :
    IsRefused ((new_validating_fetcher libraries selective).fetch_blob request) empty_world
    × IsRefused ((new_validating_fetcher libraries selective).fetch_directory request) empty_world
unacceptable_request-IsRefused_example =
    unacceptable_request-IsRefused libraries selective supported reports request empty_world
      takes_details refl

new_authorizing_fetcher-IsGuardedBy_example :
    IsGuardedBy
      ((allows "main").authorize "main" empty_world)
      ((remote Code.ok).fetch_blob request)
      ((new_authorizing_fetcher libraries (remote Code.ok) (allows "main")).fetch_blob request
        empty_world)
    × IsGuardedBy
        ((allows "main").authorize "main" empty_world)
        ((remote Code.ok).fetch_directory request)
        ((new_authorizing_fetcher libraries (remote Code.ok) (allows "main")).fetch_directory
          request empty_world)
new_authorizing_fetcher-IsGuardedBy_example =
    new_authorizing_fetcher-IsGuardedBy libraries (remote Code.ok) (allows "main") request
      empty_world "main" refl

abbrev pub silent : Line → World → World
silent line w = w

abbrev pub ignore : Metric → World → World
ignore metric w = w

new_metrics_fetcher-fetch_blob_example :
    ((new_metrics_fetcher (remote Code.ok) clock ignore).fetch_blob request empty_world).0
    ≡ ok (blob_response Code.ok)
new_metrics_fetcher-fetch_blob_example =
    new_metrics_fetcher-fetch_blob (remote Code.ok) clock ignore request empty_world empty_world
      (blob_response Code.ok) refl

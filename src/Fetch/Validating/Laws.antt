-- ===== src/Fetch/Validating/Laws.antt =====
-- Which requests pass the validation, and what becomes of the others.
use bb_remote_asset.Prelude.{
  String, ◌≡◌, refl, sym, ◌↔◌, inl, inr, Bool, true, false, not, ◌&&◌, none, List, [], ◌∷◌, arith,
  ◌==◌, eq_iff, eq_refl, Bool-cases, is_nil, all,
}
use bb_remote_asset.Prelude.Effect.{Code, ok, is_ok_code, FieldViolation, Status, Error, err, Exec}
use bb_remote_asset.Qualifier.{Qualifier}
use bb_remote_asset.Qualifier.Set.{NameSet, contains, is_empty, qualifiers_to_set}
use bb_remote_asset.Qualifier.Set.Laws.{names_any, contains-qualifiers_to_set, is_empty_iff}
use bb_remote_asset.Storage.Libraries.{Libraries}
use bb_remote_asset.Fetch.Interface.{FetchRequest, Fetcher}
use bb_remote_asset.Fetch.Validating.{
  violations, unsupported_status, check_qualifiers, fetch_blob, fetch_directory,
  new_validating_fetcher, validate,
}

-- The contract of `CheckQualifiers`: it returns, of the names it is given, those not supported.
pub record ReportsUnsupported (check : NameSet → NameSet) (supported : String → Bool) : Type 0 where
  pub contains-check :
      (s : NameSet) (k : String) → contains (check s) k ≡ (contains s k && not (supported k))

-- A status whose code is not OK takes details on, and keeps its code.
pub record TakesDetails (l : Libraries) : Type 0 where
  pub takes :
      (s : Status) (ds : List FieldViolation)
      → is_ok_code s.code ≡ false
      → (t : Status) × (l.with_details s ds ≡ ok t) × (t.code ≡ s.code)

-- There are URIs, and all names of qualifiers are supported.
abbrev pub is_acceptable : (String → Bool) → FetchRequest → Bool
is_acceptable supported req =
    not (is_nil req.uris) && all (λ (q : Qualifier). supported q.name) req.qualifiers

-- The request fails with the code InvalidArgument, in the world as it was.
abbrev pub IsRefused : {W A : Type 0} → Exec W A → W → Type 0
IsRefused m w =
    (s : Status) × (s.code ≡ Code.invalid_argument) × (m w ≡ (err none (Error.status s), w))

module _ (supported : String → Bool) where
  all-names_any :
      (qs : List Qualifier) (k : String)
      → all (λ (q : Qualifier). supported q.name) qs ≡ true
      → names_any qs k ≡ true
      → supported k ≡ true
  unfolding names_any
  all-names_any [] k h e = cc
  all-names_any (q ∷ qs) k h e = elim (Bool-cases (q.name == k)) [
    | inl p ↦ rw (sym ((eq_iff q.name k).0 p)) (ground (arith, h))
    | inr n ↦ all-names_any qs k (ground (arith, h)) (ground (arith, n, e))
  ]

  names_any-all :
      (qs : List Qualifier)
      → ((k : String) → names_any qs k ≡ true → supported k ≡ true)
      → all (λ (q : Qualifier). supported q.name) qs ≡ true
  unfolding names_any
  names_any-all [] h = refl
  names_any-all (q ∷ qs) h =
      ground (arith, h q.name, eq_refl q.name, names_any-all qs λ k e. h k (ground (arith, e)))

module _ (l : Libraries) {W : Type 0} (fetcher : Fetcher W) (supported : String → Bool)
    (c : ReportsUnsupported fetcher.check_qualifiers supported) where
  -- The set of unsupported names is empty when all names are supported, and only then.
  is_empty-check_iff :
      (qs : List Qualifier)
      → (is_empty (check_qualifiers l fetcher (qualifiers_to_set qs)) ≡ true)
        ↔ (all (λ (q : Qualifier). supported q.name) qs ≡ true)
  unfolding check_qualifiers
  is_empty-check_iff qs =
      let set = qualifiers_to_set qs in
      let reported = fetcher.check_qualifiers set in
      (
        λ e. names_any-all supported qs λ k h. ground (
          arith,
          h,
          (is_empty_iff reported).0 e k,
          c.contains-check set k,
          contains-qualifiers_to_set qs k,
        ),
        λ h. (is_empty_iff reported).1 λ k. elim (Bool-cases (names_any qs k)) [
          | inl n ↦ ground (
            arith,
            n,
            all-names_any supported qs k h n,
            c.contains-check set k,
            contains-qualifiers_to_set qs k,
          )
          | inr n ↦ ground (arith, n, c.contains-check set k, contains-qualifiers_to_set qs k)
        ],
      )

  validate_accepts :
      {A : Type 0} (name : String) (req : FetchRequest) (forward : Exec W A)
      → is_acceptable supported req ≡ true
      → validate l fetcher name req forward ≡ forward
  unfolding validate
  validate_accepts name req forward h =
      rw
        (
          Bool-first (is_nil req.uris) _ h,
          (is_empty-check_iff req.qualifiers).1 (Bool-second (is_nil req.uris) _ h),
        )
        refl
    where
      Bool-first : (b d : Bool) → (not b && d) ≡ true → b ≡ false
      Bool-first true d h = cc
      Bool-first false d h = refl

      Bool-second : (b d : Bool) → (not b && d) ≡ true → d ≡ true
      Bool-second true d h = cc
      Bool-second false d h = h

  validate_refuses :
      {A : Type 0} (name : String) (req : FetchRequest) (forward : Exec W A) (w : W)
      → TakesDetails l
      → is_acceptable supported req ≡ false
      → IsRefused (validate l fetcher name req forward) w
  unfolding validate
  validate_refuses {A} name req forward w d h = elim (Bool-cases (is_nil req.uris)) [
    | inl n ↦ rw n (_, refl, refl)
    | inr n ↦
        elim (Bool-cases
          (is_empty (check_qualifiers l fetcher (qualifiers_to_set req.qualifiers)))) [
            | inl e ↦ absurd (ground (arith, n, h, (is_empty-check_iff req.qualifiers).0 e))
            | inr e ↦
                let (t, p, k) =
                  d.takes unsupported_status
                    (violations
                      (check_qualifiers l fetcher (qualifiers_to_set req.qualifiers)).names)
                    refl in
                rw (n, e, p) (t, k, refl)
          ]
  ]

  -- The wrapped fetcher reports exactly the names outside of a set of supported ones. A request
  -- that has URIs and names only supported qualifiers is passed on to the wrapped
  -- fetcher as it is, for blobs and directories alike.
  pub acceptable_request_is_forwarded :
      (req : FetchRequest)
      → is_acceptable supported req ≡ true
      → ((new_validating_fetcher l fetcher).fetch_blob req ≡ fetcher.fetch_blob req)
        × ((new_validating_fetcher l fetcher).fetch_directory req ≡ fetcher.fetch_directory req)
  unfolding new_validating_fetcher fetch_blob fetch_directory
  acceptable_request_is_forwarded req h = (
    validate_accepts "FetchBlob" req (fetcher.fetch_blob req) h,
    validate_accepts "FetchDirectory" req (fetcher.fetch_directory req) h,
  )

  -- The wrapped fetcher reports exactly the names outside of a set of supported ones, and a gRPC
  -- status whose code is not OK takes details on and keeps its code. A request that has no URIs or
  -- names a qualifier that is not supported fails with InvalidArgument, for blobs and directories
  -- alike, in the world as it was.
  pub unacceptable_request-IsRefused :
      (req : FetchRequest) (w : W)
      → TakesDetails l
      → is_acceptable supported req ≡ false
      → IsRefused ((new_validating_fetcher l fetcher).fetch_blob req) w
        × IsRefused ((new_validating_fetcher l fetcher).fetch_directory req) w
  unfolding new_validating_fetcher fetch_blob fetch_directory
  unacceptable_request-IsRefused req w d h = (
    validate_refuses "FetchBlob" req (fetcher.fetch_blob req) w d h,
    validate_refuses "FetchDirectory" req (fetcher.fetch_directory req) w d h,
  )

-- ===== src/Fetch/Http/Headers/WellFormed.antt =====
-- Which requests are refused for their headers.
use mathlib.Core.List.{Perm}
use bb_remote_asset.Prelude.{
  String, ◌≡◌, refl, ap, ◌∙◌, inl, inr, Bool, false, not, ◌&&◌, ◌||◌, Option, none, some, List, [],
  ◌∷◌, arith, ◌==◌, eq_iff, Bool-cases, Option-cases, is_some, any, all, all-perm, split,
  cut_prefix,
}
use bb_remote_asset.Prelude.Decimal.{parse_int}
use bb_remote_asset.Prelude.Effect.{ok, Result, err, panic, and_then, is_ok}
use bb_remote_asset.Dict.{assign}
use bb_remote_asset.Qualifier.{Qualifier}
use bb_remote_asset.Storage.Libraries.{Libraries}
use bb_remote_asset.Fetch.Http.Headers.{
  after_loop, AuthHeaders, with_url, Collected, legacy, collected, collect, three_parts, uri_at,
  add_for_url, add_for_urls, get_auth_headers, add_parts,
}
use bb_remote_asset.Fetch.Http.Headers.Laws.{is_for_url, is_legacy}

abbrev has_index : List String → Option (String × String × String) → Bool
has_index uris none = false
has_index uris (some (_, index, _)) = is_some (uri_at uris (parse_int index))

-- A name of three parts between colons, the second of which is the index of a URI.
abbrev pub is_well_formed : List String → String → Bool
is_well_formed uris name = has_index uris (three_parts (split b':' name))

-- The test of a qualifier; those that are not for a single URI pass.
abbrev pub is_acceptable : List String → Qualifier → Bool
is_acceptable uris q = not (is_for_url q) || is_well_formed uris q.name

-- A test of the names of a map, after an assignment.
all_names-assign :
    (p : String → Bool) (name value : String) (entries : List (String × String))
    → all (λ (e : String × String). p e.0) (assign name value entries)
      ≡ (p name && all (λ (e : String × String). p e.0) entries)
unfolding assign
all_names-assign p name value [] = refl
all_names-assign p name value ((j, v) ∷ entries) = elim (Bool-cases (j == name)) [
  | inl same ↦ rw same (rw ((eq_iff j name).0 same) (ground arith))
  | inr apart ↦ rw apart (ground (arith, all_names-assign p name value entries))
]

module _ (l : Libraries) (uris : List String) where
  add_for_url-is_ok :
      (entry : String × String) (ah : AuthHeaders) (parts : Option (String × String × String))
      → is_ok (add_parts l uris entry ah parts) ≡ has_index uris parts
  add_for_url-is_ok entry ah none = refl
  add_for_url-is_ok entry ah (some (prefix, index, name)) =
      elim (Option-cases (uri_at uris (parse_int index))) [
        | inl out ↦ rw out refl
        | inr (u, at) ↦ rw at refl
      ]

  and_then-is_ok :
      {A B : Type 0} (r : Result A) (f : A → Result B) (b : Bool)
      → ((a : A) → is_ok (f a) ≡ b)
      → is_ok (and_then r f) ≡ (is_ok r && b)
  and_then-is_ok (ok a) f b h = h a
  and_then-is_ok (err v e) f b h = refl
  and_then-is_ok panic f b h = refl

  add_for_urls-is_ok :
      (entries : List (String × String)) (ah : AuthHeaders)
      → is_ok (add_for_urls l uris entries ah)
        ≡ all (λ (e : String × String). is_well_formed uris e.0) entries
  unfolding add_for_urls
  add_for_urls-is_ok [] ah = refl
  add_for_urls-is_ok (entry ∷ entries) ah =
      and_then-is_ok (add_for_url l uris entry ah) _ _ (λ more. add_for_urls-is_ok entries more)
      ∙ ap (λ b. b && all (λ (e : String × String). is_well_formed uris e.0) entries)
          (unfold add_for_url in add_for_url-is_ok entry ah (three_parts (split b':' entry.0)))

  -- The names that the loop over the qualifiers ends with.
  abbrev Passes : Bool → Collected → Type 0
  Passes b (legacy value) = ⊥
  Passes b (collected ah per_url) =
      all (λ (e : String × String). is_well_formed uris e.0) per_url ≡ b

  collect-Passes :
      (qs : List Qualifier) (ah : AuthHeaders) (per_url : List (String × String)) (b : Bool)
      → any is_legacy qs ≡ false
      → (all (λ (e : String × String). is_well_formed uris e.0) per_url
          && all (is_acceptable uris) qs)
        ≡ b
      → Passes b (collect uris ah per_url qs)
  unfolding collect
  collect-Passes [] ah per_url b new h = ground (arith, h)
  collect-Passes (q ∷ qs) ah per_url b new h =
      rw (new_here) (collect-Passes qs _ _ b (ground (arith, new)) (ground (arith, h, passes)))
    where
      new_here : is_legacy q ≡ false
      new_here = ground (arith, new)

      passes :
          all
            (λ (e : String × String). is_well_formed uris e.0)
            (with_url q (cut_prefix "http_header_url:" q.name) per_url)
          ≡ ((not (is_for_url q) || is_well_formed uris q.name)
              && all (λ (e : String × String). is_well_formed uris e.0) per_url)
      passes = elim (Option-cases (cut_prefix "http_header_url:" q.name)) [
        | inl e ↦ rw e refl
        | inr (h, e) ↦ rw e (all_names-assign (is_well_formed uris) q.name q.value per_url)
      ]

-- Without the legacy qualifier the headers of a request are accepted exactly when each of its
-- http_header_url qualifiers has a name of three parts between colons, of which the second is the
-- index of one of its URIs. This is so for every order in which maps are ranged over.
pub get_auth_headers-is_ok :
    (l : Libraries) (unmarshal : String → Result AuthHeaders)
    (range : List (String × String) → List (String × String)) (uris : List String)
    (qs : List Qualifier)
    → ((m : List (String × String)) → Perm (range m) m)
    → any is_legacy qs ≡ false
    → is_ok (get_auth_headers l unmarshal range uris qs) ≡ all (is_acceptable uris) qs
unfolding get_auth_headers
get_auth_headers-is_ok l unmarshal range uris qs order new =
    go (collect uris [] [] qs) (collect-Passes l uris qs [] [] _ new refl)
  where
    go :
        (c : Collected)
        → Passes l uris (all (is_acceptable uris) qs) c
        → is_ok (after_loop l unmarshal range uris c) ≡ all (is_acceptable uris) qs
    go (legacy value) none_left = absurd none_left
    go (collected ah per_url) passes =
        add_for_urls-is_ok l uris (range per_url) ah
        ∙ all-perm (λ (e : String × String). is_well_formed uris e.0) (order per_url)
        ∙ passes

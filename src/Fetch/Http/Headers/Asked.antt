-- ===== src/Fetch/Http/Headers/Asked.antt =====
-- A header is sent to a URI only if the request says so.
use mathlib.Core.List.{Perm}
use bb_remote_asset.Prelude.{
  String, ◌≡◌, refl, ap, ◌∙◌, subst, inl, inr, Bool, true, false, ◌&&◌, Option, none, some, List,
  [], ◌∷◌, arith, ◌==◌, eq_iff, eq_refl, Bool-cases, Option-cases, any, all, all-perm, split,
  cut_prefix,
}
use bb_remote_asset.Prelude.Decimal.{parse_int}
use bb_remote_asset.Prelude.Effect.{ok, Result, and_then-eq-ok}
use bb_remote_asset.Dict.{lookup, all-assign}
use bb_remote_asset.Qualifier.{Qualifier}
use bb_remote_asset.Storage.Libraries.{Libraries}
use bb_remote_asset.Fetch.Http.Headers.{
  after_loop, add_parts, AuthHeaders, with_global, with_url, Collected, legacy, collected, collect,
  three_parts, uri_at, add_for_url, add_for_urls, get_auth_headers,
}
use bb_remote_asset.Fetch.Http.Headers.Laws.{
  Has, names_url, is_for_url, asks_for, is_legacy, Has-add_header, any_mono, Has-add_to_all,
}

-- What the loops keep of the qualifiers `all_qs` of the request.
module _ (all_uris : List String) (all_qs : List Qualifier) where
  abbrev pub Asked : AuthHeaders → Type 0
  Asked ah =
      (uri header value : String)
      → Has ah uri header value
      → any (asks_for all_uris uri header value) all_qs ≡ true

  abbrev is_from : String × String → Qualifier → Bool
  is_from entry q = q.name == entry.0 && (q.value == entry.1 && is_for_url q)

  -- A qualifier for single URIs that the request has.
  abbrev is_noted : String × String → Bool
  is_noted entry = any (is_from entry) all_qs

  -- The qualifiers are among those of the request.
  abbrev Within : List Qualifier → Type 0
  Within qs = (p : Qualifier → Bool) → any p qs ≡ true → any p all_qs ≡ true

  Within-rest : (q : Qualifier) (qs : List Qualifier) → Within (q ∷ qs) → Within qs
  Within-rest q qs within p h = within p (ground (arith, h))

  Within-first :
      (q : Qualifier) (qs : List Qualifier) (p : Qualifier → Bool)
      → Within (q ∷ qs)
      → p q ≡ true
      → any p all_qs ≡ true
  Within-first q qs p within h = within p (ground (arith, h))

  with_global-Asked :
      (q : Qualifier) (qs : List Qualifier) (ah : AuthHeaders)
      → Within (q ∷ qs)
      → Asked ah
      → Asked (with_global all_uris q.value (cut_prefix "http_header:" q.name) ah)
  with_global-Asked q qs ah within asked = elim (Option-cases (cut_prefix "http_header:" q.name)) [
    | inl none_here ↦ rw none_here asked
    | inr (h, e) ↦ λ uri header value has.
        elim (Has-add_to_all all_uris h q.value ah uri header value (rw e at has)) [
          | inl (same_header, same_value, among) ↦
              Within-first q qs (asks_for all_uris uri header value) within
                (rw (e, same_header, same_value, among) refl)
          | inr before ↦ asked uri header value before
        ]
  ]

  with_url-IsNoted :
      (q : Qualifier) (qs : List Qualifier) (per_url : List (String × String))
      → Within (q ∷ qs)
      → all is_noted per_url ≡ true
      → all is_noted (with_url q (cut_prefix "http_header_url:" q.name) per_url) ≡ true
  with_url-IsNoted q qs per_url within noted =
      elim (Option-cases (cut_prefix "http_header_url:" q.name)) [
        | inl none_here ↦ rw none_here noted
        | inr (h, e) ↦ rw e (
            all-assign is_noted q.name q.value per_url
              (Within-first q qs (is_from (q.name, q.value)) within
                (rw (eq_refl q.name, eq_refl q.value, e) refl))
              noted)
      ]

  -- What the loop over the qualifiers ends with.
  abbrev Kept : Collected → Type 0
  Kept (legacy value) = any is_legacy all_qs ≡ true
  Kept (collected ah per_url) = Asked ah × (all is_noted per_url ≡ true)

  collect-Kept :
      (qs : List Qualifier) (ah : AuthHeaders) (per_url : List (String × String))
      → Within qs
      → Asked ah
      → all is_noted per_url ≡ true
      → Kept (collect all_uris ah per_url qs)
  unfolding collect
  collect-Kept [] ah per_url within asked noted = (asked, noted)
  collect-Kept (q ∷ qs) ah per_url within asked noted = elim (Bool-cases (is_legacy q)) [
    | inl here ↦ rw here (Within-first q qs is_legacy within here)
    | inr later ↦ rw later (
        collect-Kept qs _ _ (Within-rest q qs within) (with_global-Asked q qs ah within asked)
          (with_url-IsNoted q qs per_url within noted))
  ]

  module _ (l : Libraries) where
    -- A noted entry whose parts name the URI and the header is asked for.
    noted_is_asked :
        (entry : String × String) (prefix index h u : String) (uri header value : String)
        → three_parts (split b':' entry.0) ≡ some (prefix, index, h)
        → uri_at all_uris (parse_int index) ≡ some u
        → (u == uri) ≡ true
        → (h == header) ≡ true
        → (entry.1 == value) ≡ true
        → is_noted entry ≡ true
        → any (asks_for all_uris uri header value) all_qs ≡ true
    noted_is_asked entry prefix index h u uri header value parts at_index same_uri same_header
          same_value =
        any_mono (is_from entry) (asks_for all_uris uri header value) all_qs (λ q from.
          let name : q.name ≡ entry.0 = (eq_iff q.name entry.0).0 (ground (arith, from)) in
          let names = ap (λ n. names_url all_uris uri header (three_parts (split b':' n))) name in
          let at_entry : names_url all_uris uri header (three_parts (split b':' entry.0)) ≡ true =
            rw parts (rw (same_header, at_index) same_uri) in
          ground (arith, from, eq_iff q.value entry.1, names, at_entry))

    Asked-add_parts :
        (entry : String × String) (ah more : AuthHeaders)
        (parts : Option (String × String × String))
        → three_parts (split b':' entry.0) ≡ parts
        → is_noted entry ≡ true
        → Asked ah
        → add_parts l all_uris entry ah parts ≡ ok more
        → Asked more
    Asked-add_parts entry ah more none e noted asked h = cc
    Asked-add_parts entry ah more (some (prefix, index, name)) e noted asked h =
        elim (Option-cases (uri_at all_uris (parse_int index))) [
          | inl out ↦ cc (rw out at h)
          | inr (u, at_index) ↦ λ uri header value has.
              elim (Has-add_header ah u name entry.1 uri header value
                (subst (λ m. Has m uri header value) (cc (rw at_index at h)) has)) [
                  | inl (same_uri, same_header, same_value) ↦
                      noted_is_asked entry prefix index name u uri header value e at_index same_uri
                        same_header same_value noted
                  | inr before ↦ asked uri header value before
                ]
        ]

    add_for_url-Asked :
        (entry : String × String) (ah more : AuthHeaders)
        → is_noted entry ≡ true
        → Asked ah
        → add_for_url l all_uris entry ah ≡ ok more
        → Asked more
    unfolding add_for_url
    add_for_url-Asked entry ah more noted asked h =
        Asked-add_parts entry ah more (three_parts (split b':' entry.0)) refl noted asked h

    add_for_urls-Asked :
        (entries : List (String × String)) (ah more : AuthHeaders)
        → all is_noted entries ≡ true
        → Asked ah
        → add_for_urls l all_uris entries ah ≡ ok more
        → Asked more
    unfolding add_for_urls
    add_for_urls-Asked [] ah more noted asked h = subst Asked (cc h) asked
    add_for_urls-Asked (entry ∷ entries) ah more noted asked h =
        let (next, first, rest) = and_then-eq-ok (add_for_url l all_uris entry ah) _ h in
        add_for_urls-Asked entries next more (ground (arith, noted))
          (add_for_url-Asked entry ah next (ground (arith, noted)) asked first) rest

-- A header is sent to a URI with a value only if a qualifier of the request asks for it: one for
-- all its URIs, or one for the URI at the index that it names. This is so for every order in which
-- maps are ranged over, and where the request has no legacy qualifier, which brings all headers
-- itself.
pub get_auth_headers-Asked :
    (l : Libraries) (unmarshal : String → Result AuthHeaders)
    (range : List (String × String) → List (String × String)) (uris : List String)
    (qs : List Qualifier) (ah : AuthHeaders)
    → ((m : List (String × String)) → Perm (range m) m)
    → any is_legacy qs ≡ false
    → get_auth_headers l unmarshal range uris qs ≡ ok ah
    → Asked uris qs ah
unfolding get_auth_headers lookup
get_auth_headers-Asked l unmarshal range uris qs ah order new h =
    go (collect uris [] [] qs) (collect-Kept uris qs qs [] [] (λ p k. k) (λ u n v has. cc) refl) h
  where
    go :
        (c : Collected)
        → Kept uris qs c
        → after_loop l unmarshal range uris c ≡ ok ah
        → Asked uris qs ah
    go (legacy value) kept e = absurd (ground (arith, kept, new))
    go (collected more per_url) (asked, noted) e =
        add_for_urls-Asked uris qs l (range per_url) more ah
          (all-perm (is_noted uris qs) (order per_url) ∙ noted) asked e

-- ===== src/Fetch/Http/Headers/Laws.antt =====
-- Which headers a request asks for, and what AddHeader assigns.
use bb_remote_asset.Prelude.{
  String, ◌≡◌, refl, sym, ◌∙◌, subst, ◌⊎◌, inl, inr, Bool, true, false, ◌&&◌, ◌||◌, Option, none,
  some, List, [], ◌∷◌, arith, ◌==◌, eq_iff, if◌then◌else◌, Bool-cases, is_some, any, split,
  cut_prefix,
}
use bb_remote_asset.Prelude.Decimal.{parse_int}
use bb_remote_asset.Dict.{lookup, lookup-assign}
use bb_remote_asset.Qualifier.{Qualifier}
use bb_remote_asset.Fetch.Http.Headers.{
  AuthHeaders, headers_of, add_header, add_to_all, three_parts, uri_at,
}

-- The header is assigned this value for the URI.
abbrev pub Has : AuthHeaders → String → String → String → Type 0
Has ah uri header value = lookup header (headers_of uri ah) ≡ some value

abbrev pub is_text : String → Option String → Bool
is_text s none = false
is_text s (some t) = t == s

abbrev pub names_url : List String → String → String → Option (String × String × String) → Bool
names_url uris uri header none = false
names_url uris uri header (some (_, index, h)) =
    h == header && is_text uri (uri_at uris (parse_int index))

abbrev pub is_for_url : Qualifier → Bool
is_for_url q = is_some (cut_prefix "http_header_url:" q.name)

-- The qualifier asks that the header be sent with the value to the URI: for all URIs of the
-- request, or for the one at the index that it names.
abbrev pub asks_for : List String → String → String → String → Qualifier → Bool
asks_for uris uri header value q =
    q.value == value
    && ((is_text header (cut_prefix "http_header:" q.name) && any (λ u. u == uri) uris)
        || (is_for_url q && names_url uris uri header (three_parts (split b':' q.name))))

abbrev pub is_legacy : Qualifier → Bool
is_legacy q = q.name == "bazel.auth_headers"

lookup-add_header :
    (ah : AuthHeaders) (u h v uri header : String)
    → lookup header (headers_of uri (add_header ah u h v)) ≡ (
        if u == uri
        then (if h == header then some v else lookup header (headers_of u ah))
        else lookup header (headers_of uri ah))
unfolding add_header
lookup-add_header ah u h v uri header =
    rw (lookup-assign u uri _ ah) (elim (Bool-cases (u == uri)) [
      | inl here ↦ rw here (lookup-assign h header v (headers_of u ah))
      | inr other ↦ rw other refl
    ])

-- What is assigned after AddHeader was assigned by it, or before.
pub Has-add_header :
    (ah : AuthHeaders) (u h v uri header value : String)
    → Has (add_header ah u h v) uri header value
    → (((u == uri) ≡ true) × ((h == header) ≡ true) × ((v == value) ≡ true))
      ⊎ Has ah uri header value
Has-add_header ah u h v uri header value has =
    let added = sym (lookup-add_header ah u h v uri header) ∙ has in
    elim (Bool-cases (u == uri)) [
      | inl here ↦ elim (Bool-cases (h == header)) [
        | inl same ↦
            let e : v ≡ value = cc (rw (here, same) at added) in
            inl (here, same, (eq_iff v value).1 e)
        | inr apart ↦
            inr (
              subst (λ n. Has ah n header value) ((eq_iff u uri).0 here)
                (rw (here, apart) at added))
      ]
      | inr other ↦ inr (rw other at added)
    ]

pub any_mono :
    {A : Type 0} (p r : A → Bool) (xs : List A)
    → ((x : A) → p x ≡ true → r x ≡ true)
    → any p xs ≡ true
    → any r xs ≡ true
any_mono p r [] k h = h
any_mono p r (x ∷ xs) k h = ground (arith, k x, any_mono p r xs k)

pub Has-add_to_all :
    (us : List String) (h v : String) (ah : AuthHeaders) (uri header value : String)
    → Has (add_to_all us h v ah) uri header value
    → (((h == header) ≡ true) × ((v == value) ≡ true) × (any (λ u. u == uri) us ≡ true))
      ⊎ Has ah uri header value
unfolding add_to_all
Has-add_to_all [] h v ah uri header value has = inr has
Has-add_to_all (u ∷ us) h v ah uri header value has = ground (
  arith,
  Has-add_to_all us h v (add_header ah u h v) uri header value has,
  Has-add_header ah u h v uri header value,
)

-- ===== src/Storage/Reference.antt =====
-- pkg/storage/asset_reference.go: a reference holds its URIs and qualifiers sorted, so it is one
-- for all the orders in which a request may list them.
use mathlib.Core.List.{Perm}
use bb_remote_asset.Prelude.{String, ◌≡◌, refl, ap, ◌↔◌, List, [], ◌∷◌}
use bb_remote_asset.Prelude.Sorting.{IsSorted, sort, sort-IsSorted, sort-eq_iff, sort_of_IsSorted}
use bb_remote_asset.Qualifier.{Qualifier}
use bb_remote_asset.Qualifier.Sorter.{to_array, text_order, qualifier_order}
use bb_remote_asset.Storage.Messages.{AssetReference}

-- `NewAssetReference`. The two slices are sorted in place: the caller's `uris` and `qualifiers`
-- are, from then on, those of the reference (the latter before `ToArray` copies them).
unfoldable pub new_asset_reference : List String → List Qualifier → AssetReference
unfolding to_array
new_asset_reference uris qualifiers = record {
  uris = sort uris;
  qualifiers = to_array (sort qualifiers);
}

-- Two requests have one reference exactly when their URIs and their qualifiers are the same up
-- to order, repetitions counted.
pub new_asset_reference-eq_iff :
    (us vs : List String) (qs rs : List Qualifier)
    → (new_asset_reference us qs ≡ new_asset_reference vs rs) ↔ (Perm us vs × Perm qs rs)
unfolding new_asset_reference
new_asset_reference-eq_iff us vs qs rs = (
  λ e. (
    (sort-eq_iff us vs).0 (ap (λ (r : AssetReference). r.uris) e),
    (sort-eq_iff qs rs).0 (ap (λ (r : AssetReference). r.qualifiers) e),
  ),
  λ (p, q). rw ((sort-eq_iff us vs).1 p, (sort-eq_iff qs rs).1 q),
)

-- The URIs and the qualifiers of a reference ascend, ties between names broken by values.
pub new_asset_reference-IsSorted :
    (us : List String) (qs : List Qualifier)
    → IsSorted (new_asset_reference us qs).uris × IsSorted (new_asset_reference us qs).qualifiers
unfolding new_asset_reference
new_asset_reference-IsSorted us qs = (sort-IsSorted us, sort-IsSorted qs)

-- Making a reference from a reference gives the same reference.
pub new_asset_reference_idem :
    (us : List String) (qs : List Qualifier)
    → new_asset_reference (new_asset_reference us qs).uris (new_asset_reference us qs).qualifiers
      ≡ new_asset_reference us qs
unfolding new_asset_reference
new_asset_reference_idem us qs =
    rw (sort_of_IsSorted _ (sort-IsSorted us), sort_of_IsSorted _ (sort-IsSorted qs))

-- One URI is its own sorted list.
pub new_asset_reference-singleton :
    (u : String) (qs : List Qualifier) → (new_asset_reference (u ∷ []) qs).uris ≡ u ∷ []
unfolding new_asset_reference sort
new_asset_reference-singleton u qs = refl

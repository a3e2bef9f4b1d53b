-- ===== src/Push/Stored.antt =====
-- What the store has after a push.

use mathlib.Core.List.Perm
use bb_remote_asset.Prelude.{
  String, ◌≡◌, sym, ap, ◌∙◌, subst, ◌≢◌, ◌⊎◌, inl, inr, Bool, true, false, some, List, [], ◌∷◌,
  arith, ◌==◌, eq_iff, ltb, Bool-cases, length, any,
}
use bb_remote_asset.Prelude.Effect.{ok, Result, pure, ◌>>=◌, Ensures, Ensures-bind, Ensures-pure}
use bb_remote_asset.Time.{Clock}
use bb_remote_asset.Qualifier.{Qualifier}
use bb_remote_asset.Qualifier.Sorter.{text_order, qualifier_order}
use bb_remote_asset.Storage.Messages.{AssetReference, Asset}
use bb_remote_asset.Storage.Libraries.{Libraries}
use bb_remote_asset.Storage.Reference.{
  new_asset_reference, new_asset_reference-eq_iff, new_asset_reference-singleton,
}
use bb_remote_asset.Prelude.Sorting.{sort, sort-perm, any-sort}
use bb_remote_asset.Storage.Store.{AssetStore, IsAssetMap}
use bb_remote_asset.Push.{made, put_each, put_all}

-- The URI is one of the list.
abbrev pub is_among : String → List String → Bool
is_among uri uris = any (λ v. v == uri) uris

module _ (l : Libraries) {W : Type 0} (store : AssetStore l.Function W) (clock : Clock W)
    (f : l.Function) (c : IsAssetMap store f) (make : W → Asset × W) (IsMade : Asset → Type 0)
    (makes : (w : W) → IsMade (make w).0) (storable : (a : Asset) → IsMade a → c.IsStorable a)
    (make_keeps : (w : W) (r : AssetReference) → c.view (make w).1 r ≡ c.view w r)
    (qs : List Qualifier) where
  abbrev reference_of : String → AssetReference
  reference_of uri = new_asset_reference (uri ∷ []) qs

  -- The store has an asset of the push for the URI.
  abbrev pub Has : String → W → Type 0
  Has uri w = (a : Asset) × IsMade a × (c.view w (reference_of uri) ≡ some a)

  reference_of_ne : (u v : String) → (u == v) ≡ false → reference_of u ≢ reference_of v
  reference_of_ne u v n e =
      let same : u ∷ [] ≡ v ∷ [] =
        sym (new_asset_reference-singleton u qs)
        ∙ ap (λ (r : AssetReference). r.uris) e
        ∙ new_asset_reference-singleton v qs in
      ground (arith, n, (eq_iff u v).1 (cc same))

  -- A put of one URI has it there, and loses no other.
  put-Has :
      (u v : String) (a : Asset) (w x : W)
      → IsMade a
      → store.put (reference_of u) a f w ≡ (ok tt, x)
      → ((u == v) ≡ true) ⊎ Has v w
      → Has v x
  put-Has u v a w x m h o = elim (Bool-cases (u == v)) [
    | inl same ↦ (
      a,
      m,
      ap (λ t. c.view x (reference_of t)) (sym ((eq_iff u v).0 same))
          ∙ ap (λ (r : Result (Unit {0}) × W). c.view r.1 (reference_of u)) (sym h)
          ∙ c.put_stores (reference_of u) a w (storable a m)
              (ap (λ (r : Result (Unit {0}) × W). r.0) h),
    )
    | inr apart ↦ elim o [
      | inl same ↦ absurd (ground (arith, same, apart))
      | inr (b, mb, e) ↦ (
        b,
        mb,
        ap (λ (r : Result (Unit {0}) × W). c.view r.1 (reference_of v)) (sym h)
            ∙ c.put_keeps (reference_of u) (reference_of v) a w (reference_of_ne u v apart)
            ∙ e,
      )
    ]
  ]

  -- What holds of the world in which `make` is run holds of the one it leaves.
  made-Has :
      (v : String) (w x : W) (a : Asset)
      → made l store clock make w ≡ (ok a, x)
      → IsMade a × (Has v w → Has v x)
  made-Has v w x a h =
      let same : (make w).0 ≡ a = cc (ap (λ (r : Result Asset × W). r.0) h) in
      let next : (make w).1 ≡ x = ap (λ (r : Result Asset × W). r.1) h in
      (
        subst IsMade same (makes w),
        λ (b, mb, e). (
          b,
          mb,
          subst (λ y. c.view y (reference_of v) ≡ some b) next (make_keeps w (reference_of v) ∙ e),
        ),
      )

  among_later :
      (v : String) (uris : List String) {w x : W}
      → (Has v w → Has v x)
      → (is_among v uris ≡ true) ⊎ Has v w
      → (is_among v uris ≡ true) ⊎ Has v x
  among_later v uris k (inl p) = inl p
  among_later v uris k (inr p) = inr (k p)

  among_rest :
      (u v : String) (uris : List String) (x : W) {w : W}
      → (((u == v) ≡ true) ⊎ Has v w → Has v x)
      → (is_among v (u ∷ uris) ≡ true) ⊎ Has v w
      → (is_among v uris ≡ true) ⊎ Has v x
  among_rest u v uris x next (inr p) = inr (next (inr p))
  among_rest u v uris x next (inl p) = elim (Bool-cases (u == v)) [
    | inl same ↦ inr (next (inl same))
    | inr apart ↦ inl (ground (arith, p, apart))
  ]

  -- The loop has every URI of its list in the store, and loses none.
  put_each_Ensures :
      (uris : List String) (w : W)
      → Ensures w
          (put_each l store clock uris qs make f)
          (λ _ x. (v : String) → (is_among v uris ≡ true) ⊎ Has v w → Has v x)
  unfolding put_each
  put_each_Ensures [] w =
      Ensures-pure tt
        λ v o. elim o [ inl absent ↦ absurd (ground (arith, absent)) | inr there ↦ there ]
  put_each_Ensures (u ∷ uris) w = Ensures-bind _ _ λ a w₁ e₁. Ensures-bind _ _ λ _ w₂ e₂. record {
    at = λ _ x h v o.
        let (m, later) = made-Has v w w₁ a e₁ in
        let next = put-Has u v a w₁ w₂ m e₂ in
        (put_each_Ensures uris w₂).at tt x h v
          (among_rest u v uris w₂ next (among_later v (u ∷ uris) later o));
  }

  -- The first put of a request with one URI.
  put_one_Ensures :
      (u : String) (w : W)
      → Ensures w
          (made l store clock make >>= λ a. store.put (reference_of u) a f >>= λ _. pure tt)
          (λ _ x. (v : String) → is_among v (u ∷ []) ≡ true → Has v x)
  put_one_Ensures u w = Ensures-bind _ _ λ a w₁ e₁. Ensures-bind _ _ λ _ w₂ e₂.
      Ensures-pure tt
        λ v p. put-Has u v a w₁ w₂ (made-Has v w w₁ a e₁).0 e₂ (inl (ground (arith, p)))

module _ (l : Libraries) {W : Type 0} (store : AssetStore l.Function W) (clock : Clock W)
    (f : l.Function) (c : IsAssetMap store f) (make : W → Asset × W) (IsMade : Asset → Type 0)
    (makes : (w : W) → IsMade (make w).0) (storable : (a : Asset) → IsMade a → c.IsStorable a)
    (make_keeps : (w : W) (r : AssetReference) → c.view (make w).1 r ≡ c.view w r) where
  -- Qualifiers that were sorted before make the same reference.
  sorted_reference :
      (uris : List String) (qs : List Qualifier) (v : String)
      → new_asset_reference (v ∷ []) (new_asset_reference uris qs).qualifiers
        ≡ new_asset_reference (v ∷ []) qs
  unfolding new_asset_reference
  sorted_reference uris qs v =
      (new_asset_reference-eq_iff (v ∷ []) (v ∷ []) (sort qs) qs).1
        (Perm.refl (v ∷ []), sort-perm qs)

  sorted_among :
      (v : String) (uris : List String) (qs : List Qualifier)
      → is_among v (new_asset_reference uris qs).uris ≡ is_among v uris
  unfolding new_asset_reference
  sorted_among v uris qs = any-sort (λ u. u == v) uris

  two_or_more : (u v : String) (uris : List String) → ltb 1 (length (u ∷ v ∷ uris)) ≡ true
  two_or_more u v uris = ground arith

  -- After the puts the store has an asset of the push for every URI.
  pub put_all_Ensures :
      (uris : List String) (qs : List Qualifier) (w : W)
      → Ensures w (put_all l store clock uris qs make f) (λ _ x.
        (v : String)
        → is_among v uris ≡ true
        → Has l store clock f c make IsMade makes storable make_keeps qs v x)
  unfolding put_all
  put_all_Ensures [] qs w = record { at = λ _ x h v p. ground (arith, p) }
  put_all_Ensures (u ∷ []) qs w =
      put_one_Ensures l store clock f c make IsMade makes storable make_keeps qs u w
  put_all_Ensures (u ∷ u' ∷ uris) qs w = Ensures-bind _ _ λ a w₁ e₁. Ensures-bind _ _ λ _ w₂ e₂.
      record {
        at = λ _ x h v p.
            let ref = new_asset_reference (u ∷ u' ∷ uris) qs in
            let (b, m, e) =
              (put_each_Ensures l store clock f c make IsMade makes storable make_keeps
                  ref.qualifiers ref.uris w₂).at
                tt x (rw (two_or_more u u' uris) at h) v
                (inl (sorted_among v (u ∷ u' ∷ uris) qs ∙ p)) in
            (b, m, ap (c.view x) (sym (sorted_reference (u ∷ u' ∷ uris) qs v)) ∙ e);
      }

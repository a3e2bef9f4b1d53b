-- ===== src/Prelude/Sorting.antt =====
-- Sorting by a strict order, as `sort.Sort` and `sort.Strings` do. The order is total up to
-- equality, so the result does not depend on the algorithm: any ascending permutation of the
-- input is the one that insertion yields.
use mathlib.Core.Path.{◌≡◌, refl, ap, ap₂, sym, subst, ◌∙◌}
use mathlib.Core.Bool.{Bool, true, false, ◌||◌}
use mathlib.Core.List.{
  List, [], ◌∷◌, Mem, Perm, Pairwise, Pairwise-singleton, mem-cons_self, forall_mem-cons,
}
use mathlib.Core.List.Perm
use mathlib.Core.Logic.{◌↔◌, inl, inr}
use native.Mathlib.Omega.{arith}
use bb_remote_asset.Prelude.Lists.{any}
use bb_remote_asset.Prelude.Tests.{if◌then◌else◌, Bool-cases}

-- What `Less` must be for a sort to be determined by it.
pub record Order {ℓ} (A : Type ℓ) : Type ℓ where
  pub less : A → A → Bool
  pub irrefl : (a : A) → less a a ≡ false
  pub trans : (a b c : A) → less a b ≡ true → less b c ≡ true → less a c ≡ true
  pub tri : (a b : A) → less a b ≡ false → less b a ≡ false → a ≡ b

Bool-set : IsSet Bool
Bool-set = hlevel

module _ {ℓ} {A : Type ℓ} ⦃o : Order A⦄ where
  -- `b` does not come before `a`.
  abbrev pub NotAfter : A → A → Type 0
  NotAfter a b = o.less b a ≡ false

  abbrev pub IsSorted : List A → Type ℓ
  IsSorted = Pairwise NotAfter

  pub NotAfter-prop : (a b : A) → IsProp (NotAfter a b)
  NotAfter-prop a b = Bool-set _ _

  pub NotAfter-refl : (a : A) → NotAfter a a
  NotAfter-refl a = o.irrefl a

  pub NotAfter-asymm : (a b : A) → o.less a b ≡ true → NotAfter a b
  NotAfter-asymm a b h = ground (arith, o.trans a b a h, o.irrefl a)

  pub NotAfter-trans : (a b c : A) → NotAfter a b → NotAfter b c → NotAfter a c
  NotAfter-trans a b c h k = ground (arith, o.trans c a b, o.tri a b)

  insert : A → List A → List A
  insert x [] = x ∷ []
  insert x (y ∷ ys) = if o.less y x then y ∷ insert x ys else x ∷ y ∷ ys

  unfoldable pub sort : List A → List A
  unfolding insert
  sort [] = []
  sort (x ∷ xs) = insert x (sort xs)

  insert-perm : (x : A) (l : List A) → Perm (insert x l) (x ∷ l)
  unfolding insert
  insert-perm x [] = Perm.rfl
  insert-perm x (y ∷ ys) = elim (Bool-cases (o.less y x)) [
    | inl p ↦ rw p (Perm.trans (Perm.cons y (insert-perm x ys)) (Perm.swap x y ys))
    | inr p ↦ rw p Perm.rfl
  ]

  -- `sort` rearranges its input.
  pub sort-perm : (l : List A) → Perm (sort l) l
  unfolding sort
  sort-perm [] = Perm.rfl
  sort-perm (x ∷ xs) = Perm.trans (insert-perm x (sort xs)) (Perm.cons x (sort-perm xs))

  -- Nothing in the list comes before `a`.
  abbrev pub NoneBefore : A → List A → Type ℓ
  NoneBefore a l = (x : A) → Mem x l → NotAfter a x

  extend_below : (a b : A) (l : List A) → NotAfter a b → NoneBefore b l → NoneBefore a (b ∷ l)
  extend_below a b l ab rest =
      (forall_mem-cons (NotAfter-prop a)).1 (ab, λ x m. NotAfter-trans a b x ab (rest x m))

  insert-IsSorted : (x : A) {l : List A} → IsSorted l → IsSorted (insert x l)
  unfolding insert
  insert-IsSorted x Pairwise.nil = Pairwise-singleton _ x
  insert-IsSorted x (Pairwise.cons {a = y} {l = ys} rest s) = elim (Bool-cases (o.less y x)) [
    | inl later ↦ rw later (
        Pairwise.cons
          (λ z m.
            (forall_mem-cons (NotAfter-prop y)).1 (NotAfter-asymm y x later, rest) z
              ((Perm.mem_iff (insert-perm x ys)).0 m))
          (insert-IsSorted x s))
    | inr here ↦ rw here (Pairwise.cons (extend_below x y ys here rest) (Pairwise.cons rest s))
  ]

  -- `sort` returns an ascending list.
  pub sort-IsSorted : (l : List A) → IsSorted (sort l)
  unfolding sort
  sort-IsSorted [] = Pairwise.nil
  sort-IsSorted (x ∷ xs) = insert-IsSorted x (sort-IsSorted xs)

  -- The first element of an ascending list comes after none of any rearrangement.
  first_NotAfter : (a b : A) (l r : List A) → IsSorted (a ∷ l) → Perm (a ∷ l) (b ∷ r) → NotAfter a b
  first_NotAfter a b l r (Pairwise.cons rest _) p =
      extend_below a a l (NotAfter-refl a) rest b ((Perm.mem_iff p).1 mem-cons_self)

  same_first :
      (a b : A) (l r : List A) → IsSorted (a ∷ l) → IsSorted (b ∷ r) → Perm (a ∷ l) (b ∷ r) → a ≡ b
  same_first a b l r sa sb p =
      o.tri a b (first_NotAfter b a r l sb (Perm.symm p)) (first_NotAfter a b l r sa p)

  -- Rearrangements that begin alike rearrange each other's rest.
  same_rest : (a b : A) (l r : List A) → a ≡ b → Perm (a ∷ l) (b ∷ r) → Perm l r
  same_rest a b l r e p = Perm.cons_inv (subst (λ x. Perm (a ∷ l) (x ∷ r)) (sym e) p)

  -- A list has one ascending permutation.
  pub IsSorted-eq_of_perm : (l r : List A) → IsSorted l → IsSorted r → Perm l r → l ≡ r
  IsSorted-eq_of_perm [] r sl sr p = Perm.nil-eq p
  IsSorted-eq_of_perm (a ∷ l) [] sl sr p = Perm.eq-nil p
  IsSorted-eq_of_perm (a ∷ l) (b ∷ r) (Pairwise.cons f sl) (Pairwise.cons g sr) p =
      let e = same_first a b l r (Pairwise.cons f sl) (Pairwise.cons g sr) p in
      ap₂ ◌∷◌ e (IsSorted-eq_of_perm l r sl sr (same_rest a b l r e p))

  -- Two lists are sorted to the same list exactly when each rearranges the other.
  pub sort-eq_iff : (l r : List A) → (sort l ≡ sort r) ↔ Perm l r
  sort-eq_iff l r = (
    λ e. Perm.trans (Perm.symm (sort-perm l)) (rw (← e) at (sort-perm r)),
    λ p.
        IsSorted-eq_of_perm (sort l) (sort r) (sort-IsSorted l) (sort-IsSorted r)
          (Perm.trans (sort-perm l) (Perm.trans p (Perm.symm (sort-perm r)))),
  )

  -- An ascending list is left as it is.
  pub sort_of_IsSorted : (l : List A) → IsSorted l → sort l ≡ l
  sort_of_IsSorted l s = IsSorted-eq_of_perm (sort l) l (sort-IsSorted l) s (sort-perm l)

  any-insert : (p : A → Bool) (x : A) (l : List A) → any p (insert x l) ≡ (p x || any p l)
  unfolding insert
  any-insert p x [] = refl
  any-insert p x (y ∷ ys) = elim (Bool-cases (o.less y x)) [
    | inl later ↦ rw later (ground (arith, any-insert p x ys))
    | inr here ↦ rw here refl
  ]

  -- Sorting keeps what can be found in a list.
  pub any-sort : (p : A → Bool) (l : List A) → any p (sort l) ≡ any p l
  unfolding sort
  any-sort p [] = refl
  any-sort p (x ∷ xs) = any-insert p x (sort xs) ∙ ap (λ b. p x || b) (any-sort p xs)

-- ===== src/Prelude/Lists.antt =====
-- Lists measured by native numbers, and Boolean tests on lists.
use Prim.Native.Nat.{ℕ, zero, suc, ◌+◌}
use mathlib.Core.Path.{◌≡◌, refl, ◌∙◌}
use mathlib.Core.Logic.{∥∥₁_elim}
use mathlib.Core.List.{Perm, Permᴰ}
use mathlib.Core.Bool.{Bool, true, false, ◌&&◌, ◌||◌}
use mathlib.Core.Option.{Option, none, some}
use mathlib.Core.List.{List, [], ◌∷◌, ◌++◌}
use native.Mathlib.Omega.{arith}

Bool-set : IsSet Bool
Bool-set = hlevel

&&_swap : (a b c : Bool) → (a && (b && c)) ≡ (b && (a && c))
&&_swap a b c = ground arith

module _ {ℓ} {A : Type ℓ} where
  abbrev pub length : List A → ℕ
  length [] = 0
  length (x ∷ xs) = suc (length xs)

  abbrev pub get_elem? : List A → ℕ → Option A
  get_elem? [] i = none
  get_elem? (x ∷ xs) zero = some x
  get_elem? (x ∷ xs) (suc i) = get_elem? xs i

  abbrev pub is_nil : List A → Bool
  is_nil [] = true
  is_nil (_ ∷ _) = false

  abbrev pub any : (A → Bool) → List A → Bool
  any p [] = false
  any p (x ∷ xs) = p x || any p xs

  abbrev pub all : (A → Bool) → List A → Bool
  all p [] = true
  all p (x ∷ xs) = p x && all p xs

  pub length-append : (xs ys : List A) → length (xs ++ ys) ≡ length xs + length ys
  length-append [] ys = omega arith
  length-append (x ∷ xs) ys = omega (arith, length-append xs ys)

module _ {ℓ κ} {A : Type ℓ} where
  abbrev pub All : (A → Type κ) → List A → Type κ
  All P [] = Unit
  All P (x ∷ xs) = P x × All P xs

module _ {ℓ κ μ} {A : Type ℓ} {P : A → Type κ} {Q : A → Type μ} where
  pub All-map : (xs : List A) → ((x : A) → P x → Q x) → All P xs → All Q xs
  All-map [] h _ = tt
  All-map (x ∷ xs) h (p, ps) = (h x p, All-map xs h ps)

module _ {ℓ} {A : Type ℓ} where
  swapped :
      (p : A → Bool) {a b a' b' : A} (l : List A)
      → a ≡ b'
      → b ≡ a'
      → all p (a ∷ b ∷ l) ≡ all p (a' ∷ b' ∷ l)
  swapped p {a} {b} {a'} {b'} l e f = rw (e, f) (&&_swap (p b') (p a') (all p l))

  all-permᴰ : (p : A → Bool) {xs ys : List A} → Permᴰ xs ys → all p xs ≡ all p ys
  all-permᴰ p Permᴰ.nil = refl
  all-permᴰ p (Permᴰ.cons e r) = cc (all-permᴰ p r)
  all-permᴰ p (Permᴰ.swap e f) = swapped p _ e f
  all-permᴰ p (Permᴰ.trans r s) = all-permᴰ p r ∙ all-permᴰ p s

  -- A test on all elements does not depend on their order.
  pub all-perm : (p : A → Bool) {xs ys : List A} → Perm xs ys → all p xs ≡ all p ys
  all-perm p r = ∥∥₁_elim r (Bool-set _ _) (all-permᴰ p)

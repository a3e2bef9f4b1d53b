-- ===== src/Prelude/Effect.antt =====
-- What a Go function that returns `(value, error)` does, and actions on a world. The world stands
-- for all that the program reaches by interfaces: stores, clocks, connections.
use Prim.Native.Nat.{ℕ}
use Prim.Native.String.{String}
use mathlib.Core.Path.{◌≡◌, refl, sym, ◌∙◌, ap, subst₂}
use mathlib.Core.Logic.{◌⊎◌, inl, inr}
use mathlib.Core.Bool.{Bool, true, false}
use mathlib.Core.List.{List, []}
use bb_remote_asset.Prelude.Tests.{if◌then◌else◌}
use mathlib.Core.Option.{Option, none, some}

-- The codes of google.golang.org/grpc/codes.
pub data Code : Type 0 where
  ok canceled unknown invalid_argument deadline_exceeded not_found already_exists : Code
  permission_denied resource_exhausted failed_precondition aborted out_of_range : Code
  unimplemented internal unavailable data_loss unauthenticated : Code
  unnamed : ℕ → Code

abbrev pub is_ok_code : Code → Bool
is_ok_code Code.ok = true
is_ok_code _ = false

-- errdetails.BadRequest_FieldViolation
pub record FieldViolation : Type 0 where
  pub field : String
  pub description : String

-- A gRPC status; `details` holds the field violations that it carries.
pub record Status : Type 0 where
  pub code : Code
  pub message : String
  pub details : List FieldViolation

-- An `error` is a gRPC status, or any other error with its text.
pub data Error : Type 0 where
  status : Status → Error
  plain : String → Error

-- `err v e` returns the error `e` with the value `v` beside it (`none` is nil or a zero value);
-- `panic` does not return.
pub data Result {ℓ} (A : Type ℓ) : Type ℓ where
  ok : A → Result A
  err : Option A → Error → Result A
  panic : Result A

-- status.Error(code, message)
abbrev pub status_error : Code → String → Error
status_error c m = Error.status (record { code = c; message = m; details = [] })

-- status.Convert: what is not a status has the code Unknown.
abbrev pub convert : Error → Status
convert (status s) = s
convert (plain m) = record { code = Code.unknown; message = m; details = [] }

abbrev pub Exec {ℓ} : Type ℓ → Type ℓ → Type ℓ
Exec W A = W → Result A × W

module _ {ℓ} {W A : Type ℓ} where
  abbrev pub pure : A → Exec W A
  pure a w = (ok a, w)

  abbrev pub raise : Error → Exec W A
  raise e w = (err none e, w)

  -- The goroutine panics, and with it the program.
  abbrev pub crash : Exec W A
  crash w = (panic, w)

  abbrev pub lift : Result A → Exec W A
  lift r w = (r, w)

module _ {ℓ κ} {A : Type ℓ} {B : Type κ} where
  -- `if err != nil { return nil, err }`
  abbrev pub and_then : Result A → (A → Result B) → Result B
  and_then (ok a) f = f a
  and_then (err _ e) f = err none e
  and_then panic f = panic

module _ {ℓ} {W A B : Type ℓ} where
  abbrev pub continue : Result A × W → (A → Exec W B) → Result B × W
  continue (ok a, w) f = f a w
  continue (err _ e, w) f = (err none e, w)
  continue (panic, w) f = (panic, w)

  infixl 5 ◌>>=◌ ◌>>◌
  unfoldable pub ◌>>=◌ : Exec W A → (A → Exec W B) → Exec W B
  ◌>>=◌ m f w = continue (m w) f

  abbrev pub ◌>>◌ : Exec W A → Exec W B → Exec W B
  m >> n = m >>= λ _. n

module _ {ℓ} {W A : Type ℓ} where
  -- An error is handed on as a value, for a caller that goes on after it.
  abbrev pub caught : Result A × W → Result (A ⊎ Error) × W
  caught (ok a, w) = (ok (inl a), w)
  caught (err _ e, w) = (ok (inr e), w)
  caught (panic, w) = (panic, w)

-- The call neither fails nor panics.
abbrev pub is_ok {ℓ} : {A : Type ℓ} → Result A → Bool
is_ok (ok _) = true
is_ok _ = false

-- The value, if the call neither fails nor panics.
abbrev pub found {ℓ} : {A : Type ℓ} → Result A → Option A
found (ok a) = some a
found _ = none

pub ok_injective {ℓ} : {A : Type ℓ} {a b : A} → ◌≡◌ {A = Result A} (ok a) (ok b) → a ≡ b
ok_injective e = cc e

module _ {ℓ κ} {A : Type ℓ} {B : Type κ} where
  -- Inversion of a successful chain.
  pub and_then-eq-ok :
      (r : Result A) (f : A → Result B) {b : B}
      → and_then r f ≡ ok b
      → (a : A) × (r ≡ ok a) × (f a ≡ ok b)
  and_then-eq-ok (ok a) f h = (a, refl, h)
  and_then-eq-ok (err v e) f h = cc
  and_then-eq-ok panic f h = cc

module _ {ℓ} {W A B : Type ℓ} where
  -- The same of a chain of actions.
  pub continue-eq-ok :
      (r : Result A × W) (f : A → Exec W B) {b : B} {w : W}
      → continue r f ≡ (ok b, w)
      → (a : A) × (r.0 ≡ ok a) × (f a r.1 ≡ (ok b, w))
  continue-eq-ok (ok a, w) f h = (a, refl, h)
  continue-eq-ok (err v e, w) f h = cc
  continue-eq-ok (panic, w) f h = cc

module _ {ℓ} {W A B : Type ℓ} (r : Result A × W) (g : A → Result B) where
  -- After a pure step the result is the chained one, and the world is as it was.
  pub continue-lift : continue r (λ a. lift (g a)) ≡ (and_then r.0 g, r.1)
  continue-lift = go r.0 r.1
    where
      go : (x : Result A) (w : W) → continue (x, w) (λ a. lift (g a)) ≡ (and_then x g, w)
      go (ok a) w = refl
      go (err v e) w = refl
      go panic w = refl

module _ {ℓ} {W A B : Type ℓ} where
  -- A chain whose first action is known to return.
  pub bind_step :
      (m : Exec W A) (f : A → Exec W B) {w : W} {a : A} → (m w).0 ≡ ok a → (m >>= f) w ≡ f a (m w).1
  unfolding ◌>>=◌
  bind_step m f {w} {a} e = ap (λ r. continue (r, (m w).1) f) e

  -- A chain whose first action is known to fail.
  pub bind_fails :
      (m : Exec W A) (f : A → Exec W B) {w : W} {v : Option A} {x : Error}
      → (m w).0 ≡ err v x
      → (m >>= f) w ≡ (err none x, (m w).1)
  unfolding ◌>>=◌
  bind_fails m f {w} e = ap (λ r. continue (r, (m w).1) f) e

-- Run from the world `w`, the action has the postcondition `Q` if it returns without an error.
pub record Ensures {ℓ} {W A : Type ℓ} (w : W) (m : Exec W A) (Q : A → W → Type ℓ) : Type ℓ where
  pub at : (a : A) (v : W) → m w ≡ (ok a, v) → Q a v

module _ {ℓ} {W A B : Type ℓ} {w : W} {Q : B → W → Type ℓ} where
  -- A chain is taken apart at its first action.
  pub Ensures-bind :
      (m : Exec W A) (f : A → Exec W B)
      → ((a : A) (u : W) → m w ≡ (ok a, u) → Ensures u (f a) Q)
      → Ensures w (m >>= f) Q
  unfolding ◌>>=◌
  Ensures-bind m f k = record { at = λ b v h. go (m w) refl b v h }
    where
      go : (r : Result A × W) → m w ≡ r → (b : B) (v : W) → continue r f ≡ (ok b, v) → Q b v
      go (ok a, u) e b v h = (k a u e).at b v h
      go (err x e, u) p b v h = cc
      go (panic, u) p b v h = cc

  -- The first action is known to return.
  pub Ensures-step :
      (r : Result A) (f : A → Exec W B) {a : A}
      → r ≡ ok a
      → Ensures w (f a) Q
      → Ensures w (lift r >>= f) Q
  unfolding ◌>>=◌
  Ensures-step r f {a} e k = record {
    at = λ b v h. k.at b v (sym (ap (λ x. continue (lift x w) f) e) ∙ h);
  }

  pub Ensures-lift :
      (r : Result A) (f : A → Exec W B)
      → ((a : A) → r ≡ ok a → Ensures w (f a) Q)
      → Ensures w (lift r >>= f) Q
  unfolding ◌>>=◌
  Ensures-lift (ok a) f k = record { at = λ b v h. (k a refl).at b v h }
  Ensures-lift (err x e) f k = record { at = λ b v h. cc }
  Ensures-lift panic f k = record { at = λ b v h. cc }

module _ {ℓ} {W A : Type ℓ} {w : W} {Q : A → W → Type ℓ} where
  pub Ensures-pure : (a : A) → Q a w → Ensures w (pure a) Q
  Ensures-pure a q = record { at = λ b v h. subst₂ Q (fst_of b v h) (snd_of b v h) q }
    where
      fst_of : (b : A) (v : W) → pure a w ≡ (ok b, v) → a ≡ b
      fst_of b v h = cc

      snd_of : (b : A) (v : W) → pure a w ≡ (ok b, v) → w ≡ v
      snd_of b v h = cc

  pub Ensures-if :
      (b : Bool) (m n : Exec W A)
      → (b ≡ true → Ensures w m Q)
      → Ensures w n Q
      → Ensures w (if b then m else n) Q
  Ensures-if true m n p q = p refl
  Ensures-if false m n p q = q

  -- An action that fails has any postcondition.
  pub Ensures-raise : (e : Error) → Ensures w (raise e) Q
  Ensures-raise e = record { at = λ a v h. cc }

  -- `if b { return nil, e }; return a, nil`
  pub Ensures-guard :
      (b : Bool) (e : Error) (a : A)
      → Q a w
      → Ensures w (if b then raise e else pure a) (λ x v. (b ≡ false) × Q x v)
  Ensures-guard true e a q = record { at = λ x v h. cc }
  Ensures-guard false e a q = record { at = λ x v h. (refl, (Ensures-pure a q).at x v h) }

module _ {ℓ} {W A : Type ℓ} where
  -- What is not an error was returned.
  pub caught-eq-inl :
      (r : Result A × W) {a : A} {w : W} → caught r ≡ (ok (inl a), w) → r ≡ (ok a, w)
  caught-eq-inl (ok a, w) h = cc
  caught-eq-inl (err v e, w) h = cc
  caught-eq-inl (panic, w) h = cc

  pub caught_of_ok : (r : Result A × W) {a : A} → r.0 ≡ ok a → (caught r).0 ≡ ok (inl a)
  caught_of_ok (ok a, w) h = cc
  caught_of_ok (err v e, w) h = cc
  caught_of_ok (panic, w) h = cc

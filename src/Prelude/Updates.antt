-- ===== src/Prelude/Updates.antt =====
-- Maps as functions, changed at one key.
use mathlib.Core.Path.{◌≡◌, refl}
use mathlib.Core.Logic.{◌≢◌, inl, inr}
use mathlib.Core.Option.{Option, some}
use native.Mathlib.Omega.{arith}
use Prim.Native.String.{String}
use text.Mathlib.Text.{◌==◌}
use text.Mathlib.TextEquality.{eq_iff}
use bb_remote_asset.Prelude.Tests.{Bool-cases}

pub String_discrete : Discrete String
String_discrete s t = elim (Bool-cases (s == t)) [
  | inl e ↦ yes ((eq_iff s t).0 e)
  | inr n ↦ no (λ e. ground (arith, n, (eq_iff s t).1 e))
]

-- A map, changed at one key.
module _ {K V : Type 0} (d : Discrete K) where
  unfoldable pub changed : K → V → (K → Option V) → K → Option V
  changed k v m j = elim (d k j) [ yes _ ↦ some v | no _ ↦ m j ]

  pub changed_same : (k : K) (v : V) (m : K → Option V) → changed k v m k ≡ some v
  unfolding changed
  changed_same k v m = go (d k k)
    where
      go : (x : Dec (k ≡ k)) → (elim x [ yes _ ↦ some v | no _ ↦ m k ]) ≡ some v
      go (yes _) = refl
      go (no n) = absurd (n refl)

  pub changed_ne : (k j : K) (v : V) (m : K → Option V) → k ≢ j → changed k v m j ≡ m j
  unfolding changed
  changed_ne k j v m apart = go (d k j)
    where
      go : (x : Dec (k ≡ j)) → (elim x [ yes _ ↦ some v | no _ ↦ m j ]) ≡ m j
      go (yes e) = absurd (apart e)
      go (no _) = refl

-- ===== src/Prelude/Split.antt =====
-- The functions of Go's `strings` and `fmt` that the program uses.
use Prim.Native.Nat.{ℕ}
use Prim.Native.Char.{Char, code}
use Prim.Native.String
use Prim.Native.String.{String}
use mathlib.Core.Path.{◌≡◌, refl, ap, ◌∙◌}
use mathlib.Core.Logic.{◌↔◌, inl, inr}
use mathlib.Core.Bool.{Bool, true, false, ◌||◌}
use mathlib.Core.Option.{Option, none, some}
use mathlib.Core.List.{List, [], ◌∷◌}
use native.Mathlib.Omega.{arith}
use bb_remote_asset.Prelude.Tests.{nat_eq, Bool-cases, if◌then◌else◌}

-- fmt.Sprintf with `%s` alone: the pieces one after the other.
abbrev pub concat : List String → String
concat [] = ""
concat (s ∷ r) = String.◌++◌ s (concat r)

abbrev push : Char → List String → List String
push c [] = (String.◌∷◌ c "") ∷ []
push c (p ∷ ps) = String.◌∷◌ c p ∷ ps

-- strings.Split by one character, given by its code.
unfoldable pub split : ℕ → String → List String
split sep String.[] = "" ∷ []
split sep (String.◌∷◌ c s) =
    let parts = split sep s in if nat_eq (code c) sep then "" ∷ parts else push c parts

abbrev push_before : Char → Option (String × String) → Option (String × String)
push_before c none = none
push_before c (some (p, r)) = some (String.◌∷◌ c p, r)

-- strings.SplitN with 2: before and after the first separator, or `none` if there is none.
unfoldable pub split_first : ℕ → String → Option (String × String)
split_first sep String.[] = none
split_first sep (String.◌∷◌ c s) =
    if nat_eq (code c) sep then some ("", s) else push_before c (split_first sep s)

-- Whether the character occurs.
unfoldable pub has_char : ℕ → String → Bool
has_char sep String.[] = false
has_char sep (String.◌∷◌ c s) = nat_eq (code c) sep || has_char sep s

-- There are two parts exactly when the separator occurs.
pub split_first-eq-none_iff :
    (sep : ℕ) (s : String) → (split_first sep s ≡ none) ↔ (has_char sep s ≡ false)
unfolding split_first has_char
split_first-eq-none_iff sep String.[] = ground arith
split_first-eq-none_iff sep (String.◌∷◌ c s) = ground (arith, split_first-eq-none_iff sep s)

-- Without the separator the text is the one part.
pub split_whole : (sep : ℕ) (s : String) → has_char sep s ≡ false → split sep s ≡ s ∷ []
unfolding split has_char
split_whole sep String.[] h = refl
split_whole sep (String.◌∷◌ c s) h = ground (arith, split_whole sep s)

push_parts :
    (c : Char) (ps : List String) {p q : String} {r : List String}
    → ps ≡ p ∷ q ∷ r
    → (p' : String) × (q' : String) × (r' : List String) × (push c ps ≡ p' ∷ q' ∷ r')
push_parts c ps {p} {q} {r} e = (String.◌∷◌ c p, q, r, rw e)

split_cons : (sep : ℕ) (s : String) → (p : String) × (r : List String) × (split sep s ≡ p ∷ r)
unfolding split
split_cons sep String.[] = ("", [], refl)
split_cons sep (String.◌∷◌ c s) = elim (Bool-cases (nat_eq (code c) sep)) [
  | inl here ↦ ("", split sep s, rw here)
  | inr later ↦ let (p, r, e) = split_cons sep s in (String.◌∷◌ c p, r, rw later (rw e))
]

-- With it there are two parts or more.
pub split_parts :
    (sep : ℕ) (s : String)
    → has_char sep s ≡ true
    → (p : String) × (q : String) × (r : List String) × (split sep s ≡ p ∷ q ∷ r)
unfolding split has_char
split_parts sep String.[] h = cc
split_parts sep (String.◌∷◌ c s) h = elim (Bool-cases (nat_eq (code c) sep)) [
  | inl here ↦ let (p, r, e) = split_cons sep s in ("", p, r, rw here (rw e))
  | inr later ↦
      let (p, q, r, e) = split_parts sep s (ground (arith, later)) in
      let (p', q', r', e') = push_parts c (split sep s) e in (p', q', r', rw later e')
]

-- A text without the separator is what stands before the first one.
pub split_first-append :
    (sep : ℕ) (s : String) (c : Char) (t : String)
    → code c ≡ sep
    → has_char sep s ≡ false
    → split_first sep (String.◌++◌ s (String.◌∷◌ c t)) ≡ some (s, t)
unfolding split_first has_char
split_first-append sep String.[] c t e h =
    ap (split_first sep) (λ i. String.append.nil (String.◌∷◌ c t) i) ∙ ground (arith, e)
split_first-append sep (String.◌∷◌ d s) c t e h =
    ap (split_first sep) (λ i. String.append.cons d s (String.◌∷◌ c t) i)
    ∙ ground (arith, split_first-append sep s c t e)

-- strings.CutPrefix: what follows the prefix, or `none` if the text does not begin with it.
unfoldable pub cut_prefix : String → String → Option String
cut_prefix String.[] s = some s
cut_prefix (String.◌∷◌ c p) String.[] = none
cut_prefix (String.◌∷◌ c p) (String.◌∷◌ d s) =
    let rest = cut_prefix p s in if nat_eq (code c) (code d) then rest else none

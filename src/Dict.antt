-- ===== src/Dict.antt =====
-- A Go map with string keys: its assignments, the newest first. Only look-ups read it, so what an
-- assignment hides may stay; `assign` is for maps that are ranged over too.
use bb_remote_asset.Prelude.{
  String, ◌≡◌, refl, Option, none, some, List, [], ◌∷◌, ◌==◌, if◌then◌else◌, Bool, true, all,
  eq_iff, arith,
}

-- `value, ok := entries[name]`
unfoldable pub lookup {ℓ} : {V : Type ℓ} → String → List (String × V) → Option V
lookup name [] = none
lookup name (entry ∷ entries) = if entry.0 == name then some entry.1 else lookup name entries

-- `entries[name] = value`
unfoldable pub insert {ℓ} : {V : Type ℓ} → String → V → List (String × V) → List (String × V)
insert name value entries = (name, value) ∷ entries

-- An assignment is seen at its own name, and nowhere else.
pub lookup-insert {ℓ} :
    {V : Type ℓ} (name other : String) (value : V) (entries : List (String × V))
    → lookup other (insert name value entries)
      ≡ (if name == other then some value else lookup other entries)
unfolding lookup insert
lookup-insert name other value entries = refl

-- `entries[name] = value` where the entries are ranged over too: each name stands once.
unfoldable pub assign {ℓ} : {V : Type ℓ} → String → V → List (String × V) → List (String × V)
assign name value [] = (name, value) ∷ []
assign name value (entry ∷ entries) =
    if entry.0 == name then (name, value) ∷ entries else entry ∷ assign name value entries

pub lookup-assign {ℓ} :
    {V : Type ℓ} (name other : String) (value : V) (entries : List (String × V))
    → lookup other (assign name value entries)
      ≡ (if name == other then some value else lookup other entries)
unfolding lookup assign
lookup-assign name other value [] = refl
lookup-assign name other value ((k, v) ∷ entries) = ground (
  arith,
  eq_iff name other,
  eq_iff k name,
  eq_iff k other,
  lookup-assign name other value entries,
)

-- What holds of all entries still does, if it holds of the assigned one.
pub all-assign {ℓ} :
    {V : Type ℓ} (p : String × V → Bool) (name : String) (value : V) (entries : List (String × V))
    → p (name, value) ≡ true
    → all p entries ≡ true
    → all p (assign name value entries) ≡ true
unfolding assign
all-assign p name value [] h k = rw h refl
all-assign p name value ((j, v) ∷ entries) h k = ground (arith, all-assign p name value entries h)

-- ===== src/Qualifier/Set.antt =====
-- pkg/qualifier/qualifier_set.go: sets of qualifier names. The keys of the map are a list; its
-- order stands for the order in which a `range` over the map meets them.
pub mod Laws
use bb_remote_asset.Prelude.{
  String, Bool, false, not, ◌||◌, List, [], ◌∷◌, ◌==◌, if◌then◌else◌, is_nil,
}
use bb_remote_asset.Qualifier.Defs.{Qualifier}

pub record NameSet : Type 0 where
  pub names : List String

pub holds : List String → String → Bool
holds [] q = false
holds (k ∷ ks) q = k == q || holds ks q

-- `Contains`
unfoldable pub contains : NameSet → String → Bool
unfolding holds
contains s q = holds s.names q

-- `IsEmpty`
unfoldable pub is_empty : NameSet → Bool
is_empty s = is_nil s.names

abbrev pub empty : NameSet
empty = record { names = [] }

-- `Add`: a key that is there already stays the only one.
unfoldable pub add : NameSet → String → NameSet
unfolding contains
add s q = if contains s q then s else record { names = q ∷ s.names }

add_all : NameSet → List String → NameSet
add_all s [] = s
add_all s (n ∷ ns) = add_all (add s n) ns

-- `NewSet`
unfoldable pub new_set : List String → NameSet
unfolding add_all add
new_set names = add_all empty names

-- The loop of `Difference`, `diff` being what it has added so far.
difference_from : NameSet → List String → NameSet → NameSet
difference_from diff [] b = diff
difference_from diff (k ∷ ks) b =
    difference_from (if not (contains b k) then add diff k else diff) ks b

-- `Difference`
unfoldable pub difference : NameSet → NameSet → NameSet
unfolding difference_from add
difference a b = difference_from empty a.names b

add_names : NameSet → List Qualifier → NameSet
add_names s [] = s
add_names s (q ∷ qs) = add_names (add s q.name) qs

-- `QualifiersToSet`
unfoldable pub qualifiers_to_set : List Qualifier → NameSet
unfolding add_names add
qualifiers_to_set qualifiers = add_names empty qualifiers

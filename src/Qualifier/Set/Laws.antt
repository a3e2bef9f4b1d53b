-- ===== src/Qualifier/Set/Laws.antt =====
-- What a set contains after each operation.
use bb_remote_asset.Prelude.{
  String, ◌≡◌, refl, ap, ◌∙◌, ◌↔◌, inl, inr, Bool, true, false, not, ◌&&◌, ◌||◌, List, [], ◌∷◌,
  arith, ◌==◌, eq_iff, eq_refl, Bool-cases, is_nil, any,
}
use bb_remote_asset.Qualifier.Defs.{Qualifier}
use bb_remote_asset.Qualifier.Set.{
  NameSet, holds, contains, is_empty, empty, add, new_set, difference, qualifiers_to_set, add_all,
  difference_from, add_names,
}

-- Whether a qualifier of this name is listed.
unfoldable pub names_any : List Qualifier → String → Bool
names_any [] k = false
names_any (q ∷ qs) k = q.name == k || names_any qs k

pub contains-add : (s : NameSet) (q k : String) → contains (add s q) k ≡ (q == k || contains s k)
unfolding add contains holds
contains-add s q k = elim (Bool-cases (holds s.names q)) [
  | inl old ↦ rw old (ground (arith, eq_iff q k))
  | inr new ↦ rw new
]

contains-add_all :
    (s : NameSet) (ns : List String) (k : String)
    → contains (add_all s ns) k ≡ (holds ns k || contains s k)
unfolding add_all holds
contains-add_all s [] k = refl
contains-add_all s (n ∷ ns) k = ground (arith, contains-add_all (add s n) ns k, contains-add s n k)

-- A new set contains the names that are listed, and no others.
pub contains-new_set : (ns : List String) (k : String) → contains (new_set ns) k ≡ holds ns k
unfolding new_set contains holds
contains-new_set ns k = ground (arith, contains-add_all empty ns k)

-- The same in terms of the list.
holds-any : (ns : List String) (k : String) → holds ns k ≡ any (λ n. n == k) ns
unfolding holds
holds-any [] k = refl
holds-any (n ∷ ns) k = ap (λ b. n == k || b) (holds-any ns k)

pub contains-any : (s : NameSet) (k : String) → contains s k ≡ any (λ n. n == k) s.names
unfolding contains
contains-any s k = holds-any s.names k

pub contains-new_set-any :
    (ns : List String) (k : String) → contains (new_set ns) k ≡ any (λ n. n == k) ns
contains-new_set-any ns k = contains-new_set ns k ∙ holds-any ns k

contains-add_names :
    (s : NameSet) (qs : List Qualifier) (k : String)
    → contains (add_names s qs) k ≡ (names_any qs k || contains s k)
unfolding add_names names_any
contains-add_names s [] k = refl
contains-add_names s (q ∷ qs) k =
    ground (arith, contains-add_names (add s q.name) qs k, contains-add s q.name k)

-- The set of a list of qualifiers contains the names of those qualifiers, and no others.
pub contains-qualifiers_to_set :
    (qs : List Qualifier) (k : String) → contains (qualifiers_to_set qs) k ≡ names_any qs k
unfolding qualifiers_to_set contains holds
contains-qualifiers_to_set qs k = ground (arith, contains-add_names empty qs k)

contains_cong : (s : NameSet) (i k : String) → i ≡ k → contains s i ≡ contains s k
contains_cong s i k e = ap (contains s) e

contains-difference_from :
    (diff : NameSet) (ks : List String) (b : NameSet) (k : String)
    → contains (difference_from diff ks b) k ≡ (holds ks k && not (contains b k) || contains diff k)
unfolding difference_from holds
contains-difference_from diff [] b k = refl
contains-difference_from diff (i ∷ ks) b k = elim (Bool-cases (contains b i)) [
  | inl known ↦
      ground (arith, known, contains-difference_from diff ks b k, eq_iff i k, contains_cong b i k)
  | inr new ↦ ground (
    arith,
    new,
    contains-difference_from (add diff i) ks b k,
    contains-add diff i k,
    eq_iff i k,
    contains_cong b i k,
  )
]

-- The difference contains the names of the first set that the second lacks.
pub contains-difference :
    (a b : NameSet) (k : String)
    → contains (difference a b) k ≡ (contains a k && not (contains b k))
unfolding difference contains holds
contains-difference a b k = ground (arith, contains-difference_from empty a.names b k)

-- A set is empty exactly when it contains nothing.
pub is_empty_iff : (s : NameSet) → (is_empty s ≡ true) ↔ ((k : String) → contains s k ≡ false)
unfolding is_empty contains holds
is_empty_iff s = (empty_names s.names, no_names s.names)
  where
    empty_names : (ks : List String) → is_nil ks ≡ true → (k : String) → holds ks k ≡ false
    empty_names [] h k = refl
    empty_names (i ∷ ks) h k = cc

    no_names : (ks : List String) → ((k : String) → holds ks k ≡ false) → is_nil ks ≡ true
    no_names [] h = refl
    no_names (i ∷ ks) h = ground (arith, h i, eq_refl i)

-- The difference is empty exactly when the second set contains all of the first.
pub is_empty-difference_iff :
    (a b : NameSet)
    → (is_empty (difference a b) ≡ true)
      ↔ ((k : String) → contains a k ≡ true → contains b k ≡ true)
is_empty-difference_iff a b = (
  λ e k h. ground (arith, (is_empty_iff (difference a b)).0 e k, contains-difference a b k),
  λ all. (is_empty_iff (difference a b)).1 λ k. elim (Bool-cases (contains a k)) [
    | inl h ↦ ground (arith, all k h, contains-difference a b k)
    | inr h ↦ ground (arith, h, contains-difference a b k)
  ],
)

-- The keys of the map are distinct.
abbrev pub HasDistinctNames : List String → Type 0
HasDistinctNames [] = Unit
HasDistinctNames (k ∷ ks) = (holds ks k ≡ false) × HasDistinctNames ks

add-HasDistinctNames :
    (s : NameSet) (q : String) → HasDistinctNames s.names → HasDistinctNames (add s q).names
unfolding add contains
add-HasDistinctNames s q h = elim (Bool-cases (holds s.names q)) [
  | inl old ↦ rw old h
  | inr new ↦ rw new (new, h)
]

difference_from-HasDistinctNames :
    (diff : NameSet) (ks : List String) (b : NameSet)
    → HasDistinctNames diff.names
    → HasDistinctNames (difference_from diff ks b).names
unfolding difference_from
difference_from-HasDistinctNames diff [] b h = h
difference_from-HasDistinctNames diff (k ∷ ks) b h = elim (Bool-cases (contains b k)) [
  | inl known ↦ rw (known, HasDistinctNames) (difference_from-HasDistinctNames diff ks b h)
  | inr new ↦
      rw (new, HasDistinctNames)
        (difference_from-HasDistinctNames (add diff k) ks b (add-HasDistinctNames diff k h))
]

-- A difference holds each name once.
pub difference-HasDistinctNames : (a b : NameSet) → HasDistinctNames (difference a b).names
unfolding difference
difference-HasDistinctNames a b = difference_from-HasDistinctNames empty a.names b tt

-- ===== src/Qualifier/Sorter.antt =====
-- pkg/qualifier/qualifier_sorter.go: the order in which qualifiers are stored.
use mathlib.Core.List.{List}
use bb_remote_asset.Prelude.{
  String, ◌≡◌, Bool, true, false, ◌&&◌, ◌||◌, ◌==◌, eq_iff, eq_refl, arith, text_less,
  text_less_irrefl, text_less_trans, text_less_tri,
}
use bb_remote_asset.Prelude.Sorting.{Order}
use bb_remote_asset.Qualifier.Defs.{Qualifier}

-- `Less`, on the values that the two indices hold.
unfoldable pub less : Qualifier → Qualifier → Bool
less q r = text_less q.name r.name || q.name == r.name && text_less q.value r.value

pub less_irrefl : (q : Qualifier) → less q q ≡ false
unfolding less
less_irrefl q = ground (arith, text_less_irrefl q.name, text_less_irrefl q.value, eq_refl q.name)

-- The order is transitive.
pub less_trans : (q r s : Qualifier) → less q r ≡ true → less r s ≡ true → less q s ≡ true
unfolding less
less_trans q r s h k = ground (
  arith,
  text_less_trans q.name r.name s.name,
  text_less_trans q.value r.value s.value,
  eq_iff q.name r.name,
  eq_iff r.name s.name,
  eq_iff q.name s.name,
)

-- Qualifiers of which neither comes first are the same.
pub less_tri : (q r : Qualifier) → less q r ≡ false → less r q ≡ false → q ≡ r
unfolding less
less_tri q r h k = ground (
  arith,
  text_less_tri q.name r.name,
  text_less_tri q.value r.value,
  eq_iff q.name r.name,
  eq_iff r.name q.name,
)

instance abbrev pub text_order : Order String
text_order = record {
  less = text_less;
  irrefl = text_less_irrefl;
  trans = text_less_trans;
  tri = text_less_tri;
}

instance abbrev pub qualifier_order : Order Qualifier
qualifier_order = record { less = less; irrefl = less_irrefl; trans = less_trans; tri = less_tri }

-- `ToArray` copies the slice.
unfoldable pub to_array : List Qualifier → List Qualifier
to_array q = q

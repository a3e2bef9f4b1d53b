-- ===== src/Storage/Trace.antt =====
-- What a client sees of a store over a sequence of gets and puts, and what a map of assets shows.
use native.Mathlib.Decide.{ℕ_discrete}
use bb_remote_asset.Prelude.{◌≡◌, refl, sym, ap, ◌∙◌, Option, some, List, [], ◌∷◌}
use bb_remote_asset.Prelude.Updates.{String_discrete, changed}
use bb_remote_asset.Prelude.Effect.{ok, found}
use bb_remote_asset.Storage.Messages.{AssetReference, Asset}
use bb_remote_asset.Storage.Store.{AssetStore, IsAssetMap, found-get}

pub AssetReference-discrete : Discrete AssetReference
AssetReference-discrete = hlevel (ℕ_discrete, String_discrete)

pub data Operation : Type 0 where
  get : AssetReference → Operation
  put : AssetReference → Asset → Operation

-- What the gets find when a store runs the operations, one after the other.
unfoldable pub outcomes :
    {Function W : Type 0}
    → AssetStore Function W
    → Function
    → List Operation
    → W
    → List (Option Asset)
outcomes s f [] w = []
outcomes s f (get r ∷ rest) w = found (s.get r f w).0 ∷ outcomes s f rest (s.get r f w).1
outcomes s f (put r a ∷ rest) w = outcomes s f rest (s.put r a f w).1

-- What they find in a map.
unfoldable pub expected : List Operation → (AssetReference → Option Asset) → List (Option Asset)
unfolding changed
expected [] m = []
expected (get r ∷ rest) m = m r ∷ expected rest m
expected (put r a ∷ rest) m = expected rest (changed AssetReference-discrete r a m)

-- What is put by the operations.
abbrev pub AllPuts : (Asset → Type 0) → List Operation → Type 0
AllPuts P [] = Unit
AllPuts P (get r ∷ rest) = AllPuts P rest
AllPuts P (put r a ∷ rest) = P a × AllPuts P rest

-- Maps that agree at every reference show the same.
expected_cong :
    (ops : List Operation) (m n : AssetReference → Option Asset)
    → ((r : AssetReference) → m r ≡ n r)
    → expected ops m ≡ expected ops n
expected_cong ops m n e = ap (expected ops) (λ i r. e r i)

module _ {Function W : Type 0} (s : AssetStore Function W) (f : Function) (c : IsAssetMap s f)
    (returns : (r : AssetReference) (a : Asset) (w : W) → (s.put r a f w).0 ≡ ok tt) where
  after_put :
      (r q : AssetReference) (a : Asset) (w : W)
      → c.IsStorable a
      → changed AssetReference-discrete r a (c.view w) q ≡ c.view (s.put r a f w).1 q
  unfolding changed
  after_put r q a w can = go (AssetReference-discrete r q)
    where
      go :
          (x : Dec (r ≡ q))
          → (elim x [ yes _ ↦ some a | no _ ↦ c.view w q ]) ≡ c.view (s.put r a f w).1 q
      go (yes same) =
          sym (c.put_stores r a w can (returns r a w)) ∙ ap (c.view (s.put r a f w).1) same
      go (no apart) = sym (c.put_keeps r q a w apart)

  outcomes-expected :
      (ops : List Operation) (w : W)
      → AllPuts c.IsStorable ops
      → outcomes s f ops w ≡ expected ops (c.view w)
  unfolding outcomes expected
  outcomes-expected [] w can = refl
  outcomes-expected (get r ∷ rest) w can =
      let later =
        outcomes-expected rest (s.get r f w).1 can
        ∙ expected_cong rest _ _ (λ q. c.get_keeps r q w) in
      rw (found-get c r w, later) refl
  outcomes-expected (put r a ∷ rest) w (here, can) =
      outcomes-expected rest (s.put r a f w).1 can
      ∙ sym (expected_cong rest _ _ (λ q. after_put r q a w here))

  -- The map is what a get shows at the start.
  pub outcomes-expected-found :
      (ops : List Operation) (w : W)
      → AllPuts c.IsStorable ops
      → outcomes s f ops w ≡ expected ops (λ r. found (s.get r f w).0)
  outcomes-expected-found ops w can =
      outcomes-expected ops w can ∙ expected_cong ops _ _ (λ r. sym (found-get c r w))

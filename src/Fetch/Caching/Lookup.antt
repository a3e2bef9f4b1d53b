-- ===== src/Fetch/Caching/Lookup.antt =====
-- What the look-up in the asset store returns.
use bb_remote_asset.Prelude.{
  ◌+◌, String, ◌≡◌, refl, ap, sym, subst, ◌⊎◌, inl, inr, List, [], ◌∷◌, ◌++◌, arith, length,
  length-append,
}
use bb_remote_asset.Prelude.Effect.{
  ok, Error, pure, caught, Ensures, Ensures-bind, Ensures-pure, caught-eq-inl,
}
use bb_remote_asset.Time.{Time, Clock}
use bb_remote_asset.Qualifier.{Qualifier}
use bb_remote_asset.Storage.Messages.{Asset}
use bb_remote_asset.Storage.Libraries.{Libraries}
use bb_remote_asset.Storage.Store.{AssetStore}
use bb_remote_asset.Fetch.Caching.{get_and_check_asset, look_up}
use bb_remote_asset.Fetch.Caching.Usable.{
  IsUnusable, Passes, IsFound, ask, after_answer, get_and_check_asset_Ensures,
  get_and_check_asset-fails,
}

module _ (l : Libraries) {W : Type 0} (store : AssetStore l.Function W) (clock : Clock W)
    (qualifiers : List Qualifier) (f : l.Function) (oldest : Time) where
  -- A hit is the first usable asset; a miss has an error for each of the URIs.
  abbrev pub IsOutcome : List Error → List String → W → (String × Asset) ⊎ List Error → W → Type 0
  IsOutcome errors uris w (inl (uri, a)) v = IsFound l store clock qualifiers f oldest uris w uri a
  IsOutcome errors uris w (inr es) v =
      (length es ≡ length errors + length uris) × Passes l store clock qualifiers f oldest uris w v

  pub look_up_Ensures :
      (uris : List String) (errors : List Error) (w : W)
      → Ensures w
          (look_up l store clock qualifiers f oldest errors uris)
          (λ r v. IsOutcome errors uris w r v)
  unfolding look_up
  look_up_Ensures [] errors w = Ensures-pure _ (omega arith, refl)
  look_up_Ensures (uri ∷ uris) errors w =
      Ensures-bind _ _ λ r u e. go r u e (λ es. look_up_Ensures uris es u)
    where
      extend :
          (x : Error) (u : W) (o : (String × Asset) ⊎ List Error) (v : W)
          → IsUnusable l store clock qualifiers f oldest uri w
            × (after_answer l store clock qualifiers f oldest
                  (ask l store clock qualifiers f oldest uri w)
                ≡ u)
          → IsOutcome (errors ++ x ∷ []) uris u o v
          → IsOutcome errors (uri ∷ uris) w o v
      extend x u (inl (k, a)) v (bad, next) found = record {
        before = uri ∷ found.before;
        after = found.after;
        is_split = ap (λ us. uri ∷ us) found.is_split;
        world = found.world;
        are_unusable = (
          bad,
          subst (λ w'. Passes l store clock qualifiers f oldest found.before w' found.world)
              (sym next) found.are_unusable,
        );
        is_usable = found.is_usable;
      }
      extend x u (inr es) v (bad, next) (h, pass) = (
        ground (arith, h, length-append errors (x ∷ [])),
        (bad, subst (λ w'. Passes l store clock qualifiers f oldest uris w' v) (sym next) pass),
      )

      go :
          (r : Asset ⊎ Error) (u : W)
          → caught (get_and_check_asset l store clock uri qualifiers f oldest w) ≡ (ok r, u)
          → ((es : List Error)
              → Ensures u
                  (look_up l store clock qualifiers f oldest es uris)
                  (λ x v. IsOutcome es uris u x v))
          → Ensures u
              (elim r [
                | inl a ↦ pure (inl (uri, a))
                | inr x ↦ look_up l store clock qualifiers f oldest (errors ++ x ∷ []) uris
              ])
              (λ x v. IsOutcome errors (uri ∷ uris) w x v)
      go (inl a) u e ih = Ensures-pure _ (record {
        before = [];
        after = uris;
        is_split = refl;
        world = w;
        are_unusable = refl;
        is_usable =
            (get_and_check_asset_Ensures l store clock qualifiers f oldest uri w).at a u
              (caught-eq-inl _ e);
      })
      go (inr x) u e ih = record {
        at = λ o v h.
            extend x u o v (get_and_check_asset-fails l store clock qualifiers f oldest uri w u x e)
              ((ih (errors ++ x ∷ [])).at o v h);
      }

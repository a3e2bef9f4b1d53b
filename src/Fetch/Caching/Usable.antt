-- ===== src/Fetch/Caching/Usable.antt =====
-- `getAndCheckAsset`: which assets are usable, and what an error of it means.
use bb_remote_asset.Prelude.{
  String, ◌≡◌, refl, ap, ◌∙◌, subst, ◌↔◌, true, Bool-cases, ◌⊎◌, inl, inr, Bool, false, Option,
  none, some, List, [], ◌∷◌, ◌++◌, arith,
}
use bb_remote_asset.Prelude.Effect.{
  ok, Error, Result, err, panic, Exec, caught, Ensures, Ensures-bind, Ensures-guard, continue,
  ◌>>=◌,
}
use bb_remote_asset.Time.{unix_epoch, same_instant, same_struct, before, Time, Timestamp, Clock}
use bb_remote_asset.Qualifier.{Qualifier}
use bb_remote_asset.Storage.Messages.{Asset}
use bb_remote_asset.Storage.Libraries.{Libraries}
use bb_remote_asset.Storage.Reference.{new_asset_reference}
use bb_remote_asset.Storage.Store.{AssetStore}
use bb_remote_asset.Fetch.Caching.{
  is_expired, is_too_old, check_expiry, check_age, get_and_check_asset,
}

-- The time at which the asset is looked at: the clock is read after the store has answered.
abbrev pub time_after : {W A : Type 0} → Clock W → Exec W A → W → Time
time_after clock m w = (clock.now (m w).1).0

module _ (l : Libraries) {W : Type 0} (store : AssetStore l.Function W) (clock : Clock W)
    (qualifiers : List Qualifier) (f : l.Function) (oldest : Time) where
  abbrev pub ask : String → Exec W Asset
  ask uri = store.get (new_asset_reference (uri ∷ []) qualifiers) f

  -- The expiry, if there is one that is not the epoch, is not before the time.
  abbrev pub IsCurrent : Time → Option Timestamp → Type 0
  IsCurrent now none = Unit
  IsCurrent now (some t) =
      (same_instant (l.as_time (some t)) unix_epoch ≡ true)
      ⊎ (before (l.as_time (some t)) now ≡ false)

  -- Content of any age is accepted, or the update is not before the oldest that is.
  abbrev pub IsRecent : Option Timestamp → Type 0
  IsRecent last_updated =
      (same_struct oldest unix_epoch ≡ true) ⊎ (before (l.as_time last_updated) oldest ≡ false)

  IsCurrent-iff :
      (now : Time) (o : Option Timestamp) → (is_expired l now o ≡ false) ↔ IsCurrent now o
  unfolding is_expired
  IsCurrent-iff now none = (λ _. tt, λ _. refl)
  IsCurrent-iff now (some t) =
      let at_epoch = same_instant (l.as_time (some t)) unix_epoch in
      (
        λ e. elim (Bool-cases at_epoch) [ inl p ↦ inl p | inr p ↦ inr (ground (arith, p, e)) ],
        λ c. elim c [ inl p ↦ ground (arith, p) | inr p ↦ ground (arith, p) ],
      )

  IsRecent-iff : (o : Option Timestamp) → (is_too_old l oldest o ≡ false) ↔ IsRecent o
  unfolding is_too_old
  IsRecent-iff o = (
    λ e. elim (Bool-cases (same_struct oldest unix_epoch)) [
      | inl p ↦ inl p
      | inr p ↦ inr (ground (arith, p, e))
    ],
    λ c. elim c [ inl p ↦ ground (arith, p) | inr p ↦ ground (arith, p) ],
  )

  -- In the world `w` the store has this asset for the URI, neither expired nor too old.
  pub record IsUsable (uri : String) (a : Asset) (w : W) : Type 0 where
    pub is_stored : (ask uri w).0 ≡ ok a
    pub is_current : IsCurrent (time_after clock (ask uri) w) a.expire_at
    pub is_recent : IsRecent a.last_updated

  none_is_current : (now : Time) → is_expired l now none ≡ false
  unfolding is_expired
  none_is_current now = refl

  abbrev now_expired : Timestamp → Result Time → Bool
  now_expired t (ok now) = is_expired l now (some t)
  now_expired t (err _ _) = false
  now_expired t panic = false

  check_expiry_Ensures :
      (o : Option Timestamp) (w : W)
      → Ensures w (check_expiry l store clock o) (λ _ _. is_expired l (clock.now w).0 o ≡ false)
  unfolding check_expiry
  check_expiry_Ensures none w = record { at = λ _ v h. none_is_current (clock.now w).0 }
  check_expiry_Ensures (some t) w = Ensures-bind _ _ λ now u e. record {
    at = λ x v h.
        ap (λ (r : Result Time × W). now_expired t r.0) e
        ∙ ((Ensures-guard {Q = λ _ _. Unit {0}} (is_expired l now (some t)) _ tt tt).at x v h).0;
  }

  check_age_Ensures :
      (a : Asset) (w : W)
      → Ensures w
          (check_age l store clock oldest a)
          (λ b _. (is_too_old l oldest a.last_updated ≡ false) × (a ≡ b))
  unfolding check_age
  check_age_Ensures a w = Ensures-guard (is_too_old l oldest a.last_updated) _ a refl

  pub get_and_check_asset_Ensures :
      (uri : String) (w : W)
      → Ensures w
          (get_and_check_asset l store clock uri qualifiers f oldest)
          (λ a _. IsUsable uri a w)
  unfolding get_and_check_asset
  get_and_check_asset_Ensures uri w = Ensures-bind _ _ λ a u e. Ensures-bind _ _ λ _ v e'. record {
    at = λ b x h.
        let (recent, same) = (check_age_Ensures a v).at b x h in
        subst (λ c. IsUsable uri c w) same
          (record {
            is_stored = ap (λ (r : Result Asset × W). r.0) e;
            is_current = (IsCurrent-iff _ a.expire_at).0 (
                ap (λ (r : Result Asset × W). is_expired l (clock.now r.1).0 a.expire_at) e
                ∙ (check_expiry_Ensures a.expire_at u).at tt v e');
            is_recent = (IsRecent-iff a.last_updated).0 recent;
          });
  }

  -- The expiry is compared with the clock, which is not read for an asset that has none.
  abbrev pub after_clock : Option Timestamp → W → W
  after_clock none w = w
  after_clock (some _) w = (clock.now w).1

  -- The world after the store has answered and the asset was looked at.
  abbrev pub after_answer : Result Asset × W → W
  after_answer (ok a, w) = after_clock a.expire_at w
  after_answer (err _ _, w) = w
  after_answer (panic, w) = w

  -- The store has no usable asset for the URI.
  abbrev pub IsUnusable : String → W → Type 0
  IsUnusable uri w = (a : Asset) → ¬ IsUsable uri a w

  -- From the world `w` the store is asked for the URIs in their order and has a usable asset for
  -- none of them; `v` is the world after that.
  abbrev pub Passes : List String → W → W → Type 0
  Passes [] w v = w ≡ v
  Passes (uri ∷ uris) w v = IsUnusable uri w × Passes uris (after_answer (ask uri w)) v

  -- From the world `w` the store is asked for the URIs in their order, and this is the first one for
  -- which it has a usable asset.
  pub record IsFound (uris : List String) (w : W) (uri : String) (a : Asset) : Type 0 where
    pub before : List String
    pub after : List String
    pub is_split : uris ≡ before ++ uri ∷ after
    pub world : W
    pub are_unusable : Passes before w world
    pub is_usable : IsUsable uri a world

  checks_fail :
      (o : Option Timestamp) (a : Asset) (w v : W) (x : Error)
      → caught ((check_expiry l store clock o >>= λ _. check_age l store clock oldest a) w)
        ≡ (ok (inr x), v)
      → ((is_expired l (clock.now w).0 o ≡ true) ⊎ (is_too_old l oldest a.last_updated ≡ true))
        × (after_clock o w ≡ v)
  unfolding check_expiry check_age ◌>>=◌
  checks_fail none a w v x h = elim (Bool-cases (is_too_old l oldest a.last_updated)) [
    | inl old ↦ (inr old, cc (rw old at h))
    | inr young ↦ cc (rw young at h)
  ]
  checks_fail (some t) a w v x h = elim (Bool-cases (is_expired l (clock.now w).0 (some t))) [
    | inl late ↦ (inl late, cc (rw late at h))
    | inr early ↦ elim (Bool-cases (is_too_old l oldest a.last_updated)) [
      | inl old ↦ (inr old, cc (rw (early, old) at h))
      | inr young ↦ cc (rw (early, young) at h)
    ]
  ]

  -- An error of `get_and_check_asset` means that there is no usable asset.
  pub get_and_check_asset-fails :
      (uri : String) (w v : W) (x : Error)
      → caught (get_and_check_asset l store clock uri qualifiers f oldest w) ≡ (ok (inr x), v)
      → IsUnusable uri w × (after_answer (ask uri w) ≡ v)
  unfolding get_and_check_asset ◌>>=◌
  get_and_check_asset-fails uri w v x h = go (ask uri w) refl h
    where
      go :
          (r : Result Asset × W)
          → ask uri w ≡ r
          → caught (
              continue r λ a.
                check_expiry l store clock a.expire_at >>= λ _. check_age l store clock oldest a)
            ≡ (ok (inr x), v)
          → IsUnusable uri w × (after_answer (ask uri w) ≡ v)
      go (ok a, u) p q =
          let (why, e) = checks_fail a.expire_at a u v x q in
          (
            λ b usable.
                let same : a ≡ b = cc (p, usable.is_stored) in
                elim why [
                  | inl late ↦ cc (
                    late,
                    (IsCurrent-iff (time_after clock (ask uri) w) b.expire_at).1 usable.is_current,
                    same,
                    p,
                  )
                  | inr old ↦ cc (old, (IsRecent-iff b.last_updated).1 usable.is_recent, same)
                ],
            rw p e,
          )
      go (err y e, u) p q = (λ b usable. cc (p, usable.is_stored), rw p (cc q))
      go (panic, u) p q = cc q

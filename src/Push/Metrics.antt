-- ===== src/Push/Metrics.antt =====
-- pkg/push/metrics_push_server.go: the size of each blob that is pushed and the duration of each
-- push are observed. Registering the metrics is left out; the sink knows the name that labels them.
use bb_remote_asset.Prelude.{String, ◌≡◌, refl, ◌∙◌, Option, none, some, List}
use bb_remote_asset.Prelude.Int.{ℤ}
use bb_remote_asset.Prelude.Effect.{Code, ok, Result, err, panic, convert, Exec}
use bb_remote_asset.Time.{Time, Clock}
use bb_remote_asset.Qualifier.{Qualifier}
use bb_remote_asset.Storage.Messages.{ProtoDigest}
use bb_remote_asset.Fetch.Metrics.{Metric, duration, blob_size, resource_type}
use bb_remote_asset.Push.{PushRequest, PushServer}

-- A wrapped server may sort the qualifiers of the request in place. The two functions tell what
-- a call leaves in the slice, which the label of the duration is read from.
module _ {W : Type 0} (push_server : PushServer W)
    (blob_qualifiers directory_qualifiers : PushRequest → W → List Qualifier) (clock : Clock W)
    (observe : Metric → W → W) where
  -- `updateDurationSeconds`
  unfoldable pub update_duration_seconds : String → Code → Time → List Qualifier → W → W
  unfolding resource_type
  update_duration_seconds operation code start qualifiers w =
      let (now, v) = clock.now w in
      observe (duration operation code (resource_type qualifiers) start now) v

  -- `updateBlobSizeBytes`
  unfoldable pub update_blob_size_bytes : ℤ → List Qualifier → W → W
  unfolding resource_type
  update_blob_size_bytes size qualifiers w = observe (blob_size (resource_type qualifiers) size) w

  -- The size is observed before the push, of a digest that is not nil.
  abbrev observe_size : Option ProtoDigest → List Qualifier → W → W
  observe_size none qualifiers w = w
  observe_size (some d) qualifiers w = update_blob_size_bytes d.size_bytes qualifiers w

  -- The rest of both methods after the call of the wrapped server.
  abbrev measured : {A : Type 0} → String → Time → List Qualifier → Result A × W → Result A × W
  measured operation start qualifiers (ok resp, w) =
      (ok resp, update_duration_seconds operation Code.ok start qualifiers w)
  measured operation start qualifiers (err o e, w) =
      (err o e, update_duration_seconds operation (convert e).code start qualifiers w)
  measured operation start qualifiers (panic, w) = (panic, w)

  -- `PushBlob`
  unfoldable pub push_blob : PushRequest → Exec W (Unit {0})
  unfolding update_duration_seconds update_blob_size_bytes
  push_blob req w =
      let (start, v) = clock.now (observe_size req.digest req.qualifiers w) in
      measured "PushBlob" start (blob_qualifiers req v) (push_server.push_blob req v)

  -- `PushDirectory`
  unfoldable pub push_directory : PushRequest → Exec W (Unit {0})
  unfolding update_duration_seconds
  push_directory req w =
      let (start, v) = clock.now w in
      measured "PushDirectory" start (directory_qualifiers req v) (push_server.push_directory req v)

  -- `NewMetricsAssetPushServer`
  unfoldable pub new_metrics_asset_push_server : PushServer W
  unfolding push_blob push_directory
  new_metrics_asset_push_server = record { push_blob = push_blob; push_directory = push_directory }

  module _ {V : Type 0} (view : W → V) (clock_keeps : (w : W) → view (clock.now w).1 ≡ view w)
      (observe_keeps : (m : Metric) (w : W) → view (observe m w) ≡ view w) where
    -- The call runs the other one in a world that looks like the world it is in, has its result,
    -- and leaves a world that looks like the one it leaves.
    abbrev pub IsTransparent : {A : Type 0} → Exec W A → Exec W A → W → Type 0
    IsTransparent m wrapped w =
        (v : W) × (view v ≡ view w)
        × ((m w).0 ≡ (wrapped v).0)
        × (view (m w).1 ≡ view (wrapped v).1)

    update_duration_seconds-keeps :
        (operation : String) (code : Code) (start : Time) (qs : List Qualifier) (w : W)
        → view (update_duration_seconds operation code start qs w) ≡ view w
    unfolding update_duration_seconds
    update_duration_seconds-keeps operation code start qs w =
        observe_keeps _ (clock.now w).1 ∙ clock_keeps w

    observe_size-keeps :
        (d : Option ProtoDigest) (qs : List Qualifier) (w : W) → view (observe_size d qs w) ≡ view w
    unfolding update_blob_size_bytes
    observe_size-keeps none qs w = refl
    observe_size-keeps (some d) qs w = observe_keeps _ w

    measured-keeps :
        {A : Type 0} (operation : String) (start : Time) (qs : List Qualifier) (p : Result A × W)
        → ((measured operation start qs p).0 ≡ p.0)
          × (view (measured operation start qs p).1 ≡ view p.1)
    measured-keeps operation start qs (ok r, w) =
        (refl, update_duration_seconds-keeps operation Code.ok start qs w)
    measured-keeps operation start qs (err o e, w) =
        (refl, update_duration_seconds-keeps operation (convert e).code start qs w)
    measured-keeps operation start qs (panic, w) = (refl, refl)

    -- What neither the clock nor the metrics change is, for blobs and directories alike, what the
    -- wrapped server makes of the same request: its result, an error or a panic too, is handed on
    -- as it is, whatever it leaves in the slice of qualifiers.
    pub new_metrics_asset_push_server-IsTransparent :
        (req : PushRequest) (w : W)
        → IsTransparent (new_metrics_asset_push_server.push_blob req) (push_server.push_blob req) w
          × IsTransparent
              (new_metrics_asset_push_server.push_directory req)
              (push_server.push_directory req)
              w
    unfolding new_metrics_asset_push_server
    new_metrics_asset_push_server-IsTransparent req w =
        let u = observe_size req.digest req.qualifiers w in
        let v = (clock.now u).1 in
        let x = (clock.now w).1 in
        let (same, seen) =
          measured-keeps "PushBlob" (clock.now u).0 (blob_qualifiers req v)
            (push_server.push_blob req v) in
        let (same', seen') =
          measured-keeps "PushDirectory" (clock.now w).0 (directory_qualifiers req x)
            (push_server.push_directory req x) in
        (
          (v, clock_keeps u ∙ observe_size-keeps req.digest req.qualifiers w, same, seen),
          (x, clock_keeps w, same', seen'),
        )

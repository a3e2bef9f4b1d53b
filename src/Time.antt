-- ===== src/Time.antt =====
-- Go's `time.Time` as far as the program reads it: the instant, in nanoseconds since the epoch,
-- and the location, which `==` on the struct compares too.
use bb_remote_asset.Prelude.{Bool, true, false, not, ◌&&◌}
use bb_remote_asset.Prelude.Int.{ℤ, pos, ltb_ℤ}

pub data Location : Type 0 where
  utc local : Location

pub record Time : Type 0 where
  pub instant : ℤ
  pub location : Location

-- time.Unix(0, 0)
abbrev pub unix_epoch : Time
unix_epoch = record { instant = pos 0; location = local }

-- t.Before(u)
abbrev pub before : Time → Time → Bool
before t u = ltb_ℤ t.instant u.instant

-- t.Equal(u)
abbrev pub same_instant : Time → Time → Bool
same_instant t u = not (before t u) && not (before u t)

abbrev same_location : Location → Location → Bool
same_location utc utc = true
same_location local local = true
same_location _ _ = false

-- t == u, on the structs
abbrev pub same_struct : Time → Time → Bool
same_struct t u = same_instant t u && same_location t.location u.location

-- The message google.protobuf.Timestamp.
pub record Timestamp : Type 0 where
  pub seconds : ℤ
  pub nanos : ℤ

-- What time.Now() reads. Reading may move the world on.
pub record Clock (W : Type 0) : Type 0 where
  pub now : W → Time × W

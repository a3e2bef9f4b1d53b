-- ===== src/Qualifier/Defs.antt =====
-- The message build.bazel.remote.asset.v1.Qualifier.
use bb_remote_asset.Prelude.{String}

pub record Qualifier : Type 0 where
  pub name : String
  pub value : String

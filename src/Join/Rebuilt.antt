-- ===== src/Join/Rebuilt.antt =====
-- The data that was cut, cut up, sent in any order and written back.
use scat.Prelude.{◌≡◌, Option, none, ◌++◌}
use scat.Chunk.{Chunk, Bytes}
use scat.Errors.{Error}
use scat.Series.{Series}
use scat.Sort
use scat.Split.Cuts.{Cuts}

-- A writer that does not fail: what it holds is followed by the bytes written.
pub record Appends {W : Type 0} (copy_to : Bytes → W → Option Error × W) (written : W → Bytes)
    : Type 0 where
  pub fine : (b : Bytes) (w : W) → (copy_to b w).0 ≡ none
  pub appended : (b : Bytes) (w : W) → written (copy_to b w).1 ≡ written w ++ b

-- ===== src/Join.antt =====
-- procs/join.go and procs/writerto.go: the proc that writes chunks out in the order of their
-- numbers.
--
-- The backlog of one slot that `NewJoin` makes lets one call of `Process` end before the next, so
-- a call is one step. `io.Copy` of some bytes to the writer is an argument.
pub mod Rebuilt
use scat.Prelude.{Option, none, some, List, [], ◌∷◌, ◌++◌}
use scat.Chunk.{Chunk, Bytes, payload, with_data, read}
use scat.Errors.{Error}
use scat.Procs.{Res, single_res}
use scat.Series.{Series}
use scat.Sort

module _ {W : Type 0} (copy_to : Bytes → W → Option Error × W) where
  -- `WriterTo.Process`; `none` is the panic of a second read of reader data. The reader's error
  -- counts where the writer has none.
  unfoldable pub write : Chunk → W → Option (List Res × W)
  write c w = elim (read (payload c)) [
    | none ↦ none
    | some (b, e, rest) ↦
        let (failure, w') = copy_to b w in
        some (single_res (with_data c rest) (elim failure [ none ↦ e | some f ↦ some f ]), w')
  ]

  -- The results of `Sort` through `WriterTo`, as the chain of `NewJoin` passes them on.
  unfoldable pub write_all : List Chunk → W → Option (List Res × W)
  unfolding write
  write_all [] w = some ([], w)
  write_all (c ∷ cs) w = elim (write c w) [
    | none ↦ none
    | some (rs, w') ↦ elim (write_all cs w') [ none ↦ none | some (ss, v) ↦ some (rs ++ ss, v) ]
  ]

  unfoldable pub process : Chunk → Series Chunk × W → Option (List Res × Series Chunk × W)
  unfolding Sort.process write_all
  process c (s, w) = elim (Sort.process s c) [
    | none ↦ none
    | some (t, out) ↦ elim (write_all out w) [ none ↦ none | some (rs, w') ↦ some (rs, t, w') ]
  ]

  -- A whole stream of chunks.
  unfoldable pub run : List Chunk → Series Chunk × W → Option (List Res × Series Chunk × W)
  unfolding process
  run [] (s, w) = some ([], s, w)
  run (c ∷ cs) s = elim (process c s) [
    | none ↦ none
    | some (rs, t, x) ↦ elim (run cs (t, x)) [
      | none ↦ none
      | some (ss, u, v) ↦ some (rs ++ ss, u, v)
    ]
  ]

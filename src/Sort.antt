-- ===== src/Sort.antt =====
-- procs/sort.go: the proc that forwards chunks in the order of their numbers.
pub mod Order
pub mod Streams
use scat.Prelude.{Option, none, some, List, [], ◌∷◌, ◌++◌, ltb, if◌then◌else◌, pos, length}
use scat.Series.{Series, add, drop_first, sorted, len}
use scat.Chunk.{Chunk, num}
use scat.Errors.{Error, short}

-- `Process`: the new series and the chunks sent. `none` is the panic of `Add`.
unfoldable pub process : Series Chunk → Chunk → Option (Series Chunk × List Chunk)
process s c = elim (add s (pos (num c)) c) [
  | none ↦ none
  | some t ↦ some (drop_first t (pos (length (sorted t))), sorted t)
]

unfoldable pub finish : Series Chunk → Option Error
finish s = if ltb 0 (len s) then some short else none

-- A whole stream of chunks through one `Sort`, with what it has sent.
unfoldable pub run : Series Chunk → List Chunk → Option (Series Chunk × List Chunk)
run s [] = some (s, [])
run s (c ∷ cs) = elim (process s c) [
  | none ↦ none
  | some (t, out) ↦ elim (run t cs) [ none ↦ none | some (u, rest) ↦ some (u, out ++ rest) ]
]

-- ===== src/Procs.antt =====
-- procs/procs.go: results of processing.
--
-- A channel of results is the list of what is sent on it until it is closed. A proc is its
-- `Process`, on a state of type W that stands for all that its effects reach.
pub mod Combine
pub mod Chain
pub mod Parity
pub mod Backlog
pub mod Concur
pub mod Commands
pub mod Gzip
use scat.Prelude.{Option, none, some, List, [], ◌∷◌}
use scat.Chunk.{Chunk}
use scat.Errors.{Error}

pub record Res : Type 0 where
  pub chunk : Option Chunk
  pub err : Option Error

abbrev pub sent : Chunk → Res
sent c = record { chunk = some c; err = none }

abbrev pub failed : Chunk → Error → Res
failed c e = record { chunk = some c; err = some e }

abbrev pub single_res : Chunk → Option Error → List Res
single_res c err = record { chunk = some c; err = err } ∷ []

abbrev pub Proc : Type 0 → Type 0
Proc W = Chunk → W → List Res × W

-- The first error among the results.
unfoldable pub first_err : List Res → Option Error
first_err [] = none
first_err (r ∷ rs) = elim r.err [ none ↦ first_err rs | some e ↦ some e ]

-- `Process`: the error of the results or that of `Finish`. The deferred second `Finish` runs either way,
-- and its error is dropped.
unfoldable pub process :
    {W : Type 0} → Proc W → (W → Option Error × W) → Chunk → W → Option Error × W
unfolding first_err
process p finish c w =
    let r = p c w in
    elim (first_err r.0) [
      | some e ↦ (some e, (finish r.1).1)
      | none ↦ let f = finish r.1 in (f.0, (finish f.1).1)
    ]

-- ===== src/Split.antt =====
-- split/splitter.go and procs/split.go: the proc that cuts a chunk's data.
--
-- Where to cut is the chunker's choice, which is an argument: its state, and one call of its `Next`
-- with the bytes up to the next cut, or the error, `none` for io.EOF. Chunk numbers are int, here
-- from 0 on.
pub mod Cuts
use scat.Prelude.{
  ℕ, zero, suc, ◌+◌, ◌*◌, ◌^◌, ◌⊎◌, inl, inr, Bool, true, false, Option, none, some, List, [], ◌∷◌,
  ltb, if◌then◌else◌, length,
}
use scat.Chunk.{Chunk, Bytes, bytes_data, new_chunk, set_target_size}
use scat.Errors.{Error}
use scat.Procs.{Res, failed}

-- `minMin`
abbrev pub min_min : ℕ
min_min = 512 * 1024

-- The int after the largest one, which wraps around to a negative number.
abbrev pub int_end : ℕ
int_end = 2 ^ 63

pub record Splitter (C : Type 0) : Type 0 where
  pub chunker : C
  pub num : ℕ
  pub chunk : Option Chunk
  pub err : Option Error

-- `NewSplitterSize`, given the chunker for these bounds; `none` is the panic.
unfoldable pub new_splitter : {C : Type 0} → (ℕ → ℕ → C) → ℕ → ℕ → ℕ → Option (Splitter C)
new_splitter make n least most =
    if ltb least min_min
    then none
    else some (record { chunker = make least most; num = n; chunk = none; err = none })

-- What the loop of `ChunkIterFunc` sends for a splitter.
pub data Split : Type 0 where
  sends : List Res → Split
  overflow no_fuel : Split

abbrev pub send_first : Res → Split → Split
send_first r (sends rs) = sends (r ∷ rs)
send_first r overflow = overflow
send_first r no_fuel = no_fuel

-- What it sends after the chunks: the error, if any, with the chunk that was cut.
abbrev pub ending : Chunk → Option Error → List Res
ending c none = []
ending c (some e) = failed c e ∷ []

-- What `Next` makes of a cut: the new splitter, and whether there is a chunk; `none` is the panic
-- "overflow".
abbrev pub after_cut :
    {C : Type 0} → Splitter C → (Bytes ⊎ Option Error) × C → Option (Splitter C × Bool)
after_cut s (inr e, ch) = some (record s { chunker = ch; err = e }, false)
after_cut s (inl b, ch) =
    if ltb (s.num + 1) int_end
    then some (
      record {
        chunker = ch;
        num = s.num + 1;
        chunk = some (set_target_size (new_chunk s.num (some (bytes_data b))) (length b));
        err = s.err;
      },
      true,
    )
    else none

module _ {C : Type 0} (next_cut : C → (Bytes ⊎ Option Error) × C) where
  unfoldable pub next : Splitter C → Option (Splitter C × Bool)
  next s = after_cut s (next_cut s.chunker)

  unfoldable pub iterate : ℕ → Chunk → Splitter C → Split
  unfolding next
  iterate zero c s = no_fuel
  iterate (suc fuel) c s = elim (next s) [
    | none ↦ overflow
    | some (t, false) ↦ sends (ending c t.err)
    | some (t, true) ↦ send_first (record { chunk = t.chunk; err = none }) (iterate fuel c t)
  ]

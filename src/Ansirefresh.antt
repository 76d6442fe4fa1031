-- ===== src/Ansirefresh.antt =====
-- ansirefresh/ansirefresh.go: the writer that writes over what it wrote before.
--
-- The writer underneath is an argument: one call of its `Write`, with an error or not. Text is a
-- list of bytes.
pub mod Rows
pub mod Ticker
use scat.Prelude.{
  ℕ, zero, suc, ◌+◌, Bool, true, false, Option, none, some, [], ◌∷◌, ◌==◌, if◌then◌else◌,
}
use scat.Chunk.{Bytes}
use scat.Errors.{Error}

-- What is written: `clear`, `moveUpClear`, or the caller's bytes.
pub data Piece : Type 0 where
  clear_line move_up_clear : Piece
  text : Bytes → Piece

pub record Writer : Type 0 where
  pub nlines : ℕ
  pub flushed : Bool

abbrev pub new_writer : Writer
new_writer = record { nlines = 0; flushed = false }

-- `bytes.Count(b, lf)`
unfoldable pub count_lines : Bytes → ℕ
count_lines [] = 0
count_lines (c ∷ cs) = (if c == b'\n' then 1 else 0) + count_lines cs

unfoldable pub flush : Writer → Writer
flush w = record w { flushed = true }

module _ {O : Type 0} (put : Piece → O → Option Error × O) where
  -- The loop of `clear`.
  unfoldable pub clear_up : ℕ → O → Option Error × O
  clear_up zero o = (none, o)
  clear_up (suc n) o =
      let (e, p) = put move_up_clear o in elim e [ some x ↦ (some x, p) | none ↦ clear_up n p ]

  unfoldable pub clear : Writer → O → Option Error × O
  unfolding clear_up
  clear w o =
      let (e, p) = put clear_line o in elim e [ some x ↦ (some x, p) | none ↦ clear_up w.nlines p ]

  -- The end of `Write`.
  abbrev pub write_on : Writer → Bytes → O → Option Error × Writer × O
  write_on w b o =
      let (e, p) = put (text b) o in (e, record w { nlines = w.nlines + count_lines b }, p)

  unfoldable pub write : Writer → Bytes → O → Option Error × Writer × O
  unfolding clear count_lines
  write w b o =
      if w.flushed
      then (let (e, p) = clear w o in
          elim e [
            | some x ↦ (some x, w, p)
            | none ↦ write_on (record { nlines = 0; flushed = false }) b p
          ])
      else write_on w b o

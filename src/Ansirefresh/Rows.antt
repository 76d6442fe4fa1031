-- ===== src/Ansirefresh/Rows.antt =====
-- Where the cursor is when ansirefresh/ansirefresh.go writes.
use scat.Prelude.{
  ℕ, zero, suc, ◌+◌, ◌-◌, ◌≡◌, refl, subst, inl, inr, Bool, true, false, Option, none, List, [],
  ◌∷◌, ◌++◌, arith, if◌then◌else◌, Bool-cases,
}
use scat.Chunk.{Bytes}
use scat.Errors.{Error}
use scat.Ansirefresh.{
  Piece, clear_line, move_up_clear, text, Writer, new_writer, count_lines, flush, clear_up, clear,
  write,
}

-- A terminal that does not fail and has room above: its row goes down by the lines of a text and
-- one up for `moveUpClear`; each line's text is erased where the cursor stands.
pub record Terminal {O : Type 0} (put : Piece → O → Option Error × O) (row : O → ℕ) : Type 0 where
  pub fine : (p : Piece) (o : O) → (put p o).0 ≡ none
  pub stays : (o : O) → row (put clear_line o).1 ≡ row o
  pub up : (o : O) → row (put move_up_clear o).1 ≡ row o - 1
  pub down : (b : Bytes) (o : O) → row (put (text b) o).1 ≡ row o + count_lines b

-- A call of the writer.
pub data Call : Type 0 where
  write_call : Bytes → Call
  flush_call : Call

-- The text of the last frame: what was written from the first `Write` after a `Flush` on.
abbrev pub frame_from : Bytes → Bool → List Call → Bytes
frame_from shown flushed [] = shown
frame_from shown flushed (flush_call ∷ cs) = frame_from shown true cs
frame_from shown flushed (write_call b ∷ cs) =
    frame_from (if flushed then b else shown ++ b) false cs

count_lines-append : (b c : Bytes) → count_lines (b ++ c) ≡ count_lines b + count_lines c
unfolding count_lines
count_lines-append [] c = omega arith
count_lines-append (x ∷ b) c = omega (arith, count_lines-append b c)

module _ {O : Type 0} (put : Piece → O → Option Error × O) where
  abbrev pub step : Call → Writer × O → Writer × O
  step (write_call b) (w, o) = let (e, v, p) = write put w b o in (v, p)
  step flush_call (w, o) = (flush w, o)

  abbrev pub steps : List Call → Writer × O → Writer × O
  steps [] s = s
  steps (c ∷ cs) s = steps cs (step c s)

module _ {O : Type 0} (put : Piece → O → Option Error × O) (row : O → ℕ)
    (terminal : Terminal put row) where
  clear_up-row :
      (n : ℕ) (o : O) → ((clear_up put n o).0 ≡ none) × (row (clear_up put n o).1 ≡ row o - n)
  unfolding clear_up
  clear_up-row zero o = (refl, omega arith)
  clear_up-row (suc n) o =
      let ih = clear_up-row n (put move_up_clear o).1 in
      rw (terminal.fine move_up_clear o, clear_up) (ih.0, omega (arith, ih.1, terminal.up o))

  clear-row :
      (w : Writer) (o : O) → ((clear put w o).0 ≡ none) × (row (clear put w o).1 ≡ row o - w.nlines)
  unfolding clear
  clear-row w o =
      let r = clear_up-row w.nlines (put clear_line o).1 in
      rw (terminal.fine clear_line o, clear) (r.0, omega (arith, r.1, terminal.stays o))

  -- One `Write`: its lines come after those that are there, or over them after a `Flush`.
  write-row :
      (w : Writer) (b : Bytes) (o : O)
      → ((write put w b o).1.nlines ≡ (if w.flushed then 0 else w.nlines) + count_lines b)
        × (row (write put w b o).2
            ≡ (if w.flushed then row o - w.nlines else row o) + count_lines b)
        × ((write put w b o).1.flushed ≡ false)
  unfolding write
  write-row w b o = elim (Bool-cases w.flushed) [
    | inr unflushed ↦ rw (unflushed, write) (refl, terminal.down b o, refl)
    | inl flushed ↦
        let (fine, back) = clear-row w o in
        rw (flushed, fine, write)
          (omega arith, omega (arith, back, terminal.down b (clear put w o).1), refl)
  ]

  steps-row_from :
      (cs : List Call) (w : Writer) (o : O) (top : ℕ) (shown : Bytes)
      → w.nlines ≡ count_lines shown
      → row o ≡ top + count_lines shown
      → row (steps put cs (w, o)).1 ≡ top + count_lines (frame_from shown w.flushed cs)
  unfolding flush
  steps-row_from [] w o top shown lines at = at
  steps-row_from (flush_call ∷ cs) w o top shown lines at =
      steps-row_from cs (flush w) o top shown lines at
  steps-row_from (write_call b ∷ cs) w o top shown lines at =
      let (e, v, p) = write put w b o in
      let (n, r, unflushed) = write-row w b o in
      let next = if w.flushed then b else shown ++ b in
      let shown_lines : v.nlines ≡ count_lines next =
        ground (arith, n, lines, count_lines-append shown b) in
      let below : row p ≡ top + count_lines next =
        ground (arith, r, at, lines, count_lines-append shown b) in
      subst (λ f. row (steps put cs (v, p)).1 ≡ top + count_lines (frame_from next f cs)) unflushed
        (steps-row_from cs v p top next shown_lines below)

  -- However often it is written and flushed, on a terminal that does not fail: what was written
  -- from the last `Flush` on starts at the row where the first text started, so each frame covers
  -- the one before it.
  pub steps-row :
      (cs : List Call) (o : O)
      → row (steps put cs (new_writer, o)).1 ≡ row o + count_lines (frame_from [] false cs)
  unfolding count_lines
  steps-row cs o = steps-row_from cs new_writer o (row o) [] refl (omega arith)

-- ===== src/Tests/Counted.antt =====
-- slidecnt/, stats/, ansirefresh/ and tmpdedup/: the theorems on a few calls.
use scat.Prelude.{ℕ, ◌+◌, ◌-◌, ◌*◌, ◌/◌, ◌≡◌, refl, true, false, Option, none, List, [], ◌∷◌, arith}
use scat.Ansirefresh.Ticker.{
  Ticker, at_select, last, gone, called, stop_asked, stop_returned, new_ticker, call_first,
  see_stop, call_last, stop, return, Steps, no_step, then_step, Returned, Steps-Returned,
}
use scat.Errors.{Error}
use scat.Slidecnt.{Tick, avg_rate}
use scat.Slidecnt.Window.{count_all, within, rate_of, avg_rate-within}
use scat.Ansirefresh.{Piece, clear_line, move_up_clear, text, new_writer, count_lines}
use scat.Ansirefresh.Rows.{Terminal, Call, write_call, flush_call, steps, frame_from, steps-row}

abbrev ticks : List Tick
ticks =
    record { time = 0; num = 9 } ∷ record { time = 6; num = 4 } ∷ record { time = 8; num = 2 } ∷ []

abbrev per_unit : ℕ → ℕ → ℕ → ℕ
per_unit sum elapsed unit = sum * unit / elapsed

avg_rate-within_example :
    (avg_rate per_unit 9 1 (count_all ticks (record { window = 4; ticks = [] }))).0
    ≡ rate_of per_unit 9 1 (within 4 9 ticks)
avg_rate-within_example =
    avg_rate-within per_unit ticks 9 1 4 (omega arith) (omega arith, (omega arith, tt))
      (omega arith, (omega arith, (omega arith, tt)))

-- A terminal is the row of its cursor.
abbrev put : Piece → ℕ → Option Error × ℕ
put clear_line o = (none, o)
put move_up_clear o = (none, o - 1)
put (text b) o = (none, o + count_lines b)

put-fine : (p : Piece) (o : ℕ) → (put p o).0 ≡ none
put-fine clear_line o = refl
put-fine move_up_clear o = refl
put-fine (text b) o = refl

abbrev row : ℕ → ℕ
row o = o

put-Terminal : Terminal put row
put-Terminal = record { fine = put-fine; stays = λ o. refl; up = λ o. refl; down = λ b o. refl }

abbrev calls : List Call
calls = write_call (65 ∷ b'\n' ∷ []) ∷ flush_call ∷ write_call (b'\n' ∷ b'\n' ∷ []) ∷ []

steps-row_example :
    row (steps put calls (new_writer, 5)).1 ≡ row 5 + count_lines (frame_from [] false calls)
steps-row_example = steps-row put row put-Terminal calls 5

-- A call, a stop, and the last call before `Stop` returns.
abbrev drawn : Ticker
drawn = record {
  phase = gone;
  stopping = true;
  log = stop_returned ∷ called ∷ stop_asked ∷ called ∷ [];
}

abbrev at_last : Ticker
at_last = record { phase = last; stopping = true; log = stop_asked ∷ called ∷ [] }

abbrev waiting : Ticker
waiting = record { phase = at_select; stopping = false; log = called ∷ [] }

draws : Steps new_ticker drawn
draws =
    let asked : Ticker = record waiting { stopping = true; log = stop_asked ∷ called ∷ [] } in
    let over : Ticker = record at_last { phase = gone; log = called ∷ stop_asked ∷ called ∷ [] } in
    then_step new_ticker over drawn
      (then_step new_ticker at_last over
        (then_step new_ticker asked at_last
          (then_step new_ticker waiting asked
            (then_step new_ticker new_ticker waiting (no_step new_ticker)
              (call_first new_ticker refl))
            (stop waiting))
          (see_stop asked refl refl))
        (call_last at_last refl))
      (return over refl refl)

Steps-Returned_example : Returned (stop_returned ∷ called ∷ stop_asked ∷ called ∷ [])
Steps-Returned_example = Steps-Returned draws

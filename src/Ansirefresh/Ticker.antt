-- ===== src/Ansirefresh/Ticker.antt =====
-- ansirefresh/ticker.go: a function that is called at intervals until it is stopped.
--
-- The ticker's goroutine and the callers of `Stop` take turns as steps. Which case `select` takes
-- when both may go on is open.
use scat.Ansirefresh.{Error, Writer, flush}
use scat.Prelude.{
  ◌≡◌, refl, Bool, true, false, Option, none, some, List, [], ◌∷◌, arith, if◌then◌else◌,
}

-- Where the goroutine is: before its first call, at `select`, at the last call, or gone.
pub data Phase : Type 0 where
  first at_select last gone : Phase

pub data Event : Type 0 where
  called stop_asked stop_returned : Event

-- The channel `stop` may be closed; what has happened, the last first.
pub record Ticker : Type 0 where
  pub phase : Phase
  pub stopping : Bool
  pub log : List Event

abbrev pub new_ticker : Ticker
new_ticker = record { phase = first; stopping = false; log = [] }

abbrev note : Event → Ticker → Ticker
note e t = record t { log = e ∷ t.log }

pub data Step : Ticker → Ticker → Type 0 where
  call_first :
      (t : Ticker) → t.phase ≡ first → Step t (record t { phase = at_select; log = called ∷ t.log })
  tick : (t : Ticker) → t.phase ≡ at_select → Step t (record t { log = called ∷ t.log })
  see_stop :
      (t : Ticker) → t.phase ≡ at_select → t.stopping ≡ true → Step t (record t { phase = last })
  call_last :
      (t : Ticker) → t.phase ≡ last → Step t (record t { phase = gone; log = called ∷ t.log })
  -- `Stop` closes the channel once, and returns when the goroutine is gone.
  stop : (t : Ticker) → Step t (record t { stopping = true; log = stop_asked ∷ t.log })
  return :
      (t : Ticker)
      → t.phase ≡ gone
      → t.stopping ≡ true
      → Step t (record t { log = stop_returned ∷ t.log })

pub data Steps : Ticker → Ticker → Type 0 where
  no_step : (t : Ticker) → Steps t t
  then_step : (s t u : Ticker) → Steps s t → Step t u → Steps s u

-- Behind the first stop, the function has been called.
abbrev asked : List Event → Bool
asked [] = false
asked (stop_asked ∷ es) = true
asked (called ∷ es) = asked es
asked (stop_returned ∷ es) = asked es

-- The function was called after it was asked to stop for the first time.
abbrev pub drawn_after : List Event → Bool
drawn_after [] = false
drawn_after (called ∷ es) = if asked es then true else drawn_after es
drawn_after (stop_asked ∷ es) = drawn_after es
drawn_after (stop_returned ∷ es) = drawn_after es

-- `Stop` has returned only with such a call before it.
abbrev pub Returned : List Event → Type 0
Returned [] = Unit
Returned (stop_returned ∷ es) = (drawn_after es ≡ true) × Returned es
Returned (stop_asked ∷ es) = Returned es
Returned (called ∷ es) = Returned es

record Inv (t : Ticker) : Type 0 where
  asked_if : t.stopping ≡ asked t.log
  last_if : t.phase ≡ last → t.stopping ≡ true
  gone_if : t.phase ≡ gone → drawn_after t.log ≡ true
  returned : Returned t.log

Step-Inv : {t u : Ticker} → Step t u → Inv t → Inv u
Step-Inv (call_first t e) i = ground (arith, i.asked_if, i.returned)
Step-Inv (tick t e) i = ground (arith, i.asked_if, i.returned)
Step-Inv (see_stop t e f) i = ground (arith, i.asked_if, i.returned)
Step-Inv (call_last t e) i = ground (arith, i.asked_if, i.last_if, i.returned)
Step-Inv (stop t) i = ground (arith, i.asked_if, i.returned)
Step-Inv (return t e f) i = ground (arith, i.asked_if, i.gone_if, i.returned)

Steps-Inv : {s t : Ticker} → Steps s t → Inv s → Inv t
Steps-Inv (no_step t) i = i
Steps-Inv (then_step s t u ss st) i = Step-Inv st (Steps-Inv ss i)

new_ticker-Inv : Inv new_ticker
new_ticker-Inv = record {
  asked_if = refl;
  last_if = λ e. absurd (ground arith);
  gone_if = λ e. absurd (ground arith);
  returned = tt;
}

-- Whenever `Stop` has returned, the function had been called once more after the first `Stop` asked
-- for the end: the display was drawn a last time.
pub Steps-Returned : {t : Ticker} → Steps new_ticker t → Returned t.log
Steps-Returned ss = (Steps-Inv ss new_ticker-Inv).returned

-- `writeFlush`, with the `WriteTo` of what is drawn.
unfoldable pub write_flush :
    {S : Type 0}
    → (Writer × S → Option Error × (Writer × S))
    → Writer × S
    → Option Error × (Writer × S)
unfolding flush
write_flush write_to s =
    let r = write_to s in elim r.0 [ some e ↦ r | none ↦ (none, (flush r.1.0, r.1.1)) ]

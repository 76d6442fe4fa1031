-- ===== src/Sort/Order.antt =====
-- What `Sort` sends, against the stream that it was given.
use scat.Prelude.{
  ℕ, zero, suc, ◌-◌, ◌≤◌, ◌<◌, ◌≡◌, refl, ◌≢◌, inl, inr, Option, none, some, List, [], ◌∷◌, ◌++◌,
  append-nil, append_assoc, arith, ltb, ◌==◌, if◌then◌else◌, Option-cases, pos, length, get_elem?,
  length-append, get_elem?-append,
}
use scat.Series.{len, empty_series, sorted, drop_first, Series, add}
use scat.Series.Cells.{value_at-add, drop_first-sorted, cell, Rolls}
use scat.Chunk.{Chunk, num}
use scat.Sort.{finish, process, run}

-- The last chunk of the stream with this number.
abbrev pub received : List Chunk → ℕ → Option Chunk
received [] j = none
received (c ∷ cs) j = elim (received cs j) [
  | some d ↦ some d
  | none ↦ if num c == j then some c else none
]

-- The chunks sent so far, then those held back, by number.
abbrev log : List Chunk → Series Chunk → ℕ → Option Chunk
log sent s j = if ltb j s.start then get_elem? sent j else cell s.values (j - s.start)

pub record Inv (sent : List Chunk) (s : Series Chunk) : Type 0 where
  pub counted : s.start ≡ length sent
  pub stops : cell s.values 0 ≡ none

add_start : (s t : Series Chunk) (i : ℕ) (c : Chunk) → add s (pos i) c ≡ some t → t.start ≡ s.start
unfolding add
add_start s t i c e = ground arith

add_above : (s t : Series Chunk) (i : ℕ) (c : Chunk) → add s (pos i) c ≡ some t → s.start ≤ i
unfolding add
add_above s t i c e = ground arith

log-Rolls :
    (sent : List Chunk) (t u : Series Chunk) (out : List Chunk) (j : ℕ)
    → t.start ≡ length sent
    → Rolls t u out
    → log (sent ++ out) u j ≡ log sent t j
log-Rolls sent t u out j h r = ground (
  arith,
  get_elem?-append sent out j,
  r.moved,
  r.given (j - t.start),
  r.kept (j - u.start),
  length-append sent out,
)

-- One `Process`: the log changes at the chunk's number only, and the invariant is kept.
process-log :
    (sent : List Chunk) (s u : Series Chunk) (c : Chunk) (out : List Chunk)
    → Inv sent s
    → process s c ≡ some (u, out)
    → Inv (sent ++ out) u
      × ((j : ℕ) → log (sent ++ out) u j ≡ (if num c == j then some c else log sent s j))
unfolding process
process-log sent s u c out v e = elim (Option-cases (add s (pos (num c)) c)) [
  | inl panics ↦ absurd (ground arith)
  | inr (t, added) ↦
      let started = add_start s t (num c) c added in
      let sends : (u ≡ drop_first t (pos (length (sorted t)))) × (out ≡ sorted t) =
        (ground arith, ground arith) in
      let rolls : Rolls t u out = rw (sends.0, sends.1) (drop_first-sorted t) in
      (
        record {
          counted = ground (arith, rolls.moved, length-append sent out);
          stops = rolls.stops;
        },
        λ j. ground (
          arith,
          log-Rolls sent t u out j,
          add_above s t (num c) c added,
          value_at-add s t (num c) c j added,
        ),
      )
]

pub run-log :
    (cs sent : List Chunk) (s u : Series Chunk) (out : List Chunk)
    → Inv sent s
    → run s cs ≡ some (u, out)
    → Inv (sent ++ out) u
      × ((j : ℕ)
          → log (sent ++ out) u j ≡ elim (received cs j) [ some d ↦ some d | none ↦ log sent s j ])
unfolding run
run-log [] sent s u out v e =
    let same : (u ≡ s) × (out ≡ []) = (ground arith, ground arith) in
    rw (same.0, same.1, append-nil) (v, λ j. refl)
run-log (c ∷ cs) sent s u out v e = elim (Option-cases (process s c)) [
  | inl panics ↦ absurd (ground arith)
  | inr ((t, first), stepped) ↦ elim (Option-cases (run t cs)) [
    | inl panics ↦ absurd (ground arith)
    | inr ((w, rest), ran) ↦
        let parts : (u ≡ w) × (out ≡ first ++ rest) = (ground arith, ground arith) in
        let (v', here) = process-log sent s t c first v stepped in
        let (v'', later) = run-log cs (sent ++ first) t w rest v' ran in
        rw (parts.0, parts.1, ← append_assoc) (v'', λ j. ground (arith, here j, later j))
  ]
]

-- What `Sort` has sent after a stream of chunks: at each position the last chunk of the stream
-- with that number, from number 0 on with no gap; and the first number that was not sent is one
-- that no chunk of the stream has.
pub run-received :
    (cs : List Chunk) {s : Series Chunk} {out : List Chunk}
    → run empty_series cs ≡ some (s, out)
    → ((j : ℕ) → j < length out → get_elem? out j ≡ received cs j)
      × (received cs (length out) ≡ none)
run-received cs {s} {out} e =
    let start : Inv [] empty_series = record { counted = refl; stops = refl } in
    let (v, logged) = run-log cs [] empty_series s out start e in
    (
      λ j h. ground (arith, logged j, v.counted),
      ground (arith, logged (length out), v.counted, v.stops),
    )

-- When `Finish` reports no error, every chunk of the stream was sent (the last one with its
-- number, where numbers repeat).
pub finish_complete :
    (cs : List Chunk) {s : Series Chunk} {out : List Chunk} (j : ℕ) {d : Chunk}
    → run empty_series cs ≡ some (s, out)
    → finish s ≡ none
    → received cs j ≡ some d
    → get_elem? out j ≡ some d
unfolding finish len
finish_complete cs {s} {out} j e done r =
    let start : Inv [] empty_series = record { counted = refl; stops = refl } in
    let (v, logged) = run-log cs [] empty_series s out start e in
    let held : s.values ≡ [] = ground arith in ground (arith, logged j, v.counted, held)

-- No two chunks of the stream have one number.
abbrev pub Distinct : List Chunk → Type 0
Distinct [] = Unit
Distinct (c ∷ cs) = (received cs (num c) ≡ none) × Distinct cs

get_elem?-lt {ℓ} : {A : Type ℓ} (xs : List A) (j : ℕ) → j < length xs → get_elem? xs j ≢ none
get_elem?-lt [] j h = elim h [ ]
get_elem?-lt (x ∷ xs) zero h = λ e. cc
get_elem?-lt (x ∷ xs) (suc j) h = get_elem?-lt xs j (omega arith)

process-total :
    (sent : List Chunk) (s : Series Chunk) (c : Chunk)
    → Inv sent s
    → log sent s (num c) ≡ none
    → process s c ≢ none
unfolding process add
process-total sent s c v fresh = ground (arith, v.counted, get_elem?-lt sent (num c))

run-total_from :
    (cs sent : List Chunk) (s : Series Chunk)
    → Inv sent s
    → Distinct cs
    → ((j : ℕ) (d : Chunk) → received cs j ≡ some d → log sent s j ≡ none)
    → run s cs ≢ none
unfolding run
run-total_from [] sent s v distinct unsent = λ e. cc
run-total_from (c ∷ cs) sent s v distinct unsent = elim (Option-cases (process s c)) [
  | inl panics ↦
      absurd (process-total sent s c v (unsent (num c) c (ground (arith, distinct.0))) panics)
  | inr ((t, first), stepped) ↦
      let (v', here) = process-log sent s t c first v stepped in
      let rest : run t cs ≢ none =
        run-total_from cs (sent ++ first) t v' distinct.1
          (λ j d r. ground (arith, here j, distinct.0, unsent j d)) in
      λ e. ground (arith, rest)
]

-- Chunks with distinct numbers, in any order, never make `Sort` panic.
pub run-total : (cs : List Chunk) → Distinct cs → run empty_series cs ≢ none
run-total cs distinct =
    let start : Inv [] empty_series = record { counted = refl; stops = refl } in
    run-total_from cs [] empty_series start distinct (λ j d r. ground arith)

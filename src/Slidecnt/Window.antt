-- ===== src/Slidecnt/Window.antt =====
-- Which ticks a counter keeps.
use scat.Prelude.{
  ℕ, ◌+◌, ◌-◌, ◌%◌, ◌≤◌, ◌<◌, ◌≡◌, refl, sym, ap, ◌∙◌, subst, inl, inr, false, List, [], ◌∷◌, ◌++◌,
  append-nil, append_assoc, arith, leb, ◌==◌, if◌then◌else◌, Bool-cases, All,
}
use scat.Slidecnt.{Tick, Counter, prune, prune_from, add, sum_from, rate_ticks, avg_rate}
use scat.Stores.Quota.{word}

-- What was counted, newest last, each at its time.
abbrev pub count_all : List Tick → Counter → Counter
count_all [] c = c
count_all (t ∷ ts) c = count_all ts (add t.time t.num c)

-- The times do not go back.
abbrev pub InOrder : List Tick → Type 0
InOrder [] = Unit
InOrder (t ∷ []) = Unit
InOrder (t ∷ u ∷ ts) = (t.time ≤ u.time) × InOrder (u ∷ ts)

-- The ticks within the window before `now`.
abbrev pub within : ℕ → ℕ → List Tick → List Tick
within window now [] = []
within window now (t ∷ ts) =
    let rest = within window now ts in if leb now (t.time + window) then t ∷ rest else rest

within-all :
    (window now : ℕ) (t : Tick) (ts : List Tick)
    → InOrder (t ∷ ts)
    → now ≤ t.time + window
    → within window now (t ∷ ts) ≡ t ∷ ts
within-all window now t [] h recent = ground arith
within-all window now t (u ∷ ts) h recent =
    ground (arith, h.0, within-all window now u ts h.1 (omega arith))

prune_from-within :
    (window now : ℕ) (ts : List Tick) → InOrder ts → prune_from window now ts ≡ within window now ts
unfolding prune_from
prune_from-within window now [] h = refl
prune_from-within window now (t ∷ []) h = ground arith
prune_from-within window now (t ∷ u ∷ ts) h =
    ground (arith, prune_from-within window now (u ∷ ts) h.1, within-all window now t (u ∷ ts) h)

within-append :
    (window now : ℕ) (ts us : List Tick)
    → within window now (ts ++ us) ≡ within window now ts ++ within window now us
within-append window now [] us = refl
within-append window now (t ∷ ts) us = ground (arith, within-append window now ts us)

-- A tick that an earlier call dropped is not within the window later.
within-prune_from :
    (window old now : ℕ) (ts : List Tick)
    → old ≤ now
    → within window now (prune_from window old ts) ≡ within window now ts
unfolding prune_from
within-prune_from window old now [] h = refl
within-prune_from window old now (t ∷ ts) h = ground (arith, within-prune_from window old now ts h)

prune_from-InOrder :
    (window now : ℕ) (ts us : List Tick)
    → InOrder (ts ++ us)
    → InOrder (prune_from window now ts ++ us)
unfolding prune_from
prune_from-InOrder window now [] us h = h
prune_from-InOrder window now (t ∷ ts) us h = elim (Bool-cases (leb now (t.time + window))) [
  | inl recent ↦ rw recent h
  | inr old ↦ rw old (prune_from-InOrder window now ts us (later t (ts ++ us) h))
]
  where
    later : (t : Tick) (ts : List Tick) → InOrder (t ∷ ts) → InOrder ts
    later t [] h = tt
    later t (u ∷ ts) h = h.1

count_all-kept :
    (ts : List Tick) (now : ℕ) (c : Counter)
    → InOrder (c.ticks ++ ts)
    → All (λ t. t.time ≤ now) ts
    → InOrder (count_all ts c).ticks
      × (within c.window now (count_all ts c).ticks ≡ within c.window now (c.ticks ++ ts))
      × ((count_all ts c).window ≡ c.window)
unfolding add prune
count_all-kept [] now c h past = (
  subst InOrder (append-nil c.ticks) h,
  ap (within c.window now) (sym (append-nil c.ticks)),
  refl,
)
count_all-kept (t ∷ ts) now c h past =
    let kept = prune_from c.window t.time c.ticks in
    let one = t ∷ [] in
    let order : InOrder ((kept ++ one) ++ ts) =
      subst InOrder (sym (append_assoc kept one ts))
        (prune_from-InOrder c.window t.time c.ticks (t ∷ ts) h) in
    let (o, same, fixed) = count_all-kept ts now (add t.time t.num c) order past.1 in
    (
      o,
      same
          ∙ ap (within c.window now) (append_assoc kept one ts)
          ∙ within-append c.window now kept (t ∷ ts)
          ∙ ap (λ k. k ++ within c.window now (t ∷ ts))
              (within-prune_from c.window t.time now c.ticks past.0)
          ∙ sym (within-append c.window now c.ticks (t ∷ ts)),
      fixed,
    )

abbrev pub total : List Tick → ℕ
total [] = 0
total (t ∷ ts) = t.num + total ts

sum_from-total : (s : ℕ) (ts : List Tick) → sum_from (s % word) ts ≡ (s + total ts) % word
unfolding sum_from
sum_from-total s [] = omega arith
sum_from-total s (t ∷ ts) =
    let next : (s % word + t.num) % word ≡ (s + t.num) % word = omega arith in
    ap (λ a. sum_from a ts) next ∙ sum_from-total (s + t.num) ts ∙ omega arith

-- The rate of these ticks at `now`: their sum, on uint64, by the time since the first of them.
abbrev pub rate_of : (ℕ → ℕ → ℕ → ℕ) → ℕ → ℕ → List Tick → ℕ
rate_of quotient now unit [] = 0
rate_of quotient now unit (t ∷ ts) =
    if now - t.time == 0 then 0 else quotient (total (t ∷ ts) % word) (now - t.time) unit

rate_ticks-of :
    (quotient : ℕ → ℕ → ℕ → ℕ) (now unit : ℕ) (ts : List Tick)
    → rate_ticks quotient now unit ts ≡ rate_of quotient now unit ts
rate_ticks-of quotient now unit [] = refl
rate_ticks-of quotient now unit (t ∷ ts) =
    let sum : sum_from 0 (t ∷ ts) ≡ total (t ∷ ts) % word =
      sum_from-total 0 (t ∷ ts) ∙ omega arith in
    rw sum refl

avg_rate-pruned :
    (quotient : ℕ → ℕ → ℕ → ℕ) (now unit : ℕ) (c : Counter)
    → 0 < unit
    → (avg_rate quotient now unit c).0
      ≡ rate_ticks quotient now unit (prune_from c.window now c.ticks)
unfolding avg_rate prune
avg_rate-pruned quotient now unit c units =
    let some_unit : (unit == 0) ≡ false = ground arith in rw some_unit refl

-- Whatever was counted, at times that do not go back: the rate at a later time is that of all that
-- was counted within the window before it.
pub avg_rate-within :
    (quotient : ℕ → ℕ → ℕ → ℕ) (ts : List Tick) (now unit window : ℕ)
    → 0 < unit
    → InOrder ts
    → All (λ t. t.time ≤ now) ts
    → (avg_rate quotient now unit (count_all ts (record { window = window; ticks = [] }))).0
      ≡ rate_of quotient now unit (within window now ts)
avg_rate-within quotient ts now unit window units h past =
    let c : Counter = record { window = window; ticks = [] } in
    let d = count_all ts c in
    let (o, same, fixed) = count_all-kept ts now c h past in
    let left : prune_from d.window now d.ticks ≡ within window now ts =
      ap (λ w. prune_from w now d.ticks) fixed ∙ prune_from-within window now d.ticks o ∙ same in
    avg_rate-pruned quotient now unit d units
    ∙ ap (rate_ticks quotient now unit) left
    ∙ rate_ticks-of quotient now unit (within window now ts)

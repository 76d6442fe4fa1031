-- ===== src/Procs/Backlog.antt =====
-- slots/slots.go and procs/backlog.go: a proc that has at most so many chunks in the works.
--
-- A channel of slots is its number of values and its capacity; `none` is an operation that blocks.
use scat.Prelude.{
  ℕ, zero, suc, ◌+◌, ◌-◌, ◌≤◌, ◌<◌, ◌≡◌, refl, ap, ◌≢◌, ◌↔◌, inl, inr, Option, none, some, arith,
  ltb, if◌then◌else◌, Bool-cases,
}
use scat.Errors.{Error, unreturned_slots}

pub record Slots : Type 0 where
  pub free : ℕ
  pub cap : ℕ

unfoldable pub new_slots : ℕ → Slots
new_slots n = record { free = n; cap = n }

unfoldable pub take_slot : Slots → Option Slots
take_slot s = if ltb 0 s.free then some (record s { free = s.free - 1 }) else none

unfoldable pub release : Slots → Option Slots
release s = if ltb s.free s.cap then some (record s { free = s.free + 1 }) else none

-- The slots, how many chunks are in the works, and for how many of those whose results have ended
-- the slot is still to be given back.
pub record Backlog : Type 0 where
  pub slots : Slots
  pub running : ℕ
  pub closing : ℕ

unfoldable pub new_backlog : ℕ → Backlog
unfolding new_slots
new_backlog n = record { slots = new_slots n; running = 0; closing = 0 }

-- `Process` begins when it has a slot. When its results end, its channel is closed; only then is
-- the slot given back.
pub data Step : Backlog → Backlog → Type 0 where
  started :
      (b : Backlog) (s : Slots)
      → take_slot b.slots ≡ some s
      → Step b (record b { slots = s; running = b.running + 1 })
  closed :
      (b : Backlog) (n : ℕ)
      → b.running ≡ suc n
      → Step b (record b { running = n; closing = b.closing + 1 })
  released :
      (b : Backlog) (s : Slots) (n : ℕ)
      → b.closing ≡ suc n
      → release b.slots ≡ some s
      → Step b (record b { slots = s; closing = n })

pub data Steps : Backlog → Backlog → Type 0 where
  no_step : (b : Backlog) → Steps b b
  then_step : (a b c : Backlog) → Steps a b → Step b c → Steps a c

-- `Finish`, given that of the proc inside.
unfoldable pub finish : Backlog → Option Error → Option Error
finish b (some e) = some e
finish b none = if ltb b.slots.free b.slots.cap then some unreturned_slots else none

abbrev pub IsBalanced : ℕ → Backlog → Type 0
IsBalanced n b = (b.slots.free + b.running + b.closing ≡ n) × (b.slots.cap ≡ n)

pub take_slot-some : (a s : Slots) → take_slot a ≡ some s → (s.free + 1 ≡ a.free) × (s.cap ≡ a.cap)
unfolding take_slot
take_slot-some a s e = elim (Bool-cases (ltb 0 a.free)) [
  | inl some_free ↦
      let positive : 0 < a.free = ground arith in
      let same : record a { free = a.free - 1 } ≡ s = ground arith in
      let free : a.free - 1 ≡ s.free = ap (λ s. s.free) same in
      let cap : a.cap ≡ s.cap = ap (λ s. s.cap) same in (omega arith, omega arith)
  | inr none_free ↦ absurd (ground arith)
]

pub release-some : (a s : Slots) → release a ≡ some s → (s.free ≡ a.free + 1) × (s.cap ≡ a.cap)
unfolding release
release-some a s e = elim (Bool-cases (ltb a.free a.cap)) [
  | inl room ↦
      let same : record a { free = a.free + 1 } ≡ s = ground arith in
      let free : a.free + 1 ≡ s.free = ap (λ s. s.free) same in
      let cap : a.cap ≡ s.cap = ap (λ s. s.cap) same in (omega arith, omega arith)
  | inr full ↦ absurd (ground arith)
]

Step-IsBalanced : (n : ℕ) (b c : Backlog) → Step b c → IsBalanced n b → IsBalanced n c
Step-IsBalanced n _ _ (started b s e) h =
    let t = take_slot-some b.slots s e in (omega (arith, t, h), omega (arith, t, h))
Step-IsBalanced n _ _ (closed b m r) h = (omega (arith, h, r), h.1)
Step-IsBalanced n _ _ (released b s m r e) h =
    let t = release-some b.slots s e in (omega (arith, t, h, r), omega (arith, t, h))

Steps-IsBalanced : (n : ℕ) (a b : Backlog) → Steps a b → IsBalanced n a → IsBalanced n b
Steps-IsBalanced n _ _ (no_step b) h = h
Steps-IsBalanced n _ _ (then_step a b c s t) h =
    Step-IsBalanced n b c t (Steps-IsBalanced n a b s h)

-- Whatever is begun, closed and given back in whatever order, at most as many chunks are in the
-- works or about to give their slot back as there were slots, giving a slot back never blocks, and
-- `Finish` of a proc that ends without an error succeeds exactly if all slots were given back. So
-- it may fail when no chunk is in the works any more.
pub Steps-bounded :
    (n : ℕ) {b : Backlog}
    → Steps (new_backlog n) b
    → (b.running + b.closing ≤ n)
      × (0 < b.closing → release b.slots ≢ none)
      × ((finish b none ≡ none) ↔ ((b.running ≡ 0) × (b.closing ≡ 0)))
unfolding release finish new_backlog
Steps-bounded n {b} s =
    let h : IsBalanced n b = Steps-IsBalanced n (new_backlog n) b s (omega arith, refl) in
    (omega (arith, h), λ r e. ground arith, (λ e. (ground arith, ground arith), λ e. ground arith))

Steps-trans : {a b c : Backlog} → Steps a b → Steps b c → Steps a c
Steps-trans s (no_step b) = s
Steps-trans s (then_step a b c t u) = then_step _ b c (Steps-trans s t) u

-- The chunks in the works are closed.
closes :
    (n r : ℕ) (b : Backlog)
    → b.running ≡ r
    → IsBalanced n b
    → (c : Backlog) × Steps b c × (c.running ≡ 0) × IsBalanced n c
closes n zero b e h = (b, no_step b, e, h)
closes n (suc r) b e h =
    let next : Backlog = record b { running = r; closing = b.closing + 1 } in
    let step = closed b r e in
    let (c, rest, none_left, balanced) = closes n r next refl (Step-IsBalanced n b next step h) in
    (c, Steps-trans (then_step b b next (no_step b) step) rest, none_left, balanced)

-- The slots are given back.
releases :
    (n r : ℕ) (b : Backlog)
    → b.running ≡ 0
    → b.closing ≡ r
    → IsBalanced n b
    → (c : Backlog) × Steps b c × (c.running ≡ 0) × (c.closing ≡ 0) × IsBalanced n c
unfolding release
releases n zero b idle e h = (b, no_step b, idle, e, h)
releases n (suc r) b idle e h =
    let s : Slots = record { free = b.slots.free + 1; cap = b.slots.cap } in
    let returned : release b.slots ≡ some s = ground arith in
    let next : Backlog = record b { slots = s; closing = r } in
    let step = released b s r e returned in
    let (c, rest, still, none_left, balanced) =
      releases n r next idle refl (Step-IsBalanced n b next step h) in
    (c, Steps-trans (then_step b b next (no_step b) step) rest, still, none_left, balanced)

-- From whatever state is reached, the chunks in the works can all end and then all slots be given
-- back, one after the other without one of them blocking; then `Finish` of a proc that ends
-- without an error succeeds.
pub Steps-drains :
    (n : ℕ) {b : Backlog}
    → Steps (new_backlog n) b
    → (c : Backlog) × Steps b c × (c.running ≡ 0) × (c.closing ≡ 0) × (finish c none ≡ none)
unfolding finish new_backlog
Steps-drains n {b} s =
    let h : IsBalanced n b = Steps-IsBalanced n (new_backlog n) b s (omega arith, refl) in
    let (idle, one, done, balanced) = closes n b.running b refl h in
    let (c, two, still, none_left, whole) = releases n idle.closing idle done refl balanced in
    (c, Steps-trans one two, still, none_left, ground arith)

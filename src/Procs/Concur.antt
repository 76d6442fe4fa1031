-- ===== src/Procs/Concur.antt =====
-- procs/concur.go and concur/concur.go: procs that run beside one another, so many at a time.
--
-- Each proc is what it sends on its channel. One call of `Process` is followed, with slots of its
-- own; a step is a slot taken for the next proc, a result passed on, the end of a proc (`wg.Done`, after
-- the last of which the channel is closed), or the return of its slot, which comes later.
use scat.Prelude.{
  ℕ, zero, suc, ◌+◌, ◌-◌, ◌*◌, ◌≤◌, ◌<◌, ◌≡◌, refl, ap, ◌∙◌, ◌↔◌, ◌⊎◌, inl, inr, Option, none, some,
  List, [], ◌∷◌, ◌++◌, arith, ltb, if◌then◌else◌, length, length-append,
}
use scat.Chunk.{Chunk}
use scat.Errors.{Error, unreturned_slots}
use scat.Procs.{Res, single_res}
use scat.Procs.Backlog.{Slots, new_slots, take_slot, release, take_slot-some, release-some}

pub record Concur : Type 0 where
  pub slots : Slots
  pub waiting : List (List Res)
  pub running : List (List Res)
  pub returning : ℕ
  pub out : List Res

-- `Process`, where `Procs` gave these procs or an error: the result sent at once, or the run.
unfoldable pub start : ℕ → Chunk → List (List Res) ⊎ Error → List Res ⊎ Concur
unfolding new_slots
start max c (inr e) = inl (single_res c (some e))
start max c (inl rss) =
    inr (record { slots = new_slots max; waiting = rss; running = []; returning = 0; out = [] })

pub data Step : Concur → Concur → Type 0 where
  started :
      (c : Concur) (rs : List Res) (rss : List (List Res)) (s : Slots)
      → c.waiting ≡ rs ∷ rss
      → take_slot c.slots ≡ some s
      → Step c (record c { slots = s; waiting = rss; running = rs ∷ c.running })
  passed_on :
      (c : Concur) (before after : List (List Res)) (r : Res) (rs : List Res)
      → c.running ≡ before ++ (r ∷ rs) ∷ after
      → Step c (record c { running = before ++ rs ∷ after; out = c.out ++ r ∷ [] })
  ended :
      (c : Concur) (before after : List (List Res))
      → c.running ≡ before ++ [] ∷ after
      → Step c (record c { running = before ++ after; returning = c.returning + 1 })
  returned :
      (c : Concur) (n : ℕ) (s : Slots)
      → c.returning ≡ suc n
      → release c.slots ≡ some s
      → Step c (record c { slots = s; returning = n })

-- So many steps.
pub data Steps : ℕ → Concur → Concur → Type 0 where
  no_step : (c : Concur) → Steps 0 c c
  then_step : (n : ℕ) (a b c : Concur) → Steps n a b → Step b c → Steps (suc n) a c

-- `Finish`, given that of the `DynProcer`.
unfoldable pub finish : Concur → Option Error → Option Error
finish c (some e) = some e
finish c none = if ltb c.slots.free c.slots.cap then some unreturned_slots else none

-- `FirstErr`: the first error in the order in which the functions end.
unfoldable pub first_err : List (Option Error) → Option Error
first_err [] = none
first_err (none ∷ es) = first_err es
first_err (some e ∷ es) = some e

abbrev pub weigh : (Res → ℕ) → List Res → ℕ
weigh f [] = 0
weigh f (r ∷ rs) = f r + weigh f rs

abbrev pub weigh_all : (Res → ℕ) → List (List Res) → ℕ
weigh_all f [] = 0
weigh_all f (rs ∷ rss) = weigh f rs + weigh_all f rss

weigh-append : (f : Res → ℕ) (xs ys : List Res) → weigh f (xs ++ ys) ≡ weigh f xs + weigh f ys
weigh-append f [] ys = omega arith
weigh-append f (x ∷ xs) ys = omega (arith, weigh-append f xs ys)

weigh_all-append :
    (f : Res → ℕ) (xs ys : List (List Res))
    → weigh_all f (xs ++ ys) ≡ weigh_all f xs + weigh_all f ys
weigh_all-append f [] ys = omega arith
weigh_all-append f (x ∷ xs) ys = omega (arith, weigh_all-append f xs ys)

-- All that is there, sent or not; and what is left to do.
abbrev whole : (Res → ℕ) → Concur → ℕ
whole f c = weigh f c.out + weigh_all f c.running + weigh_all f c.waiting

abbrev left : Concur → ℕ
left c =
    3 * length c.waiting
    + 2 * length c.running
    + c.returning
    + weigh_all (λ r. 1) c.running
    + weigh_all (λ r. 1) c.waiting

Step-whole : (f : Res → ℕ) (a b : Concur) → Step a b → whole f b ≡ whole f a
Step-whole f _ _ (started c rs rss s e t) = let w = ap (weigh_all f) e in omega (arith, w)
Step-whole f _ _ (passed_on c before after r rs e) =
    let w = ap (weigh_all f) e in
    omega (
      arith,
      w,
      weigh-append f c.out (r ∷ []),
      weigh_all-append f before ((r ∷ rs) ∷ after),
      weigh_all-append f before (rs ∷ after),
    )
Step-whole f _ _ (ended c before after e) =
    let w = ap (weigh_all f) e in
    omega (arith, w, weigh_all-append f before ([] ∷ after), weigh_all-append f before after)
Step-whole f _ _ (returned c n s e t) = refl

Step-left : (a b : Concur) → Step a b → suc (left b) ≡ left a
Step-left _ _ (started c rs rss s e t) =
    let w = ap (weigh_all (λ r. 1)) e in let n = ap length e in omega (arith, w, n)
Step-left _ _ (passed_on c before after r rs e) =
    let w = ap (weigh_all (λ r. 1)) e in
    let n = ap length e in
    omega (
      arith,
      w,
      n,
      weigh_all-append (λ r. 1) before ((r ∷ rs) ∷ after),
      weigh_all-append (λ r. 1) before (rs ∷ after),
      length-append before ((r ∷ rs) ∷ after),
      length-append before (rs ∷ after),
    )
Step-left _ _ (ended c before after e) =
    let w = ap (weigh_all (λ r. 1)) e in
    let n = ap length e in
    omega (
      arith,
      w,
      n,
      weigh_all-append (λ r. 1) before ([] ∷ after),
      weigh_all-append (λ r. 1) before after,
      length-append before ([] ∷ after),
      length-append before after,
    )
Step-left _ _ (returned c n s e t) = omega (arith, e)

abbrev IsBalanced : ℕ → Concur → Type 0
IsBalanced n c = (c.slots.free + length c.running + c.returning ≡ n) × (c.slots.cap ≡ n)

Step-IsBalanced : (n : ℕ) (a b : Concur) → Step a b → IsBalanced n a → IsBalanced n b
Step-IsBalanced n _ _ (started c rs rss s e t) h =
    let k = take_slot-some c.slots s t in (omega (arith, k, h), omega (arith, k, h))
Step-IsBalanced n _ _ (passed_on c before after r rs e) h =
    let m = ap length e in
    (
      omega
          (arith, m, h, length-append before ((r ∷ rs) ∷ after), length-append before (rs ∷ after)),
      h.1,
    )
Step-IsBalanced n _ _ (ended c before after e) h =
    let m = ap length e in
    (omega (arith, m, h, length-append before ([] ∷ after), length-append before after), h.1)
Step-IsBalanced n _ _ (returned c r s e t) h =
    let k = release-some c.slots s t in (omega (arith, k, e, h), omega (arith, k, h))

Steps-keep :
    (k n : ℕ) (a b : Concur)
    → Steps k a b
    → IsBalanced n a
    → ((f : Res → ℕ) → whole f b ≡ whole f a) × (k + left b ≡ left a) × IsBalanced n b
Steps-keep _ n _ _ (no_step c) h = (λ f. refl, omega arith, h)
Steps-keep _ n _ _ (then_step k a b c s t) h =
    let (same, less, balanced) = Steps-keep k n a b s h in
    (
      λ f. Step-whole f b c t ∙ same f,
      omega (arith, less, Step-left b c t),
      Step-IsBalanced n b c t balanced,
    )

-- A run is over, or it can go on if there are slots at all.
can_step :
    (n : ℕ) (c : Concur)
    → 0 < n
    → IsBalanced n c
    → ((c.waiting ≡ []) × (c.running ≡ []) × (c.returning ≡ 0)) ⊎ ((d : Concur) × Step c d)
unfolding take_slot release
can_step n c some_slots h = go c.waiting c.running c.returning refl refl refl
  where
    go :
        (ws rs : List (List Res)) (k : ℕ)
        → c.waiting ≡ ws
        → c.running ≡ rs
        → c.returning ≡ k
        → ((ws ≡ []) × (rs ≡ []) × (k ≡ 0)) ⊎ ((d : Concur) × Step c d)
    go [] [] zero w r e = inl (refl, refl, refl)
    go ws ((x ∷ xs) ∷ rs) k w r e =
        inr (record c { running = xs ∷ rs; out = c.out ++ x ∷ [] }, passed_on c [] rs x xs r)
    go ws ([] ∷ rs) k w r e =
        inr (record c { running = rs; returning = c.returning + 1 }, ended c [] rs r)
    go ws [] (suc k) w r e =
        let s : Slots = record { free = c.slots.free + 1; cap = c.slots.cap } in
        inr (record c { slots = s; returning = k }, returned c k s e (ground (arith, h, e)))
    go (x ∷ ws) [] zero w r e =
        let s : Slots = record { free = c.slots.free - 1; cap = c.slots.cap } in
        inr (
          record c { slots = s; waiting = ws; running = x ∷ c.running },
          started c x ws s w (ground (arith, h, e, ap length r)),
        )

abbrev pub run : ℕ → List (List Res) → Concur
run max rss = record { slots = new_slots max; waiting = rss; running = []; returning = 0; out = [] }

-- A run that is over: all results of the procs were sent, each as often as it is theirs (any
-- weighing of results gives the same sum), and all slots were returned.
abbrev pub IsComplete : List (List Res) → Concur → Type 0
IsComplete rss c =
    (c.waiting ≡ [])
    × (c.running ≡ [])
    × (c.returning ≡ 0)
    × ((f : Res → ℕ) → weigh f c.out ≡ weigh_all f rss)

-- In whatever order the procs get on, no more of them run at a time than there are slots, and with
-- slots at all the run cannot get stuck before its end nor go on for ever: it takes so many steps
-- at most, and after each of them it goes on or is complete, which means that all results of the
-- procs were sent, each as often as it is theirs. `Finish` of a `DynProcer` that ends without an
-- error fails as long as a proc runs or its slot is not returned: also after the channel is closed,
-- for which the return of the last slots is not awaited.
pub Steps-IsComplete :
    (k max : ℕ) (rss : List (List Res)) {c : Concur}
    → 0 < max
    → Steps k (run max rss) c
    → (length c.running ≤ max)
      × (k ≤ 3 * length rss + weigh_all (λ r. 1) rss)
      × (IsComplete rss c ⊎ ((d : Concur) × Step c d))
      × ((finish c none ≡ none) ↔ (length c.running + c.returning ≡ 0))
unfolding new_slots finish
Steps-IsComplete k max rss {c} some_slots s =
    let (same, less, balanced) = Steps-keep k max (run max rss) c s (omega arith, refl) in
    (
      omega (arith, balanced),
      omega (arith, less),
      elim (can_step max c some_slots balanced) [
        | inr on ↦ inr on
        | inl (w, r, e) ↦
            inl (w, r, e, λ f. omega (arith, same f, ap (weigh_all f) w, ap (weigh_all f) r))
      ],
      (λ e. ground (arith, balanced), λ e. ground (arith, balanced)),
    )

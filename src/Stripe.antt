-- ===== src/Stripe.antt =====
-- stripe/rr.go and stripe/stripe.go: how the copies of a group of items are spread over stores.
--
-- Items and locations are compared only, and stand here as numbers. `Min` and `Excl` are natural
-- numbers: a negative one acts as 0 in the code. Go visits a map in any order: it is the order
-- of the association list here, on which no theorem rests.
pub mod RoundRobin
pub mod Filling
pub mod Passes
pub mod Placement
pub mod Keyed
pub mod Alone
pub mod Exclusive
pub mod Progress
pub mod Total
use scat.Prelude.{
  ℕ, zero, suc, ◌+◌, ◌-◌, min, Bool, true, false, not, ◌&&◌, Option, none, some, List, [], ◌∷◌, ltb,
  ◌==◌, if◌then◌else◌, length,
}
use scat.Prelude.Dict.{Dict, lookup, insert, remove, has, keys, Locs}
use scat.Stripe.RoundRobin.{Rr, next_item}

abbrev pub S : Type 0
S = Dict Locs

unfoldable pub subset : Locs → Locs → Bool
subset [] b = true
subset ((l, _) ∷ a) b = has l b && subset a b

unfoldable pub equal : Locs → Locs → Bool
unfolding subset
equal a b = if not (length a == length b) then false else subset a b

-- No other item has the same locations.
unfoldable pub is_exclusive : ℕ → Locs → S → Bool
unfolding equal
is_exclusive a a_locs [] = true
is_exclusive a a_locs ((b, b_locs) ∷ s) =
    not (not (a == b) && equal a_locs b_locs) && is_exclusive a a_locs s

unfoldable pub count_exclusive : S → S → ℕ
unfolding is_exclusive
count_exclusive [] s = 0
count_exclusive ((a, a_locs) ∷ rest) s =
    (if is_exclusive a a_locs s then 1 else 0) + count_exclusive rest s

unfoldable pub exclusives : S → ℕ
unfolding count_exclusive
exclusives s = count_exclusive s s

-- How many items each destination holds already.
unfoldable pub count_locs : Locs → Locs → Dict ℕ → Dict ℕ
count_locs [] dests prios = prios
count_locs ((l, _) ∷ got) dests prios = count_locs got dests (
    if has l dests
    then insert l (elim (lookup l prios) [ none ↦ 1 | some p ↦ p + 1 ]) prios
    else prios)

unfoldable pub priorities : S → Locs → Dict ℕ → Dict ℕ
unfolding count_locs
priorities [] dests prios = prios
priorities ((it, got) ∷ s) dests prios = priorities s dests (count_locs got dests prios)

pub record Config : Type 0 where
  pub min_copies : ℕ
  pub excl : ℕ

-- What the loops change: the sequence, `prios` and `res`, and for the item at hand what is left
-- of `old` and what was `seen` (a nil from the sequence apart).
pub record Loop : Type 0 where
  pub seq : Rr
  pub prios : Dict ℕ
  pub res : S
  pub old : List ℕ
  pub seen : Locs
  pub seen_nil : Bool

-- What a call of `next` returns.
pub data Next : Type 0 where
  found : ℕ → Next
  nothing : Next
  err_short : Next

unfoldable pub next_new : Loop → Option ℕ → Loop × Next
next_new l none =
    if l.seen_nil
    then (l, if ltb 0 (length l.prios) then nothing else err_short)
    else (record l { seen_nil = true }, nothing)
next_new l (some new) =
    if has new l.seen
    then (
      record l { prios = remove new l.prios },
      if ltb 0 (length (remove new l.prios)) then nothing else err_short,
    )
    else (record l { seen = insert new tt l.seen }, found new)

unfoldable pub next_old : Loop → List ℕ → Loop × Next
unfolding next_new
next_old l (loc ∷ rest) = (record l { old = rest }, found loc)
next_old l [] = let (new, seq) = next_item l.seq in next_new (record l { seq = seq }) new

unfoldable pub next : Loop → Loop × Next
unfolding next_old
next l = next_old l l.old

abbrev pub locs_of : S → ℕ → Locs
locs_of s it = elim (lookup it s) [ none ↦ [] | some ls ↦ ls ]

-- How a round of the inner loop ends: it goes on, breaks, or returns the error.
pub data Turn : Type 0 where
  again : Loop → Turn
  stop : Loop → Turn
  short_of : Turn

-- A location is added, and taken back where too few items would be exclusive.
unfoldable pub try_add : Config → Bool → ℕ → Loop → ℕ → Turn
try_add cfg first_pass it l new =
    let res = insert it (insert new tt (locs_of l.res it)) l.res in
    if ltb (exclusives res) (min cfg.excl (length l.res))
    then (if first_pass then stop l else again l)
    else again (record l { res = res })

unfoldable pub consider : Config → Bool → Locs → ℕ → Loop → ℕ → Turn
unfolding try_add
consider cfg first_pass dests it l new =
    if has new (locs_of l.res it)
    then again l
    else if not (has new dests)
    then again l
    else try_add cfg first_pass it l new

-- A destination that other items hold already is left to them first.
unfoldable pub weigh : Config → Bool → Locs → ℕ → Loop → ℕ → Option ℕ → Turn
unfolding consider
weigh cfg first_pass dests it l new none = consider cfg first_pass dests it l new
weigh cfg first_pass dests it l new (some prio) =
    if ltb 0 prio
    then again (record l { prios = insert new (prio - 1) l.prios; seen = remove new l.seen })
    else consider cfg first_pass dests it (record l { prios = remove new l.prios }) new

unfoldable pub turn_on : Config → Bool → Locs → Locs → ℕ → Loop × Next → Turn
unfolding weigh
turn_on cfg first_pass dests got it (l, err_short) = short_of
turn_on cfg first_pass dests got it (l, nothing) = again l
turn_on cfg first_pass dests got it (l, found new) =
    if has new got
    then consider cfg first_pass dests it l new
    else weigh cfg first_pass dests it l new (lookup new l.prios)

unfoldable pub turn : Config → Bool → Locs → Locs → ℕ → Loop → Turn
unfolding turn_on next
turn cfg first_pass dests got it l = turn_on cfg first_pass dests got it (next l)

pub data Outcome {ℓ} (A : Type ℓ) : Type ℓ where
  done : A → Outcome A
  failed out_of_fuel : Outcome A

-- `for len(newLocs) < min`
unfoldable pub fill : ℕ → Config → Bool → Locs → Locs → ℕ → Loop → Outcome Loop
fill zero cfg first_pass dests got it l = out_of_fuel
fill (suc fuel) cfg first_pass dests got it l =
    elim (ltb (length (locs_of l.res it)) cfg.min_copies) [
      | false ↦ done l
      | true ↦ elim (turn cfg first_pass dests got it l) [
        | again l' ↦ fill fuel cfg first_pass dests got it l'
        | stop l' ↦ done l'
        | short_of ↦ failed
      ]
    ]

-- `res[it]` is made if it is not there; `old` and `seen` are the item's own.
unfoldable pub begin : Locs → ℕ → Loop → Loop
begin got it l = record l {
  res = if has it l.res then l.res else insert it [] l.res;
  old = keys got;
  seen = [];
  seen_nil = false;
}

unfoldable pub pass : ℕ → Config → Bool → Locs → S → Loop → Outcome Loop
unfolding begin
pass fuel cfg first_pass dests [] l = done l
pass fuel cfg first_pass dests ((it, got) ∷ items) l =
    elim (fill fuel cfg first_pass dests got it (begin got it l)) [
      | done l' ↦ pass fuel cfg first_pass dests items l'
      | failed ↦ failed
      | out_of_fuel ↦ out_of_fuel
    ]

unfoldable pub passes : ℕ → Config → Locs → S → Loop → Outcome Loop
unfolding pass
passes fuel cfg dests s l = elim (pass fuel cfg true dests s l) [
  | done l' ↦ pass fuel cfg false dests s l'
  | failed ↦ failed
  | out_of_fuel ↦ out_of_fuel
]

unfoldable pub delete_all : Locs → Locs → Locs
delete_all [] new = new
delete_all ((l, _) ∷ got) new = delete_all got (remove l new)

-- The locations that an item has already are taken out of what is returned.
unfoldable pub drop_got : S → S → S
unfolding delete_all
drop_got [] res = res
drop_got ((it, got) ∷ s) res =
    drop_got s (elim (lookup it res) [ none ↦ res | some new ↦ insert it (delete_all got new) res ])

abbrev pub start : S → Locs → Rr → Loop
start s dests seq = record {
  seq = seq;
  prios = priorities s dests [];
  res = [];
  old = [];
  seen = [];
  seen_nil = false;
}

unfoldable pub stripe : ℕ → Config → S → Locs → Rr → Outcome (S × Rr)
unfolding passes drop_got
stripe fuel cfg s dests seq = elim (passes fuel cfg dests s (start s dests seq)) [
  | done l ↦ done (drop_got s l.res, l.seq)
  | failed ↦ failed
  | out_of_fuel ↦ out_of_fuel
]

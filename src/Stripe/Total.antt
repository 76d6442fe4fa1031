-- ===== src/Stripe/Total.antt =====
-- stripe/stripe.go: the loops of `Stripe` end.
use native.Mathlib.Nat.{le_refl}
use scat.Prelude.{
  ℕ, zero, suc, ◌+◌, ◌≤◌, ◌<◌, ◌≡◌, refl, sym, ◌∙◌, subst, ◌≢◌, inl, inr, Bool, true, false, [],
  ◌∷◌, arith, ltb, if◌then◌else◌, Bool-cases, length,
}
use scat.Prelude.Dict.{has, elem, keys, Locs}
use scat.Stripe.RoundRobin.{Rr}
use scat.Stripe.RoundRobin.Rotation.{queue, IsLive}
use scat.Stripe.{
  S, Config, Loop, locs_of, Turn, again, stop, short_of, turn, Outcome, done, failed, out_of_fuel,
  fill, begin, pass, passes, start, priorities, stripe,
}
use scat.Stripe.Filling.{Turn-cases}
use scat.Stripe.Passes.{Outcome-cases}
use scat.Stripe.Progress.{weight}
use scat.Stripe.Progress.Bound.{bound, bound-lt, bound_mono}
use scat.Stripe.Progress.Keys.{KeysAt, priorities-KeysAt, elem-queue, length-queue}
use scat.Stripe.Progress.Measure.{
  unseen, position, unseen-le, position-le, wanted, budget, Live, Progress, turn-Progress,
}

abbrev size : Loop → ℕ
size l = length (queue l.seq)

abbrev rank : Loop → ℕ
rank l = bound (size l) (budget l) (unseen l.seen (queue l.seq)) (position (wanted l) (queue l.seq))

rank-Progress : (l m : Loop) → Progress l m → rank m < rank l
rank-Progress l m p = rw p.sized (
    bound-lt (size l) (budget l) (budget m) _ _ _ _
      (omega (arith, unseen-le m.seen (queue m.seq), p.sized))
      (omega (arith, position-le (wanted m) (queue m.seq), p.sized)) p.less)

-- What a loop or a pass leaves for the next one.
record After (l m : Loop) : Type 0 where
  live : Live m
  sized : size m ≡ size l
  lower : weight m.prios ≤ weight l.prios

abbrev Ends : Loop → Outcome Loop → Type 0
Ends l (done m) = After l m
Ends l failed = Unit
Ends l out_of_fuel = ⊥

Ends-trans : (l m : Loop) (o : Outcome Loop) → After l m → Ends m o → Ends l o
Ends-trans l m (done k) a e = record {
  live = e.live;
  sized = e.sized ∙ a.sized;
  lower = omega (arith, a.lower, e.lower);
}
Ends-trans l m failed a e = tt
Ends-trans l m out_of_fuel a e = e

Progress-After : (l m : Loop) → Progress l m → After l m
Progress-After l m p = record { live = p.live; sized = p.sized; lower = p.lower }

either :
    (l : Loop) (b : Bool) (o : Outcome Loop) → Ends l o → Live l → Ends l (if b then o else done l)
either l true o e v = e
either l false o e v = record { live = v; sized = refl; lower = omega arith }

-- One step of the loop, as an equation.
fill_cases :
    (fuel : ℕ) (cfg : Config) (first_pass : Bool) (dests got : Locs) (it : ℕ) (l : Loop) (t : Turn)
    → turn cfg first_pass dests got it l ≡ t
    → fill (suc fuel) cfg first_pass dests got it l ≡ (
        if ltb (length (locs_of l.res it)) cfg.min_copies
        then elim t [
          | again m ↦ fill fuel cfg first_pass dests got it m
          | stop m ↦ done m
          | short_of ↦ failed
        ]
        else done l)
unfolding fill
fill_cases fuel cfg first_pass dests got it l t e =
    elim (Bool-cases (ltb (length (locs_of l.res it)) cfg.min_copies)) [
      | inr enough ↦ rw (enough, fill)
      | inl few ↦ rw (few, e, fill)
    ]

fill-Ends :
    (fuel : ℕ) (cfg : Config) (first_pass : Bool) (dests got : Locs) (it : ℕ) (l : Loop)
    → Live l
    → rank l < fuel
    → Ends l (fill fuel cfg first_pass dests got it l)
unfolding fill
fill-Ends zero cfg first_pass dests got it l v h = elim h [ ]
fill-Ends (suc fuel) cfg first_pass dests got it l v h =
    let step = turn-Progress cfg first_pass dests got it l v in
    let test = ltb (length (locs_of l.res it)) cfg.min_copies in
    elim (Turn-cases (turn cfg first_pass dests got it l)) [
      | inl short ↦
          subst (Ends l) (sym (fill_cases fuel cfg first_pass dests got it l _ short))
            (either l test failed tt v)
      | inr (inl (m, went)) ↦
          let p : Progress l m = rw went at step in
          let rest =
            fill-Ends fuel cfg first_pass dests got it m p.live
              (omega (arith, rank-Progress l m p)) in
          subst (Ends l) (sym (fill_cases fuel cfg first_pass dests got it l _ went)) (
            either l test (fill fuel cfg first_pass dests got it m)
              (Ends-trans l m (fill fuel cfg first_pass dests got it m) (Progress-After l m p) rest)
              v)
      | inr (inr (m, broke)) ↦
          let p : Progress l m = rw broke at step in
          subst (Ends l) (sym (fill_cases fuel cfg first_pass dests got it l _ broke))
            (either l test (done m) (Progress-After l m p) v)
    ]

-- The cost of a group: the old locations of its items, and the priorities.
abbrev pub old_total : S → ℕ
old_total [] = 0
old_total ((it, got) ∷ s) = length (keys got) + old_total s

abbrev pub enough_fuel : ℕ → ℕ → S → ℕ
enough_fuel n w s = suc (bound n (old_total s + w) n n)

rank-begin :
    (l : Loop) (it : ℕ) (got : Locs)
    → rank (begin got it l) ≤ bound (size l) (length (keys got) + weight l.prios) (size l) (size l)
unfolding begin
rank-begin l it got =
    let b = begin got it l in
    bound_mono (size l) _ (budget b) _ (unseen b.seen (queue l.seq)) _
      (position (wanted b) (queue l.seq)) (le_refl _) (unseen-le b.seen (queue l.seq))
      (position-le (wanted b) (queue l.seq))

begin-After : (l : Loop) (it : ℕ) (got : Locs) → Live l → After l (begin got it l)
unfolding begin
begin-After l it got v = record {
  live = record { live = v.live; comes = v.comes };
  sized = refl;
  lower = omega arith;
}

pass_cons :
    (fuel : ℕ) (cfg : Config) (first_pass : Bool) (dests got : Locs) (it : ℕ) (items : S)
    (l k : Loop)
    → fill fuel cfg first_pass dests got it (begin got it l) ≡ done k
    → pass fuel cfg first_pass dests ((it, got) ∷ items) l ≡ pass fuel cfg first_pass dests items k
unfolding pass
pass_cons fuel cfg first_pass dests got it items l k e = rw (e, pass)

pass-Ends :
    (fuel : ℕ) (cfg : Config) (first_pass : Bool) (dests : Locs) (items : S) (l : Loop)
    → Live l
    → enough_fuel (size l) (weight l.prios) items ≤ fuel
    → Ends l (pass fuel cfg first_pass dests items l)
unfolding pass
pass-Ends fuel cfg first_pass dests [] l v h = record {
  live = v;
  sized = refl;
  lower = omega arith;
}
pass-Ends fuel cfg first_pass dests ((it, got) ∷ items) l v h =
    let n = size l in
    let w = weight l.prios in
    let begun = begin-After l it got v in
    let first = fill-Ends fuel cfg first_pass dests got it (begin got it l) begun.live (
      omega (
        arith,
        rank-begin l it got,
        bound_mono n (length (keys got) + old_total items + w) (length (keys got) + w) n n n n,
      )) in
    elim (Outcome-cases (fill fuel cfg first_pass dests got it (begin got it l))) [
      | inl short ↦
          let fails : pass fuel cfg first_pass dests ((it, got) ∷ items) l ≡ failed =
            rw (short, pass) in
          subst (Ends l) (sym fails) tt
      | inr (inl out) ↦ absurd (subst (Ends (begin got it l)) out first)
      | inr (inr (k, filled)) ↦
          let a : After (begin got it l) k = subst (Ends (begin got it l)) filled first in
          let b : After l k = Ends-trans l (begin got it l) (done k) begun a in
          let rest = pass-Ends fuel cfg first_pass dests items k b.live (
            rw b.sized (
              omega (
                arith,
                b.lower,
                bound_mono n (length (keys got) + old_total items + w)
                    (old_total items + weight k.prios) n n n n (omega (arith, b.lower)) (le_refl _)
                    (le_refl _),
              ))) in
          subst (Ends l) (sym (pass_cons fuel cfg first_pass dests got it items l k filled))
            (Ends-trans l k (pass fuel cfg first_pass dests items k) b rest)
    ]

passes-Ends :
    (fuel : ℕ) (cfg : Config) (dests : Locs) (s : S) (l : Loop)
    → Live l
    → enough_fuel (size l) (weight l.prios) s ≤ fuel
    → passes fuel cfg dests s l ≢ out_of_fuel
unfolding passes
passes-Ends fuel cfg dests s l v h =
    let first = pass-Ends fuel cfg true dests s l v h in
    elim (Outcome-cases (pass fuel cfg true dests s l)) [
      | inl short ↦ λ e. ground arith
      | inr (inl out) ↦ absurd (subst (Ends l) out first)
      | inr (inr (m, one)) ↦
          let a : After l m = subst (Ends l) one first in
          let second = pass-Ends fuel cfg false dests s m a.live (
            rw a.sized (
              omega (
                arith,
                a.lower,
                bound_mono (size l) (old_total s + weight l.prios) (old_total s + weight m.prios)
                    (size l) (size l) (size l) (size l) (omega (arith, a.lower)) (le_refl _)
                    (le_refl _),
              ))) in
          λ e.
            let out : pass fuel cfg false dests s m ≡ out_of_fuel = ground arith in
            subst (Ends m) out second
    ]

-- `Stripe` ends: with a round-robin sequence that stands at an item and brings every destination,
-- no loop runs for ever. With n items in the sequence, and a the number of old locations of the
-- group's items and of the priorities, each of these counted once more than its number, together,
-- a fuel of (a (n + 1) + n) (n + 1) + n + 1 is enough.
pub stripe-total :
    (fuel : ℕ) (cfg : Config) (s : S) (dests : Locs) (seq : Rr)
    → IsLive seq
    → ((k : ℕ) → has k dests ≡ true → elem k seq.items ≡ true)
    → enough_fuel (length seq.items) (weight (priorities s dests [])) s ≤ fuel
    → stripe fuel cfg s dests seq ≢ out_of_fuel
unfolding stripe has
stripe-total fuel cfg s dests seq live comes h =
    let none_yet : KeysAt dests [] = λ k e. absurd (ground arith) in
    let l = start s dests seq in
    let v : Live l = record {
      live = live;
      comes = λ k e. elem-queue k seq ∙ comes k (priorities-KeysAt s dests [] none_yet k e);
    } in
    let ended = passes-Ends fuel cfg dests s l v (rw (length-queue seq) h) in
    elim (Outcome-cases (passes fuel cfg dests s l)) [
      | inl short ↦ λ e. ground arith
      | inr (inl out) ↦ absurd (ended out)
      | inr (inr (m, ran)) ↦ λ e. ground arith
    ]

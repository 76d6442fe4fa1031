-- ===== src/Stripe/Progress/Keys.antt =====
-- stripe/stripe.go: what has a priority, and what the sequence brings.
use scat.Prelude.{
  ℕ, ◌+◌, ◌≡◌, refl, ap, inl, inr, true, ◌||◌, none, some, List, [], ◌∷◌, ◌++◌, arith, Bool-cases,
  Option-cases, length, take, drop, length-append, take-append-drop,
}
use scat.Prelude.Dict.{Dict, lookup, has, elem, has-insert, Locs}
use scat.Stripe.{S, count_locs, priorities}
use scat.Stripe.RoundRobin.{Rr}
use scat.Stripe.RoundRobin.Rotation.{queue}

-- Priorities are kept of destinations only.
abbrev pub KeysAt : Locs → Dict ℕ → Type 0
KeysAt dests prios = (k : ℕ) → has k prios ≡ true → has k dests ≡ true

count_locs-KeysAt :
    (got dests : Locs) (prios : Dict ℕ)
    → KeysAt dests prios
    → KeysAt dests (count_locs got dests prios)
unfolding count_locs
count_locs-KeysAt [] dests prios h = h
count_locs-KeysAt ((l, _) ∷ got) dests prios h = elim (Bool-cases (has l dests)) [
  | inl dest ↦ rw dest (
      count_locs-KeysAt got dests _ (λ k e. elim (Option-cases (lookup l prios)) [
        | inl _ ↦
            ground (
              arith,
              h k,
              has-insert l k (elim (lookup l prios) [ none ↦ 1 | some p ↦ p + 1 ]) prios,
            )
        | inr _ ↦
            ground (
              arith,
              h k,
              has-insert l k (elim (lookup l prios) [ none ↦ 1 | some p ↦ p + 1 ]) prios,
            )
      ]))
  | inr alien ↦ rw alien (count_locs-KeysAt got dests prios h)
]

pub priorities-KeysAt :
    (s : S) (dests : Locs) (prios : Dict ℕ)
    → KeysAt dests prios
    → KeysAt dests (priorities s dests prios)
unfolding priorities
priorities-KeysAt [] dests prios h = h
priorities-KeysAt ((it, got) ∷ s) dests prios h =
    priorities-KeysAt s dests (count_locs got dests prios) (count_locs-KeysAt got dests prios h)

elem-append : (k : ℕ) (xs ys : List ℕ) → elem k (xs ++ ys) ≡ (elem k xs || elem k ys)
unfolding elem
elem-append k [] ys = refl
elem-append k (x ∷ xs) ys = ground (arith, elem-append k xs ys)

pub elem-queue : (k : ℕ) (seq : Rr) → elem k (queue seq) ≡ elem k seq.items
elem-queue k seq =
    let front = take seq.cur seq.items in
    let back = drop seq.cur seq.items in
    let whole : elem k (front ++ back) ≡ elem k seq.items =
      ap (elem k) (take-append-drop seq.cur seq.items) in
    ground (arith, elem-append k back front, elem-append k front back, whole)

pub length-queue : (seq : Rr) → length (queue seq) ≡ length seq.items
length-queue seq = omega (
  arith,
  length-append (drop seq.cur seq.items) (take seq.cur seq.items),
  length-append (take seq.cur seq.items) (drop seq.cur seq.items),
  ap length (take-append-drop seq.cur seq.items),
)

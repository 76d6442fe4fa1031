-- ===== src/Stripe/Progress.antt =====
-- stripe/stripe.go: every round of the inner loop uses something up.
pub mod Measure
pub mod Bound
pub mod Keys
use scat.Prelude.{
  ℕ, suc, ◌+◌, ◌-◌, ◌≤◌, ◌<◌, min, ◌≡◌, refl, ap, ◌⊎◌, inl, inr, Bool, true, false, Option, none,
  some, [], ◌∷◌, arith, ltb, Bool-cases, length,
}
use scat.Prelude.Dict.{Dict, lookup, insert, remove, has, has-insert, has-remove, has-lookup, Locs}
use scat.Stripe.RoundRobin.{Rr, next_item}
use scat.Stripe.RoundRobin.Rotation.{queue, IsLive, next_item-Turns}
use scat.Stripe.{
  S, Config, Loop, Next, found, nothing, err_short, next_new, next_old, next, locs_of, Turn, again,
  stop, short_of, exclusives, try_add, consider, weigh, turn_on, turn,
}

-- What is left of the priorities: an entry counts once more than its number.
abbrev pub weight : Dict ℕ → ℕ
weight [] = 0
weight ((k, p) ∷ m) = suc p + weight m

pub weight-remove : (k : ℕ) (m : Dict ℕ) → weight (remove k m) ≤ weight m
unfolding remove
weight-remove k [] = omega arith
weight-remove k ((j, p) ∷ m) = ground (arith, weight-remove k m)

pub weight-remove_lt : (k : ℕ) (m : Dict ℕ) → has k m ≡ true → weight (remove k m) < weight m
unfolding remove has
weight-remove_lt k [] h = absurd (ground arith)
weight-remove_lt k ((j, p) ∷ m) h = ground (arith, weight-remove k m, weight-remove_lt k m)

pub remove-absent : (k : ℕ) (m : Dict ℕ) → has k m ≡ false → remove k m ≡ m
unfolding remove has
remove-absent k [] h = refl
remove-absent k ((j, p) ∷ m) h = ground (arith, remove-absent k m)

weight-spend :
    (k p : ℕ) (m : Dict ℕ) → lookup k m ≡ some p → 0 < p → weight (insert k (p - 1) m) < weight m
unfolding lookup insert
weight-spend k p [] e h = absurd (ground arith)
weight-spend k p ((j, q) ∷ m) e h = ground (arith, weight-spend k p m)

abbrev pub KeysIn : Dict ℕ → Dict ℕ → Type 0
KeysIn m n = (k : ℕ) → has k m ≡ true → has k n ≡ true

-- What `next` found is dealt with: a priority is spent, or nothing of this changes.
pub record Spends (l m : Loop) : Type 0 where
  pub same_old : m.old ≡ l.old
  pub same_seq : m.seq ≡ l.seq
  pub keys_in : KeysIn m.prios l.prios
  pub spends :
      (weight m.prios < weight l.prios) ⊎ ((weight m.prios ≤ weight l.prios) × (m.seen ≡ l.seen))

abbrev pub SpendsOn : Loop → Turn → Type 0
SpendsOn l short_of = ⊥
SpendsOn l (again m) = Spends l m
SpendsOn l (stop m) = Spends l m

Spends-same :
    (l m : Loop) → m.old ≡ l.old → m.seq ≡ l.seq → m.prios ≡ l.prios → m.seen ≡ l.seen → Spends l m
Spends-same l m o q p s = record {
  same_old = o;
  same_seq = q;
  keys_in = λ k h. ground arith;
  spends = inr (omega (arith, ap weight p), s);
}

module _ (cfg : Config) (first_pass : Bool) (dests : Locs) (it : ℕ) where
  try_add-Spends : (l : Loop) (new : ℕ) → SpendsOn l (try_add cfg first_pass it l new)
  unfolding try_add
  try_add-Spends l new =
      let res = insert it (insert new tt (locs_of l.res it)) l.res in
      let kept = Spends-same l l refl refl refl refl in
      elim (Bool-cases (ltb (exclusives res) (min cfg.excl (length l.res)))) [
        | inl few ↦ elim (Bool-cases first_pass) [
          | inl p ↦ rw (few, p) kept
          | inr p ↦ rw (few, p) kept
        ]
        | inr many ↦ rw many (Spends-same l (record l { res = res }) refl refl refl refl)
      ]

  consider-Spends : (l : Loop) (new : ℕ) → SpendsOn l (consider cfg first_pass dests it l new)
  unfolding consider
  consider-Spends l new =
      let kept = Spends-same l l refl refl refl refl in
      elim (Bool-cases (has new (locs_of l.res it))) [
        | inl there ↦ rw there kept
        | inr fresh ↦ elim (Bool-cases (has new dests)) [
          | inr alien ↦ rw (fresh, alien) kept
          | inl dest ↦ rw (fresh, dest) (try_add-Spends l new)
        ]
      ]

  Spends-after :
      (l : Loop) (new : ℕ) (t : Turn)
      → SpendsOn (record l { prios = remove new l.prios }) t
      → SpendsOn l t
  Spends-after l new short_of s = s
  Spends-after l new (again m) s = record {
    same_old = s.same_old;
    same_seq = s.same_seq;
    keys_in = λ k h. ground (arith, s.keys_in k, has-remove new k l.prios);
    spends = ground (arith, s.spends, weight-remove new l.prios);
  }
  Spends-after l new (stop m) s = record {
    same_old = s.same_old;
    same_seq = s.same_seq;
    keys_in = λ k h. ground (arith, s.keys_in k, has-remove new k l.prios);
    spends = ground (arith, s.spends, weight-remove new l.prios);
  }

  weigh-Spends :
      (l : Loop) (new : ℕ) (p : Option ℕ)
      → lookup new l.prios ≡ p
      → SpendsOn l (weigh cfg first_pass dests it l new p)
  unfolding weigh
  weigh-Spends l new none e = consider-Spends l new
  weigh-Spends l new (some prio) e = elim (Bool-cases (ltb 0 prio)) [
    | inl wait ↦ rw wait (record {
      same_old = refl;
      same_seq = refl;
      keys_in = λ k h. ground (arith, has-insert new k (prio - 1) l.prios, has-lookup new l.prios);
      spends = inl (weight-spend new prio l.prios e (ground arith));
    })
    | inr now ↦
        rw now
          (Spends-after l new _ (consider-Spends (record l { prios = remove new l.prios }) new))
  ]

  pub found-Spends :
      (got : Locs) (l : Loop) (new : ℕ)
      → SpendsOn l (turn_on cfg first_pass dests got it (l, found new))
  unfolding turn_on
  found-Spends got l new = elim (Bool-cases (has new got)) [
    | inl own ↦ rw own (consider-Spends l new)
    | inr other ↦ rw other (weigh-Spends l new (lookup new l.prios) refl)
  ]

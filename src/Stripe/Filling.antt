-- ===== src/Stripe/Filling.antt =====
-- stripe/stripe.go: what one round of the inner loop does, and what the loop then guarantees.
use scat.Prelude.{
  ℕ, zero, suc, ◌≤◌, min, ◌≡◌, refl, ap, ◌∙◌, subst, ◌⊎◌, inl, inr, Bool, true, false, Option, none,
  some, List, [], ◌∷◌, arith, ltb, Bool-cases, length,
}
use scat.Prelude.Dict.{lookup, insert, remove, has, Locs}
use scat.Stripe.RoundRobin.{next_item}
use scat.Stripe.{
  S, Config, Loop, Next, found, nothing, err_short, next_new, next_old, next, locs_of, Turn, again,
  stop, short_of, try_add, consider, weigh, turn_on, turn, done, fill, exclusives,
}

-- One destination more for an item, with enough exclusive items after it.
pub record Adds (cfg : Config) (dests : Locs) (it : ℕ) (s t : S) : Type 0 where
  pub new : ℕ
  pub fresh : has new (locs_of s it) ≡ false
  pub allowed : has new dests ≡ true
  pub written : t ≡ insert it (insert new tt (locs_of s it)) s
  pub enough : min cfg.excl (length s) ≤ exclusives t

module _ (cfg : Config) (first_pass : Bool) (dests : Locs) (it : ℕ) where
  -- A round leaves the result alone or adds to it; only the first pass breaks.
  abbrev pub Effect : S → Turn → Type 0
  Effect s short_of = Unit
  Effect s (again l) = (l.res ≡ s) ⊎ Adds cfg dests it s l.res
  Effect s (stop l) = (l.res ≡ s) × (first_pass ≡ true)

  try_add-Effect :
      (l : Loop) (new : ℕ)
      → has new (locs_of l.res it) ≡ false
      → has new dests ≡ true
      → Effect l.res (try_add cfg first_pass it l new)
  unfolding try_add
  try_add-Effect l new f a =
      let res = insert it (insert new tt (locs_of l.res it)) l.res in
      elim (Bool-cases (ltb (exclusives res) (min cfg.excl (length l.res)))) [
        | inl few ↦ elim (Bool-cases first_pass) [
          | inl p ↦ rw (few, p) (refl, refl)
          | inr p ↦ rw (few, p) (inl refl)
        ]
        | inr many ↦ rw many (
            inr
              (record { new = new; fresh = f; allowed = a; written = refl; enough = ground arith }))
      ]

  consider-Effect : (l : Loop) (new : ℕ) → Effect l.res (consider cfg first_pass dests it l new)
  unfolding consider
  consider-Effect l new = elim (Bool-cases (has new (locs_of l.res it))) [
    | inl there ↦ rw there (inl refl)
    | inr fresh ↦ elim (Bool-cases (has new dests)) [
      | inl dest ↦ rw (fresh, dest) (try_add-Effect l new fresh dest)
      | inr alien ↦ rw (fresh, alien) (inl refl)
    ]
  ]

  weigh-Effect :
      (l : Loop) (new : ℕ) (p : Option ℕ) → Effect l.res (weigh cfg first_pass dests it l new p)
  unfolding weigh
  weigh-Effect l new none = consider-Effect l new
  weigh-Effect l new (some prio) = elim (Bool-cases (ltb 0 prio)) [
    | inl wait ↦ rw wait (inl refl)
    | inr now ↦ rw now (consider-Effect (record l { prios = remove new l.prios }) new)
  ]

  turn_on-Effect :
      (got : Locs) (l : Loop) (n : Next) → Effect l.res (turn_on cfg first_pass dests got it (l, n))
  unfolding turn_on
  turn_on-Effect got l err_short = tt
  turn_on-Effect got l nothing = inl refl
  turn_on-Effect got l (found new) = elim (Bool-cases (has new got)) [
    | inl own ↦ rw own (consider-Effect l new)
    | inr other ↦ rw other (weigh-Effect l new (lookup new l.prios))
  ]

next_new-res : (l : Loop) (new : Option ℕ) → (next_new l new).0.res ≡ l.res
unfolding next_new
next_new-res l none = ground arith
next_new-res l (some new) = ground arith

next-res : (l : Loop) → (next l).0.res ≡ l.res
unfolding next
next-res l = go l.old
  where
    go : (old : List ℕ) → (next_old l old).0.res ≡ l.res
    go [] = next_new-res (record l { seq = (next_item l.seq).1 }) (next_item l.seq).0
    go (loc ∷ rest) = refl

pub turn-Effect :
    (cfg : Config) (first_pass : Bool) (dests got : Locs) (it : ℕ) (l : Loop)
    → Effect cfg first_pass dests it l.res (turn cfg first_pass dests got it l)
unfolding turn
turn-Effect cfg first_pass dests got it l =
    subst (λ s. Effect cfg first_pass dests it s (turn_on cfg first_pass dests got it (next l)))
      (next-res l) (turn_on-Effect cfg first_pass dests it got (next l).0 (next l).1)

-- What `fill` did to the result, from a round's effect to the whole loop: a chain of additions.
pub data Filled (cfg : Config) (dests : Locs) (it : ℕ) : S → S → Type 0 where
  same : {s t : S} → t ≡ s → Filled cfg dests it s t
  more : {s t u : S} → Adds cfg dests it s t → Filled cfg dests it t u → Filled cfg dests it s u

pub record Fills (cfg : Config) (first_pass : Bool) (dests : Locs) (it : ℕ) (s t : S) : Type 0 where
  pub chain : Filled cfg dests it s t
  pub full : first_pass ≡ false → cfg.min_copies ≤ length (locs_of t it)

pub Turn-cases :
    (t : Turn) → (t ≡ short_of) ⊎ ((l : Loop) × (t ≡ again l)) ⊎ ((l : Loop) × (t ≡ stop l))
Turn-cases short_of = inl refl
Turn-cases (again l) = inr (inl (l, refl))
Turn-cases (stop l) = inr (inr (l, refl))

pub fill-Fills :
    (fuel : ℕ) (cfg : Config) (first_pass : Bool) (dests got : Locs) (it : ℕ) (l m : Loop)
    → fill fuel cfg first_pass dests got it l ≡ done m
    → Fills cfg first_pass dests it l.res m.res
unfolding fill
fill-Fills zero cfg first_pass dests got it l m e = absurd (ground arith)
fill-Fills (suc fuel) cfg first_pass dests got it l m e =
    let effect = turn-Effect cfg first_pass dests got it l in
    elim (Bool-cases (ltb (length (locs_of l.res it)) cfg.min_copies)) [
      | inr enough ↦
          let ended : m ≡ l = ground arith in
          record {
            chain = same (ap (λ (l : Loop). l.res) ended);
            full = λ _. rw ended (ground arith);
          }
      | inl few ↦ elim (Turn-cases (turn cfg first_pass dests got it l)) [
        | inl short ↦ absurd (ground arith)
        | inr (inr (l', broke)) ↦
            let ended : m ≡ l' = ground arith in
            let kept = rw broke at effect in
            record {
              chain = same (ap (λ (l : Loop). l.res) ended ∙ kept.0);
              full = λ later. absurd (ground (arith, kept.1));
            }
        | inr (inl (l', went)) ↦
            let rest = fill-Fills fuel cfg first_pass dests got it l' m (ground arith) in
            elim (rw went at effect) [
              | inl kept ↦ rw (← kept) rest
              | inr adds ↦ record { chain = more adds rest.chain; full = rest.full }
            ]
      ]
    ]

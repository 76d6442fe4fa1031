-- ===== src/Stripe/Passes.antt =====
-- stripe/stripe.go: what the two passes over the items keep and reach.
use scat.Prelude.{
  ℕ, suc, ◌≤◌, ◌≡◌, refl, ◌⊎◌, inl, inr, Bool, true, false, some, [], ◌∷◌, arith, ◌==◌,
  if◌then◌else◌, Bool-cases, Option-cases, length,
}
use scat.Prelude.Dict.{
  Dict, lookup, insert, has, lookup-insert, IsUnique, insert-IsUnique, lookup-none_of_has,
  has-insert, Locs,
}
use scat.Stripe.{S, Config, Loop, locs_of, Outcome, done, failed, out_of_fuel, fill, begin, pass}
use scat.Stripe.Filling.{Adds, Filled, same, more, Fills, fill-Fills}

-- Every location that an item was given is a destination, and stands once.
abbrev pub InDests : Locs → S → Type 0
InDests dests s =
    (j : ℕ) (ls : Locs)
    → lookup j s ≡ some ls
    → IsUnique ls × ((l : ℕ) → has l ls ≡ true → has l dests ≡ true)

-- No item and no location is lost.
pub record Grows (s t : S) : Type 0 where
  pub items_kept : (j : ℕ) → has j s ≡ true → has j t ≡ true
  pub locs_kept : (j : ℕ) → length (locs_of s j) ≤ length (locs_of t j)

Grows-refl : (s : S) → Grows s s
Grows-refl s = record { items_kept = λ j h. h; locs_kept = λ j. omega arith }

Grows-trans : {s t u : S} → Grows s t → Grows t u → Grows s u
Grows-trans {s} {t} {u} a b = record {
  items_kept = λ j h. b.items_kept j (a.items_kept j h);
  locs_kept = λ j. omega (arith, a.locs_kept j, b.locs_kept j);
}

pub length-insert_new :
    {V : Type 0} (k : ℕ) (v : V) (m : Dict V)
    → length (insert k v m) ≡ (if has k m then length m else suc (length m))
unfolding insert has
length-insert_new k v [] = refl
length-insert_new k v ((j, w) ∷ m) = ground (arith, length-insert_new k v m)

pub locs_of-insert :
    (k j : ℕ) (ls : Locs) (s : S) → locs_of (insert k ls s) j ≡ (if k == j then ls else locs_of s j)
locs_of-insert k j ls s = ground (arith, lookup-insert k j ls s)

pub locs_of-InDests :
    (dests : Locs) (s : S) (j : ℕ)
    → InDests dests s
    → IsUnique (locs_of s j) × ((l : ℕ) → has l (locs_of s j) ≡ true → has l dests ≡ true)
unfolding has
locs_of-InDests dests s j d = elim (Option-cases (lookup j s)) [
  | inl e ↦
      let empty : locs_of s j ≡ [] = rw (e, locs_of) in rw empty (tt, λ l h. absurd (ground arith))
  | inr (ls, e) ↦ let own : locs_of s j ≡ ls = rw (e, locs_of) in rw own (d j ls e)
]

InDests-insert :
    (dests : Locs) (it : ℕ) (ls : Locs) (s : S)
    → InDests dests s
    → IsUnique ls × ((l : ℕ) → has l ls ≡ true → has l dests ≡ true)
    → InDests dests (insert it ls s)
InDests-insert dests it ls s d new j ks e = elim (Bool-cases (it == j)) [
  | inl own ↦ let written : ks ≡ ls = ground (arith, lookup-insert it j ls s) in rw written new
  | inr other ↦ d j ks (ground (arith, lookup-insert it j ls s))
]

module _ (cfg : Config) (dests : Locs) (it : ℕ) where
  Adds-InDests : (s t : S) → Adds cfg dests it s t → InDests dests s → InDests dests t
  Adds-InDests s t a d =
      let old = locs_of-InDests dests s it d in
      rw a.written (
        InDests-insert dests it _ s d (
          insert-IsUnique a.new tt (locs_of s it) old.0,
          λ l h. ground (arith, has-insert a.new l tt (locs_of s it), old.1 l, a.allowed),
        ))

  Adds-Grows : (s t : S) → Adds cfg dests it s t → Grows s t
  Adds-Grows s t a = rw a.written (record {
    items_kept = λ j h. ground (arith, has-insert it j (insert a.new tt (locs_of s it)) s);
    locs_kept = λ j. ground (
      arith,
      locs_of-insert it j (insert a.new tt (locs_of s it)) s,
      length-insert_new a.new tt (locs_of s it),
    );
  })

  pub Filled-InDests : {s t : S} → Filled cfg dests it s t → InDests dests s → InDests dests t
  Filled-InDests (same e) d = rw e d
  Filled-InDests (more {s = s} {t = t} a f) d = Filled-InDests f (Adds-InDests s t a d)

  pub Filled-Grows : {s t : S} → Filled cfg dests it s t → Grows s t
  Filled-Grows (same {s = s} e) = rw e (Grows-refl s)
  Filled-Grows (more {s = s} {t = t} a f) = Grows-trans (Adds-Grows s t a) (Filled-Grows f)

begin-InDests :
    (dests got : Locs) (it : ℕ) (l : Loop)
    → InDests dests l.res
    → InDests dests (begin got it l).res
unfolding begin has
begin-InDests dests got it l d = elim (Bool-cases (has it l.res)) [
  | inl there ↦ rw there d
  | inr absent ↦ rw absent (InDests-insert dests it [] l.res d (tt, λ k h. absurd (ground arith)))
]

pub begin-Grows :
    (got : Locs) (it : ℕ) (l : Loop)
    → Grows l.res (begin got it l).res × (has it (begin got it l).res ≡ true)
unfolding begin
begin-Grows got it l = elim (Bool-cases (has it l.res)) [
  | inl there ↦ rw there (Grows-refl l.res, there)
  | inr absent ↦ rw absent (
    record {
      items_kept = λ j h. ground (arith, has-insert it j [] l.res);
      locs_kept =
          λ j. ground (arith, locs_of-insert it j [] l.res, lookup-none_of_has it l.res absent);
    },
    ground (arith, has-insert it it [] l.res),
  )
]

pub Outcome-cases :
    {A : Type 0} (o : Outcome A) → (o ≡ failed) ⊎ (o ≡ out_of_fuel) ⊎ ((a : A) × (o ≡ done a))
Outcome-cases (done a) = inr (inr (a, refl))
Outcome-cases failed = inl refl
Outcome-cases out_of_fuel = inr (inl refl)

-- A pass that ends splits into the work on the first item and the pass over the others.
pub pass-cons :
    (fuel : ℕ) (cfg : Config) (first_pass : Bool) (dests got : Locs) (it : ℕ) (items : S)
    (l m : Loop)
    → pass fuel cfg first_pass dests ((it, got) ∷ items) l ≡ done m
    → (k : Loop) × Fills cfg first_pass dests it (begin got it l).res k.res
      × (pass fuel cfg first_pass dests items k ≡ done m)
unfolding pass
pass-cons fuel cfg first_pass dests got it items l m e =
    elim (Outcome-cases (fill fuel cfg first_pass dests got it (begin got it l))) [
      | inl short ↦ absurd (ground arith)
      | inr (inl out) ↦ absurd (ground arith)
      | inr (inr (k, filled)) ↦
          (k, fill-Fills fuel cfg first_pass dests got it (begin got it l) k filled, ground arith)
    ]

-- What a pass has reached when it ends.
pub record Passed (cfg : Config) (first_pass : Bool) (dests : Locs) (items s t : S) : Type 0 where
  pub in_dests : InDests dests s → InDests dests t
  pub grows : Grows s t
  pub all_there : (it : ℕ) → has it items ≡ true → has it t ≡ true
  pub all_full :
      (it : ℕ) → has it items ≡ true → first_pass ≡ false → cfg.min_copies ≤ length (locs_of t it)

pub pass-Passed :
    (fuel : ℕ) (cfg : Config) (first_pass : Bool) (dests : Locs) (items : S) (l m : Loop)
    → pass fuel cfg first_pass dests items l ≡ done m
    → Passed cfg first_pass dests items l.res m.res
unfolding pass has
pass-Passed fuel cfg first_pass dests [] l m e =
    let ended : m.res ≡ l.res = ground arith in
    rw ended (record {
      in_dests = λ d. d;
      grows = Grows-refl l.res;
      all_there = λ it h. absurd (ground arith);
      all_full = λ it h later. absurd (ground arith);
    })
pass-Passed fuel cfg first_pass dests ((it, got) ∷ items) l m e =
    let (k, filled, rest) = pass-cons fuel cfg first_pass dests got it items l m e in
    let others = pass-Passed fuel cfg first_pass dests items k m rest in
    let (begun, there) = begin-Grows got it l in
    let grown = Filled-Grows cfg dests it filled.chain in
    record {
      in_dests = λ d.
          others.in_dests
            (Filled-InDests cfg dests it filled.chain (begin-InDests dests got it l d));
      grows = Grows-trans begun (Grows-trans grown others.grows);
      all_there = λ j h.
          ground (arith, others.all_there j, others.grows.items_kept it, grown.items_kept it there);
      all_full = λ j h later.
          ground (arith, others.all_full j, others.grows.locs_kept it, filled.full later);
    }

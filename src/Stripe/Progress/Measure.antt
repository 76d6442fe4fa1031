-- ===== src/Stripe/Progress/Measure.antt =====
-- stripe/stripe.go: the measure that every round of the inner loop brings down.
use scat.Prelude.{
  ℕ, suc, ◌+◌, ◌≤◌, ◌<◌, ◌≡◌, refl, sym, ap, ◌∙◌, subst, ◌⊎◌, inl, inr, Bool, true, false, not,
  ◌||◌, some, List, [], ◌∷◌, ◌++◌, arith, ltb, ◌==◌, if◌then◌else◌, ==_iff, Bool-cases, length,
  length-append,
}
use scat.Prelude.Dict.{Dict, insert, remove, has, elem, has-insert, has-remove, Locs}
use scat.Stripe.RoundRobin.{Rr, next_item}
use scat.Stripe.RoundRobin.Rotation.{queue, IsLive, next_item-Turns}
use scat.Stripe.{Config, Loop, next_new, next_old, next, Turn, again, stop, short_of, turn_on, turn}
use scat.Stripe.Progress.{
  weight, weight-remove, weight-remove_lt, remove-absent, Spends, SpendsOn, found-Spends,
}

-- How many of the items were not seen.
abbrev pub unseen : Locs → List ℕ → ℕ
unseen s [] = 0
unseen s (x ∷ xs) = (if has x s then 0 else 1) + unseen s xs

-- How far the first item is that passes the test.
abbrev pub position : (ℕ → Bool) → List ℕ → ℕ
position p [] = 0
position p (x ∷ xs) = if p x then 0 else suc (position p xs)

elem-snoc : (k x : ℕ) (xs : List ℕ) → elem k (xs ++ x ∷ []) ≡ (if x == k then true else elem k xs)
unfolding elem
elem-snoc k x [] = refl
elem-snoc k x (y ∷ xs) = ground (arith, elem-snoc k x xs)

unseen-snoc : (s : Locs) (x : ℕ) (xs : List ℕ) → unseen s (xs ++ x ∷ []) ≡ unseen s (x ∷ xs)
unseen-snoc s x [] = refl
unseen-snoc s x (y ∷ xs) = omega (arith, unseen-snoc s x xs)

unseen-insert : (s : Locs) (x : ℕ) (xs : List ℕ) → unseen (insert x tt s) xs ≤ unseen s xs
unseen-insert s x [] = omega arith
unseen-insert s x (y ∷ xs) = ground (arith, unseen-insert s x xs, has-insert x y tt s)

pub unseen-le : (s : Locs) (xs : List ℕ) → unseen s xs ≤ length xs
unseen-le s [] = omega arith
unseen-le s (x ∷ xs) = ground (arith, unseen-le s xs)

pub position-le : (p : ℕ → Bool) (xs : List ℕ) → position p xs ≤ length xs
position-le p [] = omega arith
position-le p (x ∷ xs) = ground (arith, position-le p xs)

position-snoc :
    (p : ℕ → Bool) (k x : ℕ) (xs : List ℕ)
    → elem k xs ≡ true
    → p k ≡ true
    → position p (xs ++ x ∷ []) ≡ position p xs
unfolding elem
position-snoc p k x [] e h = absurd (ground arith)
position-snoc p k x (y ∷ xs) e h = elim (Bool-cases (p y)) [
  | inl here ↦ rw here refl
  | inr later ↦
      let other : elem k xs ≡ true = elim (Bool-cases (y == k)) [
        | inl own ↦ let same : y ≡ k = (==_iff y k).0 own in absurd (ground (arith, ap p same))
        | inr ne ↦ ground arith
      ] in
      rw later (ap suc (position-snoc p k x xs other h))
]

has_some : {V : Type 0} (m : Dict V) → 0 < length m → (k : ℕ) × (has k m ≡ true)
unfolding has
has_some [] h = absurd (omega arith)
has_some ((k, v) ∷ m) h = (k, ground arith)

abbrev pub wanted : Loop → ℕ → Bool
wanted l x = not (has x l.seen) || has x l.prios

abbrev pub budget : Loop → ℕ
budget l = length l.old + weight l.prios

-- The sequence stands at an item, and brings every location with a priority.
pub record Live (l : Loop) : Type 0 where
  pub live : IsLive l.seq
  pub comes : (k : ℕ) → has k l.prios ≡ true → elem k (queue l.seq) ≡ true

pub record Progress (l m : Loop) : Type 0 where
  pub live : Live m
  pub sized : length (queue m.seq) ≡ length (queue l.seq)
  pub lower : weight m.prios ≤ weight l.prios
  pub less :
      (budget m < budget l)
      ⊎ ((budget m ≤ budget l) × (unseen m.seen (queue m.seq) < unseen l.seen (queue l.seq)))
      ⊎ ((budget m ≤ budget l)
          × (unseen m.seen (queue m.seq) ≤ unseen l.seen (queue l.seq))
          × (position (wanted m) (queue m.seq) < position (wanted l) (queue l.seq)))

abbrev pub ProgressOn : Loop → Turn → Type 0
ProgressOn l short_of = Unit
ProgressOn l (again m) = Progress l m
ProgressOn l (stop m) = Progress l m

-- An old location is used up.
old-Progress :
    (l m : Loop) (x : ℕ) (rest : List ℕ)
    → Live l
    → l.old ≡ x ∷ rest
    → Spends (record l { old = rest }) m
    → Progress l m
old-Progress l m x rest v o s = record {
  live = record {
    live = rw s.same_seq v.live;
    comes = λ k h. rw s.same_seq (v.comes k (s.keys_in k h));
  };
  sized = rw s.same_seq refl;
  lower = ground (arith, s.spends);
  less = inl (ground (arith, s.spends, s.same_old));
}

module _ (l : Loop) (seq : Rr) (x : ℕ) (rest : List ℕ) where
  -- The queue has turned by one item.
  abbrev Turned : Type 0
  Turned = IsLive seq × (queue l.seq ≡ x ∷ rest) × (queue seq ≡ rest ++ x ∷ [])

  turned-elem : Turned → (k : ℕ) → elem k (queue l.seq) ≡ true → elem k (queue seq) ≡ true
  unfolding elem
  turned-elem t k h =
      let was : elem k (x ∷ rest) ≡ true = subst (λ q. elem k q ≡ true) t.1 h in
      subst (λ q. elem k q ≡ true) (sym t.2) (ground (arith, elem-snoc k x rest))

  turned-length : Turned → length (queue seq) ≡ length (queue l.seq)
  turned-length t = omega (arith, ap length t.1, ap length t.2, length-append rest (x ∷ []))

  turned-unseen : Turned → (s : Locs) → unseen s (queue seq) ≡ unseen s (queue l.seq)
  turned-unseen t s = ap (unseen s) t.2 ∙ unseen-snoc s x rest ∙ ap (unseen s) (sym t.1)

  seen-less :
      Turned
      → has x l.seen ≡ true
      → has x l.prios ≡ false
      → 0 < length l.prios
      → Live l
      → position (wanted l) (queue seq) < position (wanted l) (queue l.seq)
  unfolding elem
  seen-less t s p some_left v =
      let (k, h) = has_some l.prios some_left in
      let came : elem k (x ∷ rest) ≡ true = subst (λ q. elem k q ≡ true) t.1 (v.comes k h) in
      let passed : (x == k) ≡ false = elim (Bool-cases (x == k)) [
        | inl own ↦
            let same : x ≡ k = (==_iff x k).0 own in
            absurd (ground (arith, ap (λ y. has y l.prios) same))
        | inr ne ↦ ne
      ] in
      let ahead : elem k rest ≡ true = ground arith in
      let stays = position-snoc (wanted l) k x rest ahead (ground arith) in
      rw (t.1, t.2) (ground (arith, stays))

  seen-Progress :
      Turned
      → Live l
      → l.old ≡ []
      → has x l.seen ≡ true
      → 0 < length (remove x l.prios)
      → Progress l (record l { seq = seq; prios = remove x l.prios })
  seen-Progress t v o s some_left = record {
    live = record {
      live = t.0;
      comes = λ k h. turned-elem t k (v.comes k (ground (arith, has-remove x k l.prios)));
    };
    sized = turned-length t;
    lower = weight-remove x l.prios;
    less = elim (Bool-cases (has x l.prios)) [
      | inl there ↦ inl (ground (arith, weight-remove_lt x l.prios))
      | inr absent ↦
          let kept = remove-absent x l.prios absent in
          inr (
            inr (
              omega (arith, weight-remove x l.prios),
              omega (arith, turned-unseen t l.seen),
              rw kept (seen-less t s absent (rw kept at some_left) v),
            ))
    ];
  }

  unseen-Progress :
      (m : Loop)
      → Turned
      → Live l
      → l.old ≡ []
      → has x l.seen ≡ false
      → Spends (record l { seq = seq; seen = insert x tt l.seen }) m
      → Progress l m
  unseen-Progress m t v o s spent = record {
    live = record {
      live = rw spent.same_seq t.0;
      comes = λ k h. rw spent.same_seq (turned-elem t k (v.comes k (spent.keys_in k h)));
    };
    sized = rw spent.same_seq (turned-length t);
    lower = ground (arith, spent.spends);
    less = elim spent.spends [
      | inl fewer ↦ inl (ground (arith, spent.same_old))
      | inr (kept, seen) ↦ inr (
          inl (
            ground (arith, spent.same_old),
            rw (seen, spent.same_seq)
                (rw (t.1, t.2)
                  (ground (
                    arith,
                    unseen-snoc (insert x tt l.seen) x rest,
                    unseen-insert l.seen x rest,
                    has-insert x x tt l.seen,
                  ))),
          ))
    ];
  }

ProgressOn-Spends :
    (l k : Loop)
    → ((m : Loop) → Spends k m → Progress l m)
    → (t : Turn) → SpendsOn k t
    → ProgressOn l t
ProgressOn-Spends l k f short_of s = tt
ProgressOn-Spends l k f (again m) s = f m s
ProgressOn-Spends l k f (stop m) s = f m s

next_new-Progress :
    (cfg : Config) (first_pass : Bool) (dests got : Locs) (it : ℕ) (l : Loop) (seq : Rr) (x : ℕ)
    (rest : List ℕ)
    → Turned l seq x rest
    → Live l
    → l.old ≡ []
    → ProgressOn l
        (turn_on cfg first_pass dests got it (next_new (record l { seq = seq }) (some x)))
unfolding next_new turn_on
next_new-Progress cfg first_pass dests got it l seq x rest t v o =
    elim (Bool-cases (has x l.seen)) [
      | inl s ↦ elim (Bool-cases (ltb 0 (length (remove x l.prios)))) [
        | inl left ↦ rw (s, left) (seen-Progress l seq x rest t v o s (ground arith))
        | inr over ↦ rw (s, over) tt
      ]
      | inr s ↦
          let k : Loop = record l { seq = seq; seen = insert x tt l.seen } in
          rw s (
            ProgressOn-Spends l k (λ m. unseen-Progress l seq x rest m t v o s) _
              (found-Spends cfg first_pass dests it got k x))
    ]

next_old-Progress :
    (cfg : Config) (first_pass : Bool) (dests got : Locs) (it : ℕ) (l : Loop) (old : List ℕ)
    → Live l
    → l.old ≡ old
    → ProgressOn l (turn_on cfg first_pass dests got it (next_old l old))
unfolding next_old
next_old-Progress cfg first_pass dests got it l (x ∷ rest) v o =
    let k : Loop = record l { old = rest } in
    ProgressOn-Spends l k (λ m. old-Progress l m x rest v o) _
      (found-Spends cfg first_pass dests it got k x)
next_old-Progress cfg first_pass dests got it l [] v o =
    let (x, rest, turns) = next_item-Turns l.seq v.live in
    rw turns.given (
      next_new-Progress cfg first_pass dests got it l (next_item l.seq).1 x rest
        (turns.live, turns.was, turns.rotated) v o)

-- A round that does not end the loop with the error uses something up: an old location or a
-- priority, else an item not seen, else the way to the next item that is wanted.
pub turn-Progress :
    (cfg : Config) (first_pass : Bool) (dests got : Locs) (it : ℕ) (l : Loop)
    → Live l
    → ProgressOn l (turn cfg first_pass dests got it l)
unfolding turn next
turn-Progress cfg first_pass dests got it l v =
    next_old-Progress cfg first_pass dests got it l l.old v refl

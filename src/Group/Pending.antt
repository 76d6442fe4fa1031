-- ===== src/Group/Pending.antt =====
-- What `group` of procs/group.go keeps between chunks, and what it lets through.
use mathlib.Core.List.{Perm}
use native.Mathlib.Nat.{div-add-mod, mod-lt}
use scat.Prelude.{
  ℕ, suc, ◌+◌, ◌*◌, ◌/◌, ◌≤◌, ◌<◌, ◌≡◌, refl, ◌∙◌, subst, ◌⊎◌, inl, inr, true, none, some, List, [],
  ◌∷◌, ◌++◌, arith, ◌==◌, ==_iff, Bool-cases, Option-cases, length, length-append, All, All-append,
}
use scat.Prelude.Dict.{lookup, insert, remove, lookup-insert, lookup-remove}
use scat.Prelude.Sorting.{sort_by, sort_by-perm, length-sort_by, All-sort_by}
use scat.Chunk.{Chunk, num}
use scat.Group.{Group, grouped, contiguous, build, pending}

-- A pending group is not empty, is short of the size, and holds chunks of its own numbers only.
abbrev pub IsPending : ℕ → ℕ → List Chunk → Type 0
IsPending size head cs = (0 < length cs) × (length cs < size) × All (λ c. num c / size ≡ head) cs

pub record IsValid (g : Group) : Type 0 where
  pub positive : 0 < g.size
  pub pending_all :
      (head : ℕ) (cs : List Chunk) → lookup head g.growing ≡ some cs → IsPending g.size head cs

-- The chunks carry the numbers from `n` on, in order.
abbrev pub IsRun : ℕ → List Chunk → Type 0
IsRun n [] = Unit
IsRun n (c ∷ cs) = (num c ≡ n) × IsRun (suc n) cs

contiguous-IsRun :
    (c : Chunk) (cs : List Chunk) → contiguous (c ∷ cs) ≡ true → IsRun (num c) (c ∷ cs)
unfolding contiguous
contiguous-IsRun c [] h = (refl, tt)
contiguous-IsRun c (d ∷ cs) h =
    let next : num d ≡ suc (num c) = ground arith in
    (refl, subst (λ n. IsRun n (d ∷ cs)) next (contiguous-IsRun d cs (ground arith)))

IsRun-bound :
    (n b : ℕ) (c : Chunk) (cs : List Chunk)
    → IsRun n (c ∷ cs)
    → All (λ d. num d < b) (c ∷ cs)
    → n + length cs < b
IsRun-bound n b c [] r a = omega arith
IsRun-bound n b c (d ∷ cs) r a = omega (arith, IsRun-bound (suc n) b d cs r.1 a.1)

All-map {ℓ} :
    {A : Type ℓ} {P Q : A → Type 0} (f : (a : A) → P a → Q a) (xs : List A) → All P xs → All Q xs
All-map f [] ps = tt
All-map f (x ∷ xs) ps = (f x ps.0, All-map f xs ps.1)

div_bounds :
    (n size head : ℕ) → 0 < size → n / size ≡ head → (head * size ≤ n) × (n < head * size + size)
div_bounds n size head h e = grind (arith, div-add-mod n size, mod-lt n h)

-- A full run of `size` numbers that share their group's number is that group's whole range.
IsRun-aligned :
    (size head : ℕ) (cs : List Chunk)
    → 0 < size
    → length cs ≡ size
    → contiguous cs ≡ true
    → All (λ c. num c / size ≡ head) cs
    → IsRun (head * size) cs
IsRun-aligned size head [] h l r a = tt
IsRun-aligned size head (c ∷ cs) h l r a =
    let run = contiguous-IsRun c cs r in
    let low = (div_bounds (num c) size head h a.0).0 in
    let high : num c + length cs < head * size + size =
      IsRun-bound (num c) _ c cs run
        (All-map (λ d e. (div_bounds (num d) size head h e).1) (c ∷ cs) a) in
    subst (λ n. IsRun n (c ∷ cs)) (omega arith) run

pending_with :
    (g : Group) (c : Chunk)
    → IsValid g
    → (length (pending g (num c / g.size) ++ c ∷ []) ≤ g.size)
      × All (λ d. num d / g.size ≡ num c / g.size) (pending g (num c / g.size) ++ c ∷ [])
pending_with g c v = elim (Option-cases (lookup (num c / g.size) g.growing)) [
  | inl e ↦
      let unseen : pending g (num c / g.size) ≡ [] = rw (e, pending) in
      rw unseen (v.positive, (refl, tt))
  | inr (cs, e) ↦
      let p = v.pending_all _ cs e in
      let held : pending g (num c / g.size) ≡ cs = rw (e, pending) in
      rw held
        (omega (arith, length-append cs (c ∷ []), p.1), All-append _ cs (c ∷ []) p.2 (refl, tt))
]

-- What `build` leaves pending: the chunk joins its group, or the group goes.
build-growing :
    (g : Group) (c : Chunk)
    → (((build g c).0.growing
          ≡ insert (num c / g.size) (pending g (num c / g.size) ++ c ∷ []) g.growing)
        × (length (pending g (num c / g.size) ++ c ∷ []) < g.size))
      ⊎ ((build g c).0.growing ≡ remove (num c / g.size) g.growing)
unfolding build
build-growing g c = ground arith

build-size : (g : Group) (c : Chunk) → (build g c).0.size ≡ g.size
unfolding build
build-size g c = ground arith

IsPending-after :
    (g : Group) (c : Chunk)
    → IsValid g
    → (head : ℕ) (cs : List Chunk) → lookup head (build g c).0.growing ≡ some cs
    → IsPending g.size head cs
IsPending-after g c v head cs e = elim (build-growing g c) [
  | inl (joined, room) ↦ elim (Bool-cases (num c / g.size == head)) [
    | inl own ↦
        let same : num c / g.size ≡ head = (==_iff _ head).0 own in
        let all : cs ≡ pending g (num c / g.size) ++ c ∷ [] = ground (
          arith,
          lookup-insert (num c / g.size) head (pending g (num c / g.size) ++ c ∷ []) g.growing,
        ) in
        rw (all, ← same)
          (
            omega (arith, length-append (pending g (num c / g.size)) (c ∷ [])),
            room,
            (pending_with g c v).1,
          )
    | inr other ↦ v.pending_all head cs (
        ground (
          arith,
          lookup-insert (num c / g.size) head (pending g (num c / g.size) ++ c ∷ []) g.growing,
        ))
  ]
  | inr gone ↦ v.pending_all head cs (ground (arith, lookup-remove (num c / g.size) head g.growing))
]

-- The invariant of `group`: every chunk keeps it, whatever its number.
pub build-IsValid : (g : Group) (c : Chunk) → IsValid g → IsValid (build g c).0
build-IsValid g c v = record {
  positive = omega (arith, v.positive, build-size g c);
  pending_all = λ head cs e. rw (build-size g c) (IsPending-after g c v head cs e);
}

record Completes (g : Group) (c : Chunk) (head : ℕ) (cs : List Chunk) : Type 0 where
  own : head ≡ num c / g.size
  sorted : cs ≡ sort_by num (pending g (num c / g.size) ++ c ∷ [])
  full : length (pending g (num c / g.size) ++ c ∷ []) ≡ g.size
  in_order : contiguous (sort_by num (pending g (num c / g.size) ++ c ∷ [])) ≡ true
  removed : (build g c).0.growing ≡ remove (num c / g.size) g.growing

build-Completes :
    (g : Group) (c : Chunk) (head : ℕ) (cs : List Chunk)
    → (build g c).1 ≡ grouped head cs
    → Completes g c head cs
unfolding build
build-Completes g c head cs e = ground arith

-- A group that comes out is complete: it has `size` chunks with the numbers from `head * size`
-- on, in order, and they are the chunks that waited under its number and the one that came last.
pub build-grouped :
    (g : Group) (c : Chunk) {head : ℕ} {cs : List Chunk}
    → IsValid g
    → (build g c).1 ≡ grouped head cs
    → (head ≡ num c / g.size)
      × (length cs ≡ g.size)
      × IsRun (head * g.size) cs
      × Perm cs (pending g head ++ c ∷ [])
      × (lookup head (build g c).0.growing ≡ none)
build-grouped g c {head} {cs} v e =
    let d = build-Completes g c head cs e in
    let chunks = pending g (num c / g.size) ++ c ∷ [] in
    let long : length cs ≡ g.size = rw d.sorted (length-sort_by num chunks ∙ d.full) in
    rw d.own (
      refl,
      long,
      IsRun-aligned g.size _ cs v.positive long (rw d.sorted d.in_order)
          (rw d.sorted (All-sort_by num _ chunks (pending_with g c v).1)),
      rw d.sorted (sort_by-perm num chunks),
      rw d.removed (ground (arith, lookup-remove (num c / g.size) (num c / g.size) g.growing)),
    )

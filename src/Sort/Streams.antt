-- ===== src/Sort/Streams.antt =====
-- Streams of chunks with numbers from zero on, in any order, through `Sort`.
use scat.Prelude.{
  ℕ, zero, suc, ◌+◌, ◌-◌, ◌≤◌, ◌<◌, ◌≡◌, refl, sym, ap, ◌∙◌, subst, ◌≢◌, ◌↔◌, inl, inr, Option,
  none, some, List, [], ◌∷◌, ◌++◌, arith, ltb, ◌==◌, if◌then◌else◌, Option-cases, pos, length,
  get_elem?, set, drop, replicate, length-append, length-replicate, length-drop,
}
use scat.Chunk.{Chunk, num}
use scat.Series.{Series, add, sorted, drop_first, grow, empty_series, len, clamp}
use scat.Series.Cells.{cell, cell-set, cell-grow, cell-drop, length-grow}
use scat.Sort.{process, run, finish}
use scat.Sort.Order.{run-log, Inv, received, Distinct, run-total, run-received}

-- The same chunks, each put anywhere among those that follow it.
pub data Shuffled : List Chunk → List Chunk → Type 0 where
  no_chunks : Shuffled [] []
  put :
      (c : Chunk) (ds before after : List Chunk)
      → Shuffled ds (before ++ after)
      → Shuffled (c ∷ ds) (before ++ c ∷ after)

received-append :
    (xs ys : List Chunk) (j : ℕ)
    → received (xs ++ ys) j ≡ elim (received ys j) [ some d ↦ some d | none ↦ received xs j ]
received-append [] ys j = ground arith
received-append (x ∷ xs) ys j = ground (arith, received-append xs ys j)

received-put :
    (c : Chunk) (before after : List Chunk) (j : ℕ)
    → received (before ++ after) (num c) ≡ none
    → received (before ++ c ∷ after) j
      ≡ (if num c == j then some c else received (before ++ after) j)
received-put c before after j new = ground (
  arith,
  received-append before (c ∷ after) j,
  received-append before after j,
  received-append before after (num c),
)

put-Distinct :
    (c : Chunk) (before after : List Chunk)
    → received (before ++ after) (num c) ≡ none
    → Distinct (before ++ after)
    → Distinct (before ++ c ∷ after)
put-Distinct c [] after new d = (new, d)
put-Distinct c (b ∷ before) after new d =
    let fresh : received (before ++ after) (num c) ≡ none = ground arith in
    (
      ground (arith, received-put c before after (num b) fresh),
      put-Distinct c before after fresh d.1,
    )

Shuffled-received :
    (ds cs : List Chunk)
    → Shuffled ds cs
    → Distinct ds
    → Distinct cs × ((j : ℕ) → received cs j ≡ received ds j)
Shuffled-received _ _ no_chunks d = (tt, λ j. refl)
Shuffled-received _ _ (put c ds before after s) d =
    let (e, same) = Shuffled-received ds (before ++ after) s d.1 in
    let new = same (num c) ∙ d.0 in
    (
      put-Distinct c before after new e,
      λ j. ground (arith, received-put c before after j new, same j, d.0),
    )

-- The chunk at each position has that position as its number, counted from `n` on.
abbrev pub Counted : ℕ → List Chunk → Type 0
Counted n [] = Unit
Counted n (c ∷ cs) = (num c ≡ n) × Counted (suc n) cs

received-Counted :
    (n : ℕ) (cs : List Chunk) (j : ℕ)
    → Counted n cs
    → received cs j ≡ (if ltb j n then none else get_elem? cs (j - n))
received-Counted n [] j c = ground arith
received-Counted n (c ∷ cs) j h = ground (arith, h.0, received-Counted (suc n) cs j h.1)

Counted-Distinct : (n : ℕ) (cs : List Chunk) → Counted n cs → Distinct cs
Counted-Distinct n [] h = tt
Counted-Distinct n (c ∷ cs) h =
    (ground (arith, received-Counted (suc n) cs (num c) h.1), Counted-Distinct (suc n) cs h.1)

-- Lists with the same elements at the same positions.
get_elem?-ext :
    {A : Type 0} (xs ys : List A) → ((j : ℕ) → get_elem? xs j ≡ get_elem? ys j) → xs ≡ ys
get_elem?-ext [] [] h = refl
get_elem?-ext [] (y ∷ ys) h = absurd (ground (arith, h 0))
get_elem?-ext (x ∷ xs) [] h = absurd (ground (arith, h 0))
get_elem?-ext (x ∷ xs) (y ∷ ys) h =
    let first : x ≡ y = ground (arith, h 0) in let rest = get_elem?-ext xs ys (λ j. h (suc j)) in cc

get_elem?-none : {A : Type 0} (xs : List A) (j : ℕ) → (get_elem? xs j ≡ none) ↔ (length xs ≤ j)
get_elem?-none [] j = (λ e. omega arith, λ h. refl)
get_elem?-none (x ∷ xs) zero = (λ e. absurd (ground arith), λ h. absurd (omega arith))
get_elem?-none (x ∷ xs) (suc j) =
    let ih = get_elem?-none xs j in (λ e. omega (arith, ih.0 e), λ h. ih.1 (omega arith))

-- The last cell that a series has is set.
abbrev IsTight : Series Chunk → Type 0
IsTight s = 0 < length s.values → cell s.values (length s.values - 1) ≢ none

length-set : (vs : List (Option Chunk)) (i : ℕ) (v : Option Chunk) → length (set vs i v) ≡ length vs
length-set [] i v = refl
length-set (x ∷ vs) zero v = refl
length-set (x ∷ vs) (suc i) v = ap suc (length-set vs i v)

length-grow_le :
    (n : ℕ) (vs : List (Option Chunk))
    → length (grow n vs) ≡ (if ltb (length vs) n then n else length vs)
unfolding grow
length-grow_le n vs =
    let unset : Option Chunk = none in
    ground (
      arith,
      length-append vs (replicate (n - length vs) unset),
      length-replicate (n - length vs) unset,
    )

add-IsTight :
    (s t : Series Chunk) (i : ℕ) (c : Chunk) → add s (pos i) c ≡ some t → IsTight s → IsTight t
unfolding add
add-IsTight s t i c e tight some_cell =
    let n = i - s.start + 1 in
    let k = i - s.start in
    let size = length-grow_le n s.values in
    let grown = grow n s.values in
    let last = length grown - 1 in
    let added : record s { values = set grown k (some c) } ≡ t = ground arith in
    let same : t.values ≡ set grown k (some c) = ap (λ s. s.values) (sym added) in
    let full = length-set grown k (some c) in
    let at = cell-set grown k last (some c) (omega (arith, length-grow n s.values)) in
    let old = cell-grow n s.values last in
    λ gone.
      let hit : cell (set grown k (some c)) last ≡ none =
        ap (λ m. cell (set grown k (some c)) (m - 1)) (sym full)
        ∙ subst (λ vs. cell vs (length vs - 1) ≡ none) same gone in
      ground (arith, hit, at, old, tight, size)

drop-IsTight :
    (n : ℕ) (vs ws : List (Option Chunk))
    → ws ≡ drop n vs
    → (0 < length vs → cell vs (length vs - 1) ≢ none)
    → 0 < length ws
    → cell ws (length ws - 1) ≢ none
drop-IsTight n vs ws same tight some_cell gone =
    let left = ap length same in
    let kept = cell-drop n vs (length ws - 1) in
    let size = length-drop n vs in
    let hit : cell (drop n vs) (length ws - 1) ≡ none =
      ap (λ c. cell c (length ws - 1)) (sym same) ∙ gone in
    let last : n + (length ws - 1) ≡ length vs - 1 = omega (arith, left, size) in
    tight (omega (arith, left, size)) (ap (cell vs) (sym last) ∙ sym kept ∙ hit)

process-IsTight :
    (s t : Series Chunk) (c : Chunk) (out : List Chunk)
    → process s c ≡ some (t, out)
    → IsTight s
    → IsTight t
unfolding process drop_first
process-IsTight s t c out e tight = elim (Option-cases (add s (pos (num c)) c)) [
  | inl panics ↦ absurd (ground arith)
  | inr (u, added) ↦
      let n = clamp (pos (length (sorted u))) (length u.values) in
      let dropped : drop_first u (pos (length (sorted u))) ≡ t = ground arith in
      let same : t.values ≡ drop n u.values = ap (λ s. s.values) (sym dropped) in
      drop-IsTight n u.values t.values same (add-IsTight s u (num c) c added tight)
]

run-IsTight :
    (cs : List Chunk) (s t : Series Chunk) (out : List Chunk)
    → run s cs ≡ some (t, out)
    → IsTight s
    → IsTight t
unfolding run
run-IsTight [] s t out e tight = let same : s ≡ t = ground arith in subst IsTight same tight
run-IsTight (c ∷ cs) s t out e tight = elim (Option-cases (process s c)) [
  | inl panics ↦ absurd (ground arith)
  | inr ((u, first), stepped) ↦ elim (Option-cases (run u cs)) [
    | inl panics ↦ absurd (ground arith)
    | inr ((y, rest), ran) ↦
        let same : y ≡ t = ground arith in
        subst IsTight same (run-IsTight cs u y rest ran (process-IsTight s u c first stepped tight))
  ]
]

-- Chunks numbered from zero on, in whatever order they come: `Sort` sends them in the order of
-- their numbers, and then `Finish` succeeds.
pub run-Counted :
    (cs ds : List Chunk)
    → Counted 0 ds
    → Shuffled ds cs
    → (s : Series Chunk) × (run empty_series cs ≡ some (s, ds)) × (finish s ≡ none)
unfolding finish len
run-Counted cs ds h p =
    let (distinct, same) = Shuffled-received ds cs p (Counted-Distinct 0 ds h) in
    elim (Option-cases (run empty_series cs)) [
      | inl panics ↦ absurd (run-total cs distinct panics)
      | inr ((s, out), ran) ↦
          let (there, stop) = run-received cs {s = s} {out = out} ran in
          let all : out ≡ ds = get_elem?-ext out ds (λ j. ground (
            arith,
            there j,
            stop,
            same j,
            same (length out),
            received-Counted 0 ds j h,
            received-Counted 0 ds (length out) h,
            get_elem?-none ds j,
            get_elem?-none ds (length out),
            get_elem?-none out j,
          )) in
          let start : Inv [] empty_series = record { counted = refl; stops = refl } in
          let (v, logged) = run-log cs [] empty_series s out start ran in
          let last = s.start + (length s.values - 1) in
          let none_above : received cs last ≡ none = ground (
            arith,
            same last,
            received-Counted 0 ds last h,
            get_elem?-none ds last,
            v.counted,
            ap length all,
          ) in
          let tight = run-IsTight cs empty_series s out ran (λ some_cell. absurd (omega arith)) in
          let above : cell s.values (length s.values - 1) ≡ none =
            ground (arith, logged last, none_above) in
          (s, rw (← all) ran, ground (arith, tight, above))
    ]

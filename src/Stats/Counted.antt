-- ===== src/Stats/Counted.antt =====
-- In which order stats/stats.go lists the counters.
use scat.Prelude.{
  ℕ, suc, ◌+◌, ◌%◌, ◌^◌, ◌<◌, ◌≡◌, refl, sym, ap, ◌∙◌, subst, inl, inr, true, false, List, [], ◌∷◌,
  ◌++◌, arith, ◌==◌, if◌then◌else◌, Bool-cases, length, length-append,
}
use scat.Prelude.Dict.{Dict, insert, has, elem, elem-keys, keys}
use scat.Prelude.Sorting.{IsSorted, sort_by-same}
use scat.Stats.{Statsd, Counter, counter, new_counter, new_statsd, sorted_counters}

-- These identities asked for in turn.
abbrev pub count_ids : List ℕ → Statsd → Statsd
count_ids [] st = st
count_ids (i ∷ is) st = count_ids is (counter st i)

-- The identities in the order in which they come first.
abbrev pub firsts : List ℕ → List ℕ → List ℕ
firsts seen [] = seen
firsts seen (i ∷ is) =
    let rest = firsts seen is in if elem i seen then rest else firsts (seen ++ i ∷ []) is

-- The counters' positions count up from `n`.
abbrev Positions : ℕ → Dict Counter → Type 0
Positions n [] = Unit
Positions n ((i, c) ∷ m) = (c.position ≡ n) × Positions (suc n) m

abbrev position : ℕ × Counter → ℕ
position e = e.1.position

Positions-IsSorted : (n : ℕ) (m : Dict Counter) → Positions n m → IsSorted position m
Positions-IsSorted n [] h = tt
Positions-IsSorted n (a ∷ []) h = tt
Positions-IsSorted n (a ∷ b ∷ m) h =
    (omega (arith, h.0, h.1.0), Positions-IsSorted (suc n) (b ∷ m) h.1)

insert-new :
    (i : ℕ) (c : Counter) (m : Dict Counter) → has i m ≡ false → insert i c m ≡ m ++ (i, c) ∷ []
unfolding insert has
insert-new i c [] h = refl
insert-new i c ((j, d) ∷ m) h = elim (Bool-cases (j == i)) [
  | inl own ↦ absurd (ground arith)
  | inr other ↦ rw other (ap (◌∷◌ (j, d)) (insert-new i c m (ground arith)))
]

Positions-append :
    (n i : ℕ) (c : Counter) (m : Dict Counter)
    → Positions n m
    → c.position ≡ n + length m
    → Positions n (m ++ (i, c) ∷ [])
Positions-append n i c [] h e = (omega (arith, e), tt)
Positions-append n i c ((j, d) ∷ m) h e =
    (h.0, Positions-append (suc n) i c m h.1 (omega (arith, e)))

keys-append : (m : Dict Counter) (i : ℕ) (c : Counter) → keys (m ++ (i, c) ∷ []) ≡ keys m ++ i ∷ []
keys-append [] i c = refl
keys-append ((j, d) ∷ m) i c = ap (◌∷◌ j) (keys-append m i c)

record Inv (st : Statsd) : Type 0 where
  next : st.next_pos ≡ length st.counters
  positions : Positions 0 st.counters

counter_there : (st : Statsd) (i : ℕ) → has i st.counters ≡ true → counter st i ≡ st
unfolding counter
counter_there st i there = rw there refl

counter_new :
    (st : Statsd) (i : ℕ)
    → has i st.counters ≡ false
    → counter st i ≡ record {
      counters = st.counters ++ (i, new_counter st.next_pos) ∷ [];
      next_pos = (st.next_pos + 1) % 2 ^ 32;
    }
unfolding counter
counter_new st i new = rw (new, insert-new i (new_counter st.next_pos) st.counters new) refl

counted :
    (is : List ℕ) (st : Statsd)
    → Inv st
    → length st.counters + length is < 2 ^ 32
    → Inv (count_ids is st) × (keys (count_ids is st).counters ≡ firsts (keys st.counters) is)
counted [] st v room = (v, refl)
counted (i ∷ is) st v room = elim (Bool-cases (has i st.counters)) [
  | inl there ↦
      let listed : elem i (keys st.counters) ≡ true = elem-keys i st.counters ∙ there in
      let same : counter st i ≡ st = counter_there st i there in
      let (kept, rest) = counted is st v (omega (arith, room)) in
      (
        subst (λ s. Inv (count_ids is s)) (sym same) kept,
        ap (λ s. keys (count_ids is s).counters) same ∙ rest ∙ rw listed refl,
      )
  | inr new ↦
      let c = new_counter st.next_pos in
      let unlisted : elem i (keys st.counters) ≡ false = elem-keys i st.counters ∙ new in
      let more = st.counters ++ (i, c) ∷ [] in
      let next : Statsd = record { counters = more; next_pos = (st.next_pos + 1) % 2 ^ 32 } in
      let same : counter st i ≡ next = counter_new st i new in
      let size = length-append st.counters ((i, c) ∷ []) in
      let w : Inv next = record {
        next = omega (arith, v.next, room, size);
        positions = Positions-append 0 i c st.counters v.positions (omega (arith, v.next));
      } in
      let (kept, listed) = counted is next w (omega (arith, room, size)) in
      (
        subst (λ s. Inv (count_ids is s)) (sym same) kept,
        ap (λ s. keys (count_ids is s).counters) same
            ∙ listed
            ∙ ap (λ k. firsts k is) (keys-append st.counters i c)
            ∙ rw unlisted refl,
      )
]

-- Whatever procs are counted, less than 2^32 of them: the counters are listed in the order in which
-- they were first asked for, each once.
pub sorted_counters-firsts :
    (is : List ℕ)
    → length is < 2 ^ 32
    → keys (sorted_counters (count_ids is new_statsd)) ≡ firsts [] is
unfolding sorted_counters
sorted_counters-firsts is room =
    let start : Inv new_statsd = record { next = refl; positions = tt } in
    let (v, listed) = counted is new_statsd start (omega (arith, room)) in
    let st = count_ids is new_statsd in
    ap keys (sort_by-same position st.counters (Positions-IsSorted 0 st.counters v.positions))
    ∙ listed

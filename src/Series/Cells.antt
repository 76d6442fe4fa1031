-- ===== src/Series/Cells.antt =====
-- The series of seriessort/series.go as a partial array indexed by absolute position.
use native.Mathlib.Nat.{zero-add, suc-add, add-zero}
use scat.Prelude.{
  ℕ, zero, suc, ◌+◌, ◌-◌, ◌≤◌, ◌<◌, ◌≡◌, refl, ◌∙◌, Option, none, some, List, [], ◌∷◌, ◌++◌, arith,
  ltb, ◌==◌, if◌then◌else◌, pos, length, get_elem?, set, drop, replicate, length-append,
  length-replicate,
}
use scat.Series.{clamp, sorted, drop_first, sorted_prefix, Series, grow, add}

module _ {A : Type 0} where
  -- The value at an offset; an unset cell and a cell out of range are both `none`.
  abbrev pub cell : List (Option A) → ℕ → Option A
  cell [] i = none
  cell (v ∷ vs) zero = v
  cell (v ∷ vs) (suc i) = cell vs i

  cell-append_nones : (vs : List (Option A)) (n j : ℕ) → cell (vs ++ replicate n none) j ≡ cell vs j
  cell-append_nones [] zero j = refl
  cell-append_nones [] (suc n) zero = refl
  cell-append_nones [] (suc n) (suc j) = cell-append_nones [] n j
  cell-append_nones (v ∷ vs) n zero = refl
  cell-append_nones (v ∷ vs) n (suc j) = cell-append_nones vs n j

  pub cell-grow : (n : ℕ) (vs : List (Option A)) (j : ℕ) → cell (grow n vs) j ≡ cell vs j
  unfolding grow
  cell-grow n vs j = ground (arith, cell-append_nones vs (n - length vs) j)

  pub length-grow : (n : ℕ) (vs : List (Option A)) → n ≤ length (grow n vs)
  unfolding grow
  length-grow n vs =
      let unset : Option A = none in
      ground (
        arith,
        length-append vs (replicate (n - length vs) unset),
        length-replicate (n - length vs) unset,
      )

  pub cell-set :
      (vs : List (Option A)) (i j : ℕ) (v : Option A)
      → i < length vs
      → cell (set vs i v) j ≡ (if i == j then v else cell vs j)
  cell-set [] i j v h = elim h [ ]
  cell-set (x ∷ vs) zero zero v h = refl
  cell-set (x ∷ vs) zero (suc j) v h = ground arith
  cell-set (x ∷ vs) (suc i) zero v h = ground arith
  cell-set (x ∷ vs) (suc i) (suc j) v h = ground (arith, cell-set vs i j v)

  pub cell-drop : (n : ℕ) (vs : List (Option A)) (j : ℕ) → cell (drop n vs) j ≡ cell vs (n + j)
  cell-drop zero vs j = rw zero-add
  cell-drop (suc n) [] j = refl
  cell-drop (suc n) (v ∷ vs) j = rw suc-add (cell-drop n vs j)

  -- The value at an absolute position.
  abbrev pub value_at : Series A → ℕ → Option A
  value_at s j = if ltb j s.start then none else cell s.values (j - s.start)

  -- `Add` at a position that is not negative, where it does not panic, sets the cell at that
  -- position and no other.
  pub value_at-add :
      (s t : Series A) (i : ℕ) (v : A) (j : ℕ)
      → add s (pos i) v ≡ some t
      → value_at t j ≡ (if i == j then some v else value_at s j)
  unfolding add
  value_at-add s t i v j e =
      let grown = grow (i - s.start + 1) s.values in
      ground (
        arith,
        length-grow (i - s.start + 1) s.values,
        cell-set grown (i - s.start) (j - s.start) (some v),
        cell-grow (i - s.start + 1) s.values (j - s.start),
      )

module _ {A : Type 0} where
  pub get_elem?-sorted_prefix :
      (vs : List (Option A)) (j : ℕ)
      → j < length (sorted_prefix vs)
      → get_elem? (sorted_prefix vs) j ≡ cell vs j
  unfolding sorted_prefix
  get_elem?-sorted_prefix [] j h = elim h [ ]
  get_elem?-sorted_prefix (none ∷ vs) j h = elim h [ ]
  get_elem?-sorted_prefix (some v ∷ vs) zero h = refl
  get_elem?-sorted_prefix (some v ∷ vs) (suc j) h = get_elem?-sorted_prefix vs j (omega arith)

  pub sorted_prefix_stops : (vs : List (Option A)) → cell vs (length (sorted_prefix vs)) ≡ none
  unfolding sorted_prefix
  sorted_prefix_stops [] = refl
  sorted_prefix_stops (none ∷ vs) = refl
  sorted_prefix_stops (some v ∷ vs) = sorted_prefix_stops vs

  pub length-sorted_prefix-le : (vs : List (Option A)) → length (sorted_prefix vs) ≤ length vs
  unfolding sorted_prefix
  length-sorted_prefix-le [] = omega arith
  length-sorted_prefix-le (none ∷ vs) = omega arith
  length-sorted_prefix-le (some v ∷ vs) = omega (arith, length-sorted_prefix-le vs)

  -- What `Sorted` returns and `Drop` then removes: the values at consecutive positions from the
  -- start, up to the first unset one.
  pub record Rolls (s t : Series A) (out : List A) : Type 0 where
    pub moved : t.start ≡ s.start + length out
    pub stops : cell t.values 0 ≡ none
    pub given : (j : ℕ) → j < length out → get_elem? out j ≡ cell s.values j
    pub kept : (j : ℕ) → cell t.values j ≡ cell s.values (length out + j)

  -- `Sorted` gives the values at consecutive positions from the start up to the first that is not
  -- set, and dropping as many moves the start behind them and keeps every cell from there on.
  pub drop_first-sorted :
      (s : Series A) → Rolls s (drop_first s (pos (length (sorted s)))) (sorted s)
  unfolding drop_first sorted
  drop_first-sorted s =
      let n = length (sorted_prefix s.values) in
      let whole : clamp (pos n) (length s.values) ≡ n =
        ground (arith, length-sorted_prefix-le s.values) in
      record {
        moved = rw whole;
        stops = rw whole (cell-drop n s.values 0 ∙ rw add-zero (sorted_prefix_stops s.values));
        given = get_elem?-sorted_prefix s.values;
        kept = λ j. rw whole (cell-drop n s.values j);
      }

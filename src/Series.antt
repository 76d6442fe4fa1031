-- ===== src/Series.antt =====
-- seriessort/series.go: a rolling series of values sorted by position. A nil cell is `none`.
pub mod Cells
use scat.Prelude.{
  ℕ, ◌+◌, ◌-◌, Option, none, some, List, [], ◌∷◌, ◌++◌, ltb, if◌then◌else◌, ℤ, pos, negsuc, length,
  set, drop, replicate,
}

pub record Series {ℓ} (A : Type ℓ) : Type ℓ where
  pub values : List (Option A)
  pub start : ℕ

-- The clamping of `count` in `Drop`.
abbrev pub clamp : ℤ → ℕ → ℕ
clamp (negsuc n) len = 0
clamp (pos count) len = if ltb len count then len else count

module _ {ℓ} {A : Type ℓ} where
  abbrev pub empty_series : Series A
  empty_series = record { values = []; start = 0 }

  -- Cells behind the slice's end are nil: values are only ever cut from the front.
  unfoldable pub grow : ℕ → List (Option A) → List (Option A)
  grow min_len vs =
      if ltb (length vs) min_len then vs ++ replicate (min_len - length vs) none else vs

  -- `none` is the panic "position lower than minimum".
  unfoldable pub add : Series A → ℤ → A → Option (Series A)
  unfolding grow
  add s (negsuc n) val = none
  add s (pos i) val =
      if ltb i s.start
      then none
      else some
          (record s { values = set (grow (i - s.start + 1) s.values) (i - s.start) (some val) })

  unfoldable pub drop_first : Series A → ℤ → Series A
  drop_first s count =
      let n = clamp count (length s.values) in
      record s { values = drop n s.values; start = s.start + n }

  unfoldable pub sorted_prefix : List (Option A) → List A
  sorted_prefix [] = []
  sorted_prefix (none ∷ vs) = []
  sorted_prefix (some v ∷ vs) = v ∷ sorted_prefix vs

  unfoldable pub sorted : Series A → List A
  unfolding sorted_prefix
  sorted s = sorted_prefix s.values

  unfoldable pub len : Series A → ℕ
  len s = length s.values

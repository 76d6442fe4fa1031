-- ===== src/Slidecnt.antt =====
-- slidecnt/counter.go: the rate of what was counted within a window of time.
--
-- A time is the nanoseconds since some start. `now` is an argument, and so is the quotient of
-- floating-point numbers that `AvgRate` returns. Counts are uint64.
pub mod Window
use scat.Prelude.{ℕ, ◌+◌, ◌-◌, ◌%◌, List, [], ◌∷◌, ◌++◌, leb, ◌==◌, if◌then◌else◌}
use scat.Stores.Quota.{word}

pub record Tick : Type 0 where
  pub time : ℕ
  pub num : ℕ

pub record Counter : Type 0 where
  pub window : ℕ
  pub ticks : List Tick

-- The loop of `prune`, which stops at the first tick that is not before `now - Window`.
unfoldable pub prune_from : ℕ → ℕ → List Tick → List Tick
prune_from window now [] = []
prune_from window now (t ∷ ts) =
    let rest = prune_from window now ts in if leb now (t.time + window) then t ∷ ts else rest

unfoldable pub prune : ℕ → Counter → Counter
unfolding prune_from
prune now c = record c { ticks = prune_from c.window now c.ticks }

unfoldable pub add : ℕ → ℕ → Counter → Counter
unfolding prune
add now n c =
    let d = prune now c in record d { ticks = d.ticks ++ record { time = now; num = n } ∷ [] }

-- The loop that sums the ticks up, on uint64.
unfoldable pub sum_from : ℕ → List Tick → ℕ
sum_from sum [] = sum
sum_from sum (t ∷ ts) = sum_from ((sum + t.num) % word) ts

-- The rate of the ticks that are left: `quotient sum elapsed unit` is the sum divided by the elapsed
-- units.
abbrev pub rate_ticks : (ℕ → ℕ → ℕ → ℕ) → ℕ → ℕ → List Tick → ℕ
rate_ticks quotient now unit [] = 0
rate_ticks quotient now unit (t ∷ ts) =
    if now - t.time == 0 then 0 else quotient (sum_from 0 (t ∷ ts)) (now - t.time) unit

-- `AvgRate`
unfoldable pub avg_rate : (ℕ → ℕ → ℕ → ℕ) → ℕ → ℕ → Counter → ℕ × Counter
unfolding prune sum_from
avg_rate quotient now unit c =
    let d = prune now c in if unit == 0 then (0, c) else (rate_ticks quotient now unit d.ticks, d)

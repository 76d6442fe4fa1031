-- ===== src/Stripe/RoundRobin.antt =====
-- stripe/rr.go: the round-robin sequence. A nil item is `none`.
pub mod Rotation
use scat.Prelude.{ℕ, ◌+◌, ◌%◌, Option, none, List, leb, if◌then◌else◌, length, get_elem?}

pub record Rr : Type 0 where
  pub items : List ℕ
  pub cur : ℕ

-- `rr.cur > n-1` is `rr.cur >= n`, also at n = 0.
unfoldable pub next_item : Rr → Option ℕ × Rr
next_item rr =
    let n = length rr.items in
    if leb n rr.cur
    then (none, rr)
    else (get_elem? rr.items rr.cur, record rr { cur = (rr.cur + 1) % n })

unfoldable pub reset : Rr → Rr
reset rr = record rr { cur = 0 }

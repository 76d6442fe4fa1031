-- ===== src/Stats.antt =====
-- stats/stats.go and stats/proc.go: what the procs did, by the identity of the proc.
--
-- Times and the formats of numbers are arguments. The counters are listed in the order of their
-- positions; positions are uint32.
pub mod Counted
pub mod Writing
use Prim.Native.String.{String}
use scat.Prelude.{
  ℕ, zero, suc, ◌+◌, ◌-◌, ◌*◌, ◌%◌, ◌^◌, Bool, false, ◌&&◌, none, some, List, [], ◌∷◌, ltb, leb,
  ◌==◌, if◌then◌else◌, ℤ, pos, negsuc,
}
use scat.Prelude.Dict.{Dict, lookup, insert, has}
use scat.Prelude.Sorting.{sort_by}
use scat.Chunk.{Chunk, payload, size}
use scat.Procs.{Res, Proc}
use scat.Slidecnt
use scat.Stores.Quota.{unlimited}

pub record Quota : Type 0 where
  pub init : Bool
  pub use_ : ℕ
  pub max : ℕ

pub record Counter : Type 0 where
  pub position : ℕ
  pub last : ℕ
  pub inst : ℤ
  pub out : Slidecnt.Counter
  pub quota : Quota

pub record Statsd : Type 0 where
  pub counters : Dict Counter
  pub next_pos : ℕ

abbrev pub new_statsd : Statsd
new_statsd = record { counters = []; next_pos = 0 }

-- `outRateWindow`, in nanoseconds.
abbrev pub out_rate_window : ℕ
out_rate_window = 2 * 1000000000

abbrev pub new_counter : ℕ → Counter
new_counter n = record {
  position = n;
  last = 0;
  inst = pos 0;
  out = record { window = out_rate_window; ticks = [] };
  quota = record { init = false; use_ = 0; max = 0 };
}

-- `Counter`: the counter is that of the identity in the new state.
unfoldable pub counter : Statsd → ℕ → Statsd
counter st id = if has id st.counters then st else record {
  counters = insert id (new_counter st.next_pos) st.counters;
  next_pos = (st.next_pos + 1) % 2 ^ 32;
}

-- `sortedCounters`
unfoldable pub sorted_counters : Statsd → List (ℕ × Counter)
sorted_counters st = sort_by (λ (e : ℕ × Counter). e.1.position) st.counters

abbrev change : ℤ → ℤ → ℤ
change (pos a) (pos b) = pos (a + b)
change (pos zero) (negsuc b) = negsuc b
change (pos (suc a)) (negsuc zero) = pos a
change (pos (suc a)) (negsuc (suc b)) = if leb b a then pos (a - suc b) else negsuc (b - a)
change (negsuc a) (pos b) = if ltb a b then pos (b - suc a) else negsuc (a - b)
change (negsuc a) (negsuc b) = negsuc (suc (a + b))

-- `addInst` at this time.
unfoldable pub add_inst : ℕ → ℤ → Counter → Counter
add_inst now delta c = record c { inst = change c.inst delta; last = now }

unfoldable pub add_out : ℕ → ℕ → Counter → Counter
add_out now n c = record c { out = Slidecnt.add now n c.out }

-- What the loop of `Process` adds for a result: the size of its data, if it is known.
unfoldable pub count_res : ℕ → Res → Counter → Counter
unfolding add_out size
count_res now r c = elim r.chunk [
  | none ↦ c
  | some d ↦ elim (size (payload d)) [ none ↦ c | some n ↦ add_out now n c ]
]

unfoldable pub count_all : ℕ → List Res → Counter → Counter
unfolding count_res
count_all now [] c = c
count_all now (r ∷ rs) c = count_all now rs (count_res now r c)

-- `Proc.Process`: an instance more while the proc runs, and what it yields counted. The counter of
-- the proc is made if it is not there; times are those of the start and of the end.
unfoldable pub process :
    {W : Type 0} → ℕ → ℕ → ℕ → Proc W → Chunk → Statsd × W → List Res × Statsd × W
unfolding counter add_inst count_all
process begin end_ id p c (st, w) =
    let r = p c w in
    let st' = counter st id in
    let counted =
      λ (d : Counter). add_inst end_ (negsuc 0) (count_all end_ r.0 (add_inst begin (pos 1) d)) in
    elim (lookup id st'.counters) [
      | none ↦ (r.0, st', r.1)
      | some d ↦ (r.0, record st' { counters = insert id (counted d) st'.counters }, r.1)
    ]

-- `formatQuota` and `formatQuotaFill`, with `humanize.IBytes` and the percentage as arguments.
unfoldable pub format_quota : (ℕ → String) → ℕ → Bool → String
format_quota ibytes n blank_zero =
    if n == unlimited then "∞" else if n == 0 && blank_zero then "" else ibytes n

unfoldable pub format_quota_fill : (ℕ → ℕ → String) → ℕ → ℕ → String
format_quota_fill percent used max =
    if max == unlimited then "∞" else if max == 0 then "" else percent used max

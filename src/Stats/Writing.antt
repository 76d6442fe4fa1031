-- ===== src/Stats/Writing.antt =====
-- stats/stats.go: `WriteTo`, which writes the counters as a table.
--
-- How a row is printed is an argument, and so are the writer underneath, the clock and the number
-- of goroutines.
use Prim.Native.String.{String}
use scat.Prelude.{
  ℕ, ◌+◌, ◌-◌, ◌≡◌, refl, inl, inr, Bool, true, false, ◌&&◌, Option, none, some, List, [], ◌∷◌,
  arith, ltb, ◌==◌, if◌then◌else◌, Option-cases, ℤ, pos, negsuc,
}
use scat.Prelude.Dict.{insert}
use scat.Errors.{Error}
use scat.Slidecnt
use scat.Stats.{Counter, Statsd, sorted_counters, format_quota, format_quota_fill}

-- `aliveThreshold` and the second, in nanoseconds.
abbrev alive_threshold : ℕ
alive_threshold = 1000000000

abbrev second : ℕ
second = 1000000000

-- What a row shows: the identity, whether the proc is dead, the instances and the four texts.
pub record Row : Type 0 where
  pub id : ℕ
  pub dead : Bool
  pub inst : ℤ
  pub out : String
  pub use_ : String
  pub quota : String
  pub fill : String

pub data Line : Type 0 where
  headers : Line
  proc_line : Row → Line
  goroutines : ℕ → Line

-- `humanize.IBytes` with and without the unit of a rate, the percentage, the quotient of the rate,
-- and the mark of a quota that is being read.
pub record Formats : Type 0 where
  pub ibytes : ℕ → String
  pub rate : ℕ → String
  pub percent : ℕ → ℕ → String
  pub quotient : ℕ → ℕ → ℕ → ℕ
  pub calculating : String

abbrev is_none : ℤ → Bool
is_none (pos n) = n == 0
is_none (negsuc n) = false

-- `dead`
unfoldable pub is_dead : ℕ → Counter → Bool
is_dead now c = is_none c.inst && ltb alive_threshold (now - c.last)

module _ (f : Formats) (now : ℕ) where
  -- A row, and the counter behind it: the rate of a live proc forgets its old ticks.
  unfoldable pub row : ℕ → Counter → Row × Counter
  unfolding is_dead Slidecnt.avg_rate format_quota format_quota_fill
  row id c =
      let r = Slidecnt.avg_rate f.quotient now second c.out in
      let dead = is_dead now c in
      (
        record {
          id = id;
          dead = dead;
          inst = c.inst;
          out = if dead then "" else f.rate r.0;
          use_ =
              if c.quota.init
              then f.calculating
              else format_quota f.ibytes c.quota.use_ (c.quota.max == 0);
          quota = format_quota f.ibytes c.quota.max true;
          fill = format_quota_fill f.percent c.quota.use_ c.quota.max;
        },
        if dead then c else record c { out = r.1 },
      )

  module _ {W : Type 0} (put : Line → W → (ℕ × Option Error) × W) where
    -- The loop over the counters, with `written` so far.
    unfoldable pub write_rows :
        List (ℕ × Counter) → ℕ → Statsd × W → (ℕ × Option Error) × (Statsd × W)
    unfolding row
    write_rows [] written s = ((written, none), s)
    write_rows ((id, c) ∷ cs) written s =
        let x = row id c in
        let p = put (proc_line x.0) s.1 in
        let st : Statsd = record s.0 { counters = insert id x.1 s.0.counters } in
        elim p.0.1 [
          | some e ↦ ((written + p.0.0, some e), (st, p.1))
          | none ↦ write_rows cs (written + p.0.0) (st, p.1)
        ]

    -- The line of the goroutines, behind the rows.
    unfoldable pub write_end :
        ℕ → (ℕ × Option Error) × (Statsd × W) → (ℕ × Option Error) × (Statsd × W)
    write_end running r = elim r.0.1 [
      | some e ↦ r
      | none ↦ let p = put (goroutines running) r.1.1 in ((r.0.0 + p.0.0, p.0.1), (r.1.0, p.1))
    ]

    unfoldable pub write_to : ℕ → Statsd × W → (ℕ × Option Error) × (Statsd × W)
    unfolding write_rows write_end sorted_counters
    write_to running s =
        let p = put headers s.1 in
        elim p.0.1 [
          | some e ↦ ((p.0.0, some e), (s.0, p.1))
          | none ↦ write_end running (write_rows (sorted_counters s.0) p.0.0 (s.0, p.1))
        ]

    module _ (taken : W → ℕ)
        (counts : (l : Line) (w : W) → taken (put l w).1 ≡ taken w + (put l w).0.0) where
      write_rows-written :
          (cs : List (ℕ × Counter)) (written : ℕ) (s : Statsd × W)
          → (write_rows cs written s).0.0 + taken s.1
            ≡ written + taken (write_rows cs written s).1.1
      unfolding write_rows
      write_rows-written [] written s = refl
      write_rows-written ((id, c) ∷ cs) written s =
          let p = put (proc_line (row id c).0) s.1 in
          let more = counts (proc_line (row id c).0) s.1 in
          elim (Option-cases p.0.1) [
            | inr (e, bad) ↦ rw (bad, write_rows) (omega (arith, more))
            | inl fine ↦
                let st : Statsd = record s.0 { counters = insert id (row id c).1 s.0.counters } in
                rw (fine, write_rows)
                  (omega (arith, more, write_rows-written cs (written + p.0.0) (st, p.1)))
          ]

      write_end-written :
          (running : ℕ) (r : (ℕ × Option Error) × (Statsd × W)) (start : ℕ)
          → r.0.0 + start ≡ taken r.1.1
          → (write_end running r).0.0 + start ≡ taken (write_end running r).1.1
      unfolding write_end
      write_end-written running r start h = elim (Option-cases r.0.1) [
        | inr (e, bad) ↦ rw bad h
        | inl fine ↦ rw fine (omega (arith, h, counts (goroutines running) r.1.1))
      ]

      -- `WriteTo` returns how much the writer took, also when it ends with an error.
      pub write_to-written :
          (running : ℕ) (s : Statsd × W)
          → (write_to running s).0.0 + taken s.1 ≡ taken (write_to running s).1.1
      unfolding write_to
      write_to-written running s =
          let p = put headers s.1 in
          elim (Option-cases p.0.1) [
            | inr (e, bad) ↦ rw (bad, write_to) (omega (arith, counts headers s.1))
            | inl fine ↦
                rw (fine, write_to)
                  (write_end-written running (write_rows (sorted_counters s.0) p.0.0 (s.0, p.1))
                    (taken s.1)
                    (omega (
                      arith,
                      counts headers s.1,
                      write_rows-written (sorted_counters s.0) p.0.0 (s.0, p.1),
                    )))
          ]

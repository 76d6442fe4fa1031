-- ===== src/Tests/Copied.antt =====
-- stores/stripe/: the copies of a group are made by memory stores.
use scat.Prelude.{
  ℕ, ◌≤◌, ◌≡◌, refl, true, false, ◌&&◌, none, some, List, [], ◌∷◌, arith, ◌==◌, if◌then◌else◌,
  ==_refl, length, All,
}
use scat.Prelude.Dict.{lookup, insert, has, IsUnique, Locs}
use scat.Chunk.{Bytes, Chunk, payload, hash, bytes_data, reader_data, read}
use scat.Errors.{foreign}
use scat.Procs.{Proc, single_res, first_err}
use scat.Procs.Combine.{ran}
use scat.Stores.Striping.{group_chunks, procs}
use scat.Stores.Striping.Copying.{copy_procs}
use scat.Stores.Striping.Kept.{Holds, IsTrue}
use scat.Stores.Striping.Stored.{procs-stored}
use scat.Stores.Striping.Partial.{KeepsOthers, planned_copies-IsTrue}
use scat.Stores.Striping.InMemory.{
  Mems, lookup_at, mem_proc, read_mem, mem_proc-Keeps, mem_proc-accepts,
}
use scat.Tests.Stored.{spread, page, page_infos, gathers, plans, page_listed}

-- What each hash stands for.
abbrev pub letters : ℕ → Bytes
letters h = 65 ∷ 66 ∷ []

abbrev pub no_mems : Mems
no_mems l = []

abbrev pub to_second : List (ℕ × ℕ)
to_second = (100, 2) ∷ []

pub nothing_owned : IsTrue mem_proc read_mem letters (no_mems, spread)
unfolding lookup scat.Stores.Copies.list scat.Stores.Copies.contains has
nothing_owned h l e = absurd (ground arith)

pub page-Holds : All (Holds letters) (group_chunks page)
unfolding group_chunks
page-Holds = (refl, tt)

-- A store that keeps what it read before the data ended with an error, in place of what it had.
abbrev half_proc : ℕ → Proc Mems
half_proc l c w = elim (read (payload c)) [
  | none ↦ (single_res c (some (foreign 0)), w)
  | some (b, e, rest) ↦ (single_res c e, λ i. if l == i then insert (hash c) b (w l) else w i)
]

half_proc-stores :
    (l : ℕ) (c : Chunk) (w : Mems) (b : Bytes)
    → payload c ≡ bytes_data b
    → first_err (half_proc l c w).0 ≡ none
    → read_mem (half_proc l c w).1 l (hash c) ≡ some b
unfolding read first_err
half_proc-stores l (Chunk.chunk n (bytes_data x) h z m) w b whole fine =
    ground (arith, lookup_at l l h h x w, ==_refl l, ==_refl h)
half_proc-stores l (Chunk.chunk n (reader_data x e u) h z m) w b whole fine = absurd (ground arith)

half_proc-leaves :
    (l : ℕ) (c : Chunk) (w : Mems) (i h : ℕ)
    → (l == i && hash c == h) ≡ false
    → read_mem (half_proc l c w).1 i h ≡ read_mem w i h
unfolding read
half_proc-leaves l (Chunk.chunk n (bytes_data x) k z m) w i h other =
    ground (arith, lookup_at l i h k x w)
half_proc-leaves l (Chunk.chunk n (reader_data x e true) k z m) w i h other =
    ground (arith, lookup_at l i h k x w)
half_proc-leaves l (Chunk.chunk n (reader_data x e false) k z m) w i h other = refl

half_proc-KeepsOthers : KeepsOthers half_proc read_mem
half_proc-KeepsOthers = record { stores = half_proc-stores; leaves = half_proc-leaves }

half_owned : IsTrue half_proc read_mem letters (no_mems, spread)
unfolding lookup scat.Stores.Copies.list scat.Stores.Copies.contains has
half_owned h l e = absurd (ground arith)

planned_copies-IsTrue_example : IsTrue half_proc read_mem letters (
    ran
      (copy_procs half_proc (page ∷ []) page_infos to_second)
      page
      (no_mems, (procs 20 spread page).0))
planned_copies-IsTrue_example =
    planned_copies-IsTrue half_proc read_mem letters 20 spread page page_infos 2 (page ∷ [])
      to_second to_second no_mems half_proc-KeepsOthers gathers page-Holds half_owned plans
      (λ h l e. e) (refl, tt)

procs-stored_example :
    (held : Locs) × IsUnique held
    × (1 ≤ length held)
    × ((l : ℕ)
        → has l held ≡ true
        → read_mem
            (ran
              (copy_procs mem_proc (page ∷ []) page_infos to_second)
              page
              (no_mems, (procs 20 spread page).0)).0
            l
            100
          ≡ some (letters 100))
procs-stored_example =
    procs-stored mem_proc read_mem letters 20 spread page page_infos 2 (page ∷ []) to_second
      to_second no_mems mem_proc-Keeps (mem_proc-accepts letters) gathers page-Holds nothing_owned
      plans (λ h l e. e) 100 page_listed

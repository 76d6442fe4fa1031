-- ===== src/Tests/Restored.antt =====
-- stores/: a chunk is read back from the memory stores that hold its copy.
use scat.Prelude.{
  ℕ, zero, suc, ◌≡◌, refl, sym, ap, ◌∙◌, inl, inr, true, some, List, [], ◌∷◌, arith, ◌==◌,
  if◌then◌else◌, Bool-cases,
}
use scat.Prelude.Dict.{Dict, lookup, insert, has, elem}
use scat.Stores.Striping.Restarted.{IsHonest, listers, procs-reread}
use scat.Chunk.{Bytes, bytes_data, with_data}
use scat.Procs.{sent}
use scat.Procs.Combine.{ran}
use scat.Stores.Copies.{Reg, list}
use scat.Stores.Copies.History.{owned}
use scat.Stores.MultiReader.{new_multi_reader, process}
use scat.Stores.Striping.{Striper, procs}
use scat.Stores.Striping.Copying.{copy_procs}
use scat.Stores.Striping.Restored.{DrawsAll, process-restored}
use scat.Stores.Striping.InMemory.{
  Mems, mem_proc, mem_copier, mem_proc-Keeps, mem_copier-Gives, mem_ls, mem_ls-Lists,
  mem_proc-accepts, read_mem,
}
use scat.Tests.Stored.{spread, page, page_infos, plans, page_listed, gathers}
use scat.Tests.Copied.{letters, no_mems, to_second, nothing_owned, page-Holds}

-- The indexes, drawn from the last to the first.
abbrev downwards : ℕ → List ℕ
downwards zero = []
downwards (suc n) = n ∷ downwards n

downwards-DrawsAll : DrawsAll downwards
unfolding elem
downwards-DrawsAll zero k e = absurd (omega arith)
downwards-DrawsAll (suc n) k e = elim (Bool-cases (n == k)) [
  | inl own ↦ rw own refl
  | inr other ↦ rw other (downwards-DrawsAll n k (ground arith))
]

-- What the reader knows: the second store has the page.
abbrev at_second : Reg
at_second = (100, (2, tt) ∷ []) ∷ []

abbrev copied_page : Mems × Striper
copied_page =
    ran (copy_procs mem_proc (page ∷ []) page_infos to_second) page
      (no_mems, (procs 20 spread page).0)

registers : copied_page.1.reg ≡ at_second
unfolding copy_procs lookup scat.Stores.Striping.copied scat.Procs.first_err mem_proc
    scat.Stores.Mem.process scat.Chunk.read scat.Prelude.Dict.insert procs scat.Stripe.fill has
    scat.Stripe.turn scat.Stripe.RoundRobin.next_item scat.Stripe.priorities scat.Stripe.exclusives
registers = refl

only_second : (o : ℕ) → owned at_second 100 o ≡ true → owned copied_page.1.reg 100 o ≡ true
only_second o e = ap (λ r. owned r 100 o) registers ∙ e

process-restored_example : process mem_copier downwards page (copied_page.0, at_second) ≡ (
  sent (with_data page (bytes_data (65 ∷ 66 ∷ []))) ∷ [],
  (copied_page.0, (list at_second 100).0),
)
unfolding scat.Stores.Copies.contains has list lookup
process-restored_example =
    process-restored mem_proc mem_copier read_mem letters 20 spread page page_infos 2 (page ∷ [])
      to_second no_mems downwards at_second page 2 mem_proc-Keeps mem_copier-Gives
      downwards-DrawsAll gathers page-Holds nothing_owned refl only_second

-- What the stores hold then.
abbrev page_at : Mems
page_at l = if 2 == l then (100, letters 100) ∷ [] else []

stores : copied_page.0 ≡ page_at
unfolding copy_procs lookup mem_proc scat.Stores.Mem.process scat.Chunk.read
    scat.Prelude.Dict.insert
stores = refl

nothing_false : IsHonest read_mem letters no_mems
unfolding lookup
nothing_false o h b e = absurd (ground arith)

known_stores :
    (l : ℕ) (b : Bytes) → read_mem copied_page.0 l 100 ≡ some b → elem l (1 ∷ 2 ∷ []) ≡ true
unfolding elem lookup
known_stores l b e =
    let there : lookup 100 (page_at l) ≡ some b = ap (λ w. lookup 100 (w l)) (sym stores) ∙ e in
    ground (arith, there)

procs-reread_example :
    (process mem_copier downwards page
      (copied_page.0, (new_multi_reader (listers mem_ls copied_page.0 (1 ∷ 2 ∷ []))).0)).0
    ≡ sent (with_data page (bytes_data (65 ∷ 66 ∷ []))) ∷ []
procs-reread_example =
    procs-reread mem_proc mem_copier read_mem mem_ls letters 20 spread page page_infos 2 (page ∷ [])
      to_second to_second no_mems downwards (1 ∷ 2 ∷ []) page mem_proc-Keeps mem_copier-Gives
      mem_ls-Lists downwards-DrawsAll (mem_proc-accepts letters) gathers page-Holds nothing_owned
      nothing_false (omega arith) plans (λ h l e. e) page_listed known_stores

-- ===== src/Tests/Stored.antt =====
-- stores/: the theorems at stores of a few chunks.
use scat.Prelude.{
  ℕ, ◌+◌, ◌≤◌, ◌≡◌, refl, ◌↔◌, ◌⊎◌, inl, true, none, some, List, [], ◌∷◌, map, arith, ◌==◌,
  if◌then◌else◌,
}
use scat.Prelude.Dict.{Dict, lookup, insert, has, elem}
use scat.Chunk.{Chunk, Data, bytes_data, payload, hash, new_chunk, set_hash, with_data}
use scat.Errors.{stripe_short, foreign}
use scat.Procs.{Res, Proc, sent, failed}
use scat.Procs.Combine.{Outcome, cascade, cascade-failover}
use scat.Stores.Quota.{Man, resources, new_man, word}
use scat.Stores.Quota.Accounts.{
  Event, registered, used, deleted, run, account, HasRoom, spent, elem-resources-run,
  offered-le-max,
}
use scat.Stores.Copies.{Reg, remove_owner}
use scat.Stores.Copies.History.{owned, holds, added, removed, owned-run}
use scat.Stores.Copies.History
use scat.Stores.MultiReader.{read_from, read_from-Outcome}
use scat.Stores.Striping.{
  no_fuel, refused, chunks_in, Striper, Infos, plan, group_chunks, gather, procs,
}
use scat.Stores.Striping.Placed.{Placed, procs-Placed}

abbrev pub page : Chunk
page = set_hash (new_chunk 0 (some (bytes_data (65 ∷ 66 ∷ [])))) 100

abbrev uses : List Event
uses = used 1 30 ∷ used 1 20 ∷ []

elem-resources-run_example :
    (elem 1 (resources (run new_man (registered 1 100 ∷ uses)) 50) ≡ true)
    ↔ HasRoom 50 (account 1 none (registered 1 100 ∷ uses))
elem-resources-run_example = elem-resources-run (registered 1 100 ∷ uses) 1 50

offers : elem 1 (resources (run new_man (registered 1 100 ∷ uses)) 50) ≡ true
unfolding run resources elem scat.Stores.Quota.Accounts.step lookup insert
offers = refl

offered-le-max_example : spent 1 uses + 50 ≤ 100
offered-le-max_example = offered-le-max [] uses 1 50 100 refl tt (omega arith) offers

owned-run_example :
    owned (History.run [] (added 100 1 ∷ added 100 2 ∷ removed 100 1 ∷ [])) 100 2
    ≡ holds 100 2 (owned [] 100 2) (added 100 1 ∷ added 100 2 ∷ removed 100 1 ∷ [])
owned-run_example = owned-run (added 100 1 ∷ added 100 2 ∷ removed 100 1 ∷ []) [] 100 2

-- Store 1 fails, store 2 has the data.
abbrev stores_at : ℕ → Proc (Unit {0})
stores_at o c w = if o == 1 then (failed c (foreign 0) ∷ [], w) else (sent c ∷ [], w)

-- Stores 1, 2 and 3 own the page.
abbrev owning : Reg
owning = (100, (1, tt) ∷ (2, tt) ∷ (3, tt) ∷ []) ∷ []

read_from-Outcome_example :
    Outcome (map stores_at (1 ∷ 2 ∷ 3 ∷ [])) page tt (
      (read_from stores_at (1 ∷ 2 ∷ 3 ∷ []) page (tt, owning)).0,
      (read_from stores_at (1 ∷ 2 ∷ 3 ∷ []) page (tt, owning)).1.0,
    )
    × ((read_from stores_at (1 ∷ 2 ∷ 3 ∷ []) page (tt, owning)).1.1 ≡ remove_owner owning 3)
unfolding remove_owner scat.Procs.first_err
read_from-Outcome_example = read_from-Outcome stores_at 1 (2 ∷ 3 ∷ []) page tt owning

cascade-failover_example :
    Outcome (map stores_at (1 ∷ 2 ∷ [])) page tt (cascade (map stores_at (1 ∷ 2 ∷ [])) page tt)
cascade-failover_example = cascade-failover (map stores_at (1 ∷ 2 ∷ [])) page tt

abbrev pub spread : Striper
spread = record {
  cfg = record { min_copies = 1; excl = 1 };
  qman = (1, record { use_ = 0; max = 1 }) ∷ (2, record { use_ = 0; max = 10 }) ∷ [];
  reg = [];
  seq = record { items = 1 ∷ 2 ∷ []; cur = 0 };
}

pub plans : (procs 20 spread page).1 ≡ plan (page ∷ []) ((100, 2) ∷ [])
unfolding procs scat.Prelude.Dict.insert scat.Stripe.fill lookup has scat.Stripe.turn
    scat.Stripe.RoundRobin.next_item scat.Stripe.priorities scat.Stripe.exclusives
plans = refl

abbrev pub page_infos : Infos
page_infos = (100, (page, 2)) ∷ []

pub gathers : gather (group_chunks page) [] 0 ≡ inl (page_infos, 2)
unfolding gather group_chunks scat.Prelude.Dict.insert scat.Chunk.size
gathers = refl

procs-Placed_example :
    ((procs 20 spread page).1 ≡ refused stripe_short)
    ⊎ ((procs 20 spread page).1 ≡ no_fuel)
    ⊎ ((copies : List (ℕ × ℕ)) × ((procs 20 spread page).1 ≡ plan (chunks_in page_infos) copies)
        × Placed spread page_infos 2 copies)
procs-Placed_example = procs-Placed 20 spread page page_infos 2 gathers

pub page_listed : has 100 page_infos ≡ true
unfolding has lookup
page_listed = refl

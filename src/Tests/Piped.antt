-- ===== src/Tests/Piped.antt =====
-- procs/: the theorems of chains, checksums, parity and backlogs at a few chunks.
use scat.Prelude.{
  ℕ, ◌+◌, ◌≤◌, ◌<◌, ◌≡◌, refl, ap, ◌≢◌, ◌↔◌, ◌⊎◌, inl, inr, true, none, some, List, [], ◌∷◌, ◌++◌,
  map, arith, take,
}
use scat.Chunk.{
  Chunk, Bytes, bytes_data, new_chunk, set_target_size, set_meta, with_data, meta, of_list,
  group_set, group_err_set,
}
use scat.Errors.{Error, foreign, integrity_check_failed}
use scat.Procs.{Res, Proc, sent, failed}
use scat.Procs.Chain.{Stage, Ender, Among, through, chain, chain-keeps_errors}
use scat.Procs.Parity.{Shards, Encoder, Parity, process, unprocess, shard_results}
use scat.Procs.Parity.Recovery.{Encodes, Survives, missing, parity-recovers}
use scat.Procs.Backlog.{
  Backlog, Step, Steps, started, closed, no_step, then_step, new_backlog, release, finish,
  Steps-bounded, Steps-drains,
}
use scat.Procs.Concur.{Concur, run, IsComplete, Steps-IsComplete}
use scat.Procs.Concur

abbrev text : Bytes
text = 65 ∷ 66 ∷ []

abbrev page : Chunk
page = new_chunk 3 (some (bytes_data text))

abbrev passing : Stage (Unit {0})
passing = record { process = λ c w. (sent c ∷ [], w); process_err = none; ender = none }

abbrev failing : Stage (Unit {0})
failing = record {
  process = λ c w. (failed c (foreign 0) ∷ [], w);
  process_err = none;
  ender = none;
}

chain-keeps_errors_example :
    Among (failed page (foreign 0)) (chain (failing ∷ passing ∷ []) page tt).0
unfolding through scat.Procs.Chain.handle
chain-keeps_errors_example =
    chain-keeps_errors (failing ∷ []) (passing ∷ []) page tt (failed page (foreign 0)) (foreign 0)
      (refl, tt) refl ([], [], refl)

-- One data shard and its copy.
abbrev either_shard : Shards → Shards ⊎ Error
either_shard (some b ∷ bs) = inl (some b ∷ some b ∷ [])
either_shard (none ∷ some b ∷ bs) = inl (some b ∷ some b ∷ [])
either_shard _ = inr (foreign 0)

abbrev first_shard : Shards → ℕ → Bytes ⊎ Error
first_shard (some b ∷ bs) n = inl (take n b)
first_shard _ n = inr (foreign 0)

abbrev mirror : Encoder
mirror = record {
  split = λ b. inl (b ∷ []);
  encode = λ bs. inl (bs ++ bs);
  reconstruct = either_shard;
  verify = λ bs. inl true;
  join = first_shard;
}

abbrev both : List Bytes
both = text ∷ text ∷ []

mirror-reconstructs :
    (bs : Shards) → Survives both bs → missing bs ≤ 1 → either_shard bs ≡ inl (map some both)
mirror-reconstructs [] s m = absurd s
mirror-reconstructs (none ∷ []) s m = absurd s
mirror-reconstructs (some b ∷ []) s m = absurd s.1
mirror-reconstructs (none ∷ none ∷ bs) s m = absurd (omega arith)
mirror-reconstructs (none ∷ some b ∷ bs) s m = ap (λ b. inl (some b ∷ some b ∷ [])) s.0
mirror-reconstructs (some a ∷ bs) s m = ap (λ b. inl (some b ∷ some b ∷ [])) s.0

mirror-Encodes : Encodes mirror 1 text both
mirror-Encodes = record {
  parts = text ∷ [];
  splits = refl;
  encodes = refl;
  reconstructs = mirror-reconstructs;
  verifies = refl;
  joins = refl;
}

-- The first shard's chunk did not pass its check.
abbrev shard_chunks : List Chunk
shard_chunks =
    set_meta (new_chunk 6 none) (group_err_set integrity_check_failed (meta (new_chunk 6 none)))
    ∷ new_chunk 7 (some (bytes_data text))
    ∷ []

abbrev gathered : Chunk
gathered =
    set_meta (set_target_size (new_chunk 3 none) 2)
      (group_set (of_list shard_chunks) (meta (new_chunk 3 none)))

abbrev with_mirror : Parity
with_mirror = record { enc = mirror; nshards = 2 }

parity-recovers_example :
    (process with_mirror page ≡ some (shard_results 6 2 both))
    × (unprocess with_mirror gathered ≡ some (sent (with_data gathered (bytes_data text)) ∷ []))
unfolding scat.Group.get_group scat.Group.get_group_err
parity-recovers_example =
    parity-recovers with_mirror 1 page gathered text both shard_chunks mirror-Encodes refl refl refl
      refl (inr (integrity_check_failed, refl, refl), (inl (refl, refl), tt)) (omega arith)

-- Of two slots one is taken, and one is about to be given back.
abbrev one_closing : Backlog
one_closing = record { slots = record { free = 0; cap = 2 }; running = 1; closing = 1 }

closes : Steps (new_backlog 2) one_closing
unfolding new_backlog scat.Procs.Backlog.take_slot
closes =
    let one : Backlog = record { slots = record { free = 1; cap = 2 }; running = 1; closing = 0 } in
    let two : Backlog = record { slots = record { free = 0; cap = 2 }; running = 2; closing = 0 } in
    then_step (new_backlog 2) two one_closing
      (then_step (new_backlog 2) one two
        (then_step (new_backlog 2) (new_backlog 2) one (no_step (new_backlog 2))
          (started (new_backlog 2) (record { free = 1; cap = 2 }) refl))
        (started one (record { free = 0; cap = 2 }) refl))
      (closed two 1 refl)

Steps-bounded_example :
    (2 ≤ 2)
    × (0 < 1 → release one_closing.slots ≢ none)
    × ((finish one_closing none ≡ none) ↔ ((one_closing.running ≡ 0) × (one_closing.closing ≡ 0)))
Steps-bounded_example = Steps-bounded 2 {b = one_closing} closes

Steps-drains_example :
    (c : Backlog) × Steps one_closing c × (c.running ≡ 0) × (c.closing ≡ 0) × (finish c none ≡ none)
Steps-drains_example = Steps-drains 2 {b = one_closing} closes

-- Two procs, one slot: the first has been started.
abbrev two_procs : List (List Res)
two_procs = (sent page ∷ []) ∷ (failed page (foreign 0) ∷ []) ∷ []

abbrev first_runs : Concur
first_runs = record {
  slots = record { free = 0; cap = 1 };
  waiting = (failed page (foreign 0) ∷ []) ∷ [];
  running = (sent page ∷ []) ∷ [];
  returning = 0;
  out = [];
}

starts : Concur.Steps 1 (run 1 two_procs) first_runs
unfolding scat.Procs.Backlog.new_slots scat.Procs.Backlog.take_slot
starts =
    Concur.then_step 0 (run 1 two_procs) (run 1 two_procs) first_runs
      (Concur.no_step (run 1 two_procs))
      (Concur.started (run 1 two_procs) (sent page ∷ []) ((failed page (foreign 0) ∷ []) ∷ [])
        (record { free = 0; cap = 1 }) refl refl)

Steps-IsComplete_example :
    (1 ≤ 1)
    × (1 ≤ 8)
    × (IsComplete two_procs first_runs ⊎ ((d : Concur) × Concur.Step first_runs d))
    × ((Concur.finish first_runs none ≡ none) ↔ (1 + 0 ≡ 0))
Steps-IsComplete_example = Steps-IsComplete 1 1 two_procs {c = first_runs} (omega arith) starts

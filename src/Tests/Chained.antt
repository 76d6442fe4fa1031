-- ===== src/Tests/Chained.antt =====
-- procs/chain.go: a schedule of two stages.
use mathlib.Core.List.{Perm}
use scat.Prelude.{◌≤◌, refl, ◌⊎◌, none, List, [], ◌∷◌}
use scat.Chunk.{Chunk, new_chunk}
use scat.Procs.{sent}
use scat.Procs.Chain.{handle, through}
use scat.Procs.Chain.Network.{
  Pure, Net, node, push, passes, Step, start, send, Steps, no_step, then_step, idle, IsDone,
  arrived,
}
use scat.Procs.Chain.Schedules.{chain_steps, Steps-confluent}

-- A proc that sends each chunk on twice.
abbrev twice : Pure
twice = record { process = λ c w. (sent c ∷ sent c ∷ [], w); process_err = none; ender = none }

abbrev seed : Chunk
seed = new_chunk 7 none

abbrev both : List Pure
both = twice ∷ twice ∷ []

abbrev started : Net
started = node twice [] ((sent seed ∷ sent seed ∷ []) ∷ []) (idle (twice ∷ []) [])

abbrev one_sent : Net
one_sent = node twice [] ((sent seed ∷ []) ∷ []) (idle (twice ∷ []) (sent seed ∷ []))

run : Steps 2 (idle both (sent seed ∷ [])) one_sent
unfolding handle passes push
run =
    then_step 1 (idle both (sent seed ∷ [])) started one_sent
      (then_step 0 (idle both (sent seed ∷ [])) (idle both (sent seed ∷ [])) started
        (no_step (idle both (sent seed ∷ [])))
        (start twice (sent seed) [] [] (idle (twice ∷ []) []) refl))
      (send twice [] [] [] (sent seed) (sent seed ∷ []) ((sent seed ∷ sent seed ∷ []) ∷ [])
        ((sent seed ∷ []) ∷ []) (idle (twice ∷ []) []) refl refl)

Steps-confluent_example :
    (2 ≤ chain_steps both seed)
    × (((n' : Net) × Step one_sent n')
        ⊎ (IsDone one_sent × Perm (arrived one_sent) (through both (sent seed ∷ []) tt).0))
Steps-confluent_example = Steps-confluent both seed 2 one_sent run

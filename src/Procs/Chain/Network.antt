-- ===== src/Procs/Chain/Network.antt =====
-- procs/chain.go: the stages of a chain at work side by side.
--
-- The goroutine of a stage takes the results on its input one by one. An error that the stage does
-- not handle it sends on itself; for the others it starts the proc, and a goroutine for each passes
-- on what the proc yields. So what a stage sends is in no fixed order. The stages have no state,
-- and channels are queues.

use scat.Prelude.{ℕ, suc, ◌≡◌, Bool, true, false, none, some, List, [], ◌∷◌, ◌++◌, All}
use scat.Procs.{Res}
use scat.Procs.Chain.{Stage, handle}

abbrev pub Pure : Type 0
Pure = Stage (Unit {0})

-- The stages, each with its input and the channels of the procs that it has started; at the end
-- what is sent on the chain's own channel.
pub data Net : Type 0 where
  sink : List Res → Net
  node : Pure → List Res → List (List Res) → Net → Net

-- `out <- res`
unfoldable pub push : Res → Net → Net
push r (sink rs) = sink (rs ++ r ∷ [])
push r (node s q ps n) = node s (q ++ r ∷ []) ps n

-- Whether `process` sends the result on by itself.
unfoldable pub passes : Pure → Res → Bool
passes s r = elim r.err [
  | none ↦ false
  | some e ↦ elim r.chunk [
    | none ↦ true
    | some c ↦ elim s.process_err [ none ↦ true | some f ↦ false ]
  ]
]

pub data Step : Net → Net → Type 0 where
  pass :
      (s : Pure) (r : Res) (q : List Res) (ps : List (List Res)) (n : Net)
      → passes s r ≡ true
      → Step (node s (r ∷ q) ps n) (node s q ps (push r n))
  start :
      (s : Pure) (r : Res) (q : List Res) (ps : List (List Res)) (n : Net)
      → passes s r ≡ false
      → Step (node s (r ∷ q) ps n) (node s q (ps ++ (handle s r tt).0 ∷ []) n)
  send :
      (s : Pure) (q : List Res) (before after : List (List Res)) (r : Res) (rs : List Res)
      (ps ps' : List (List Res)) (n : Net)
      → ps ≡ before ++ (r ∷ rs) ∷ after
      → ps' ≡ before ++ rs ∷ after
      → Step (node s q ps n) (node s q ps' (push r n))
  later :
      (s : Pure) (q : List Res) (ps : List (List Res)) (n n' : Net)
      → Step n n'
      → Step (node s q ps n) (node s q ps n')

-- So many steps.
pub data Steps : ℕ → Net → Net → Type 0 where
  no_step : (n : Net) → Steps 0 n n
  then_step : (k : ℕ) (a b c : Net) → Steps k a b → Step b c → Steps (suc k) a c

-- The chain's stages before the first step, behind what is sent into the first.
abbrev pub idle : List Pure → List Res → Net
idle [] rs = sink rs
idle (s ∷ ss) rs = node s rs [] (idle ss [])

-- Every channel has been emptied.
abbrev pub IsDone : Net → Type 0
IsDone (sink rs) = Unit
IsDone (node s q ps n) = (q ≡ []) × All (λ rs. rs ≡ []) ps × IsDone n

-- What was sent on the chain's channel.
abbrev pub arrived : Net → List Res
arrived (sink rs) = rs
arrived (node s q ps n) = arrived n

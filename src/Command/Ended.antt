-- ===== src/Command/Ended.antt =====
-- cmd/main.go: the command ends and leaves nothing behind.
use scat.Prelude.{ℕ, ◌≡◌, Bool, true, false, List, [], ◌∷◌}
use scat.Argparse.{Parsed, ok}
use scat.Argproc.{Proc}
use scat.Command.{
  Call, printed_version, made_tmp, finished_tmp, started_ticker, stopped_ticker, ran_procs, Started,
  ended, panicked, never, blocks, Around,
}

-- What is open at a moment, the last first.
pub data Open : Type 0 where
  tmp ticker : Open

-- What is opened is closed in the reverse order; procs run only with the directory there.
abbrev pub nested : List Open → List Call → Bool
nested [] [] = true
nested (o ∷ os) [] = false
nested os (made_tmp ∷ cs) = nested (tmp ∷ os) cs
nested os (started_ticker ∷ cs) = nested (ticker ∷ os) cs
nested (tmp ∷ os) (finished_tmp ∷ cs) = nested os cs
nested (ticker ∷ os) (stopped_ticker ∷ cs) = nested os cs
nested (o ∷ os) (ran_procs p ∷ cs) = nested (o ∷ os) cs
nested [] (printed_version ∷ cs) = nested [] cs
nested _ _ = false

-- What `start` has made of these procs: it has ended, and all that was opened has been closed; or
-- it has not, and then the run of the procs blocks.
abbrev pub EndsNested : Around → Parsed Proc → Started → Type 0
EndsNested a r (ended e calls) = nested [] calls ≡ true
EndsNested a r (panicked calls) = nested [] calls ≡ true
EndsNested a r (never calls) = (p : Proc) × (n : ℕ) × (r ≡ ok p n) × (a.process p ≡ blocks)

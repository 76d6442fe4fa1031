-- ===== src/Stores/Striping/Copying.antt =====
-- stores/stripe/stripe.go: the procs that `Procs` returns, and what they do to the stores.
--
-- The state is what the stores hold, with the striping proc. A store is its proc, by identity. The
-- procs run one after the other, in any order.
use scat.Prelude.{ℕ, Option, none, some, List, [], ◌∷◌, map}
use scat.Prelude.Dict.{lookup}
use scat.Chunk.{Chunk}
use scat.Errors.{Error}
use scat.Procs.{Proc, sent}
use scat.Procs.Combine.{on_end, discard_chunks}
use scat.Procs.Concur
use scat.Stores.Striping.{Striper, Infos, copied}

-- `sliceProc`: it sends its chunks, whatever it is given.
unfoldable pub slice_proc : {W : Type 0} → List Chunk → Proc W
slice_proc cs c w = (map sent cs, w)

-- `chunkArgProc`: the proc is given its own chunk.
unfoldable pub chunk_arg_proc : {W : Type 0} → Proc W → Chunk → Proc W
chunk_arg_proc p own c w = p own w

module _ {W : Type 0} (store : ℕ → Proc W) where
  -- A store's proc beside the striping proc.
  unfoldable pub beside : ℕ → Proc (W × Striper)
  beside l c w = let r = store l c w.0 in (r.0, (r.1, w.1))

  -- What `OnEnd` calls.
  abbrev pub end_copy : ℕ → ℕ → ℕ → Option Error → W × Striper → W × Striper
  end_copy h l use_ e w = (w.0, copied w.1 h l use_ e)

  -- The proc of one copy. `Procs` panics if the chunk is not known.
  unfoldable pub copy_proc : Infos → ℕ × ℕ → Proc (W × Striper)
  unfolding on_end discard_chunks chunk_arg_proc beside
  copy_proc infos (h, l) = elim (lookup h infos) [
    | none ↦ λ c w. ([], w)
    | some (own, use_) ↦ on_end (end_copy h l use_) (discard_chunks (chunk_arg_proc (beside l) own))
  ]

  unfoldable pub copy_procs : List Chunk → Infos → List (ℕ × ℕ) → List (Proc (W × Striper))
  unfolding slice_proc copy_proc
  copy_procs cs infos copies = slice_proc cs ∷ map (copy_proc infos) copies

-- `Finish`, given what the finishing of each store returns.
unfoldable pub finish : (ℕ → Option Error) → List ℕ → Option Error
unfolding Concur.first_err
finish fin ids = Concur.first_err (map fin ids)

-- ===== src/Procs/Combine.antt =====
-- procs/cascade.go, onend.go, filter.go, discardchunk.go, procfunc.go and checksum.go: procs made
-- from other procs and from functions.
use scat.Prelude.{
  ℕ, ◌≡◌, refl, sym, ap, ◌∙◌, ◌≢◌, ◌⊎◌, inl, inr, Option, none, some, List, [], ◌∷◌, ◌++◌, map,
  arith, ◌==◌, if◌then◌else◌, Option-cases,
}
use scat.Chunk.{chunk, Chunk, Bytes, payload, hash, set_hash, with_data, bytes_data, read}
use scat.Errors.{Error, integrity_check_failed}
use scat.Procs.{Res, Proc, sent, failed, single_res, first_err}

-- The loop of `DiscardChunks`.
unfoldable pub errors_only : List Res → List Res
errors_only [] = []
errors_only (r ∷ rs) = elim r.err [ none ↦ errors_only rs | some _ ↦ r ∷ errors_only rs ]

module _ {W : Type 0} where
  -- The loop of `Cascade.Process`, with its buffer.
  unfoldable pub cascade_from : List (Proc W) → Chunk → List Res → W → List Res × W
  cascade_from [] c buf w = (buf, w)
  cascade_from (p ∷ ps) c buf w =
      let r = p c w in elim (first_err r.0) [ none ↦ r | some _ ↦ cascade_from ps c r.0 r.1 ]

  unfoldable pub cascade : List (Proc W) → Proc W
  unfolding cascade_from
  cascade ps c w = cascade_from ps c [] w

  -- `OnEnd`: the function is told the first error, if any, after the last result.
  unfoldable pub on_end : (Option Error → W → W) → Proc W → Proc W
  on_end end p c w = let r = p c w in (r.0, end (first_err r.0) r.1)

  unfoldable pub filter : (Res → Res) → Proc W → Proc W
  filter f p c w = let r = p c w in (map f r.0, r.1)

  unfoldable pub discard_chunks : Proc W → Proc W
  unfolding errors_only
  discard_chunks p c w = let r = p c w in (errors_only r.0, r.1)

  -- `InplaceFunc`: the function returns the chunk as it leaves it.
  unfoldable pub inplace_func : (Chunk → W → (Chunk × Option Error) × W) → Proc W
  inplace_func f c w = let r = f c w in (single_res r.0.0 r.0.1, r.1)

  unfoldable pub chunk_func : (Chunk → W → (Chunk × Option Error) × W) → Proc W
  chunk_func f c w =
      let r = f c w in (elim r.0.1 [ some e ↦ failed c e ∷ [] | none ↦ sent r.0.0 ∷ [] ], r.1)

  -- `ChunkIterFunc`: the iterator is the chunks it yields and its error at the end.
  unfoldable pub chunk_iter_func : (Chunk → W → (List Chunk × Option Error) × W) → Proc W
  chunk_iter_func f c w =
      let r = f c w in (map sent r.0.0 ++ elim r.0.1 [ some e ↦ failed c e ∷ [] | none ↦ [] ], r.1)

-- checksum.go, with the hash function as an argument. The outer `none` is the panic of a second
-- read of reader data.
module _ (sum : Bytes → ℕ) where
  unfoldable pub checksum_process : Chunk → Option (Chunk × Option Error)
  checksum_process c = elim (read (payload c)) [
    | none ↦ none
    | some (b, some e, rest) ↦ some (with_data c rest, some e)
    | some (b, none, rest) ↦ some (set_hash (with_data c rest) (sum b), none)
  ]

  unfoldable pub checksum_unprocess : Chunk → Option (Chunk × Option Error)
  checksum_unprocess c = elim (read (payload c)) [
    | none ↦ none
    | some (b, some e, rest) ↦ some (with_data c rest, some e)
    | some (b, none, rest) ↦
        some (with_data c rest, if sum b == hash c then none else some integrity_check_failed)
  ]

  -- A chunk whose bytes were given their hash and that comes back with other bytes is refused
  -- exactly if these have another hash, and keeps them and all else either way.
  pub checksum_unprocess-process :
      (c : Chunk) (b b' : Bytes)
      → elim (checksum_process (with_data c (bytes_data b))) [
        | none ↦ none
        | some (d, _) ↦ checksum_unprocess (with_data d (bytes_data b'))
      ]
        ≡ some (
          set_hash (with_data c (bytes_data b')) (sum b),
          if sum b' == sum b then none else some integrity_check_failed,
        )
  unfolding checksum_process checksum_unprocess read
  checksum_unprocess-process (chunk n d h t m) b b' = refl

-- The state after these procs were run in turn.
abbrev pub ran : {W : Type 0} → List (Proc W) → Chunk → W → W
ran [] c w = w
ran (p ∷ ps) c w = ran ps c (p c w).1

-- Each of these procs, run after those before it, yields an error.
abbrev pub AllFail : {W : Type 0} → List (Proc W) → Chunk → W → Type 0
AllFail [] c w = Unit
AllFail (p ∷ ps) c w = (first_err (p c w).0 ≢ none) × AllFail ps c (p c w).1

-- A run of a cascade: the first proc without an error, run after those that failed, yields the
-- results; or all fail.
abbrev pub Outcome : {W : Type 0} → List (Proc W) → Chunk → W → List Res × W → Type 0
Outcome {W = W} ps c w r =
    ((before : List (Proc W)) × (p : Proc W) × (after : List (Proc W)) × (ps ≡ before ++ p ∷ after)
      × AllFail before c w
      × (first_err (p c (ran before c w)).0 ≡ none)
      × (r ≡ p c (ran before c w)))
    ⊎ (AllFail ps c w × (r.1 ≡ ran ps c w) × ((ps ≡ []) ⊎ (first_err r.0 ≢ none)))

module _ {W : Type 0} (p : Proc W) (ps : List (Proc W)) (c : Chunk) (buf : List Res) (w : W) where
  pub cascade_from-stop : first_err (p c w).0 ≡ none → cascade_from (p ∷ ps) c buf w ≡ p c w
  unfolding cascade_from
  cascade_from-stop fine = rw (fine, cascade_from) refl

  pub cascade_from-go :
      {e : Error}
      → first_err (p c w).0 ≡ some e
      → cascade_from (p ∷ ps) c buf w ≡ cascade_from ps c (p c w).0 (p c w).1
  unfolding cascade_from
  cascade_from-go err = rw (err, cascade_from) refl

cascade_from-Outcome :
    {W : Type 0} (ps : List (Proc W)) (c : Chunk) (buf : List Res) (w : W)
    → Outcome ps c w (cascade_from ps c buf w)
unfolding cascade_from
cascade_from-Outcome [] c buf w = inr (tt, refl, inl refl)
cascade_from-Outcome {W = W} (p ∷ ps) c buf w = elim (Option-cases (first_err (p c w).0)) [
  | inl fine ↦ inl ([], p, ps, refl, tt, fine, cascade_from-stop p ps c buf w fine)
  | inr (e, err) ↦
      let failed : first_err (p c w).0 ≢ none = λ n. absurd (ground arith) in
      let step : cascade_from (p ∷ ps) c buf w ≡ cascade_from ps c (p c w).0 (p c w).1 =
        cascade_from-go p ps c buf w err in
      elim (cascade_from-Outcome ps c (p c w).0 (p c w).1) [
        | inl (before, q, after, split, fails, fine, same) ↦
            inl (p ∷ before, q, after, ap (◌∷◌ p) split, (failed, fails), fine, step ∙ same)
        | inr (fails, end, inl empty) ↦ inr (
          (failed, fails),
          ap (λ r. r.1) step ∙ end,
          inr (λ n. failed (
              ap (λ q. first_err (cascade_from q c (p c w).0 (p c w).1).0) (sym empty)
              ∙ ap (λ r. first_err r.0) (sym step)
              ∙ n)),
        )
        | inr (fails, end, inr bad) ↦ inr (
          (failed, fails),
          ap (λ r. r.1) step ∙ end,
          inr (λ n. bad (ap (λ r. first_err r.0) (sym step) ∙ n)),
        )
      ]
]

-- A cascade yields just what the first proc without an error yields, and those after it are not
-- run; or all of its procs fail, and then an error is among what it yields, unless it is empty.
pub cascade-failover :
    {W : Type 0} (ps : List (Proc W)) (c : Chunk) (w : W) → Outcome ps c w (cascade ps c w)
unfolding cascade
cascade-failover ps c w = cascade_from-Outcome ps c [] w

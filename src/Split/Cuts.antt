-- ===== src/Split/Cuts.antt =====
-- What a splitter yields, for the cuts that its chunker makes.
use scat.Prelude.{
  ℕ, zero, suc, ◌+◌, ◌<◌, ◌≡◌, refl, ap, ◌∙◌, ◌⊎◌, inl, inr, Option, some, List, [], ◌∷◌, ◌++◌, map,
  arith, ltb, if◌then◌else◌, Bool-cases, length,
}
use scat.Chunk.{Chunk, Bytes, bytes_data, new_chunk, set_target_size}
use scat.Errors.{Error}
use scat.Procs.{sent}
use scat.Split.{Splitter, sends, overflow, send_first, ending, next, iterate, int_end}

abbrev pub numbered_chunk : ℕ → Bytes → Chunk
numbered_chunk n b = set_target_size (new_chunk n (some (bytes_data b))) (length b)

-- The chunks of these pieces, with consecutive numbers.
abbrev pub numbered : ℕ → List Bytes → List Chunk
numbered n [] = []
numbered n (b ∷ bs) = numbered_chunk n b ∷ numbered (suc n) bs

module _ {C : Type 0} (next_cut : C → (Bytes ⊎ Option Error) × C) where
  -- From this state on, the chunker cuts these pieces and then ends like this.
  pub data Cuts : C → List Bytes → Option Error → Type 0 where
    cuts_end : (c d : C) (e : Option Error) → next_cut c ≡ (inr e, d) → Cuts c [] e
    cuts_piece :
        (c d : C) (b : Bytes) (bs : List Bytes) (e : Option Error)
        → next_cut c ≡ (inl b, d)
        → Cuts d bs e
        → Cuts c (b ∷ bs) e

  iterate-end :
      (fuel : ℕ) (c : Chunk) (s : Splitter C) (d : C) (e : Option Error)
      → next_cut s.chunker ≡ (inr e, d)
      → iterate next_cut (suc fuel) c s ≡ sends (ending c e)
  unfolding iterate next
  iterate-end fuel c s d e at_end = rw (at_end, iterate, next) refl

  iterate-piece :
      (fuel : ℕ) (c : Chunk) (s : Splitter C) (d : C) (b : Bytes)
      → next_cut s.chunker ≡ (inl b, d)
      → iterate next_cut (suc fuel) c s ≡ (
          if ltb (s.num + 1) int_end
          then send_first (sent (numbered_chunk s.num b)) (
              iterate next_cut fuel c (record {
                chunker = d;
                num = s.num + 1;
                chunk = some (numbered_chunk s.num b);
                err = s.err;
              }))
          else overflow)
  unfolding iterate next
  iterate-piece fuel c s d b piece = elim (Bool-cases (ltb (s.num + 1) int_end)) [
    | inl room ↦ rw (piece, iterate, next, room) refl
    | inr over ↦ rw (piece, iterate, next, over) refl
  ]

  -- With enough fuel, the loop sends the pieces as chunks with consecutive numbers and then the
  -- error of the chunker, if any; unless the numbers go past the largest int, and then it panics.
  pub iterate-Cuts :
      (fuel : ℕ) (c : Chunk) (s : Splitter C) (bs : List Bytes) (e : Option Error)
      → Cuts s.chunker bs e
      → length bs < fuel
      → s.num < int_end
      → iterate next_cut fuel c s ≡ (
          if ltb (s.num + length bs) int_end
          then sends (map sent (numbered s.num bs) ++ ending c e)
          else overflow)
  iterate-Cuts zero c s bs e cuts enough small = absurd (omega arith)
  iterate-Cuts (suc fuel) c s [] e (cuts_end _ d _ at_end) enough small =
      iterate-end fuel c s d e at_end ∙ ground arith
  iterate-Cuts (suc fuel) c s (b ∷ bs) e (cuts_piece _ d _ _ _ piece cuts) enough small =
      elim (Bool-cases (ltb (s.num + 1) int_end)) [
        | inl room ↦
            let t : Splitter C = record {
              chunker = d;
              num = s.num + 1;
              chunk = some (numbered_chunk s.num b);
              err = s.err;
            } in
            iterate-piece fuel c s d b piece
            ∙ rw room (
                ap (send_first (sent (numbered_chunk s.num b)))
                  (iterate-Cuts fuel c t bs e cuts (omega arith) (ground arith))
                ∙ ground arith)
        | inr over ↦ iterate-piece fuel c s d b piece ∙ ground arith
      ]

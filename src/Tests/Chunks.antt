-- ===== src/Tests/Chunks.antt =====
-- chunk.go, seriessort/ and procs/: the theorems at a few small chunks.
use mathlib.Core.List.{Perm}
use scat.Prelude.{
  ℕ, ◌+◌, ◌/◌, ◌<◌, ◌≡◌, refl, subst, ◌≢◌, ◌⊎◌, inl, inr, true, false, Option, none, some, List, [],
  ◌∷◌, ◌++◌, map, arith, ◌==◌, Bool-cases, pos, length, get_elem?,
}
use scat.Prelude.Dict.{lookup}
use scat.Chunk.{Chunk, Bytes, bytes_data, num, new_chunk, set_hash}
use scat.Errors.{Error}
use scat.Series.{Series, add, empty_series, drop_first, sorted}
use scat.Sort.{run, process}
use scat.Sort.Order.{received, run-received, run-total}
use scat.Procs.{sent}
use scat.Split.{Splitter}
use scat.Split.Cuts.{numbered_chunk, Cuts}
use scat.Join
use scat.Group.{Group, build, pending}
use scat.Group.Pending.{IsPending, IsValid, IsRun, build-IsValid, build-grouped}
use scat.IndexProc.{Index, flush}
use scat.IndexProc.Flushing.{ready, report, lines, flush-ready}
use scat.IndexProc.Unproc.{index_unprocess, listed_chunks, index_unprocess-flush}

abbrev piece : ℕ → Chunk
piece n = set_hash (new_chunk n (some (bytes_data (65 ∷ 66 ∷ [])))) (100 + n)

abbrev shuffled : List Chunk
shuffled = piece 1 ∷ piece 0 ∷ piece 2 ∷ []

abbrev in_order : List Chunk
in_order = piece 0 ∷ piece 1 ∷ piece 2 ∷ []

abbrev all_out : Series Chunk
all_out = record { values = []; start = 3 }

sorts : run empty_series shuffled ≡ some (all_out, in_order)
unfolding run process add drop_first sorted
sorts = refl

run-received_example :
    ((j : ℕ) → j < 3 → get_elem? in_order j ≡ received shuffled j) × (received shuffled 3 ≡ none)
run-received_example = run-received shuffled {s = all_out} {out = in_order} sorts

run-total_example : run empty_series shuffled ≢ none
run-total_example = run-total shuffled (refl, (refl, (refl, tt)))

-- Chunk 5 of a group of two waits for chunk 4.
abbrev half : Group
half = record { size = 2; growing = (2, piece 5 ∷ []) ∷ [] }

half-IsValid : IsValid half
unfolding lookup
half-IsValid = record {
  positive = omega arith;
  pending_all = λ head cs e. elim (Bool-cases (2 == head)) [
    | inl own ↦
        let same : piece 5 ∷ [] ≡ cs = ground arith in
        let head_is : 2 ≡ head = ground arith in
        subst (IsPending 2 head) same (omega arith, omega arith, (head_is, tt))
    | inr other ↦ absurd (ground arith)
  ];
}

build-IsValid_example : IsValid (build half (piece 4)).0
build-IsValid_example = build-IsValid half (piece 4) half-IsValid

abbrev two : ℕ
two = 2

build-grouped_example :
    (two ≡ num (piece 4) / half.size)
    × (length (piece 4 ∷ piece 5 ∷ []) ≡ half.size)
    × IsRun 4 (piece 4 ∷ piece 5 ∷ [])
    × Perm (piece 4 ∷ piece 5 ∷ []) (pending half 2 ++ piece 4 ∷ [])
    × (lookup 2 (build half (piece 4)).0.growing ≡ none)
unfolding build lookup scat.Prelude.Sorting.sort_by
build-grouped_example =
    build-grouped half (piece 4) {head = 2} {cs = piece 4 ∷ piece 5 ∷ []} half-IsValid refl

abbrev accepts : Bytes → Bytes → Option Error
accepts w b = none

-- Chunk 0 has ended with one final chunk; chunk 1 has not.
abbrev two_lines : Index
two_lines = record {
  written = [];
  order = record { values = some 100 ∷ some 101 ∷ []; start = 0 };
  finals =
      (
        100,
        record {
          num = 0;
          entries = record { num = 0; hash = 7; target_size = 2 } ∷ [];
          complete = true;
        },
      )
      ∷ (101, record { num = 1; entries = []; complete = false })
      ∷ [];
}

flush-ready_example : flush accepts two_lines ≡ (
  record two_lines {
    written = report two_lines.finals (ready two_lines.finals (sorted two_lines.order));
    order =
        drop_first two_lines.order (pos (length (ready two_lines.finals (sorted two_lines.order))));
  },
  none,
)
flush-ready_example = flush-ready accepts (λ w b. refl) two_lines

index_unprocess-flush_example :
    ((flush accepts two_lines).0.written
      ≡ lines (record { num = 0; hash = 7; target_size = 2 } ∷ []))
    × (index_unprocess (piece 3) (flush accepts two_lines).0.written
        ≡ some (map sent (listed_chunks 3 (record { num = 0; hash = 7; target_size = 2 } ∷ []))))
unfolding sorted lookup scat.Prelude.Sorting.sort_by
index_unprocess-flush_example =
    index_unprocess-flush accepts two_lines (piece 3) [] (λ w b. refl) refl (omega arith, tt)

-- A chunker whose state is the pieces that are left, and a writer that keeps what it gets.
abbrev next_piece : List Bytes → (Bytes ⊎ Option Error) × List Bytes
next_piece [] = (inr none, [])
next_piece (b ∷ bs) = (inl b, bs)

abbrev two_pieces : List Bytes
two_pieces = (65 ∷ 66 ∷ []) ∷ (67 ∷ []) ∷ []

abbrev keep : Bytes → Bytes → Option Error × Bytes
keep b w = (none, w ++ b)

abbrev kept : Bytes → Bytes
kept w = w

-- The second piece comes first.
abbrev second_first : List Chunk
second_first = numbered_chunk 1 (67 ∷ []) ∷ numbered_chunk 0 (65 ∷ 66 ∷ []) ∷ []

abbrev splitter : Splitter (List Bytes)
splitter = record { chunker = two_pieces; num = 0; chunk = none; err = none }

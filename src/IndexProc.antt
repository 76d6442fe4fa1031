-- ===== src/IndexProc.antt =====
-- procs/index.go: the proc that writes the index of the chunks that a chain ends with.
--
-- The writer is an argument: given what was written so far and the next bytes, its error if any.
-- After an error nothing is said of what it wrote. Each operation stands for one that holds the
-- locks of the code. Entries are sorted for writing; the code sorts them in place, and nothing
-- reads their order but this.
pub mod Flushing
pub mod Hashes
pub mod Unproc
use scat.Prelude.{
  ℕ, zero, suc, ◌/◌, ◌%◌, ◌^◌, Bool, true, false, not, Option, none, some, List, [], ◌∷◌, ◌++◌, ltb,
  ◌==◌, if◌then◌else◌, pos,
}
use scat.Prelude.Dict.{Dict, lookup, insert, has}
use scat.Prelude.Sorting.{sort_by}
use scat.Series.{Series, add, drop_first, sorted, len, empty_series}
use scat.Chunk.{Bytes, Chunk}
use scat.Chunk
use scat.Index.{write_line, hash_size}
use scat.Errors.{Error, unprocessed_chunk, process_ended, dup_chunk, short}
use scat.Procs.{Res, sent}

pub record Entry : Type 0 where
  pub num : ℕ
  pub hash : ℕ
  pub target_size : ℕ

pub record Finals : Type 0 where
  pub num : ℕ
  pub entries : List Entry
  pub complete : Bool

pub record Index : Type 0 where
  pub written : Bytes
  pub order : Series ℕ
  pub finals : Dict Finals

abbrev pub new_index : Index
new_index = record { written = []; order = empty_series; finals = [] }

-- The bytes of a hash, the foremost first.
unfoldable pub hash_bytes : ℕ → ℕ → Bytes
hash_bytes zero h = []
hash_bytes (suc n) h = h / 256 ^ n % 256 ∷ hash_bytes n h

unfoldable pub entry_line : Entry → Bytes
unfolding hash_bytes write_line
entry_line e = write_line (hash_bytes hash_size e.hash) e.target_size []

abbrev new_finals : Chunk → Finals
new_finals c = record { num = Chunk.num c; entries = []; complete = false }

-- `Process`: a chunk whose hash was seen before goes no further. `none` is the panic of `Add`.
unfoldable pub process : Index → Chunk → Option (Index × List Res)
process idx c = elim (add idx.order (pos (Chunk.num c)) (Chunk.hash c)) [
  | none ↦ none
  | some order ↦ some (
      if has (Chunk.hash c) idx.finals then (record idx { order = order }, []) else (
        record idx { order = order; finals = insert (Chunk.hash c) (new_finals c) idx.finals },
        sent c ∷ [],
      ))
]

abbrev pub entry_of : Chunk → Entry
entry_of final = record {
  num = Chunk.num final;
  hash = Chunk.hash final;
  target_size = Chunk.target_size final;
}

-- `ProcessFinal`: the new index, and the error if any.
unfoldable pub process_final : Index → Chunk → Chunk → Index × Option Error
process_final idx c final = elim (lookup (Chunk.hash c) idx.finals) [
  | none ↦ (idx, some unprocessed_chunk)
  | some f ↦
      if f.complete
      then (idx, some process_ended)
      else if not (f.num == Chunk.num c)
      then (idx, some dup_chunk)
      else (
        record idx {
          finals =
              insert (Chunk.hash c) (record f { entries = f.entries ++ entry_of final ∷ [] })
                idx.finals;
        },
        none,
      )
]

unfoldable pub set_finals_complete : Index → Chunk → Index × Option Error
set_finals_complete idx c = elim (lookup (Chunk.hash c) idx.finals) [
  | none ↦ (idx, some unprocessed_chunk)
  | some f ↦ if not (f.num == Chunk.num c) then (idx, none) else (
    record idx { finals = insert (Chunk.hash c) (record f { complete = true }) idx.finals },
    none,
  )
]

abbrev pub complete_finals : Dict Finals → ℕ → Option Finals
complete_finals finals h = elim (lookup h finals) [
  | none ↦ none
  | some f ↦ if f.complete then some f else none
]

abbrev pub entry_num : Entry → ℕ
entry_num e = e.num

module _ (fails : Bytes → Bytes → Option Error) where
  unfoldable pub write_entries : Bytes → List Entry → Bytes × Option Error
  unfolding entry_line
  write_entries w [] = (w, none)
  write_entries w (e ∷ es) = elim (fails w (entry_line e)) [
    | some err ↦ (w, some err)
    | none ↦ write_entries (w ++ entry_line e) es
  ]

  -- The loop of `flush`: what was written, how many positions are done, and the error.
  unfoldable pub flush_loop : Dict Finals → List ℕ → Bytes → Bytes × ℕ × Option Error
  unfolding write_entries
  flush_loop finals [] w = (w, 0, none)
  flush_loop finals (h ∷ hs) w = elim (complete_finals finals h) [
    | none ↦ (w, 0, none)
    | some f ↦
        let r = write_entries w (sort_by entry_num f.entries) in
        elim r.1 [
          | some err ↦ (r.0, 0, some err)
          | none ↦ let later = flush_loop finals hs r.0 in (later.0, suc later.1, later.2)
        ]
  ]

  unfoldable pub flush : Index → Index × Option Error
  flush idx =
      let r = flush_loop idx.finals (sorted idx.order) idx.written in
      (record idx { written = r.0; order = drop_first idx.order (pos r.1) }, r.2)

  unfoldable pub process_end : Index → Chunk → Index × Option Error
  process_end idx c =
      let r = set_finals_complete idx c in
      elim r.1 [ some err ↦ (r.0, some err) | none ↦ flush r.0 ]

unfoldable pub finish : Index → Option Error
finish idx = if ltb 0 (len idx.order) then some short else none

-- ===== src/IndexProc/Flushing.antt =====
-- procs/index.go: what is written, and when.
use scat.Prelude.{
  ℕ, suc, ◌≡◌, ap, ◌∙◌, ◌≢◌, ◌⊎◌, inl, inr, Bool, true, false, Option, none, some, List, [], ◌∷◌,
  ◌++◌, append-nil, append_assoc, arith, ◌==◌, if◌then◌else◌, Bool-cases, Option-cases, pos, length,
}
use scat.Prelude.Dict.{Dict, lookup, insert, lookup-insert}
use scat.Prelude.Sorting.{sort_by}
use scat.Series.{drop_first, sorted}
use scat.Chunk.{Bytes, Chunk, num, hash}
use scat.Errors.{Error}
use scat.IndexProc.{
  Entry, Finals, Index, entry_line, entry_num, process_final, complete_finals, write_entries,
  flush_loop, flush, entry_of,
}

abbrev pub lines : List Entry → Bytes
lines [] = []
lines (e ∷ es) = entry_line e ++ lines es

-- Processing has ended for all chunks with this hash.
abbrev pub has_ended : Dict Finals → ℕ → Bool
has_ended finals h = elim (lookup h finals) [ none ↦ false | some f ↦ f.complete ]

-- The hashes in front whose processing has ended.
abbrev pub ready : Dict Finals → List ℕ → List ℕ
ready finals [] = []
ready finals (h ∷ hs) = if has_ended finals h then h ∷ ready finals hs else []

-- The lines of these hashes, in order, those of each hash by the number of the final chunk.
abbrev pub report : Dict Finals → List ℕ → Bytes
report finals [] = []
report finals (h ∷ hs) =
    elim (lookup h finals) [ none ↦ [] | some f ↦ lines (sort_by entry_num f.entries) ]
    ++ report finals hs

module _ (fails : Bytes → Bytes → Option Error) (never : (w b : Bytes) → fails w b ≡ none) where
  write_entries-lines :
      (w : Bytes) (es : List Entry) → write_entries fails w es ≡ (w ++ lines es, none)
  unfolding write_entries
  write_entries-lines w [] = rw append-nil
  write_entries-lines w (e ∷ es) =
      rw (never w (entry_line e), write_entries)
        (write_entries-lines (w ++ entry_line e) es
          ∙ ap (λ v. (v, none)) (append_assoc w (entry_line e) (lines es)))

  flush_loop-ready :
      (finals : Dict Finals) (hs : List ℕ) (w : Bytes)
      → flush_loop fails finals hs w
        ≡ (w ++ report finals (ready finals hs), length (ready finals hs), none)
  unfolding flush_loop
  flush_loop-ready finals [] w = rw append-nil
  flush_loop-ready finals (h ∷ hs) w = elim (Option-cases (complete_finals finals h)) [
    | inl c ↦
        let stops : ready finals (h ∷ hs) ≡ [] = ground arith in
        let ends : flush_loop fails finals (h ∷ hs) w ≡ (w, 0, none) = rw (c, flush_loop) in
        rw stops (rw append-nil ends)
    | inr (f, c) ↦
        let entries = sort_by entry_num f.entries in
        let goes : ready finals (h ∷ hs) ≡ h ∷ ready finals hs = ground arith in
        let found : lookup h finals ≡ some f = ground arith in
        let text : report finals (h ∷ ready finals hs)
            ≡ lines entries ++ report finals (ready finals hs) =
          rw (found, report) in
        let wrote = write_entries-lines w entries in
        let later = flush_loop-ready finals hs (w ++ lines entries) in
        let steps : flush_loop fails finals (h ∷ hs) w ≡ (
          (flush_loop fails finals hs (w ++ lines entries)).0,
          suc (flush_loop fails finals hs (w ++ lines entries)).1,
          (flush_loop fails finals hs (w ++ lines entries)).2,
        ) =
          rw (c, wrote, flush_loop) (rw wrote) in
        rw (goes, text)
          (steps
            ∙ rw later (
                ap (λ v. (v, suc (length (ready finals hs)), none))
                  (append_assoc w (lines entries) (report finals (ready finals hs)))))
  ]

  -- A flush that the writer takes writes the lines of the longest run of chunks, from the first
  -- one not written yet, whose processing has ended, in the order of the chunks' numbers, and
  -- moves on by just these; no chunk behind a missing or unfinished one is written.
  pub flush-ready :
      (idx : Index)
      → let run = ready idx.finals (sorted idx.order) in
        (flush fails idx ≡ (
          record idx {
            written = idx.written ++ report idx.finals run;
            order = drop_first idx.order (pos (length run));
          },
          none,
        ))
  unfolding flush
  flush-ready idx = rw (flush_loop-ready idx.finals (sorted idx.order) idx.written)

-- `ProcessFinal` on every branch: a final chunk is entered under its source's hash exactly if
-- that hash was processed, under this number, and has not ended; then that hash alone gets one
-- entry more, and otherwise nothing changes.
pub process_final_cases :
    (idx : Index) (c final : Chunk)
    → (((process_final idx c final).1 ≢ none)
        × ((process_final idx c final).0 ≡ idx)
        × ((f : Finals) → lookup (hash c) idx.finals ≡ some f → f.num ≡ num c → f.complete ≡ true))
      ⊎ ((f : Finals) × (lookup (hash c) idx.finals ≡ some f)
          × (f.num ≡ num c)
          × (f.complete ≡ false)
          × ((process_final idx c final).1 ≡ none)
          × ((process_final idx c final).0.written ≡ idx.written)
          × ((process_final idx c final).0.order ≡ idx.order)
          × ((h : ℕ)
              → lookup h (process_final idx c final).0.finals ≡ (
                  if hash c == h
                  then some (record f { entries = f.entries ++ entry_of final ∷ [] })
                  else lookup h idx.finals)))
unfolding process_final
process_final_cases idx c final = elim (Option-cases (lookup (hash c) idx.finals)) [
  | inl e ↦ inl (λ h. ground arith, ground arith, λ f g n. absurd (ground arith))
  | inr (f, e) ↦ elim (Bool-cases f.complete) [
    | inl over ↦ inl (λ h. ground arith, ground arith, λ g found n. ground arith)
    | inr running ↦ elim (Bool-cases (f.num == num c)) [
      | inr other ↦ inl (λ h. ground arith, ground arith, λ g found n. absurd (ground arith))
      | inl own ↦
          let g : Finals = record f { entries = f.entries ++ entry_of final ∷ [] } in
          let taken : process_final idx c final
              ≡ (record idx { finals = insert (hash c) g idx.finals }, none) =
            ground arith in
          inr (
            f,
            e,
            ground arith,
            running,
            ap (λ r. r.1) taken,
            ap (λ r. r.0.written) taken,
            ap (λ r. r.0.order) taken,
            λ h. ap (λ r. lookup h r.0.finals) taken ∙ lookup-insert (hash c) h g idx.finals,
          )
    ]
  ]
]

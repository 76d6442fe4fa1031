-- ===== src/IndexProc/Unproc.antt =====
-- procs/index.go: an index that was written, read again.
--
-- The input is what the reader of the chunk's data gives until its end. The loop of `ChunkIterFunc`
-- runs on fuel: each line is at least one byte.
use scat.Prelude.{
  ℕ, zero, suc, ◌+◌, ◌/◌, ◌%◌, ◌^◌, ◌≤◌, ◌<◌, ◌≡◌, refl, sym, ap, ◌∙◌, subst, inl, inr, Bool, true,
  false, Option, none, some, List, [], ◌∷◌, ◌++◌, map, append_assoc, arith, if◌then◌else◌,
  Option-cases, length, length-append, All,
}
use scat.Chunk.{Bytes, Chunk, new_chunk, set_hash, set_target_size, num}
use scat.Errors.{Error}
use scat.Index.{
  Scanner, new_scanner, next, next_of, scanned, write_line, hex, decimal_onto, scan_line, line,
  hash_size,
}
use scat.Index.Lines.{scan_line-write_line}
use scat.Procs.{Res, sent, failed}
use scat.Prelude.Sorting.{sort_by}
use scat.Series.{sorted}
use scat.IndexProc.{lookup, Dict, Entry, entry_num, Finals, Index, entry_line, hash_bytes, flush}
use scat.IndexProc.Flushing.{lines, ready, report, flush-ready}
use scat.IndexProc.Hashes.{hash_end, hash_bytes-small, load_slice-hash_bytes}

abbrev send_first : Option Chunk → Option (List Res) → Option (List Res)
send_first c none = none
send_first c (some rs) = some (record { chunk = c; err = none } ∷ rs)

abbrev ending : Chunk → Option Error → List Res
ending c none = []
ending c (some e) = failed c e ∷ []

-- The loop of `ChunkIterFunc` on a scanner. The outer `none` stands for fuel that runs out.
unfoldable pub iter_chunks : ℕ → Chunk → Scanner → Option (List Res)
unfolding next
iter_chunks zero c s = none
iter_chunks (suc fuel) c s =
    let r = next s in
    let rest = iter_chunks fuel c r.0 in
    if r.1 then send_first r.0.current rest else some (ending c r.0.err)

-- `IndexUnproc`, given what the reader of the chunk's data reads.
unfoldable pub index_unprocess : Chunk → Bytes → Option (List Res)
unfolding iter_chunks
index_unprocess c input = iter_chunks (suc (length input)) c (new_scanner (num c) input)

-- The chunks that the entries stand for, numbered from `n`.
abbrev pub listed_chunks : ℕ → List Entry → List Chunk
listed_chunks n [] = []
listed_chunks n (e ∷ es) =
    set_hash (set_target_size (new_chunk n none) e.target_size) e.hash ∷ listed_chunks (n + 1) es

abbrev at : ℕ → Option Chunk → Bytes → Scanner
at n c input = record { input = input; next_num = n; current = c; err = none }

decimal_onto-append :
    (fuel n : ℕ) (rest more : Bytes)
    → decimal_onto fuel n rest ++ more ≡ decimal_onto fuel n (rest ++ more)
unfolding decimal_onto
decimal_onto-append zero n rest more = refl
decimal_onto-append (suc fuel) n rest more =
    ground (arith, decimal_onto-append fuel (n / 10) ((b'0' + n % 10) ∷ rest) more)

write_line-append :
    (hash rest more : Bytes) (size : ℕ)
    → write_line hash size rest ++ more ≡ write_line hash size (rest ++ more)
unfolding write_line
write_line-append hash rest more size =
    append_assoc (hex hash) (b' ' ∷ decimal_onto (suc size) size (b'\n' ∷ rest)) more
    ∙ ap (λ t. hex hash ++ b' ' ∷ t) (decimal_onto-append (suc size) size (b'\n' ∷ rest) more)

entry_line-append :
    (e : Entry) (more : Bytes)
    → entry_line e ++ more ≡ write_line (hash_bytes hash_size e.hash) e.target_size more
unfolding entry_line
entry_line-append e more = write_line-append (hash_bytes hash_size e.hash) [] more e.target_size

scan_line-entry_line :
    (e : Entry) (more : Bytes)
    → scan_line (entry_line e ++ more) ≡ line (hash_bytes hash_size e.hash) e.target_size more
unfolding hash_bytes
scan_line-entry_line e more =
    ap scan_line (entry_line-append e more)
    ∙ scan_line-write_line (e.hash / 256 ^ 31 % 256) (hash_bytes 31 e.hash) more e.target_size
        (hash_bytes-small 32 e.hash)

abbrev listed_chunk : ℕ → Entry → Chunk
listed_chunk n e = set_hash (set_target_size (new_chunk n none) e.target_size) e.hash

-- The scanner takes one line off.
next-entry_line :
    (e : Entry) (n : ℕ) (x : Option Chunk) (more : Bytes)
    → e.hash < hash_end
    → next (at n x (entry_line e ++ more)) ≡ (at (n + 1) (some (listed_chunk n e)) more, true)
unfolding next
next-entry_line e n x more small =
    let s = at n x (entry_line e ++ more) in
    ap (next_of s) (scan_line-entry_line e more)
    ∙ ap (scanned s e.target_size more) (load_slice-hash_bytes e.hash small)

next-nil : (n : ℕ) (x : Option Chunk) → next (at n x []) ≡ (at n x [], false)
unfolding next scan_line
next-nil n x = refl

iter_chunks-next :
    (fuel : ℕ) (c : Chunk) (s : Scanner) (r : Scanner × Bool)
    → next s ≡ r
    → iter_chunks (suc fuel) c s
      ≡ (if r.1 then send_first r.0.current (iter_chunks fuel c r.0) else some (ending c r.0.err))
unfolding iter_chunks
iter_chunks-next fuel c s r e =
    ap
      (λ r.
        if r.1 then send_first r.0.current (iter_chunks fuel c r.0) else some (ending c r.0.err))
      e

iter_chunks-lines :
    (es : List Entry) (fuel n : ℕ) (c : Chunk) (x : Option Chunk)
    → length es < fuel
    → All (λ e. e.hash < hash_end) es
    → iter_chunks fuel c (at n x (lines es)) ≡ some (map sent (listed_chunks n es))
iter_chunks-lines es zero n c x enough small = absurd (omega arith)
iter_chunks-lines [] (suc fuel) n c x enough small =
    iter_chunks-next fuel c (at n x []) (at n x [], false) (next-nil n x)
iter_chunks-lines (e ∷ es) (suc fuel) n c x enough small =
    let later = at (n + 1) (some (listed_chunk n e)) (lines es) in
    iter_chunks-next fuel c (at n x (lines (e ∷ es))) (later, true)
      (next-entry_line e n x (lines es) small.0)
    ∙ ap (send_first (some (listed_chunk n e)))
        (iter_chunks-lines es fuel (n + 1) c (some (listed_chunk n e)) (omega arith) small.1)

write_line-pos : (hash rest : Bytes) (size : ℕ) → 0 < length (write_line hash size rest)
unfolding write_line
write_line-pos hash rest size =
    omega (arith, length-append (hex hash) (b' ' ∷ decimal_onto (suc size) size (b'\n' ∷ rest)))

entry_line-pos : (e : Entry) → 0 < length (entry_line e)
unfolding entry_line
entry_line-pos e = write_line-pos (hash_bytes hash_size e.hash) [] e.target_size

length-lines : (es : List Entry) → length es ≤ length (lines es)
length-lines [] = omega arith
length-lines (e ∷ es) =
    omega (arith, entry_line-pos e, length-append (entry_line e) (lines es), length-lines es)

-- The entries of these hashes, as they are reported.
abbrev pub entries_of : Dict Finals → List ℕ → List Entry
entries_of finals [] = []
entries_of finals (h ∷ hs) =
    elim (lookup h finals) [ none ↦ [] | some f ↦ sort_by entry_num f.entries ]
    ++ entries_of finals hs

lines-append : (es fs : List Entry) → lines (es ++ fs) ≡ lines es ++ lines fs
lines-append [] fs = refl
lines-append (e ∷ es) fs =
    ap (λ t. entry_line e ++ t) (lines-append es fs)
    ∙ sym (append_assoc (entry_line e) (lines es) (lines fs))

report-lines :
    (finals : Dict Finals) (hs : List ℕ) → report finals hs ≡ lines (entries_of finals hs)
report-lines finals [] = refl
report-lines finals (h ∷ hs) = elim (Option-cases (lookup h finals)) [
  | inl gone ↦ rw (gone, report) (report-lines finals hs)
  | inr (f, there) ↦
      let own = sort_by entry_num f.entries in
      rw (there, report)
        (ap (λ t. lines own ++ t) (report-lines finals hs)
          ∙ sym (lines-append own (entries_of finals hs)))
]

-- After a flush that the writer takes, what is written is read back without an error: a chunk for
-- each entry that was written before, then one for each entry of the chunks that were ready, in
-- order, with the entry's hash and size, numbered from the number of the chunk that is read. What
-- was written before are lines of entries, and the hashes have 32 bytes.
pub index_unprocess-flush :
    (fails : Bytes → Bytes → Option Error) (idx : Index) (c : Chunk) (before : List Entry)
    → ((w b : Bytes) → fails w b ≡ none)
    → idx.written ≡ lines before
    → All
        (λ e. e.hash < hash_end)
        (before ++ entries_of idx.finals (ready idx.finals (sorted idx.order)))
    → let now = before ++ entries_of idx.finals (ready idx.finals (sorted idx.order)) in
      let w = (flush fails idx).0.written in
      (w ≡ lines now) × (index_unprocess c w ≡ some (map sent (listed_chunks (num c) now)))
unfolding index_unprocess
index_unprocess-flush fails idx c before never wrote small =
    let new = entries_of idx.finals (ready idx.finals (sorted idx.order)) in
    let w = (flush fails idx).0.written in
    let text : w ≡ lines (before ++ new) =
      ap (λ r. r.0.written) (flush-ready fails never idx)
      ∙ ap (λ t. t ++ report idx.finals (ready idx.finals (sorted idx.order))) wrote
      ∙ ap (λ t. lines before ++ t) (report-lines idx.finals (ready idx.finals (sorted idx.order)))
      ∙ sym (lines-append before new) in
    let enough : length (before ++ new) < suc (length w) =
      subst (λ t. length (before ++ new) < suc (length t)) (sym text)
        (omega (arith, length-lines (before ++ new))) in
    (
      text,
      ap (λ t. iter_chunks (suc (length w)) c (new_scanner (num c) t)) text
          ∙ iter_chunks-lines (before ++ new) (suc (length w)) (num c) c none enough small,
    )

-- ===== src/Stores/Mem.antt =====
-- stores/mem.go: the store in memory.
use scat.Prelude.{
  ℕ, ◌≡◌, ◌≢◌, ◌⊎◌, inl, inr, true, false, Option, none, some, List, [], ◌∷◌, arith, length,
}
use scat.Prelude.Dict.{Dict, lookup, insert, remove, lookup-insert, keys}
use scat.Chunk.{Chunk, Bytes, Data, bytes_data, payload, hash, with_data, read}
use scat.Errors.{Error, missing_data, no_stored_data}

abbrev pub Store : Type 0
Store = Dict Bytes

pub record LsEntry : Type 0 where
  pub hash_ : ℕ
  pub size_ : ℕ

unfoldable pub set_data : Store → ℕ → Bytes → Store
set_data s h b = insert h b s

-- A hash that is not there reads as nil.
unfoldable pub get : Store → ℕ → Bytes
get s h = elim (lookup h s) [ none ↦ [] | some b ↦ b ]

unfoldable pub delete : Store → ℕ → Store
delete s h = remove h s

unfoldable pub hashes : Store → List ℕ
hashes s = keys s

-- `process`: the outer `none` is the panic of a second read of reader data.
unfoldable pub process : Store → Chunk → Option (Store × Option Error)
unfolding set_data
process s c = elim (read (payload c)) [
  | none ↦ none
  | some (b, none, rest) ↦ some (set_data s (hash c) b, none)
  | some (b, some e, rest) ↦ some (s, some e)
]

-- `unprocess`: the chunk with a copy of the stored data, or the error.
unfoldable pub unprocess : Store → Chunk → Chunk ⊎ Error
unprocess s c = elim (lookup (hash c) s) [
  | none ↦ inr (missing_data no_stored_data)
  | some b ↦ inl (with_data c (bytes_data b))
]

unfoldable pub ls : Store → List LsEntry
ls [] = []
ls ((h, b) ∷ s) = record { hash_ = h; size_ = length b } ∷ ls s

-- What `Proc` has stored under a hash `Unproc` gives back to every chunk with that hash, and
-- chunks with other hashes get what they got before; a failed read stores nothing.
unprocess-process :
    (s t : Store) (c d : Chunk) (err : Option Error)
    → process s c ≡ some (t, err)
    → (err ≢ none → t ≡ s)
      × (hash d ≢ hash c → unprocess t d ≡ unprocess s d)
      × ((b : Bytes)
          → err ≡ none
          → hash d ≡ hash c
          → payload c ≡ bytes_data b
          → unprocess t d ≡ inl (with_data d (bytes_data b)))
unfolding process unprocess read
unprocess-process s t (Chunk.chunk n (bytes_data x) h z m) d err e = (
  λ f. ground arith,
  λ f. ground (arith, lookup-insert h (hash d) x s),
  λ b f g p. ground (arith, lookup-insert h (hash d) x s),
)
unprocess-process s t (Chunk.chunk n (Data.reader_data x none true) h z m) d err e = (
  λ f. ground arith,
  λ f. ground (arith, lookup-insert h (hash d) x s),
  λ b f g p. absurd (ground arith),
)
unprocess-process s t (Chunk.chunk n (Data.reader_data x (some r) true) h z m) d err e =
    (λ f. ground arith, λ f. ground arith, λ b f g p. absurd (ground arith))
unprocess-process s t (Chunk.chunk n (Data.reader_data x r false) h z m) d err e =
    (λ f. absurd (ground arith), λ f. absurd (ground arith), λ b f g p. absurd (ground arith))

-- ===== src/Chunk.antt =====
-- chunk.go: chunks, their data and their meta data.
--
-- A chunk is a value here: `WithData` copies the chunk and its meta map, and the setters return
-- the changed chunk. A hash is the number that its 32 bytes spell. The meta map is the list of
-- the writes to it, newest first, under the two keys that the procs use.
use scat.Prelude.{
  ℕ, ◌≡◌, refl, ap, Bool, true, false, Option, none, some, List, [], ◌∷◌, arith, length,
}
use scat.Errors.{Error}

abbrev pub Bytes : Type 0
Bytes = List ℕ

-- `BytesData`, or `readerData`: what the reader will yield, the error it ends with if any, and
-- whether `onceChan` still has room.
pub data Data : Type 0 where
  bytes_data : Bytes → Data
  reader_data : Bytes → Option Error → Bool → Data

mutual
  pub data Chunk : Type 0 where
    chunk : ℕ → Data → ℕ → ℕ → Meta → Chunk

  pub data Meta : Type 0 where
    no_meta : Meta
    group_set : Chunks → Meta → Meta
    group_err_set : Error → Meta → Meta

  pub data Chunks : Type 0 where
    nil : Chunks
    cons : Chunk → Chunks → Chunks

-- `NewChunk`; a nil data argument is `none`.
abbrev pub new_chunk : ℕ → Option Data → Chunk
new_chunk n none = chunk n (bytes_data []) 0 0 no_meta
new_chunk n (some d) = chunk n d 0 0 no_meta

abbrev pub num : Chunk → ℕ
num (chunk n d h t m) = n

abbrev pub payload : Chunk → Data
payload (chunk n d h t m) = d

abbrev pub hash : Chunk → ℕ
hash (chunk n d h t m) = h

abbrev pub target_size : Chunk → ℕ
target_size (chunk n d h t m) = t

abbrev pub meta : Chunk → Meta
meta (chunk n d h t m) = m

abbrev pub with_data : Chunk → Data → Chunk
with_data (chunk n d h t m) d' = chunk n d' h t m

abbrev pub set_hash : Chunk → ℕ → Chunk
set_hash (chunk n d h t m) h' = chunk n d h' t m

abbrev pub set_target_size : Chunk → ℕ → Chunk
set_target_size (chunk n d h t m) t' = chunk n d h t' m

abbrev pub set_meta : Chunk → Meta → Chunk
set_meta (chunk n d h t m) m' = chunk n d h t m'

-- `Meta().Get` under the keys `metaGroup` and `metaGroupErr`.
abbrev pub meta_group : Meta → Option Chunks
meta_group no_meta = none
meta_group (group_set g m) = some g
meta_group (group_err_set e m) = meta_group m

abbrev pub meta_group_err : Meta → Option Error
meta_group_err no_meta = none
meta_group_err (group_set g m) = meta_group_err m
meta_group_err (group_err_set e m) = some e

abbrev pub to_list : Chunks → List Chunk
to_list nil = []
to_list (cons c cs) = c ∷ to_list cs

abbrev pub of_list : List Chunk → Chunks
of_list [] = nil
of_list (c ∷ cs) = cons c (of_list cs)

pub to_list-of_list : (cs : List Chunk) → to_list (of_list cs) ≡ cs
to_list-of_list [] = refl
to_list-of_list (c ∷ cs) = ap (◌∷◌ c) (to_list-of_list cs)

-- `Size`: only `BytesData` is a `Sizer`.
unfoldable pub size : Data → Option ℕ
size (bytes_data b) = some (length b)
size (reader_data b e fresh) = none

-- What `Bytes` yields: the bytes read, the error, and the data left behind. `none` is the panic
-- "reader data can only be read once".
unfoldable pub read : Data → Option (Bytes × Option Error × Data)
read (bytes_data b) = some (b, none, bytes_data b)
read (reader_data b e true) = some (b, e, reader_data b e false)
read (reader_data b e false) = none

-- A second read of the same data: what it finds depends on the kind of data.
abbrev pub reread : Data → Option (Bytes × Option Error × Data)
reread d = elim (read d) [ none ↦ none | some r ↦ read r.2 ]

-- A second read of sized data gives as many bytes as its size says, without an error, and leaves
-- the data as they were; a second read of any other data panics.
pub read_once :
    (d : Data)
    → ((n : ℕ) → size d ≡ some n → (b : Bytes) × (reread d ≡ some (b, none, d)) × (length b ≡ n))
      × (size d ≡ none → reread d ≡ none)
unfolding read size
read_once (bytes_data b) = (λ n e. (b, refl, ground arith), λ e. cc)
read_once (reader_data b e true) = (λ n h. cc, λ _. refl)
read_once (reader_data b e false) = (λ n h. cc, λ _. refl)

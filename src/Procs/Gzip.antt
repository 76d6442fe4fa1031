-- ===== src/Procs/Gzip.antt =====
-- procs/gzip.go: the procs that compress and decompress.
--
-- Compression is an argument: the bytes that the writer makes, with the errors of copying and of
-- closing, and the header and the rest that the reader reads, from bytes and the error they end
-- with, if any.
use scat.Prelude.{◌≡◌, refl, Option, none, some, arith}
use scat.Chunk.{Chunk, Bytes, payload, with_data, read, bytes_data, reader_data}
use scat.Errors.{Error}

pub record Codec : Type 0 where
  pub compress : Bytes → Bytes × Option Error × Option Error
  pub open_reader : Bytes → Option Error → Option Error
  pub decompress : Bytes → Option Error → Bytes × Option Error

module _ (codec : Codec) where
  -- `process`: the chunk to send, if one was made, with the error. The outer `none` is the panic of
  -- a second read of reader data.
  unfoldable pub process : Chunk → Option (Option Chunk × Option Error)
  process c = elim (read (payload c)) [
    | none ↦ none
    | some (b, some e, rest) ↦ some (none, some e)
    | some (b, none, rest) ↦
        let (out, copying, closing) = codec.compress b in
        some (elim copying [
          | some e ↦ (none, some e)
          | none ↦ (some (with_data c (bytes_data out)), closing)
        ])
  ]

  unfoldable pub unprocess : Chunk → Option (Option Chunk × Option Error)
  unprocess c = elim (read (payload c)) [
    | none ↦ none
    | some (b, failure, rest) ↦ some (elim (codec.open_reader b failure) [
      | some e ↦ (none, some e)
      | none ↦ let (out, e) = codec.decompress b failure in (some (with_data c (bytes_data out)), e)
    ])
  ]

-- A codec that loses nothing of sized data.
pub record Restores (codec : Codec) : Type 0 where
  pub copied : (b : Bytes) → (codec.compress b).1 ≡ none
  pub closed : (b : Bytes) → (codec.compress b).2 ≡ none
  pub opens : (b : Bytes) → codec.open_reader (codec.compress b).0 none ≡ none
  pub same : (b : Bytes) → codec.decompress (codec.compress b).0 none ≡ (b, none)

-- A chunk of sized data that was compressed is decompressed to what it was, and keeps all else.
pub unprocess-process_gzip :
    (codec : Codec) (c : Chunk) (b : Bytes)
    → Restores codec
    → payload c ≡ bytes_data b
    → (d : Chunk) × (process codec c ≡ some (some d, none))
      × (unprocess codec d ≡ some (some c, none))
unfolding process unprocess read
unprocess-process_gzip codec (Chunk.chunk n (bytes_data x) h z m) b laws e = (
  Chunk.chunk n (bytes_data (codec.compress x).0) h z m,
  rw (laws.copied x, laws.closed x) refl,
  rw (laws.opens x, laws.same x) refl,
)
unprocess-process_gzip codec (Chunk.chunk n (reader_data x r u) h z m) b laws e =
    absurd (ground arith)

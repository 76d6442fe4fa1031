-- ===== src/Procs/Parity.antt =====
-- procs/parity.go: splitting a chunk into data and parity shards, and joining them again.
--
-- The Reed-Solomon encoder is a record of operations: a shard is bytes, or nothing where it is
-- missing. `Split` pads the last data shard.
use scat.Prelude.{
  ℕ, ◌+◌, ◌*◌, ◌⊎◌, inl, inr, Bool, true, false, Option, none, some, List, [], ◌∷◌, ◌==◌,
  if◌then◌else◌, length,
}
pub mod Recovery
use scat.Chunk.{
  Chunk, Bytes, Data, bytes_data, num, payload, target_size, new_chunk, set_target_size, with_data,
  size, read,
}
use scat.Errors.{
  Error, missing_data, integrity_check_failed, missing_group, invalid_group_size,
  sized_data_required, verification_failed,
}
use scat.Procs.{Res, sent, failed}
use scat.Group.{get_group, get_group_err}

abbrev pub Shards : Type 0
Shards = List (Option Bytes)

pub record Encoder : Type 0 where
  pub split : Bytes → List Bytes ⊎ Error
  pub encode : List Bytes → List Bytes ⊎ Error
  pub reconstruct : Shards → Shards ⊎ Error
  pub verify : Shards → Bool ⊎ Error
  pub join : Shards → ℕ → Bytes ⊎ Error

pub record Parity : Type 0 where
  pub enc : Encoder
  pub nshards : ℕ

-- `split`: the outer `none` is the panic of a second read of reader data.
unfoldable pub split : Parity → Chunk → Option (List Bytes ⊎ Error)
split p c = elim (read (payload c)) [
  | none ↦ none
  | some (b, some e, rest) ↦ some (inr e)
  | some (b, none, rest) ↦ elim (p.enc.split b) [
    | inr e ↦ some (inr e)
    | inl shards ↦ some (p.enc.encode shards)
  ]
]

unfoldable pub shard_results : ℕ → ℕ → List Bytes → List Res
shard_results i target [] = []
shard_results i target (b ∷ bs) =
    sent (set_target_size (new_chunk i (some (bytes_data b))) target)
    ∷ shard_results (i + 1) target bs

unfoldable pub process : Parity → Chunk → Option (List Res)
unfolding split shard_results
process p c = elim (size (payload c)) [
  | none ↦ some (failed c sized_data_required ∷ [])
  | some n ↦ elim (split p c) [
    | none ↦ none
    | some (inr e) ↦ some (failed c e ∷ [])
    | some (inl shards) ↦ some (shard_results (num c * p.nshards) n shards)
  ]
]

unfoldable pub group_of : Chunk → ℕ → List Chunk ⊎ Error
unfolding get_group
group_of c n = elim (get_group c) [
  | none ↦ inr missing_group
  | some cs ↦ if length cs == n then inl cs else inr invalid_group_size
]

-- `parityRecoverableErr`.
abbrev pub recoverable : Error → Bool
recoverable (missing_data e) = true
recoverable integrity_check_failed = true
recoverable _ = false

-- The loop of `join`: the shards, and whether any is missing.
unfoldable pub shards_of : List Chunk → Option ((Shards × Bool) ⊎ Error)
unfolding get_group_err
shards_of [] = some (inl ([], false))
shards_of (c ∷ cs) =
    let rest = shards_of cs in
    elim (get_group_err c) [
      | some e ↦
          if recoverable e
          then elim rest [
            | none ↦ none
            | some (inr f) ↦ some (inr f)
            | some (inl (bs, lost)) ↦ some (inl (none ∷ bs, true))
          ]
          else some (inr e)
      | none ↦ elim (read (payload c)) [
        | none ↦ none
        | some (b, some e, left) ↦ some (inr e)
        | some (b, none, left) ↦ elim rest [
          | none ↦ none
          | some (inr f) ↦ some (inr f)
          | some (inl (bs, lost)) ↦ some (inl (some b ∷ bs, lost))
        ]
      ]
    ]

abbrev pub restored : Encoder → Shards × Bool → Shards ⊎ Error
restored enc (bs, true) = enc.reconstruct bs
restored enc (bs, false) = inl bs

abbrev pub checked : Encoder → ℕ → Shards ⊎ Error → Bytes ⊎ Error
checked enc n (inr e) = inr e
checked enc n (inl bs) = elim (enc.verify bs) [
  | inr e ↦ inr e
  | inl false ↦ inr verification_failed
  | inl true ↦ enc.join bs n
]

unfoldable pub join : Parity → Chunk → Option (Bytes ⊎ Error)
unfolding group_of shards_of
join p c = elim (group_of c p.nshards) [
  | inr e ↦ some (inr e)
  | inl cs ↦ elim (shards_of cs) [
    | none ↦ none
    | some (inr e) ↦ some (inr e)
    | some (inl x) ↦ some (checked p.enc (target_size c) (restored p.enc x))
  ]
]

-- `unprocess`, as `ChunkFunc` sends it: the chunk with the joined data, or the chunk and the error.
unfoldable pub unprocess : Parity → Chunk → Option (List Res)
unfolding join
unprocess p c = elim (join p c) [
  | none ↦ none
  | some (inr e) ↦ some (failed c e ∷ [])
  | some (inl b) ↦ some (sent (with_data c (bytes_data b)) ∷ [])
]

-- ===== src/Group.antt =====
-- procs/group.go: the proc that collects the chunks of one group, `size` at a time.
pub mod Pending
use scat.Prelude.{
  ℕ, ◌+◌, ◌/◌, Bool, true, not, ◌&&◌, Option, none, some, List, [], ◌∷◌, ◌++◌, ltb, ◌==◌,
  if◌then◌else◌, length,
}
use scat.Prelude.Dict.{Dict, lookup, insert, remove}
use scat.Prelude.Sorting.{sort_by}
use scat.Chunk.{
  Chunk, Chunks, num, target_size, meta, new_chunk, set_target_size, set_meta, group_set,
  group_err_set, meta_group, meta_group_err, of_list, to_list,
}
use scat.Errors.{Error, short, too_many_chunks, non_contiguous}
use scat.Procs.{Res, sent, failed}

pub record Group : Type 0 where
  pub size : ℕ
  pub growing : Dict (List Chunk)

-- `none` is the panic "size must be >= 1".
unfoldable pub new_group : ℕ → Option Group
new_group n = if ltb n 1 then none else some (record { size = n; growing = [] })

unfoldable pub contiguous : List Chunk → Bool
contiguous [] = true
contiguous (c ∷ []) = true
contiguous (c ∷ d ∷ cs) = num d == num c + 1 && contiguous (d ∷ cs)

-- What `build` returns: nothing yet, the error, or a group under its number.
pub data Built : Type 0 where
  growing_still : Built
  refused : Error → Built
  grouped : ℕ → List Chunk → Built

abbrev pub pending : Group → ℕ → List Chunk
pending g head = elim (lookup head g.growing) [ none ↦ [] | some cs ↦ cs ]

unfoldable pub build : Group → Chunk → Group × Built
unfolding contiguous
build g c =
    let head = num c / g.size in
    let chunks = pending g head ++ c ∷ [] in
    let done = record g { growing = remove head g.growing } in
    if ltb (length chunks) g.size
    then (record g { growing = insert head chunks g.growing }, growing_still)
    else if not (length chunks == g.size)
    then (done, refused too_many_chunks)
    else if not (contiguous (sort_by num chunks))
    then (done, refused non_contiguous)
    else (done, grouped head (sort_by num chunks))

-- The chunk that stands for a group: its target size is that of the group's first chunk.
abbrev pub first_target : List Chunk → ℕ
first_target [] = 0
first_target (c ∷ cs) = target_size c

abbrev pub aggregate : ℕ → List Chunk → Chunk
aggregate head cs =
    set_meta (set_target_size (new_chunk head none) (first_target cs))
      (group_set (of_list cs) (meta (new_chunk head none)))

abbrev results : Chunk → Built → List Res
results c growing_still = []
results c (refused e) = failed c e ∷ []
results c (grouped head cs) = sent (aggregate head cs) ∷ []

unfoldable pub process : Group → Chunk → Group × List Res
process g c = let (g', built) = build g c in (g', results c built)

-- An erroneous chunk takes its place in the group with the error in its meta data.
unfoldable pub process_err : Group → Chunk → Error → Group × List Res
unfolding process
process_err g c e = process g (set_meta c (group_err_set e (meta c)))

unfoldable pub finish : Group → Option Error
finish g = if ltb 0 (length g.growing) then some short else none

unfoldable pub get_group : Chunk → Option (List Chunk)
get_group c = elim (meta_group (meta c)) [ none ↦ none | some cs ↦ some (to_list cs) ]

unfoldable pub get_group_err : Chunk → Option Error
get_group_err c = meta_group_err (meta c)

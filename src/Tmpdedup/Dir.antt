-- ===== src/Tmpdedup/Dir.antt =====
-- tmpdedup/dir.go and procs/pathcmd.go: a directory of shared temporary files, and the proc that
-- hands such a file to a command.
--
-- The path of a name is an argument, as are the errors of the file system and what the command
-- returns. One call of `process` is taken as a whole here; how calls meet in the table is the
-- parent's step relation.
use scat.Prelude.{
  ℕ, ◌+◌, ◌-◌, ◌≡◌, ap, ◌⊎◌, inl, inr, Bool, true, false, Option, none, some, arith, ltb, ◌==◌,
  if◌then◌else◌, ==_iff, Option-cases,
}
use scat.Prelude.Dict.{lookup, insert, lookup-insert}
use scat.Chunk.{Chunk, hash}
use scat.Errors.{Error, foreign}
use scat.Tmpdedup.{Man, Entry, new_man, get, len, Create, made, fails}

pub record Dir : Type 0 where
  pub man : Man
  pub deleted : Bool

-- `TempDir`, given the error of making the directory.
unfoldable pub temp_dir : Option Error → Dir ⊎ Error
temp_dir (some e) = inr e
temp_dir none = inl (record { man = new_man; deleted = false })

unfoldable pub get_file : Dir → ℕ → Create → Dir × Option Error
unfolding get
get_file d path create = let (m, e) = get d.man path create in (record d { man = m }, e)

abbrev pub leftover_files : Error
leftover_files = foreign 2

-- `Finish`, given the error of removing the directory, which is tried once.
unfoldable pub finish : Dir → Option Error → Dir × Option Error
unfolding len
finish d removal =
    if ltb 0 (len d.man)
    then (d, some leftover_files)
    else if d.deleted
    then (d, none)
    else (record d { deleted = true }, removal)

-- `wg.Done()`
unfoldable pub leave : Dir → ℕ → Dir
leave d path = elim (lookup path d.man.created) [
  | none ↦ d
  | some e ↦ record d {
    man = record d.man { created = insert path (record e { users = e.users - 1 }) d.man.created };
  }
]

-- The users that a path has.
abbrev pub users_at : Dir → ℕ → ℕ
users_at d p = elim (lookup p d.man.created) [ none ↦ 0 | some e ↦ e.users ]

leave-users_at :
    (d : Dir) (path p : ℕ) → users_at (leave d path) p ≡ users_at d p - (if path == p then 1 else 0)
unfolding leave
leave-users_at d path p = elim (Option-cases (lookup path d.man.created)) [
  | inl absent ↦
      rw (absent, leave) (ground (arith, absent, ==_iff path p, ap (λ q. lookup q d.man.created)))
  | inr (e, known) ↦
      let f : Entry = record e { users = e.users - 1 } in
      rw (known, leave)
        (ground (
          arith,
          lookup-insert path p f d.man.created,
          known,
          ==_iff path p,
          ap (λ q. lookup q d.man.created),
        ))
]

get_file-users_at :
    (d : Dir) (path p : ℕ) (create : Create)
    → users_at (get_file d path create).0 p
      ≡ users_at d p
        + elim (get_file d path create).1 [ none ↦ if path == p then 1 else 0 | some x ↦ 0 ]
unfolding get_file get
get_file-users_at d path p create = elim (Option-cases (lookup path d.man.created)) [
  | inr (e, known) ↦
      let f : Entry = record e { users = e.users + 1 } in
      rw (known, get_file, get)
        (ground (
          arith,
          lookup-insert path p f d.man.created,
          known,
          ==_iff path p,
          ap (λ q. lookup q d.man.created),
        ))
  | inl new ↦
      elim create
        as (λ c.
          users_at (get_file d path c).0 p
          ≡ users_at d p
            + elim (get_file d path c).1 [ none ↦ if path == p then 1 else 0 | some x ↦ 0 ]) [
              | fails x left ↦ rw (new, get_file, get) (omega arith)
              | made ↦
                  let f : Entry = record { users = 1; past_wait = false } in
                  rw (new, get_file, get)
                    (ground (
                      arith,
                      lookup-insert path p f d.man.created,
                      new,
                      ==_iff path p,
                      ap (λ q. lookup q d.man.created),
                    ))
            ]
]

-- `pathCmdIn.process`, with the path for a hash, how the writing of the file ends, and the
-- error of making the command or of running it. If the file cannot be made, there is an error and
-- no file of this call; if it is made but not all is written, it stays.
module _ (path_of : ℕ → ℕ) (write : Chunk → Create) (run : Chunk → ℕ → Option Error) where
  unfoldable pub process : Dir → Chunk → Dir × Option Error
  unfolding get_file leave
  process d c =
      let path = path_of (hash c) in
      let (opened, e) = get_file d path (write c) in
      elim e [ some x ↦ (opened, some x) | none ↦ (leave opened path, run c path) ]

  -- Whether a call fails or not, it leaves every path with the users that it had.
  pub process-users_at : (d : Dir) (c : Chunk) (p : ℕ) → users_at (process d c).0 p ≡ users_at d p
  unfolding process
  process-users_at d c p =
      let path = path_of (hash c) in
      let opened = get_file-users_at d path p (write c) in
      let left = leave-users_at (get_file d path (write c)).0 path p in
      elim (Option-cases (get_file d path (write c)).1) [
        | inr (x, failed) ↦ rw (failed, process) (ground (arith, opened, failed))
        | inl fine ↦ rw (fine, process) (ground (arith, opened, left, fine))
      ]

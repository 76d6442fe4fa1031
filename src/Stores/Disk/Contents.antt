-- ===== src/Stores/Disk/Contents.antt =====
-- What stores/cp.go leaves in the files.
use scat.Prelude.{
  ◌≡◌, refl, ap, ◌∙◌, inl, inr, Option, none, some, [], ◌++◌, arith, Option-cases, length, drop,
}
use scat.Chunk.{Chunk, Bytes, payload, hash, with_data, read, bytes_data, reader_data}
use scat.Errors.{Error}
use scat.Stores.Disk.{
  parent, Files, Path_, Fault, not_exist, other_fault, Dir, hash_path, process, unprocess,
  copy_data, retry,
}

-- What a file held, or nothing.
abbrev pub former : Option Bytes → Bytes
former none = []
former (some b) = b

-- A file system that keeps its files: what each path holds, if there is a file. Opening creates an
-- empty file or leaves what is there, and copying overwrites from the start on.
pub record Keeps {F : Type 0} (files : Files F) (held : F → Path_ → Option Bytes) : Type 0 where
  pub opened :
      (p : Path_) (f : F)
      → (files.open_file p f).0 ≡ none
      → held (files.open_file p f).1 p ≡ some (former (held f p))
  pub refused :
      (p : Path_) (f : F) {x : Fault}
      → (files.open_file p f).0 ≡ some x
      → held (files.open_file p f).1 p ≡ held f p
  pub made : (p q : Path_) (f : F) → held (files.mkdir_all q f).1 p ≡ held f p
  pub copied :
      (p : Path_) (b old : Bytes) (f : F)
      → (files.copy_into p b f).0 ≡ none
      → held f p ≡ some old
      → held (files.copy_into p b f).1 p ≡ some (b ++ drop (length b) old)
  pub there : (p : Path_) (b : Bytes) (f : F) → held f p ≡ some b → files.read_file p f ≡ inl b
  pub absent :
      (p : Path_) (f : F)
      → held f p ≡ none
      → (e : Error) × (files.read_file p f ≡ inr (not_exist e))

module _ {F : Type 0} (files : Files F) (held : F → Path_ → Option Bytes)
    (keeps : Keeps files held) where
  copy_data-held :
      (p : Path_) (c : Chunk) (f g : F) (b old : Bytes)
      → payload c ≡ bytes_data b
      → copy_data files p c f ≡ some (none, g)
      → held f p ≡ some old
      → held g p ≡ some (b ++ drop (length b) old)
  unfolding copy_data read
  copy_data-held p (Chunk.chunk n (bytes_data x) h z m) f g b old whole e here =
      let same : x ≡ b = ground arith in
      let fine : (files.copy_into p x f).0 ≡ none = ground arith in
      let state : (files.copy_into p x f).1 ≡ g = ground arith in
      rw (← same, ← state) (keeps.copied p x old f fine here)
  copy_data-held p (Chunk.chunk n (reader_data x r u) h z m) f g b old whole e here =
      absurd (ground arith)

  retry-held :
      (p : Path_) (c : Chunk) (f g : F) (b : Bytes)
      → payload c ≡ bytes_data b
      → retry files p c f ≡ some (none, g)
      → held g p ≡ some (b ++ drop (length b) (former (held f p)))
  unfolding retry
  retry-held p c f g b whole e =
      let f' = (files.mkdir_all (parent p) f).1 in
      let kept : held f' p ≡ held f p = keeps.made p (parent p) f in
      elim (Option-cases (files.mkdir_all (parent p) f).0) [
        | inr (x, bad) ↦ absurd (ground arith)
        | inl fine ↦ elim (Option-cases (files.open_file p f').0) [
          | inr (x, bad) ↦ absurd (ground arith)
          | inl opened ↦
              copy_data-held p c (files.open_file p f').1 g b (former (held f p)) whole
                (ground arith) (keeps.opened p f' opened ∙ ap (λ o. some (former o)) kept)
        ]
      ]

  process-held :
      (dir : Dir) (c : Chunk) (f g : F) (b : Bytes)
      → payload c ≡ bytes_data b
      → process files dir c f ≡ some (none, g)
      → held g (hash_path dir (hash c))
        ≡ some (b ++ drop (length b) (former (held f (hash_path dir (hash c)))))
  unfolding process
  process-held dir c f g b whole e =
      let p = hash_path dir (hash c) in
      elim (Option-cases (files.open_file p f).0) [
        | inl opened ↦
            copy_data-held p c (files.open_file p f).1 g b (former (held f p)) whole (ground arith)
              (keeps.opened p f opened)
        | inr (not_exist x, missing) ↦
            retry-held p c (files.open_file p f).1 g b whole (ground arith)
            ∙ ap (λ o. some (b ++ drop (length b) (former o))) (keeps.refused p f missing)
        | inr (other_fault x, bad) ↦ absurd (ground arith)
      ]

  -- A chunk of sized data that was stored without an error, whether or not directories had to be
  -- made for it: each chunk with its hash then gets these bytes, followed by what was left of a
  -- former file that was longer, since the file is not truncated.
  pub unprocess-process_file :
      (dir : Dir) (c d : Chunk) (f g : F) (b : Bytes)
      → payload c ≡ bytes_data b
      → process files dir c f ≡ some (none, g)
      → hash d ≡ hash c
      → unprocess files dir g d ≡ (
        with_data d (bytes_data (b ++ drop (length b) (former (held f (hash_path dir (hash c)))))),
        none,
      )
  unfolding unprocess
  unprocess-process_file dir c d f g b whole e same =
      let p = hash_path dir (hash c) in
      let here = process-held dir c f g b whole e in
      let reads = keeps.there p (b ++ drop (length b) (former (held f p))) g here in
      rw (unprocess, same, reads) refl

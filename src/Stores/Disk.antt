-- ===== src/Stores/Disk.antt =====
-- stores/cp.go: chunks as files in directories.
--
-- The file system is an argument. A path is the list of the elements that are joined; `%x` of a
-- hash is the hexadecimal digits of its bytes.
pub mod Contents
use scat.Prelude.{ℕ, ◌⊎◌, inl, inr, Option, none, some, List, [], ◌∷◌}
use scat.Chunk.{Chunk, Bytes, Data, payload, hash, with_data, read, bytes_data}
use scat.Errors.{Error, missing_data}
use scat.Index.{hex, hash_size}
use scat.IndexProc.{hash_bytes}
use scat.Stores.Paths.{full_path}

abbrev pub Path_ : Type 0
Path_ = List Bytes

-- An error of the file system: one that `os.IsNotExist` holds of, or another.
pub data Fault : Type 0 where
  not_exist other_fault : Error → Fault

abbrev pub fault_error : Fault → Error
fault_error (not_exist e) = e
fault_error (other_fault e) = e

-- Opening for writing, without truncation, and creating what is not there; making directories;
-- copying bytes into a file from its start on; reading a whole file.
pub record Files (F : Type 0) : Type 0 where
  pub open_file : Path_ → F → Option Fault × F
  pub mkdir_all : Path_ → F → Option Fault × F
  pub copy_into : Path_ → Bytes → F → Option Error × F
  pub read_file : Path_ → F → Bytes ⊎ Fault

pub record Dir : Type 0 where
  pub path : Bytes
  pub part : List ℕ

-- `FullPath`
unfoldable pub hash_path : Dir → ℕ → Path_
unfolding full_path hex hash_bytes
hash_path dir h = full_path dir.path dir.part (hex (hash_bytes hash_size h))

-- `filepath.Dir`, of joined elements.
abbrev pub parent : Path_ → Path_
parent [] = []
parent (p ∷ []) = []
parent (p ∷ q ∷ ps) = p ∷ parent (q ∷ ps)

module _ {F : Type 0} (files : Files F) where
  -- The end of `process`, where the file is open; `none` is the panic of a second read of reader
  -- data.
  unfoldable pub copy_data : Path_ → Chunk → F → Option (Option Error × F)
  copy_data p c f = elim (read (payload c)) [
    | none ↦ none
    | some (b, e, rest) ↦
        let (failure, g) = files.copy_into p b f in
        some (elim failure [ none ↦ e | some x ↦ some x ], g)
  ]

  -- The second attempt, once the directories were made.
  unfoldable pub retry : Path_ → Chunk → F → Option (Option Error × F)
  unfolding copy_data
  retry p c f =
      let (made, g) = files.mkdir_all (parent p) f in
      elim made [
        | some x ↦ some (some (fault_error x), g)
        | none ↦
            let (opened, k) = files.open_file p g in
            elim opened [ some x ↦ some (some (fault_error x), k) | none ↦ copy_data p c k ]
      ]

  unfoldable pub process : Dir → Chunk → F → Option (Option Error × F)
  unfolding retry copy_data
  process dir c f =
      let p = hash_path dir (hash c) in
      let (opened, g) = files.open_file p f in
      elim opened [
        | none ↦ copy_data p c g
        | some (not_exist e) ↦ retry p c g
        | some (other_fault e) ↦ some (some e, g)
      ]

  unfoldable pub unprocess : Dir → F → Chunk → Chunk × Option Error
  unprocess dir f c = elim (files.read_file (hash_path dir (hash c)) f) [
    | inl b ↦ (with_data c (bytes_data b), none)
    | inr (not_exist e) ↦ (with_data c (bytes_data []), some (missing_data e))
    | inr (other_fault e) ↦ (with_data c (bytes_data []), some e)
  ]

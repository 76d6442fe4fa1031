-- ===== src/Stores/Listed.antt =====
-- stores/dir.go, stores/cp.go and stores/dd.go: how the files of a store are listed.
--
-- What the operating system and `find` answer is an argument. A channel of results is the list of
-- what is sent on it.
pub mod Names
pub mod Found
use scat.Prelude.{
  ℕ, zero, suc, ◌⊎◌, inl, inr, Option, none, some, List, [], ◌∷◌, ◌++◌, ◌==◌, if◌then◌else◌, ℤ, pos,
  negsuc, length, replicate,
}
use scat.Chunk.{Bytes}
use scat.Errors.{Error, foreign}
use scat.Index.{Scan, got, eof, bad, scan_hex, load_slice}
use scat.Stores.Mem.{LsEntry}

-- `DirLsRes`: a name with a size, or an error.
pub data DirLsRes : Type 0 where
  file : Bytes → ℕ → DirLsRes
  ls_error : Error → DirLsRes

-- The hash that a file name spells, if it does.
abbrev pub loaded : Scan Bytes → Option ℕ
loaded (got bs rest) = load_slice bs
loaded eof = none
loaded bad = none

abbrev pub add_entry : Option ℕ → ℕ → List LsEntry × Option Error → List LsEntry × Option Error
add_entry none n r = r
add_entry (some h) n (es, e) = (record { hash_ = h; size_ = n } ∷ es, e)

-- `collect` in `Dir.Ls`.
unfoldable pub collect : List DirLsRes → List LsEntry × Option Error
unfolding scan_hex load_slice
collect [] = ([], none)
collect (ls_error e ∷ rs) = ([], some e)
collect (file name n ∷ rs) = add_entry (loaded (scan_hex name)) n (collect rs)

-- `depthPattern`: the elements that are joined.
unfoldable pub depth_pattern : Bytes → ℕ → List Bytes
depth_pattern path depth = path ∷ replicate depth (b'*' ∷ [])

-- What `os.Stat` says of a path: an error, a directory, or a file's name and size.
pub data Stat : Type 0 where
  stat_error : Error → Stat
  directory : Stat
  regular : Bytes → ℕ → Stat

-- The loop of `localLister.Ls` over the paths that match.
unfoldable pub stat_all : {P : Type 0} → (P → Stat) → List P → List DirLsRes
stat_all stat [] = []
stat_all stat (p ∷ ps) = elim (stat p) [
  | stat_error e ↦ ls_error e ∷ []
  | directory ↦ stat_all stat ps
  | regular name n ↦ file name n ∷ stat_all stat ps
]

-- `localLister.Ls`, given `os.Stat` of the directory and `filepath.Glob` of the pattern.
unfoldable pub local_ls :
    {P : Type 0} → (P → Stat) → (List Bytes → List P ⊎ Error) → Stat → Bytes → ℕ → List DirLsRes
unfolding stat_all depth_pattern
local_ls stat glob (stat_error e) dir depth = ls_error e ∷ []
local_ls stat glob here dir depth = elim (glob (depth_pattern dir depth)) [
  | inr e ↦ ls_error e ∷ []
  | inl ps ↦ stat_all stat ps
]

-- `byteSep.scan`: how far to advance, and the token; `none` asks for more data.
unfoldable pub byte_scan : ℕ → Bytes → Option (Bytes × Bytes)
byte_scan sep [] = none
byte_scan sep (c ∷ cs) =
    let rest = byte_scan sep cs in
    if c == sep then some ([], cs) else elim rest [ none ↦ none | some (t, ds) ↦ some (c ∷ t, ds) ]

-- The tokens that `bufio.Scanner` finds with this split function: at the end of the output, a
-- token without its separator is dropped. Each token takes a character at least.
unfoldable pub tokens : ℕ → ℕ → Bytes → List Bytes
unfolding byte_scan
tokens zero sep out = []
tokens (suc fuel) sep out = elim (byte_scan sep out) [
  | none ↦ []
  | some (t, rest) ↦ t ∷ tokens fuel sep rest
]

abbrev pub bad_size : Error
bad_size = foreign 1

abbrev pub negative_size : Error
negative_size = foreign 2

-- What is sent after the results: the error of the command, or else that of the loop.
abbrev pub with_end : List DirLsRes × Option Error → Option Error → List DirLsRes
with_end (rs, e) (some x) = rs ++ ls_error x ∷ []
with_end (rs, some e) none = rs ++ ls_error e ∷ []
with_end (rs, none) none = rs

-- The loop of `sendResults` in `findDirLister.Ls`: sizes and paths in turn. `strconv.ParseInt` and
-- `filepath.Base` are arguments.
module _ (parse_int : Bytes → Option ℤ) (base : Bytes → Bytes) where
  unfoldable pub send_results : Option ℕ → List Bytes → List DirLsRes × Option Error
  send_results size [] = ([], none)
  send_results none (t ∷ ts) = elim (parse_int t) [
    | none ↦ ([], some bad_size)
    | some (negsuc n) ↦ ([], some negative_size)
    | some (pos n) ↦ send_results (some n) ts
  ]
  send_results (some n) (t ∷ ts) =
      let rest = send_results none ts in (file (base t) n ∷ rest.0, rest.1)

  -- `findDirLister.Ls`: the output of the command or the error of starting it, and what waiting
  -- for it says.
  unfoldable pub find_ls : Bytes ⊎ Error → Option Error → List DirLsRes
  unfolding send_results tokens
  find_ls (inr e) waited = elim waited [ some x ↦ ls_error x ∷ [] | none ↦ ls_error e ∷ [] ]
  find_ls (inl out) waited = with_end (send_results none (tokens (suc (length out)) 0 out)) waited

-- ===== src/Stores/Remote.antt =====
-- stores/dd.go and stores/rclone.go: stores that commands write to and read from.
--
-- Paths are joined and named as text by an argument. The regular expressions for what the commands
-- print are arguments.
pub mod Missing
pub mod Hosts
pub mod Rclone
use Prim.Native.String.{String, ◌++◌ as ◌<>◌}
use scat.Prelude.{
  ℕ, ◌⊎◌, inl, inr, Bool, true, ◌&&◌, Option, none, some, List, [], ◌∷◌, map, ltb, leb,
  if◌then◌else◌, length,
}
use scat.Chunk.{Chunk, Bytes, Data, payload, hash, size, read, with_data}
use scat.Errors.{Error, missing_data, exit_error, zero_bytes, no_chunk}
use scat.Index.{Scan, got, eof, bad, scan_decimal, scan_hex, load_slice}
use scat.Procs.{Res}
use scat.Procs.Commands.{Cmd, Exec, Sends, cmd_in, cmd_out, filter_sends}
use scat.Stores.Disk.{Dir, Path_, hash_path, parent}
use scat.Stores.Mem.{LsEntry}

abbrev pub Env : Type 0
Env = List (String × String)

-- A directory whose paths are joined, and `Command` and `StrCommand`, which are functions of the
-- process or of the shell at a host.
pub record Dd : Type 0 where
  pub dir : Dir
  pub join : Path_ → String
  pub command : String → List String → Cmd
  pub str_command : Env → String → Cmd

abbrev pub bs_arg : String
bs_arg = "bs=1048576"

-- `exports`
abbrev pub exports : Env → List String
exports env = map (λ v. v.0) env

abbrev words : List String → String
words [] = ""
words (w ∷ []) = w
words (w ∷ v ∷ ws) = w <> " " <> words (v ∷ ws)

abbrev pub export : List String → String
export [] = "true"
export (n ∷ ns) = "export " <> words (n ∷ ns)

unfoldable pub out_command : Dd → Path_ → String → Cmd
out_command s path of_arg =
    let env =
      ("ddproc_dir", s.join (parent path)) ∷ ("ddproc_of", of_arg) ∷ ("ddproc_bs", bs_arg) ∷ [] in
    if ltb 0 (length s.dir.part)
    then s.str_command env
        (export (exports env) <> " && mkdir -p \"$ddproc_dir\" && dd \"$ddproc_of\" \"$ddproc_bs\"")
    else s.command "dd" (of_arg ∷ bs_arg ∷ [])

unfoldable pub store_cmd : Dd → Chunk → Cmd ⊎ Error
unfolding out_command
store_cmd s c =
    let path = hash_path s.dir (hash c) in inl (out_command s path ("of=" <> s.join path))

unfoldable pub load_cmd : Dd → Chunk → Cmd ⊎ Error
load_cmd s c = inl (s.command "dd" (("if=" <> s.join (hash_path s.dir (hash c))) ∷ bs_arg ∷ []))

-- The filter of `Dd.Unproc`, with the regular expression for "no such file".
unfoldable pub no_such_file : (Bytes → Bool) → Res → Res
no_such_file matches r = elim r.err [
  | some (exit_error buf) ↦
      if matches buf then record r { err = some (missing_data (exit_error buf)) } else r
  | _ ↦ r
]

unfoldable pub dd_process : {W : Type 0} → Exec W → Dd → Chunk → W → Sends W
unfolding cmd_in store_cmd
dd_process exec s c w = cmd_in exec (store_cmd s) c w

unfoldable pub dd_unprocess : {W : Type 0} → Exec W → (Bytes → Bool) → Dd → Chunk → W → Sends W
unfolding cmd_out load_cmd no_such_file filter_sends
dd_unprocess exec matches s c w =
    filter_sends (no_such_file matches) (cmd_out exec (load_cmd s) c w)

-- `getSize` in `rcloneDownloadErr`, and the chunk that it leaves; `none` is the panic of a second
-- read of reader data.
unfoldable pub download_size : Option Chunk → Option ((ℕ ⊎ Error) × Option Chunk)
download_size none = some (inr no_chunk, none)
download_size (some c) = elim (size (payload c)) [
  | some n ↦ some (inl n, some c)
  | none ↦ elim (read (payload c)) [
    | none ↦ none
    | some (b, some e, rest) ↦ some (inr e, some (with_data c rest))
    | some (b, none, rest) ↦ some (inl (length b), some (with_data c rest))
  ]
]

abbrev pub size_err : ℕ ⊎ Error → Option Error
size_err (inr e) = some (missing_data e)
size_err (inl n) = if leb n 0 then some (missing_data zero_bytes) else none

-- The filter of `Rclone.Unproc`, with `rcloneDownloadErr`.
unfoldable pub downloaded : Res → Option Res
unfolding download_size
downloaded r = elim r.err [
  | some e ↦ some (record r { err = some (missing_data e) })
  | none ↦ elim (download_size r.chunk) [
    | none ↦ none
    | some (s, c) ↦ some (record { chunk = c; err = size_err s })
  ]
]

unfoldable pub downloaded_all : List Res → Option (List Res)
unfolding downloaded
downloaded_all [] = some []
downloaded_all (r ∷ rs) = elim (downloaded r) [
  | none ↦ none
  | some s ↦ elim (downloaded_all rs) [ none ↦ none | some ss ↦ some (s ∷ ss) ]
]

-- `Rclone.Unproc`, with the command of `rclone cat`.
unfoldable pub rclone_unprocess : {W : Type 0} → Exec W → (Chunk → Cmd) → Chunk → W → Sends W
unfolding cmd_out downloaded_all
rclone_unprocess exec cat c w = elim (cmd_out exec (λ d. inl (cat d)) c w) [
  | none ↦ none
  | some (rs, v) ↦ elim (downloaded_all rs) [ none ↦ none | some ss ↦ some (ss, v) ]
]

abbrev line_hash : Scan Bytes → Option ℕ
line_hash (got bs rest) = load_slice bs
line_hash eof = none
line_hash bad = none

abbrev ls_line : Scan ℕ → Option LsEntry
ls_line (got n rest) = elim (line_hash (scan_hex rest)) [
  | none ↦ none
  | some h ↦ some (record { hash_ = h; size_ = n })
]
ls_line eof = none
ls_line bad = none

-- The loop of `Rclone.Ls` over the lines of the output.
unfoldable pub ls_lines : List Bytes → List LsEntry
unfolding scan_decimal scan_hex load_slice
ls_lines [] = []
ls_lines (l ∷ ls) =
    let rest = ls_lines ls in elim (ls_line (scan_decimal l)) [ none ↦ rest | some e ↦ e ∷ rest ]

unfoldable pub rclone_ls : List Bytes ⊎ Error → List LsEntry ⊎ Error
unfolding ls_lines
rclone_ls (inr e) = inr e
rclone_ls (inl ls) = inl (ls_lines ls)

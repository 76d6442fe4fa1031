-- ===== src/Stores/Remote/Rclone.antt =====
-- stores/rclone.go: the commands of an `Rclone` store, and its proc and listing by them.
--
-- The text of a hash's digits, the names of the paths in the temporary directory, the lines of an
-- output and running a command are arguments.
use Prim.Native.String.{String, ◌++◌ as ◌<>◌}
use scat.Prelude.{ℕ, ◌⊎◌, false, Option, List, [], ◌∷◌}
use scat.Chunk.{Chunk, Bytes, hash}
use scat.Errors.{Error}
use scat.Procs.Commands.{Cmd, Exec, Sends}
use scat.Stores.Mem.{LsEntry}
use scat.Stores.Remote.{rclone_unprocess, rclone_ls}
use scat.Tmpdedup.{Create}
use scat.Tmpdedup.Dir.{Dir, process}

abbrev rclone : List String → Cmd
rclone args = record { argv = "rclone" ∷ args; env = []; has_stderr = false }

-- `procCmd`
unfoldable pub copy_cmd : String → String → Cmd
copy_cmd remote path = rclone ("copy" ∷ path ∷ remote ∷ "-q" ∷ [])

-- `rcloneCat`, and `loadCmd` with it.
unfoldable pub cat_cmd : String → Cmd
cat_cmd remote = rclone ("cat" ∷ remote ∷ [])

unfoldable pub load_cmd : (ℕ → String) → String → Chunk → Cmd
unfolding cat_cmd
load_cmd digits remote c = cat_cmd (remote <> "/" <> digits (hash c))

-- `rcloneLs`
unfoldable pub ls_cmd : String → Cmd
ls_cmd remote = rclone ("ls" ∷ remote ∷ "-q" ∷ [])

-- `Rclone.Proc`, with the path of a hash, how writing a file ends, and the error of a command.
unfoldable pub copy_process :
    String
    → (ℕ → String)
    → (ℕ → ℕ)
    → (Chunk → Create)
    → (Cmd → Option Error)
    → Dir
    → Chunk
    → Dir × Option Error
unfolding copy_cmd process
copy_process remote name path_of write run =
    process path_of write (λ c p. run (copy_cmd remote (name p)))

-- `Rclone.Unproc`
unfoldable pub load_process : {W : Type 0} → Exec W → (ℕ → String) → String → Chunk → W → Sends W
unfolding load_cmd rclone_unprocess
load_process exec digits remote = rclone_unprocess exec (load_cmd digits remote)

-- `Rclone.Ls`, with the lines of a command's output, or its error.
unfoldable pub ls : (Cmd → List Bytes ⊎ Error) → String → List LsEntry ⊎ Error
unfolding ls_cmd rclone_ls
ls output remote = rclone_ls (output (ls_cmd remote))

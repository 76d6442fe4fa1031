-- ===== src/Procs/Commands.antt =====
-- procs/cmdfunc.go: procs that run commands.
--
-- Running a command is an argument: its standard input with the error that it ends with, if any,
-- and what comes back on standard output, on standard error, and from `Run`.
use Prim.Native.String.{String}
use scat.Prelude.{◌⊎◌, inl, inr, Bool, false, Option, none, some, List, [], ◌∷◌, map}
use scat.Chunk.{Chunk, Bytes, payload, with_data, read, bytes_data}
use scat.Errors.{Error, exit_error}
use scat.Procs.{Res, single_res, sent, failed}

-- A variable of the environment is its name and its value, which `=` joins.
pub record Cmd : Type 0 where
  pub argv : List String
  pub env : List (String × String)
  pub has_stderr : Bool

pub record Ran : Type 0 where
  pub stdout : Bytes
  pub stderr : Bytes
  pub err : Option Error

-- `exec`: the command, its input and the error at the end of its input.
abbrev pub Exec : Type 0 → Type 0
Exec W = Cmd → Bytes × Option Error → W → Ran × W

-- `runCaptureStderr`: an exit error without output on standard error gets what was captured.
unfoldable pub capture : Bool → Bytes → Option Error → Option Error
capture false buf (some (exit_error [])) = some (exit_error buf)
capture has buf err = err

-- The end of `CmdOutFunc.process`.
unfoldable pub output_res : Chunk → Bytes → Option Error → List Res
output_res c out none = sent (with_data c (bytes_data out)) ∷ []
output_res c out (some e) = failed c e ∷ []

-- What a proc sends, with the new state; `none` is the panic of a second read of reader data.
abbrev pub Sends : Type 0 → Type 0
Sends W = Option (List Res × W)

module _ {W : Type 0} (exec : Exec W) where
  -- `CmdInFunc.Process`
  unfoldable pub cmd_in : (Chunk → Cmd ⊎ Error) → Chunk → W → Sends W
  unfolding capture
  cmd_in fn c w = elim (fn c) [
    | inr e ↦ some (single_res c (some e), w)
    | inl cmd ↦ elim (read (payload c)) [
      | none ↦ none
      | some (b, e, rest) ↦
          let (r, v) = exec cmd (b, e) w in
          some (single_res (with_data c rest) (capture cmd.has_stderr r.stderr r.err), v)
    ]
  ]

  -- `CmdOutFunc.Process`
  unfoldable pub cmd_out : (Chunk → Cmd ⊎ Error) → Chunk → W → Sends W
  unfolding capture output_res
  cmd_out fn c w = elim (fn c) [
    | inr e ↦ some (failed c e ∷ [], w)
    | inl cmd ↦
        let (r, v) = exec cmd ([], none) w in
        some (output_res c r.stdout (capture cmd.has_stderr r.stderr r.err), v)
  ]

  -- `CmdFunc.Process`
  unfoldable pub cmd_func : (Chunk → Cmd ⊎ Error) → Chunk → W → Sends W
  unfolding capture output_res
  cmd_func fn c w = elim (fn c) [
    | inr e ↦ some (failed c e ∷ [], w)
    | inl cmd ↦ elim (read (payload c)) [
      | none ↦ none
      | some (b, e, rest) ↦
          let (r, v) = exec cmd (b, e) w in
          some (output_res (with_data c rest) r.stdout (capture cmd.has_stderr r.stderr r.err), v)
    ]
  ]

-- A filter on what is sent.
unfoldable pub filter_sends : {W : Type 0} → (Res → Res) → Sends W → Sends W
filter_sends f none = none
filter_sends f (some (rs, w)) = some (map f rs, w)

-- ===== src/Command.antt =====
-- cmd/main.go: the command.
--
-- What is outside is an argument: the parser of flags, whether a temporary directory can be made,
-- and how a run of the procs ends. The calls that matter are listed in their order.
pub mod Ended
use scat.Prelude.{
  ℕ, Bool, true, false, not, ◌&&◌, ◌||◌, Option, none, some, List, [], ◌∷◌, ◌++◌, ◌==◌,
  if◌then◌else◌, length,
}
use scat.Errors.{Error, exit_error}
use scat.Argparse.{Str, ArgError, Parsed, ok, fail, no_return, crashed, original_err}
use scat.Argproc.{Proc, Outside}
use scat.Argproc.Language.{parse_procs}

pub record CmdArgs : Type 0 where
  pub proc_str : Str
  pub stats : Bool
  pub version : Bool

-- What `flag.FlagSet.Parse` makes of the arguments behind the name of the command.
pub data FlagErr : Type 0 where
  help bad_flag : FlagErr

pub record Flags : Type 0 where
  pub err : Option FlagErr
  pub stats : Bool
  pub version : Bool
  pub args : List Str

-- The arguments, or the usage on one of the two outputs and an exit code.
pub data ParsedArgs : Type 0 where
  given : CmdArgs → ParsedArgs
  usage_stdout usage_stderr : ℕ → ParsedArgs

abbrev pub is_error : Option FlagErr → Bool
is_error none = false
is_error (some e) = true

abbrev pub usage_for : Option FlagErr → ParsedArgs
usage_for (some help) = usage_stdout 0
usage_for (some bad_flag) = usage_stderr 2
usage_for none = usage_stderr 2

-- `fl.Arg(0)`
abbrev pub first_arg : List Str → Str
first_arg [] = []
first_arg (a ∷ as_) = a

-- The name is the first argument, if there are any.
unfoldable pub parse_args : (List Str → Flags) → List Str → ParsedArgs
parse_args flags argv =
    let behind : List Str = elim argv [ [] ↦ [] | ◌∷◌ name rest ↦ rest ] in
    let f = flags behind in
    if is_error f.err || (not (length f.args == 1) && not f.version)
    then usage_for f.err
    else given (record { proc_str = first_arg f.args; stats = f.stats; version = f.version })

pub data Call : Type 0 where
  printed_version made_tmp finished_tmp started_ticker stopped_ticker : Call
  ran_procs : Proc → Call

pub data StartErr : Type 0 where
  arg_err : ArgError → StartErr
  err : Error → StartErr

-- How `start` ends: with its error, or by a panic, and the calls that it made; or it does not end.
pub data Started : Type 0 where
  ended : Option StartErr → List Call → Started
  panicked : List Call → Started
  never : List Call → Started

-- How a run of the procs ends: it may also panic, or block for ever. A panic in a goroutine ends
-- the process at once, and counts as a run that does not return.
pub data Run : Type 0 where
  returned : Option Error → Run
  panics blocks : Run

pub record Around : Type 0 where
  pub temp_dir : Option Error
  pub process : Proc → Run
  pub out : Outside

abbrev run_err : Option Error → Option StartErr
run_err none = none
run_err (some e) = some (err e)

-- The calls made, and those that are deferred, the last one first: these are made when `start`
-- returns or panics.
pub record Frame : Type 0 where
  pub calls : List Call
  pub deferred : List Call

abbrev pub call_defer : Call → Call → Frame → Frame
call_defer opening closing f = record {
  calls = f.calls ++ opening ∷ [];
  deferred = closing ∷ f.deferred;
}

abbrev pub returns : Option StartErr → Frame → Started
returns e f = ended e (f.calls ++ f.deferred)

abbrev pub run_end : Run → Frame → Started
run_end (returned e) f = returns (run_err e) f
run_end panics f = panicked (f.calls ++ f.deferred)
run_end blocks f = never f.calls

-- What `start` makes of the parsed procs.
unfoldable pub run_parsed : Around → Parsed Proc → Frame → Started
run_parsed a (ok p n) f =
    run_end (a.process p) (record { calls = f.calls ++ ran_procs p ∷ []; deferred = f.deferred })
run_parsed a (fail e n) f = returns (some (arg_err e)) f
run_parsed a crashed f = panicked (f.calls ++ f.deferred)
run_parsed a no_return f = never f.calls

-- The temporary directory is there, and the ticker if stats are wanted.
unfoldable pub prepared : Bool → Frame
prepared stats =
    let f = call_defer made_tmp finished_tmp (record { calls = []; deferred = [] }) in
    if stats then call_defer started_ticker stopped_ticker f else f

unfoldable pub start : Around → CmdArgs → Started
unfolding run_parsed parse_procs prepared
start a args = if args.version then ended none (printed_version ∷ []) else elim a.temp_dir [
  | some e ↦ ended (some (err e)) []
  | none ↦
      run_parsed a (parse_procs (record a.out { stats = args.stats }) args.proc_str)
        (prepared args.stats)
]

-- `main`: the exit code, the error that is printed, and the output of a command that failed.
pub record Exit : Type 0 where
  pub code : ℕ
  pub message : Option StartErr
  pub stderr : Option (List ℕ)

abbrev pub stderr_of : StartErr → Option (List ℕ)
stderr_of (err (exit_error buf)) = some buf
stderr_of e = none

unfoldable pub exit : Option StartErr → Exit
exit none = record { code = 0; message = none; stderr = none }
exit (some e) = record { code = 1; message = some e; stderr = stderr_of e }

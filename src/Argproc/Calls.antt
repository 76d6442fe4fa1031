-- ===== src/Argproc/Calls.antt =====
-- argproc/argproc.go: the calls that have no proc in them return.
use scat.Prelude.{◌≢◌, List, [], ◌∷◌, arith, length}
use scat.Argparse.{Ran, panicked}
use scat.Argparse.Lists.{arg_variadic}
use scat.Argparse.Brackets.{arg_lambda, lambda_brackets}
use scat.Argproc.{CmdKind, unproc_side, Outside, Proc}
use scat.Argproc.Args.{Val, bytes_val, dyn_val, arg_bytes, boxed, an_int, a_str, strs, arg_call}
use scat.Argproc.Stores.{arg_copier, arg_dyn_proc}
use scat.Argproc.Language.{just, make_group, make_split2, make_concur, make_reader, make_cmd}
use scat.Argproc.Ends.{Ends, lambda-Within}
use scat.Argproc.Leaves.{
  boxed-Ends, arg_call-Ends, a_str-Ends, an_int-Ends, strs-Ends, bytes-Ends, a_str-Makes,
  an_int-Makes, strs-Makes,
}
use scat.Argproc.Quotas.{copiers-Ends, arg_dyn_proc-Ends}
use scat.Argproc.Typed.{
  Typed, boxed-Makes, of_str, of_int, of_bytes, of_strs, of_dyn, make_group-Typed, make_cmd-Typed,
  make_split2-Typed, make_concur-Typed, unless-ne,
}

-- The calls without a proc in them.
pub no_args : (p : Proc) → Ends (arg_call [] (just p))
no_args p = arg_call-Ends [] [] (just p) tt tt (λ vs h e. absurd (ground arith))

pub one_text :
    (run : List Val → Ran Proc)
    → ((vs : List Val) → Typed (of_str ∷ []) vs → run vs ≢ panicked)
    → Ends (arg_call (a_str ∷ []) run)
one_text run fine =
    arg_call-Ends (of_str ∷ []) (a_str ∷ []) run (a_str-Ends, tt) (a_str-Makes, tt) fine

pub one_int : Ends (arg_call (an_int ∷ []) make_group)
one_int =
    arg_call-Ends (of_int ∷ []) (an_int ∷ []) make_group (an_int-Ends, tt) (an_int-Makes, tt)
      make_group-Typed

pub two_ints :
    (run : List Val → Ran Proc)
    → ((vs : List Val) → Typed (of_int ∷ of_int ∷ []) vs → run vs ≢ panicked)
    → Ends (arg_call (an_int ∷ an_int ∷ []) run)
two_ints run fine =
    arg_call-Ends (of_int ∷ of_int ∷ []) (an_int ∷ an_int ∷ []) run (an_int-Ends, (an_int-Ends, tt))
      (an_int-Makes, (an_int-Makes, tt)) fine

pub texts : (k : CmdKind) → Ends (arg_call (a_str ∷ strs ∷ []) (make_cmd k))
texts k =
    arg_call-Ends (of_str ∷ of_strs ∷ []) (a_str ∷ strs ∷ []) (make_cmd k)
      (a_str-Ends, (strs-Ends, tt)) (a_str-Makes, (strs-Makes, tt)) (make_cmd-Typed k)

module _ (out : Outside) where
  pub two_sizes : Ends (
      arg_call (boxed bytes_val (arg_bytes out) ∷ boxed bytes_val (arg_bytes out) ∷ []) make_split2)
  two_sizes =
      let sizes = boxed-Makes of_bytes (arg_bytes out) in
      arg_call-Ends (of_bytes ∷ of_bytes ∷ []) _ make_split2
        (bytes-Ends out bytes_val, (bytes-Ends out bytes_val, tt)) (sizes, (sizes, tt))
        make_split2-Typed

  pub one_dyn : Ends (arg_call (an_int ∷ boxed dyn_val (arg_dyn_proc out) ∷ []) make_concur)
  one_dyn =
      arg_call-Ends (of_int ∷ of_dyn ∷ []) _ make_concur
        (an_int-Ends, (boxed-Ends dyn_val (arg_dyn_proc out) (arg_dyn_proc-Ends out), tt))
        (an_int-Makes, (boxed-Makes of_dyn (arg_dyn_proc out), tt)) make_concur-Typed

  pub readers :
      Ends
        (arg_lambda lambda_brackets (arg_variadic (arg_copier out unproc_side)) (make_reader out))
  unfolding make_reader
  readers s =
      lambda-Within (length s) lambda_brackets (arg_variadic (arg_copier out unproc_side))
        (make_reader out) (λ t short. copiers-Ends out unproc_side t)
        (λ t vs n e. unless-ne (out.new_reader vs) (Proc.multireader vs)) s (omega arith)

-- ===== src/Argproc/Args.antt =====
-- argproc/argproc.go: arguments of several types in one list.
--
-- The code keeps arguments as `interface{}` and asserts their types; here they are put into one
-- type. A call whose arguments have other types than it asserts panics.
use scat.Prelude.{ℕ, none, some, List, ℤ}
use scat.Argparse.{Ran, Str, Parsed, ok, fail, no_return, crashed, Parser}
use scat.Argparse.Leaf.{arg_str, arg_int, parse_bytes}
use scat.Argparse.Lists.{arg_args, arg_variadic}
use scat.Argparse.Brackets.{arg_lambda, lambda_brackets}
use scat.Argproc.{Proc, DynProc, QuotaRes, Outside}

pub data Val : Type 0 where
  int_val : ℤ → Val
  bytes_val : ℕ → Val
  str_val : Str → Val
  ints_val : List ℤ → Val
  strs_val : List Str → Val
  ress_val : List QuotaRes → Val
  proc_val : Proc → Val
  dyn_val : DynProc → Val

abbrev boxed_parsed : {A : Type 0} → (A → Val) → Parsed A → Parsed Val
boxed_parsed f (ok v n) = ok (f v) n
boxed_parsed f (fail e n) = fail e n
boxed_parsed f no_return = no_return
boxed_parsed f crashed = crashed

abbrev pub boxed : {A : Type 0} → (A → Val) → Parser A → Parser Val
boxed f p = record {
  parse = λ s. boxed_parsed f (p.parse s);
  empty = elim p.empty [ none ↦ none | some v ↦ some (f v) ];
}

abbrev pub arg_bytes : Outside → Parser ℕ
arg_bytes out = record { parse = parse_bytes out.humanize; empty = none }

abbrev pub an_int : Parser Val
an_int = boxed int_val arg_int

abbrev pub a_str : Parser Val
a_str = boxed str_val arg_str

abbrev pub ints : Parser Val
ints = boxed ints_val (arg_variadic arg_int)

abbrev pub strs : Parser Val
strs = boxed strs_val (arg_variadic arg_str)

-- `ArgLambda` with the brackets of a call.
abbrev pub arg_call : {B : Type 0} → List (Parser Val) → (List Val → Ran B) → Parser B
arg_call args run = arg_lambda lambda_brackets (arg_args args) run

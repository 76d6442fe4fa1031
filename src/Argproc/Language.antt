-- ===== src/Argproc/Language.antt =====
-- argproc/argproc.go: the parser of proc strings.

use scat.Prelude.{
  ℕ, zero, suc, inl, none, some, List, [], ◌∷◌, ◌++◌, if◌then◌else◌, pos, negsuc, length,
}
use scat.Argparse.{Ran, made, panicked, crashes, Str, Parsed, no_return, Parser}
use scat.Argparse.Leaf.{arg_filter}
use scat.Argparse.Lists.{arg_variadic, arg_piped}
use scat.Argparse.Brackets.{parse_fn, arg_lambda, lambda_brackets}
use scat.Argparse.Choice.{parse_or}
use scat.Argproc.{
  codes, chain_brackets, Store, Side, proc_side, unproc_side, CmdKind, both_ways, in_only, out_only,
  Copier, Outside, unless, new_chain, Proc,
}
use scat.Argproc.Args.{
  Val, int_val, bytes_val, str_val, strs_val, proc_val, dyn_val, boxed, arg_bytes, an_int, a_str,
  strs, arg_call,
}
use scat.Argproc.Stores.{store_fns, arg_copier, arg_dyn_proc}

unfoldable pub make_cmd : CmdKind → List Val → Ran Proc
make_cmd k (str_val name ∷ strs_val args ∷ []) = made (Proc.cmd k name args)
make_cmd k args = panicked

unfoldable pub make_split2 : List Val → Ran Proc
make_split2 (bytes_val least ∷ bytes_val most ∷ []) = made (Proc.split2 least most)
make_split2 args = panicked

-- A channel of slots cannot have a negative size, and a group has one chunk at least.
unfoldable pub make_backlog : List Val → Ran Proc
make_backlog (int_val (pos n) ∷ proc_val p ∷ []) = made (Proc.backlog (pos n) p)
make_backlog (int_val (negsuc n) ∷ proc_val p ∷ []) = crashes
make_backlog args = panicked

unfoldable pub make_concur : List Val → Ran Proc
make_concur (int_val (pos n) ∷ dyn_val d ∷ []) = made (Proc.concur (pos n) d)
make_concur (int_val (negsuc n) ∷ dyn_val d ∷ []) = crashes
make_concur args = panicked

unfoldable pub make_group : List Val → Ran Proc
make_group (int_val (pos (suc n)) ∷ []) = made (Proc.group (pos (suc n)))
make_group (int_val (pos zero) ∷ []) = crashes
make_group (int_val (negsuc n) ∷ []) = crashes
make_group args = panicked

-- A call without arguments.
abbrev pub just : Proc → List Val → Ran Proc
just p args = made p

module _ (out : Outside) where
  -- `index`, `write` and `join`, which open their file.
  unfoldable pub make_writing : (Str → Proc) → List Val → Ran Proc
  make_writing make (str_val path ∷ []) = unless (out.open_out path) (make path)
  make_writing make args = panicked

  unfoldable pub make_parity : Side → List Val → Ran Proc
  make_parity side (int_val ndata ∷ int_val nparity ∷ []) =
      unless (out.new_parity ndata nparity) (Proc.parity side ndata nparity)
  make_parity side args = panicked

  unfoldable pub make_reader : List Copier → Ran Proc
  make_reader cs = unless (out.new_reader cs) (Proc.multireader cs)

  -- `newArgProc`, given the parser of procs.
  abbrev pub proc_fns : Parser Proc → List (Str × Parser Proc)
  proc_fns arg_proc =
      (codes "checksum", arg_call [] (just Proc.checksum))
      ∷ (codes "uchecksum", arg_call [] (just Proc.uchecksum))
      ∷ (codes "index", arg_call (a_str ∷ []) (make_writing Proc.index))
      ∷ (codes "uindex", arg_call [] (just Proc.uindex))
      ∷ (codes "split", arg_call [] (just Proc.split))
      ∷ (
        codes "split2",
        arg_call (boxed bytes_val (arg_bytes out) ∷ boxed bytes_val (arg_bytes out) ∷ [])
            make_split2,
      )
      ∷ (codes "backlog", arg_call (an_int ∷ boxed proc_val arg_proc ∷ []) make_backlog)
      ∷ (codes "concur", arg_call (an_int ∷ boxed dyn_val (arg_dyn_proc out) ∷ []) make_concur)
      ∷ (
        codes "multireader",
        arg_lambda lambda_brackets (arg_variadic (arg_copier out unproc_side)) make_reader,
      )
      ∷ (codes "parity", arg_call (an_int ∷ an_int ∷ []) (make_parity proc_side))
      ∷ (codes "uparity", arg_call (an_int ∷ an_int ∷ []) (make_parity unproc_side))
      ∷ (codes "gzip", arg_call [] (just (Proc.gzip proc_side)))
      ∷ (codes "ugzip", arg_call [] (just (Proc.gzip unproc_side)))
      ∷ (codes "sort", arg_call [] (just Proc.sort))
      ∷ (codes "write", arg_call (a_str ∷ []) (make_writing Proc.write))
      ∷ (codes "join", arg_call (a_str ∷ []) (make_writing Proc.join))
      ∷ (codes "group", arg_call (an_int ∷ []) make_group)
      ∷ (codes "cmd", arg_call (a_str ∷ strs ∷ []) (make_cmd both_ways))
      ∷ (codes "cmdin", arg_call (a_str ∷ strs ∷ []) (make_cmd in_only))
      ∷ (codes "cmdout", arg_call (a_str ∷ strs ∷ []) (make_cmd out_only))
      ∷ []

  -- The stores as procs: under their names, and under these with a `u` in front.
  abbrev pub store_procs : List (Str × Parser Store) → List (Str × Parser Proc)
  store_procs [] = []
  store_procs ((k, p) ∷ fns) =
      (k, arg_filter p (λ s. inl (Proc.store_proc proc_side s)))
      ∷ (b'u' ∷ k, arg_filter p (λ s. inl (Proc.store_proc unproc_side s)))
      ∷ store_procs fns

  -- `newArgStatsProc` on each, where there are stats.
  abbrev pub counted_fns : List (Str × Parser Proc) → List (Str × Parser Proc)
  counted_fns [] = []
  counted_fns ((k, p) ∷ fns) = (k, arg_filter p (λ q. inl (Proc.with_stats k q))) ∷ counted_fns fns

  abbrev pub all_fns : Parser Proc → List (Str × Parser Proc)
  all_fns arg_proc =
      let fns = proc_fns arg_proc ++ store_procs store_fns in
      if out.stats then counted_fns fns else fns

  abbrev pub arg_chain : Parser Proc → Parser Proc
  arg_chain arg_proc =
      arg_lambda chain_brackets (arg_piped (some chain_brackets) arg_proc)
        (λ ps. made (new_chain ps))

  -- `argProc`, on fuel for the procs within procs.
  unfoldable pub arg_proc : ℕ → Parser Proc
  arg_proc zero = record { parse = λ s. no_return; empty = none }
  arg_proc (suc fuel) =
      let inner = arg_proc fuel in
      let fn : Parser Proc = record { parse = parse_fn (all_fns inner); empty = none } in
      record { parse = parse_or (arg_chain inner) (fn ∷ []); empty = none }

  -- The parser that `New` makes, on a string.
  unfoldable pub parse_procs : Str → Parsed Proc
  unfolding arg_proc
  parse_procs str =
      let procs = arg_piped (some chain_brackets) (arg_proc (suc (length str))) in
      (arg_filter procs (λ ps. inl (new_chain ps))).parse str

-- ===== src/Argproc/Stores.antt =====
-- argproc/argproc.go: the parsers of stores, copiers, quotas and dynamic procs.
use scat.Prelude.{inl, true, false, none, List, [], ◌∷◌, ℤ, pos}
use scat.Argparse.{Ran, made, panicked, Str, Parser}
use scat.Argparse.Leaf.{arg_str, arg_filter}
use scat.Argparse.Lists.{arg_variadic}
use scat.Argparse.Brackets.{parse_fn}
use scat.Argparse.Choice.{parse_pair, parse_or}
use scat.Stores.Quota.{unlimited}
use scat.Argproc.{
  codes, Store, rclone, cp, scp, Side, proc_side, Copier, QuotaRes, DynProc, Outside, unless,
}
use scat.Argproc.Args.{
  Val, int_val, str_val, ints_val, ress_val, boxed, arg_bytes, an_int, a_str, ints, arg_call,
}

unfoldable pub make_rclone : List Val → Ran Store
make_rclone (str_val remote ∷ []) = made (rclone remote)
make_rclone args = panicked

unfoldable pub make_cp : List Val → Ran Store
make_cp (str_val path ∷ ints_val part ∷ []) = made (cp path part)
make_cp args = panicked

unfoldable pub make_scp : List Val → Ran Store
make_scp (str_val host ∷ str_val path ∷ ints_val part ∷ []) = made (scp host path part)
make_scp args = panicked

-- `newArgStore`
abbrev pub store_fns : List (Str × Parser Store)
store_fns =
    (codes "rclone", arg_call (a_str ∷ []) make_rclone)
    ∷ (codes "cp", arg_call (a_str ∷ ints ∷ []) make_cp)
    ∷ (codes "scp", arg_call (a_str ∷ a_str ∷ ints ∷ []) make_scp)
    ∷ []

abbrev pub arg_store : Parser Store
arg_store = record { parse = parse_fn store_fns; empty = none }

module _ (out : Outside) where
  -- `newArgCopier`
  abbrev pub arg_copier : Side → Parser Copier
  arg_copier side = record {
    parse =
        parse_pair false arg_str arg_store
          (λ id store. inl (record { id = id; store = store; side = side; counted = out.stats }));
    empty = none;
  }

  -- `argQuotaMax`, and the filter that gives a copier alone no limit. Where there are stats, another
  -- filter tells them the limit and passes the value on: `Argproc.Reports.report_max`.
  abbrev pub with_max : Parser QuotaRes
  with_max = record {
    parse =
        parse_pair true (arg_copier proc_side) (arg_bytes out)
          (λ cp n. inl (record { max = n; copier = cp }));
    empty = none;
  }

  abbrev pub without_max : Parser QuotaRes
  without_max =
      arg_filter (arg_copier proc_side) (λ cp. inl (record { max = unlimited; copier = cp }))

  -- `newArgQuota`
  abbrev pub arg_quota : Parser QuotaRes
  arg_quota = record { parse = parse_or with_max (without_max ∷ []); empty = none }

  abbrev pub ress : Parser Val
  ress = boxed ress_val (arg_variadic arg_quota)

  -- `newS`
  abbrev pub new_stripe : ℤ → ℤ → List QuotaRes → Ran DynProc
  new_stripe least excl rs =
      let d : DynProc = record { min_copies = least; excl = excl; ress = rs } in
      unless (out.new_stripe d) d

  unfoldable pub make_mincopies : List Val → Ran DynProc
  make_mincopies (int_val least ∷ ress_val rs ∷ []) = new_stripe least (pos 0) rs
  make_mincopies args = panicked

  unfoldable pub make_stripe : List Val → Ran DynProc
  make_stripe (int_val least ∷ int_val excl ∷ ress_val rs ∷ []) = new_stripe least excl rs
  make_stripe args = panicked

  -- `newArgDynProc`
  abbrev pub dyn_fns : List (Str × Parser DynProc)
  dyn_fns =
      (codes "mincopies", arg_call (an_int ∷ ress ∷ []) make_mincopies)
      ∷ (codes "stripe", arg_call (an_int ∷ an_int ∷ ress ∷ []) make_stripe)
      ∷ []

  abbrev pub arg_dyn_proc : Parser DynProc
  arg_dyn_proc = record { parse = parse_fn dyn_fns; empty = none }

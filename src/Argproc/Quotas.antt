-- ===== src/Argproc/Quotas.antt =====
-- argproc/argproc.go: the parsers of stores, copiers, quotas and dynamic procs return.
use scat.Prelude.{ℕ, ◌<◌, ◌≡◌, inl, inr, true, false, [], ◌∷◌, arith, Bool-cases, length, All}
use scat.Argparse.{Str, ok, Parser}
use scat.Argparse.Leaf.{arg_str}
use scat.Argparse.Lists.{arg_variadic}
use scat.Argparse.Choice.{parse_or, passes_on}
use scat.Argproc.{Store, Side, proc_side, QuotaRes, Outside}
use scat.Argproc.Args.{arg_bytes, an_int, a_str, ints}
use scat.Argproc.Stores.{
  store_fns, arg_store, arg_copier, with_max, without_max, arg_quota, ress, dyn_fns, arg_dyn_proc,
}
use scat.Argproc.Typed.{
  Makes, boxed-Makes, of_str, of_int, of_ints, of_ress, make_rclone-Typed, make_cp-Typed,
  make_scp-Typed, make_mincopies-Typed, make_stripe-Typed,
}
use scat.Argproc.Ends.{Ends, arg_filter-Within, parse_or-Within}
use scat.Argproc.Leaves.{
  Moves, boxed-Ends, arg_call-Ends, parse_fn-returns, arg_str-Ends, ints-Ends, arg_bytes-Ends,
  arg_filter-Moves, parse_pair-returns, parse_pair-forward, variadic-Ends, a_str-Ends, an_int-Ends,
  a_str-Makes, an_int-Makes, ints-Makes,
}

pub store_fns-Ends : All (λ (e : Str × Parser Store). Ends e.1) store_fns
store_fns-Ends = (
  arg_call-Ends (of_str ∷ []) (a_str ∷ []) _ (a_str-Ends, tt) (a_str-Makes, tt) make_rclone-Typed,
  (
    arg_call-Ends (of_str ∷ of_ints ∷ []) (a_str ∷ ints ∷ []) _ (a_str-Ends, (ints-Ends, tt))
        (a_str-Makes, (ints-Makes, tt)) make_cp-Typed,
    (
      arg_call-Ends (of_str ∷ of_str ∷ of_ints ∷ []) (a_str ∷ a_str ∷ ints ∷ []) _
          (a_str-Ends, (a_str-Ends, (ints-Ends, tt))) (a_str-Makes, (a_str-Makes, (ints-Makes, tt)))
          make_scp-Typed,
      tt,
    ),
  ),
)

arg_store-Ends : Ends arg_store
arg_store-Ends s = parse_fn-returns store_fns s store_fns-Ends

module _ (out : Outside) where
  arg_copier-Ends : (side : Side) → Ends (arg_copier out side)
  arg_copier-Ends side = parse_pair-returns false arg_str arg_store _ arg_str-Ends arg_store-Ends

  arg_copier-Moves : (side : Side) → Moves (arg_copier out side)
  arg_copier-Moves side s v n e h k = parse_pair-forward false arg_str arg_store _ s v n e

  pub copiers-Ends : (side : Side) → Ends (arg_variadic (arg_copier out side))
  copiers-Ends side =
      variadic-Ends (arg_copier out side) (arg_copier-Ends side) (arg_copier-Moves side)

  with_max-Ends : Ends (with_max out)
  with_max-Ends =
      parse_pair-returns true (arg_copier out proc_side) (arg_bytes out) _
        (arg_copier-Ends proc_side) (arg_bytes-Ends out)

  without_max-Ends : Ends (without_max out)
  without_max-Ends s =
      arg_filter-Within (length s) (arg_copier out proc_side) _
        (λ t short. arg_copier-Ends proc_side t) s (omega arith)

  arg_quota-Ends : Ends (arg_quota out)
  arg_quota-Ends s =
      parse_or-Within (length s) (with_max out) (without_max out) s (λ t short. with_max-Ends t)
        (λ t short. without_max-Ends t) (omega arith)

  with_max-forward : (s : Str) (v : QuotaRes) (n : ℕ) → (with_max out).parse s ≡ ok v n → 0 < n
  with_max-forward s v n e =
      parse_pair-forward true (arg_copier out proc_side) (arg_bytes out) _ s v n e

  without_max-Moves : Moves (without_max out)
  without_max-Moves s v n e h k =
      arg_filter-Moves (arg_copier out proc_side) _ (arg_copier-Moves proc_side) s v n e h k

  arg_quota-Moves : Moves (arg_quota out)
  unfolding parse_or
  arg_quota-Moves s v n e h k = elim (Bool-cases (passes_on ((with_max out).parse s))) [
    | inr off ↦ with_max-forward s v n (ground arith)
    | inl on ↦ without_max-Moves s v n (ground arith) h k
  ]

  ress-Ends : Ends (ress out)
  ress-Ends =
      boxed-Ends _ (arg_variadic (arg_quota out))
        (variadic-Ends (arg_quota out) arg_quota-Ends arg_quota-Moves)

  ress-Makes : Makes of_ress (ress out)
  ress-Makes = boxed-Makes of_ress (arg_variadic (arg_quota out))

  pub arg_dyn_proc-Ends : Ends (arg_dyn_proc out)
  arg_dyn_proc-Ends s = parse_fn-returns (dyn_fns out) s (
    arg_call-Ends (of_int ∷ of_ress ∷ []) (an_int ∷ ress out ∷ []) _ (an_int-Ends, (ress-Ends, tt))
        (an_int-Makes, (ress-Makes, tt)) (make_mincopies-Typed out),
    (
      arg_call-Ends (of_int ∷ of_int ∷ of_ress ∷ []) (an_int ∷ an_int ∷ ress out ∷ []) _
          (an_int-Ends, (an_int-Ends, (ress-Ends, tt)))
          (an_int-Makes, (an_int-Makes, (ress-Makes, tt))) (make_stripe-Typed out),
      tt,
    ),
  )

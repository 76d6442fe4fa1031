-- ===== src/Tests/Procs.antt =====
-- argproc/: proc strings.
use scat.Prelude.{ℕ, ◌-◌, ◌≡◌, refl, true, false, none, some, List, [], ◌∷◌, pos}
use scat.Argparse.{Str, ok, crashed}
use scat.Argparse.Leaf.{parsed}
use scat.Argproc.{codes, Outside, Proc, new_chain, proc_side}
use scat.Argproc
use scat.Argproc.Reports.{reported, registered}
use scat.Argproc.Shown.{used, deleted, Op, ops, quota_of, quota_of-ops}
use scat.Stats.{new_statsd, Statsd}
use scat.Prelude.Dict.{Dict, lookup, insert, remove}
use scat.Stores.Quota.{new_man, Man, Usage}
use scat.Command.{CmdArgs, Around, returned}
use scat.Argproc.Language.{parse_procs}

abbrev quiet : Outside
quiet = record {
  stats = false;
  humanize = λ s. parsed 0;
  open_out = λ s. none;
  new_parity = λ n m. none;
  new_reader = λ cs. none;
  new_stripe = λ d. none;
}

abbrev proc_string : Str
proc_string = codes "backlog 2 {checksum|gzip}|join -"

parses :
    parse_procs quiet proc_string
    ≡ ok
        (new_chain (
          Proc.backlog (pos 2) (new_chain (Proc.checksum ∷ Proc.gzip proc_side ∷ []))
          ∷ Proc.join (b'-' ∷ [])
          ∷ []))
        32
unfolding parse_procs scat.Argparse.Leaf.arg_filter scat.Argparse.Lists.arg_piped
    scat.Argparse.count_left_spaces scat.Argparse.Choice.parse_or scat.Argparse.Brackets.arg_lambda
    scat.Argparse.Brackets.parse_lambda scat.Argparse.Lists.pipe_index scat.Argparse.original_err
    scat.Argparse.Brackets.parse_fn scat.Argparse.Brackets.close_index scat.Argparse.Lists.arg_args
    scat.Argparse.Lists.args_from scat.Argparse.Leaf.parse_int scat.Argparse.space_end_index
    scat.Argproc.Language.make_backlog scat.Argparse.Leaf.parse_str
    scat.Argproc.Language.make_writing
parses = refl

-- A group of no chunks is a panic.
crashes : parse_procs quiet (codes "group 0") ≡ crashed
unfolding parse_procs scat.Argparse.Leaf.arg_filter scat.Argparse.Lists.arg_piped
    scat.Argparse.count_left_spaces scat.Argparse.Choice.parse_or scat.Argparse.Brackets.arg_lambda
    scat.Argparse.Brackets.parse_lambda scat.Argparse.Lists.pipe_index scat.Argparse.original_err
    scat.Argparse.Brackets.parse_fn scat.Argparse.Brackets.close_index scat.Argparse.Lists.arg_args
    scat.Argparse.Lists.args_from scat.Argparse.Leaf.parse_int scat.Argparse.space_end_index
    scat.Argproc.Language.make_group
crashes = refl

-- Two stores with a quota; one is used twice, the other removed.
abbrev quotas : List (ℕ × ℕ)
quotas = (1, 40) ∷ (2, 9) ∷ []

abbrev few_ops : List Op
few_ops = used 1 30 ∷ deleted 2 ∷ used 1 4 ∷ []

abbrev after_ops : Man × Statsd
after_ops = ops few_ops (registered quotas new_man, reported quotas new_statsd)

abbrev used_34 : Usage
used_34 = record { use_ = 34; max = 40 }

still_there : lookup 1 after_ops.0 ≡ some used_34
unfolding lookup scat.Prelude.Dict.insert scat.Prelude.Dict.remove registered
    scat.Argproc.Reports.use_reported scat.Stores.Quota.add_use scat.Stores.Quota.delete
    scat.Stores.Quota.add_res_quota
still_there = refl

quota_of-ops_example : ((quota_of after_ops.1 1).use_ ≡ 34) × ((quota_of after_ops.1 1).max ≡ 40)
quota_of-ops_example = quota_of-ops quotas few_ops 1 used_34 still_there

abbrev around : Around
around = record { temp_dir = none; process = λ p. returned none; out = quiet }

abbrev with_stats_on : CmdArgs
with_stats_on = record { proc_str = proc_string; stats = true; version = false }

-- ===== src/Argproc.antt =====
-- argproc/argproc.go: the language of the command line, read into procs.
--
-- A proc, a store and the like are data here: the call that makes them. The stats of a proc are its
-- identity. What opening files, listing stores and making encoders may fail with is an argument.
pub mod Args
pub mod Stores
pub mod Language
pub mod Ends
pub mod Typed
pub mod Leaves
pub mod Quotas
pub mod Calls
pub mod Total
pub mod Reports
pub mod Shown
use Prim.Native.Char.{code}
use Prim.Native.String.{String}
use Prim.Native.String
use scat.Prelude.{ℕ, Bool, Option, none, some, List, [], ◌∷◌, ℤ}
use scat.Argparse.{Ran, made, refused, Ran, made, refused, panicked, Ran-cases, Str, ArgError}
use scat.Argparse.Leaf.{BytesResult}
use scat.Argparse.Lists.{Brackets}

-- The codes of a name.
abbrev pub codes : String → Str
codes String.[] = []
codes (String.◌∷◌ c cs) = code c ∷ codes cs

abbrev pub chain_brackets : Brackets
chain_brackets = record { opening = b'{'; closing = b'}' }

pub data Store : Type 0 where
  rclone : Str → Store
  cp : Str → List ℤ → Store
  scp : Str → Str → List ℤ → Store

-- `getProc` and `getUnproc`.
pub data Side : Type 0 where
  proc_side unproc_side : Side

-- A store's copier: its identity, which of its procs copies, and whether there are stats: then its
-- proc is a `stats.Proc`, and its listing is that of `Argproc.Reports.quota_init_ls`.
pub record Copier : Type 0 where
  pub id : Str
  pub store : Store
  pub side : Side
  pub counted : Bool

pub record QuotaRes : Type 0 where
  pub max : ℕ
  pub copier : Copier

-- `storestripe.New` with its configuration and the stores of its quotas.
pub record DynProc : Type 0 where
  pub min_copies : ℤ
  pub excl : ℤ
  pub ress : List QuotaRes

pub data CmdKind : Type 0 where
  both_ways in_only out_only : CmdKind

mutual
  pub data Proc : Type 0 where
    checksum uchecksum uindex split sort : Proc
    index write join : Str → Proc
    split2 : ℕ → ℕ → Proc
    backlog : ℤ → Proc → Proc
    concur : ℤ → DynProc → Proc
    multireader : List Copier → Proc
    parity : Side → ℤ → ℤ → Proc
    gzip : Side → Proc
    group : ℤ → Proc
    cmd : CmdKind → Str → List Str → Proc
    store_proc : Side → Store → Proc
    with_stats : Str → Proc → Proc
    chain : Procs → Proc

  pub data Procs : Type 0 where
    no_procs : Procs
    then_proc : Proc → Procs → Procs

abbrev pub chain_of : List Proc → Procs
chain_of [] = no_procs
chain_of (p ∷ ps) = then_proc p (chain_of ps)

-- `newChain`
abbrev pub new_chain : List Proc → Proc
new_chain ps = chain (chain_of ps)

-- What is outside: whether there are stats, `humanize.ParseBytes`, and the errors of what the calls
-- do.
pub record Outside : Type 0 where
  pub stats : Bool
  pub humanize : Str → BytesResult
  pub open_out : Str → Option ArgError
  pub new_parity : ℤ → ℤ → Option ArgError
  pub new_reader : List Copier → Option ArgError
  pub new_stripe : DynProc → Option ArgError

-- A value with its error, if any.
abbrev pub unless : {A : Type 0} → Option ArgError → A → Ran A
unless none v = made v
unless (some e) v = refused e

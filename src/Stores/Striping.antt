-- ===== src/Stores/Striping.antt =====
-- stores/stripe/stripe.go: the proc that chooses the stores for the copies of a group of chunks.
--
-- A panic on an unknown hash or copier is `panicked`. The fuel is that of `Stripe`. The order in
-- which the copies end is that in which `copied` is called.
pub mod Known
pub mod Plan
pub mod Placed
pub mod Ended
pub mod Begun
pub mod Copying
pub mod Kept
pub mod Stored
pub mod Partial
pub mod Restored
pub mod Restarted
pub mod InMemory
use scat.Prelude.{
  ℕ, ◌+◌, ◌%◌, ◌⊎◌, inl, inr, Option, none, some, List, [], ◌∷◌, ◌++◌, if◌then◌else◌,
}
use scat.Prelude.Dict.{Dict, insert, has, keys, Locs}
use scat.Chunk.{Chunk, hash, payload, size}
use scat.Errors.{Error, sized_data_required, stripe_short}
use scat.Procs.{Res, sent}
use scat.Group.{get_group, get_group_err}
use scat.Stores.Quota.{Man, word, add_use, delete, resources}
use scat.Stores.Copies.{Reg, Owners, list, list_add, owners}
use scat.Stripe.{S, Config, Outcome, done, failed, out_of_fuel, stripe}
use scat.Stripe.RoundRobin.{Rr}

pub record Striper : Type 0 where
  pub cfg : Config
  pub qman : Man
  pub reg : Reg
  pub seq : Rr

-- `chunkInfo` by hash.
abbrev pub Infos : Type 0
Infos = Dict (Chunk × ℕ)

-- The group of a chunk, or the chunk alone.
unfoldable pub group_chunks : Chunk → List Chunk
unfolding get_group
group_chunks c = elim (get_group c) [ none ↦ c ∷ [] | some cs ↦ cs ]

-- The first loop of `Procs`.
unfoldable pub gather : List Chunk → Infos → ℕ → (Infos × ℕ) ⊎ Error
unfolding get_group_err size
gather [] infos use_ = inl (infos, use_)
gather (c ∷ cs) infos use_ = elim (get_group_err c) [
  | some e ↦ inr e
  | none ↦ elim (size (payload c)) [
    | none ↦ inr sized_data_required
    | some n ↦ gather cs (insert (hash c) (c, n % word) infos) ((use_ + n % word) % word)
  ]
]

unfoldable pub set_of : List ℕ → Locs → Locs
set_of [] ls = ls
set_of (i ∷ is) ls = set_of is (insert i tt ls)

-- Where the chunks are already; `List` makes the lists that are not there.
unfoldable pub current : List ℕ → Reg → S → Reg × S
unfolding list owners set_of
current [] reg s = (reg, s)
current (h ∷ hs) reg s =
    let (reg', os) = list reg h in current hs reg' (insert h (set_of (owners os) []) s)

-- What `Procs` returns: the chunks that the first proc sends on, and the copies, each of a chunk
-- to a store, that the other procs make.
pub data Planned : Type 0 where
  plan : List Chunk → List (ℕ × ℕ) → Planned
  refused : Error → Planned
  panicked no_fuel : Planned

unfoldable pub to_stores : ℕ → List ℕ → Locs → Option (List (ℕ × ℕ))
to_stores h [] all = some []
to_stores h (l ∷ ls) all =
    let rest = to_stores h ls all in
    if has l all then elim rest [ none ↦ none | some cs ↦ some ((h, l) ∷ cs) ] else none

unfoldable pub copies_of : S → Infos → Locs → Option (List (ℕ × ℕ))
unfolding to_stores
copies_of [] infos all = some []
copies_of ((h, locs) ∷ s) infos all =
    let rest = copies_of s infos all in
    if has h infos
    then elim (to_stores h (keys locs) all) [
      | none ↦ none
      | some cs ↦ elim rest [ none ↦ none | some ds ↦ some (cs ++ ds) ]
    ]
    else none

abbrev pub chunks_in : Infos → List Chunk
chunks_in [] = []
chunks_in ((h, i) ∷ infos) = i.0 ∷ chunks_in infos

abbrev pub planned : List Chunk → Option (List (ℕ × ℕ)) → Planned
planned cs none = panicked
planned cs (some copies) = plan cs copies

-- What is made of the outcome of `Stripe`.
unfoldable pub chosen : Striper → Infos → Locs → Reg → Outcome (S × Rr) → Striper × Planned
unfolding copies_of
chosen sp infos all reg out_of_fuel = (sp, no_fuel)
chosen sp infos all reg failed = (record sp { reg = reg }, refused stripe_short)
chosen sp infos all reg (done (new, seq)) =
    (record sp { reg = reg; seq = seq }, planned (chunks_in infos) (copies_of new infos all))

unfoldable pub procs : ℕ → Striper → Chunk → Striper × Planned
unfolding group_chunks gather current set_of resources stripe chosen
procs fuel sp c = elim (gather (group_chunks c) [] 0) [
  | inr e ↦ (sp, refused e)
  | inl (infos, n) ↦
      let (reg, s) = current (keys infos) sp.reg [] in
      let all = set_of (resources sp.qman n) [] in
      chosen sp infos all reg (stripe fuel sp.cfg s all sp.seq)
]

-- What `OnEnd` does when a copy to a store ends.
unfoldable pub copied : Striper → ℕ → ℕ → ℕ → Option Error → Striper
unfolding delete list_add add_use
copied sp h l use_ none = record sp { reg = list_add sp.reg h l; qman = (add_use sp.qman l use_).0 }
copied sp h l use_ (some e) = record sp { qman = delete sp.qman l }

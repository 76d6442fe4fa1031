-- ===== src/Stores/Quota.antt =====
-- stores/quota/quota.go: how much each resource holds, and which ones have room.
--
-- A resource is its identity, a number. Uses and quotas are uint64, with its wrap-around.
pub mod Accounts
use scat.Prelude.{
  ℕ, ◌+◌, ◌-◌, ◌%◌, ◌^◌, Bool, not, Option, none, some, List, [], ◌∷◌, ltb, leb, if◌then◌else◌,
}
use scat.Prelude.Dict.{Dict, lookup, insert, remove}

abbrev pub word : ℕ
word = 2 ^ 64

abbrev pub unlimited : ℕ
unlimited = 2 ^ 64 - 1

pub record Usage : Type 0 where
  pub use_ : ℕ
  pub max : ℕ

abbrev pub Man : Type 0
Man = Dict Usage

abbrev pub new_man : Man
new_man = []

abbrev pub with_max : Option Usage → ℕ → Usage
with_max none max = record { use_ = 0; max = max }
with_max (some u) max = record u { max = max }

unfoldable pub add_res_quota : Man → ℕ → ℕ → Man
add_res_quota m id max = insert id (with_max (lookup id m) max) m

unfoldable pub add_res : Man → ℕ → Man
unfolding add_res_quota
add_res m id = add_res_quota m id unlimited

abbrev pub used_up : Usage → Bool
used_up u = leb u.max u.use_

abbrev pub with_use : Usage → ℕ → Usage
with_use u n = record u { use_ = (u.use_ + n) % word }

-- The new table, and the use and quota that `OnUse` is told, if the resource is there.
unfoldable pub add_use : Man → ℕ → ℕ → Man × Option (ℕ × ℕ)
add_use m id n = elim (lookup id m) [
  | none ↦ (m, none)
  | some u ↦
      let u' = with_use u n in
      (if used_up u' then remove id m else insert id u' m, some (u'.use_, u'.max))
]

unfoldable pub delete : Man → ℕ → Man
delete m id = remove id m

abbrev pub has_room : ℕ → Usage → Bool
has_room n u = not (ltb u.max ((u.use_ + n) % word))

unfoldable pub resources : Man → ℕ → List ℕ
resources [] n = []
resources ((id, u) ∷ m) n = let rest = resources m n in if has_room n u then id ∷ rest else rest

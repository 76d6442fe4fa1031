-- ===== src/Stores/Copies.antt =====
-- stores/copies/copies.go: which stores own a copy of which chunk.
--
-- `List` hands out a pointer to the hash's own list: the operations of a list are given as
-- changes of the registry at that hash.
pub mod History
use scat.Prelude.{ℕ, Bool, none, some, List, [], ◌∷◌, length}
use scat.Prelude.Dict.{Dict, lookup, insert, remove, has, keys, Locs}

-- `List`: owners by identity.
abbrev pub Owners : Type 0
Owners = Locs

abbrev pub Reg : Type 0
Reg = Dict Owners

abbrev pub new_reg : Reg
new_reg = []

-- `Reg.List`: the hash's list is made if it is not there.
unfoldable pub list : Reg → ℕ → Reg × Owners
list r h = elim (lookup h r) [ none ↦ (insert h [] r, []) | some os ↦ (r, os) ]

unfoldable pub add : Owners → ℕ → Owners
add os o = insert o tt os

unfoldable pub remove_from : Owners → ℕ → Owners
remove_from os o = remove o os

unfoldable pub contains : Owners → ℕ → Bool
contains os o = has o os

unfoldable pub owners : Owners → List ℕ
owners os = keys os

unfoldable pub len : Owners → ℕ
len os = length os

-- `r.List(h).Add(o)` and `r.List(h).Remove(o)`.
unfoldable pub list_add : Reg → ℕ → ℕ → Reg
unfolding list add
list_add r h o = let (r', os) = list r h in insert h (add os o) r'

unfoldable pub list_remove : Reg → ℕ → ℕ → Reg
unfolding list remove_from
list_remove r h o = let (r', os) = list r h in insert h (remove_from os o) r'

unfoldable pub remove_owner : Reg → ℕ → Reg
unfolding remove_from
remove_owner [] o = []
remove_owner ((h, os) ∷ r) o = (h, remove_from os o) ∷ remove_owner r o

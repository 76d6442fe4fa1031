-- ===== src/Stores/Copies/History.antt =====
-- The registry of copies against the history of one owner and one chunk.
use scat.Prelude.{
  ℕ, ◌≡◌, refl, ap, ◌∙◌, inl, inr, Bool, true, false, ◌&&◌, none, some, List, [], ◌∷◌, arith, ◌==◌,
  if◌then◌else◌, Option-cases,
}
use scat.Prelude.Dict.{lookup, insert, remove, has, lookup-insert, has-insert, has-remove}
use scat.Stores.Copies.{
  Owners, Reg, list, add, remove_from, contains, list_add, list_remove, remove_owner,
}

pub data Event : Type 0 where
  listed : ℕ → Event
  added removed : ℕ → ℕ → Event
  owner_removed : ℕ → Event

unfoldable pub step : Reg → Event → Reg
step r (listed h) = (list r h).0
step r (added h o) = list_add r h o
step r (removed h o) = list_remove r h o
step r (owner_removed o) = remove_owner r o

unfoldable pub run : Reg → List Event → Reg
run r [] = r
run r (e ∷ es) = run (step r e) es

-- What `r.List(h).Contains(o)` answers.
abbrev pub owned : Reg → ℕ → ℕ → Bool
owned r h o = contains (list r h).1 o

abbrev pub holds_step : ℕ → ℕ → Bool → Event → Bool
holds_step h o b (listed h') = b
holds_step h o b (added h' o') = if h' == h && o' == o then true else b
holds_step h o b (removed h' o') = if h' == h && o' == o then false else b
holds_step h o b (owner_removed o') = if o' == o then false else b

-- The owner holds a copy: it was added last, and not removed since, from this list or from all.
abbrev pub holds : ℕ → ℕ → Bool → List Event → Bool
holds h o b [] = b
holds h o b (e ∷ es) = holds h o (holds_step h o b e) es

owned-lookup :
    (r : Reg) (h o : ℕ) → owned r h o ≡ elim (lookup h r) [ none ↦ false | some os ↦ has o os ]
unfolding contains list has
owned-lookup r h o = ground arith

lookup-remove_owner :
    (r : Reg) (h o : ℕ)
    → lookup h (remove_owner r o) ≡ elim (lookup h r) [ none ↦ none | some os ↦ some (remove o os) ]
unfolding remove_owner lookup
lookup-remove_owner [] h o = refl
lookup-remove_owner ((j, os) ∷ r) h o = ground (arith, lookup-remove_owner r h o)

owned-update :
    (r : Reg) (h' : ℕ) (os : Owners) (h o : ℕ)
    → owned (insert h' os r) h o ≡ (if h' == h then has o os else owned r h o)
owned-update r h' os h o =
    ground (arith, owned-lookup (insert h' os r) h o, owned-lookup r h o, lookup-insert h' h os r)

-- `List` changes no list that it does not make.
pub owned-list : (r : Reg) (h' h o : ℕ) → owned (list r h').0 h o ≡ owned r h o
unfolding has
owned-list r h' h o = elim (Option-cases (lookup h' r)) [
  | inl e ↦
      let made : (list r h').0 ≡ insert h' [] r = unfold list in rw (e, list) in
      rw made (ground (arith, owned-update r h' [] h o, owned-lookup r h o))
  | inr (os, e) ↦ let same : (list r h').0 ≡ r = unfold list in rw (e, list) in rw same
]

owned-step : (r : Reg) (e : Event) (h o : ℕ) → owned (step r e) h o ≡ holds_step h o (owned r h o) e
unfolding step list_add list_remove add remove_from contains
owned-step r (listed h') h o = owned-list r h' h o
owned-step r (added h' o') h o = ground (
  arith,
  owned-update (list r h').0 h' (insert o' tt (list r h').1) h o,
  has-insert o' o tt (list r h').1,
  owned-list r h' h o,
)
owned-step r (removed h' o') h o = ground (
  arith,
  owned-update (list r h').0 h' (remove o' (list r h').1) h o,
  has-remove o' o (list r h').1,
  owned-list r h' h o,
)
owned-step r (owner_removed o') h o = elim (Option-cases (lookup h r)) [
  | inl e ↦
      ground (
        arith,
        owned-lookup (remove_owner r o') h o,
        owned-lookup r h o,
        lookup-remove_owner r h o',
      )
  | inr (os, e) ↦ ground (
    arith,
    owned-lookup (remove_owner r o') h o,
    owned-lookup r h o,
    lookup-remove_owner r h o',
    has-remove o' o os,
  )
]

-- After any history, an owner is listed for a chunk exactly if its own events say so.
pub owned-run :
    (es : List Event) (r : Reg) (h o : ℕ) → owned (run r es) h o ≡ holds h o (owned r h o) es
unfolding run
owned-run [] r h o = refl
owned-run (e ∷ es) r h o =
    owned-run es (step r e) h o ∙ ap (λ b. holds h o b es) (owned-step r e h o)

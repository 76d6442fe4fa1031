-- ===== src/Stores/Listing.antt =====
-- stores/stores.go: what the listings of the stores are entered into.
--
-- The listers' goroutines are taken one after the other; a lister is its listing or the error of
-- `Ls`, under its store's identity. Sizes are int64, read as uint64.
use scat.Prelude.{
  ℕ, ◌%◌, ◌≡◌, refl, ◌≢◌, ◌↔◌, ◌⊎◌, inl, inr, Bool, true, false, ◌&&◌, ◌||◌, Option, none, some,
  List, [], ◌∷◌, arith, ◌==◌, if◌then◌else◌, get_elem?, All,
}
use scat.Errors.{Error}
use scat.Stores.Copies.{Reg, list_add, list, contains}
use scat.Stores.Copies.History.{added, owned-run, run, step}
use scat.Stores.Quota.{Man, add_use, word}
use scat.Stores.Mem.{LsEntry}

abbrev pub Lister : Type 0
Lister = ℕ × (List LsEntry ⊎ Error)

-- `CopiesEntryAdder.AddLsEntry` and `QuotaEntryAdder.AddLsEntry`.
unfoldable pub add_copy : Reg → ℕ → LsEntry → Reg
unfolding list_add
add_copy r id e = list_add r e.hash_ id

unfoldable pub add_quota : Man → ℕ → LsEntry → Man
unfolding add_use
add_quota m id e = (add_use m id (e.size_ % word)).0

module _ {S : Type 0} (add : S → ℕ → LsEntry → S) where
  unfoldable pub add_all : S → ℕ → List LsEntry → S
  add_all s id [] = s
  add_all s id (e ∷ es) = add_all (add s id e) id es

  -- `AddEntriesTo` for one adder, and the first error of `FirstErr`.
  unfoldable pub add_entries : S → List Lister → S × Option Error
  unfolding add_all
  add_entries s [] = (s, none)
  add_entries s (l ∷ ls) = elim l.1 [
    | inr e ↦ ((add_entries s ls).0, some e)
    | inl es ↦ add_entries (add_all s l.0 es) ls
  ]

-- `ShuffleCopiers`, with the permutation that `rand.Perm` draws.
unfoldable pub shuffle : List ℕ → List ℕ → List ℕ
shuffle [] cs = []
shuffle (i ∷ is) cs = elim (get_elem? cs i) [ none ↦ shuffle is cs | some c ↦ c ∷ shuffle is cs ]

-- An entry of the chunk's hash in the listing.
abbrev pub listed : ℕ → List LsEntry → Bool
listed h [] = false
listed h (e ∷ es) = if e.hash_ == h then true else listed h es

-- Some lister of this identity answers with an entry of the hash.
abbrev pub offered : ℕ → ℕ → List Lister → Bool
offered h o [] = false
offered h o (l ∷ ls) = elim l.1 [
  | inr _ ↦ offered h o ls
  | inl es ↦ (l.0 == o && listed h es) || offered h o ls
]

abbrev pub owns : Reg → ℕ → ℕ → Bool
owns r h o = contains (list r h).1 o

owns-add_copy :
    (r : Reg) (id h o : ℕ) (e : LsEntry)
    → owns (add_copy r id e) h o ≡ ((e.hash_ == h && id == o) || owns r h o)
unfolding add_copy run step
owns-add_copy r id h o e = ground (arith, owned-run (added e.hash_ id ∷ []) r h o)

owns-add_all :
    (r : Reg) (id h o : ℕ) (es : List LsEntry)
    → owns (add_all add_copy r id es) h o ≡ ((id == o && listed h es) || owns r h o)
unfolding add_all
owns-add_all r id h o [] = ground arith
owns-add_all r id h o (e ∷ es) =
    ground (arith, owns-add_all (add_copy r id e) id h o es, owns-add_copy r id h o e)

-- After the listings are entered, a store owns a copy of a chunk exactly if it did before or its
-- listing has the chunk; listings that fail enter nothing and keep none of the others out, and
-- the error is none exactly if no listing fails.
pub add_entries-owns :
    (r : Reg) (ls : List Lister)
    → ((h o : ℕ) → owns (add_entries add_copy r ls).0 h o ≡ (offered h o ls || owns r h o))
      × (((add_entries add_copy r ls).1 ≡ none) ↔ All (λ l. (e : Error) → l.1 ≢ inr e) ls)
unfolding add_entries
add_entries-owns r [] = (λ h o. refl, (λ _. tt, λ _. refl))
add_entries-owns r ((id, inl es) ∷ ls) =
    let ih = add_entries-owns (add_all add_copy r id es) ls in
    (
      λ h o. ground (arith, ih.0 h o, owns-add_all r id h o es),
      (λ n. (λ e f. cc, ih.1.0 n), λ a. ih.1.1 a.1),
    )
add_entries-owns r ((id, inr e) ∷ ls) =
    let ih = add_entries-owns r ls in
    (λ h o. ground (arith, ih.0 h o), (λ n. cc, λ a. absurd (a.0 e refl)))

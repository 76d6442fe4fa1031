-- ===== src/Stores/MultiReader.antt =====
-- stores/multireader.go: reading a chunk from any of the stores that own it.
--
-- The copiers are a function of their identities, on a state of type W beside the registry. The
-- functions given to `OnEnd` share the loop's variable `cp`, as in the language before Go 1.22:
-- when they run it is the last copier.
use scat.Prelude.{
  ℕ, ◌≡◌, refl, sym, ap, ◌∙◌, subst, inl, inr, Option, none, some, List, [], ◌∷◌, map, ◌==◌,
  Bool-cases, Option-cases, length,
}
use scat.Prelude.Dict.{remove}
use scat.Chunk.{Chunk, hash}
use scat.Errors.{Error, missing_data, no_readers}
use scat.Procs.{Res, Proc, single_res, first_err}
use scat.Procs.Combine.{
  cascade_from-go, cascade_from-stop, cascade, cascade_from, cascade_from-go, cascade_from-stop,
  on_end, Outcome, cascade-failover,
}
use scat.Procs.Concur
use scat.Stores.Copies.{Owners, Reg, new_reg, list, owners, remove_owner, remove_from}
use scat.Stores.Listing.{shuffle, Lister, add_entries, add_copy}

-- `NewMultiReader`: the registry is filled from the copiers' listings.
unfoldable pub new_multi_reader : List Lister → Reg × Option Error
unfolding add_entries add_copy
new_multi_reader ls = add_entries add_copy new_reg ls

abbrev pub last : ℕ → List ℕ → ℕ
last o [] = o
last o (p ∷ ps) = last p ps

abbrev pub beside : {W : Type 0} → Proc W → Proc (W × Reg)
beside p c s = let r = p c s.0 in (r.0, (r.1, s.1))

abbrev pub drop_owner : {W : Type 0} → ℕ → Option Error → W × Reg → W × Reg
drop_owner z none s = s
drop_owner z (some e) s = (s.0, remove_owner s.1 z)

module _ {W : Type 0} (copier : ℕ → Proc W) where
  abbrev pub guarded : ℕ → ℕ → Proc (W × Reg)
  guarded z o = on_end (drop_owner z) (beside (copier o))

  -- `process` after the shuffle.
  unfoldable pub read_from : List ℕ → Proc (W × Reg)
  unfolding cascade on_end remove_owner
  read_from [] c s = (single_res c (some (missing_data no_readers)), s)
  read_from (o ∷ os) c s = cascade (map (guarded (last o os)) (o ∷ os)) c s

  -- `Process`, with the permutations that `rand.Perm` draws as an argument.
  unfoldable pub process : (ℕ → List ℕ) → Proc (W × Reg)
  unfolding read_from list owners shuffle
  process perm c s =
      let (reg, os) = list s.1 (hash c) in
      read_from (shuffle (perm (length (owners os))) (owners os)) c (s.0, reg)

-- `Finish`, given what the `Finish` of each copier returns.
unfoldable pub finish : (ℕ → Option Error) → List ℕ → Option Error
unfolding Concur.first_err
finish fin ids = Concur.first_err (map fin ids)

remove_from-remove_from :
    (os : Owners) (z : ℕ) → remove_from (remove_from os z) z ≡ remove_from os z
unfolding remove_from remove
remove_from-remove_from [] z = refl
remove_from-remove_from ((o, u) ∷ os) z = elim (Bool-cases (o == z)) [
  | inl own ↦ rw own (remove_from-remove_from os z)
  | inr other ↦ rw other (rw other (ap (◌∷◌ (o, u)) (remove_from-remove_from os z)))
]

remove_owner-remove_owner : (r : Reg) (z : ℕ) → remove_owner (remove_owner r z) z ≡ remove_owner r z
unfolding remove_owner
remove_owner-remove_owner [] z = refl
remove_owner-remove_owner ((h, os) ∷ r) z =
    rw (remove_from-remove_from os z, remove_owner-remove_owner r z) refl

-- The registry after the copiers were tried.
abbrev pub registry_after : {W : Type 0} → (ℕ → Proc W) → ℕ → List ℕ → Chunk → W → Reg → Reg
registry_after copier z [] c w r = r
registry_after copier z (o ∷ os) c w r = elim (first_err (copier o c w).0) [
  | none ↦ r
  | some _ ↦ remove_owner r z
]

kept :
    {W : Type 0} (copier : ℕ → Proc W) (z : ℕ) (os : List ℕ) (c : Chunk) (w : W) (r : Reg)
    → registry_after copier z os c w (remove_owner r z) ≡ remove_owner r z
kept copier z [] c w r = refl
kept copier z (o ∷ os) c w r = elim (Option-cases (first_err (copier o c w).0)) [
  | inl fine ↦ rw (fine, registry_after) refl
  | inr (e, err) ↦ rw (err, registry_after) (remove_owner-remove_owner r z)
]

cascade_from-guarded :
    {W : Type 0} (copier : ℕ → Proc W) (z : ℕ) (os : List ℕ) (c : Chunk) (buf : List Res) (w : W)
    (r : Reg)
    → cascade_from (map (guarded copier z) os) c buf (w, r) ≡ (
        let x = cascade_from (map copier os) c buf w in
        (x.0, (x.1, registry_after copier z os c w r)))
unfolding cascade_from on_end
cascade_from-guarded copier z [] c buf w r = refl
cascade_from-guarded copier z (o ∷ os) c buf w r =
    let p = copier o in
    let ps = map copier os in
    let q = guarded copier z o in
    let qs = map (guarded copier z) os in
    let x = cascade_from ps c (p c w).0 (p c w).1 in
    elim (Option-cases (first_err (p c w).0)) [
      | inl fine ↦
          cascade_from-stop q qs c buf (w, r) fine
          ∙ ap (λ e. ((p c w).0, drop_owner z e ((p c w).1, r))) fine
          ∙ sym (
              rw (cascade_from-stop p ps c buf w fine) (
                ap (λ e. ((p c w).0, ((p c w).1, elim e [ none ↦ r | some _ ↦ remove_owner r z ])))
                  fine))
      | inr (e, err) ↦
          cascade_from-go q qs c buf (w, r) err
          ∙ ap (λ e. cascade_from qs c (p c w).0 (drop_owner z e ((p c w).1, r))) err
          ∙ cascade_from-guarded copier z os c (p c w).0 (p c w).1 (remove_owner r z)
          ∙ ap (λ r. (x.0, (x.1, r))) (kept copier z os c (p c w).1 r)
          ∙ sym (
              rw (cascade_from-go p ps c buf w err)
                (ap (λ e. (x.0, (x.1, elim e [ none ↦ r | some _ ↦ remove_owner r z ]))) err))
    ]

-- Reading from these owners, if there is one, yields what the first copier without an error
-- yields, or all fail. Exactly if the first copier fails, the registry loses an owner: the last
-- one of these, whichever failed.
pub read_from-Outcome :
    {W : Type 0} (copier : ℕ → Proc W) (o : ℕ) (os : List ℕ) (c : Chunk) (w : W) (r : Reg)
    → let x = read_from copier (o ∷ os) c (w, r) in
      Outcome (map copier (o ∷ os)) c w (x.0, x.1.0)
      × (x.1.1
          ≡ elim (first_err (copier o c w).0) [ none ↦ r | some _ ↦ remove_owner r (last o os) ])
unfolding read_from cascade
read_from-Outcome copier o os c w r =
    let same = cascade_from-guarded copier (last o os) (o ∷ os) c [] w r in
    (
      subst (λ x. Outcome (map copier (o ∷ os)) c w (x.0, x.1.0)) (sym same)
          (cascade-failover (map copier (o ∷ os)) c w),
      ap (λ x. x.1.1) same,
    )

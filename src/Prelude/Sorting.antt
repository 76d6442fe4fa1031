-- ===== src/Prelude/Sorting.antt =====
-- `sort.Slice` with a comparison of numeric keys. Go leaves the order of equal keys open; this
-- one keeps it.
use mathlib.Core.List.{Perm}
use mathlib.Core.List.Perm
use scat.Prelude.{
  ℕ, suc, ◌≤◌, ◌≡◌, refl, ap, ◌∙◌, inl, inr, true, List, [], ◌∷◌, arith, leb, if◌then◌else◌,
  Bool-cases, length, All,
}

module _ {A : Type 0} (key : A → ℕ) where
  pub insert_by : A → List A → List A
  insert_by a [] = a ∷ []
  insert_by a (b ∷ bs) = if leb (key a) (key b) then a ∷ b ∷ bs else b ∷ insert_by a bs

  unfoldable pub sort_by : List A → List A
  unfolding insert_by
  sort_by [] = []
  sort_by (a ∷ bs) = insert_by a (sort_by bs)

  abbrev pub IsSorted : List A → Type 0
  IsSorted [] = Unit
  IsSorted (a ∷ []) = Unit
  IsSorted (a ∷ b ∷ bs) = (key a ≤ key b) × IsSorted (b ∷ bs)

  insert_by-perm : (a : A) (bs : List A) → Perm (insert_by a bs) (a ∷ bs)
  unfolding insert_by
  insert_by-perm a [] = Perm.refl (a ∷ [])
  insert_by-perm a (b ∷ bs) = elim (Bool-cases (leb (key a) (key b))) [
    | inl first ↦ rw first (Perm.refl (a ∷ b ∷ bs))
    | inr later ↦ rw later (Perm.trans (Perm.cons b (insert_by-perm a bs)) (Perm.swap a b bs))
  ]

  -- Nothing is lost or made up.
  pub sort_by-perm : (bs : List A) → Perm (sort_by bs) bs
  unfolding sort_by
  sort_by-perm [] = Perm.refl []
  sort_by-perm (a ∷ bs) = Perm.trans (insert_by-perm a (sort_by bs)) (Perm.cons a (sort_by-perm bs))

  insert_by-IsSorted : (a : A) (bs : List A) → IsSorted bs → IsSorted (insert_by a bs)
  unfolding insert_by
  insert_by-IsSorted a [] s = tt
  insert_by-IsSorted a (b ∷ []) s = ground arith
  insert_by-IsSorted a (b ∷ c ∷ bs) s = ground (arith, insert_by-IsSorted a (c ∷ bs) s.1)

  pub sort_by-IsSorted : (bs : List A) → IsSorted (sort_by bs)
  unfolding sort_by
  sort_by-IsSorted [] = tt
  sort_by-IsSorted (a ∷ bs) = insert_by-IsSorted a (sort_by bs) (sort_by-IsSorted bs)

  -- What is in order stays as it is.
  pub sort_by-same : (bs : List A) → IsSorted bs → sort_by bs ≡ bs
  unfolding sort_by insert_by
  sort_by-same [] s = refl
  sort_by-same (a ∷ []) s = refl
  sort_by-same (a ∷ b ∷ bs) s =
      let first : leb (key a) (key b) ≡ true = ground (arith, s.0) in
      ap (insert_by a) (sort_by-same (b ∷ bs) s.1) ∙ rw first refl

  length-insert_by : (a : A) (bs : List A) → length (insert_by a bs) ≡ suc (length bs)
  unfolding insert_by
  length-insert_by a [] = refl
  length-insert_by a (b ∷ bs) = ground (arith, length-insert_by a bs)

  pub length-sort_by : (bs : List A) → length (sort_by bs) ≡ length bs
  unfolding sort_by
  length-sort_by [] = refl
  length-sort_by (a ∷ bs) = length-insert_by a (sort_by bs) ∙ ap suc (length-sort_by bs)

  All-insert_by {κ} :
      (P : A → Type κ) (a : A) (bs : List A) → P a → All P bs → All P (insert_by a bs)
  unfolding insert_by
  All-insert_by P a [] p ps = (p, tt)
  All-insert_by P a (b ∷ bs) p ps = elim (Bool-cases (leb (key a) (key b))) [
    | inl first ↦ rw first (p, ps)
    | inr later ↦ rw later (ps.0, All-insert_by P a bs p ps.1)
  ]

  pub All-sort_by {κ} : (P : A → Type κ) (bs : List A) → All P bs → All P (sort_by bs)
  unfolding sort_by
  All-sort_by P [] ps = tt
  All-sort_by P (a ∷ bs) ps = All-insert_by P a (sort_by bs) ps.0 (All-sort_by P bs ps.1)

-- ===== src/Stores/Striping/Kept.antt =====
-- stores/stripe/stripe.go: stores that keep what they take, and what a copy to one of them leaves.
use scat.Prelude.{
  ℕ, ◌+◌, ◌%◌, ◌≡◌, refl, sym, ap, ◌∙◌, subst, ◌⊎◌, inl, inr, true, false, ◌&&◌, Option, none, some,
  List, [], ◌∷◌, map, arith, ◌==◌, ==_iff, Bool-cases, Option-cases, All,
}
use scat.Prelude.Dict.{lookup, insert, lookup-insert}
use scat.Chunk.{Chunk, Bytes, bytes_data, payload, hash, size}
use scat.Errors.{Error}
use scat.Procs.{Res, Proc, first_err}
use scat.Procs.Combine.{errors_only, ran}
use scat.Group.{get_group_err}
use scat.Stores.Copies.History.{owned}
use scat.Stores.Striping.{word, Striper, Infos, gather, copied}
use scat.Stores.Striping.Copying.{copy_proc}
use scat.Stores.Striping.Plan.{copied-entered}

-- What stores promise: what a proc has stored without an error can be read, and all else stays.
pub record Keeps {W : Type 0} (store : ℕ → Proc W) (read : W → ℕ → ℕ → Option Bytes) : Type 0 where
  pub stores :
      (l : ℕ) (c : Chunk) (w : W) (b : Bytes)
      → payload c ≡ bytes_data b
      → first_err (store l c w).0 ≡ none
      → read (store l c w).1 l (hash c) ≡ some b
  pub leaves :
      (l : ℕ) (c : Chunk) (w : W) (l' h : ℕ)
      → (l == l' && hash c == h) ≡ false
      → read (store l c w).1 l' h ≡ read w l' h
  pub fails :
      (l : ℕ) (c : Chunk) (w : W) (l' h : ℕ) (e : Error)
      → first_err (store l c w).0 ≡ some e
      → read (store l c w).1 l' h ≡ read w l' h

-- A chunk holds what its hash stands for.
abbrev pub Holds : (ℕ → Bytes) → Chunk → Type 0
Holds content c = payload c ≡ bytes_data (content (hash c))

first_err-errors_only : (rs : List Res) → first_err (errors_only rs) ≡ first_err rs
unfolding first_err errors_only
first_err-errors_only [] = refl
first_err-errors_only (r ∷ rs) = elim (Option-cases r.err) [
  | inl fine ↦ rw fine (first_err-errors_only rs)
  | inr (e, bad) ↦ rw bad (rw bad refl)
]

-- The chunks that are gathered are those of the group, under their hashes.
abbrev pub Sound : (ℕ → Bytes) → Infos → Type 0
Sound content infos =
    (h : ℕ) (c : Chunk) (n : ℕ) → lookup h infos ≡ some (c, n) → (hash c ≡ h) × Holds content c

pub Sound-nil : (content : ℕ → Bytes) → Sound content []
unfolding lookup
Sound-nil content h c n e = absurd (ground arith)

pub gather-Sound :
    (content : ℕ → Bytes) (cs : List Chunk) (infos infos' : Infos) (use_ n : ℕ)
    → All (Holds content) cs
    → Sound content infos
    → gather cs infos use_ ≡ inl (infos', n)
    → Sound content infos'
unfolding gather
gather-Sound content [] infos infos' use_ n holds sound e =
    subst (Sound content)
      (ap (λ (x : (Infos × ℕ) ⊎ Error). elim x [ inl y ↦ y.0 | inr _ ↦ infos ]) e) sound
gather-Sound content (c ∷ cs) infos infos' use_ n holds sound e =
    elim (Option-cases (get_group_err c)) [
      | inr (x, bad) ↦ absurd (ground arith)
      | inl fine ↦ elim (Option-cases (size (payload c))) [
        | inl unsized ↦ absurd (ground arith)
        | inr (m, sized) ↦
            gather-Sound content cs (insert (hash c) (c, m % word) infos) infos'
              ((use_ + m % word) % word) n holds.1 (λ h d j f. entered h d j m f) (ground arith)
      ]
    ]
  where
    entered :
        (h : ℕ) (d : Chunk) (j m : ℕ)
        → lookup h (insert (hash c) (c, m % word) infos) ≡ some (d, j)
        → (hash d ≡ h) × Holds content d
    entered h d j m f = elim (Bool-cases (hash c == h)) [
      | inl own ↦
          let same : c ≡ d = ground (arith, lookup-insert (hash c) h (c, m % word) infos) in
          subst (λ d. (hash d ≡ h) × Holds content d) same ((==_iff (hash c) h).0 own, holds.0)
      | inr other ↦ sound h d j (ground (arith, lookup-insert (hash c) h (c, m % word) infos))
    ]

module _ {W : Type 0} (store : ℕ → Proc W) (read : W → ℕ → ℕ → Option Bytes)
    (content : ℕ → Bytes) where
  -- What the registry says of a store is true of it.
  abbrev pub IsTrue : W × Striper → Type 0
  IsTrue w = (h l : ℕ) → owned w.1.reg h l ≡ true → read w.0 l h ≡ some (content h)

  module _ (infos : Infos) where
    pub copy_proc-unknown :
        (h l : ℕ) (c : Chunk) (w : W × Striper)
        → lookup h infos ≡ none
        → copy_proc store infos (h, l) c w ≡ ([], w)
    unfolding copy_proc
    copy_proc-unknown h l c w e = rw (e, copy_proc) refl

    pub copy_proc-known :
        (h l : ℕ) (own : Chunk) (n : ℕ) (c : Chunk) (w : W × Striper)
        → lookup h infos ≡ some (own, n)
        → (copy_proc store infos (h, l) c w).1
          ≡ ((store l own w.0).1, copied w.1 h l n (first_err (store l own w.0).0))
    unfolding copy_proc
    copy_proc-known h l own n c w e =
        rw (e, copy_proc)
          (ap (λ x. ((store l own w.0).1, copied w.1 h l n x))
            (first_err-errors_only (store l own w.0).0))

    module _ (k : Keeps store read) (sound : Sound content infos) where
      copied-IsTrue :
          (h l : ℕ) (own : Chunk) (n : ℕ) (w : W) (sp : Striper)
          → lookup h infos ≡ some (own, n)
          → IsTrue (w, sp)
          → IsTrue ((store l own w).1, copied sp h l n (first_err (store l own w).0))
      copied-IsTrue h l own n w sp e true_ h' l' o =
          elim (Option-cases (first_err (store l own w).0)) [
            | inr (x, bad) ↦
                let same : copied sp h l n (first_err (store l own w).0)
                    ≡ copied sp h l n (some x) =
                  ap (copied sp h l n) bad in
                let before : owned sp.reg h' l' ≡ true =
                  sym (ap (λ r. owned r h' l') ((copied-entered sp h l n).1 x).0)
                  ∙ sym (ap (λ y. owned y.reg h' l') same)
                  ∙ o in
                k.fails l own w l' h' x bad ∙ true_ h' l' before
            | inl fine ↦ elim (Bool-cases (h == h' && l == l')) [
              | inl own_copy ↦
                  let at_h : h ≡ h' = ground arith in
                  let at_l : l ≡ l' = ground arith in
                  let (hashed, holds) = sound h own n e in
                  let there : read (store l own w).1 l (hash own) ≡ some (content (hash own)) =
                    k.stores l own w (content (hash own)) holds fine in
                  subst (λ i. read (store l own w).1 i h' ≡ some (content h')) at_l
                    (subst (λ i. read (store l own w).1 l i ≡ some (content i)) (hashed ∙ at_h)
                      there)
              | inr other ↦
                  let same : copied sp h l n (first_err (store l own w).0) ≡ copied sp h l n none =
                    ap (copied sp h l n) fine in
                  let now : owned (copied sp h l n none).reg h' l' ≡ true =
                    sym (ap (λ y. owned y.reg h' l') same) ∙ o in
                  let before : owned sp.reg h' l' ≡ true =
                    ground (arith, (copied-entered sp h l n).0 h' l') in
                  let elsewhere : (l == l' && hash own == h') ≡ false =
                    rw ((sound h own n e).0) (ground arith) in
                  k.leaves l own w l' h' elsewhere ∙ true_ h' l' before
            ]
          ]

      -- The copies, one after the other.
      pub in_turn-IsTrue :
          (order : List (ℕ × ℕ)) (c : Chunk) (w : W × Striper)
          → IsTrue w
          → IsTrue (ran (map (copy_proc store infos) order) c w)
      in_turn-IsTrue [] c w t = t
      in_turn-IsTrue ((h, l) ∷ order) c w t =
          in_turn-IsTrue order c (copy_proc store infos (h, l) c w).1
            (elim (Option-cases (lookup h infos)) [
              | inl unknown ↦
                  subst IsTrue (sym (ap (λ x. x.1) (copy_proc-unknown h l c w unknown))) t
              | inr ((own, n), there) ↦
                  subst IsTrue (sym (copy_proc-known h l own n c w there))
                    (copied-IsTrue h l own n w.0 w.1 there t)
            ])

-- ===== src/Stores/Striping/Partial.antt =====
-- stores/stripe/stripe.go with stores that may leave a part of a chunk behind when they fail, as
-- stores/cp.go does.
use scat.Prelude.{
  ℕ, ◌≡◌, sym, ap, ◌∙◌, subst, inl, inr, true, false, ◌&&◌, Option, none, some, List, [], ◌∷◌, map,
  arith, ◌==◌, ==_refl, Bool-cases, Option-cases, All,
}
use scat.Prelude.Dict.{lookup}
use scat.Chunk.{Chunk, Bytes, bytes_data, payload, hash}
use scat.Errors.{Error}
use scat.Procs.{Proc, first_err}
use scat.Procs.Combine.{ran}
use scat.Stores.Copies.{Reg}
use scat.Stores.Copies.History.{owned}
use scat.Stores.Striping.{Striper, Infos, group_chunks, gather, plan, procs, copied}
use scat.Stores.Striping.Copying.{copy_proc, copy_procs, slice_proc}
use scat.Stores.Striping.Plan.{copied-entered}
use scat.Stores.Striping.Placed.{goes, procs-Placed}
use scat.Stores.Striping.Ended.{procs-owned, plan-copies}
use scat.Stores.Striping.Kept.{
  Holds, Sound, Sound-nil, gather-Sound, IsTrue, copy_proc-unknown, copy_proc-known,
}

-- What these stores promise: what was stored without an error can be read, and whether it fails
-- or not, a call touches nothing but its chunk at its store.
pub record KeepsOthers {W : Type 0} (store : ℕ → Proc W) (read : W → ℕ → ℕ → Option Bytes)
    : Type 0 where
  pub stores :
      (l : ℕ) (c : Chunk) (w : W) (b : Bytes)
      → payload c ≡ bytes_data b
      → first_err (store l c w).0 ≡ none
      → read (store l c w).1 l (hash c) ≡ some b
  pub leaves :
      (l : ℕ) (c : Chunk) (w : W) (l' h : ℕ)
      → (l == l' && hash c == h) ≡ false
      → read (store l c w).1 l' h ≡ read w l' h

-- No copy stands twice in the list.
abbrev pub NoneTwice : List (ℕ × ℕ) → Type 0
NoneTwice [] = Unit
NoneTwice ((h, l) ∷ order) = (goes h l order ≡ false) × NoneTwice order

-- None of the copies is to a store that owns one.
abbrev NonOwners : Reg → List (ℕ × ℕ) → Type 0
NonOwners reg order = (h l : ℕ) → goes h l order ≡ true → owned reg h l ≡ false

-- Nothing else is entered, whatever the copy ended with.
copied_elsewhere :
    (sp : Striper) (h l n : ℕ) (err : Option Error) (h' l' : ℕ)
    → (h == h' && l == l') ≡ false
    → owned (copied sp h l n err).reg h' l' ≡ owned sp.reg h' l'
copied_elsewhere sp h l n none h' l' other = ground (arith, (copied-entered sp h l n).0 h' l')
copied_elsewhere sp h l n (some x) h' l' other =
    ap (λ r. owned r h' l') ((copied-entered sp h l n).1 x).0

copied-NonOwners :
    (sp : Striper) (h l n : ℕ) (err : Option Error) (order : List (ℕ × ℕ))
    → goes h l order ≡ false
    → NonOwners sp.reg order
    → NonOwners (copied sp h l n err).reg order
copied-NonOwners sp h l n err order once new h' l' e = elim (Bool-cases (h == h' && l == l')) [
  | inr other ↦ copied_elsewhere sp h l n err h' l' other ∙ new h' l' e
  | inl own ↦
      let at_h : h ≡ h' = ground arith in
      let at_l : l ≡ l' = ground arith in
      let clash : goes h' l' order ≡ false =
        subst (λ i. goes h' i order ≡ false) at_l (subst (λ i. goes i l order ≡ false) at_h once) in
      absurd (ground arith)
]

module _ {W : Type 0} (store : ℕ → Proc W) (read : W → ℕ → ℕ → Option Bytes) (content : ℕ → Bytes)
    (infos : Infos) (k : KeepsOthers store read) (sound : Sound content infos) where
  copied-IsTrue :
      (h l : ℕ) (own : Chunk) (n : ℕ) (w : W) (sp : Striper)
      → lookup h infos ≡ some (own, n)
      → owned sp.reg h l ≡ false
      → IsTrue store read content (w, sp)
      → IsTrue store read content ((store l own w).1, copied sp h l n (first_err (store l own w).0))
  copied-IsTrue h l own n w sp e new t h' l' o =
      let err = first_err (store l own w).0 in
      let (hashed, holds) = sound h own n e in
      elim (Bool-cases (h == h' && l == l')) [
        | inl own_copy ↦
            let at_h : h ≡ h' = ground arith in
            let at_l : l ≡ l' = ground arith in
            elim (Option-cases err) [
              | inr (x, bad) ↦
                  let before : owned sp.reg h' l' ≡ true =
                    sym (ap (λ r. owned r h' l') ((copied-entered sp h l n).1 x).0)
                    ∙ sym (ap (λ y. owned (copied sp h l n y).reg h' l') bad)
                    ∙ o in
                  let not_yet : owned sp.reg h' l' ≡ false =
                    subst (λ i. owned sp.reg h' i ≡ false) at_l
                      (subst (λ i. owned sp.reg i l ≡ false) at_h new) in
                  absurd (ground arith)
              | inl fine ↦
                  let there : read (store l own w).1 l (hash own) ≡ some (content (hash own)) =
                    k.stores l own w (content (hash own)) holds fine in
                  subst (λ i. read (store l own w).1 i h' ≡ some (content h')) at_l
                    (subst (λ i. read (store l own w).1 l i ≡ some (content i)) (hashed ∙ at_h)
                      there)
            ]
        | inr other ↦
            let elsewhere : (l == l' && hash own == h') ≡ false = rw hashed (ground arith) in
            k.leaves l own w l' h' elsewhere
            ∙ t h' l' (sym (copied_elsewhere sp h l n err h' l' other) ∙ o)
      ]

  in_turn-IsTrue :
      (order : List (ℕ × ℕ)) (c : Chunk) (w : W × Striper)
      → NoneTwice order
      → NonOwners w.1.reg order
      → IsTrue store read content w
      → IsTrue store read content (ran (map (copy_proc store infos) order) c w)
  in_turn-IsTrue [] c w once new t = t
  in_turn-IsTrue ((h, l) ∷ order) c w once new t =
      let later : NonOwners w.1.reg order = λ h' l' e. new h' l' (ground arith) in
      elim (Option-cases (lookup h infos)) [
        | inl unknown ↦
            let same : (copy_proc store infos (h, l) c w).1 ≡ w =
              ap (λ x. x.1) (copy_proc-unknown store read content infos h l c w unknown) in
            subst (λ v. IsTrue store read content (ran (map (copy_proc store infos) order) c v))
              (sym same) (in_turn-IsTrue order c w once.1 later t)
        | inr ((own, n), there) ↦
            let err = first_err (store l own w.0).0 in
            let own_new : owned w.1.reg h l ≡ false =
              new h l (ground (arith, ==_refl h, ==_refl l)) in
            subst (λ v. IsTrue store read content (ran (map (copy_proc store infos) order) c v))
              (sym (copy_proc-known store read content infos h l own n c w there))
              (in_turn-IsTrue order c ((store l own w.0).1, copied w.1 h l n err) once.1
                (copied-NonOwners w.1 h l n err order once.0 later)
                (copied-IsTrue h l own n w.0 w.1 there own_new t))
      ]

-- Of the copies that are planned for a group any are made, none twice, in whatever order and with
-- whatever errors, by stores that keep what they stored without an error and may leave anything
-- in place of a chunk that they failed to store. Where the registry was true of the stores, it
-- stays so: a store that owns a chunk gives back the bytes that its hash stands for. The group's
-- chunks hold what their hashes stand for.
pub planned_copies-IsTrue :
    {W : Type 0} (store : ℕ → Proc W) (read : W → ℕ → ℕ → Option Bytes) (content : ℕ → Bytes)
    (fuel : ℕ) (sp : Striper) (c : Chunk) (infos : Infos) (n : ℕ) (cs : List Chunk)
    (copies order : List (ℕ × ℕ)) (w : W)
    → KeepsOthers store read
    → gather (group_chunks c) [] 0 ≡ inl (infos, n)
    → All (Holds content) (group_chunks c)
    → IsTrue store read content (w, sp)
    → (procs fuel sp c).1 ≡ plan cs copies
    → ((h l : ℕ) → goes h l order ≡ true → goes h l copies ≡ true)
    → NoneTwice order
    → IsTrue store read content (ran (copy_procs store cs infos order) c (w, (procs fuel sp c).0))
unfolding copy_procs slice_proc
planned_copies-IsTrue store read content fuel sp c infos n cs copies order w k good holds t
      planned_as part once =
    let sound = gather-Sound content (group_chunks c) [] infos 0 n holds (Sound-nil content) good in
    let now = (procs fuel sp c).0 in
    let same = procs-owned fuel sp c in
    let new : NonOwners now.reg order = λ h l e. elim (procs-Placed fuel sp c infos n good) [
      | inl short ↦ absurd (ground arith)
      | inr (inl out) ↦ absurd (ground arith)
      | inr (inr (copies', made, p)) ↦
          let planned_same : copies' ≡ copies = plan-copies (sym made ∙ planned_as) in
          same h l ∙ (p.allowed h l (ap (goes h l) planned_same ∙ part h l e)).2
    ] in
    in_turn-IsTrue store read content infos k sound order c (w, now) once new
      (λ h l o. t h l (sym (same h l) ∙ o))

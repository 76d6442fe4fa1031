-- ===== src/Stores/Striping/Stored.antt =====
-- stores/stripe/stripe.go: what can be read from the stores when a group's copies have been made.
use scat.Prelude.{
  ℕ, ◌≤◌, ◌≡◌, refl, sym, ap, ◌∙◌, subst, inl, inr, true, Option, none, some, List, [], ◌∷◌, map,
  arith, ◌==◌, ==_iff, Bool-cases, Option-cases, length, All,
}
use scat.Prelude.Dict.{lookup, has, IsUnique, has-lookup, Locs}
use scat.Chunk.{Chunk, Bytes}
use scat.Procs.{Proc, first_err}
use scat.Procs.Combine.{ran}
use scat.Stores.Copies.History.{owned}
use scat.Stores.Striping.{Striper, Infos, group_chunks, gather, plan, procs, copied}
use scat.Stores.Striping.Copying.{copy_proc, copy_procs, slice_proc}
use scat.Stores.Striping.Placed.{goes, procs-Placed}
use scat.Stores.Striping.Ended.{Ends, ended, succeeds, procs-owned, plan-copies, procs-ended}
use scat.Stores.Striping.Kept.{
  Keeps, Holds, Sound, gather-Sound, Sound-nil, IsTrue, copy_proc-unknown, copy_proc-known,
  in_turn-IsTrue,
}

module _ {W : Type 0} (store : ℕ → Proc W) (read : W → ℕ → ℕ → Option Bytes)
    (content : ℕ → Bytes) where
  module _ (infos : Infos) where
    -- How the copies end, if they are made in this order.
    copies_end : List (ℕ × ℕ) → W → Ends
    copies_end [] w = []
    copies_end ((h, l) ∷ order) w = elim (lookup h infos) [
      | none ↦ copies_end order w
      | some (own, n) ↦ (h, l, n, first_err (store l own w).0) ∷ copies_end order (store l own w).1
    ]

    ran-ended :
        (order : List (ℕ × ℕ)) (c : Chunk) (w : W × Striper)
        → (ran (map (copy_proc store infos) order) c w).1 ≡ ended w.1 (copies_end order w.0)
    unfolding copies_end ended
    ran-ended [] c w = refl
    ran-ended ((h, l) ∷ order) c w = elim (Option-cases (lookup h infos)) [
      | inl unknown ↦
          let same = ap (λ x. x.1) (copy_proc-unknown store read content infos h l c w unknown) in
          let rest : copies_end ((h, l) ∷ order) w.0 ≡ copies_end order w.0 =
            rw (unknown, copies_end) refl in
          ap (λ x. (ran (map (copy_proc store infos) order) c x).1) same
          ∙ ran-ended order c w
          ∙ sym (ap (ended w.1) rest)
      | inr ((own, n), there) ↦
          let done =
            ran-ended order c
              ((store l own w.0).1, copied w.1 h l n (first_err (store l own w.0).0)) in
          let rest : copies_end ((h, l) ∷ order) w.0
              ≡ (h, l, n, first_err (store l own w.0).0) ∷ copies_end order (store l own w.0).1 =
            rw (there, copies_end) refl in
          ap (λ x. (ran (map (copy_proc store infos) order) c x).1)
            (copy_proc-known store read content infos h l own n c w there)
          ∙ done
          ∙ sym (ap (ended w.1) rest)
    ]

    module _ (sound : Sound content infos)
        (accept : (l : ℕ) (c : Chunk) (w : W)
          → Holds content c
          → first_err (store l c w).0 ≡ none) where
      copies_end-succeeds :
          (order : List (ℕ × ℕ)) (w : W) (h l : ℕ)
          → has h infos ≡ true
          → goes h l order ≡ true
          → succeeds h l (copies_end order w) ≡ true
      unfolding copies_end
      copies_end-succeeds [] w h l known e = absurd (ground arith)
      copies_end-succeeds ((h', l') ∷ order) w h l known e = elim (Option-cases (lookup h' infos)) [
        | inl unknown ↦
            rw (unknown, copies_end)
              (copies_end-succeeds order w h l known (elim (Bool-cases (h' == h)) [
                | inl own ↦
                    let clash : lookup h infos ≡ none =
                      subst (λ i. lookup i infos ≡ none) ((==_iff h' h).0 own) unknown in
                    absurd (ground (arith, has-lookup h infos))
                | inr other ↦ ground arith
              ]))
        | inr ((own, n), there) ↦
            let fine = accept l' own w ((sound h' own n there).1) in
            rw (there, copies_end)
              (rw fine (ground (arith, copies_end-succeeds order (store l' own w).1 h l known)))
      ]

-- Whatever copies of a group are made, in whatever order: what the registry says of stores that
-- keep what they take, and that change nothing when they fail, stays true.
pub copies-IsTrue :
    {W : Type 0} (store : ℕ → Proc W) (read : W → ℕ → ℕ → Option Bytes) (content : ℕ → Bytes)
    (fuel : ℕ) (sp : Striper) (c : Chunk) (infos : Infos) (n : ℕ) (cs : List Chunk)
    (order : List (ℕ × ℕ)) (w : W)
    → Keeps store read
    → gather (group_chunks c) [] 0 ≡ inl (infos, n)
    → All (Holds content) (group_chunks c)
    → IsTrue store read content (w, sp)
    → IsTrue store read content (ran (copy_procs store cs infos order) c (w, (procs fuel sp c).0))
unfolding copy_procs slice_proc
copies-IsTrue store read content fuel sp c infos n cs order w k good holds t =
    let sound = gather-Sound content (group_chunks c) [] infos 0 n holds (Sound-nil content) good in
    in_turn-IsTrue store read content infos k sound order c (w, (procs fuel sp c).0)
      (λ h l o. t h l (sym (procs-owned fuel sp c h l) ∙ o))

plan-known :
    (fuel : ℕ) (sp : Striper) (c : Chunk) (infos : Infos) (n : ℕ) (cs : List Chunk)
    (copies : List (ℕ × ℕ)) (h l : ℕ)
    → gather (group_chunks c) [] 0 ≡ inl (infos, n)
    → (procs fuel sp c).1 ≡ plan cs copies
    → goes h l copies ≡ true
    → has h infos ≡ true
plan-known fuel sp c infos n cs copies h l good planned_as e =
    elim (procs-Placed fuel sp c infos n good) [
      | inl short ↦ absurd (ground arith)
      | inr (inl out) ↦ absurd (ground arith)
      | inr (inr (copies', made, p)) ↦
          let same : copies' ≡ copies = plan-copies (sym made ∙ planned_as) in
          (p.allowed h l (ap (goes h l) same ∙ e)).0
    ]

-- When all copies that are planned for a group have been made, in any order, by stores that take
-- chunks with data, then at least `Min` distinct stores give back the bytes of each chunk of the group. What
-- the registry said of the stores before has to be true.
pub procs-stored :
    {W : Type 0} (store : ℕ → Proc W) (read : W → ℕ → ℕ → Option Bytes) (content : ℕ → Bytes)
    (fuel : ℕ) (sp : Striper) (c : Chunk) (infos : Infos) (n : ℕ) (cs : List Chunk)
    (copies order : List (ℕ × ℕ)) (w : W)
    → Keeps store read
    → ((l : ℕ) (d : Chunk) (v : W) → Holds content d → first_err (store l d v).0 ≡ none)
    → gather (group_chunks c) [] 0 ≡ inl (infos, n)
    → All (Holds content) (group_chunks c)
    → IsTrue store read content (w, sp)
    → (procs fuel sp c).1 ≡ plan cs copies
    → ((h l : ℕ) → goes h l copies ≡ true → goes h l order ≡ true)
    → (h : ℕ) → has h infos ≡ true
    → (held : Locs) × IsUnique held
      × (sp.cfg.min_copies ≤ length held)
      × ((l : ℕ)
          → has l held ≡ true
          → read (ran (copy_procs store cs infos order) c (w, (procs fuel sp c).0)).0 l h
            ≡ some (content h))
unfolding copy_procs slice_proc
procs-stored store read content fuel sp c infos n cs copies order w k accept good holds t planned_as
      all h listed =
    let sp' = (procs fuel sp c).0 in
    let es = copies_end store read content infos order w in
    let sound = gather-Sound content (group_chunks c) [] infos 0 n holds (Sound-nil content) good in
    let (held, distinct, many, at) =
      procs-ended fuel sp c infos n cs copies es good planned_as
        (λ i l e.
          copies_end-succeeds store read content infos sound accept order w i l
            (plan-known fuel sp c infos n cs copies i l good planned_as e) (all i l e))
        h listed in
    (
      held,
      distinct,
      many,
      λ l i. copies-IsTrue store read content fuel sp c infos n cs order w k good holds t h l (
          ap (λ y. owned y.reg h l) (ran-ended store read content infos order c (w, sp')) ∙ at l i),
    )

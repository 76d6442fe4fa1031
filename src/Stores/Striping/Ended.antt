-- ===== src/Stores/Striping/Ended.antt =====
-- stores/stripe/stripe.go: what the registry says when a group's copies have ended.
use scat.Prelude.{
  ℕ, ◌≤◌, ◌≡◌, refl, sym, ap, ◌∙◌, inl, inr, Bool, true, false, ◌&&◌, ◌||◌, Option, none, some,
  List, [], ◌∷◌, arith, ◌==◌, Sum-cases, length,
}
use scat.Prelude.Dict.{has, IsUnique, keys, Locs}
use scat.Chunk.{Chunk}
use scat.Errors.{Error}
use scat.Stores.Quota.{resources}
use scat.Stores.Copies.{Reg}
use scat.Stores.Copies.History.{owned}
use scat.Stripe.{S, Outcome, done, failed, out_of_fuel, stripe}
use scat.Stripe.RoundRobin.{Rr}
use scat.Stores.Striping.{
  Striper, Infos, group_chunks, gather, set_of, current, plan, refused, chosen, procs, copied,
}
use scat.Stores.Striping.Plan.{copied-entered}
use scat.Stores.Striping.Known.{current-Read, procs_good}
use scat.Stores.Striping.Placed.{goes, procs-Placed}

-- How the copies end: chunk, store, use and error, in the order in which they end.
abbrev pub Ends : Type 0
Ends = List (ℕ × ℕ × ℕ × Option Error)

unfoldable pub ended : Striper → Ends → Striper
unfolding copied
ended sp [] = sp
ended sp ((h, l, n, e) ∷ es) = ended (copied sp h l n e) es

-- Some copy of this chunk to this store ends without an error.
abbrev pub succeeds : ℕ → ℕ → Ends → Bool
succeeds h l [] = false
succeeds h l ((h', l', n, none) ∷ es) = (h' == h && l' == l) || succeeds h l es
succeeds h l ((h', l', n, some e) ∷ es) = succeeds h l es

owned-ended :
    (sp : Striper) (es : Ends) (h l : ℕ)
    → owned (ended sp es).reg h l ≡ (owned sp.reg h l || succeeds h l es)
unfolding ended
owned-ended sp [] h l = ground arith
owned-ended sp ((h', l', n, none) ∷ es) h l =
    ground (arith, owned-ended (copied sp h' l' n none) es h l, (copied-entered sp h' l' n).0 h l)
owned-ended sp ((h', l', n, some e) ∷ es) h l =
    owned-ended (copied sp h' l' n (some e)) es h l
    ∙ ap (λ r. owned r h l || succeeds h l es) ((copied-entered sp h' l' n).1 e).0

chosen-owned :
    (sp : Striper) (infos : Infos) (all : Locs) (reg : Reg) (o : Outcome (S × Rr)) (h l : ℕ)
    → owned reg h l ≡ owned sp.reg h l
    → owned (chosen sp infos all reg o).0.reg h l ≡ owned sp.reg h l
unfolding chosen
chosen-owned sp infos all reg out_of_fuel h l e = refl
chosen-owned sp infos all reg failed h l e = e
chosen-owned sp infos all reg (done (new, seq)) h l e = e

-- `Procs` itself changes no owner.
pub procs-owned :
    (fuel : ℕ) (sp : Striper) (c : Chunk) (h l : ℕ)
    → owned (procs fuel sp c).0.reg h l ≡ owned sp.reg h l
procs-owned fuel sp c h l = elim (Sum-cases (gather (group_chunks c) [] 0)) [
  | inr (e, bad) ↦
      let same : procs fuel sp c ≡ (sp, refused e) = unfold procs in rw (bad, procs) refl in
      rw same refl
  | inl ((infos, n), good) ↦
      let (reg, s) = current (keys infos) sp.reg [] in
      let all = set_of (resources sp.qman n) [] in
      rw (procs_good fuel sp c infos n good) (
        chosen-owned sp infos all reg (stripe fuel sp.cfg s all sp.seq) h l
          ((current-Read (keys infos) sp.reg []).same_owners h l))
]

pub plan-copies : {cs ds : List Chunk} {xs ys : List (ℕ × ℕ)} → plan cs xs ≡ plan ds ys → xs ≡ ys
plan-copies e = cc

-- When the copies that are planned for a group have ended without an error, in any order and with
-- copies of other groups that end well or not between them, then `Min` distinct stores at least
-- own each chunk of the group.
pub procs-ended :
    (fuel : ℕ) (sp : Striper) (c : Chunk) (infos : Infos) (n : ℕ) (cs : List Chunk)
    (copies : List (ℕ × ℕ)) (es : Ends)
    → gather (group_chunks c) [] 0 ≡ inl (infos, n)
    → (procs fuel sp c).1 ≡ plan cs copies
    → ((h l : ℕ) → goes h l copies ≡ true → succeeds h l es ≡ true)
    → (h : ℕ) → has h infos ≡ true
    → (held : Locs) × IsUnique held
      × (sp.cfg.min_copies ≤ length held)
      × ((l : ℕ) → has l held ≡ true → owned (ended (procs fuel sp c).0 es).reg h l ≡ true)
procs-ended fuel sp c infos n cs copies es good planned_as all h e =
    elim (procs-Placed fuel sp c infos n good) [
      | inl short ↦ absurd (ground arith)
      | inr (inl out) ↦ absurd (ground arith)
      | inr (inr (copies', made, p)) ↦
          let same : copies' ≡ copies = plan-copies (sym made ∙ planned_as) in
          let (held, distinct, many, at) = p.enough h e in
          (
            held,
            distinct,
            many,
            λ l i.
                let here = at l i in
                let gone : goes h l copies' ≡ goes h l copies = ap (goes h l) same in
                ground (
                  arith,
                  here.1,
                  gone,
                  all h l,
                  procs-owned fuel sp c h l,
                  owned-ended (procs fuel sp c).0 es h l,
                ),
          )
    ]

-- ===== src/Stores/Striping/Plan.antt =====
-- stores/stripe/stripe.go: where copies are sent, and what is entered when they end.
use scat.Prelude.{
  ℕ, ◌≡◌, refl, sym, ◌∙◌, subst, inl, inr, true, ◌&&◌, ◌||◌, none, some, List, [], ◌∷◌, ◌++◌, arith,
  ◌==◌, if◌then◌else◌, Option-cases, Sum-cases, All, All-append,
}
use scat.Prelude.Dict.{lookup, insert, has, elem, lookup-remove, has-insert, keys, Locs}
use scat.Chunk.{Chunk}
use scat.Errors.{Error}
use scat.Stores.Quota.{resources}
use scat.Stores.Copies.{Reg}
use scat.Stores.Copies.History.{owned, owned-run, added, run, step}
use scat.Stripe.{S, Outcome, done, failed, out_of_fuel, stripe}
use scat.Stores.Striping.{
  Rr, Striper, Infos, group_chunks, gather, set_of, current, plan, to_stores, copies_of, chosen,
  procs, copied,
}

-- The chunk is one of the group, and the store one of these.
abbrev pub IsAllowed : Infos → Locs → ℕ × ℕ → Type 0
IsAllowed infos all copy = (has copy.0 infos ≡ true) × (has copy.1 all ≡ true)

to_stores-IsAllowed :
    (infos : Infos) (all : Locs) (h : ℕ) (ls : List ℕ) (cs : List (ℕ × ℕ))
    → has h infos ≡ true
    → to_stores h ls all ≡ some cs
    → All (IsAllowed infos all) cs
unfolding to_stores
to_stores-IsAllowed infos all h [] [] known e = tt
to_stores-IsAllowed infos all h [] (d ∷ ds) known e = cc
to_stores-IsAllowed infos all h (l ∷ ls) cs known e = elim (Option-cases (to_stores h ls all)) [
  | inl stuck ↦ absurd (ground arith)
  | inr (ds, rest) ↦
      let listed : has l all ≡ true = ground arith in
      let same : (h, l) ∷ ds ≡ cs = ground arith in
      subst (All (IsAllowed infos all)) same
        ((known, listed), to_stores-IsAllowed infos all h ls ds known rest)
]

copies_of-IsAllowed :
    (infos : Infos) (all : Locs) (s : S) (cs : List (ℕ × ℕ))
    → copies_of s infos all ≡ some cs
    → All (IsAllowed infos all) cs
unfolding copies_of
copies_of-IsAllowed infos all [] [] e = tt
copies_of-IsAllowed infos all [] (d ∷ ds) e = cc
copies_of-IsAllowed infos all ((h, locs) ∷ s) cs e =
    elim (Option-cases (to_stores h (keys locs) all)) [
      | inl stuck ↦ absurd (ground arith)
      | inr (cs1, first) ↦ elim (Option-cases (copies_of s infos all)) [
        | inl stuck ↦ absurd (ground arith)
        | inr (cs2, rest) ↦
            let known : has h infos ≡ true = ground arith in
            let same : cs1 ++ cs2 ≡ cs = ground arith in
            subst (All (IsAllowed infos all)) same (
              All-append _ cs1 cs2 (to_stores-IsAllowed infos all h (keys locs) cs1 known first)
                (copies_of-IsAllowed infos all s cs2 rest))
      ]
    ]

has-set_of : (is : List ℕ) (ls : Locs) (l : ℕ) → has l (set_of is ls) ≡ (elem l is || has l ls)
unfolding set_of elem
has-set_of [] ls l = refl
has-set_of (i ∷ is) ls l = ground (arith, has-set_of is (insert i tt ls) l, has-insert i l tt ls)

chosen-IsAllowed :
    (sp : Striper) (infos : Infos) (all : Locs) (reg : Reg) (o : Outcome (S × Rr)) (cs : List Chunk)
    (copies : List (ℕ × ℕ))
    → (chosen sp infos all reg o).1 ≡ plan cs copies
    → All (IsAllowed infos all) copies
unfolding chosen
chosen-IsAllowed sp infos all reg out_of_fuel cs copies e = cc
chosen-IsAllowed sp infos all reg failed cs copies e = cc
chosen-IsAllowed sp infos all reg (done (new, seq)) cs copies e =
    elim (Option-cases (copies_of new infos all)) [
      | inl stuck ↦ absurd (ground arith)
      | inr (ds, made) ↦
          let same : ds ≡ copies = ground arith in
          subst (All (IsAllowed infos all)) same (copies_of-IsAllowed infos all new ds made)
    ]

offered_to :
    (infos : Infos) (is : List ℕ) (copies : List (ℕ × ℕ))
    → All (IsAllowed infos (set_of is [])) copies
    → All (λ copy. (has copy.0 infos ≡ true) × (elem copy.1 is ≡ true)) copies
offered_to infos is [] a = tt
offered_to infos is ((h, l) ∷ copies) a =
    let there : has l (set_of is []) ≡ true = a.0.1 in
    ((a.0.0, unfold has in ground (arith, has-set_of is [] l)), offered_to infos is copies a.1)

-- Every copy that is planned is of a chunk of the group, and to a store that had room for all the
-- chunks of the group together when the copies were chosen.
pub procs-allowed :
    (fuel : ℕ) (sp : Striper) (c : Chunk) (cs : List Chunk) (copies : List (ℕ × ℕ))
    → (procs fuel sp c).1 ≡ plan cs copies
    → (infos : Infos) × (n : ℕ) × (gather (group_chunks c) [] 0 ≡ inl (infos, n))
      × All (λ copy. (has copy.0 infos ≡ true) × (elem copy.1 (resources sp.qman n) ≡ true)) copies
unfolding procs
procs-allowed fuel sp c cs copies e = elim (Sum-cases (gather (group_chunks c) [] 0)) [
  | inr (err, bad) ↦ absurd (ground arith)
  | inl ((infos, n), good) ↦
      let (reg, s) = current (keys infos) sp.reg [] in
      let all = set_of (resources sp.qman n) [] in
      let o = stripe fuel sp.cfg s all sp.seq in
      let reached : (procs fuel sp c).1 ≡ (chosen sp infos all reg o).1 = rw (good, procs) refl in
      (
        infos,
        n,
        good,
        offered_to infos (resources sp.qman n) copies
            (chosen-IsAllowed sp infos all reg o cs copies (sym reached ∙ e)),
      )
]

-- A copy that ends without an error makes its store an owner of its chunk and of nothing else;
-- one that fails changes no owner, and its store alone is offered no more.
pub copied-entered :
    (sp : Striper) (h l n : ℕ)
    → ((h' o : ℕ)
        → owned (copied sp h l n none).reg h' o
          ≡ (if h == h' && l == o then true else owned sp.reg h' o))
      × ((e : Error)
          → ((copied sp h l n (some e)).reg ≡ sp.reg)
            × ((o : ℕ)
                → lookup o (copied sp h l n (some e)).qman
                  ≡ (if l == o then none else lookup o sp.qman)))
unfolding copied run step
copied-entered sp h l n =
    (λ h' o. owned-run (added h l ∷ []) sp.reg h' o, λ e. (refl, λ o. lookup-remove l o sp.qman))

-- ===== src/Procs/Chain/Schedules.antt =====
-- procs/chain.go: every schedule of a chain's goroutines ends, and ends with all results sent.
use mathlib.Core.List.{Perm}
use scat.Prelude.{
  ℕ, suc, ◌+◌, ◌≤◌, ◌<◌, ◌≡◌, refl, ap, subst, ◌⊎◌, inl, inr, List, [], ◌∷◌, ◌++◌, arith,
  Bool-cases, All,
}
use scat.Chunk.{Chunk}
use scat.Procs.{Res, sent}
use scat.Procs.Chain.{through}
use scat.Procs.Chain.Network.{
  Pure, Net, sink, node, push, passes, Step, pass, start, send, later, Steps, no_step, then_step,
  idle, IsDone, arrived,
}
use scat.Procs.Chain.Confluence.{
  handled, passes-handled, yields, yields-Steps, yields-done, yields-idle,
}

-- How many steps each of these results will be for.
abbrev total : (Res → ℕ) → List Res → ℕ
total f [] = 0
total f (r ∷ rs) = suc (f r) + total f rs

abbrev total_all : (Res → ℕ) → List (List Res) → ℕ
total_all f [] = 0
total_all f (rs ∷ ps) = total f rs + total_all f ps

abbrev stages : Net → List Pure
stages (sink rs) = []
stages (node s q ps n) = s ∷ stages n

-- The steps for a result that comes to these stages: its own, and those for what is made of it.
abbrev cost : List Pure → Res → ℕ
cost [] r = 0
cost (s ∷ ss) r = total (λ x. suc (cost ss x)) (handled s r)

-- The steps that are left at most.
abbrev pub left : Net → ℕ
left (sink rs) = 0
left (node s q ps n) =
    total (cost (s ∷ stages n)) q + total_all (λ x. suc (cost (stages n) x)) ps + left n

total-append : (f : Res → ℕ) (xs ys : List Res) → total f (xs ++ ys) ≡ total f xs + total f ys
total-append f [] ys = omega arith
total-append f (x ∷ xs) ys = omega (arith, total-append f xs ys)

total_all-append :
    (f : Res → ℕ) (ps qs : List (List Res))
    → total_all f (ps ++ qs) ≡ total_all f ps + total_all f qs
total_all-append f [] qs = omega arith
total_all-append f (rs ∷ ps) qs = omega (arith, total_all-append f ps qs)

stages-push : (n : Net) (r : Res) → stages (push r n) ≡ stages n
unfolding push
stages-push (sink rs) r = refl
stages-push (node s q ps n) r = refl

left-push : (n : Net) (r : Res) → left (push r n) ≤ left n + suc (cost (stages n) r)
unfolding push
left-push (sink rs) r = omega arith
left-push (node s q ps n) r = omega (arith, total-append (cost (s ∷ stages n)) q (r ∷ []))

stages-Step : {n n' : Net} → Step n n' → stages n' ≡ stages n
stages-Step (pass s r q ps n e) = ap (◌∷◌ s) (stages-push n r)
stages-Step (start s r q ps n e) = refl
stages-Step (send s q before after r rs ps ps' n e e') = ap (◌∷◌ s) (stages-push n r)
stages-Step (later s q ps n n' st) = ap (◌∷◌ s) (stages-Step st)

send-lt :
    (f : Res → ℕ) (before after : List (List Res)) (r : Res) (rs : List Res)
    (ps ps' : List (List Res))
    → ps ≡ before ++ (r ∷ rs) ∷ after
    → ps' ≡ before ++ rs ∷ after
    → total_all f ps' + suc (f r) ≡ total_all f ps
send-lt f before after r rs ps ps' e e' =
    rw (e, e')
      (omega (
        arith,
        total_all-append f before ((r ∷ rs) ∷ after),
        total_all-append f before (rs ∷ after),
      ))

left-Step : {n n' : Net} → Step n n' → left n' < left n
left-Step (pass s r q ps n e) =
    let own : cost (s ∷ stages n) r ≡ suc (suc (cost (stages n) r)) + 0 =
      ap (total (λ x. suc (cost (stages n) x))) (passes-handled s r e) in
    rw (stages-push n r) (omega (arith, own, left-push n r))
left-Step (start s r q ps n e) =
    omega (arith, total_all-append (λ x. suc (cost (stages n) x)) ps (handled s r ∷ []))
left-Step (send s q before after r rs ps ps' n e e') =
    let sent_on = send-lt (λ x. suc (cost (stages n) x)) before after r rs ps ps' e e' in
    rw (stages-push n r) (omega (arith, sent_on, left-push n r))
left-Step (later s q ps n n' st) = rw (stages-Step st) (omega (arith, left-Step st))

left-Steps : {k : ℕ} {n n' : Net} → Steps k n n' → k + left n' ≤ left n
left-Steps (no_step n) = omega arith
left-Steps (then_step k a b c ss st) = omega (arith, left-Steps ss, left-Step st)

-- A channel that is not empty is among them.
Waiting : List (List Res) → Type 0
Waiting ps =
    (before : List (List Res)) × (r : Res) × (rs : List Res) × (after : List (List Res)) × (ps
      ≡ before ++ (r ∷ rs) ∷ after)

waiting : (ps : List (List Res)) → Waiting ps ⊎ All (λ rs. rs ≡ []) ps
unfolding Waiting
waiting [] = inr tt
waiting ((r ∷ rs) ∷ ps) = inl ([], r, rs, ps, refl)
waiting ([] ∷ ps) = elim (waiting ps) [
  | inl (before, r, rs, after, e) ↦ inl ([] ∷ before, r, rs, after, ap (◌∷◌ []) e)
  | inr all ↦ inr (refl, all)
]

-- A net can go on until it is done.
goes_on : (n : Net) → ((n' : Net) × Step n n') ⊎ IsDone n
unfolding Waiting
goes_on (sink rs) = inr tt
goes_on (node s (r ∷ q) ps n) = elim (Bool-cases (passes s r)) [
  | inl on ↦ inl (node s q ps (push r n), pass s r q ps n on)
  | inr off ↦ inl (node s q (ps ++ handled s r ∷ []) n, start s r q ps n off)
]
goes_on (node s [] ps n) = elim (waiting ps) [
  | inl (before, r, rs, after, e) ↦ inl (
    node s [] (before ++ rs ∷ after) (push r n),
    send s [] before after r rs ps (before ++ rs ∷ after) n e refl,
  )
  | inr all ↦ elim (goes_on n) [
    | inl (n', st) ↦ inl (node s [] ps n', later s [] ps n n' st)
    | inr done ↦ inr (refl, all, done)
  ]
]

-- The most steps that a chain of these stages makes of a chunk.
abbrev pub chain_steps : List Pure → Chunk → ℕ
chain_steps ss c = left (idle ss (sent c ∷ []))

-- The stages of a chain without state, run in any order of their goroutines: at every moment they
-- can go on, or all channels are empty, and then what arrived is a permutation of what the stages
-- make one after the other. And there are no more than `chain_steps` moments.
pub Steps-confluent :
    (ss : List Pure) (c : Chunk) (k : ℕ) (n : Net)
    → Steps k (idle ss (sent c ∷ [])) n
    → (k ≤ chain_steps ss c)
      × (((n' : Net) × Step n n') ⊎ (IsDone n × Perm (arrived n) (through ss (sent c ∷ []) tt).0))
Steps-confluent ss c k n steps = (
  omega (arith, left-Steps steps),
  elim (goes_on n) [
    | inl more ↦ inl more
    | inr done ↦ inr (
      done,
      subst (λ l. Perm l (through ss (sent c ∷ []) tt).0) (yields-done n done)
          (subst (λ l. Perm (yields n []) l) (yields-idle ss (sent c ∷ []) [])
            (yields-Steps steps)),
    )
  ],
)

-- ===== src/Stripe/Placement.antt =====
-- stripe/stripe.go: where `Stripe` puts copies, and how many an item then has.
use scat.Prelude.{
  ℕ, ◌≤◌, ◌≡◌, refl, sym, ap, ◌∙◌, inl, inr, true, false, not, ◌&&◌, ◌||◌, none, some, [], ◌∷◌,
  arith, ◌==◌, ==_iff, Bool-cases, Option-cases, length,
}
use scat.Prelude.Dict.{lookup, remove, has, IsUnique, has-remove, has-lookup, Locs}
use scat.Stripe.RoundRobin.{Rr}
use scat.Stripe.{S, Config, Loop, locs_of, done, pass, passes, start, delete_all, drop_got, stripe}
use scat.Stripe.Passes.{InDests, pass-Passed, locs_of-InDests, locs_of-insert, Outcome-cases}

-- The two passes, and the results between them and after them.
pub record Ran (fuel : ℕ) (cfg : Config) (s : S) (dests : Locs) (seq : Rr) (res : S) : Type 0 where
  pub middle : Loop
  pub last : Loop
  pub first_pass : pass fuel cfg true dests s (start s dests seq) ≡ done middle
  pub second_pass : pass fuel cfg false dests s middle ≡ done last
  pub returned : res ≡ drop_got s last.res

pub stripe-Ran :
    (fuel : ℕ) (cfg : Config) (s : S) (dests : Locs) (seq seq' : Rr) (res : S)
    → stripe fuel cfg s dests seq ≡ done (res, seq')
    → Ran fuel cfg s dests seq res
unfolding stripe passes
stripe-Ran fuel cfg s dests seq seq' res e =
    elim (Outcome-cases (pass fuel cfg true dests s (start s dests seq))) [
      | inl short ↦ absurd (ground arith)
      | inr (inl out) ↦ absurd (ground arith)
      | inr (inr (m, one)) ↦ elim (Outcome-cases (pass fuel cfg false dests s m)) [
        | inl short ↦ absurd (ground arith)
        | inr (inl out) ↦ absurd (ground arith)
        | inr (inr (z, two)) ↦ record {
          middle = m;
          last = z;
          first_pass = one;
          second_pass = two;
          returned = ground arith;
        }
      ]
    ]

has-delete_all :
    (got new : Locs) (l : ℕ) → has l (delete_all got new) ≡ (has l new && not (has l got))
unfolding delete_all has
has-delete_all [] new l = ground arith
has-delete_all ((k, _) ∷ got) new l =
    ground (arith, has-delete_all got (remove k new) l, has-remove k l new)

drop_got-absent :
    (s res : S) (it : ℕ) → has it s ≡ false → locs_of (drop_got s res) it ≡ locs_of res it
unfolding drop_got has
drop_got-absent [] res it h = refl
drop_got-absent ((j, got) ∷ s) res it h = elim (Option-cases (lookup j res)) [
  | inl e ↦ rw e (drop_got-absent s res it (ground arith))
  | inr (new, e) ↦ rw e (
      drop_got-absent s _ it (ground arith)
      ∙ ground (arith, locs_of-insert j it (delete_all got new) res))
]

delete_all-nil : (got : Locs) → delete_all got [] ≡ []
unfolding delete_all remove
delete_all-nil [] = refl
delete_all-nil ((k, _) ∷ got) = delete_all-nil got

-- Each item loses the locations that it had, and no other item's.
pub locs_of-drop_got :
    (s res : S) (it : ℕ) (got : Locs)
    → IsUnique s
    → lookup it s ≡ some got
    → locs_of (drop_got s res) it ≡ delete_all got (locs_of res it)
unfolding drop_got lookup
locs_of-drop_got [] res it got u e = absurd (ground arith)
locs_of-drop_got ((j, had) ∷ s) res it got u e = elim (Bool-cases (j == it)) [
  | inl own ↦
      let same : j ≡ it = (==_iff j it).0 own in
      let here : had ≡ got = ground arith in
      let absent : has it s ≡ false = ground (arith, u.0) in
      elim (Option-cases (lookup j res)) [
        | inl none_yet ↦
            let miss : lookup it res ≡ none = cc in
            let empty : locs_of res it ≡ [] = rw (miss, locs_of) in
            rw none_yet (drop_got-absent s res it absent ∙ rw empty (sym (delete_all-nil got)))
        | inr (new, placed) ↦
            let hit : lookup it res ≡ some new = cc in
            let full : locs_of res it ≡ new = rw (hit, locs_of) in
            rw placed (
              drop_got-absent s _ it absent
              ∙ ground (arith, locs_of-insert j it (delete_all had new) res))
      ]
  | inr other ↦ elim (Option-cases (lookup j res)) [
    | inl none_yet ↦ rw none_yet (locs_of-drop_got s res it got u.1 (ground arith))
    | inr (new, placed) ↦ rw placed (
        locs_of-drop_got s _ it got u.1 (ground arith)
        ∙ ap (delete_all got) (ground (arith, locs_of-insert j it (delete_all had new) res)))
  ]
]

-- The copies that an item has in the end: its new ones, and those of its old ones that are at
-- destinations and were counted.
pub record Held (cfg : Config) (dests got new : Locs) : Type 0 where
  pub held : Locs
  pub distinct : IsUnique held
  pub enough : cfg.min_copies ≤ length held
  pub at_dests : (l : ℕ) → has l held ≡ true → has l dests ≡ true
  pub accounted : (l : ℕ) → has l held ≡ true → (has l got || has l new) ≡ true

start-InDests : (s : S) (dests : Locs) (seq : Rr) → InDests dests (start s dests seq).res
unfolding lookup
start-InDests s dests seq j ls e = absurd (ground arith)

pub Ran-InDests :
    {fuel : ℕ} {cfg : Config} {s : S} {dests : Locs} {seq : Rr} {res : S}
    (r : Ran fuel cfg s dests seq res)
    → InDests dests r.last.res
Ran-InDests {fuel} {cfg} {s} {dests} {seq} r =
    (pass-Passed fuel cfg false dests s r.middle r.last r.second_pass).in_dests (
      (pass-Passed fuel cfg true dests s (start s dests seq) r.middle r.first_pass).in_dests
        (start-InDests s dests seq))

-- When `Stripe` succeeds, every item is given only destinations that it is not at yet, and with
-- these it is at `Min` distinct destinations at least.
pub stripe-Held :
    (fuel : ℕ) (cfg : Config) (s : S) (dests : Locs) (seq : Rr) {seq' : Rr} {res : S} (it : ℕ)
    {got : Locs}
    → IsUnique s
    → stripe fuel cfg s dests seq ≡ done (res, seq')
    → lookup it s ≡ some got
    → ((l : ℕ) → has l (locs_of res it) ≡ true → (has l dests ≡ true) × (has l got ≡ false))
      × Held cfg dests got (locs_of res it)
stripe-Held fuel cfg s dests seq {seq'} {res} it {got} u e here =
    let r = stripe-Ran fuel cfg s dests seq seq' res e in
    let full = locs_of r.last.res it in
    let given : locs_of res it ≡ delete_all got full =
      rw r.returned (locs_of-drop_got s r.last.res it got u here) in
    let (unique, dest) = locs_of-InDests dests r.last.res it (Ran-InDests r) in
    let passed = pass-Passed fuel cfg false dests s r.middle r.last r.second_pass in
    let listed : has it s ≡ true = ground (arith, has-lookup it s) in
    rw given (
      λ l h. ground (arith, has-delete_all got full l, dest l),
      record {
        held = full;
        distinct = unique;
        enough = passed.all_full it listed refl;
        at_dests = dest;
        accounted = λ l h. ground (arith, has-delete_all got full l);
      },
    )

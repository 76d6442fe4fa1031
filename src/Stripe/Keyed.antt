-- ===== src/Stripe/Keyed.antt =====
-- stripe/stripe.go: what `Stripe` returns has entries for the items of the group only, one each.
use scat.Prelude.{
  ℕ, ◌≡◌, subst, inl, inr, Bool, true, false, [], ◌∷◌, arith, ◌==◌, ==_iff, Bool-cases,
  Option-cases,
}
use scat.Prelude.Dict.{lookup, insert, has, IsUnique, insert-IsUnique, has-insert, has-lookup, Locs}
use scat.Stripe.{S, Config, Loop, locs_of, done, begin, pass, start, delete_all, drop_got, stripe}
use scat.Stripe.RoundRobin.{Rr}
use scat.Stripe.Filling.{Filled, same, more}
use scat.Stripe.Passes.{pass-cons}
use scat.Stripe.Placement.{Ran, stripe-Ran}

-- One entry for an item, and none for anything but the items of `s`.
abbrev pub IsKeyed : S → S → Type 0
IsKeyed s t = IsUnique t × ((j : ℕ) → has j t ≡ true → has j s ≡ true)

insert-IsKeyed :
    (s t : S) (it : ℕ) (ls : Locs) → has it s ≡ true → IsKeyed s t → IsKeyed s (insert it ls t)
insert-IsKeyed s t it ls h k = (
  insert-IsUnique it ls t k.0,
  λ j e. elim (Bool-cases (it == j)) [
    | inl own ↦ subst (λ i. has i s ≡ true) ((==_iff it j).0 own) h
    | inr other ↦ k.1 j (ground (arith, has-insert it j ls t))
  ],
)

Filled-IsKeyed :
    (s : S) {cfg : Config} {dests : Locs} {it : ℕ} {t u : S}
    → Filled cfg dests it t u
    → has it s ≡ true
    → IsKeyed s t
    → IsKeyed s u
Filled-IsKeyed s (same e) h k = rw e k
Filled-IsKeyed s {it = it} (more {s = t} {t = u} a f) h k =
    Filled-IsKeyed s f h (rw a.written (insert-IsKeyed s t it (insert a.new tt (locs_of t it)) h k))

begin-IsKeyed :
    (s : S) (got : Locs) (it : ℕ) (l : Loop)
    → has it s ≡ true
    → IsKeyed s l.res
    → IsKeyed s (begin got it l).res
unfolding begin
begin-IsKeyed s got it l h k = elim (Bool-cases (has it l.res)) [
  | inl there ↦ rw there k
  | inr absent ↦ rw absent (insert-IsKeyed s l.res it [] h k)
]

pass-IsKeyed :
    (s : S) (fuel : ℕ) (cfg : Config) (first_pass : Bool) (dests : Locs) (items : S) (l m : Loop)
    → pass fuel cfg first_pass dests items l ≡ done m
    → ((j : ℕ) → has j items ≡ true → has j s ≡ true)
    → IsKeyed s l.res
    → IsKeyed s m.res
unfolding pass has
pass-IsKeyed s fuel cfg first_pass dests [] l m e sub k =
    let ended : m.res ≡ l.res = ground arith in rw ended k
pass-IsKeyed s fuel cfg first_pass dests ((it, got) ∷ items) l m e sub k =
    let (between, filled, rest) = pass-cons fuel cfg first_pass dests got it items l m e in
    let here : has it s ≡ true = sub it (ground arith) in
    pass-IsKeyed s fuel cfg first_pass dests items between m rest (λ j h. sub j (ground arith))
      (Filled-IsKeyed s filled.chain here (begin-IsKeyed s got it l here k))

drop_got-IsKeyed : (s got res : S) → IsKeyed s res → IsKeyed s (drop_got got res)
unfolding drop_got
drop_got-IsKeyed s [] res k = k
drop_got-IsKeyed s ((it, ls) ∷ got) res k = elim (Option-cases (lookup it res)) [
  | inl e ↦ rw e (drop_got-IsKeyed s got res k)
  | inr (new, e) ↦
      let there : has it res ≡ true = ground (arith, has-lookup it res) in
      rw e (drop_got-IsKeyed s got _ (insert-IsKeyed s res it (delete_all ls new) (k.1 it there) k))
]

-- What the loops leave, before the old locations are taken out.
pub Ran-IsKeyed :
    {fuel : ℕ} {cfg : Config} {s : S} {dests : Locs} {seq : Rr} {res : S}
    (r : Ran fuel cfg s dests seq res)
    → IsKeyed s r.last.res
unfolding has
Ran-IsKeyed {fuel} {cfg} {s} {dests} {seq} r =
    let all = λ (j : ℕ) (h : has j s ≡ true). h in
    let first =
      pass-IsKeyed s fuel cfg true dests s (start s dests seq) r.middle r.first_pass all
        (tt, λ j h. absurd (ground arith)) in
    pass-IsKeyed s fuel cfg false dests s r.middle r.last r.second_pass all first

pub stripe-IsKeyed :
    (fuel : ℕ) (cfg : Config) (s : S) (dests : Locs) (seq seq' : Rr) (res : S)
    → stripe fuel cfg s dests seq ≡ done (res, seq')
    → IsKeyed s res
stripe-IsKeyed fuel cfg s dests seq seq' res e =
    let r = stripe-Ran fuel cfg s dests seq seq' res e in
    rw r.returned (drop_got-IsKeyed s s r.last.res (Ran-IsKeyed r))

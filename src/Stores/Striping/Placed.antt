-- ===== src/Stores/Striping/Placed.antt =====
-- stores/stripe/stripe.go: with `Stripe` and the registries: where copies go, and how many stores
-- have a chunk when they have ended.
use scat.Prelude.{
  ℕ, ◌≤◌, ◌≡◌, refl, sym, ap, ◌∙◌, subst, ◌⊎◌, inl, inr, Bool, true, false, ◌&&◌, ◌||◌, some, List,
  [], ◌∷◌, ◌++◌, arith, ◌==◌, ==_iff, Bool-cases, Option-cases, length, All,
}
use scat.Prelude.Dict.{
  lookup, has, elem, IsUnique, elem-keys, lookup-none_of_has, has-lookup, has_of_lookup, All-lookup,
  keys, Locs,
}
use scat.Chunk.{Chunk}
use scat.Errors.{stripe_short}
use scat.Stores.Quota.{resources}
use scat.Stores.Copies.History.{owned}
use scat.Stripe.{S, done, locs_of, stripe}
use scat.Stripe.RoundRobin.{Rr}
use scat.Stripe.Passes.{Outcome-cases}
use scat.Stripe.Placement.{Held, stripe-Held}
use scat.Stripe.Keyed.{stripe-IsKeyed}
use scat.Stores.Striping.{
  Striper, Infos, group_chunks, gather, set_of, current, chunks_in, planned, plan, refused, no_fuel,
  to_stores, copies_of, chosen, procs,
}
use scat.Stores.Striping.Known.{has-set_of, IsRight, Read, current-Read, procs_good}

-- A copy of this chunk to this store is among them.
abbrev pub goes : ℕ → ℕ → List (ℕ × ℕ) → Bool
goes h l [] = false
goes h l ((h', l') ∷ cs) = (h' == h && l' == l) || goes h l cs

goes-append : (h l : ℕ) (cs ds : List (ℕ × ℕ)) → goes h l (cs ++ ds) ≡ (goes h l cs || goes h l ds)
goes-append h l [] ds = refl
goes-append h l ((h', l') ∷ cs) ds = ground (arith, goes-append h l cs ds)

to_stores-total :
    (h : ℕ) (ls : List ℕ) (all : Locs)
    → ((l : ℕ) → elem l ls ≡ true → has l all ≡ true)
    → (cs : List (ℕ × ℕ)) × (to_stores h ls all ≡ some cs)
      × ((k l : ℕ) → goes k l cs ≡ (h == k && elem l ls))
unfolding to_stores elem
to_stores-total h [] all sub = ([], refl, λ k l. ground arith)
to_stores-total h (l ∷ ls) all sub =
    let (cs, made, right) = to_stores-total h ls all (λ k e. sub k (ground arith)) in
    let here : has l all ≡ true = sub l (ground arith) in
    ((h, l) ∷ cs, rw (here, made, to_stores) refl, λ k j. ground (arith, right k j))

-- Some entry has this store for this chunk.
abbrev placed : ℕ → ℕ → S → Bool
placed h l [] = false
placed h l ((k, locs) ∷ s) = (k == h && has l locs) || placed h l s

copies_of-total :
    (s : S) (infos : Infos) (all : Locs)
    → All
        (λ (e : ℕ × Locs). (has e.0 infos ≡ true) × ((l : ℕ) → has l e.1 ≡ true → has l all ≡ true))
        s
    → (cs : List (ℕ × ℕ)) × (copies_of s infos all ≡ some cs)
      × ((h l : ℕ) → goes h l cs ≡ placed h l s)
unfolding copies_of
copies_of-total [] infos all a = ([], refl, λ h l. refl)
copies_of-total ((k, locs) ∷ s) infos all a =
    let (cs, made, right) =
      to_stores-total k (keys locs) all (λ l e. a.0.1 l (ground (arith, elem-keys l locs))) in
    let (ds, later, right') = copies_of-total s infos all a.1 in
    (
      cs ++ ds,
      rw (a.0.0, made, later, copies_of) refl,
      λ h l. ground (arith, goes-append h l cs ds, right h l, right' h l, elem-keys l locs),
    )

placed-locs_of : (s : S) (h l : ℕ) → IsUnique s → placed h l s ≡ has l (locs_of s h)
unfolding lookup has
placed-locs_of [] h l u = refl
placed-locs_of ((k, locs) ∷ s) h l u = elim (Bool-cases (k == h)) [
  | inl own ↦
      let gone : has h s ≡ false = subst (λ i. has i s ≡ false) ((==_iff k h).0 own) u.0 in
      rw own (ground (arith, placed-locs_of s h l u.1, lookup-none_of_has h s gone))
  | inr other ↦ ground (arith, placed-locs_of s h l u.1)
]

has_item : (s : S) (h l : ℕ) → has l (locs_of s h) ≡ true → has h s ≡ true
unfolding has
has_item s h l e = elim (Option-cases (lookup h s)) [
  | inl absent ↦ let empty : locs_of s h ≡ [] = rw (absent, locs_of) in absurd (ground arith)
  | inr (ls, there) ↦ has_of_lookup h s there
]

-- The copies that were chosen for a group: each of a chunk of the group, to a store with room that
-- has none of it yet; and with the stores that have one already, each chunk is at `Min` stores.
pub record Placed (sp : Striper) (infos : Infos) (n : ℕ) (copies : List (ℕ × ℕ)) : Type 0 where
  pub allowed :
      (h l : ℕ)
      → goes h l copies ≡ true
      → (has h infos ≡ true) × (elem l (resources sp.qman n) ≡ true) × (owned sp.reg h l ≡ false)
  pub enough :
      (h : ℕ)
      → has h infos ≡ true
      → (held : Locs) × IsUnique held
        × (sp.cfg.min_copies ≤ length held)
        × ((l : ℕ)
            → has l held ≡ true
            → (elem l (resources sp.qman n) ≡ true)
              × ((owned sp.reg h l || goes h l copies) ≡ true))

module _ (sp : Striper) (infos : Infos) (n : ℕ) where
  abbrev room : Locs
  room = set_of (resources sp.qman n) []

  abbrev known : S
  known = (current (keys infos) sp.reg []).1

  has-room : (l : ℕ) → has l room ≡ elem l (resources sp.qman n)
  unfolding has
  has-room l = ground (arith, has-set_of (resources sp.qman n) [] l)

  known-Read : Read sp.reg (current (keys infos) sp.reg []).0 (keys infos) [] known
  known-Read = current-Read (keys infos) sp.reg []

  has-known : (h : ℕ) → has h known ≡ has h infos
  unfolding has
  has-known h = ground (arith, known-Read.hashes h, elem-keys h infos)

  known-IsRight : IsRight sp.reg known
  unfolding lookup
  known-IsRight = known-Read.right (λ h got e. absurd (ground arith))

  module _ (fuel : ℕ) (seq' : Rr) (new : S)
      (ran : stripe fuel sp.cfg known room sp.seq ≡ done (new, seq')) where
    -- What `Stripe` gives a chunk of the group.
    given :
        (h : ℕ)
        → has h infos ≡ true
        → (got : Locs) × (lookup h known ≡ some got)
          × (((l : ℕ) → has l (locs_of new h) ≡ true → (has l room ≡ true) × (has l got ≡ false))
              × Held sp.cfg room got (locs_of new h))
    given h e = elim (Option-cases (lookup h known)) [
      | inl absent ↦ absurd (ground (arith, has-known h, has-lookup h known))
      | inr (got, there) ↦ (
        got,
        there,
        stripe-Held fuel sp.cfg known room sp.seq {seq' = seq'} {res = new} h (known-Read.unique tt)
            ran there,
      )
    ]

    new-entries :
        All
          (λ (e : ℕ × Locs).
            (has e.0 infos ≡ true) × ((l : ℕ) → has l e.1 ≡ true → has l room ≡ true))
          new
    new-entries =
        let keyed = stripe-IsKeyed fuel sp.cfg known room sp.seq seq' new ran in
        All-lookup
          (λ h locs. (has h infos ≡ true) × ((l : ℕ) → has l locs ≡ true → has l room ≡ true)) new
          keyed.0
          (λ h locs e.
            let listed : has h infos ≡ true =
              ground (arith, has-known h, keyed.1 h, has_of_lookup h new e) in
            let own : locs_of new h ≡ locs = rw (e, locs_of) in
            let (got, there, (free, held)) = given h listed in
            (listed, λ l i. (free l (rw own i)).0))

    chosen-Placed :
        (copies : List (ℕ × ℕ)) × (copies_of new infos room ≡ some copies)
        × Placed sp infos n copies
    chosen-Placed =
        let keyed = stripe-IsKeyed fuel sp.cfg known room sp.seq seq' new ran in
        let (copies, made, right) = copies_of-total new infos room new-entries in
        let goes-new = λ (h l : ℕ). right h l ∙ placed-locs_of new h l keyed.0 in
        (
          copies,
          made,
          record {
            allowed = λ h l e.
                let at : has l (locs_of new h) ≡ true = sym (goes-new h l) ∙ e in
                let listed : has h infos ≡ true =
                  ground (arith, has-known h, keyed.1 h, has_item new h l at) in
                let (got, there, (free, held)) = given h listed in
                let (dest, elsewhere) = free l at in
                (listed, sym (has-room l) ∙ dest, sym (known-IsRight h got there l) ∙ elsewhere);
            enough = λ h e.
                let (got, there, (free, held)) = given h e in
                (
                  held.held,
                  held.distinct,
                  held.enough,
                  λ l i. (
                    sym (has-room l) ∙ held.at_dests l i,
                    ground (arith, known-IsRight h got there l, goes-new h l, held.accounted l i),
                  ),
                );
          },
        )

-- A group whose sizes and errors are fine is refused for want of stores, or its copies are planned,
-- in neither case with a panic. Each planned copy is of a chunk of the group, to a store that had
-- room for the whole group and has no copy of the chunk; with the stores that have one already,
-- each chunk is then at `Min` distinct stores with room at least. (The model may also run out of
-- fuel.)
pub procs-Placed :
    (fuel : ℕ) (sp : Striper) (c : Chunk) (infos : Infos) (n : ℕ)
    → gather (group_chunks c) [] 0 ≡ inl (infos, n)
    → ((procs fuel sp c).1 ≡ refused stripe_short)
      ⊎ ((procs fuel sp c).1 ≡ no_fuel)
      ⊎ ((copies : List (ℕ × ℕ)) × ((procs fuel sp c).1 ≡ plan (chunks_in infos) copies)
          × Placed sp infos n copies)
unfolding chosen
procs-Placed fuel sp c infos n good =
    let reg = (current (keys infos) sp.reg []).0 in
    let s = known sp infos n in
    let all = room sp infos n in
    let reached : (procs fuel sp c).1
        ≡ (chosen sp infos all reg (stripe fuel sp.cfg s all sp.seq)).1 =
      ap (λ r. r.1) (procs_good fuel sp c infos n good) in
    elim (Outcome-cases (stripe fuel sp.cfg s all sp.seq)) [
      | inl short ↦ inl (reached ∙ ap (λ o. (chosen sp infos all reg o).1) short)
      | inr (inl out) ↦ inr (inl (reached ∙ ap (λ o. (chosen sp infos all reg o).1) out))
      | inr (inr ((new, seq'), ran)) ↦
          let (copies, made, right) = chosen-Placed sp infos n fuel seq' new ran in
          inr (
            inr (
              copies,
              reached
                  ∙ ap (λ o. (chosen sp infos all reg o).1) ran
                  ∙ ap (λ o. planned (chunks_in infos) o) made,
              right,
            ))
    ]

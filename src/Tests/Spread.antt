-- ===== src/Tests/Spread.antt =====
-- stripe/: the theorems at a group of two chunks, two copies each, over three stores.
use native.Mathlib.Nat.{le_refl}
use scat.Prelude.{ℕ, ◌≤◌, ◌≡◌, refl, ◌≢◌, true, false, [], ◌∷◌, arith, length}
use scat.Prelude.Dict.{lookup, insert, remove, has, elem, IsUnique, Locs}
use scat.Stripe.{
  S, Config, Loop, locs_of, turn, done, out_of_fuel, exclusives, start, priorities, fill, stripe,
}
use scat.Stripe.RoundRobin.{Rr, next_item}
use scat.Stripe.Placement.{Held, stripe-Held}
use scat.Stripe.Alone.{IsAlone}
use scat.Stripe.Exclusive.{Counted, stripe-exclusives}
use scat.Stripe.Progress.{weight}
use scat.Stripe.Total.{enough_fuel, stripe-total}

abbrev two_copies : Config
two_copies = record { min_copies = 2; excl = 2 }

abbrev three_stores : Locs
three_stores = (1, tt) ∷ (2, tt) ∷ (3, tt) ∷ []

abbrev ring : Rr
ring = record { items = 1 ∷ 2 ∷ 3 ∷ []; cur = 0 }

abbrev moved_ring : Rr
moved_ring = record { items = 1 ∷ 2 ∷ 3 ∷ []; cur = 1 }

-- The first chunk is at store 2 already.
abbrev two_chunks : S
two_chunks = (10, (2, tt) ∷ []) ∷ (20, []) ∷ []

-- It gets one copy more; the other gets two, at other stores than the first.
abbrev copies : S
copies = (10, (1, tt) ∷ []) ∷ (20, (3, tt) ∷ (1, tt) ∷ []) ∷ []

runs : stripe 40 two_copies two_chunks three_stores ring ≡ done (copies, moved_ring)
unfolding stripe fill lookup has insert turn exclusives next_item priorities remove
runs = refl

brings : (k : ℕ) → has k three_stores ≡ true → elem k ring.items ≡ true
unfolding has elem
brings k e = ground arith

stripe-total_example :
    stripe
      (enough_fuel 3 (weight (priorities two_chunks three_stores [])) two_chunks)
      two_copies
      two_chunks
      three_stores
      ring
    ≢ out_of_fuel
stripe-total_example =
    stripe-total (enough_fuel 3 (weight (priorities two_chunks three_stores [])) two_chunks)
      two_copies two_chunks three_stores ring (omega arith) brings (le_refl _)

stripe-exclusives_example :
    (full : S) × Counted two_copies two_chunks three_stores copies full
    × ((alone : Locs) × IsUnique alone
        × (2 ≤ length alone)
        × ((a : ℕ) → has a alone ≡ true → IsAlone full a))
unfolding has
stripe-exclusives_example =
    stripe-exclusives 40 two_copies two_chunks three_stores ring {seq' = moved_ring} {res = copies}
      (refl, (refl, tt)) (λ e. cc) (omega arith) runs

abbrev no_stores : Locs
no_stores = []

stripe-Held_example :
    ((l : ℕ)
      → has l (locs_of copies 20) ≡ true
      → (has l three_stores ≡ true) × (has l no_stores ≡ false))
    × Held two_copies three_stores [] (locs_of copies 20)
unfolding has lookup
stripe-Held_example =
    stripe-Held 40 two_copies two_chunks three_stores ring {seq' = moved_ring} {res = copies} 20
      (refl, (refl, tt)) runs refl

abbrev first_loop : Loop
first_loop = start two_chunks three_stores ring

brings_first : (k : ℕ) → has k first_loop.prios ≡ true → elem k (1 ∷ 2 ∷ 3 ∷ []) ≡ true
unfolding has elem priorities lookup insert
brings_first k e = ground arith

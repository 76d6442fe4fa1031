-- ===== src/Stripe/RoundRobin/Rotation.antt =====
-- stripe/rr.go: the sequence as a queue whose head goes to the back.
use native.Mathlib.Nat.{mod-eq_of_lt, mod_self, mod-lt}
use scat.Prelude.{
  ℕ, zero, suc, ◌+◌, ◌%◌, ◌≤◌, ◌<◌, ◌≡◌, refl, sym, ap, ◌∙◌, inl, inr, some, List, [], ◌∷◌, ◌++◌,
  append-nil, append_assoc, arith, ltb, Bool-cases, length, get_elem?, take, drop,
}
use scat.Stripe.RoundRobin.{Rr, next_item}

abbrev pub queue : Rr → List ℕ
queue rr = drop rr.cur rr.items ++ take rr.cur rr.items

-- The cursor stands at an item.
abbrev pub IsLive : Rr → Type 0
IsLive rr = rr.cur < length rr.items

record Split (xs : List ℕ) (i : ℕ) : Type 0 where
  head : ℕ
  found : get_elem? xs i ≡ some head
  back : drop i xs ≡ head ∷ drop (suc i) xs
  front : take (suc i) xs ≡ take i xs ++ head ∷ []

Split-at : (xs : List ℕ) (i : ℕ) → i < length xs → Split xs i
Split-at [] i h = elim h [ ]
Split-at (x ∷ xs) zero h = record { head = x; found = refl; back = refl; front = refl }
Split-at (x ∷ xs) (suc i) h =
    let s = Split-at xs i (omega arith) in
    record { head = s.head; found = s.found; back = s.back; front = ap (◌∷◌ x) s.front }

drop_all : (xs : List ℕ) (n : ℕ) → length xs ≤ n → (drop n xs ≡ []) × (take n xs ≡ xs)
drop_all [] zero h = (refl, refl)
drop_all [] (suc n) h = (refl, refl)
drop_all (x ∷ xs) zero h = absurd (omega arith)
drop_all (x ∷ xs) (suc n) h = let r = drop_all xs n (omega arith) in (r.0, ap (◌∷◌ x) r.1)

rotate :
    (xs : List ℕ) (i : ℕ) (s : Split xs i)
    → i < length xs
    → drop ((i + 1) % length xs) xs ++ take ((i + 1) % length xs) xs
      ≡ (drop (suc i) xs ++ take i xs) ++ s.head ∷ []
rotate xs i s h = elim (Bool-cases (ltb (i + 1) (length xs))) [
  | inl inside ↦
      let next : (i + 1) % length xs ≡ suc i = mod-eq_of_lt (ground arith) ∙ omega arith in
      rw (next, s.front) (sym (append_assoc (drop (suc i) xs) (take i xs) (s.head ∷ [])))
  | inr last ↦
      let ended : i + 1 ≡ length xs = ground arith in
      let next : (i + 1) % length xs ≡ 0 = rw ended (mod_self (length xs)) in
      let (none_left, all) = drop_all xs (suc i) (omega arith) in
      rw (next, none_left) (append-nil xs ∙ sym (sym s.front ∙ all))
]

pub record Turns (rr : Rr) (x : ℕ) (rest : List ℕ) : Type 0 where
  pub given : (next_item rr).0 ≡ some x
  pub live : IsLive (next_item rr).1
  pub was : queue rr ≡ x ∷ rest
  pub rotated : queue (next_item rr).1 ≡ rest ++ x ∷ []

next_item-live :
    (rr : Rr)
    → IsLive rr
    → next_item rr ≡ (get_elem? rr.items rr.cur, record rr { cur = (rr.cur + 1) % length rr.items })
unfolding next_item
next_item-live rr h = ground arith

-- Of a sequence that stands at an item, `Next` gives the head of the queue and puts it at the
-- back, and the sequence stands at an item again.
pub next_item-Turns : (rr : Rr) → IsLive rr → (x : ℕ) × (rest : List ℕ) × Turns rr x rest
next_item-Turns rr h =
    let s = Split-at rr.items rr.cur h in
    let n = length rr.items in
    let went = next_item-live rr h in
    (
      s.head,
      drop (suc rr.cur) rr.items ++ take rr.cur rr.items,
      record {
        given = ap (λ r. r.0) went ∙ s.found;
        live = rw went (mod-lt (rr.cur + 1) (omega arith));
        was = rw s.back refl;
        rotated = rw went (rotate rr.items rr.cur s h);
      },
    )

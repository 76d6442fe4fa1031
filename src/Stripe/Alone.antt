-- ===== src/Stripe/Alone.antt =====
-- stripe/stripe.go: which items `exclusives` counts.
use scat.Prelude.{
  ℕ, suc, ◌≤◌, ◌≡◌, refl, sym, ◌∙◌, subst, ◌≢◌, inl, inr, true, false, [], ◌∷◌, arith, ◌==◌,
  if◌then◌else◌, ==_iff, Bool-cases, length,
}
use scat.Prelude.Dict.{lookup, remove, has, IsUnique, has-remove, Locs}
use scat.Stripe.{S, locs_of, subset, equal, is_exclusive, count_exclusive, exclusives}

length-remove_le : (k : ℕ) (m : Locs) → length (remove k m) ≤ length m
unfolding remove
length-remove_le k [] = omega arith
length-remove_le k ((j, _) ∷ m) = ground (arith, length-remove_le k m)

length-remove : (k : ℕ) (m : Locs) → has k m ≡ true → suc (length (remove k m)) ≤ length m
unfolding remove has
length-remove k [] h = absurd (ground arith)
length-remove k ((j, _) ∷ m) h = elim (Bool-cases (j == k)) [
  | inl own ↦ rw own (omega (arith, length-remove_le k m))
  | inr other ↦ rw other (omega (arith, length-remove k m (ground arith)))
]

-- A set within another has no more elements.
length-within :
    (a b : Locs) → IsUnique a → ((l : ℕ) → has l a ≡ true → has l b ≡ true) → length a ≤ length b
unfolding has
length-within [] b u h = omega arith
length-within ((l, _) ∷ a) b u h =
    let fewer = length-remove l b (h l (ground arith)) in
    let rest = length-within a (remove l b) u.1 (λ k e. elim (Bool-cases (l == k)) [
      | inl own ↦
          let clash : has k a ≡ false = subst (λ i. has i a ≡ false) ((==_iff l k).0 own) u.0 in
          absurd (ground arith)
      | inr other ↦ ground (arith, has-remove l k b, h k)
    ]) in
    omega (arith, fewer, rest)

subset-within : (a b : Locs) → ((l : ℕ) → has l a ≡ true → has l b ≡ true) → subset a b ≡ true
unfolding subset has
subset-within [] b h = refl
subset-within ((l, _) ∷ a) b h = ground (arith, h l, subset-within a b (λ k e. h k (ground arith)))

-- The same locations.
abbrev pub SameLocs : Locs → Locs → Type 0
SameLocs a b = (l : ℕ) → has l a ≡ has l b

equal-SameLocs : (a b : Locs) → IsUnique a → IsUnique b → SameLocs a b → equal a b ≡ true
unfolding equal
equal-SameLocs a b u v h =
    let one = length-within a b u (λ l e. sym (h l) ∙ e) in
    let two = length-within b a v (λ l e. h l ∙ e) in
    ground (arith, one, two, subset-within a b (λ l e. sym (h l) ∙ e))

is_exclusive-other :
    (a : ℕ) (a_locs : Locs) (s : S) (b : ℕ)
    → is_exclusive a a_locs s ≡ true
    → has b s ≡ true
    → a ≢ b
    → equal a_locs (locs_of s b) ≡ false
unfolding is_exclusive has lookup
is_exclusive-other a a_locs [] b e h ne = absurd (ground arith)
is_exclusive-other a a_locs ((j, j_locs) ∷ s) b e h ne = elim (Bool-cases (j == b)) [
  | inl own ↦
      let same : j ≡ b = (==_iff j b).0 own in
      let here : locs_of ((j, j_locs) ∷ s) b ≡ j_locs = rw (own, locs_of) refl in
      let apart : (a == j) ≡ false = ground (arith, ==_iff a j) in rw here (ground (arith, apart))
  | inr other ↦
      let later : locs_of ((j, j_locs) ∷ s) b ≡ locs_of s b = rw (other, locs_of) refl in
      rw later (is_exclusive-other a a_locs s b (ground arith) (ground arith) ne)
]

-- The items that are counted.
counted_items : S → S → Locs
counted_items [] s = []
counted_items ((a, a_locs) ∷ rest) s =
    if is_exclusive a a_locs s then (a, tt) ∷ counted_items rest s else counted_items rest s

length-counted_items : (rest s : S) → length (counted_items rest s) ≡ count_exclusive rest s
unfolding counted_items count_exclusive
length-counted_items [] s = refl
length-counted_items ((a, a_locs) ∷ rest) s = ground (arith, length-counted_items rest s)

has-counted_items :
    (rest s : S) (a : ℕ)
    → IsUnique rest
    → has a (counted_items rest s) ≡ true
    → (has a rest ≡ true) × (is_exclusive a (locs_of rest a) s ≡ true)
unfolding counted_items has lookup
has-counted_items [] s a u h = absurd (ground arith)
has-counted_items ((j, j_locs) ∷ rest) s a u h = elim (Bool-cases (j == a)) [
  | inl own ↦
      let same : j ≡ a = (==_iff j a).0 own in
      let here : locs_of ((j, j_locs) ∷ rest) a ≡ j_locs = rw (own, locs_of) refl in
      elim (Bool-cases (is_exclusive j j_locs s)) [
        | inl excl ↦ (ground arith, rw here (subst (λ i. is_exclusive i j_locs s ≡ true) same excl))
        | inr shared ↦
            let later : has a (counted_items rest s) ≡ true = ground arith in
            let clash : has a rest ≡ false = subst (λ i. has i rest ≡ false) same u.0 in
            absurd (ground (arith, has-counted_items rest s a u.1 later))
      ]
  | inr other ↦
      let later : has a (counted_items rest s) ≡ true =
        elim (Bool-cases (is_exclusive j j_locs s)) [
          | inl excl ↦ ground arith
          | inr shared ↦ ground arith
        ] in
      let there : locs_of ((j, j_locs) ∷ rest) a ≡ locs_of rest a = rw (other, locs_of) refl in
      let (listed, excl) = has-counted_items rest s a u.1 later in (ground arith, rw there excl)
]

counted_items-IsUnique : (rest s : S) → IsUnique rest → IsUnique (counted_items rest s)
unfolding counted_items has
counted_items-IsUnique [] s u = tt
counted_items-IsUnique ((j, j_locs) ∷ rest) s u =
    let later = counted_items-IsUnique rest s u.1 in
    let absent : has j (counted_items rest s) ≡ false =
      elim (Bool-cases (has j (counted_items rest s))) [
        | inl there ↦ absurd (ground (arith, has-counted_items rest s j u.1 there, u.0))
        | inr gone ↦ gone
      ] in
    elim (Bool-cases (is_exclusive j j_locs s)) [
      | inl excl ↦ rw excl (absent, later)
      | inr shared ↦ rw shared later
    ]

-- No other item of the group has the same locations.
abbrev pub IsAlone : S → ℕ → Type 0
IsAlone s a =
    (has a s ≡ true) × ((b : ℕ) → has b s ≡ true → a ≢ b → SameLocs (locs_of s a) (locs_of s b) → ⊥)

-- As many items as `exclusives` counts have locations that no other item has.
pub exclusives-IsAlone :
    (s : S)
    → IsUnique s
    → ((a : ℕ) → IsUnique (locs_of s a))
    → (alone : Locs) × IsUnique alone
      × (length alone ≡ exclusives s)
      × ((a : ℕ) → has a alone ≡ true → IsAlone s a)
unfolding exclusives
exclusives-IsAlone s u sets = (
  counted_items s s,
  counted_items-IsUnique s s u,
  length-counted_items s s,
  λ a h.
      let (there, excl) = has-counted_items s s a u h in
      (
        there,
        λ b other ne same.
            let differ = is_exclusive-other a (locs_of s a) s b excl other ne in
            let equal_ = equal-SameLocs (locs_of s a) (locs_of s b) (sets a) (sets b) same in
            absurd (ground arith),
      ),
)

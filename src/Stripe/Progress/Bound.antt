-- ===== src/Stripe/Progress/Bound.antt =====
-- A bound on the rounds of the loops of stripe/stripe.go: three measures in order of weight.
use scat.Prelude.{ℕ, suc, ◌+◌, ◌*◌, ◌≤◌, ◌<◌, ◌⊎◌, inl, inr, arith}

-- Three digits to the base n + 1.
abbrev pub bound : ℕ → ℕ → ℕ → ℕ → ℕ
bound n a b c = (a * suc n + b) * suc n + c

digit_lt : (n a a' b b' : ℕ) → b' ≤ n → a' < a → a' * suc n + b' < a * suc n + b
digit_lt n a a' b b' h k = grind arith

digit_le : (n a a' b b' : ℕ) → a' ≤ a → b' < b → a' * suc n + b' < a * suc n + b
digit_le n a a' b b' h k = grind arith

digit_mono : (n a a' b b' : ℕ) → a' ≤ a → b' ≤ b → a' * suc n + b' ≤ a * suc n + b
digit_mono n a a' b b' h k = grind arith

pub bound-lt :
    (n a a' b b' c c' : ℕ)
    → b' ≤ n
    → c' ≤ n
    → (a' < a) ⊎ ((a' ≤ a) × (b' < b)) ⊎ ((a' ≤ a) × (b' ≤ b) × (c' < c))
    → bound n a' b' c' < bound n a b c
bound-lt n a a' b b' c c' hb hc (inl h) = digit_lt n _ _ c c' hc (digit_lt n a a' b b' hb h)
bound-lt n a a' b b' c c' hb hc (inr (inl h)) =
    digit_lt n _ _ c c' hc (digit_le n a a' b b' h.0 h.1)
bound-lt n a a' b b' c c' hb hc (inr (inr h)) =
    digit_le n _ _ c c' (digit_mono n a a' b b' h.0 h.1) h.2

pub bound_mono :
    (n a a' b b' c c' : ℕ) → a' ≤ a → b' ≤ b → c' ≤ c → bound n a' b' c' ≤ bound n a b c
bound_mono n a a' b b' c c' ha hb hc = digit_mono n _ _ c c' (digit_mono n a a' b b' ha hb) hc

-- ===== src/Index/Lines.antt =====
-- index/write.go against index/scanner.go: what is written is read back.
use scat.Prelude.{
  ℕ, zero, suc, ◌+◌, ◌-◌, ◌*◌, ◌/◌, ◌%◌, ◌≤◌, ◌<◌, ◌≡◌, refl, sym, ap, ◌∙◌, ◌≢◌, inl, inr, some, [],
  ◌∷◌, ◌++◌, arith, ltb, Bool-cases, All,
}
use scat.Chunk.{Bytes}
use scat.Index.{
  hex, hex_digit, unhex, decimal_onto, write_line, got, skip_spaces, hex_pairs, scan_hex, digits,
  scan_decimal, scan_newline, line, scan_line,
}

unhex-hex_digit : (d : ℕ) → d < 16 → unhex (hex_digit d) ≡ some d
unfolding unhex
unhex-hex_digit d h = ground arith

hex_pairs-hex :
    (bs rest : Bytes)
    → All (λ b. b < 256) bs
    → hex_pairs (hex bs ++ b' ' ∷ rest) ≡ got bs (b' ' ∷ rest)
unfolding hex_pairs hex
hex_pairs-hex [] [] h = refl
hex_pairs-hex [] (c ∷ rest) h = refl
hex_pairs-hex (b ∷ bs) rest h =
    let high = unhex-hex_digit (b / 16) (omega arith) in
    let low = unhex-hex_digit (b % 16) (omega arith) in
    let whole : b / 16 * 16 + b % 16 ≡ b = omega arith in
    ground (arith, high, low, hex_pairs-hex bs rest h.1, whole)

hex_pairs-hex_alone : (bs : Bytes) → All (λ b. b < 256) bs → hex_pairs (hex bs) ≡ got bs []
unfolding hex_pairs hex
hex_pairs-hex_alone [] h = refl
hex_pairs-hex_alone (b ∷ bs) h =
    let high = unhex-hex_digit (b / 16) (omega arith) in
    let low = unhex-hex_digit (b % 16) (omega arith) in
    let whole : b / 16 * 16 + b % 16 ≡ b = omega arith in
    ground (arith, high, low, hex_pairs-hex_alone bs h.1, whole)

hex_digit-ne-space : (d : ℕ) → hex_digit d ≢ b' '
hex_digit-ne-space d = ground arith

skip_spaces-ne : (c : ℕ) (cs : Bytes) → c ≢ b' ' → skip_spaces (c ∷ cs) ≡ c ∷ cs
unfolding skip_spaces
skip_spaces-ne c cs ne = ground arith

scan_hex-ne :
    (c : ℕ) (cs rest : Bytes) (b : ℕ) (bs : Bytes)
    → c ≢ b' '
    → hex_pairs (c ∷ cs) ≡ got (b ∷ bs) rest
    → scan_hex (c ∷ cs) ≡ got (b ∷ bs) rest
unfolding scan_hex
scan_hex-ne c cs rest b bs ne e = rw (skip_spaces-ne c cs ne) (rw e refl)

scan_hex-hex :
    (b : ℕ) (bs rest : Bytes)
    → All (λ c. c < 256) (b ∷ bs)
    → scan_hex (hex (b ∷ bs) ++ b' ' ∷ rest) ≡ got (b ∷ bs) (b' ' ∷ rest)
unfolding hex
scan_hex-hex b bs rest h =
    scan_hex-ne (hex_digit (b / 16)) _ (b' ' ∷ rest) b bs (hex_digit-ne-space (b / 16))
      (hex_pairs-hex (b ∷ bs) rest h)

-- The digits alone.
pub scan_hex-hex_alone :
    (b : ℕ) (bs : Bytes) → All (λ c. c < 256) (b ∷ bs) → scan_hex (hex (b ∷ bs)) ≡ got (b ∷ bs) []
unfolding hex
scan_hex-hex_alone b bs h =
    scan_hex-ne (hex_digit (b / 16)) _ [] b bs (hex_digit-ne-space (b / 16))
      (hex_pairs-hex_alone (b ∷ bs) h)

-- Reading on from `acc` over the digits of `n`.
digits-decimal_onto :
    (fuel n : ℕ) (rest : Bytes) → n < fuel → digits 0 (decimal_onto fuel n rest) ≡ digits n rest
unfolding digits decimal_onto
digits-decimal_onto zero n rest h = elim h [ ]
digits-decimal_onto (suc fuel) n rest h = elim (Bool-cases (ltb n 10)) [
  | inl small ↦ rw small (ground arith)
  | inr large ↦ rw large (
      digits-decimal_onto fuel (n / 10) ((b'0' + n % 10) ∷ rest) (ground arith)
      ∙ ground (arith, ap (λ k. digits k rest) (ten n)))
]
  where
    ten : (k : ℕ) → k / 10 * 10 + (b'0' + k % 10 - b'0') ≡ k
    ten k = omega arith

-- Decimal digits come first.
decimal_onto-head :
    (fuel n : ℕ) (rest : Bytes)
    → n < fuel
    → (d : ℕ) × (ds : Bytes) × (decimal_onto fuel n rest ≡ d ∷ ds) × (b'0' ≤ d) × (d ≤ b'9')
unfolding decimal_onto
decimal_onto-head zero n rest h = elim h [ ]
decimal_onto-head (suc fuel) n rest h = elim (Bool-cases (ltb n 10)) [
  | inl small ↦ rw small (b'0' + n, rest, refl, omega arith, ground arith)
  | inr large ↦ rw large (decimal_onto-head fuel (n / 10) ((b'0' + n % 10) ∷ rest) (ground arith))
]

scan_decimal-decimal :
    (n : ℕ) (rest : Bytes)
    → scan_decimal (b' ' ∷ decimal_onto (suc n) n (b'\n' ∷ rest)) ≡ got n (b'\n' ∷ rest)
unfolding scan_decimal
scan_decimal-decimal n rest =
    let (d, ds, e, low, high) = decimal_onto-head (suc n) n (b'\n' ∷ rest) (omega arith) in
    let read = digits-decimal_onto (suc n) n (b'\n' ∷ rest) (omega arith) in
    let stops : digits n (b'\n' ∷ rest) ≡ (n, b'\n' ∷ rest) = unfold digits in refl in
    let all : digits 0 (d ∷ ds) ≡ (n, b'\n' ∷ rest) = sym (ap (digits 0) e) ∙ read ∙ stops in
    rw e (ground (arith, all))

-- A line that `Write` wrote is read back by the scanner's `Fscanf`: the same hash and the same
-- size, with the input left behind the line.
pub scan_line-write_line :
    (b : ℕ) (bs rest : Bytes) (size : ℕ)
    → All (λ c. c < 256) (b ∷ bs)
    → scan_line (write_line (b ∷ bs) size rest) ≡ line (b ∷ bs) size rest
unfolding scan_line write_line scan_newline
scan_line-write_line b bs rest size h =
    rw (scan_hex-hex b bs (decimal_onto (suc size) size (b'\n' ∷ rest)) h)
      (rw (scan_decimal-decimal size rest) refl)

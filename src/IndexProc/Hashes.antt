-- ===== src/IndexProc/Hashes.antt =====
-- checksum/checksum.go: the bytes of a hash, and the hash that they spell.
use native.Mathlib.Nat.{div-div-eq-div-mul, div-eq_of_lt, pow-suc}
use scat.Prelude.{
  ℕ, zero, suc, ◌+◌, ◌*◌, ◌/◌, ◌%◌, ◌^◌, ◌<◌, ◌≡◌, refl, sym, ap, ◌∙◌, some, arith, length, All,
}
use scat.Chunk.{Bytes}
use scat.Index.{hash_size, hash_number, load_slice}
use scat.IndexProc.{hash_bytes}

-- The hash after the largest one.
abbrev pub hash_end : ℕ
hash_end = 256 ^ 32

pow-pos : (n : ℕ) → 0 < 256 ^ n
pow-pos zero = omega arith
pow-pos (suc n) = omega (arith, pow-pos n)

hash_number-hash_bytes : (n h : ℕ) → hash_number (hash_bytes n h) (h / 256 ^ n) ≡ h
unfolding hash_number hash_bytes
hash_number-hash_bytes zero h = omega arith
hash_number-hash_bytes (suc n) h =
    let q = h / 256 ^ n in
    let next : h / 256 ^ suc n ≡ q / 256 =
      ap (λ m. h / m) (pow-suc 256 n) ∙ sym (div-div-eq-div-mul h (256 ^ n) 256) in
    let back : h / 256 ^ suc n * 256 + q % 256 ≡ q = omega (arith, next) in
    ap (hash_number (hash_bytes n h)) back ∙ hash_number-hash_bytes n h

length-hash_bytes : (n h : ℕ) → length (hash_bytes n h) ≡ n
unfolding hash_bytes
length-hash_bytes zero h = refl
length-hash_bytes (suc n) h = ap suc (length-hash_bytes n h)

pub hash_bytes-small : (n h : ℕ) → All (λ b. b < 256) (hash_bytes n h)
unfolding hash_bytes
hash_bytes-small zero h = tt
hash_bytes-small (suc n) h = (omega arith, hash_bytes-small n h)

load_slice-number : (bs : Bytes) → length bs ≡ hash_size → load_slice bs ≡ some (hash_number bs 0)
unfolding load_slice
load_slice-number bs e = ground (arith, e)

pub load_slice-hash_bytes : (h : ℕ) → h < hash_end → load_slice (hash_bytes hash_size h) ≡ some h
load_slice-hash_bytes h small =
    load_slice-number (hash_bytes hash_size h) (length-hash_bytes hash_size h)
    ∙ ap (λ a. some (hash_number (hash_bytes hash_size h) a)) (sym (div-eq_of_lt small))
    ∙ ap some (hash_number-hash_bytes hash_size h)

-- ===== src/Argparse.antt =====
-- The package argparse: parsers of proc strings, as functions from a string to a value, the
-- number of bytes used, or an error with a position.
--
-- Strings are lists of bytes; a rune is a byte, as in ASCII text. A parser's values have a type
-- here, where the code asserts one at run time.
pub mod Leaf
pub mod Lists
pub mod Brackets
pub mod Choice
pub mod Balance
pub mod Quoting
pub mod Piping
pub mod Messages
use scat.Prelude.{
  ℕ, suc, ◌≡◌, refl, ◌⊎◌, inl, inr, Bool, ◌&&◌, ◌||◌, Option, List, [], ◌∷◌, leb, ◌==◌,
  if◌then◌else◌,
}

abbrev pub Str : Type 0
Str = List ℕ

pub data ArgError : Type 0 where
  invalid_syntax too_many_args too_few_args unclosed_bracket : ArgError
  no_such_function : Str → ArgError
  other : ℕ → ArgError
  details : ArgError → Str → ℕ → ArgError

-- `no_return` marks a parser that would not return: it loops for ever, or panics on the type of a
-- value. `crashed` marks one whose callback panics on a value of the right type.
pub data Parsed {ℓ} (A : Type ℓ) : Type ℓ where
  ok : A → ℕ → Parsed A
  fail : ArgError → ℕ → Parsed A
  no_return crashed : Parsed A

-- What a `RunFn` does: it may also panic, where it asserts the types of its arguments
-- (`panicked`), or on their values (`crashes`).
pub data Ran (B : Type 0) : Type 0 where
  made : B → Ran B
  refused : ArgError → Ran B
  panicked crashes : Ran B

-- A `Parser`, with the `Empty` of an `EmptyParser` if it is one.
pub record Parser (A : Type 0) : Type 0 where
  pub parse : Str → Parsed A
  pub empty : Option A

-- `unicode.IsSpace` below 256.
abbrev pub is_space : ℕ → Bool
is_space c = c == b' ' || (leb 9 c && leb c 13) || c == 0x85 || c == 0xA0

unfoldable pub count_left_spaces : Str → ℕ
count_left_spaces [] = 0
count_left_spaces (c ∷ cs) = let n = count_left_spaces cs in if is_space c then suc n else 0

unfoldable pub space_end_index : Str → ℕ
space_end_index [] = 0
space_end_index (c ∷ cs) = let n = space_end_index cs in if is_space c then 0 else suc n

unfoldable pub original_err : ArgError → ArgError
original_err (details e s p) = original_err e
original_err e = e

pub Parsed-cases :
    {A : Type 0} (r : Parsed A)
    → ((v : A) × (n : ℕ) × (r ≡ ok v n))
      ⊎ ((e : ArgError) × (n : ℕ) × (r ≡ fail e n))
      ⊎ (r ≡ no_return)
      ⊎ (r ≡ crashed)
Parsed-cases (ok v n) = inl (v, n, refl)
Parsed-cases (fail e n) = inr (inl (e, n, refl))
Parsed-cases no_return = inr (inr (inl refl))
Parsed-cases crashed = inr (inr (inr refl))

pub Ran-cases :
    {B : Type 0} (r : Ran B)
    → ((v : B) × (r ≡ made v)) ⊎ ((e : ArgError) × (r ≡ refused e)) ⊎ (r ≡ panicked) ⊎ (r ≡ crashes)
Ran-cases (made v) = inl (v, refl)
Ran-cases (refused e) = inr (inl (e, refl))
Ran-cases panicked = inr (inr (inl refl))
Ran-cases crashes = inr (inr (inr refl))

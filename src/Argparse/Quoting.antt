-- ===== src/Argparse/Quoting.antt =====
-- argparse/str.go: quoted arguments.
use scat.Prelude.{
  ℕ, ◌+◌, ◌≡◌, ap, ◌≢◌, true, some, [], ◌∷◌, ◌++◌, append-nil, append_assoc, arith, length,
  length-append, All,
}
use scat.Argparse.{Str, ok}
use scat.Argparse.Leaf.{quote, quoted, ends_arg, parse_str}

-- A string with no quote in it, and what the shell-like spelling of it is.
abbrev pub Plain : Str → Type 0
Plain = All (λ c. c ≢ quote)

abbrev pub quote_str : Str → Str
quote_str s = quote ∷ (s ++ quote ∷ [])

quoted-Plain :
    (s rest acc : Str) (n : ℕ)
    → Plain s
    → ends_arg rest ≡ true
    → quoted (s ++ quote ∷ rest) acc n ≡ some (acc ++ s, n + length s + 1)
unfolding quoted
quoted-Plain [] rest acc n p e = rw (e, append-nil) (ap some (ap (λ k. (acc, k)) (omega arith)))
quoted-Plain (c ∷ s) rest acc n p e =
    ground
      (arith, p.0, quoted-Plain s rest (acc ++ c ∷ []) (n + 1) p.1 e, append_assoc acc (c ∷ []) s)

-- A string that has no quote in it, between quotes and followed by a space or the end of the
-- input, is read back as it was, its spaces included, and nothing behind it is used.
pub parse_str-quote_str :
    (s rest : Str)
    → Plain s
    → ends_arg rest ≡ true
    → parse_str (quote_str s ++ rest) ≡ ok s (length (quote_str s))
unfolding parse_str
parse_str-quote_str s rest p e =
    let found : quoted (s ++ quote ∷ rest) [] 1 ≡ some (s, 1 + length s + 1) =
      quoted-Plain s rest [] 1 p e in
    ground (arith, found, append_assoc s (quote ∷ []) rest, length-append s (quote ∷ []))

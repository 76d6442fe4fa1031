-- ===== src/Argparse/Leaf.antt =====
-- argparse/str.go, int.go, bytes.go and filter.go: the parsers of single arguments.
use scat.Prelude.{
  ℕ, zero, suc, ◌+◌, ◌-◌, ◌*◌, ◌^◌, ◌⊎◌, inl, inr, Bool, true, false, not, ◌&&◌, Option, none, some,
  [], ◌∷◌, ◌++◌, ltb, leb, ◌==◌, if◌then◌else◌, ℤ, pos, negsuc, take,
}
use scat.Argparse.{
  Str, ArgError, invalid_syntax, other, Parsed, ok, fail, no_return, crashed, Parser, is_space,
  space_end_index,
}

abbrev pub quote : ℕ
quote = b'"'

unfoldable pub space_only_parse : Str → Parsed Str
space_only_parse s = ok (take (space_end_index s) s) (space_end_index s)

-- A space or the end of the input.
abbrev pub ends_arg : Str → Bool
ends_arg [] = true
ends_arg (c ∷ cs) = is_space c

-- From behind the opening quote: what was collected and consumed up to the closing one, unless
-- that is missing or followed by something other than space.
unfoldable pub quoted : Str → Str → ℕ → Option (Str × ℕ)
quoted [] collected consumed = none
quoted (c ∷ cs) collected consumed =
    let rest = quoted cs (collected ++ c ∷ []) (consumed + 1) in
    if c == quote then (if ends_arg cs then some (collected, consumed + 1) else none) else rest

unfoldable pub parse_str : Str → Parsed Str
unfolding quoted space_only_parse
parse_str [] = ok [] 0
parse_str (c ∷ cs) =
    if not (c == quote)
    then space_only_parse (c ∷ cs)
    else elim (quoted cs [] 1) [ none ↦ space_only_parse (c ∷ cs) | some (s, n) ↦ ok s n ]

abbrev pub arg_str : Parser Str
arg_str = record { parse = parse_str; empty = none }

-- `strconv.Atoi` on a 64-bit platform: an optional sign and decimal digits within the range.
abbrev digit? : ℕ → Bool
digit? c = leb b'0' c && leb c b'9'

unfoldable pub digits : Str → ℕ → Option ℕ
digits [] acc = some acc
digits (c ∷ cs) acc =
    let rest = digits cs (acc * 10 + (c - b'0')) in if digit? c then rest else none

abbrev unsigned : Str → Option ℕ
unsigned [] = none
unsigned (c ∷ cs) = digits (c ∷ cs) 0

abbrev in_range : Bool → Option ℕ → Option ℤ
in_range minus none = none
in_range true (some zero) = some (pos 0)
in_range true (some (suc n)) = if ltb n (2 ^ 63) then some (negsuc n) else none
in_range false (some n) = if ltb n (2 ^ 63) then some (pos n) else none

unfoldable pub atoi : Str → Option ℤ
unfolding digits
atoi [] = none
atoi (c ∷ cs) =
    if c == b'-'
    then in_range true (unsigned cs)
    else if c == b'+'
    then in_range false (unsigned cs)
    else in_range false (unsigned (c ∷ cs))

-- The error of `Atoi` is passed on as it is: `other 0`.
unfoldable pub parse_int : Str → Parsed ℤ
unfolding atoi
parse_int s = elim (atoi (take (space_end_index s) s)) [
  | none ↦ fail (other 0) (space_end_index s)
  | some n ↦ ok n (space_end_index s)
]

abbrev pub arg_int : Parser ℤ
arg_int = record { parse = parse_int; empty = none }

-- What `humanize.ParseBytes` returns: a number, a syntax error of strconv, or another error.
pub data BytesResult : Type 0 where
  parsed : ℕ → BytesResult
  bad_syntax : BytesResult
  bad_value : ℕ → BytesResult

abbrev bytes_result : BytesResult → ℕ → Parsed ℕ
bytes_result (parsed n) i = ok n i
bytes_result bad_syntax i = fail invalid_syntax i
bytes_result (bad_value e) i = fail (other e) i

unfoldable pub parse_bytes : (Str → BytesResult) → Str → Parsed ℕ
parse_bytes humanize s = bytes_result (humanize (take (space_end_index s) s)) (space_end_index s)

abbrev filtered : {A B : Type 0} → (A → B ⊎ ArgError) → Parsed A → Parsed B
filtered f (ok v n) = elim (f v) [ inl w ↦ ok w n | inr e ↦ fail e n ]
filtered f (fail e n) = fail e n
filtered f no_return = no_return
filtered f crashed = crashed

unfoldable pub arg_filter : {A B : Type 0} → Parser A → (A → B ⊎ ArgError) → Parser B
arg_filter p f = record { parse = λ s. filtered f (p.parse s); empty = none }

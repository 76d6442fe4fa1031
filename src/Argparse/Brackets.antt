-- ===== src/Argparse/Brackets.antt =====
-- argparse/lambda.go and fn.go: arguments in brackets, and calls by name.
use scat.Prelude.{
  ℕ, suc, ◌+◌, ◌-◌, Bool, true, false, not, ◌&&◌, ◌||◌, Option, none, some, List, [], ◌∷◌, ◌++◌,
  ltb, leb, ◌==◌, if◌then◌else◌, length, take, drop,
}
use scat.Argparse.{
  Ran, made, refused, panicked, crashes, Str, invalid_syntax, unclosed_bracket, no_such_function,
  details, Parsed, ok, fail, no_return, crashed, Parser, count_left_spaces,
}
use scat.Argparse.Lists.{Brackets}

abbrev pub lambda_brackets : Brackets
lambda_brackets = record { opening = b'('; closing = b')' }

-- The index of the bracket that closes `nest` open ones.
unfoldable pub close_index : Brackets → ℕ → Str → Option ℕ
close_index b nest [] = none
close_index b nest (c ∷ cs) =
    let later =
      close_index b (if c == b.opening then suc nest else if c == b.closing then nest - 1 else nest)
        cs in
    if not (c == b.opening) && (c == b.closing && nest == 1)
    then some 0
    else elim later [ none ↦ none | some i ↦ some (suc i) ]

module _ {A B : Type 0} (b : Brackets) (args : Parser (List A)) (run : List A → Ran B) where
  -- The arguments between the brackets; their error comes with position 0.
  abbrev pub run_args : Str → ℕ → Parsed B
  run_args body i = elim (args.parse body) [
    | ok vs n ↦ elim (run vs) [
      | made v ↦ ok v (i + 2)
      | refused e ↦ fail e (i + 2)
      | panicked ↦ no_return
      | crashes ↦ crashed
    ]
    | fail e n ↦ fail e 0
    | no_return ↦ no_return
    | crashed ↦ crashed
  ]

  unfoldable pub parse_lambda : Str → Parsed B
  parse_lambda [] = fail invalid_syntax 0
  parse_lambda (c ∷ cs) =
      if ltb (length (c ∷ cs)) 2 || not (c == b.opening)
      then fail invalid_syntax 0
      else elim (close_index b 1 cs) [
        | none ↦ fail unclosed_bracket 0
        | some i ↦ run_args (take i cs) i
      ]

  unfoldable pub arg_lambda : Parser B
  arg_lambda = record { parse = parse_lambda; empty = none }

-- `\w`
abbrev is_word : ℕ → Bool
is_word c =
    (leb b'a' c && leb c b'z')
    || (leb b'A' c && leb c b'Z')
    || (leb b'0' c && leb c b'9')
    || c == b'_'

unfoldable pub word_length : Str → ℕ
word_length [] = 0
word_length (c ∷ cs) = let n = word_length cs in if is_word c then suc n else 0

-- The index of the last byte of that kind.
unfoldable pub last_index : ℕ → Str → Option ℕ
last_index k [] = none
last_index k (c ∷ cs) = elim (last_index k cs) [
  | some i ↦ some (suc i)
  | none ↦ if c == k then some 0 else none
]

-- The second group of `fnRe` behind the name: from the bracket to the last closing one.
unfoldable pub bracketed : Str → Str
unfolding last_index
bracketed [] = []
bracketed (c ∷ cs) =
    if c == b'('
    then elim (last_index b')' cs) [ none ↦ [] | some i ↦ take (i + 2) (c ∷ cs) ]
    else []

unfoldable pub str_eq : Str → Str → Bool
str_eq [] [] = true
str_eq (x ∷ xs) (y ∷ ys) = x == y && str_eq xs ys
str_eq _ _ = false

-- Where no brackets follow the name, the rest of the string is put into brackets.
abbrev pub wrapped : Str → Str
wrapped rest = b'(' ∷ (rest ++ b')' ∷ [])

module _ {A : Type 0} where
  unfoldable pub find_fn : Str → List (Str × Parser A) → Option (Parser A)
  unfolding str_eq
  find_fn name [] = none
  find_fn name ((k, p) ∷ fns) = if str_eq k name then some p else find_fn name fns

  abbrev pub called : Str → ℕ → ℕ → Parsed A → Parsed A
  called str start back (ok v n) = ok v (start + n - back)
  called str start back (fail e n) = fail (details e str (start + n)) (start + n)
  called str start back no_return = no_return
  called str start back crashed = crashed

  abbrev pub call : Str → ℕ → Str → Parser A → Parsed A
  call str name_len [] p =
      let start = name_len + count_left_spaces (drop name_len str) in
      called str start 2 (p.parse (wrapped (drop start str)))
  call str name_len (c ∷ cs) p = called str name_len 0 (p.parse (c ∷ cs))

  unfoldable pub parse_fn : List (Str × Parser A) → Str → Parsed A
  unfolding find_fn bracketed word_length
  parse_fn fns str =
      let n = word_length str in
      if n == 0 then fail invalid_syntax 0 else elim (find_fn (take n str) fns) [
        | none ↦ fail (no_such_function (take n str)) 0
        | some p ↦ call str n (bracketed (drop n str)) p
      ]

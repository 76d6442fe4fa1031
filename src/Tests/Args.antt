-- ===== src/Tests/Args.antt =====
-- argparse/: the theorems at short command lines.
use scat.Prelude.{ℕ, ◌≡◌, refl, ◌≢◌, none, List, [], ◌∷◌, ◌++◌, arith, length}
use scat.Argparse.{Ran, made, Str, Parsed, Parser, ok, fail, no_return, invalid_syntax}
use scat.Argparse.Leaf.{parse_str}
use scat.Argparse.Brackets.{lambda_brackets, run_args, parse_lambda}
use scat.Argparse.Balance.{IsBalanced, Held, parse_lambda-IsBalanced}
use scat.Argparse.Quoting.{quote_str, parse_str-quote_str}

-- One character.
abbrev one_parse : Str → Parsed ℕ
one_parse [] = fail invalid_syntax 0
one_parse (c ∷ cs) = ok c 1

abbrev one : Parser ℕ
one = record { parse = one_parse; empty = none }

one-returns : (s : Str) → one_parse s ≢ no_return
one-returns [] = λ e. cc
one-returns (c ∷ cs) = λ e. cc

abbrev spaced : Str
spaced = b'a' ∷ b' ' ∷ []

parse_str-quote_str_example :
    parse_str (quote_str spaced ++ b' ' ∷ []) ≡ ok spaced (length (quote_str spaced))
parse_str-quote_str_example =
    parse_str-quote_str spaced (b' ' ∷ [])
      (λ e. absurd (omega arith), (λ e. absurd (omega arith), tt)) refl

abbrev body_parse : Str → Parsed (List ℕ)
body_parse s = ok s (length s)

abbrev body_args : Parser (List ℕ)
body_args = record { parse = body_parse; empty = none }

abbrev counted : List ℕ → Ran ℕ
counted cs = made (length cs)

parse_lambda-IsBalanced_example :
    ((body rest : Str)
      → IsBalanced lambda_brackets body
      → parse_lambda lambda_brackets body_args counted
          (lambda_brackets.opening ∷ (body ++ lambda_brackets.closing ∷ rest))
        ≡ run_args lambda_brackets body_args counted body (length body))
    × ((str : Str) (v n : ℕ)
        → parse_lambda lambda_brackets body_args counted str ≡ ok v n
        → Held lambda_brackets body_args counted str v n)
parse_lambda-IsBalanced_example =
    parse_lambda-IsBalanced lambda_brackets body_args counted (λ e. absurd (omega arith))

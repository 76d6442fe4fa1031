-- ===== src/Argparse/Lists.antt =====
-- argparse/args.go, variadic.go and piped.go: the parsers of several arguments.
use scat.Prelude.{
  ℕ, zero, suc, ◌+◌, true, false, not, ◌&&◌, Option, none, some, List, [], ◌∷◌, ◌++◌, leb, ◌==◌,
  if◌then◌else◌, length, take, drop,
}
use scat.Argparse.{
  Str, too_many_args, too_few_args, details, Parsed, ok, fail, no_return, crashed, Parser,
  count_left_spaces,
}

module _ {A : Type 0} where
  -- Behind the last argument only space may follow.
  abbrev args_end : Str → ℕ → List A → Parsed (List A)
  args_end str start values =
      let p = start + count_left_spaces (drop start str) in
      if not (p == length str) then fail too_many_args p else ok values p

  -- The rest of the arguments from a position, with the values so far.
  unfoldable pub args_from : List (Parser A) → Str → ℕ → List A → Parsed (List A)
  args_from [] str start values = args_end str start values
  args_from (arg ∷ args) str start values =
      let p = start + count_left_spaces (drop start str) in
      if leb (length str) p
      then elim arg.empty [
        | none ↦ fail too_few_args p
        | some val ↦ args_from args str p (values ++ val ∷ [])
      ]
      else elim (arg.parse (drop p str)) [
        | ok val n ↦ args_from args str (p + n) (values ++ val ∷ [])
        | fail e n ↦ fail (details e str (p + n)) (p + n)
        | no_return ↦ no_return
        | crashed ↦ crashed
      ]

  unfoldable pub arg_args : List (Parser A) → Parser (List A)
  arg_args args = record { parse = λ str. args_from args str 0 []; empty = none }

  unfoldable pub variadic_from : ℕ → Parser A → Str → ℕ → List A → Parsed (List A)
  variadic_from zero arg str start values = no_return
  variadic_from (suc fuel) arg str start values =
      let p = start + count_left_spaces (drop start str) in
      elim (leb (length str) p) [
        | true ↦ ok values p
        | false ↦ elim (arg.parse (drop p str)) [
          | ok val n ↦ variadic_from fuel arg str (p + n) (values ++ val ∷ [])
          | fail e n ↦ fail (details e str (p + n)) (p + n)
          | no_return ↦ no_return
          | crashed ↦ crashed
        ]
      ]

  unfoldable pub arg_variadic : Parser A → Parser (List A)
  unfolding variadic_from
  arg_variadic arg = record {
    parse = λ str. variadic_from (suc (length str)) arg str 0 [];
    empty = some [];
  }

-- A pair of brackets that may be missing: `noBrackets`.
pub record Brackets : Type 0 where
  pub opening : ℕ
  pub closing : ℕ

abbrev pub pipe : ℕ
pipe = b'|'

-- The index of the first pipe at nesting level 0; `opened` and `closed` count the brackets, as
-- the level may go below 0.
unfoldable pub pipe_index : Option Brackets → ℕ → ℕ → Str → Option ℕ
pipe_index none opened closed [] = none
pipe_index none opened closed (c ∷ cs) =
    let later = pipe_index none opened closed cs in
    if c == pipe then some 0 else elim later [ none ↦ none | some i ↦ some (suc i) ]
pipe_index (some b) opened closed [] = none
pipe_index (some b) opened closed (c ∷ cs) =
    let later =
      pipe_index (some b) (if c == b.opening then suc opened else opened)
        (if not (c == b.opening) && c == b.closing then suc closed else closed) cs in
    if not (c == b.opening) && (not (c == b.closing) && (c == pipe && opened == closed))
    then some 0
    else elim later [ none ↦ none | some i ↦ some (suc i) ]

-- The text of one piped argument, and how far the next one is.
abbrev pub piped_arg : Option Brackets → Str → Str × ℕ
piped_arg nest s = elim (pipe_index nest 0 0 s) [
  | none ↦ (s, length s)
  | some i ↦ (take i s, length (take i s) + 1)
]

module _ {A : Type 0} (nest : Option Brackets) where
  unfoldable pub piped_from : ℕ → Parser A → Str → ℕ → List A → Parsed (List A)
  piped_from zero arg str start values = no_return
  piped_from (suc fuel) arg str start values =
      let p = start + count_left_spaces (drop start str) in
      let part = piped_arg nest (drop p str) in
      elim (leb (length str) p) [
        | true ↦ ok values p
        | false ↦ elim (arg.parse part.0) [
          | ok val n ↦ piped_from fuel arg str (p + part.1) (values ++ val ∷ [])
          | fail e n ↦ fail (details e str (p + n)) p
          | no_return ↦ no_return
          | crashed ↦ crashed
        ]
      ]

  unfoldable pub arg_piped : Parser A → Parser (List A)
  unfolding piped_from
  arg_piped arg = record { parse = λ str. piped_from (suc (length str)) arg str 0 []; empty = none }

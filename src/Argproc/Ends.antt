-- ===== src/Argproc/Ends.antt =====
-- argparse/: when the parsers of calls return, given when those inside them do.
use scat.Prelude.{
  ℕ, suc, ◌+◌, ◌≤◌, ◌≡◌, refl, sym, ap, ◌∙◌, subst, ◌≢◌, ◌⊎◌, inl, inr, true, false, not, ◌||◌,
  none, some, List, [], ◌∷◌, ◌++◌, arith, ltb, leb, ◌==◌, Bool-cases, Option-cases, Sum-cases,
  length, take, drop, length-append, length-take, length-drop, All,
}
use scat.Argparse.{
  Ran, panicked, Ran-cases, Str, ArgError, Parsed, ok, fail, no_return, crashed, Parser,
  count_left_spaces, Parsed-cases,
}
use scat.Argparse.Leaf.{arg_filter}
use scat.Argparse.Lists.{args_from, arg_args, Brackets}
use scat.Argparse.Brackets.{
  close_index, run_args, parse_lambda, arg_lambda, word_length, bracketed, str_eq, find_fn,
  parse_fn, called, call, wrapped, last_index,
}
use scat.Argparse.Choice.{parse_or, passes_on}
use scat.Argproc.Args.{Val, boxed}

-- The parser returns on texts up to this length.
abbrev pub Within : {A : Type 0} → ℕ → Parser A → Type 0
Within k p = (s : Str) → length s ≤ k → p.parse s ≢ no_return

-- The parser returns.
abbrev pub Ends : {A : Type 0} → Parser A → Type 0
Ends p = (s : Str) → p.parse s ≢ no_return

pub boxed-Within :
    {A : Type 0} (f : A → Val) (k : ℕ) (p : Parser A) → Within k p → Within k (boxed f p)
boxed-Within f k p h s short e = elim (Parsed-cases (p.parse s)) [
  | inl (v, n, r) ↦ absurd (ground arith)
  | inr (inl (x, n, r)) ↦ absurd (ground arith)
  | inr (inr (inr crash)) ↦ absurd (ground arith)
  | inr (inr (inl r)) ↦ h s short r
]

pub arg_filter-Within :
    {A B : Type 0} (k : ℕ) (p : Parser A) (f : A → B ⊎ ArgError)
    → Within k p
    → Within k (arg_filter p f)
unfolding arg_filter
arg_filter-Within k p f h s short e = elim (Parsed-cases (p.parse s)) [
  | inl (v, n, r) ↦ elim (Sum-cases (f v)) [
    | inl (w, made_it) ↦ absurd (ground arith)
    | inr (x, refuses) ↦ absurd (ground arith)
  ]
  | inr (inl (x, n, r)) ↦ absurd (ground arith)
  | inr (inr (inr crash)) ↦ absurd (ground arith)
  | inr (inr (inl r)) ↦ h s short r
]

args_from-Within :
    (k : ℕ) (args : List (Parser Val)) (str : Str) (start : ℕ) (vs : List Val)
    → All (Within k) args
    → length str ≤ k
    → args_from args str start vs ≢ no_return
unfolding args_from
args_from-Within k [] str start vs h short e =
    let p = start + count_left_spaces (drop start str) in
    elim (Bool-cases (p == length str)) [
      | inl all ↦ absurd (ground arith)
      | inr more ↦ absurd (ground arith)
    ]
args_from-Within k (p ∷ ps) str start vs h short e =
    let at = start + count_left_spaces (drop start str) in
    elim (Bool-cases (leb (length str) at)) [
      | inl over ↦ elim (Option-cases p.empty) [
        | inl none_there ↦ absurd (ground arith)
        | inr (v, there) ↦
            let steps : args_from (p ∷ ps) str start vs ≡ args_from ps str at (vs ++ v ∷ []) =
              rw (over, there, args_from) refl in
            args_from-Within k ps str at (vs ++ v ∷ []) h.1 short (sym steps ∙ e)
      ]
      | inr more ↦ elim (Parsed-cases (p.parse (drop at str))) [
        | inl (v, n, r) ↦
            let steps : args_from (p ∷ ps) str start vs ≡ args_from ps str (at + n) (vs ++ v ∷ []) =
              rw (more, r, args_from) refl in
            args_from-Within k ps str (at + n) (vs ++ v ∷ []) h.1 short (sym steps ∙ e)
        | inr (inl (x, n, r)) ↦ absurd (ground arith)
        | inr (inr (inr crash)) ↦ absurd (ground arith)
        | inr (inr (inl r)) ↦ h.0 (drop at str) (omega (arith, short, length-drop at str)) r
      ]
    ]

-- The call does not panic on what its arguments' parser makes.
abbrev pub Accepts : {A B : Type 0} → Parser (List A) → (List A → Ran B) → Type 0
Accepts {A = A} args run =
    (s : Str) (vs : List A) (n : ℕ) → args.parse s ≡ ok vs n → run vs ≢ panicked

run_args-returns :
    {A B : Type 0} (b : Brackets) (args : Parser (List A)) (run : List A → Ran B) (body : Str)
    (i : ℕ)
    → args.parse body ≢ no_return
    → Accepts args run
    → run_args b args run body i ≢ no_return
run_args-returns b args run body i h accepts e = elim (Parsed-cases (args.parse body)) [
  | inr (inr (inr crash)) ↦ absurd (ground arith)
  | inr (inr (inl r)) ↦ h r
  | inr (inl (x, n, r)) ↦ absurd (ground arith)
  | inl (v, n, r) ↦ elim (Ran-cases (run v)) [
    | inl (w, made_it) ↦ absurd (ground arith)
    | inr (inl (x, refuses)) ↦ absurd (ground arith)
    | inr (inr (inr crash)) ↦ absurd (ground arith)
    | inr (inr (inl panics)) ↦ accepts body v n r panics
  ]
]

pub lambda-Within :
    {A B : Type 0} (k : ℕ) (b : Brackets) (args : Parser (List A)) (run : List A → Ran B)
    → Within k args
    → Accepts args run
    → Within (suc k) (arg_lambda b args run)
unfolding arg_lambda parse_lambda
lambda-Within k b args run h accepts [] short e = absurd (ground arith)
lambda-Within k b args run h accepts (c ∷ cs) short e =
    elim (Bool-cases (ltb (length (c ∷ cs)) 2 || not (c == b.opening))) [
      | inl bad ↦ absurd (ground arith)
      | inr opened ↦ elim (Option-cases (close_index b 1 cs)) [
        | inl unclosed ↦ absurd (ground arith)
        | inr (i, closes) ↦
            let steps : parse_lambda b args run (c ∷ cs) ≡ run_args b args run (take i cs) i =
              rw (opened, closes, parse_lambda) refl in
            run_args-returns b args run (take i cs) i
              (h (take i cs) (omega (arith, short, length-take i cs))) accepts (sym steps ∙ e)
      ]
    ]

pub arg_args-Within :
    (k : ℕ) (args : List (Parser Val)) → All (Within k) args → Within k (arg_args args)
unfolding arg_args
arg_args-Within k args h s short = args_from-Within k args s 0 [] h short

pub parse_or-Within :
    {A : Type 0} (k : ℕ) (p q : Parser A) (s : Str)
    → Within k p
    → Within k q
    → length s ≤ k
    → parse_or p (q ∷ []) s ≢ no_return
unfolding parse_or
parse_or-Within k p q s h g short e = elim (Bool-cases (passes_on (p.parse s))) [
  | inl on ↦ g s short (ground arith)
  | inr off ↦ h s short (ground arith)
]

-- A function's parser returns on texts that are so long at most with its name, where two brackets
-- may have been added.
abbrev pub FnWithin : {A : Type 0} → ℕ → Str × Parser A → Type 0
FnWithin k e = (s : Str) → length s + length e.0 ≤ k + 2 → e.1.parse s ≢ no_return

abbrev pub FnsWithin : {A : Type 0} → ℕ → List (Str × Parser A) → Type 0
FnsWithin k fns = All (FnWithin k) fns

str_eq-length : (a b : Str) → str_eq a b ≡ true → length a ≡ length b
unfolding str_eq
str_eq-length [] [] e = refl
str_eq-length [] (y ∷ b) e = absurd (ground arith)
str_eq-length (x ∷ a) [] e = absurd (ground arith)
str_eq-length (x ∷ a) (y ∷ b) e = omega (arith, str_eq-length a b (ground arith))

find_fn-Within :
    {A : Type 0} (k : ℕ) (fns : List (Str × Parser A)) (name : Str) (p : Parser A)
    → FnsWithin k fns
    → find_fn name fns ≡ some p
    → (s : Str) → length s + length name ≤ k + 2
    → p.parse s ≢ no_return
unfolding find_fn
find_fn-Within k [] name p h e s short = absurd (ground arith)
find_fn-Within k ((n, q) ∷ fns) name p h e s short = elim (Bool-cases (str_eq n name)) [
  | inl same ↦
      let here : find_fn name ((n, q) ∷ fns) ≡ some q = rw (same, find_fn) refl in
      let found : q ≡ p = ap (λ o. elim o [ none ↦ q | some x ↦ x ]) (sym here ∙ e) in
      let size = str_eq-length n name same in
      subst (λ r. r.parse s ≢ no_return) found (h.0 s (omega (arith, size, short)))
  | inr other ↦ find_fn-Within k fns name p h.1 (rest other) s short
]
  where
    rest : str_eq n name ≡ false → find_fn name fns ≡ some p
    rest other =
        let there : find_fn name ((n, q) ∷ fns) ≡ find_fn name fns = rw (other, find_fn) refl in
        sym there ∙ e

word_length-le : (s : Str) → word_length s ≤ length s
unfolding word_length
word_length-le [] = omega arith
word_length-le (c ∷ s) = ground (arith, word_length-le s)

length-bracketed : (s : Str) → length (bracketed s) ≤ length s
unfolding bracketed
length-bracketed [] = omega arith
length-bracketed (c ∷ cs) = elim (Option-cases (last_index b')' cs)) [
  | inl none_there ↦ ground arith
  | inr (i, there) ↦ ground (arith, length-take (i + 2) (c ∷ cs))
]

called-returns :
    {A : Type 0} (str : Str) (start back : ℕ) (r : Parsed A)
    → r ≢ no_return
    → called str start back r ≢ no_return
called-returns str start back (ok v n) h e = absurd (ground arith)
called-returns str start back (fail x n) h e = absurd (ground arith)
called-returns str start back no_return h e = h refl
called-returns str start back crashed h e = absurd (ground arith)

call-returns :
    {A : Type 0} (k : ℕ) (str : Str) (n : ℕ) (rest : Str) (p : Parser A)
    → ((s : Str) → length s + n ≤ k + 2 → p.parse s ≢ no_return)
    → n ≤ length str
    → length str ≤ k
    → length rest + n ≤ length str
    → call str n rest p ≢ no_return
call-returns k str n [] p h named short fits =
    let start = n + count_left_spaces (drop n str) in
    let rest = drop start str in
    called-returns str start 2 (p.parse (wrapped rest)) (
      h (wrapped rest)
        (omega (arith, short, named, length-drop start str, length-append rest (b')' ∷ []))))
call-returns k str n (c ∷ cs) p h named short fits =
    called-returns str n 0 (p.parse (c ∷ cs)) (h (c ∷ cs) (omega (arith, fits, short)))

pub parse_fn-Within :
    {A : Type 0} (k : ℕ) (fns : List (Str × Parser A)) (s : Str)
    → FnsWithin k fns
    → length s ≤ k
    → parse_fn fns s ≢ no_return
unfolding parse_fn
parse_fn-Within k fns s h short e =
    let n = word_length s in
    elim (Bool-cases (n == 0)) [
      | inl unnamed ↦ absurd (ground arith)
      | inr named ↦ elim (Option-cases (find_fn (take n s) fns)) [
        | inl unknown ↦ absurd (ground arith)
        | inr (p, found) ↦
            let steps : parse_fn fns s ≡ call s n (bracketed (drop n s)) p =
              rw (named, found, parse_fn) refl in
            let size : length (take n s) ≡ n = omega (arith, length-take n s, word_length-le s) in
            call-returns k s n (bracketed (drop n s)) p
              (λ t fits. find_fn-Within k fns (take n s) p h found t (omega (arith, fits, size)))
              (word_length-le s) short
              (omega (arith, length-bracketed (drop n s), length-drop n s, word_length-le s))
              (sym steps ∙ e)
      ]
    ]

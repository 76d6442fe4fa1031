-- ===== src/Argproc/Leaves.antt =====
-- argproc/argproc.go: the parsers of arguments and pairs return, and what they use.
use scat.Prelude.{
  ℕ, ◌+◌, ◌≤◌, ◌<◌, ◌≡◌, refl, sym, ◌∙◌, ◌≢◌, ◌⊎◌, inl, inr, Bool, some, List, [], ◌∷◌, ◌++◌, arith,
  ◌==◌, if◌then◌else◌, Bool-cases, Option-cases, Sum-cases, length, take, drop, All,
}
use scat.Argparse.{
  Ran, panicked, Str, ArgError, ok, no_return, Parser, count_left_spaces, space_end_index, is_space,
  Parsed-cases,
}
use scat.Argparse.Leaf.{
  arg_str, arg_int, parse_str, parse_int, parse_bytes, arg_filter, quoted, space_only_parse, quote,
}
use scat.Argparse.Lists.{arg_variadic}
use scat.Argparse.Brackets.{parse_fn}
use scat.Argparse.Choice.{parse_pair, sep_index, pair_right}
use scat.Argparse.Piping.{arg_variadic-total}
use scat.Argproc.{Outside}
use scat.Argproc.Args.{Val, boxed, arg_bytes, an_int, a_str, ints, strs, arg_call}
use scat.Argproc.Typed.{
  Kind, MakeAll, Typed, arg_args-Accepts, Makes, boxed-Makes, of_str, of_int, of_strs, of_ints,
}
use scat.Argproc.Ends.{
  Within, Ends, boxed-Within, arg_filter-Within, lambda-Within, arg_args-Within, FnsWithin,
  parse_fn-Within,
}

-- A parser uses something of any text that is not empty and has no space in front.
abbrev pub Moves : {A : Type 0} → Parser A → Type 0
Moves {A = A} p =
    (s : Str) (v : A) (n : ℕ) → p.parse s ≡ ok v n → count_left_spaces s ≡ 0 → 0 < length s → 0 < n

pub boxed-Ends : {A : Type 0} (f : A → Val) (p : Parser A) → Ends p → Ends (boxed f p)
boxed-Ends f p h s = boxed-Within f (length s) p (λ t short. h t) s (omega arith)

pub filter-Ends :
    {A B : Type 0} (p : Parser A) (f : A → B ⊎ ArgError) → Ends p → Ends (arg_filter p f)
filter-Ends p f h s = arg_filter-Within (length s) p f (λ t short. h t) s (omega arith)

All-Within : (k : ℕ) (args : List (Parser Val)) → All Ends args → All (Within k) args
All-Within k [] h = tt
All-Within k (p ∷ ps) h = ((λ s short. h.0 s), All-Within k ps h.1)

pub arg_call-Ends :
    {B : Type 0} (ks : List Kind) (args : List (Parser Val)) (run : List Val → Ran B)
    → All Ends args
    → MakeAll ks args
    → ((vs : List Val) → Typed ks vs → run vs ≢ panicked)
    → Ends (arg_call args run)
arg_call-Ends ks args run h makes fine s =
    lambda-Within (length s) _ _ run
      (arg_args-Within (length s) args (All-Within (length s) args h))
      (arg_args-Accepts ks args run makes fine) s (omega arith)

pub All-FnsWithin :
    {A : Type 0} (k : ℕ) (fns : List (Str × Parser A))
    → All (λ (e : Str × Parser A). Ends e.1) fns
    → FnsWithin k fns
All-FnsWithin k [] h = tt
All-FnsWithin k (f ∷ fns) h = ((λ s short. h.0 s), All-FnsWithin k fns h.1)

pub parse_fn-returns :
    {A : Type 0} (fns : List (Str × Parser A)) (s : Str)
    → All (λ (e : Str × Parser A). Ends e.1) fns
    → parse_fn fns s ≢ no_return
parse_fn-returns fns s h =
    parse_fn-Within (length s) fns s (All-FnsWithin (length s) fns h) (omega arith)

space_end_index-pos : (s : Str) → count_left_spaces s ≡ 0 → 0 < length s → 0 < space_end_index s
unfolding count_left_spaces space_end_index
space_end_index-pos [] h k = absurd (omega arith)
space_end_index-pos (c ∷ cs) h k = elim (Bool-cases (is_space c)) [
  | inl space ↦ absurd (ground arith)
  | inr letter ↦ ground arith
]

quoted-more :
    (s acc : Str) (used : ℕ) (t : Str) (n : ℕ) → quoted s acc used ≡ some (t, n) → used < n
unfolding quoted
quoted-more [] acc used t n e = absurd (ground arith)
quoted-more (c ∷ cs) acc used t n e = elim (Bool-cases (c == quote)) [
  | inl closes ↦ ground (arith, closes, e)
  | inr more ↦ omega (arith, quoted-more cs (acc ++ c ∷ []) (used + 1) t n (ground arith))
]

pub arg_str-Ends : Ends arg_str
unfolding parse_str space_only_parse
arg_str-Ends [] e = absurd (ground arith)
arg_str-Ends (c ∷ cs) e = absurd (ground arith)

pub arg_str-Moves : Moves arg_str
unfolding parse_str space_only_parse
arg_str-Moves [] v n e h k = absurd (omega arith)
arg_str-Moves (c ∷ cs) v n e h k =
    let size = space_end_index-pos (c ∷ cs) h k in
    elim (Option-cases (quoted cs [] 1)) [
      | inl plain ↦ ground arith
      | inr ((t, m), closed) ↦ ground (arith, quoted-more cs [] 1 t m closed)
    ]

arg_int-Ends : Ends arg_int
unfolding parse_int
arg_int-Ends s e = absurd (ground arith)

arg_int-Moves : Moves arg_int
unfolding parse_int
arg_int-Moves s v n e h k = ground (arith, space_end_index-pos s h k)

pub arg_bytes-Ends : (out : Outside) → Ends (arg_bytes out)
unfolding parse_bytes
arg_bytes-Ends out s e = absurd (ground arith)

module _ {A B C : Type 0} (pair : Bool) (left : Parser A) (right : Parser B)
    (run : A → B → C ⊎ ArgError) where
  pair_right-returns :
      Ends right → (s : Str) (i : ℕ) (l : A) → pair_right pair left right run s i l ≢ no_return
  pair_right-returns h s i l e = elim (Parsed-cases (right.parse (drop i s))) [
    | inr (inr (inr crash)) ↦ absurd (ground arith)
    | inr (inr (inl r)) ↦ h (drop i s) r
    | inr (inl (x, m, r)) ↦ absurd (ground arith)
    | inl (v, m, r) ↦ elim (Sum-cases (run l v)) [
      | inl (w, made_it) ↦ absurd (ground arith)
      | inr (x, refuses) ↦ absurd (ground arith)
    ]
  ]

  pair_right-forward :
      (s : Str) (i : ℕ) (l : A) (v : C) (n : ℕ)
      → pair_right pair left right run s i l ≡ ok v n
      → i ≤ n
  pair_right-forward s i l v n e = elim (Parsed-cases (right.parse (drop i s))) [
    | inr (inr (inr crash)) ↦ absurd (ground arith)
    | inr (inr (inl r)) ↦ absurd (ground arith)
    | inr (inl (x, m, r)) ↦ absurd (ground arith)
    | inl (u, m, r) ↦ elim (Sum-cases (run l u)) [
      | inl (w, made_it) ↦ ground (arith, made_it, r, e)
      | inr (x, refuses) ↦ absurd (ground arith)
    ]
  ]

  parse_pair-right :
      (s : Str) (i : ℕ) (l : A) (m : ℕ)
      → sep_index (if pair then 1 else 0) s ≡ some i
      → left.parse (take i s) ≡ ok l m
      → parse_pair pair left right run s ≡ pair_right pair left right run s (i + 1) l
  unfolding parse_pair
  parse_pair-right s i l m there r = rw (there, r, parse_pair) refl

  pub parse_pair-returns :
      Ends left → Ends right → (s : Str) → parse_pair pair left right run s ≢ no_return
  unfolding parse_pair
  parse_pair-returns g h s e = elim (Option-cases (sep_index (if pair then 1 else 0) s)) [
    | inl none_there ↦ absurd (ground arith)
    | inr (i, there) ↦ elim (Parsed-cases (left.parse (take i s))) [
      | inr (inr (inr crash)) ↦ absurd (ground arith)
      | inr (inr (inl r)) ↦ g (take i s) r
      | inr (inl (x, m, r)) ↦ absurd (ground arith)
      | inl (l, m, r) ↦
          pair_right-returns h s (i + 1) l (sym (parse_pair-right s i l m there r) ∙ e)
    ]
  ]

  pub parse_pair-forward :
      (s : Str) (v : C) (n : ℕ) → parse_pair pair left right run s ≡ ok v n → 0 < n
  unfolding parse_pair
  parse_pair-forward s v n e = elim (Option-cases (sep_index (if pair then 1 else 0) s)) [
    | inl none_there ↦ absurd (ground arith)
    | inr (i, there) ↦ elim (Parsed-cases (left.parse (take i s))) [
      | inr (inr (inr crash)) ↦ absurd (ground arith)
      | inr (inr (inl r)) ↦ absurd (ground arith)
      | inr (inl (x, m, r)) ↦ absurd (ground arith)
      | inl (l, m, r) ↦
          let past =
            pair_right-forward s (i + 1) l v n (sym (parse_pair-right s i l m there r) ∙ e) in
          omega (arith, past)
    ]
  ]

pub arg_filter-Moves :
    {A B : Type 0} (p : Parser A) (f : A → B ⊎ ArgError) → Moves p → Moves (arg_filter p f)
unfolding arg_filter
arg_filter-Moves p f m s v n e h k = elim (Parsed-cases (p.parse s)) [
  | inr (inr (inr crash)) ↦ absurd (ground arith)
  | inr (inr (inl r)) ↦ absurd (ground arith)
  | inr (inl (x, j, r)) ↦ absurd (ground arith)
  | inl (u, j, r) ↦ elim (Sum-cases (f u)) [
    | inl (w, made_it) ↦
        let size : j ≡ n = ground (arith, made_it, r, e) in omega (arith, size, m s u j r h k)
    | inr (x, refuses) ↦ absurd (ground arith)
  ]
]

pub variadic-Ends : {A : Type 0} (p : Parser A) → Ends p → Moves p → Ends (arg_variadic p)
variadic-Ends p h m s = arg_variadic-total p s h m

pub a_str-Ends : Ends a_str
a_str-Ends = boxed-Ends _ arg_str arg_str-Ends

pub an_int-Ends : Ends an_int
an_int-Ends = boxed-Ends _ arg_int arg_int-Ends

pub strs-Ends : Ends strs
strs-Ends = boxed-Ends _ (arg_variadic arg_str) (variadic-Ends arg_str arg_str-Ends arg_str-Moves)

pub ints-Ends : Ends ints
ints-Ends = boxed-Ends _ (arg_variadic arg_int) (variadic-Ends arg_int arg_int-Ends arg_int-Moves)

pub a_str-Makes : Makes of_str a_str
a_str-Makes = boxed-Makes of_str arg_str

pub an_int-Makes : Makes of_int an_int
an_int-Makes = boxed-Makes of_int arg_int

pub strs-Makes : Makes of_strs strs
strs-Makes = boxed-Makes of_strs (arg_variadic arg_str)

pub ints-Makes : Makes of_ints ints
ints-Makes = boxed-Makes of_ints (arg_variadic arg_int)

pub bytes-Ends : (out : Outside) (f : ℕ → Val) → Ends (boxed f (arg_bytes out))
bytes-Ends out f = boxed-Ends f (arg_bytes out) (arg_bytes-Ends out)

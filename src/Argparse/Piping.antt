-- ===== src/Argparse/Piping.antt =====
-- argparse/piped.go and variadic.go: the loops end.
use native.Mathlib.Nat.{zero-add, suc-add}
use scat.Prelude.{
  ℕ, zero, suc, ◌+◌, ◌≤◌, ◌<◌, ◌≡◌, refl, sym, ◌∙◌, ◌≢◌, inl, inr, Option, List, [], ◌∷◌, ◌++◌,
  arith, leb, Bool-cases, Option-cases, length, drop, length-take, length-drop,
}
use scat.Argparse.{
  Str, details, ok, fail, no_return, Parser, Parsed-cases, count_left_spaces, is_space,
}
use scat.Argparse.Lists.{
  pipe_index, Brackets, piped_arg, piped_from, arg_piped, variadic_from, arg_variadic,
}

length-piped_arg : (nest : Option Brackets) (s : Str) → 0 < length s → 0 < (piped_arg nest s).1
length-piped_arg nest s h = ground arith

piped_arg-le :
    (nest : Option Brackets) (s : Str) (k : ℕ) → length s ≤ k → length (piped_arg nest s).0 ≤ k
piped_arg-le nest s k h = elim (Option-cases (pipe_index nest 0 0 s)) [
  | inl none_there ↦ rw (none_there, piped_arg) h
  | inr (i, there) ↦ rw (there, piped_arg) (omega (arith, length-take i s))
]

drop_nil : (n : ℕ) → ◌≡◌ {A = Str} (drop n []) []
drop_nil zero = refl
drop_nil (suc n) = refl

no_spaces_left : (s : Str) → count_left_spaces (drop (count_left_spaces s) s) ≡ 0
unfolding count_left_spaces
no_spaces_left [] = refl
no_spaces_left (c ∷ cs) = elim (Bool-cases (is_space c)) [
  | inl space ↦ rw space (no_spaces_left cs)
  | inr other ↦ rw other (rw other refl)
]

drop-add : (m n : ℕ) (s : Str) → drop (m + n) s ≡ drop n (drop m s)
drop-add zero n s = rw zero-add refl
drop-add (suc m) n [] = drop_nil (suc m + n) ∙ sym (drop_nil n)
drop-add (suc m) n (c ∷ cs) = rw suc-add (drop-add m n cs)

-- Behind the spaces that are skipped there is no space.
drop-count_left_spaces :
    (str : Str) (start : ℕ)
    → count_left_spaces (drop (start + count_left_spaces (drop start str)) str) ≡ 0
drop-count_left_spaces str start =
    rw (drop-add start (count_left_spaces (drop start str)) str) (no_spaces_left (drop start str))

module _ {A : Type 0} (arg : Parser A) where
  piped_from-total :
      (nest : Option Brackets) (fuel : ℕ) (str : Str) (start : ℕ) (vs : List A)
      → ((s : Str) → length s ≤ length str → arg.parse s ≢ no_return)
      → length str < fuel + start
      → 0 < fuel
      → piped_from nest fuel arg str start vs ≢ no_return
  unfolding piped_from
  piped_from-total nest zero str start vs t h k = elim k [ ]
  piped_from-total nest (suc fuel) str start vs t h k =
      let p = start + count_left_spaces (drop start str) in
      let part = piped_arg nest (drop p str) in
      elim (Bool-cases (leb (length str) p)) [
        | inl over ↦
            let ends : piped_from nest (suc fuel) arg str start vs ≡ ok vs p =
              rw (over, piped_from) in
            λ e. cc
        | inr more ↦ elim (Parsed-cases (arg.parse part.0)) [
          | inr (inr (inr crash)) ↦ λ e. absurd (ground arith)
          | inr (inr (inl e)) ↦ absurd (
              t part.0
                (piped_arg-le nest (drop p str) (length str) (omega (arith, length-drop p str))) e)
          | inr (inl (e, n, failed)) ↦
              let fails : piped_from nest (suc fuel) arg str start vs
                  ≡ fail (details e str (p + n)) p =
                rw (more, failed, piped_from) in
              λ e. cc
          | inl (v, n, parsed) ↦
              let left : 0 < length (drop p str) = ground (arith, length-drop p str) in
              let forward = length-piped_arg nest (drop p str) left in
              let steps : piped_from nest (suc fuel) arg str start vs
                  ≡ piped_from nest fuel arg str (p + part.1) (vs ++ v ∷ []) =
                rw (more, parsed, piped_from) in
              λ e.
                (piped_from-total nest fuel str (p + part.1) (vs ++ v ∷ []) t
                    (omega (arith, forward)) (ground arith))
                  (sym steps ∙ e)
        ]
      ]

  variadic_from-total :
      (fuel : ℕ) (str : Str) (start : ℕ) (vs : List A)
      → ((s : Str) → arg.parse s ≢ no_return)
      → ((s : Str) (v : A) (n : ℕ)
          → arg.parse s ≡ ok v n
          → count_left_spaces s ≡ 0
          → 0 < length s
          → 0 < n)
      → length str < fuel + start
      → 0 < fuel
      → variadic_from fuel arg str start vs ≢ no_return
  unfolding variadic_from
  variadic_from-total zero str start vs t u h k = elim k [ ]
  variadic_from-total (suc fuel) str start vs t u h k =
      let p = start + count_left_spaces (drop start str) in
      elim (Bool-cases (leb (length str) p)) [
        | inl over ↦
            let ends : variadic_from (suc fuel) arg str start vs ≡ ok vs p =
              rw (over, variadic_from) in
            λ e. cc
        | inr more ↦ elim (Parsed-cases (arg.parse (drop p str))) [
          | inr (inr (inr crash)) ↦ λ e. absurd (ground arith)
          | inr (inr (inl e)) ↦ absurd (t (drop p str) e)
          | inr (inl (e, n, failed)) ↦
              let fails : variadic_from (suc fuel) arg str start vs
                  ≡ fail (details e str (p + n)) (p + n) =
                rw (more, failed, variadic_from) in
              λ e. cc
          | inl (v, n, parsed) ↦
              let left : 0 < length (drop p str) = ground (arith, length-drop p str) in
              let forward : 0 < n =
                u (drop p str) v n parsed (drop-count_left_spaces str start) left in
              let steps : variadic_from (suc fuel) arg str start vs
                  ≡ variadic_from fuel arg str (p + n) (vs ++ v ∷ []) =
                rw (more, parsed, variadic_from) in
              λ e.
                (variadic_from-total fuel str (p + n) (vs ++ v ∷ []) t u (omega (arith, forward))
                    (ground arith))
                  (sym steps ∙ e)
        ]
      ]

-- It is enough that the argument's parser returns on texts that are no longer.
pub arg_piped-total_shorter :
    {A : Type 0} (nest : Option Brackets) (arg : Parser A) (str : Str)
    → ((s : Str) → length s ≤ length str → arg.parse s ≢ no_return)
    → (arg_piped nest arg).parse str ≢ no_return
unfolding arg_piped
arg_piped-total_shorter nest arg str t =
    piped_from-total arg nest (suc (length str)) str 0 [] t (omega arith) (omega arith)

-- A piped list of arguments is always read to its end or to the first error, if each argument's
-- parser returns.
pub arg_piped-total :
    {A : Type 0} (nest : Option Brackets) (arg : Parser A) (str : Str)
    → ((s : Str) → arg.parse s ≢ no_return)
    → (arg_piped nest arg).parse str ≢ no_return
arg_piped-total nest arg str t = arg_piped-total_shorter nest arg str (λ s short. t s)

-- A variadic list of arguments is always read to its end or to the first error, if the argument's
-- parser returns and uses something of any text that is not empty and has no space in front.
pub arg_variadic-total :
    {A : Type 0} (arg : Parser A) (str : Str)
    → ((s : Str) → arg.parse s ≢ no_return)
    → ((s : Str) (v : A) (n : ℕ)
        → arg.parse s ≡ ok v n
        → count_left_spaces s ≡ 0
        → 0 < length s
        → 0 < n)
    → (arg_variadic arg).parse str ≢ no_return
unfolding arg_variadic
arg_variadic-total arg str t u =
    variadic_from-total arg (suc (length str)) str 0 [] t u (omega arith) (omega arith)

-- ===== src/Argparse/Choice.antt =====
-- argparse/or.go and pair.go.
use scat.Prelude.{
  ℕ, suc, ◌+◌, ◌-◌, ◌≡◌, refl, ◌↔◌, ◌⊎◌, inl, inr, Bool, true, false, ◌&&◌, Option, none, some,
  List, [], ◌∷◌, arith, leb, ◌==◌, if◌then◌else◌, Bool-cases, take, drop, All,
}
use scat.Argparse.{
  Str, ArgError, invalid_syntax, details, Parsed, ok, fail, no_return, crashed, Parser,
  original_err,
}

-- `OriginalErr(err) == ErrInvalidSyntax`
abbrev pub is_invalid_syntax : ArgError → Bool
is_invalid_syntax invalid_syntax = true
is_invalid_syntax _ = false

abbrev pub passes_on {ℓ} : {A : Type ℓ} → Parsed A → Bool
passes_on (ok v n) = false
passes_on (fail e n) = is_invalid_syntax (original_err e)
passes_on no_return = false
passes_on crashed = false

module _ {A : Type 0} where
  -- The first alternative and the others; with none at all the code returns nil.
  unfoldable pub parse_or : Parser A → List (Parser A) → Str → Parsed A
  parse_or p [] str = p.parse str
  parse_or p (q ∷ ps) str = if passes_on (p.parse str) then parse_or q ps str else p.parse str

abbrev pub pair_sep : ℕ
pair_sep = b'='

-- The index of the first separator behind `skip` others.
unfoldable pub sep_index : ℕ → Str → Option ℕ
sep_index skip [] = none
sep_index skip (c ∷ cs) =
    let later = sep_index (if c == pair_sep then skip - 1 else skip) cs in
    if c == pair_sep && leb skip 0
    then some 0
    else elim later [ none ↦ none | some i ↦ some (suc i) ]

module _ {A B C : Type 0} (left_is_pair : Bool) (left : Parser A) (right : Parser B)
    (run : A → B → C ⊎ ArgError) where
  abbrev pub pair_right : Str → ℕ → A → Parsed C
  pair_right str start l = elim (right.parse (drop start str)) [
    | ok r n ↦ elim (run l r) [ inl v ↦ ok v (start + n) | inr e ↦ fail e (start + n) ]
    | fail e n ↦ fail (details e str (start + n)) (start + n)
    | no_return ↦ no_return
    | crashed ↦ crashed
  ]

  unfoldable pub parse_pair : Str → Parsed C
  parse_pair str = elim (sep_index (if left_is_pair then 1 else 0) str) [
    | none ↦ fail invalid_syntax 0
    | some i ↦ elim (left.parse (take i str)) [
      | ok l n ↦ pair_right str (i + 1) l
      | fail e n ↦ fail (details e str n) 0
      | no_return ↦ no_return
      | crashed ↦ crashed
    ]
  ]

-- The alternatives fail with invalid syntax together exactly if each of them does on its own:
-- any other outcome of one of them, an error included, ends the search.
pub parse_or-passes_on :
    {A : Type 0} (p : Parser A) (ps : List (Parser A)) (str : Str)
    → (passes_on (parse_or p ps str) ≡ true)
      ↔ All (λ (q : Parser A). passes_on (q.parse str) ≡ true) (p ∷ ps)
unfolding parse_or
parse_or-passes_on p [] str = (λ h. (h, tt), λ h. h.0)
parse_or-passes_on p (q ∷ ps) str =
    let ih = parse_or-passes_on q ps str in
    elim (Bool-cases (passes_on (p.parse str))) [
      | inl on ↦ rw on (λ h. (refl, ih.0 h), λ h. ih.1 h.1)
      | inr off ↦ rw off (λ h. absurd (ground arith), λ h. absurd (ground (arith, h.0)))
    ]

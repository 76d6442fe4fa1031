-- ===== src/Argparse/Messages.antt =====
-- argparse/argparse.go: what an error shows of the text that it is about.
use scat.Prelude.{
  ℕ, zero, suc, ◌+◌, ◌-◌, ◌<◌, ◌≡◌, refl, sym, ap, ◌∙◌, subst, ◌≢◌, inl, inr, Option, none, some,
  [], ◌∷◌, ◌++◌, arith, ltb, ◌==◌, if◌then◌else◌, ==_iff, Bool-cases, Option-cases, length,
  get_elem?, take, drop, length-take, length-drop, get_elem?-append,
}
use scat.Argparse.{Str, ArgError, details}

abbrev nl : ℕ
nl = b'\n'

-- `etc`
abbrev etc : Str
etc = b'.' ∷ b'.' ∷ []

-- Where the first newline is.
unfoldable pub newline_index : Str → Option ℕ
newline_index [] = none
newline_index (c ∷ cs) =
    let later = newline_index cs in
    if c == nl then some 0 else elim later [ none ↦ none | some i ↦ some (suc i) ]

-- The first loop of `shorten`: what is before the position, up to the first newline, goes.
unfoldable pub cut_left : Str → ℕ → Str × ℕ
unfolding newline_index
cut_left str at = elim (newline_index str) [
  | none ↦ (str, at)
  | some i ↦ if ltb i at then (etc ++ drop (suc i) str, length etc + at - suc i) else (str, at)
]

-- The second loop: from the first newline at the position or behind it.
unfoldable pub cut_right : Str → ℕ → Str
unfolding newline_index
cut_right str at = elim (newline_index (drop at str)) [
  | none ↦ str
  | some j ↦ take (at + j) str ++ etc
]

unfoldable pub shorten : Str → ℕ → Str × ℕ
unfolding cut_left cut_right
shorten str at = let x = cut_left str at in (cut_right x.0 x.1, x.1)

-- `ErrDetails.Error`: the innermost error, the text around its position, and the width of the space
-- in front of the mark under it.
pub record Shown : Type 0 where
  pub message : ArgError
  pub text : Str
  pub indent : ℕ

abbrev pub shown_at : ArgError → Str × ℕ → Shown
shown_at e x = record { message = e; text = x.0; indent = x.1 + 6 }

unfoldable pub show : ArgError → Option Shown
unfolding shorten
show (details (details e s p) str at) = show (details e s p)
show (details e str at) = some (shown_at e (shorten str at))
show e = none

newline_index-elem :
    (s : Str) (i : ℕ) → newline_index s ≡ some i → (get_elem? s i ≡ some nl) × (i < length s)
unfolding newline_index
newline_index-elem [] i e = absurd (ground arith)
newline_index-elem (c ∷ cs) i e = elim (Bool-cases (c == nl)) [
  | inl here ↦
      let first : 0 ≡ i = ground arith in
      subst (λ i. (get_elem? (c ∷ cs) i ≡ some nl) × (i < length (c ∷ cs))) first
        (ap some ((==_iff c nl).0 here), omega arith)
  | inr later ↦ elim (Option-cases (newline_index cs)) [
    | inl none_there ↦ absurd (ground arith)
    | inr (j, there) ↦
        let next : suc j ≡ i = ground arith in
        let ih = newline_index-elem cs j there in
        subst (λ i. (get_elem? (c ∷ cs) i ≡ some nl) × (i < length (c ∷ cs))) next
          (ih.0, omega (arith, ih.1))
  ]
]

get_elem?-drop : (n k : ℕ) (s : Str) → get_elem? (drop n s) k ≡ get_elem? s (n + k)
get_elem?-drop zero k s = let same : k ≡ 0 + k = omega arith in ap (get_elem? s) same
get_elem?-drop (suc n) k [] = refl
get_elem?-drop (suc n) k (c ∷ cs) =
    let same : suc (n + k) ≡ suc n + k = omega arith in
    get_elem?-drop n k cs ∙ ap (get_elem? (c ∷ cs)) same

get_elem?-take : (n k : ℕ) (s : Str) → k < n → get_elem? (take n s) k ≡ get_elem? s k
get_elem?-take zero k s h = absurd (omega arith)
get_elem?-take (suc n) k [] h = refl
get_elem?-take (suc n) zero (c ∷ cs) h = refl
get_elem?-take (suc n) (suc k) (c ∷ cs) h = get_elem?-take n k cs (omega arith)

cut_left-elem :
    (str : Str) (at : ℕ)
    → at < length str
    → get_elem? (cut_left str at).0 (cut_left str at).1 ≡ get_elem? str at
unfolding cut_left
cut_left-elem str at h = elim (Option-cases (newline_index str)) [
  | inl none_there ↦ rw (none_there, cut_left) refl
  | inr (i, there) ↦ elim (Bool-cases (ltb i at)) [
    | inr behind ↦ rw (there, behind, cut_left) refl
    | inl before ↦
        rw (there, before, cut_left)
          ((get_elem?-append etc (drop (suc i) str) (2 + at - suc i)).1 (ground (arith, before))
            ∙ get_elem?-drop (suc i) (2 + at - suc i - 2) str
            ∙ ap (get_elem? str) (ground (arith, before)))
  ]
]

cut_right-elem :
    (str : Str) (at c : ℕ)
    → get_elem? str at ≡ some c
    → c ≢ nl
    → get_elem? (cut_right str at) at ≡ some c
unfolding cut_right
cut_right-elem str at c e ne = elim (Option-cases (newline_index (drop at str))) [
  | inl none_there ↦ rw (none_there, cut_right) e
  | inr (zero, there) ↦
      let (elem, short) = newline_index-elem (drop at str) 0 there in
      let same : some nl ≡ some c =
        sym elem ∙ get_elem?-drop at 0 str ∙ ap (get_elem? str) (omega arith) ∙ e in
      absurd (ne (ground arith))
  | inr (suc j, there) ↦
      let (elem, short) = newline_index-elem (drop at str) (suc j) there in
      rw (there, cut_right)
        ((get_elem?-append (take (at + suc j) str) etc at).0
            (omega (arith, short, length-drop at str, length-take (at + suc j) str))
          ∙ get_elem?-take (at + suc j) at str (omega arith)
          ∙ e)
]

-- `shorten` keeps what its position is at: the byte there, unless it is a newline, stands at the
-- new position of the shortened text.
pub shorten-elem :
    (str : Str) (at c : ℕ)
    → at < length str
    → get_elem? str at ≡ some c
    → c ≢ nl
    → get_elem? (shorten str at).0 (shorten str at).1 ≡ some c
unfolding shorten
shorten-elem str at c h e ne =
    let x = cut_left str at in cut_right-elem x.0 x.1 c (cut_left-elem str at h ∙ e) ne

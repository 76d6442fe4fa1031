-- ===== src/Argparse/Balance.antt =====
-- argparse/lambda.go: which text a lambda's brackets hold.

use scat.Prelude.{
  ℕ, zero, suc, ◌+◌, ◌-◌, ◌≡◌, refl, ap, ◌∙◌, ◌≢◌, inl, inr, true, false, Option, none, some, List,
  [], ◌∷◌, ◌++◌, arith, leb, ◌==◌, if◌then◌else◌, Bool-cases, Option-cases, length, take,
  length-append,
}
use scat.Argparse.{Ran, made, Ran-cases, Str, ok, Parser, Parsed-cases}
use scat.Argparse.Lists.{Brackets}
use scat.Argparse.Brackets.{close_index, run_args, parse_lambda}

-- The nesting level behind a text that starts at level `n`; none if the level falls to 0.
abbrev pub level : Brackets → ℕ → Str → Option ℕ
level b n [] = some n
level b n (c ∷ cs) =
    let deeper = level b (suc n) cs in
    let out = level b (n - 1) cs in
    let on = level b n cs in
    if c == b.opening
    then deeper
    else if c == b.closing
    then (if leb n 1 then none else out)
    else on

-- What stands between the outer brackets: as many closing as opening ones, in order.
abbrev pub IsBalanced : Brackets → Str → Type 0
IsBalanced b body = level b 1 body ≡ some 1

close_index-level :
    (b : Brackets) (n : ℕ) (body rest : Str)
    → b.opening ≢ b.closing
    → level b (suc n) body ≡ some 1
    → close_index b (suc n) (body ++ b.closing ∷ rest) ≡ some (length body)
unfolding close_index
close_index-level b n [] rest ne h = ground arith
close_index-level b n (c ∷ body) rest ne h = ground (
  arith,
  close_index-level b (suc n) body rest ne,
  close_index-level b n body rest ne,
  close_index-level b (n - 1) body rest ne,
)

record Closes (b : Brackets) (n : ℕ) (s : Str) (i : ℕ) : Type 0 where
  rest : Str
  splits : s ≡ take i s ++ b.closing ∷ rest
  inside : i ≡ length (take i s)
  balanced : level b n (take i s) ≡ some 1

Closes-cons :
    (b : Brackets) (n m c : ℕ) (cs : Str) (i j : ℕ)
    → i ≡ suc j
    → Closes b m cs j
    → ((body : Str) → level b n (c ∷ body) ≡ level b m body)
    → Closes b n (c ∷ cs) i
Closes-cons b n m c cs i j e k h = rw e (record {
  rest = k.rest;
  splits = ap (◌∷◌ c) k.splits;
  inside = ap suc k.inside;
  balanced = h (take j cs) ∙ k.balanced;
})

-- One byte of the text, by its kind.
close_step :
    (b : Brackets) (n m c : ℕ) (cs : Str) (i : ℕ)
    → ((j : ℕ) → close_index b m cs ≡ some j → Closes b m cs j)
    → elim (close_index b m cs) [ none ↦ none | some j ↦ some (suc j) ] ≡ some i
    → ((body : Str) → level b n (c ∷ body) ≡ level b m body)
    → Closes b n (c ∷ cs) i
close_step b n m c cs i ih e h = elim (Option-cases (close_index b m cs)) [
  | inl open_still ↦ absurd (ground arith)
  | inr (j, closed) ↦ Closes-cons b n m c cs i j (ground arith) (ih j closed) h
]

-- A closing bracket ends the text at level 1, and else lowers the level.
level-closing :
    (b : Brackets) (n c : ℕ) (cs : Str) (i : ℕ)
    → (c == b.opening) ≡ false
    → (c == b.closing) ≡ true
    → close_index b (suc n) (c ∷ cs) ≡ some i
    → ((m j : ℕ) → close_index b (suc m) cs ≡ some j → Closes b (suc m) cs j)
    → Closes b (suc n) (c ∷ cs) i
unfolding close_index
level-closing b zero c cs i same closes e ih = record {
  rest = cs;
  splits = ground arith;
  inside = ground arith;
  balanced = ground arith;
}
level-closing b (suc m) c cs i same closes e ih =
    let later : elim (close_index b (suc m) cs) [ none ↦ none | some j ↦ some (suc j) ] ≡ some i =
      ground arith in
    close_step b (suc (suc m)) (suc m) c cs i (ih m) later (λ body. ground arith)

level-close_index :
    (b : Brackets) (n : ℕ) (s : Str) (i : ℕ)
    → close_index b (suc n) s ≡ some i
    → Closes b (suc n) s i
unfolding close_index
level-close_index b n [] i e = absurd (ground arith)
level-close_index b n (c ∷ cs) i e = elim (Bool-cases (c == b.opening)) [
  | inl opens ↦
      close_step b (suc n) (suc (suc n)) c cs i (level-close_index b (suc n) cs) (rw opens at e)
        (λ body. rw opens)
  | inr same ↦ elim (Bool-cases (c == b.closing)) [
    | inr plain ↦
        close_step b (suc n) (suc n) c cs i (level-close_index b n cs) (rw (same, plain) at e)
          (λ body. rw (same, plain))
    | inl closes ↦ level-closing b n c cs i same closes e (λ m. level-close_index b m cs)
  ]
]

take-length_append : (xs ys : Str) → take (length xs) (xs ++ ys) ≡ xs
take-length_append [] ys = refl
take-length_append (x ∷ xs) ys = ap (◌∷◌ x) (take-length_append xs ys)

module _ {A B : Type 0} (b : Brackets) (args : Parser (List A)) (run : List A → Ran B) where
  -- A success of a lambda: where its text, its arguments and its value come from.
  pub record Held (str : Str) (v : B) (n : ℕ) : Type 0 where
    pub body : Str
    pub rest : Str
    pub splits : str ≡ b.opening ∷ (body ++ b.closing ∷ rest)
    pub balanced : IsBalanced b body
    pub used : n ≡ length body + 2
    pub values : List A
    pub length_used : ℕ
    pub parsed : args.parse body ≡ ok values length_used
    pub ran : run values ≡ made v

  run_args-ok :
      (body : Str) (i : ℕ) (v : B) (n : ℕ)
      → run_args b args run body i ≡ ok v n
      → (vs : List A) × (m : ℕ) × (args.parse body ≡ ok vs m) × (run vs ≡ made v) × (n ≡ i + 2)
  run_args-ok body i v n e = elim (Parsed-cases (args.parse body)) [
    | inl (vs, m, p) ↦ elim (Ran-cases (run vs)) [
      | inl (w, r) ↦ (vs, m, p, ground arith, ground arith)
      | inr (inl (x, r)) ↦ absurd (ground arith)
      | inr (inr (inr crash)) ↦ absurd (ground arith)
      | inr (inr (inl r)) ↦ absurd (ground arith)
    ]
    | inr (inl (x, m, p)) ↦ absurd (ground arith)
    | inr (inr (inr crash)) ↦ absurd (ground arith)
    | inr (inr (inl p)) ↦ absurd (ground arith)
  ]

  parse_lambda-Held :
      (str : Str) (v : B) (n : ℕ) → parse_lambda b args run str ≡ ok v n → Held str v n
  unfolding parse_lambda
  parse_lambda-Held [] v n e = absurd (ground arith)
  parse_lambda-Held (c ∷ cs) v n e = elim (Option-cases (close_index b 1 cs)) [
    | inl open_still ↦ absurd (ground arith)
    | inr (i, closed) ↦
        let k = level-close_index b 0 cs i closed in
        let ran : run_args b args run (take i cs) i ≡ ok v n = ground arith in
        let (vs, m, p, r, used) = run_args-ok (take i cs) i v n ran in
        record {
          body = take i cs;
          rest = k.rest;
          splits = ground (arith, k.splits);
          balanced = k.balanced;
          used = omega (arith, used, k.inside);
          values = vs;
          length_used = m;
          parsed = p;
          ran = r;
        }
  ]

  -- Text that lambda brackets hold is balanced, and every balanced text is held: a lambda's parse
  -- of an opening bracket, a balanced body and a closing bracket is what its arguments' parser
  -- makes of just that body, whatever follows; and a success comes from nothing else.
  pub parse_lambda-IsBalanced :
      b.opening ≢ b.closing
      → ((body rest : Str)
          → IsBalanced b body
          → parse_lambda b args run (b.opening ∷ (body ++ b.closing ∷ rest))
            ≡ run_args b args run body (length body))
        × ((str : Str) (v : B) (n : ℕ) → parse_lambda b args run str ≡ ok v n → Held str v n)
  unfolding parse_lambda
  parse_lambda-IsBalanced ne = (
    λ body rest h. ground (
      arith,
      close_index-level b 0 body rest ne h,
      length-append body (b.closing ∷ rest),
      take-length_append body (b.closing ∷ rest),
    ),
    parse_lambda-Held,
  )

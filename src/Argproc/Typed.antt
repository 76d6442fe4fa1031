-- ===== src/Argproc/Typed.antt =====
-- argproc/argproc.go: the types that the callbacks assert are those of their arguments.
use scat.Prelude.{
  ℕ, zero, suc, ◌+◌, ◌≡◌, refl, sym, ap, ◌∙◌, ◌≢◌, inl, inr, Option, none, some, List, [], ◌∷◌,
  ◌++◌, append-nil, append_assoc, arith, leb, ◌==◌, Bool-cases, Option-cases, ℤ, pos, negsuc,
  length, drop,
}
use scat.Argparse.{Str, Parser, Ran, panicked, ok, Parsed-cases, ArgError, count_left_spaces}
use scat.Argparse.Lists.{args_from, arg_args}
use scat.Argproc.{Proc, DynProc, QuotaRes, Outside, Side, unless, CmdKind}
use scat.Argproc.Args.{
  Val, int_val, bytes_val, str_val, ints_val, strs_val, ress_val, proc_val, dyn_val, boxed,
}
use scat.Argproc.Stores.{make_rclone, make_cp, make_scp, make_mincopies, make_stripe, new_stripe}
use scat.Argproc.Language.{
  make_cmd, make_split2, make_backlog, make_concur, make_group, make_writing, make_parity,
}
use scat.Argproc.Ends.{Accepts}

-- A type with the way its values are put among the arguments.
pub record Kind : Type 1 where
  pub Of : Type 0
  pub box : Of → Val

abbrev IsOf : Kind → Val → Type 0
IsOf k v = (x : k.Of) × (v ≡ k.box x)

-- The arguments have these types, in this order.
abbrev pub Typed : List Kind → List Val → Type 0
Typed [] [] = Unit
Typed [] (v ∷ vs) = ⊥
Typed (k ∷ ks) [] = ⊥
Typed (k ∷ ks) (v ∷ vs) = IsOf k v × Typed ks vs

-- The parser makes values of that type only, `Empty` included.
abbrev pub Makes : Kind → Parser Val → Type 0
Makes k p =
    ((s : Str) (v : Val) (n : ℕ) → p.parse s ≡ ok v n → IsOf k v)
    × ((v : Val) → p.empty ≡ some v → IsOf k v)

abbrev pub MakeAll : List Kind → List (Parser Val) → Type 0
MakeAll [] [] = Unit
MakeAll [] (p ∷ ps) = ⊥
MakeAll (k ∷ ks) [] = ⊥
MakeAll (k ∷ ks) (p ∷ ps) = Makes k p × MakeAll ks ps

-- A parser of one type, as an argument.
pub boxed-Makes : (k : Kind) (p : Parser k.Of) → Makes k (boxed k.box p)
boxed-Makes k p = (
  λ s v n e. elim (Parsed-cases (p.parse s)) [
    | inl (x, m, r) ↦ (x, ground arith)
    | inr (inl (x, m, r)) ↦ absurd (ground arith)
    | inr (inr (inr crash)) ↦ absurd (ground arith)
    | inr (inr (inl r)) ↦ absurd (ground arith)
  ],
  λ v e. elim (Option-cases p.empty) [
    | inl none_there ↦ absurd (ground arith)
    | inr (x, there) ↦ (x, ground arith)
  ],
)

-- The values that are read behind those so far.
abbrev More : List Kind → List Val → List Val → Type 0
More ks vs ws = (us : List Val) × (ws ≡ vs ++ us) × Typed ks us

More-cons :
    (k : Kind) (ks : List Kind) (vs ws : List Val) (v : Val)
    → IsOf k v
    → More ks (vs ++ v ∷ []) ws
    → More (k ∷ ks) vs ws
More-cons k ks vs ws v h (us, e, typed) = (v ∷ us, e ∙ append_assoc vs (v ∷ []) us, (h, typed))

args_from-Typed :
    (ks : List Kind) (ps : List (Parser Val)) (str : Str) (start : ℕ) (vs ws : List Val) (n : ℕ)
    → MakeAll ks ps
    → args_from ps str start vs ≡ ok ws n
    → More ks vs ws
unfolding args_from
args_from-Typed [] [] str start vs ws n h e =
    let p = start + count_left_spaces (drop start str) in
    elim (Bool-cases (p == length str)) [
      | inl all ↦ let same : vs ≡ ws = ground arith in ([], sym same ∙ sym (append-nil vs), tt)
      | inr more ↦ absurd (ground arith)
    ]
args_from-Typed [] (p ∷ ps) str start vs ws n h e = absurd h
args_from-Typed (k ∷ ks) [] str start vs ws n h e = absurd h
args_from-Typed (k ∷ ks) (p ∷ ps) str start vs ws n h e =
    let at = start + count_left_spaces (drop start str) in
    elim (Bool-cases (leb (length str) at)) [
      | inl over ↦ elim (Option-cases p.empty) [
        | inl none_there ↦ absurd (ground arith)
        | inr (v, there) ↦
            let steps : args_from (p ∷ ps) str start vs ≡ args_from ps str at (vs ++ v ∷ []) =
              rw (over, there, args_from) refl in
            More-cons k ks vs ws v (h.0.1 v there)
              (args_from-Typed ks ps str at (vs ++ v ∷ []) ws n h.1 (sym steps ∙ e))
      ]
      | inr more ↦ elim (Parsed-cases (p.parse (drop at str))) [
        | inl (v, m, r) ↦
            let steps : args_from (p ∷ ps) str start vs ≡ args_from ps str (at + m) (vs ++ v ∷ []) =
              rw (more, r, args_from) refl in
            More-cons k ks vs ws v (h.0.0 (drop at str) v m r)
              (args_from-Typed ks ps str (at + m) (vs ++ v ∷ []) ws n h.1 (sym steps ∙ e))
        | inr (inl (x, m, r)) ↦ absurd (ground arith)
        | inr (inr (inr crash)) ↦ absurd (ground arith)
        | inr (inr (inl r)) ↦ absurd (ground arith)
      ]
    ]

-- A call that does not panic on arguments of these types accepts what their parsers read.
pub arg_args-Accepts :
    {B : Type 0} (ks : List Kind) (ps : List (Parser Val)) (run : List Val → Ran B)
    → MakeAll ks ps
    → ((vs : List Val) → Typed ks vs → run vs ≢ panicked)
    → Accepts (arg_args ps) run
unfolding arg_args
arg_args-Accepts ks ps run makes fine s vs n e =
    let (us, same, typed) = args_from-Typed ks ps s 0 [] vs n makes e in rw same (fine us typed)

abbrev pub of_int : Kind
of_int = record { Of = ℤ; box = int_val }

abbrev pub of_bytes : Kind
of_bytes = record { Of = ℕ; box = bytes_val }

abbrev pub of_str : Kind
of_str = record { Of = Str; box = str_val }

abbrev pub of_ints : Kind
of_ints = record { Of = List ℤ; box = ints_val }

abbrev pub of_strs : Kind
of_strs = record { Of = List Str; box = strs_val }

abbrev pub of_ress : Kind
of_ress = record { Of = List QuotaRes; box = ress_val }

abbrev pub of_proc : Kind
of_proc = record { Of = Proc; box = proc_val }

abbrev pub of_dyn : Kind
of_dyn = record { Of = DynProc; box = dyn_val }

one : (k : Kind) (vs : List Val) → Typed (k ∷ []) vs → (x : k.Of) × (vs ≡ k.box x ∷ [])
one k [] h = absurd h
one k (v ∷ []) h = (h.0.0, ap (λ w. w ∷ []) h.0.1)
one k (v ∷ w ∷ vs) h = absurd h.1

two :
    (k l : Kind) (vs : List Val)
    → Typed (k ∷ l ∷ []) vs
    → (x : k.Of) × (y : l.Of) × (vs ≡ k.box x ∷ l.box y ∷ [])
two k l [] h = absurd h
two k l (v ∷ vs) h =
    let (y, e) = one l vs h.1 in (h.0.0, y, ap (λ w. w ∷ vs) h.0.1 ∙ ap (◌∷◌ (k.box h.0.0)) e)

three :
    (k l m : Kind) (vs : List Val)
    → Typed (k ∷ l ∷ m ∷ []) vs
    → (x : k.Of) × (y : l.Of) × (z : m.Of) × (vs ≡ k.box x ∷ l.box y ∷ m.box z ∷ [])
three k l m [] h = absurd h
three k l m (v ∷ vs) h =
    let (y, z, e) = two l m vs h.1 in
    (h.0.0, y, z, ap (λ w. w ∷ vs) h.0.1 ∙ ap (◌∷◌ (k.box h.0.0)) e)

-- The callbacks do not panic on arguments of the types that they assert.
pub make_rclone-Typed : (vs : List Val) → Typed (of_str ∷ []) vs → make_rclone vs ≢ panicked
unfolding make_rclone
make_rclone-Typed vs h p = let (x, e) = one of_str vs h in absurd (ground arith)

pub make_cp-Typed : (vs : List Val) → Typed (of_str ∷ of_ints ∷ []) vs → make_cp vs ≢ panicked
unfolding make_cp
make_cp-Typed vs h p = let (x, y, e) = two of_str of_ints vs h in absurd (ground arith)

pub make_scp-Typed :
    (vs : List Val) → Typed (of_str ∷ of_str ∷ of_ints ∷ []) vs → make_scp vs ≢ panicked
unfolding make_scp
make_scp-Typed vs h p = let (x, y, z, e) = three of_str of_str of_ints vs h in absurd (ground arith)

pub make_cmd-Typed :
    (k : CmdKind) (vs : List Val) → Typed (of_str ∷ of_strs ∷ []) vs → make_cmd k vs ≢ panicked
unfolding make_cmd
make_cmd-Typed k vs h p = let (x, y, e) = two of_str of_strs vs h in absurd (ground arith)

pub make_split2-Typed :
    (vs : List Val) → Typed (of_bytes ∷ of_bytes ∷ []) vs → make_split2 vs ≢ panicked
unfolding make_split2
make_split2-Typed vs h p = let (x, y, e) = two of_bytes of_bytes vs h in absurd (ground arith)

pub make_backlog-Typed :
    (vs : List Val) → Typed (of_int ∷ of_proc ∷ []) vs → make_backlog vs ≢ panicked
unfolding make_backlog
make_backlog-Typed vs h p = let (x, y, e) = two of_int of_proc vs h in absurd (ground arith)

pub make_concur-Typed :
    (vs : List Val) → Typed (of_int ∷ of_dyn ∷ []) vs → make_concur vs ≢ panicked
unfolding make_concur
make_concur-Typed vs h p = let (x, y, e) = two of_int of_dyn vs h in absurd (ground arith)

pub make_group-Typed : (vs : List Val) → Typed (of_int ∷ []) vs → make_group vs ≢ panicked
unfolding make_group
make_group-Typed vs h p = let (x, e) = one of_int vs h in on_count x e p
  where
    on_count : (x : ℤ) → vs ≡ int_val x ∷ [] → make_group vs ≡ panicked → ⊥
    on_count (pos zero) e p = absurd (ground arith)
    on_count (pos (suc n)) e p = absurd (ground arith)
    on_count (negsuc n) e p = absurd (ground arith)

pub unless-ne : {A : Type 0} (o : Option ArgError) (v : A) → unless o v ≢ panicked
unless-ne none v p = absurd (ground arith)
unless-ne (some e) v p = absurd (ground arith)

module _ (out : Outside) where
  pub make_writing-Typed :
      (make : Str → Proc) (vs : List Val)
      → Typed (of_str ∷ []) vs
      → make_writing out make vs ≢ panicked
  unfolding make_writing
  make_writing-Typed make vs h p =
      let (x, e) = one of_str vs h in unless-ne (out.open_out x) (make x) (ground arith)

  pub make_parity-Typed :
      (side : Side) (vs : List Val)
      → Typed (of_int ∷ of_int ∷ []) vs
      → make_parity out side vs ≢ panicked
  unfolding make_parity
  make_parity-Typed side vs h p =
      let (x, y, e) = two of_int of_int vs h in
      unless-ne (out.new_parity x y) (Proc.parity side x y) (ground arith)

  pub new_stripe-ne :
      (least excl : ℤ) (rs : List QuotaRes) → new_stripe out least excl rs ≢ panicked
  new_stripe-ne least excl rs =
      let d : DynProc = record { min_copies = least; excl = excl; ress = rs } in
      unless-ne (out.new_stripe d) d

  pub make_mincopies-Typed :
      (vs : List Val) → Typed (of_int ∷ of_ress ∷ []) vs → make_mincopies out vs ≢ panicked
  unfolding make_mincopies
  make_mincopies-Typed vs h p =
      let (x, y, e) = two of_int of_ress vs h in new_stripe-ne x (pos 0) y (ground arith)

  pub make_stripe-Typed :
      (vs : List Val) → Typed (of_int ∷ of_int ∷ of_ress ∷ []) vs → make_stripe out vs ≢ panicked
  unfolding make_stripe
  make_stripe-Typed vs h p =
      let (x, y, z, e) = three of_int of_int of_ress vs h in new_stripe-ne x y z (ground arith)

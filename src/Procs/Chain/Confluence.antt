-- ===== src/Procs/Chain/Confluence.antt =====
-- procs/chain.go: whatever the order of the goroutines, a chain yields the same results.
use mathlib.Core.List.{Perm, Permᴰ, perm_middle, perm_append_comm, Perm-prop}
use mathlib.Core.List.Perm
use mathlib.Core.Logic.{∥∥₁_elim}
use scat.Prelude.{
  ℕ, ◌≡◌, refl, sym, ap, ◌∙◌, subst, true, List, [], ◌∷◌, ◌++◌, append-nil, append_assoc, arith,
  All,
}
use scat.Procs.{Res}
use scat.Procs.Chain.{handle, stage, through}
use scat.Procs.Chain.Network.{
  Pure, Net, sink, node, push, passes, Step, pass, start, send, later, Steps, no_step, then_step,
  idle, IsDone, arrived,
}

abbrev pub handled : Pure → Res → List Res
handled s r = (handle s r tt).0

abbrev pub handled_all : Pure → List Res → List Res
handled_all s [] = []
handled_all s (r ∷ rs) = handled s r ++ handled_all s rs

abbrev pub flat : List (List Res) → List Res
flat [] = []
flat (rs ∷ ps) = rs ++ flat ps

-- What will have arrived when everything has been sent, if these results come into the net.
abbrev pub yields : Net → List Res → List Res
yields (sink sunk) rs = sunk ++ rs
yields (node s q ps n) rs = yields n (flat ps ++ handled_all s (q ++ rs))

handled_all-append :
    (s : Pure) (xs ys : List Res) → handled_all s (xs ++ ys) ≡ handled_all s xs ++ handled_all s ys
handled_all-append s [] ys = refl
handled_all-append s (x ∷ xs) ys =
    ap (λ zs. handled s x ++ zs) (handled_all-append s xs ys) ∙ sym (append_assoc (handled s x) _ _)

flat-append : (ps qs : List (List Res)) → flat (ps ++ qs) ≡ flat ps ++ flat qs
flat-append [] qs = refl
flat-append (rs ∷ ps) qs = ap (λ zs. rs ++ zs) (flat-append ps qs) ∙ sym (append_assoc rs _ _)

swap_fronts : (xs ys zs : List Res) → Perm (xs ++ (ys ++ zs)) (ys ++ (xs ++ zs))
swap_fronts xs ys zs =
    subst (λ l. Perm (xs ++ (ys ++ zs)) l) (append_assoc ys xs zs)
      (subst (λ l. Perm l ((ys ++ xs) ++ zs)) (append_assoc xs ys zs)
        (Perm.append_right zs (perm_append_comm xs ys)))

handled_all-permᴰ :
    (s : Pure) {xs ys : List Res} → Permᴰ xs ys → Perm (handled_all s xs) (handled_all s ys)
handled_all-permᴰ s Permᴰ.nil = Perm.refl []
handled_all-permᴰ s (Permᴰ.cons {a} {b} {l₁ = xs} {l₂ = ys} e p) =
    subst (λ x. Perm (handled s a ++ handled_all s xs) (handled s x ++ handled_all s ys)) e
      (Perm.append_left (handled s a) (handled_all-permᴰ s p))
handled_all-permᴰ s (Permᴰ.swap {a} {b} {b' = b'} {l = l} e f) =
    let both = handled_all s (a ∷ b ∷ l) in
    let swapped : Perm both (handled_all s (b ∷ a ∷ l)) =
      swap_fronts (handled s a) (handled s b) (handled_all s l) in
    subst (λ x. Perm both (handled_all s (x ∷ b' ∷ l))) f
      (subst (λ y. Perm both (handled_all s (b ∷ y ∷ l))) e swapped)
handled_all-permᴰ s (Permᴰ.trans p q) = Perm.trans (handled_all-permᴰ s p) (handled_all-permᴰ s q)

handled_all-perm :
    (s : Pure) (xs ys : List Res) → Perm xs ys → Perm (handled_all s xs) (handled_all s ys)
handled_all-perm s xs ys p = ∥∥₁_elim p Perm-prop (λ q. handled_all-permᴰ s q)

yields-perm : (n : Net) (xs ys : List Res) → Perm xs ys → Perm (yields n xs) (yields n ys)
yields-perm (sink sunk) xs ys p = Perm.append_left sunk p
yields-perm (node s q ps n) xs ys p =
    yields-perm n _ _
      (Perm.append_left (flat ps) (handled_all-perm s (q ++ xs) (q ++ ys) (Perm.append_left q p)))

yields-push : (n : Net) (r : Res) (rs : List Res) → yields (push r n) rs ≡ yields n (r ∷ rs)
unfolding push
yields-push (sink sunk) r rs = append_assoc sunk (r ∷ []) rs
yields-push (node s q ps n) r rs =
    ap (λ l. yields n (flat ps ++ handled_all s l)) (append_assoc q (r ∷ []) rs)

pub passes-handled : (s : Pure) (r : Res) → passes s r ≡ true → handled s r ≡ r ∷ []
unfolding passes handle
passes-handled s r e = ground arith

yields-fed :
    (n : Net) (r : Res) (xs ys : List Res)
    → Perm (r ∷ xs) ys
    → Perm (yields (push r n) xs) (yields n ys)
yields-fed n r xs ys p =
    subst (λ l. Perm l (yields n ys)) (sym (yields-push n r xs)) (yields-perm n (r ∷ xs) ys p)

flat-send :
    (before after : List (List Res)) (r : Res) (rs : List Res)
    → Perm (r ∷ flat (before ++ rs ∷ after)) (flat (before ++ (r ∷ rs) ∷ after))
flat-send before after r rs =
    rw (flat-append before (rs ∷ after), flat-append before ((r ∷ rs) ∷ after))
      (Perm.symm (perm_middle (flat before) (rs ++ flat after)))

-- A step changes the order at most of what will have arrived.
yields-Step : {n n' : Net} → Step n n' → (rs : List Res) → Perm (yields n' rs) (yields n rs)
yields-Step (pass s r q ps n e) rs =
    let rest = handled_all s (q ++ rs) in
    subst (λ l. Perm (yields (push r n) (flat ps ++ rest)) (yields n (flat ps ++ (l ++ rest))))
      (sym (passes-handled s r e))
      (yields-fed n r (flat ps ++ rest) (flat ps ++ r ∷ rest)
        (Perm.symm (perm_middle (flat ps) rest)))
yields-Step (start s r q ps n e) rs =
    let rest = handled_all s (q ++ rs) in
    subst (λ l. Perm (yields n l) (yields n (flat ps ++ (handled s r ++ rest))))
      (sym (
        ap (λ l. l ++ rest)
          (flat-append ps (handled s r ∷ []) ∙ ap (λ l. flat ps ++ l) (append-nil (handled s r)))
        ∙ append_assoc (flat ps) (handled s r) rest))
      (Perm.refl (yields n (flat ps ++ (handled s r ++ rest))))
yields-Step (send s q before after r rs ps ps' n e e') more =
    rw (e, e')
      (yields-fed n r _ _
        (Perm.append_right (handled_all s (q ++ more)) (flat-send before after r rs)))
yields-Step (later s q ps n n' st) rs = yields-Step st (flat ps ++ handled_all s (q ++ rs))

pub yields-Steps : {k : ℕ} {n n' : Net} → Steps k n n' → Perm (yields n' []) (yields n [])
yields-Steps (no_step n) = Perm.refl (yields n [])
yields-Steps (then_step k a b c ss st) = Perm.trans (yields-Step st []) (yields-Steps ss)

flat-empty : (ps : List (List Res)) → All (λ rs. rs ≡ []) ps → flat ps ≡ []
flat-empty [] h = refl
flat-empty (rs ∷ ps) h = rw (h.0, flat-empty ps h.1)

pub yields-done : (n : Net) → IsDone n → yields n [] ≡ arrived n
yields-done (sink rs) h = append-nil rs
yields-done (node s q ps n) h =
    ap (yields n)
      (ap (λ l. flat ps ++ handled_all s (l ++ [])) h.0 ∙ append-nil (flat ps) ∙ flat-empty ps h.1)
    ∙ yields-done n h.2

stage-handled_all : (s : Pure) (rs : List Res) → stage s rs tt ≡ (handled_all s rs, tt)
unfolding stage
stage-handled_all s [] = refl
stage-handled_all s (r ∷ rs) = ap (λ x. (handled s r ++ x.0, tt)) (stage-handled_all s rs)

-- Without a step, what arrives is what the stages make one after the other.
pub yields-idle :
    (ss : List Pure) (rs xs : List Res) → yields (idle ss rs) xs ≡ (through ss (rs ++ xs) tt).0
unfolding through
yields-idle [] rs xs = refl
yields-idle (s ∷ ss) rs xs =
    yields-idle ss [] (handled_all s (rs ++ xs))
    ∙ ap (λ x. (through ss x.0 x.1).0) (sym (stage-handled_all s (rs ++ xs)))

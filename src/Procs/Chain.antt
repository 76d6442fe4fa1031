-- ===== src/Procs/Chain.antt =====
-- procs/chain.go: procs one after the other, each fed with the results of the one before.
--
-- The goroutines of a chain are taken in one of their orders: each stage handles the results in
-- turn and hands all of its own on. A result without an error has its chunk in this code; one that
-- has neither is passed on here. `Network` has the other orders, for stages without state.
pub mod Network
pub mod Confluence
pub mod Schedules
use scat.Prelude.{
  ◌≡◌, refl, sym, ap, ◌∙◌, subst, Option, none, some, List, [], ◌∷◌, ◌++◌, map, append_assoc, drop,
  All,
}
use scat.Chunk.{Chunk}
use scat.Errors.{Error}
use scat.Procs.{Res, Proc, sent, single_res}
use scat.Procs.Concur

-- `EndProc`.
pub record Ender (W : Type 0) : Type 0 where
  pub process_final : Chunk → Chunk → W → Option Error × W
  pub process_end : Chunk → W → Option Error × W

-- A proc with what `underlying` finds in it: `ProcessErr` and the methods of `EndProc`, if it has
-- them.
pub record Stage (W : Type 0) : Type 0 where
  pub process : Proc W
  pub process_err : Option (Chunk → Error → W → List Res × W)
  pub ender : Option (Ender W)

-- A proc that wraps no other, or a `WrapperProc` with what it wraps.
pub data Wrapper (W : Type 0) : Type 0 where
  bare : Stage W → Wrapper W
  wraps : Proc W → Wrapper W → Wrapper W

unfoldable pub underlying : {W : Type 0} → Wrapper W → Stage W
underlying (bare s) = s
underlying (wraps p u) = underlying u

abbrev outermost : {W : Type 0} → Wrapper W → Proc W
outermost (bare s) = s.process
outermost (wraps p u) = p

-- What a chain makes of a proc: its own `Process`, and the other methods of what it wraps.
unfoldable pub stage_of : {W : Type 0} → Wrapper W → Stage W
unfolding underlying
stage_of u = record (underlying u) { process = outermost u }

unfoldable pub handle : {W : Type 0} → Stage W → Res → W → List Res × W
handle s r w = elim r.err [
  | none ↦ elim r.chunk [ none ↦ (r ∷ [], w) | some c ↦ s.process c w ]
  | some e ↦ elim s.process_err [
    | none ↦ (r ∷ [], w)
    | some f ↦ elim r.chunk [ none ↦ (r ∷ [], w) | some c ↦ f c e w ]
  ]
]

-- `process`: what one stage sends on.
unfoldable pub stage : {W : Type 0} → Stage W → List Res → W → List Res × W
unfolding handle
stage s [] w = ([], w)
stage s (r ∷ rs) w = let x = handle s r w in let y = stage s rs x.1 in (x.0 ++ y.0, y.1)

unfoldable pub through : {W : Type 0} → List (Stage W) → List Res → W → List Res × W
unfolding stage
through [] rs w = (rs, w)
through (s ∷ ss) rs w = let x = stage s rs w in through ss x.0 x.1

unfoldable pub end_procs : {W : Type 0} → List (Stage W) → List (Ender W)
end_procs [] = []
end_procs (s ∷ ss) = elim s.ender [ none ↦ end_procs ss | some e ↦ e ∷ end_procs ss ]

-- `endCallProc.process` and `processEnd`: each ends at the first error.
unfoldable pub call_finals : {W : Type 0} → List (Ender W) → Chunk → Chunk → W → Option Error × W
call_finals [] c final w = (none, w)
call_finals (e ∷ es) c final w =
    let x = e.process_final c final w in elim x.0 [ none ↦ call_finals es c final x.1 | some _ ↦ x ]

unfoldable pub call_ends : {W : Type 0} → List (Ender W) → Chunk → W → Option Error × W
call_ends [] c w = (none, w)
call_ends (e ∷ es) c w =
    let x = e.process_end c w in elim x.0 [ none ↦ call_ends es c x.1 | some _ ↦ x ]

unfoldable pub end_call : {W : Type 0} → List (Ender W) → Chunk → Stage W
unfolding call_finals
end_call es c = record {
  process = λ final w. let x = call_finals es c final w in (single_res final x.0, x.1);
  process_err = none;
  ender = none;
}

abbrev end_result : Option Error → List Res
end_result none = []
end_result (some e) = record { chunk = none; err = some e } ∷ []

-- The last stage of a chain that has end procs, and the call of `processEnd` after its results.
unfoldable pub end_stage : {W : Type 0} → List (Ender W) → Chunk → List Res → W → List Res × W
unfolding stage end_call call_ends
end_stage es c rs w =
    let x = stage (end_call es c) rs w in let y = call_ends es c x.1 in (x.0 ++ end_result y.0, y.1)

-- The end stage, if the chain has end procs.
unfoldable pub ended : {W : Type 0} → Chunk → List Res × W → List (Ender W) → List Res × W
unfolding end_stage
ended c x [] = x
ended c x (e ∷ es) = end_stage (e ∷ es) c x.0 x.1

unfoldable pub chain : {W : Type 0} → List (Stage W) → Proc W
unfolding through end_procs ended
chain ss c w = let x = through ss (sent c ∷ []) w in ended c x (end_procs ss)

-- `finishFuncs`, given what the `Finish` of each proc returns, and `Chain.Finish`.
unfoldable pub finish_funcs : {S : Type 0} → (S → Option Error) → List S → List (Option Error)
finish_funcs fin ss = map fin ss

unfoldable pub finish : {W : Type 0} → (Stage W → Option Error) → List (Stage W) → Option Error
unfolding finish_funcs Concur.first_err
finish fin ss = Concur.first_err (finish_funcs fin ss)

abbrev pub Among : Res → List Res → Type 0
Among r rs = (before : List Res) × (after : List Res) × (rs ≡ before ++ r ∷ after)

Among-right : (r : Res) (xs ys : List Res) → Among r ys → Among r (xs ++ ys)
Among-right r xs ys (before, after, e) =
    (xs ++ before, after, ap (λ zs. xs ++ zs) e ∙ sym (append_assoc xs before (r ∷ after)))

Among-left : (r : Res) (xs ys : List Res) → Among r xs → Among r (xs ++ ys)
Among-left r xs ys (before, after, e) =
    (before, after ++ ys, ap (λ zs. zs ++ ys) e ∙ append_assoc before (r ∷ after) ys)

module _ {W : Type 0} where
  stage-keeps :
      (s : Stage W) (rs : List Res) (w : W) (r : Res) (e : Error)
      → s.process_err ≡ none
      → r.err ≡ some e
      → Among r rs
      → Among r (stage s rs w).0
  unfolding stage handle
  stage-keeps s [] w r e handles err ([], after, split) = cc
  stage-keeps s [] w r e handles err (x ∷ before, after, split) = cc
  stage-keeps s (q ∷ rs) w r e handles err ([], after, split) =
      let same : handle s q w ≡ (r ∷ [], w) =
        let same_res : q ≡ r = cc in
        let passed : handle s r w ≡ (r ∷ [], w) = simp (err, handles, handle) in
        subst (λ q. handle s q w ≡ (r ∷ [], w)) (sym same_res) passed in
      ([], (stage s rs (handle s q w).1).0, ap (λ x. x.0 ++ (stage s rs (handle s q w).1).0) same)
  stage-keeps s (q ∷ rs) w r e handles err (x ∷ before, after, split) =
      Among-right r (handle s q w).0 (stage s rs (handle s q w).1).0
        (stage-keeps s rs (handle s q w).1 r e handles err (before, after, ap (drop 1) split))

  through-keeps :
      (ss : List (Stage W)) (rs : List Res) (w : W) (r : Res) (e : Error)
      → All (λ s. s.process_err ≡ none) ss
      → r.err ≡ some e
      → Among r rs
      → Among r (through ss rs w).0
  unfolding through
  through-keeps [] rs w r e none_handles err among = among
  through-keeps (s ∷ ss) rs w r e handles err among =
      through-keeps ss (stage s rs w).0 (stage s rs w).1 r e handles.1 err
        (stage-keeps s rs w r e handles.0 err among)

  through-append :
      (ss ts : List (Stage W)) (rs : List Res) (w : W)
      → through (ss ++ ts) rs w ≡ through ts (through ss rs w).0 (through ss rs w).1
  unfolding through
  through-append [] ts rs w = refl
  through-append (s ∷ ss) ts rs w = through-append ss ts (stage s rs w).0 (stage s rs w).1

  -- An error that the procs in front of a chain yield is among the results of the chain, unless
  -- a proc behind them handles errors; the calls at the chain's end do not lose it either.
  pub chain-keeps_errors :
      (ss ts : List (Stage W)) (c : Chunk) (w : W) (r : Res) (e : Error)
      → All (λ s. s.process_err ≡ none) ts
      → r.err ≡ some e
      → Among r (through ss (sent c ∷ []) w).0
      → Among r (chain (ss ++ ts) c w).0
  unfolding chain ended end_stage end_call
  chain-keeps_errors ss ts c w r e handles err among =
      let x = through (ss ++ ts) (sent c ∷ []) w in
      let kept : Among r x.0 =
        subst (λ y. Among r y.0) (sym (through-append ss ts (sent c ∷ []) w))
          (through-keeps ts (through ss (sent c ∷ []) w).0 (through ss (sent c ∷ []) w).1 r e
            handles err among) in
      elim (end_procs (ss ++ ts)) as (λ es. Among r (ended c x es).0) [
        | [] ↦ kept
        | ◌∷◌ f es ↦
            Among-left r (stage (end_call (f ∷ es) c) x.0 x.1).0
              (end_result (call_ends (f ∷ es) c (stage (end_call (f ∷ es) c) x.0 x.1).1).0)
              (stage-keeps (end_call (f ∷ es) c) x.0 x.1 r e refl err kept)
      ]

-- ===== src/Stores/Striping/InMemory.antt =====
-- stores/mem.go as the stores of stores/stripe/stripe.go: memory stores keep what they are given.
use scat.Prelude.{
  ℕ, ◌≡◌, refl, ap, ◌∙◌, ◌≢◌, ◌⊎◌, inl, inr, true, false, ◌&&◌, Option, none, some, List, [], ◌∷◌,
  arith, ◌==◌, if◌then◌else◌, ==_iff, ==_refl, Bool-cases, Option-cases,
}
use scat.Prelude.Dict.{lookup, insert, has, lookup-insert, has-lookup, has_of_lookup}
use scat.Chunk.{with_data, Chunk, Bytes, payload, hash, bytes_data, read}
use scat.Chunk
use scat.Errors.{Error, missing_data, no_stored_data}
use scat.Procs.{Proc, single_res, first_err}
use scat.Procs.Combine.{chunk_func}
use scat.Stores.Mem.{Store}
use scat.Stores.Mem
use scat.Stores.Striping.Kept.{Keeps, Holds}
use scat.Stores.Striping.Restored.{Gives}
use scat.Stores.Striping.Restarted.{Lists}
use scat.Stores.Listing.{listed}

-- The memory stores by identity.
abbrev pub Mems : Type 0
Mems = ℕ → Store

-- `Mem.Proc` of one of them. The panic of a second read of reader data is given as an error.
unfoldable pub mem_proc : ℕ → Proc Mems
mem_proc l c w = elim (Mem.process (w l) c) [
  | none ↦ (single_res c (some (Error.foreign 0)), w)
  | some (s, e) ↦ (single_res c e, λ i. if l == i then s else w i)
]

abbrev answered : Chunk → Mems → Chunk ⊎ Error → (Chunk × Option Error) × Mems
answered c w (inl d) = ((d, none), w)
answered c w (inr e) = ((c, some e), w)

-- `Mem.Unproc` of one of them.
unfoldable pub mem_copier : ℕ → Proc Mems
unfolding chunk_func
mem_copier l = chunk_func (λ c w. answered c w (Mem.unprocess (w l) c))

abbrev pub read_mem : Mems → ℕ → ℕ → Option Bytes
read_mem w l h = lookup h (w l)

-- A put stores under the hash, at its store; or it fails, and all stays.
PutOk : ℕ → Chunk → Mems → Type 0
PutOk l c w =
    (b : Bytes) × ((x : Bytes) → payload c ≡ bytes_data x → b ≡ x)
    × (first_err (mem_proc l c w).0 ≡ none)
    × ((i h : ℕ)
        → read_mem (mem_proc l c w).1 i h
          ≡ (if l == i && hash c == h then some b else read_mem w i h))

PutFails : ℕ → Chunk → Mems → Type 0
PutFails l c w =
    (first_err (mem_proc l c w).0 ≢ none)
    × ((i h : ℕ) → read_mem (mem_proc l c w).1 i h ≡ read_mem w i h)

pub lookup_at :
    (l i h k : ℕ) (b : Bytes) (w : Mems)
    → lookup h (if l == i then insert k b (w l) else w i)
      ≡ (if l == i && k == h then some b else lookup h (w i))
lookup_at l i h k b w = elim (Bool-cases (l == i)) [
  | inl own ↦
      let same : w l ≡ w i = ap w ((==_iff l i).0 own) in
      rw own (lookup-insert k h b (w l) ∙ ap (λ s. if k == h then some b else lookup h s) same)
  | inr other ↦ rw other refl
]

unchanged : (l i h : ℕ) (w : Mems) → lookup h (if l == i then w l else w i) ≡ lookup h (w i)
unchanged l i h w = elim (Bool-cases (l == i)) [
  | inl own ↦ rw own (ap (λ j. lookup h (w j)) ((==_iff l i).0 own))
  | inr other ↦ rw other refl
]

mem_proc-cases : (l : ℕ) (c : Chunk) (w : Mems) → PutOk l c w ⊎ PutFails l c w
unfolding mem_proc Mem.process read first_err PutOk PutFails Mem.set_data
mem_proc-cases l (Chunk.chunk n (bytes_data b) k z m) w =
    inl (b, λ x e. ground arith, refl, λ i h. lookup_at l i h k b w)
mem_proc-cases l (Chunk.chunk n (Chunk.Data.reader_data b none true) k z m) w =
    inl (b, λ x e. absurd (ground arith), refl, λ i h. lookup_at l i h k b w)
mem_proc-cases l (Chunk.chunk n (Chunk.Data.reader_data b (some e) true) k z m) w =
    inr (λ f. absurd (ground arith), λ i h. unchanged l i h w)
mem_proc-cases l (Chunk.chunk n (Chunk.Data.reader_data b r false) k z m) w =
    inr (λ f. absurd (ground arith), λ i h. refl)

-- The memory stores keep what they have taken.
pub mem_proc-Keeps : Keeps mem_proc read_mem
unfolding PutOk PutFails
mem_proc-Keeps = record {
  stores = λ l c w b holds fine. elim (mem_proc-cases l c w) [
    | inr bad ↦ absurd (bad.0 fine)
    | inl (x, own, ok, now) ↦
        ground (arith, now l (hash c), own b holds, ==_refl l, ==_refl (hash c))
  ];
  leaves = λ l c w i h other. elim (mem_proc-cases l c w) [
    | inr (bad, same) ↦ same i h
    | inl (x, own, ok, now) ↦ ground (arith, now i h)
  ];
  fails = λ l c w i h e bad. elim (mem_proc-cases l c w) [
    | inr (failed, same) ↦ same i h
    | inl (x, own, ok, now) ↦ absurd (ground arith)
  ];
}

pub mem_proc-accepts :
    (content : ℕ → Bytes) (l : ℕ) (c : Chunk) (w : Mems)
    → Holds content c
    → first_err (mem_proc l c w).0 ≡ none
unfolding mem_proc Mem.process read first_err
mem_proc-accepts content l (Chunk.chunk n (bytes_data b) k z m) w holds = refl
mem_proc-accepts content l (Chunk.chunk n (Chunk.Data.reader_data b r o) k z m) w holds =
    absurd (ground arith)

abbrev given : Chunk → Option Bytes → Chunk ⊎ Error
given d none = inr (missing_data no_stored_data)
given d (some b) = inl (with_data d (bytes_data b))

-- They give what they keep.
pub mem_copier-Gives : Gives mem_copier read_mem
unfolding mem_copier chunk_func Mem.unprocess
mem_copier-Gives l d w b e =
    let found : Mem.unprocess (w l) d ≡ inl (with_data d (bytes_data b)) = ap (λ x. given d x) e in
    ap (λ x. chunk_func (λ c v. answered c v x) d w) found

-- `Mem.Ls` of one of them.
unfoldable pub mem_ls : Mems → ℕ → List Mem.LsEntry
unfolding Mem.ls
mem_ls w l = Mem.ls (w l)

listed-ls : (s : Store) (h : ℕ) → listed h (Mem.ls s) ≡ has h s
unfolding Mem.ls has lookup
listed-ls [] h = refl
listed-ls ((k, b) ∷ s) h = ground (arith, listed-ls s h)

-- They list what they keep.
pub mem_ls-Lists : Lists mem_ls read_mem
unfolding mem_ls
mem_ls-Lists = record {
  readable = λ w l h e. elim (Option-cases (lookup h (w l))) [
    | inl gone ↦ absurd (ground (arith, e, listed-ls (w l) h, has-lookup h (w l)))
    | inr (b, there) ↦ (b, there)
  ];
  shown = λ w l h b e. listed-ls (w l) h ∙ has_of_lookup h (w l) e;
}

-- ===== src/Stores/Striping/Restored.antt =====
-- stores/multireader.go after stores/stripe/stripe.go: reading what the copies have stored.
use scat.Prelude.{
  ℕ, zero, suc, ◌<◌, ◌≡◌, refl, sym, ap, ◌∙◌, ◌≢◌, inl, inr, true, Option, none, some, List, [],
  ◌∷◌, map, arith, ◌==◌, ==_iff, Bool-cases, Option-cases, length, get_elem?, All,
}
use scat.Prelude.Dict.{elem, elem-keys}
use scat.Chunk.{Chunk, Bytes, bytes_data, hash, with_data}
use scat.Procs.{Proc, sent, first_err}
use scat.Procs.Combine.{cascade, cascade_from-stop, on_end, ran}
use scat.Stores.Copies.{Reg, list, owners, contains}
use scat.Stores.Copies.History.{owned}
use scat.Stores.Listing.{shuffle}
use scat.Stores.MultiReader.{drop_owner, guarded, last, process, read_from}
use scat.Stores.Striping.{Striper, Infos, group_chunks, gather, procs}
use scat.Stores.Striping.Copying.{copy_procs}
use scat.Stores.Striping.Kept.{Keeps, Holds, IsTrue}
use scat.Stores.Striping.Stored.{copies-IsTrue}

-- What copiers promise: they send the chunk with what can be read under its hash.
abbrev pub Gives : {W : Type 0} → (ℕ → Proc W) → (W → ℕ → ℕ → Option Bytes) → Type 0
Gives {W} copier read =
    (l : ℕ) (d : Chunk) (w : W) (b : Bytes)
    → read w l (hash d) ≡ some b
    → copier l d w ≡ (sent (with_data d (bytes_data b)) ∷ [], w)

-- What `rand.Perm` promises: each index is drawn.
abbrev pub DrawsAll : (ℕ → List ℕ) → Type 0
DrawsAll perm = (n k : ℕ) → k < n → elem k (perm n) ≡ true

get_elem?-elem : (cs : List ℕ) (i x : ℕ) → get_elem? cs i ≡ some x → elem x cs ≡ true
unfolding elem
get_elem?-elem [] i x e = absurd (ground arith)
get_elem?-elem (c ∷ cs) zero x e = ground arith
get_elem?-elem (c ∷ cs) (suc i) x e = ground (arith, get_elem?-elem cs i x e)

elem-shuffle : (is cs : List ℕ) (x : ℕ) → elem x (shuffle is cs) ≡ true → elem x cs ≡ true
unfolding shuffle elem
elem-shuffle [] cs x e = absurd (ground arith)
elem-shuffle (i ∷ is) cs x e = elim (Option-cases (get_elem? cs i)) [
  | inl out ↦ elem-shuffle is cs x (ground arith)
  | inr (c, there) ↦ elim (Bool-cases (c == x)) [
    | inl own ↦ get_elem?-elem cs i x (there ∙ ap some ((==_iff c x).0 own))
    | inr other ↦ elem-shuffle is cs x (ground arith)
  ]
]

shuffle-nonempty : (is : List ℕ) (c : ℕ) (cs : List ℕ) → elem 0 is ≡ true → shuffle is (c ∷ cs) ≢ []
unfolding shuffle elem
shuffle-nonempty [] c cs e n = ground arith
shuffle-nonempty (zero ∷ is) c cs e n = ground arith
shuffle-nonempty (suc i ∷ is) c cs e n = elim (Option-cases (get_elem? cs i)) [
  | inl out ↦ shuffle-nonempty is c cs (ground arith) (ground arith)
  | inr (x, there) ↦ ground arith
]

shuffle-draws :
    (perm : ℕ → List ℕ) (cs : List ℕ) (l : ℕ)
    → DrawsAll perm
    → elem l cs ≡ true
    → shuffle (perm (length cs)) cs ≢ []
unfolding elem
shuffle-draws perm [] l draws e = absurd (ground arith)
shuffle-draws perm (c ∷ cs) l draws e =
    shuffle-nonempty (perm (length (c ∷ cs))) c cs (draws (length (c ∷ cs)) 0 (omega arith))

module _ {W : Type 0} (copier : ℕ → Proc W) (read : W → ℕ → ℕ → Option Bytes)
    (gives : Gives copier read) where
  -- The first copier that is tried can give the chunk.
  read_from-first :
      (o : ℕ) (os : List ℕ) (d : Chunk) (w : W) (r : Reg) (b : Bytes)
      → read w o (hash d) ≡ some b
      → read_from copier (o ∷ os) d (w, r) ≡ (sent (with_data d (bytes_data b)) ∷ [], (w, r))
  unfolding read_from cascade on_end first_err
  read_from-first o os d w r b e =
      let given = gives o d w b e in
      let z = last o os in
      let fine : first_err (copier o d w).0 ≡ none = ap (λ x. first_err x.0) given in
      cascade_from-stop (guarded copier z o) (map (guarded copier z) os) d [] (w, r) fine
      ∙ ap (λ x. ((copier o d w).0, drop_owner z x ((copier o d w).1, r))) fine
      ∙ ap (λ x. (x.0, (x.1, r))) given

  read_from-all :
      (os : List ℕ) (d : Chunk) (w : W) (r : Reg) (b : Bytes)
      → os ≢ []
      → ((o : ℕ) → elem o os ≡ true → read w o (hash d) ≡ some b)
      → read_from copier os d (w, r) ≡ (sent (with_data d (bytes_data b)) ∷ [], (w, r))
  unfolding elem
  read_from-all [] d w r b some_ all = absurd (some_ refl)
  read_from-all (o ∷ os) d w r b some_ all = read_from-first o os d w r b (all o (ground arith))

  -- If what the reader's registry says of the chunk is true, and names a store, the chunk is read.
  pub process-reads :
      (perm : ℕ → List ℕ) (d : Chunk) (w : W) (r : Reg) (b : Bytes) (l : ℕ)
      → DrawsAll perm
      → owned r (hash d) l ≡ true
      → ((o : ℕ) → owned r (hash d) o ≡ true → read w o (hash d) ≡ some b)
      → process copier perm d (w, r)
        ≡ (sent (with_data d (bytes_data b)) ∷ [], (w, (list r (hash d)).0))
  unfolding process contains owners
  process-reads perm d w r b l draws named all =
      let os = (list r (hash d)).1 in
      read_from-all (shuffle (perm (length (owners os))) (owners os)) d w (list r (hash d)).0 b
        (shuffle-draws perm (owners os) l draws (elem-keys l os ∙ named))
        (λ o e.
          all o (sym (elem-keys o os) ∙ elem-shuffle (perm (length (owners os))) (owners os) o e))

-- Whatever copies of a group were made: if a reader knows a store of a chunk, and only such stores
-- as the registry of the striping proc knows, then it reads the chunk's bytes without an error, at
-- the first store that it tries, whatever order is drawn. Stores keep what they take and copiers
-- give what is stored, the group's chunks hold what their hashes stand for, and what the registry
-- said before is true.
pub process-restored :
    {W : Type 0} (store copier : ℕ → Proc W) (read : W → ℕ → ℕ → Option Bytes) (content : ℕ → Bytes)
    (fuel : ℕ) (sp : Striper) (c : Chunk) (infos : Infos) (n : ℕ) (cs : List Chunk)
    (order : List (ℕ × ℕ)) (w : W) (perm : ℕ → List ℕ) (reg : Reg) (d : Chunk) (l : ℕ)
    → Keeps store read
    → Gives copier read
    → DrawsAll perm
    → gather (group_chunks c) [] 0 ≡ inl (infos, n)
    → All (Holds content) (group_chunks c)
    → IsTrue store read content (w, sp)
    → owned reg (hash d) l ≡ true
    → ((o : ℕ)
        → owned reg (hash d) o ≡ true
        → owned (ran (copy_procs store cs infos order) c (w, (procs fuel sp c).0)).1.reg (hash d) o
          ≡ true)
    → let done = ran (copy_procs store cs infos order) c (w, (procs fuel sp c).0) in
      process copier perm d (done.0, reg)
      ≡ (sent (with_data d (bytes_data (content (hash d)))) ∷ [], (done.0, (list reg (hash d)).0))
process-restored store copier read content fuel sp c infos n cs order w perm reg d l k gives draws
      good holds t named only =
    let done = ran (copy_procs store cs infos order) c (w, (procs fuel sp c).0) in
    process-reads copier read gives perm d done.0 reg (content (hash d)) l draws named (λ o e.
      copies-IsTrue store read content fuel sp c infos n cs order w k good holds t (hash d) o
        (only o e))

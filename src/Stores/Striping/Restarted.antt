-- ===== src/Stores/Striping/Restarted.antt =====
-- stores/stripe/stripe.go and stores/multireader.go: reading in a new process, which knows of the
-- stores what they list.
use scat.Prelude.{
  ℕ, ◌≤◌, ◌≡◌, refl, sym, ap, ◌∙◌, subst, inl, inr, true, ◌&&◌, Option, none, some, List, [], ◌∷◌,
  map, arith, ◌==◌, ==_iff, Bool-cases, Option-cases, length, All,
}
use scat.Prelude.Dict.{lookup, has, elem, Locs}
use scat.Chunk.{Chunk, Bytes, bytes_data, hash, with_data}
use scat.Procs.{Proc, sent, first_err}
use scat.Procs.Combine.{ran}
use scat.Stores.Copies.{list, contains, new_reg}
use scat.Stores.Copies.History.{owned}
use scat.Stores.Mem.{LsEntry}
use scat.Stores.Listing.{Lister, listed, offered, add_entries-owns}
use scat.Stores.MultiReader.{new_multi_reader, process}
use scat.Stores.Striping.{Striper, Infos, group_chunks, gather, plan, procs}
use scat.Stores.Striping.Copying.{copy_proc, copy_procs, slice_proc}
use scat.Stores.Striping.Placed.{goes}
use scat.Stores.Striping.Kept.{
  Keeps, Holds, IsTrue, Sound, Sound-nil, gather-Sound, copy_proc-unknown, copy_proc-known,
}
use scat.Stores.Striping.Stored.{procs-stored}
use scat.Stores.Striping.Restored.{Gives, DrawsAll, process-reads}

-- What stores promise of `Ls`: it has an entry for just what can be read.
pub record Lists {W : Type 0} (lists : W → ℕ → List LsEntry) (read : W → ℕ → ℕ → Option Bytes)
    : Type 0 where
  pub readable :
      (w : W) (l h : ℕ) → listed h (lists w l) ≡ true → (b : Bytes) × (read w l h ≡ some b)
  pub shown : (w : W) (l h : ℕ) (b : Bytes) → read w l h ≡ some b → listed h (lists w l) ≡ true

-- The stores, each with its listing.
abbrev pub listers : {W : Type 0} → (W → ℕ → List LsEntry) → W → List ℕ → List Lister
listers lists w ids = map (λ l. (l, inl (lists w l))) ids

-- Stores have nothing under a hash but what it stands for.
abbrev pub IsHonest : {W : Type 0} → (W → ℕ → ℕ → Option Bytes) → (ℕ → Bytes) → W → Type 0
IsHonest read content w = (o h : ℕ) (b : Bytes) → read w o h ≡ some b → b ≡ content h

offered-listers :
    {W : Type 0} (lists : W → ℕ → List LsEntry) (w : W) (ids : List ℕ) (h o : ℕ)
    → offered h o (listers lists w ids) ≡ (elem o ids && listed h (lists w o))
unfolding elem
offered-listers lists w [] h o = refl
offered-listers lists w (l ∷ ids) h o = elim (Bool-cases (l == o)) [
  | inl own ↦
      let same : listed h (lists w l) ≡ listed h (lists w o) =
        ap (λ i. listed h (lists w i)) ((==_iff l o).0 own) in
      ground (arith, own, same, offered-listers lists w ids h o)
  | inr other ↦ ground (arith, other, offered-listers lists w ids h o)
]

owned-new_multi_reader :
    {W : Type 0} (lists : W → ℕ → List LsEntry) (w : W) (ids : List ℕ) (h o : ℕ)
    → owned (new_multi_reader (listers lists w ids)).0 h o ≡ (elem o ids && listed h (lists w o))
unfolding new_multi_reader contains list lookup has
owned-new_multi_reader lists w ids h o =
    let now = (add_entries-owns new_reg (listers lists w ids)).0 h o in
    ground (arith, now, offered-listers lists w ids h o)

module _ {W : Type 0} (store : ℕ → Proc W) (read : W → ℕ → ℕ → Option Bytes) (content : ℕ → Bytes)
    (k : Keeps store read) where
  stored-IsHonest :
      (l : ℕ) (c : Chunk) (w : W)
      → Holds content c
      → IsHonest read content w
      → IsHonest read content (store l c w).1
  stored-IsHonest l c w holds honest o h b r = elim (Option-cases (first_err (store l c w).0)) [
    | inr (e, bad) ↦ honest o h b (sym (k.fails l c w o h e bad) ∙ r)
    | inl fine ↦ elim (Bool-cases (l == o && hash c == h)) [
      | inr other ↦ honest o h b (sym (k.leaves l c w o h other) ∙ r)
      | inl own ↦
          let at_l : l ≡ o = ground arith in
          let at_h : hash c ≡ h = ground arith in
          let there : read (store l c w).1 o h ≡ some (content h) =
            subst (λ i. read (store l c w).1 i h ≡ some (content h)) at_l
              (subst (λ i. read (store l c w).1 l i ≡ some (content i)) at_h
                (k.stores l c w (content (hash c)) holds fine)) in
          ground (arith, there, r)
    ]
  ]

  in_turn-IsHonest :
      (infos : Infos) (order : List (ℕ × ℕ)) (c : Chunk) (w : W × Striper)
      → Sound content infos
      → IsHonest read content w.0
      → IsHonest read content (ran (map (copy_proc store infos) order) c w).0
  in_turn-IsHonest infos [] c w sound honest = honest
  in_turn-IsHonest infos ((h, l) ∷ order) c w sound honest =
      in_turn-IsHonest infos order c (copy_proc store infos (h, l) c w).1 sound
        (elim (Option-cases (lookup h infos)) [
          | inl unknown ↦
              subst (IsHonest read content)
                (sym (ap (λ x. x.1.0) (copy_proc-unknown store read content infos h l c w unknown)))
                honest
          | inr ((own, n), there) ↦
              subst (IsHonest read content)
                (sym (ap (λ x. x.0) (copy_proc-known store read content infos h l own n c w there)))
                (stored-IsHonest l own w.0 (sound h own n there).1 honest)
        ])

-- A new reader of these stores reads what one of them has.
new_multi_reader-reads :
    {W : Type 0} (copier : ℕ → Proc W) (read : W → ℕ → ℕ → Option Bytes)
    (lists : W → ℕ → List LsEntry) (content : ℕ → Bytes) (perm : ℕ → List ℕ) (ids : List ℕ)
    (d : Chunk) (w : W) (l : ℕ) (b : Bytes)
    → Gives copier read
    → Lists lists read
    → DrawsAll perm
    → IsHonest read content w
    → elem l ids ≡ true
    → read w l (hash d) ≡ some b
    → (process copier perm d (w, (new_multi_reader (listers lists w ids)).0)).0
      ≡ sent (with_data d (bytes_data (content (hash d)))) ∷ []
new_multi_reader-reads copier read lists content perm ids d w l b gives lists_all draws honest given
      has_it =
    let reg = (new_multi_reader (listers lists w ids)).0 in
    ap (λ x. x.0)
      (process-reads copier read gives perm d w reg (content (hash d)) l draws
        (owned-new_multi_reader lists w ids (hash d) l
          ∙ ground (arith, given, lists_all.shown w l (hash d) b has_it))
        (λ o e.
          let shown : listed (hash d) (lists w o) ≡ true =
            ground (arith, owned-new_multi_reader lists w ids (hash d) o) in
          let (x, there) = lists_all.readable w o (hash d) shown in
          there ∙ ap some (honest o (hash d) x there)))

first_of : (held : Locs) → 1 ≤ length held → (l : ℕ) × (has l held ≡ true)
unfolding has lookup
first_of [] e = absurd (omega arith)
first_of ((l, u) ∷ held) e = (l, ground arith)

-- All copies that are planned for a group are made, in any order, by stores that take chunks with
-- data. Then a new reader reads each chunk of the group, without an error and whatever order is
-- drawn, knowing of the stores only what they list. It is given all stores that have the chunk,
-- and the configuration asks for at least one copy; what the stores held and what the registry
-- said before was true.
pub procs-reread :
    {W : Type 0} (store copier : ℕ → Proc W) (read : W → ℕ → ℕ → Option Bytes)
    (lists : W → ℕ → List LsEntry) (content : ℕ → Bytes) (fuel : ℕ) (sp : Striper) (c : Chunk)
    (infos : Infos) (n : ℕ) (cs : List Chunk) (copies order : List (ℕ × ℕ)) (w : W)
    (perm : ℕ → List ℕ) (ids : List ℕ) (d : Chunk)
    → Keeps store read
    → Gives copier read
    → Lists lists read
    → DrawsAll perm
    → ((l : ℕ) (e : Chunk) (v : W) → Holds content e → first_err (store l e v).0 ≡ none)
    → gather (group_chunks c) [] 0 ≡ inl (infos, n)
    → All (Holds content) (group_chunks c)
    → IsTrue store read content (w, sp)
    → IsHonest read content w
    → 1 ≤ sp.cfg.min_copies
    → (procs fuel sp c).1 ≡ plan cs copies
    → ((h l : ℕ) → goes h l copies ≡ true → goes h l order ≡ true)
    → has (hash d) infos ≡ true
    → ((l : ℕ) (b : Bytes)
        → read (ran (copy_procs store cs infos order) c (w, (procs fuel sp c).0)).0 l (hash d)
          ≡ some b
        → elem l ids ≡ true)
    → let v = (ran (copy_procs store cs infos order) c (w, (procs fuel sp c).0)).0 in
      (process copier perm d (v, (new_multi_reader (listers lists v ids)).0)).0
      ≡ sent (with_data d (bytes_data (content (hash d)))) ∷ []
procs-reread store copier read lists content fuel sp c infos n cs copies order w perm ids d k gives
      lists_all draws accept good holds t honest some_copy planned_as all in_group known =
    let v = (ran (copy_procs store cs infos order) c (w, (procs fuel sp c).0)).0 in
    let (held, distinct, many, at) =
      procs-stored store read content fuel sp c infos n cs copies order w k accept good holds t
        planned_as all (hash d) in_group in
    let (l, there) = first_of held (omega (arith, many, some_copy)) in
    let sound = gather-Sound content (group_chunks c) [] infos 0 n holds (Sound-nil content) good in
    let still : IsHonest read content v =
      unfold copy_procs slice_proc in
      in_turn-IsHonest store read content k infos order c (w, (procs fuel sp c).0) sound honest in
    new_multi_reader-reads copier read lists content perm ids d v l (content (hash d)) gives
      lists_all draws still (known l (content (hash d)) (at l there)) (at l there)

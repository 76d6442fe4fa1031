-- ===== src/Procs/Parity/Recovery.antt =====
-- procs/parity.go: what is split and loses no more shards than there are parity shards is joined
-- to the same data.
use scat.Prelude.{
  ℕ, suc, ◌*◌, ◌≤◌, ◌≡◌, refl, sym, ap, subst, ◌⊎◌, inl, inr, true, none, some, List, [], ◌∷◌, map,
  arith, ltb, ◌==◌, Bool-cases, Option-cases, length,
}
use scat.Chunk.{
  meta, meta_group_err, Chunk, Bytes, bytes_data, num, payload, target_size, with_data, size, read,
}
use scat.Errors.{Error}
use scat.Procs.{sent}
use scat.Group.{get_group, get_group_err}
use scat.Procs.Parity.{
  Shards, Encoder, Parity, split, shard_results, process, group_of, recoverable, shards_of,
  restored, checked, join, unprocess,
}

-- These shards are among the encoded ones, some missing.
abbrev pub Survives : List Bytes → Shards → Type 0
Survives [] [] = Unit
Survives [] (b ∷ bs) = ⊥
Survives (t ∷ ts) [] = ⊥
Survives (t ∷ ts) (none ∷ bs) = Survives ts bs
Survives (t ∷ ts) (some b ∷ bs) = (b ≡ t) × Survives ts bs

abbrev pub missing : Shards → ℕ
missing [] = 0
missing (none ∷ bs) = suc (missing bs)
missing (some b ∷ bs) = missing bs

-- What the encoder is documented to do, for these data and their encoded shards.
pub record Encodes (enc : Encoder) (nparity : ℕ) (b : Bytes) (ts : List Bytes) : Type 0 where
  pub parts : List Bytes
  pub splits : enc.split b ≡ inl parts
  pub encodes : enc.encode parts ≡ inl ts
  pub reconstructs :
      (bs : Shards) → Survives ts bs → missing bs ≤ nparity → enc.reconstruct bs ≡ inl (map some ts)
  pub verifies : enc.verify (map some ts) ≡ inl true
  pub joins : enc.join (map some ts) (length b) ≡ inl b

-- The chunks of a group against the shards: each has its shard's bytes, or an error in its meta
-- data that parity recovers from.
abbrev pub Arrived : List Bytes → List Chunk → Type 0
Arrived [] [] = Unit
Arrived [] (c ∷ cs) = ⊥
Arrived (t ∷ ts) [] = ⊥
Arrived (t ∷ ts) (c ∷ cs) =
    (((get_group_err c ≡ none) × (payload c ≡ bytes_data t))
      ⊎ ((e : Error) × (get_group_err c ≡ some e) × (recoverable e ≡ true)))
    × Arrived ts cs

abbrev pub marred : List Chunk → ℕ
marred [] = 0
marred (c ∷ cs) = elim (get_group_err c) [ none ↦ marred cs | some _ ↦ suc (marred cs) ]

abbrev left : List Bytes → List Chunk → Shards
left [] cs = []
left (t ∷ ts) [] = []
left (t ∷ ts) (c ∷ cs) = elim (get_group_err c) [
  | none ↦ some t ∷ left ts cs
  | some _ ↦ none ∷ left ts cs
]

left-Survives :
    (ts : List Bytes) (cs : List Chunk)
    → Arrived ts cs
    → Survives ts (left ts cs) × (missing (left ts cs) ≡ marred cs)
left-Survives [] [] a = (tt, refl)
left-Survives [] (c ∷ cs) a = absurd a
left-Survives (t ∷ ts) [] a = absurd a
left-Survives (t ∷ ts) (c ∷ cs) a =
    let ih = left-Survives ts cs a.1 in
    elim (Option-cases (get_group_err c)) [
      | inl e ↦ rw (e, left, marred) ((refl, ih.0), ih.1)
      | inr (f, e) ↦ rw (e, left, marred) (ih.0, ap suc ih.1)
    ]

left-whole :
    (ts : List Bytes) (cs : List Chunk) → Arrived ts cs → marred cs ≡ 0 → left ts cs ≡ map some ts
left-whole [] cs a m = refl
left-whole (t ∷ ts) [] a m = absurd a
left-whole (t ∷ ts) (c ∷ cs) a m = elim (Option-cases (get_group_err c)) [
  | inl e ↦ rw (e, left) (ap (some t ∷◌) (left-whole ts cs a.1 (ground arith)))
  | inr (f, e) ↦ absurd (ground arith)
]

shards_of-left :
    (ts : List Bytes) (cs : List Chunk)
    → Arrived ts cs
    → shards_of cs ≡ some (inl (left ts cs, ltb 0 (marred cs)))
unfolding shards_of read
shards_of-left [] [] a = refl
shards_of-left [] (c ∷ cs) a = absurd a
shards_of-left (t ∷ ts) [] a = absurd a
shards_of-left (t ∷ ts) (c ∷ cs) (inl (fine, own), a) =
    let ih = shards_of-left ts cs a in
    let clean : meta_group_err (meta c) ≡ none = unfold get_group_err in fine in
    rw (clean, own, ih, shards_of, left, marred) refl
shards_of-left (t ∷ ts) (c ∷ cs) (inr (e, err, rec), a) =
    let ih = shards_of-left ts cs a in
    let lost : meta_group_err (meta c) ≡ some e = unfold get_group_err in err in
    rw (lost, rec, ih, shards_of, left, marred)
      (ap (λ l. some (inl (none ∷ left ts cs, l))) (ground arith))

restored-checked :
    (enc : Encoder) (nparity : ℕ) (b : Bytes) (ts : List Bytes) (cs : List Chunk)
    → Encodes enc nparity b ts
    → Arrived ts cs
    → marred cs ≤ nparity
    → checked enc (length b) (restored enc (left ts cs, ltb 0 (marred cs))) ≡ inl b
restored-checked enc nparity b ts cs code a few =
    let whole : restored enc (left ts cs, ltb 0 (marred cs)) ≡ inl (map some ts) =
      elim (Bool-cases (ltb 0 (marred cs))) [
        | inl some_lost ↦
            let s = left-Survives ts cs a in
            rw (some_lost, restored) (code.reconstructs (left ts cs) s.0 (omega (arith, s.1)))
        | inr none_lost ↦ rw (none_lost, restored) (ap inl (left-whole ts cs a (ground arith)))
      ] in
    rw (whole, checked) (rw (code.verifies, checked) code.joins)

-- With an encoder that does as documented on the data of a chunk, the chunk is split into shards
-- under consecutive numbers, from the chunk's own number times the
-- shards' count on, all with the length of its data as target size. A group of that target size
-- in which each shard's chunk has the shard's bytes or a recoverable error, and at most as many
-- errors as there are parity shards, is joined to exactly these data.
pub parity-recovers :
    (p : Parity) (nparity : ℕ) (c g : Chunk) (b : Bytes) (ts : List Bytes) (cs : List Chunk)
    → Encodes p.enc nparity b ts
    → payload c ≡ bytes_data b
    → get_group g ≡ some cs
    → length cs ≡ p.nshards
    → target_size g ≡ length b
    → Arrived ts cs
    → marred cs ≤ nparity
    → (process p c ≡ some (shard_results (num c * p.nshards) (length b) ts))
      × (unprocess p g ≡ some (sent (with_data g (bytes_data b)) ∷ []))
unfolding process size unprocess join group_of
parity-recovers p nparity c g b ts cs code own group count target a few =
    let one_size : (length cs == p.nshards) ≡ true = ground arith in
    let cut : split p c ≡ some (inl ts) =
      unfold split read in rw (own, split, read) (rw code.splits (ap (λ x. some x) code.encodes)) in
    let done : checked p.enc (target_size g) (restored p.enc (left ts cs, ltb 0 (marred cs)))
        ≡ inl b =
      subst (λ n. checked p.enc n (restored p.enc (left ts cs, ltb 0 (marred cs))) ≡ inl b)
        (sym target) (restored-checked p.enc nparity b ts cs code a few) in
    (
      rw (own, process, size) (rw cut refl),
      rw (group, one_size, shards_of-left ts cs a, unprocess, join, group_of) (rw done refl),
    )

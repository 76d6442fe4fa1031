-- ===== src/Stores/Striping/Known.antt =====
-- stores/stripe/stripe.go: what `Procs` knows before it chooses: the chunks of the group by hash,
-- and the stores that each is at.
use scat.Prelude.{
  ℕ, ◌≡◌, refl, sym, ◌∙◌, subst, inl, inr, ◌||◌, some, List, [], ◌∷◌, arith, ◌==◌, ==_iff,
  Bool-cases,
}
use scat.Prelude.Dict.{
  lookup, insert, has, lookup-insert, elem, IsUnique, insert-IsUnique, elem-keys, has-insert, keys,
  Locs,
}
use scat.Chunk.{Chunk}
use scat.Stores.Copies.{Reg, list, owners, contains}
use scat.Stores.Copies.History.{owned, owned-list}
use scat.Stores.Striping.{Striper, Infos, group_chunks, gather, set_of, current, chosen, procs}
use scat.Stripe.{S, stripe}
use scat.Stores.Quota.{resources}

pub has-set_of : (is : List ℕ) (ls : Locs) (l : ℕ) → has l (set_of is ls) ≡ (elem l is || has l ls)
unfolding set_of elem
has-set_of [] ls l = refl
has-set_of (i ∷ is) ls l = ground (arith, has-set_of is (insert i tt ls) l, has-insert i l tt ls)

-- The stores of a chunk, as `Procs` reads them.
abbrev pub stores_of : Reg → ℕ → Locs
stores_of reg h = set_of (owners (list reg h).1) []

has-stores_of : (reg : Reg) (h l : ℕ) → has l (stores_of reg h) ≡ owned reg h l
unfolding owners contains has
has-stores_of reg h l =
    ground (arith, has-set_of (keys (list reg h).1) [] l, elem-keys l (list reg h).1)

-- What a map says of the stores agrees with the registry.
abbrev pub IsRight : Reg → S → Type 0
IsRight reg s = (h : ℕ) (got : Locs) → lookup h s ≡ some got → (l : ℕ) → has l got ≡ owned reg h l

insert-IsRight :
    (reg : Reg) (h : ℕ) (s : S) → IsRight reg s → IsRight reg (insert h (stores_of reg h) s)
insert-IsRight reg h s r k got e l = elim (Bool-cases (h == k)) [
  | inl own ↦
      let same : stores_of reg h ≡ got = ground (arith, lookup-insert h k (stores_of reg h) s) in
      subst (λ k. has l got ≡ owned reg k l) ((==_iff h k).0 own)
        (subst (λ g. has l g ≡ owned reg h l) same (has-stores_of reg h l))
  | inr other ↦ r k got (ground (arith, lookup-insert h k (stores_of reg h) s)) l
]

-- `current` for any map to start from.
pub record Read (reg reg' : Reg) (hs : List ℕ) (s t : S) : Type 0 where
  pub same_owners : (h o : ℕ) → owned reg' h o ≡ owned reg h o
  pub unique : IsUnique s → IsUnique t
  pub hashes : (h : ℕ) → has h t ≡ (elem h hs || has h s)
  pub right : IsRight reg s → IsRight reg t

pub current-Read :
    (hs : List ℕ) (reg : Reg) (s : S) → Read reg (current hs reg s).0 hs s (current hs reg s).1
unfolding current elem
current-Read [] reg s = record {
  same_owners = λ h o. refl;
  unique = λ u. u;
  hashes = λ h. refl;
  right = λ r. r;
}
current-Read (h ∷ hs) reg s =
    let reg' = (list reg h).0 in
    let s' = insert h (stores_of reg h) s in
    let rest = current-Read hs reg' s' in
    record {
      same_owners = λ k o. rest.same_owners k o ∙ owned-list reg h k o;
      unique = λ u. rest.unique (insert-IsUnique h (stores_of reg h) s u);
      hashes = λ k. ground (arith, rest.hashes k, has-insert h k (stores_of reg h) s);
      right = λ r k got e l.
          rest.right (λ k got e l. insert-IsRight reg h s r k got e l ∙ sym (owned-list reg h k l))
            k got e l
          ∙ owned-list reg h k l;
    }

-- Where the group is fine, `Procs` ends with the outcome of `Stripe`.
pub procs_good :
    (fuel : ℕ) (sp : Striper) (c : Chunk) (infos : Infos) (n : ℕ)
    → gather (group_chunks c) [] 0 ≡ inl (infos, n)
    → procs fuel sp c ≡ (
        let (reg, s) = current (keys infos) sp.reg [] in
        let all = set_of (resources sp.qman n) [] in
        chosen sp infos all reg (stripe fuel sp.cfg s all sp.seq))
unfolding procs
procs_good fuel sp c infos n good = rw (good, procs) refl

-- ===== src/Argproc/Shown.antt =====
-- argproc/argproc.go: the quotas that the stats show are those of the quota manager.
use scat.Prelude.{
  ℕ, ◌≡◌, refl, sym, ap, ◌∙◌, subst, inl, inr, Bool, true, false, Option, none, some, List, [], ◌∷◌,
  arith, ◌==◌, if◌then◌else◌, ==_iff, ==_refl, Bool-cases, Option-cases,
}
use scat.Prelude.Dict.{lookup, insert, remove, has, lookup-insert, lookup-remove, has-lookup}
use scat.Stats.{Quota, Counter, Statsd, new_counter, counter, new_statsd}
use scat.Stores.Quota.{
  Man, Usage, new_man, add_res_quota, add_use, delete, with_use, with_max, used_up,
}
use scat.Argproc.Reports.{set_quota, report_max, on_use, use_reported, reported, registered}

then_eq : {A : Type 0} (b : Bool) (x y : A) → b ≡ true → (if b then x else y) ≡ x
then_eq b x y e = rw e refl

else_eq : {A : Type 0} (b : Bool) (x y : A) → b ≡ false → (if b then x else y) ≡ y
else_eq b x y e = rw e refl

abbrev quota_in : Option Counter → Quota
quota_in none = record { init = false; use_ = 0; max = 0 }
quota_in (some c) = c.quota

-- What the stats show for an identity.
abbrev pub quota_of : Statsd → ℕ → Quota
quota_of st id = quota_in (lookup id st.counters)

counter-there :
    (st : Statsd) (id : ℕ)
    → (c : Counter) × (lookup id (counter st id).counters ≡ some c) × (c.quota ≡ quota_of st id)
unfolding counter
counter-there st id = elim (Option-cases (lookup id st.counters)) [
  | inr (c, there) ↦
      let known : has id st.counters ≡ true = ground (arith, has-lookup id st.counters) in
      (c, rw known there, sym (ap quota_in there))
  | inl absent ↦
      let unknown : has id st.counters ≡ false = ground (arith, has-lookup id st.counters) in
      (
        new_counter st.next_pos,
        rw unknown
            (lookup-insert id id (new_counter st.next_pos) st.counters ∙ rw (==_refl id) refl),
        sym (ap quota_in absent),
      )
]

counter-elsewhere :
    (st : Statsd) (id j : ℕ)
    → (id == j) ≡ false
    → lookup j (counter st id).counters ≡ lookup j st.counters
unfolding counter
counter-elsewhere st id j e = elim (Bool-cases (has id st.counters)) [
  | inl known ↦ rw known refl
  | inr unknown ↦ rw unknown (lookup-insert id j (new_counter st.next_pos) st.counters ∙ rw e refl)
]

quota_of-set_quota :
    (f : Quota → Quota) (id j : ℕ) (st : Statsd)
    → quota_of (set_quota f id st) j ≡ (if id == j then f (quota_of st j) else quota_of st j)
unfolding set_quota
quota_of-set_quota f id j st =
    let (c, there, same) = counter-there st id in
    let now : lookup j (set_quota f id st).counters ≡ (
        if id == j
        then some (record c { quota = f c.quota })
        else lookup j (counter st id).counters) =
      rw (there, set_quota)
        (lookup-insert id j (record c { quota = f c.quota }) (counter st id).counters) in
    elim (Bool-cases (id == j)) [
      | inl own ↦
          ap quota_in (now ∙ then_eq (id == j) _ _ own)
          ∙ ap f same
          ∙ ap (λ i. f (quota_of st i)) ((==_iff id j).0 own)
          ∙ sym (then_eq (id == j) _ _ own)
      | inr other ↦
          ap quota_in (now ∙ else_eq (id == j) _ _ other ∙ counter-elsewhere st id j other)
          ∙ sym (else_eq (id == j) _ _ other)
    ]

-- The use of a resource, or its removal when a copy to it has failed.
pub data Op : Type 0 where
  used : ℕ → ℕ → Op
  deleted : ℕ → Op

abbrev pub op : Op → Man × Statsd → Man × Statsd
op (used id n) w = use_reported id n w
op (deleted id) w = (delete w.0 id, w.1)

abbrev pub ops : List Op → Man × Statsd → Man × Statsd
ops [] w = w
ops (o ∷ os) w = ops os (op o w)

-- A resource that is there is shown with its use and its quota.
abbrev pub IsShown : Man × Statsd → Type 0
IsShown w =
    (id : ℕ) (u : Usage)
    → lookup id w.0 ≡ some u
    → ((quota_of w.1 id).use_ ≡ u.use_) × ((quota_of w.1 id).max ≡ u.max)

use_absent : (id n : ℕ) (w : Man × Statsd) → lookup id w.0 ≡ none → use_reported id n w ≡ w
unfolding use_reported add_use
use_absent id n w absent = rw (absent, use_reported, add_use) refl

use_present :
    (id n : ℕ) (w : Man × Statsd) (v : Usage)
    → lookup id w.0 ≡ some v
    → use_reported id n w ≡ (
      if used_up (with_use v n) then remove id w.0 else insert id (with_use v n) w.0,
      on_use id (with_use v n).use_ v.max w.1,
    )
unfolding use_reported add_use
use_present id n w v there = rw (there, use_reported, add_use) refl

present-IsShown :
    (id n : ℕ) (w : Man × Statsd) (v : Usage)
    → IsShown w
    → IsShown (
      if used_up (with_use v n) then remove id w.0 else insert id (with_use v n) w.0,
      on_use id (with_use v n).use_ v.max w.1,
    )
unfolding on_use
present-IsShown id n w v h j u e =
    let q =
      quota_of-set_quota (λ q. record q { use_ = (with_use v n).use_; max = v.max }) id j w.1 in
    elim (Bool-cases (id == j)) [
      | inl own ↦
          let now : with_use v n ≡ u = kept own in
          let shows = q ∙ then_eq (id == j) _ _ own in
          (
            ap (λ x. x.use_) shows ∙ ap (λ x. x.use_) now,
            ap (λ x. x.max) shows ∙ ap (λ x. x.max) now,
          )
      | inr other ↦ rw (q, other) (h j u (elsewhere other))
    ]
  where
    kept : (id == j) ≡ true → with_use v n ≡ u
    kept own = ground (arith, lookup-remove id j w.0, lookup-insert id j (with_use v n) w.0)

    elsewhere : (id == j) ≡ false → lookup j w.0 ≡ some u
    elsewhere other = ground (arith, lookup-remove id j w.0, lookup-insert id j (with_use v n) w.0)

op-IsShown : (o : Op) (w : Man × Statsd) → IsShown w → IsShown (op o w)
unfolding delete
op-IsShown (deleted id) w h j u e = h j u (ground (arith, lookup-remove id j w.0))
op-IsShown (used id n) w h j u e = elim (Option-cases (lookup id w.0)) [
  | inl absent ↦ subst IsShown (sym (use_absent id n w absent)) h j u e
  | inr (v, there) ↦
      subst IsShown (sym (use_present id n w v there)) (present-IsShown id n w v h) j u e
]

ops-IsShown : (os : List Op) (w : Man × Statsd) → IsShown w → IsShown (ops os w)
ops-IsShown [] w h = h
ops-IsShown (o ∷ os) w h = ops-IsShown os (op o w) (op-IsShown o w h)

-- Before the first use.
IsFresh : Man × Statsd → Type 0
IsFresh w =
    ((id : ℕ) → (quota_of w.1 id).use_ ≡ 0)
    × ((id : ℕ) (u : Usage)
        → lookup id w.0 ≡ some u
        → (u.use_ ≡ 0) × ((quota_of w.1 id).max ≡ u.max))

one-IsFresh :
    (id max : ℕ) (w : Man × Statsd)
    → IsFresh w
    → IsFresh (add_res_quota w.0 id max, report_max id max w.1)
unfolding IsFresh report_max add_res_quota
one-IsFresh id max w h = (λ j. rw (told j) (ground (arith, h.0 j)), λ j u e. two j u e)
  where
    told :
        (j : ℕ)
        → quota_of (set_quota (λ q. record q { max = max }) id w.1) j
          ≡ (if id == j then record (quota_of w.1 j) { max = max } else quota_of w.1 j)
    told j = quota_of-set_quota (λ q. record q { max = max }) id j w.1

    shown :
        (j : ℕ)
        → (id == j) ≡ true
        → (quota_of (set_quota (λ q. record q { max = max }) id w.1) j).max ≡ max
    shown j own = ap (λ q. q.max) (told j ∙ then_eq (id == j) _ _ own)

    two :
        (j : ℕ) (u : Usage)
        → lookup j (insert id (with_max (lookup id w.0) max) w.0) ≡ some u
        → (u.use_ ≡ 0) × ((quota_of (set_quota (λ q. record q { max = max }) id w.1) j).max ≡ u.max)
    two j u e = elim (Bool-cases (id == j)) [
      | inl own ↦ elim (Option-cases (lookup id w.0)) [
        | inl absent ↦ (
          ground (arith, lookup-insert id j (with_max (lookup id w.0) max) w.0),
          shown j own ∙ ground (arith, lookup-insert id j (with_max (lookup id w.0) max) w.0),
        )
        | inr (v, there) ↦
            let (unused, same) = h.1 id v there in
            (
              ground (arith, lookup-insert id j (with_max (lookup id w.0) max) w.0),
              shown j own ∙ ground (arith, lookup-insert id j (with_max (lookup id w.0) max) w.0),
            )
      ]
      | inr other ↦
          let (unused, same) =
            h.1 j u (ground (arith, lookup-insert id j (with_max (lookup id w.0) max) w.0)) in
          (unused, ap (λ q. q.max) (told j ∙ else_eq (id == j) _ _ other) ∙ same)
    ]

registered-IsFresh :
    (qs : List (ℕ × ℕ)) (w : Man × Statsd)
    → IsFresh w
    → IsFresh (registered qs w.0, reported qs w.1)
unfolding registered reported
registered-IsFresh [] w h = h
registered-IsFresh ((id, max) ∷ qs) w h =
    registered-IsFresh qs (add_res_quota w.0 id max, report_max id max w.1) (one-IsFresh id max w h)

fresh-IsShown : (w : Man × Statsd) → IsFresh w → IsShown w
unfolding IsFresh
fresh-IsShown w h id u e = let (unused, same) = h.1 id u e in (h.0 id ∙ sym unused, same)

-- The quotas of a proc string are told to the stats, then registered; after that, whatever is used
-- or removed, each resource that the quota manager still has is shown with its use and its quota.
pub quota_of-ops :
    (qs : List (ℕ × ℕ)) (os : List Op) (id : ℕ) (u : Usage)
    → lookup id (ops os (registered qs new_man, reported qs new_statsd)).0 ≡ some u
    → ((quota_of (ops os (registered qs new_man, reported qs new_statsd)).1 id).use_ ≡ u.use_)
      × ((quota_of (ops os (registered qs new_man, reported qs new_statsd)).1 id).max ≡ u.max)
unfolding IsFresh lookup
quota_of-ops qs os =
    ops-IsShown os (registered qs new_man, reported qs new_statsd)
      (fresh-IsShown (registered qs new_man, reported qs new_statsd)
        (registered-IsFresh qs (new_man, new_statsd) (λ id. refl, λ id u e. absurd (ground arith))))

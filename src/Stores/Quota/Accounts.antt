-- ===== src/Stores/Quota/Accounts.antt =====
-- The quota manager against an account of each resource on its own.
use scat.Prelude.{
  ℕ, ◌+◌, ◌%◌, ◌^◌, ◌≤◌, ◌<◌, ◌≡◌, refl, sym, ap, ◌∙◌, subst, ◌≢◌, ◌↔◌, inl, inr, true, false,
  Option, none, some, List, [], ◌∷◌, ◌++◌, arith, leb, ◌==◌, if◌then◌else◌, Bool-cases,
  Option-cases,
}
use scat.Prelude.Dict.{
  lookup, insert, remove, has, lookup-insert, elem, IsUnique, insert-IsUnique, remove-IsUnique,
  lookup-remove,
}
use scat.Stores.Quota.{
  Man, Usage, with_max, with_use, used_up, word, add_res_quota, add_use, delete, resources, new_man,
}

pub data Event : Type 0 where
  registered : ℕ → ℕ → Event
  used : ℕ → ℕ → Event
  deleted : ℕ → Event

unfoldable pub step : Man → Event → Man
unfolding add_res_quota add_use delete
step m (registered id max) = add_res_quota m id max
step m (used id n) = (add_use m id n).0
step m (deleted id) = delete m id

unfoldable pub run : Man → List Event → Man
run m [] = m
run m (e ∷ es) = run (step m e) es

-- The account of one resource: registration opens it with no use or sets its quota, use is added
-- modulo 2 ^ 64, and the account is closed when the use is no less than the quota.
abbrev pub opened : Option Usage → ℕ → Usage
opened none max = record { use_ = 0; max = max }
opened (some u) max = record { use_ = u.use_; max = max }

abbrev pub spend : Option Usage → ℕ → Option Usage
spend none n = none
spend (some u) n =
    let total = (u.use_ + n) % 2 ^ 64 in
    if leb u.max total then none else some (record { use_ = total; max = u.max })

abbrev pub account_step : ℕ → Option Usage → Event → Option Usage
account_step id a (registered j max) = if j == id then some (opened a max) else a
account_step id a (used j n) = if j == id then spend a n else a
account_step id a (deleted j) = if j == id then none else a

abbrev pub account : ℕ → Option Usage → List Event → Option Usage
account id a [] = a
account id a (e ∷ es) = account id (account_step id a e) es

lookup-step :
    (id : ℕ) (m : Man) (e : Event) → lookup id (step m e) ≡ account_step id (lookup id m) e
unfolding step
lookup-step id m (registered j max) =
    ground (arith, lookup-insert j id (with_max (lookup j m) max) m)
lookup-step id m (used j n) = elim (Option-cases (lookup j m)) [
  | inl e ↦ ground arith
  | inr (u, e) ↦ ground (arith, lookup-insert j id (with_use u n) m, lookup-remove j id m)
]
lookup-step id m (deleted j) = lookup-remove j id m

lookup-run :
    (id : ℕ) (m : Man) (es : List Event) → lookup id (run m es) ≡ account id (lookup id m) es
unfolding run
lookup-run id m [] = refl
lookup-run id m (e ∷ es) =
    lookup-run id (step m e) es ∙ ap (λ a. account id a es) (lookup-step id m e)

add_use_absent : (m : Man) (id n : ℕ) → lookup id m ≡ none → add_use m id n ≡ (m, none)
unfolding add_use
add_use_absent m id n e = rw (e, add_use)

add_use_present :
    (m : Man) (id n : ℕ) (u : Usage)
    → lookup id m ≡ some u
    → (add_use m id n).0
      ≡ (if used_up (with_use u n) then remove id m else insert id (with_use u n) m)
unfolding add_use
add_use_present m id n u e = rw (e, add_use)

step-IsUnique : (m : Man) (e : Event) → IsUnique m → IsUnique (step m e)
unfolding step
step-IsUnique m (registered id max) u = insert-IsUnique id _ m u
step-IsUnique m (used id n) u = elim (Option-cases (lookup id m)) [
  | inl e ↦ subst IsUnique (sym (ap (λ r. r.0) (add_use_absent m id n e))) u
  | inr (v, e) ↦
      subst IsUnique (sym (add_use_present m id n v e))
        (elim (Bool-cases (used_up (with_use v n))) [
          | inl full ↦ rw full (remove-IsUnique id m u)
          | inr room ↦ rw room (insert-IsUnique id (with_use v n) m u)
        ])
]
step-IsUnique m (deleted id) u = remove-IsUnique id m u

run-IsUnique : (m : Man) (es : List Event) → IsUnique m → IsUnique (run m es)
unfolding run
run-IsUnique m [] u = u
run-IsUnique m (e ∷ es) u = run-IsUnique (step m e) es (step-IsUnique m e u)

-- The use and `n` more, modulo 2 ^ 64, are within the quota.
abbrev pub HasRoom : ℕ → Option Usage → Type 0
HasRoom n none = ⊥
HasRoom n (some u) = (u.use_ + n) % 2 ^ 64 ≤ u.max

elem-resources_absent : (id n : ℕ) (m : Man) → has id m ≡ false → elem id (resources m n) ≡ false
unfolding elem resources has
elem-resources_absent id n [] h = refl
elem-resources_absent id n ((j, u) ∷ m) h = ground (arith, elem-resources_absent id n m)

elem-resources :
    (id n : ℕ) (m : Man) → IsUnique m → (elem id (resources m n) ≡ true) ↔ HasRoom n (lookup id m)
unfolding elem resources lookup
elem-resources id n [] u = (λ e. absurd (ground arith), λ h. absurd h)
elem-resources id n ((j, v) ∷ m) u =
    let ih = elem-resources id n m u.1 in
    let gone = elem-resources_absent id n m in
    elim (Bool-cases (j == id)) [
      | inl own ↦
          let same : lookup id ((j, v) ∷ m) ≡ some v = ground arith in
          subst (λ o. (elem id (resources ((j, v) ∷ m) n) ≡ true) ↔ HasRoom n o) (sym same)
            (λ e. ground arith, λ h. ground arith)
      | inr other ↦
          let same : lookup id ((j, v) ∷ m) ≡ lookup id m = ground arith in
          let also : elem id (resources ((j, v) ∷ m) n) ≡ elem id (resources m n) = ground arith in
          subst (λ o. (elem id (resources ((j, v) ∷ m) n) ≡ true) ↔ HasRoom n o) (sym same)
            (rw also ih)
    ]

-- After any history, `Resources(n)` offers a resource exactly if its own account, which only its
-- own events move, is open, and its use and `n` more, added modulo 2 ^ 64, are within its quota.
pub elem-resources-run :
    (es : List Event) (id n : ℕ)
    → (elem id (resources (run new_man es) n) ≡ true) ↔ HasRoom n (account id none es)
unfolding lookup
elem-resources-run es id n =
    subst (λ a. (elem id (resources (run new_man es) n) ≡ true) ↔ HasRoom n a)
      (lookup-run id new_man es) (elem-resources id n _ (run-IsUnique new_man es tt))

-- What the events use of one resource, with no wrap-around.
abbrev pub spent : ℕ → List Event → ℕ
spent id [] = 0
spent id (registered j max ∷ es) = spent id es
spent id (used j n ∷ es) = (if j == id then n else 0) + spent id es
spent id (deleted j ∷ es) = spent id es

-- The resource is neither registered nor deleted by these events.
abbrev pub OnlyUses : ℕ → List Event → Type 0
OnlyUses id [] = Unit
OnlyUses id (registered j max ∷ es) = (j ≢ id) × OnlyUses id es
OnlyUses id (used j n ∷ es) = OnlyUses id es
OnlyUses id (deleted j ∷ es) = (j ≢ id) × OnlyUses id es

account-append :
    (id : ℕ) (a : Option Usage) (es fs : List Event)
    → account id a (es ++ fs) ≡ account id (account id a es) fs
account-append id a [] fs = refl
account-append id a (e ∷ es) fs = account-append id (account_step id a e) es fs

account-none : (id : ℕ) (es : List Event) → OnlyUses id es → account id none es ≡ none
account-none id [] o = refl
account-none id (registered j max ∷ es) o = ground (arith, account-none id es o.1)
account-none id (used j n ∷ es) o = ground (arith, account-none id es o)
account-none id (deleted j ∷ es) o = ground (arith, account-none id es o.1)

account-spent :
    (id : ℕ) (u : Usage) (es : List Event) {v : Usage}
    → OnlyUses id es
    → u.use_ + spent id es < word
    → account id (some u) es ≡ some v
    → (v.use_ ≡ u.use_ + spent id es) × (v.max ≡ u.max)
account-spent id u [] {v} o h e = ground arith
account-spent id u (registered j max ∷ es) {v} o h e =
    ground (arith, account-spent id u es {v = v} o.1)
account-spent id u (used j n ∷ es) {v} o h e = ground (
  arith,
  account-none id es o,
  account-spent id u es {v = v} o,
  account-spent id (with_use u n) es {v = v} o,
)
account-spent id u (deleted j ∷ es) {v} o h e = ground (arith, account-spent id u es {v = v} o.1)

-- A resource that is offered for `n` more has room for them: what was used of it since it was
-- registered, and `n`, are together within its quota, if that sum is no more than a uint64.
pub offered-le-max :
    (before es : List Event) (id n max : ℕ)
    → account id none before ≡ none
    → OnlyUses id es
    → spent id es + n < word
    → elem id (resources (run new_man (before ++ registered id max ∷ es)) n) ≡ true
    → spent id es + n ≤ max
offered-le-max before es id n max closed o h e =
    let opened : Usage = record { use_ = 0; max = max } in
    let known : account id none (before ++ registered id max ∷ es) ≡ account id (some opened) es =
      account-append id none before _ ∙ ground (arith, closed) in
    elim (Option-cases (account id (some opened) es)) [
      | inl gone ↦
          absurd (ground (arith, elem-resources-run (before ++ registered id max ∷ es) id n, known))
      | inr (v, open_still) ↦ ground (
        arith,
        elem-resources-run (before ++ registered id max ∷ es) id n,
        known,
        account-spent id opened es {v = v} o,
      )
    ]

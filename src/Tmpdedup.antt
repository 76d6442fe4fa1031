-- ===== src/Tmpdedup.antt =====
-- tmpdedup/man.go: temporary files that several users share, each made once.
--
-- A path is a number. A file's goroutine waits until its users are done, and then takes the lock
-- and removes the file: `woken` and `remove` are two steps, as nothing holds the lock between
-- them. Only this manager makes and removes these files. A `create` that fails may have made the file.
pub mod Dir
use scat.Prelude.{
  ℕ, suc, ◌+◌, ◌≡◌, refl, subst, inl, inr, Bool, true, false, not, ◌&&◌, ◌||◌, Option, none, some,
  [], arith, ◌==◌, if◌then◌else◌, ==_iff, Bool-cases, Option-cases, length,
}
use scat.Prelude.Dict.{
  Dict, lookup, insert, remove, has, has-insert, has-remove, has-lookup, has_of_lookup, Locs,
}
use scat.Errors.{Error, foreign}

-- The count of a path's `WaitGroup`, and whether its goroutine is past `Wait`.
pub record Entry : Type 0 where
  pub users : ℕ
  pub past_wait : Bool

pub record Man : Type 0 where
  pub created : Dict Entry
  pub files : Locs

abbrev pub new_man : Man
new_man = record { created = []; files = [] }

-- How `create` ends: the file is made, or there is an error, and the file may be there or not.
pub data Create : Type 0 where
  made : Create
  fails : Error → Bool → Create

abbrev pub files_after : Locs → ℕ → Bool → Locs
files_after files path false = files
files_after files path true = insert path tt files

-- `Get`, given how `create` ends.
unfoldable pub get : Man → ℕ → Create → Man × Option Error
get m path create = elim (lookup path m.created) [
  | some e ↦ (record m { created = insert path (record e { users = e.users + 1 }) m.created }, none)
  | none ↦ elim create [
    | fails err left ↦ (record m { files = files_after m.files path left }, some err)
    | made ↦ (
      record {
        created = insert path (record { users = 1; past_wait = false }) m.created;
        files = insert path tt m.files;
      },
      none,
    )
  ]
]

-- `remove`, where `os.Remove` succeeds. The error is "file not supposed to be created".
unfoldable pub remove_file : Man → ℕ → Man × Option Error
remove_file m path =
    if not (has path m.created)
    then (m, some (foreign 0))
    else (record { created = remove path m.created; files = remove path m.files }, none)

unfoldable pub len : Man → ℕ
len m = length m.created

abbrev with_entry : Man → ℕ → Entry → Man
with_entry m path e = record m { created = insert path e m.created }

pub data Step : Man → Man → Type 0 where
  got : (m : Man) (path : ℕ) (create : Create) → Step m (get m path create).0
  user_done :
      (m : Man) (path n : ℕ) (past : Bool)
      → lookup path m.created ≡ some (record { users = suc n; past_wait = past })
      → Step m (with_entry m path (record { users = n; past_wait = past }))
  woken :
      (m : Man) (path : ℕ)
      → lookup path m.created ≡ some (record { users = 0; past_wait = false })
      → Step m (with_entry m path (record { users = 0; past_wait = true }))
  removed :
      (m : Man) (path n : ℕ)
      → lookup path m.created ≡ some (record { users = n; past_wait = true })
      → Step m (remove_file m path).0

pub data Steps : Man → Man → Type 0 where
  no_step : (m : Man) → Steps m m
  then_step : (a b c : Man) → Steps a b → Step b c → Steps a c

-- `create` is called for this path in these steps, fails and leaves the file.
abbrev pub leaves : ℕ → ℕ → Create → Bool
leaves p path made = false
leaves p path (fails err left) = left && path == p

abbrev pub leaves_in_step : {m n : Man} → ℕ → Step m n → Bool
leaves_in_step p (got m path create) = not (has path m.created) && leaves p path create
leaves_in_step p (user_done m path n past e) = false
leaves_in_step p (woken m path e) = false
leaves_in_step p (removed m path n e) = false

abbrev pub left_over : {m n : Man} → ℕ → Steps m n → Bool
left_over p (no_step m) = false
left_over p (then_step a b c s t) = left_over p s || leaves_in_step p t

-- The table names files that are there, and if nothing was left of this path, all of them.
abbrev pub Agree : Bool → Bool → Bool → Type 0
Agree left named there = (named ≡ true → there ≡ true) × (there ≡ true → (named || left) ≡ true)

abbrev pub IsTrue : Bool → ℕ → Man → Type 0
IsTrue left p m = Agree left (has p m.created) (has p m.files)

Agree-more : (a b named there : Bool) → Agree a named there → Agree (a || b) named there
Agree-more a b named there h = (h.0, λ e. ground (arith, h.1))

-- A known path keeps its entry, with other users.
with_entry-IsTrue :
    (left : Bool) (p : ℕ) (m : Man) (path : ℕ) (e f : Entry)
    → lookup path m.created ≡ some e
    → IsTrue left p m
    → IsTrue left p (with_entry m path f)
with_entry-IsTrue left p m path e f known h =
    let kept : has p (insert path f m.created) ≡ has p m.created = elim (Bool-cases (path == p)) [
      | inl own ↦
          let there : has p m.created ≡ true =
            subst (λ q. has q m.created ≡ true) ((==_iff path p).0 own)
              (has_of_lookup path m.created known) in
          ground (arith, has-insert path p f m.created)
      | inr other ↦ ground (arith, has-insert path p f m.created)
    ] in
    rw kept h

made-IsTrue :
    (left : Bool) (p : ℕ) (m : Man) (path : ℕ) (f : Entry)
    → IsTrue left p m
    → IsTrue left p (record { created = insert path f m.created; files = insert path tt m.files })
made-IsTrue left p m path f h = rw (has-insert path p f m.created) (
    rw (has-insert path p tt m.files) (elim (Bool-cases (path == p)) [
      | inl own ↦ rw own ((λ e. refl), (λ e. refl))
      | inr other ↦ rw other h
    ]))

failed-IsTrue :
    (left : Bool) (p : ℕ) (m : Man) (path : ℕ) (err : Error) (rest : Bool)
    → IsTrue left p m
    → IsTrue
        (left || leaves p path (fails err rest))
        p
        (record m { files = files_after m.files path rest })
failed-IsTrue left p m path err false h = Agree-more left false _ _ h
failed-IsTrue left p m path err true h =
    rw (has-insert path p tt m.files) (elim (Bool-cases (path == p)) [
      | inl own ↦ rw own ((λ e. refl), (λ e. ground arith))
      | inr other ↦ rw other (Agree-more left false _ _ h)
    ])

get-IsTrue :
    (left : Bool) (p : ℕ) (m : Man) (path : ℕ) (create : Create)
    → IsTrue left p m
    → IsTrue (left || (not (has path m.created) && leaves p path create)) p (get m path create).0
unfolding get
get-IsTrue left p m path create h = elim (Option-cases (lookup path m.created)) [
  | inr (e, known) ↦
      let f : Entry = record e { users = e.users + 1 } in
      let same : get m path create ≡ (with_entry m path f, none) = rw (known, get) refl in
      rw same (
        Agree-more left (not (has path m.created) && leaves p path create) _ _
          (with_entry-IsTrue left p m path e f known h))
  | inl new ↦
      let unknown : has path m.created ≡ false = ground (arith, new, has-lookup path m.created) in
      rw unknown (elim create as (λ c. IsTrue (left || leaves p path c) p (get m path c).0) [
        | fails err rest ↦ rw (new, get) (failed-IsTrue left p m path err rest h)
        | made ↦
            rw (new, get)
              (Agree-more left false _ _
                (made-IsTrue left p m path (record { users = 1; past_wait = false }) h))
      ])
]

remove_file-IsTrue :
    (left : Bool) (p : ℕ) (m : Man) (path : ℕ)
    → IsTrue left p m
    → IsTrue left p (remove_file m path).0
unfolding remove_file
remove_file-IsTrue left p m path h = elim (Bool-cases (has path m.created)) [
  | inr unknown ↦ rw unknown h
  | inl known ↦ rw known (
      rw (has-remove path p m.created) (
        rw (has-remove path p m.files) (elim (Bool-cases (path == p)) [
          | inl own ↦ rw own ((λ e. absurd (ground arith)), (λ e. absurd (ground arith)))
          | inr other ↦ rw other h
        ])))
]

Step-IsTrue :
    (left : Bool) (p : ℕ) {m n : Man} (t : Step m n)
    → IsTrue left p m
    → IsTrue (left || leaves_in_step p t) p n
Step-IsTrue left p (got m path create) h = get-IsTrue left p m path create h
Step-IsTrue left p (user_done m path n past e) h =
    Agree-more left false _ _ (with_entry-IsTrue left p m path _ _ e h)
Step-IsTrue left p (woken m path e) h =
    Agree-more left false _ _ (with_entry-IsTrue left p m path _ _ e h)
Step-IsTrue left p (removed m path n e) h =
    Agree-more left false _ _ (remove_file-IsTrue left p m path h)

-- From a state in which the table names just the files that are there, whatever users come and
-- go, in whatever order: a path that the table names has its file, and a file that is there is
-- named, unless a `create` of its path failed and left it.
pub Steps-IsTrue :
    (p : ℕ) {m n : Man} (s : Steps m n) → IsTrue false p m → IsTrue (left_over p s) p n
Steps-IsTrue p (no_step m) h = h
Steps-IsTrue p (then_step a b c s t) h = Step-IsTrue (left_over p s) p t (Steps-IsTrue p s h)

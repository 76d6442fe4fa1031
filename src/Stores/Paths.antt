-- ===== src/Stores/Paths.antt =====
-- stores/strpart.go and `FullPath` of stores/dir.go: the directories that a file name is cut into.
use scat.Prelude.{
  ℕ, zero, suc, ◌+◌, ◌-◌, ◌≤◌, ◌≡◌, refl, sym, ap, ◌∙◌, inl, inr, List, [], ◌∷◌, ◌++◌, append-nil,
  arith, ltb, if◌then◌else◌, Bool-cases, length, take, drop, length-drop,
}
use scat.Chunk.{Bytes}

-- The loop of `Split`, from an offset on: each part takes its number of characters, or those that
-- are left.
unfoldable pub split_from : List ℕ → Bytes → ℕ → List Bytes
split_from [] str offset = []
split_from (n ∷ part) str offset =
    let left = length str - offset in
    let m = if ltb left n then left else n in
    take m (drop offset str) ∷ split_from part str (offset + m)

unfoldable pub split : List ℕ → Bytes → List Bytes
unfolding split_from
split part str = split_from part str 0

-- The elements that `FullPath` joins.
unfoldable pub full_path : Bytes → List ℕ → Bytes → List Bytes
unfolding split
full_path path part filename = (path ∷ split part filename) ++ filename ∷ []

abbrev pub concat : List Bytes → Bytes
concat [] = []
concat (b ∷ bs) = b ++ concat bs

abbrev pub total : List ℕ → ℕ
total [] = 0
total (n ∷ ns) = n + total ns

take-nil : (t : ℕ) → take {A = ℕ} t [] ≡ []
take-nil zero = refl
take-nil (suc t) = refl

take-all : (k : ℕ) (xs : Bytes) → length xs ≤ k → take k xs ≡ xs
take-all zero [] h = refl
take-all zero (x ∷ xs) h = absurd (omega arith)
take-all (suc k) [] h = refl
take-all (suc k) (x ∷ xs) h = ap (◌∷◌ x) (take-all k xs (omega arith))

drop-all : (k : ℕ) (xs : Bytes) → length xs ≤ k → drop k xs ≡ []
drop-all zero [] h = refl
drop-all zero (x ∷ xs) h = absurd (omega arith)
drop-all (suc k) [] h = refl
drop-all (suc k) (x ∷ xs) h = drop-all k xs (omega arith)

drop-drop : (m n : ℕ) (xs : Bytes) → drop (m + n) xs ≡ drop n (drop m xs)
drop-drop zero n xs = ap (λ k. drop k xs) (omega arith)
drop-drop (suc m) n [] = drop-all (suc m + n) [] (omega arith) ∙ sym (drop-all n [] (omega arith))
drop-drop (suc m) n (x ∷ xs) =
    let e : suc m + n ≡ suc (m + n) = omega arith in ap (λ k. drop k (x ∷ xs)) e ∙ drop-drop m n xs

take-add : (n t : ℕ) (xs : Bytes) → take n xs ++ take t (drop n xs) ≡ take (n + t) xs
take-add zero t xs = ap (λ k. take k xs) (omega arith)
take-add (suc n) t [] = take-nil t ∙ sym (take-nil (suc n + t))
take-add (suc n) t (x ∷ xs) =
    let e : suc (n + t) ≡ suc n + t = omega arith in
    ap (◌∷◌ x) (take-add n t xs) ∙ ap (λ k. take k (x ∷ xs)) e

-- A part cut short at the end of the name takes what is left, and leaves nothing.
take-cut :
    (n t left : ℕ) (xs : Bytes)
    → length xs ≡ left
    → (let m = if ltb left n then left else n in take m xs ++ take t (drop m xs) ≡ take (n + t) xs)
take-cut n t left xs e = elim (Bool-cases (ltb left n)) [
  | inl short ↦
      rw
        (
          short,
          take-all left xs (omega arith),
          drop-all left xs (omega arith),
          take-all (n + t) xs (ground arith),
          take-nil t,
        )
        (append-nil xs)
  | inr long ↦ rw long (take-add n t xs)
]

split_from-concat :
    (part : List ℕ) (str : Bytes) (offset : ℕ)
    → concat (split_from part str offset) ≡ take (total part) (drop offset str)
unfolding split_from
split_from-concat [] str offset = refl
split_from-concat (n ∷ part) str offset =
    let left = length str - offset in
    let m = if ltb left n then left else n in
    ap (λ bs. take m (drop offset str) ++ bs)
      (split_from-concat part str (offset + m)
        ∙ ap (λ bs. take (total part) bs) (drop-drop offset m str))
    ∙ take-cut n (total part) left (drop offset str) (length-drop offset str)

length-split_from :
    (part : List ℕ) (str : Bytes) (offset : ℕ) → length (split_from part str offset) ≡ length part
unfolding split_from
length-split_from [] str offset = refl
length-split_from (n ∷ part) str offset =
    let left = length str - offset in
    ap suc (length-split_from part str (offset + (if ltb left n then left else n)))

-- The parts of a name are consecutive pieces of it from its start, together as long as the parts
-- ask for or the whole name, one for each part; so the directories are a prefix of the name.
pub split-concat :
    (part : List ℕ) (str : Bytes)
    → (concat (split part str) ≡ take (total part) str) × (length (split part str) ≡ length part)
unfolding split
split-concat part str = (split_from-concat part str 0, length-split_from part str 0)

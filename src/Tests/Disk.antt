-- ===== src/Tests/Disk.antt =====
-- stores/: the theorems of the stores on disk and remote ones, on a disk of one file.
use scat.Prelude.{
  ℕ, zero, suc, ◌≡◌, refl, ap, ◌≢◌, ◌↔◌, inl, inr, false, Option, none, some, List, [], ◌∷◌, ◌++◌,
  arith, ◌==◌, if◌then◌else◌, ℤ, pos, length, drop, replicate, length-replicate, All,
}
use scat.Chunk.{Chunk, Bytes, bytes_data, payload, hash, new_chunk, set_hash, with_data}
use scat.Errors.{Error, foreign}
use scat.Procs.{Res}
use scat.Procs.Commands.{Cmd, Exec}
use scat.Stores.Mem.{LsEntry}
use scat.Stores.Quota.{Man, resources}
use scat.Stores.Listing.{Lister, owns, offered}
use scat.Stores.Disk.{Files, Dir, not_exist, process, unprocess}
use scat.Stores.Disk.Contents.{former, Keeps, unprocess-process_file}
use scat.Stores.Listed.{collect, find_ls}
use scat.Stores.Listed.Names.{hash_name}
use scat.Stores.Listed.Found.{
  IsFree, Stands, no_files, chunk_file, other_file, Sizes, terminated, printed, find_ls-printed,
}
use scat.Stores.Remote.{rclone_unprocess}
use scat.Stores.Remote.Missing.{IsDownload, rclone_unprocess-IsDownload}
use scat.Stores.Striping.Begun.{new_striper, new_striper-owns}

abbrev page : Chunk
page = set_hash (new_chunk 0 (some (bytes_data (65 ∷ 66 ∷ [])))) 100

abbrev one_file : Files (Option Bytes)
one_file = record {
  open_file = λ p f. (none, some (former f));
  mkdir_all = λ p f. (none, f);
  copy_into = λ p b f. (none, some (b ++ drop (length b) (former f)));
  read_file = λ p f. elim f [ none ↦ inr (not_exist (foreign 0)) | some b ↦ inl b ];
}

abbrev in_it : Option Bytes → List Bytes → Option Bytes
in_it f p = f

one_file-Keeps : Keeps one_file in_it
one_file-Keeps = record {
  opened = λ p f e. refl;
  refused = λ p f e. cc;
  made = λ p q f. refl;
  copied = λ p b old f e here. ap (λ o. some (b ++ drop (length b) (former o))) here;
  there = λ p b f here. rw here refl;
  absent = λ p f gone. (foreign 0, rw gone refl);
}

abbrev pages : Dir
pages = record { path = b'd' ∷ []; part = 2 ∷ [] }

-- The file held three bytes, and keeps its third.
abbrev longer : Option Bytes
longer = some (1 ∷ 2 ∷ 3 ∷ [])

stores : process one_file pages page longer ≡ some (none, some (65 ∷ 66 ∷ 3 ∷ []))
unfolding process scat.Chunk.read
stores = refl

unprocess-process_file_example :
    unprocess one_file pages (some (65 ∷ 66 ∷ 3 ∷ [])) page
    ≡ (with_data page (bytes_data (65 ∷ 66 ∷ 3 ∷ [])), none)
unprocess-process_file_example =
    unprocess-process_file one_file in_it one_file-Keeps pages page page longer
      (some (65 ∷ 66 ∷ 3 ∷ [])) (65 ∷ 66 ∷ []) refl stores refl

-- Sizes in strokes.
abbrev strokes : ℕ → Bytes
strokes n = replicate n 1

abbrev count_strokes : Bytes → Option ℤ
count_strokes b = some (pos (length b))

strokes-IsFree : (n : ℕ) → IsFree (strokes n)
strokes-IsFree zero = tt
strokes-IsFree (suc n) = (λ e. absurd (omega arith), strokes-IsFree n)

strokes-Sizes : Sizes strokes count_strokes
strokes-Sizes = record {
  no_nul = strokes-IsFree;
  parses = λ n small. ap (λ m. some (pos m)) (length-replicate n 1);
}

abbrev base_name : Bytes → Bytes
base_name (c ∷ []) = if c == 65 then hash_name 7 else []
base_name p = []

abbrev two_files : List (Bytes × ℕ)
two_files = (65 ∷ [], 2) ∷ (66 ∷ [], 3) ∷ []

abbrev seventh : List LsEntry
seventh = record { hash_ = 7; size_ = 2 } ∷ []

unnamed : scat.Stores.Listed.loaded (scat.Index.scan_hex []) ≡ none
unfolding scat.Index.scan_hex
unnamed = refl

two_files-Stands : Stands base_name two_files seventh
two_files-Stands =
    chunk_file (65 ∷ []) 7 2 ((66 ∷ [], 3) ∷ []) [] ((λ e. absurd (omega arith)), tt) refl
      (omega arith)
      (other_file (66 ∷ []) 3 [] [] ((λ e. absurd (omega arith)), tt) unnamed no_files)

find_ls-printed_example :
    collect
      (find_ls count_strokes base_name (inl (terminated (printed strokes two_files) (1 ∷ []))) none)
    ≡ (seventh, none)
find_ls-printed_example =
    find_ls-printed strokes count_strokes base_name strokes-Sizes two_files seventh (1 ∷ []) none
      two_files-Stands (omega arith, (omega arith, tt)) ((λ e. absurd (omega arith)), tt)

-- A command that prints nothing and ends well.
abbrev silent : Exec (Unit {0})
silent cmd input w = (record { stdout = []; stderr = []; err = none }, w)

abbrev cat : Chunk → Cmd
cat c = record { argv = "rclone" ∷ "cat" ∷ []; env = []; has_stderr = false }

rclone_unprocess-IsDownload_example :
    (r : Res) × (rclone_unprocess silent cat page tt ≡ some (r ∷ [], tt))
    × IsDownload page (record { stdout = []; stderr = []; err = none }) r
rclone_unprocess-IsDownload_example = rclone_unprocess-IsDownload silent cat page tt

abbrev listers : List Lister
listers = (1, inl (record { hash_ = 100; size_ = 2 } ∷ [])) ∷ (2, inr (foreign 0)) ∷ []

abbrev two_stores : Man
two_stores = (1, record { use_ = 0; max = 9 }) ∷ (2, record { use_ = 0; max = 9 }) ∷ []

abbrev config : scat.Stripe.Config
config = record { min_copies = 1; excl = 1 }

new_striper-owns_example :
    ((new_striper config two_stores listers).0.seq.items ≡ resources two_stores 0)
    × ((h o : ℕ) → owns (new_striper config two_stores listers).0.reg h o ≡ offered h o listers)
    × (((new_striper config two_stores listers).1 ≡ none)
        ↔ All (λ l. (e : Error) → l.1 ≢ inr e) listers)
new_striper-owns_example = new_striper-owns config two_stores listers

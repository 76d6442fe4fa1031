-- ===== src/Stores/Listed/Found.antt =====
-- What `find` prints for the files of a store is listed as its chunks.
use scat.Prelude.{
  ℕ, zero, suc, ◌^◌, ◌≤◌, ◌<◌, ◌≡◌, refl, sym, ap, ◌∙◌, ◌≢◌, inl, Option, none, some, List, [], ◌∷◌,
  ◌++◌, append-nil, arith, ℤ, pos, length, length-append, All,
}
use scat.Chunk.{Bytes}
use scat.Errors.{Error}
use scat.Index.{scan_hex}
use scat.Stores.Mem.{LsEntry}
use scat.Stores.Listed.{
  DirLsRes, file, ls_error, collect, loaded, byte_scan, tokens, send_results, with_end, find_ls,
}
use scat.IndexProc.Hashes.{hash_end}
use scat.Stores.Listed.Names.{hash_name, loaded-hash_name}

abbrev pub IsFree : Bytes → Type 0
IsFree t = All (λ c. c ≢ 0) t

byte_scan-found : (t rest : Bytes) → IsFree t → byte_scan 0 (t ++ 0 ∷ rest) ≡ some (t, rest)
unfolding byte_scan
byte_scan-found [] rest h = refl
byte_scan-found (c ∷ t) rest h = ground (arith, h.0, byte_scan-found t rest h.1)

byte_scan-none : (t : Bytes) → IsFree t → byte_scan 0 t ≡ none
unfolding byte_scan
byte_scan-none [] h = refl
byte_scan-none (c ∷ t) h = ground (arith, h.0, byte_scan-none t h.1)

-- These tokens, each with its terminator, and a last one without.
abbrev pub terminated : List Bytes → Bytes → Bytes
terminated [] last = last
terminated (t ∷ ts) last = t ++ 0 ∷ terminated ts last

length-terminated : (ts : List Bytes) (last : Bytes) → length ts ≤ length (terminated ts last)
length-terminated [] last = omega arith
length-terminated (t ∷ ts) last =
    omega (arith, length-terminated ts last, length-append t (0 ∷ terminated ts last))

tokens-terminated :
    (fuel : ℕ) (ts : List Bytes) (last : Bytes)
    → All IsFree ts
    → IsFree last
    → length ts < fuel
    → tokens fuel 0 (terminated ts last) ≡ ts
unfolding tokens
tokens-terminated zero ts last free end enough = absurd (omega arith)
tokens-terminated (suc fuel) [] last free end enough = ground (arith, byte_scan-none last end)
tokens-terminated (suc fuel) (t ∷ ts) last free end enough = ground (
  arith,
  byte_scan-found t (terminated ts last) free.0,
  tokens-terminated fuel ts last free.1 end (omega arith),
)

-- How `find` prints the size and the path of files: `%s\0%p\0`.
abbrev pub printed : (ℕ → Bytes) → List (Bytes × ℕ) → List Bytes
printed show [] = []
printed show ((p, n) ∷ fs) = show n ∷ p ∷ printed show fs

-- The chunks that files stand for: each file that is named after a hash, with its size; files with
-- names that spell no hash are passed over.
pub data Stands (base : Bytes → Bytes) : List (Bytes × ℕ) → List LsEntry → Type 0 where
  no_files : Stands base [] []
  chunk_file :
      (p : Bytes) (h n : ℕ) (fs : List (Bytes × ℕ)) (es : List LsEntry)
      → IsFree p
      → base p ≡ hash_name h
      → h < hash_end
      → Stands base fs es
      → Stands base ((p, n) ∷ fs) (record { hash_ = h; size_ = n } ∷ es)
  other_file :
      (p : Bytes) (n : ℕ) (fs : List (Bytes × ℕ)) (es : List LsEntry)
      → IsFree p
      → loaded (scan_hex (base p)) ≡ none
      → Stands base fs es
      → Stands base ((p, n) ∷ fs) es

-- Sizes as `find` prints them and `strconv.ParseInt` reads them.
pub record Sizes (show : ℕ → Bytes) (parse_int : Bytes → Option ℤ) : Type 0 where
  pub no_nul : (n : ℕ) → IsFree (show n)
  pub parses : (n : ℕ) → n < 2 ^ 63 → parse_int (show n) ≡ some (pos n)

module _ (show : ℕ → Bytes) (parse_int : Bytes → Option ℤ) (base : Bytes → Bytes)
    (sizes : Sizes show parse_int) where
  abbrev listed : List (Bytes × ℕ) → List DirLsRes
  listed [] = []
  listed ((p, n) ∷ fs) = file (base p) n ∷ listed fs

  printed-IsFree :
      (fs : List (Bytes × ℕ)) (es : List LsEntry) → Stands base fs es → All IsFree (printed show fs)
  printed-IsFree _ _ no_files = tt
  printed-IsFree _ _ (chunk_file p h n fs es free e small s) =
      (sizes.no_nul n, (free, printed-IsFree fs es s))
  printed-IsFree _ _ (other_file p n fs es free e s) =
      (sizes.no_nul n, (free, printed-IsFree fs es s))

  send_results-printed :
      (fs : List (Bytes × ℕ))
      → All (λ (f : Bytes × ℕ). f.1 < 2 ^ 63) fs
      → send_results parse_int base none (printed show fs) ≡ (listed fs, none)
  unfolding send_results
  send_results-printed [] small = refl
  send_results-printed ((p, n) ∷ fs) small =
      rw (sizes.parses n small.0, send_results-printed fs small.1) refl

  collect-listed :
      (fs : List (Bytes × ℕ)) (es : List LsEntry) (rs : List DirLsRes) (e : Option Error)
      → Stands base fs es
      → collect rs ≡ ([], e)
      → collect (listed fs ++ rs) ≡ (es, e)
  unfolding collect
  collect-listed _ _ rs e no_files after = after
  collect-listed _ _ rs e (chunk_file p h n fs es free named small s) after =
      rw (named, loaded-hash_name h small, collect-listed fs es rs e s after) refl
  collect-listed _ _ rs e (other_file p n fs es free named s) after =
      rw (named, collect-listed fs es rs e s after) refl

  sent-printed :
      (fs : List (Bytes × ℕ)) (es : List LsEntry) (last : Bytes)
      → Stands base fs es
      → All (λ (f : Bytes × ℕ). f.1 < 2 ^ 63) fs
      → IsFree last
      → send_results parse_int base none (
          tokens
            (suc (length (terminated (printed show fs) last)))
            0
            (terminated (printed show fs) last))
        ≡ (listed fs, none)
  sent-printed fs es last s small end =
      ap (send_results parse_int base none) (
        tokens-terminated (suc (length (terminated (printed show fs) last))) (printed show fs) last
          (printed-IsFree fs es s) end (omega (arith, length-terminated (printed show fs) last)))
      ∙ send_results-printed fs small

  -- Files have int64 sizes, paths without NUL, and as names either the 64 lower-case digits of a
  -- hash or what `%x` reads no 32 bytes from; other names, such as upper-case digits or a hash
  -- with a suffix, which `Ls` lists too, are left out. Then what `find` prints is read back: `Ls`
  -- lists just the chunks that the files stand for, with their sizes, even if a line is cut off at
  -- the end of the output, and the error of the command, if any, is the error of `Ls`.
  pub find_ls-printed :
      (fs : List (Bytes × ℕ)) (es : List LsEntry) (last : Bytes) (waited : Option Error)
      → Stands base fs es
      → All (λ (f : Bytes × ℕ). f.1 < 2 ^ 63) fs
      → IsFree last
      → collect (find_ls parse_int base (inl (terminated (printed show fs) last)) waited)
        ≡ (es, waited)
  unfolding find_ls collect
  find_ls-printed fs es last (some x) s small end =
      ap (λ r. collect (with_end r (some x))) (sent-printed fs es last s small end)
      ∙ collect-listed fs es (ls_error x ∷ []) (some x) s refl
  find_ls-printed fs es last none s small end =
      ap (λ r. collect (with_end r none)) (sent-printed fs es last s small end)
      ∙ ap collect (sym (append-nil (listed fs)))
      ∙ collect-listed fs es [] none s refl

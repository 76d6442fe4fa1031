-- ===== src/Stores/Listed/Names.antt =====
-- File names that spell hashes, written and read back.
use scat.Prelude.{ℕ, suc, ◌/◌, ◌%◌, ◌^◌, ◌<◌, ◌≡◌, ap, ◌∙◌, some, []}
use scat.Chunk.{Bytes}
use scat.Index.{hex, hash_size, scan_hex, got}
use scat.Index.Lines.{scan_hex-hex_alone}
use scat.IndexProc.{hash_bytes}
use scat.IndexProc.Hashes.{hash_end, hash_bytes-small, load_slice-hash_bytes}
use scat.Stores.Listed.{loaded}

-- The name of a chunk's file.
abbrev pub hash_name : ℕ → Bytes
hash_name h = hex (hash_bytes hash_size h)

scan_hex-hash_bytes :
    (n h : ℕ) → scan_hex (hex (hash_bytes (suc n) h)) ≡ got (hash_bytes (suc n) h) []
unfolding hash_bytes
scan_hex-hash_bytes n h =
    scan_hex-hex_alone (h / 256 ^ n % 256) (hash_bytes n h) (hash_bytes-small (suc n) h)

-- A file that is named after a hash is listed with it.
pub loaded-hash_name : (h : ℕ) → h < hash_end → loaded (scan_hex (hash_name h)) ≡ some h
loaded-hash_name h small = ap loaded (scan_hex-hash_bytes 31 h) ∙ load_slice-hash_bytes h small

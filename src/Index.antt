-- ===== src/Index.antt =====
-- index/write.go, index/scanner.go and checksum/checksum.go: the lines of an index.
--
-- A line is the hash in hexadecimal digits, a space, the size in decimal digits and a newline.
-- Text is a list of ASCII codes. `fmt.Fscanf` is modelled for this format as far as the scanner
-- relies on it: spaces in front of a verb are skipped, and the newline may be missing at the end.
pub mod Lines
use scat.Prelude.{
  ℕ, zero, suc, ◌+◌, ◌-◌, ◌*◌, ◌/◌, ◌%◌, Bool, true, false, not, ◌&&◌, Option, none, some, [], ◌∷◌,
  ◌++◌, ltb, leb, ◌==◌, if◌then◌else◌, length,
}
use scat.Chunk.{Bytes, Chunk, new_chunk, set_hash, set_target_size}
use scat.Errors.{Error, foreign, invalid_hash_length}

abbrev pub hash_size : ℕ
hash_size = 32

abbrev pub hex_digit : ℕ → ℕ
hex_digit d = if ltb d 10 then b'0' + d else b'a' + (d - 10)

-- `%x` of a hash's bytes.
unfoldable pub hex : Bytes → Bytes
hex [] = []
hex (b ∷ bs) = hex_digit (b / 16) ∷ hex_digit (b % 16) ∷ hex bs

-- `%d` of a number that is not negative, in front of what follows. The digits are fewer than
-- the number itself plus one.
unfoldable pub decimal_onto : ℕ → ℕ → Bytes → Bytes
decimal_onto zero n rest = rest
decimal_onto (suc fuel) n rest =
    let more = decimal_onto fuel (n / 10) ((b'0' + n % 10) ∷ rest) in
    if ltb n 10 then (b'0' + n) ∷ rest else more

unfoldable pub write_line : Bytes → ℕ → Bytes → Bytes
unfolding hex decimal_onto
write_line hash size rest = hex hash ++ (b' ' ∷ decimal_onto (suc size) size (b'\n' ∷ rest))

unfoldable pub unhex : ℕ → Option ℕ
unhex c =
    if leb b'0' c && leb c b'9'
    then some (c - b'0')
    else if leb b'a' c && leb c b'f'
    then some (c - b'a' + 10)
    else if leb b'A' c && leb c b'F'
    then some (c - b'A' + 10)
    else none

-- What a verb reads: its value and the input left, the end of the input, or bad input.
pub data Scan (A : Type 0) : Type 0 where
  got : A → Bytes → Scan A
  eof bad : Scan A

unfoldable pub skip_spaces : Bytes → Bytes
skip_spaces [] = []
skip_spaces (c ∷ cs) = let rest = skip_spaces cs in if c == b' ' then rest else c ∷ cs

abbrev push_byte : ℕ → ℕ → Scan Bytes → Scan Bytes
push_byte hi lo (got bs rest) = got ((hi * 16 + lo) ∷ bs) rest
push_byte hi lo eof = eof
push_byte hi lo bad = bad

-- The pairs of hexadecimal digits in front; a single digit is an error.
unfoldable pub hex_pairs : Bytes → Scan Bytes
unfolding unhex
hex_pairs [] = got [] []
hex_pairs (c ∷ []) = elim (unhex c) [ none ↦ got [] (c ∷ []) | some hi ↦ bad ]
hex_pairs (c ∷ d ∷ cs) = elim (unhex c) [
  | none ↦ got [] (c ∷ d ∷ cs)
  | some hi ↦ elim (unhex d) [ none ↦ bad | some lo ↦ push_byte hi lo (hex_pairs cs) ]
]

abbrev not_empty : Scan Bytes → Scan Bytes
not_empty (got [] rest) = bad
not_empty s = s

abbrev hex_of : Bytes → Scan Bytes
hex_of [] = eof
hex_of (c ∷ cs) = not_empty (hex_pairs (c ∷ cs))

-- `%x` into a byte slice.
unfoldable pub scan_hex : Bytes → Scan Bytes
unfolding hex_pairs skip_spaces
scan_hex s = hex_of (skip_spaces s)

abbrev digit? : ℕ → Bool
digit? c = leb b'0' c && leb c b'9'

unfoldable pub digits : ℕ → Bytes → ℕ × Bytes
digits acc [] = (acc, [])
digits acc (c ∷ cs) =
    let more = digits (acc * 10 + (c - b'0')) cs in if digit? c then more else (acc, c ∷ cs)

abbrev decimal_of : Bytes → Scan ℕ
decimal_of [] = eof
decimal_of (c ∷ cs) = if digit? c then got (digits 0 (c ∷ cs)).0 (digits 0 (c ∷ cs)).1 else bad

-- `%d`, of numbers that are not negative.
unfoldable pub scan_decimal : Bytes → Scan ℕ
unfolding digits skip_spaces
scan_decimal s = decimal_of (skip_spaces s)

-- The newline of the format, or the end of the input.
unfoldable pub scan_newline : Bytes → Option Bytes
scan_newline [] = some []
scan_newline (c ∷ cs) = if c == b'\n' then some cs else none

pub data Line : Type 0 where
  line : Bytes → ℕ → Bytes → Line
  end : Line
  bad_line : Line

abbrev line_end : Bytes → ℕ → Option Bytes → Line
line_end hash size none = bad_line
line_end hash size (some rest) = line hash size rest

abbrev after_hash : Bytes → Scan ℕ → Line
after_hash hash (got size rest) = line_end hash size (scan_newline rest)
after_hash hash eof = bad_line
after_hash hash bad = bad_line

abbrev after_start : Scan Bytes → Line
after_start (got hash rest) = after_hash hash (scan_decimal rest)
after_start eof = end
after_start bad = bad_line

-- `fmt.Fscanf(s.r, "%x %d\n", &s.hashBuf, &size)`
unfoldable pub scan_line : Bytes → Line
unfolding scan_hex scan_decimal scan_newline
scan_line s = after_start (scan_hex s)

-- A hash as the number that its bytes spell, the first byte foremost.
unfoldable pub hash_number : Bytes → ℕ → ℕ
hash_number [] acc = acc
hash_number (b ∷ bs) acc = hash_number bs (acc * 256 + b)

-- `LoadSlice`
unfoldable pub load_slice : Bytes → Option ℕ
unfolding hash_number
load_slice bs = if not (length bs == hash_size) then none else some (hash_number bs 0)

pub record Scanner : Type 0 where
  pub input : Bytes
  pub next_num : ℕ
  pub current : Option Chunk
  pub err : Option Error

abbrev scan_error : Error
scan_error = foreign 0

abbrev pub scanned : Scanner → ℕ → Bytes → Option ℕ → Scanner × Bool
scanned s size rest none = (record s { input = rest; err = some invalid_hash_length }, false)
scanned s size rest (some h) = (
  record s {
    input = rest;
    current = some (set_hash (set_target_size (new_chunk s.next_num none) size) h);
    next_num = s.next_num + 1;
  },
  true,
)

abbrev pub next_of : Scanner → Line → Scanner × Bool
next_of s end = (record s { err = none }, false)
next_of s bad_line = (record s { err = some scan_error }, false)
next_of s (line hash size rest) = scanned s size rest (load_slice hash)

-- `Next`: the new scanner, and whether there is a chunk. The end of the input is no error.
unfoldable pub next : Scanner → Scanner × Bool
unfolding scan_line load_slice
next s = next_of s (scan_line s.input)

abbrev pub new_scanner : ℕ → Bytes → Scanner
new_scanner n input = record { input = input; next_num = n; current = none; err = none }

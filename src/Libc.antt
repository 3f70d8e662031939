-- ===== src/Libc.antt =====
-- What the programs use of the C library: character classes, strtol and atoi, fgets on lines of
-- input, and the conversions of sscanf. Strings are the bytes before the closing zero.
pub mod Decimal
pub mod Strtol
use epoll_chat.Common.{
  ℕ, zero, suc, ◌+◌, ◌-◌, ◌*◌, ◌%◌, ◌^◌, Bool, true, false, ◌&&◌, ◌||◌, List, [], ◌∷◌, Text, Option,
  none, some, if◌then◌else◌, ltb, leb, ◌==◌, length, take, drop,
}
use epoll_chat.Common.Int.{ℤ, pos, negsuc}

-- isspace and isdigit
abbrev pub is_space : ℕ → Bool
is_space c = c == b' ' || leb 9 c && leb c 13

abbrev pub is_digit : ℕ → Bool
is_digit c = leb b'0' c && leb c b'9'

unfoldable pub skip_space : Text → Text
skip_space [] = []
skip_space (c ∷ s) = if is_space c then skip_space s else c ∷ s

-- The digits at the front of a string, read into `v`, and what follows them.
unfoldable pub read_digits : ℕ → Text → ℕ × Text
read_digits v [] = (v, [])
read_digits v (c ∷ s) = if is_digit c then read_digits (v * 10 + (c - b'0')) s else (v, c ∷ s)

-- LONG_MAX is 2 ^ 63 - 1; the flag tells that `errno` is set to ERANGE.
abbrev pub clamp : Bool → ℕ → ℤ × Bool
clamp false v = if ltb v (2 ^ 63) then (pos v, false) else (pos (2 ^ 63 - 1), true)
clamp true v =
    if v == 0
    then (pos 0, false)
    else if leb v (2 ^ 63)
    then (negsuc (v - 1), false)
    else (negsuc (2 ^ 63 - 1), true)

-- A number that was read: its value, whether it was out of range, and the rest of the string.
pub record Number : Type 0 where
  pub value : ℤ
  pub erange : Bool
  pub rest : Text

unfoldable pub number : Bool → Text → Option Number
number minus [] = none
number minus (c ∷ s) =
    let r = read_digits 0 (c ∷ s) in
    if is_digit c
    then some (record { value = (clamp minus r.0).0; erange = (clamp minus r.0).1; rest = r.1 })
    else none

unfoldable pub signed : Text → Option Number
signed [] = none
signed (c ∷ s) =
    if c == b'-' then number true s else if c == b'+' then number false s else number false (c ∷ s)

-- strtol with base 10; `none` where no digit is found and the end pointer is the start.
unfoldable pub strtol : Text → Option Number
unfolding signed number
strtol s = signed (skip_space s)

-- A `long` or an `int` as a `uint32_t`
abbrev pub to_u32 : ℤ → ℕ
to_u32 (pos n) = n % 2 ^ 32
to_u32 (negsuc n) = 2 ^ 32 - 1 - n % 2 ^ 32

abbrev value_of : Option Number → ℤ
value_of none = pos 0
value_of (some r) = r.value

-- atoi, whose int is kept as its bits
unfoldable pub atoi : Text → ℕ
unfolding strtol
atoi s = to_u32 (value_of (strtol s))

-- At most `n` bytes, up to a newline and with it, and what is left.
unfoldable pub read_line : ℕ → Text → Text × Text
read_line zero s = ([], s)
read_line (suc n) [] = ([], [])
read_line (suc n) (c ∷ s) =
    let r = read_line n s in if c == b'\n' then (c ∷ [], s) else (c ∷ r.0, r.1)

-- fgets into `n` bytes, from the bytes that the input holds; `none` at its end.
unfoldable pub fgets : ℕ → Text → Option (Text × Text)
unfolding read_line
fgets n [] = none
fgets n (c ∷ s) = some (read_line (n - 1) (c ∷ s))

-- `s[strlen(s) - 1] = '\0'`; on an empty string the write is before its start.
unfoldable pub chop : Text → Option Text
chop [] = none
chop (c ∷ s) = some (take (length s) (c ∷ s))

-- The number behind a sign, as an `unsigned int`: strtoul, at most ULONG_MAX, cut to 32 bits.
abbrev pub unsigned_value : Bool → ℕ → ℕ
unsigned_value false v = (if ltb v (2 ^ 64) then v else 2 ^ 64 - 1) % 2 ^ 32
unsigned_value true v = (if leb v (2 ^ 64) then 2 ^ 64 - v else 2 ^ 64 - 1) % 2 ^ 32

abbrev pub unsigned_number : Bool → Text → Option ℕ
unsigned_number minus [] = none
unsigned_number minus (c ∷ s) =
    if is_digit c then some (unsigned_value minus (read_digits 0 (c ∷ s)).0) else none

abbrev pub unsigned_signed : Text → Option ℕ
unsigned_signed [] = none
unsigned_signed (c ∷ s) =
    if c == b'-'
    then unsigned_number true s
    else if c == b'+'
    then unsigned_number false s
    else unsigned_number false (c ∷ s)

-- `%u` of sscanf
unfoldable pub scan_u32 : Text → Option ℕ
unfolding skip_space read_digits
scan_u32 s = unsigned_signed (skip_space s)

-- `%s` of sscanf: the bytes up to the next white space, at least one.
unfoldable pub read_word : Text → Text × Text
read_word [] = ([], [])
read_word (c ∷ s) = let r = read_word s in if is_space c then ([], c ∷ s) else (c ∷ r.0, r.1)

abbrev pub with_word : Text → Option ℕ → Option (Text × ℕ)
with_word [] n = none
with_word (c ∷ s) none = none
with_word (c ∷ s) (some n) = some (c ∷ s, n)

-- `sscanf(s, "%s %u", …) == 2`
unfoldable pub scan_word_u32 : Text → Option (Text × ℕ)
unfolding skip_space read_word scan_u32
scan_word_u32 s = let r = read_word (skip_space s) in with_word r.0 (scan_u32 r.1)

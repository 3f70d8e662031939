-- ===== src/Libc/Decimal.antt =====
-- Numbers that are printed and read again.
use epoll_chat.Common.{
  ℕ, zero, suc, ◌+◌, ◌*◌, ◌/◌, ◌%◌, ◌<◌, ◌^◌, ◌≡◌, refl, sym, ap, ◌∙◌, inl, inr, true, false, [],
  ◌∷◌, ◌++◌, Text, some, ltb, Bool-cases, arith, decimal, digits_before,
}
use epoll_chat.Common.Int.{pos, negsuc}
use epoll_chat.Libc.{
  is_space, is_digit, skip_space, read_digits, signed, number, strtol, scan_u32, scan_word_u32,
  read_word,
}

-- Ten to the power of `f`.
abbrev pub pow10 : ℕ → ℕ
pow10 zero = 1
pow10 (suc f) = 10 * pow10 f

-- What follows a number does not go on with a digit.
abbrev pub EndsNumber : Text → Type 0
EndsNumber [] = Unit {0}
EndsNumber (c ∷ s) = is_digit c ≡ false

read_digits-digits_before :
    (f n : ℕ) (acc : Text) → n < pow10 f → read_digits 0 (digits_before f n acc) ≡ read_digits n acc
unfolding read_digits digits_before
read_digits-digits_before zero n acc h = ground arith
read_digits-digits_before (suc f) n acc h =
    ground (arith, read_digits-digits_before f (n / 10) ((b'0' + n % 10) ∷ acc))

digits_before-append :
    (f n : ℕ) (acc rest : Text) → digits_before f n acc ++ rest ≡ digits_before f n (acc ++ rest)
unfolding digits_before
digits_before-append zero n acc rest = refl
digits_before-append (suc f) n acc rest =
    ground (arith, digits_before-append f (n / 10) ((b'0' + n % 10) ∷ acc) rest)

-- A number starts with a digit.
head_digit :
    (f n : ℕ) (acc : Text)
    → n < pow10 (suc f)
    → (c : ℕ) × (s : Text) × (digits_before (suc f) n acc ≡ c ∷ s) × (is_digit c ≡ true)
unfolding digits_before
head_digit zero n acc h = (b'0' + n, acc, ground arith, ground arith)
head_digit (suc f) n acc h = elim (Bool-cases (ltb n 10)) [
  | inl e ↦ (b'0' + n, acc, rw e, ground arith)
  | inr e ↦
      let (c, s, eq, d) = head_digit f (n / 10) ((b'0' + n % 10) ∷ acc) (ground arith) in
      (c, s, rw e eq, d)
]

read_digits_stop : (n : ℕ) (rest : Text) → EndsNumber rest → read_digits n rest ≡ (n, rest)
unfolding read_digits
read_digits_stop n [] e = refl
read_digits_stop n (c ∷ s) e = rw e

strtol_digits :
    (n c : ℕ) (s rest : Text)
    → n < 2 ^ 63
    → is_digit c ≡ true
    → read_digits 0 (c ∷ s) ≡ (n, rest)
    → strtol (c ∷ s) ≡ some (record { value = pos n; erange = false; rest = rest })
unfolding strtol signed number skip_space
strtol_digits n c s rest h d e = ground (arith, e)

-- strtol reads back what `%u` prints, up to what follows.
pub strtol-decimal :
    (n : ℕ) (rest : Text)
    → n < 2 ^ 63
    → EndsNumber rest
    → strtol (decimal n ++ rest) ≡ some (record { value = pos n; erange = false; rest = rest })
unfolding decimal
strtol-decimal n rest h e =
    let small : n < pow10 20 = omega arith in
    let (c, s, eq, d) = head_digit 19 n rest small in
    rw (digits_before-append 20 n [] rest, eq)
      (strtol_digits n c s rest h d (
        ap (read_digits 0) (sym eq)
        ∙ (read_digits-digits_before 20 n rest small ∙ read_digits_stop n rest e)))

strtol_minus :
    (n c : ℕ) (s rest : Text)
    → n < 2 ^ 63
    → is_digit c ≡ true
    → read_digits 0 (c ∷ s) ≡ (suc n, rest)
    → strtol (b'-' ∷ c ∷ s) ≡ some (record { value = negsuc n; erange = false; rest = rest })
unfolding strtol signed number skip_space
strtol_minus n c s rest h d e = ground (arith, e)

-- And a minus sign before it.
pub strtol_negative :
    (n : ℕ) (rest : Text)
    → n < 2 ^ 63
    → EndsNumber rest
    → strtol (b'-' ∷ (decimal (suc n) ++ rest))
      ≡ some (record { value = negsuc n; erange = false; rest = rest })
unfolding decimal
strtol_negative n rest h e =
    let small : suc n < pow10 20 = omega arith in
    let (c, s, eq, d) = head_digit 19 (suc n) rest small in
    rw (digits_before-append 20 (suc n) [] rest, eq)
      (strtol_minus n c s rest h d (
        ap (read_digits 0) (sym eq)
        ∙ (read_digits-digits_before 20 (suc n) rest small ∙ read_digits_stop (suc n) rest e)))

unsigned_digits :
    (n c : ℕ) (s rest : Text)
    → n < 2 ^ 32
    → is_digit c ≡ true
    → read_digits 0 (c ∷ s) ≡ (n, rest)
    → scan_u32 (b' ' ∷ c ∷ s) ≡ some n
unfolding scan_u32 skip_space
unsigned_digits n c s rest h d e = ground (arith, e)

-- `%u` of sscanf reads back what `%u` prints, with a space before it.
scan_u32-decimal : (n : ℕ) → n < 2 ^ 32 → scan_u32 (b' ' ∷ decimal n) ≡ some n
unfolding decimal
scan_u32-decimal n h =
    let small : n < pow10 20 = omega arith in
    let (c, s, eq, d) = head_digit 19 n [] small in
    ap (λ t. scan_u32 (b' ' ∷ t)) eq
    ∙ unsigned_digits n c s [] h d (
        ap (read_digits 0) (sym eq)
        ∙ (read_digits-digits_before 20 n [] small ∙ read_digits_stop n [] tt))

-- A word that sscanf reads whole: some bytes, and no white space.
abbrev pub IsBlack : Text → Type 0
IsBlack [] = Unit {0}
IsBlack (c ∷ s) = (is_space c ≡ false) × IsBlack s

read_word-IsBlack : (s t : Text) → IsBlack s → read_word (s ++ (b' ' ∷ t)) ≡ (s, b' ' ∷ t)
unfolding read_word
read_word-IsBlack [] t h = refl
read_word-IsBlack (c ∷ s) t (h, k) = rw (read_word-IsBlack s t k, h) refl

-- sscanf with "%s %u" reads back a word and a number.
pub scan_word_u32-decimal :
    (c : ℕ) (s : Text) (n : ℕ)
    → IsBlack (c ∷ s)
    → n < 2 ^ 32
    → scan_word_u32 ((c ∷ s) ++ (b' ' ∷ decimal n)) ≡ some (c ∷ s, n)
unfolding scan_word_u32 skip_space
scan_word_u32-decimal c s n (h, k) l =
    rw (h, read_word-IsBlack (c ∷ s) (decimal n) (h, k), scan_u32-decimal n l) refl

-- ===== src/ClientApp/RegFile/Negative.antt =====
-- What regfile makes of a negative chunk size.
use epoll_chat.Common.{
  ℕ, suc, ◌+◌, ◌*◌, ◌/◌, ◌<◌, ◌≤◌, ◌≡◌, ◌^◌, ◌∙◌, zero, codes, refl, true, false, ltb, leb, ap,
  Bool, if◌then◌else◌, Bool-cases, inl, inr, Text, some, length, arith, none, [], ◌∷◌, ◌++◌,
  decimal, contains, ◌==◌,
}
use native.Mathlib.Nat.{lt-div-mul-add, zero-mul}
use epoll_chat.Common.Int.{ℤ, pos, negsuc, sub_ℕ}
use epoll_chat.Protobuf.{Protobuf, c_string, ◌>>=◌}
use epoll_chat.Libc.{strtol, fgets, read_line}
use epoll_chat.Libc.Decimal.{strtol_negative}
use epoll_chat.ClientApp.{App, Os, file_dir, make_dir, prints}
use epoll_chat.ClientApp.Names.{decimal_byte, length-decimal}
use epoll_chat.ClientApp.Private.{bufsiz}
use epoll_chat.ClientApp.Commands.{Outcome}
use epoll_chat.ClientApp.RegFile.{
  chunk_count, split_file, chunk_size, chunk_size_of, register_file, register_request, base_name,
  ask_chunk_size, confirm, summary_text,
}

-- None, or less.
abbrev pub NotPositive : ℤ → Type 0
NotPositive (pos n) = n ≡ 0
NotPositive (negsuc n) = Unit {0}

sub_ℕ-NotPositive : (a b : ℕ) → a ≤ b → NotPositive (sub_ℕ a b)
sub_ℕ-NotPositive a b h = elim (Bool-cases (leb b a)) [
  | inl e ↦ rw e (ground arith)
  | inr e ↦ rw e tt
]

quotient_pos : (b n : ℕ) → 0 < n → n ≤ b → 1 ≤ b / n
quotient_pos b n h l = elim (Bool-cases (ltb 0 (b / n))) [
  | inl e ↦ ground arith
  | inr e ↦
      let z : b / n ≡ 0 = ground arith in
      absurd (omega (arith, ap (λ q. q * n + n) z, zero-mul n, lt-div-mul-add {a = b} h))
]

chunk_count-NotPositive : (bytes n : ℕ) → suc n ≤ bytes → NotPositive (chunk_count bytes (negsuc n))
unfolding chunk_count
chunk_count-NotPositive bytes n h = elim (Bool-cases (ltb (bytes / suc n * suc n) bytes)) [
  | inl e ↦ rw e (sub_ℕ-NotPositive 1 (bytes / suc n) (quotient_pos bytes (suc n) (omega arith) h))
  | inr e ↦ rw e (sub_ℕ-NotPositive 0 (bytes / suc n) (omega arith))
]

module _ ⦃os : Os⦄ where
  split_none :
      (a : App) (filepath filename bytes : Text) (size : ℕ) (n : ℤ)
      → NotPositive n
      → os.can_read a.files filepath ≡ true
      → split_file a filepath filename bytes (negsuc size) n ≡ some a
  unfolding split_file
  split_none a filepath filename bytes size (pos n) z r = rw r (ground arith)
  split_none a filepath filename bytes size (negsuc n) z r = rw r refl

  split_file-negative :
      (a : App) (filepath filename bytes : Text) (n : ℕ)
      → suc n ≤ length bytes
      → os.can_read a.files filepath ≡ true
      → split_file a filepath filename bytes (negsuc n) (chunk_count (length bytes) (negsuc n))
        ≡ some a
  split_file-negative a filepath filename bytes n h r =
      split_none a filepath filename bytes n (chunk_count (length bytes) (negsuc n))
        (chunk_count-NotPositive (length bytes) n h) r

-- The line "-<n + 1>", as fgets gives it.
abbrev pub minus_line : ℕ → Text
minus_line n = b'-' ∷ (decimal (suc n) ++ (10 ∷ []))

c_string-digits : (s : Text) → contains s 0 ≡ false → c_string (s ++ (10 ∷ [])) ≡ s ++ (10 ∷ [])
unfolding c_string
c_string-digits [] h = refl
c_string-digits (c ∷ s) h = elim (Bool-cases (c == 0)) [
  | inl e ↦ absurd (ground arith)
  | inr e ↦ rw (e, c_string) (ap (λ t. c ∷ t) (c_string-digits s (ground arith)))
]

-- It is taken as the size.
chunk_size-minus : (n : ℕ) → n < 2 ^ 63 → chunk_size (minus_line n) ≡ negsuc n
unfolding chunk_size c_string
chunk_size-minus n h =
    ap (λ s. chunk_size_of (strtol (b'-' ∷ s)))
      (c_string-digits (decimal (suc n)) (decimal_byte (suc n) 0 (omega arith)))
    ∙ ap chunk_size_of (strtol_negative n (10 ∷ []) h refl)

read_line-newline :
    (k : ℕ) (s rest : Text)
    → contains s 10 ≡ false
    → length s < k
    → read_line k (s ++ (10 ∷ rest)) ≡ (s ++ (10 ∷ []), rest)
unfolding read_line
read_line-newline zero s rest h l = absurd (omega arith)
read_line-newline (suc k) [] rest h l = refl
read_line-newline (suc k) (c ∷ s) rest h l = elim (Bool-cases (c == 10)) [
  | inl e ↦ absurd (ground arith)
  | inr e ↦
      rw (e, read_line)
        (ap (λ (r : Text × Text). (c ∷ r.0, r.1))
          (read_line-newline k s rest (ground arith) (omega arith)))
]

fgets-minus :
    (n : ℕ) (rest : Text)
    → n < 2 ^ 63
    → fgets bufsiz (b'-' ∷ (decimal (suc n) ++ (10 ∷ rest))) ≡ some (minus_line n, rest)
unfolding fgets
fgets-minus n rest h = ap some (
    read_line-newline 8191 (b'-' ∷ decimal (suc n)) rest (decimal_byte (suc n) 10 (omega arith))
      (omega (arith, length-decimal (suc n))))

-- The answer "y" ends a loop of questions.
confirm_yes :
    (fuel : ℕ) (question again : Text) (a : App) (rest : Text)
    → a.stdin ≡ b'y' ∷ 10 ∷ rest
    → confirm (suc fuel) question again a ≡ some (true, record (prints a question) { stdin = rest })
unfolding confirm fgets read_line
confirm_yes fuel question again a rest e = rw e refl

module _ ⦃os : Os⦄ ⦃pb : Protobuf⦄ where
  register_lem :
      (a : App) (filepath bytes : Text) (size n : ℤ)
      → let name = base_name filepath in
        let made : App = record a { files = make_dir a.files (file_dir a name) } in
        a.files (file_dir a name) ≡ none
        → os.can_make a.files (file_dir a name) ≡ true
        → split_file made filepath name bytes size n ≡ some made
        → register_file a filepath bytes size n ≡ some (made, some (register_request name n))
  unfolding register_file
  register_lem a filepath bytes size n e m s = rw (e, register_file, m, s) refl

  -- The state behind the question for the size, and behind the answer to the last question.
  abbrev sized_app : App → Text → Text → Text → App
  sized_app a filepath bytes rest =
      record (prints
        (prints a (
          base_name filepath
          ++ (codes " is a valid file with " ++ (decimal (length bytes) ++ codes " bytes!\n"))))
        (codes "How large do you want a chunk to be (in bytes) [default 1024]: ")) { stdin = rest }

  abbrev summary_of : Text → Text → ℤ → Text
  summary_of filepath bytes size =
      summary_text (base_name filepath) filepath (length bytes) size
        (chunk_count (length bytes) size)

  abbrev agreed_app : App → Text → Text → ℤ → Text → Text → App
  agreed_app a filepath bytes size line rest =
      record (prints (sized_app a filepath bytes line) (summary_of filepath bytes size)) {
        stdin = rest;
      }

  abbrev agree : Text → Text → ℤ → Bool × App → Outcome
  agree filepath bytes size q =
      if q.0
      then register_file q.1 filepath bytes size (chunk_count (length bytes) size)
      else some (q.1, none)

  abbrev sized : App → Text → Text → ℤ → Text → Outcome
  sized a filepath bytes size rest =
      confirm (suc (length rest)) (summary_of filepath bytes size) (codes "I didn't get that...\n")
        (sized_app a filepath bytes rest)
      >>= agree filepath bytes size

  ask_chunk_size-sized :
      (a : App) (filepath bytes : Text)
      → ask_chunk_size a filepath bytes
        ≡ (fgets bufsiz a.stdin >>= λ r. sized a filepath bytes (chunk_size r.0) r.1)
  unfolding ask_chunk_size
  ask_chunk_size-sized a filepath bytes = refl

  sized_yes :
      (a : App) (filepath bytes rest : Text) (size : ℤ)
      → sized a filepath bytes size (b'y' ∷ 10 ∷ rest)
        ≡ register_file
            (agreed_app a filepath bytes size (b'y' ∷ 10 ∷ rest) rest)
            filepath
            bytes
            size
            (chunk_count (length bytes) size)
  sized_yes a filepath bytes rest size =
      ap (λ o. o >>= agree filepath bytes size)
        (confirm_yes (suc (suc (length rest))) (summary_of filepath bytes size)
          (codes "I didn't get that...\n") (sized_app a filepath bytes (b'y' ∷ 10 ∷ rest)) rest
          refl)

  -- The answers "-<n + 1>" and "y" to the last two questions of regfile, for a file of n + 1 bytes or
  -- more that can be read, and the directory of whose chunks can be made: the count of chunks is zero
  -- or less, and the file is registered with that count modulo 2 ^ 32, although nothing but the empty
  -- directory was made.
  pub ask_chunk_size-negative :
      (a : App) (filepath bytes rest : Text) (n : ℕ)
      → n < 2 ^ 63
      → suc n ≤ length bytes
      → a.stdin ≡ b'-' ∷ (decimal (suc n) ++ (10 ∷ b'y' ∷ 10 ∷ rest))
      → let dir = file_dir a (base_name filepath) in
        a.files dir ≡ none
        → os.can_make a.files dir ≡ true
        → os.can_read (make_dir a.files dir) filepath ≡ true
        → let count = chunk_count (length bytes) (negsuc n) in
          (a' : App) × (ask_chunk_size a filepath bytes
            ≡ some (a', some (register_request (base_name filepath) count)))
          × (a'.files ≡ make_dir a.files dir)
          × NotPositive count
  ask_chunk_size-negative a filepath bytes rest n b h i e m r =
      let size = negsuc n in
      let answers : Text = b'y' ∷ 10 ∷ rest in
      let agreed = agreed_app a filepath bytes size answers rest in
      let made : App = record agreed {
        files = make_dir a.files (file_dir a (base_name filepath));
      } in
      (
        made,
        ask_chunk_size-sized a filepath bytes
            ∙ (ap (λ o. o >>= λ l. sized a filepath bytes (chunk_size l.0) l.1)
                  (ap (fgets bufsiz) i ∙ fgets-minus n answers b)
                ∙ (ap (λ z. sized a filepath bytes z answers) (chunk_size-minus n b)
                    ∙ (sized_yes a filepath bytes rest size
                        ∙ register_lem agreed filepath bytes size (chunk_count (length bytes) size)
                            e m
                            (split_file-negative made filepath (base_name filepath) bytes n h r)))),
        refl,
        chunk_count-NotPositive (length bytes) n h,
      )

-- ===== src/Libc/Strtol.antt =====
-- How far strtol reads.
use epoll_chat.Common.{
  ℕ, suc, ◌+◌, ◌-◌, ◌*◌, ◌≤◌, ◌≡◌, subst, inl, inr, Bool, true, false, [], ◌∷◌, Text, Option, none,
  some, Bool-cases, arith, length, ◌==◌,
}
use epoll_chat.Libc.{is_space, is_digit, skip_space, read_digits, signed, number, strtol, Number}
use epoll_chat.Libc.Decimal.{EndsNumber}

read_digits-rest :
    (v : ℕ) (s : Text) → (length (read_digits v s).1 ≤ length s) × EndsNumber (read_digits v s).1
unfolding read_digits
read_digits-rest v [] = (omega arith, tt)
read_digits-rest v (c ∷ s) = elim (Bool-cases (is_digit c)) [
  | inl e ↦ let ih = read_digits-rest (v * 10 + (c - b'0')) s in rw e (omega (arith, ih.0), ih.1)
  | inr e ↦ rw e (omega arith, e)
]

-- What a number takes of a string: one byte at least, and the rest does not go on with a digit.
abbrev Reads : Text → Option Number → ℕ → Type 0
Reads s none k = Unit {0}
Reads s (some r) k = (length r.rest + k ≤ length s) × EndsNumber r.rest

number-Reads : (minus : Bool) (s : Text) → Reads s (number minus s) 1
unfolding number read_digits
number-Reads minus [] = tt
number-Reads minus (c ∷ s) = elim (Bool-cases (is_digit c)) [
  | inl e ↦ let ih = read_digits-rest (0 * 10 + (c - b'0')) s in rw e (omega (arith, ih.0), ih.1)
  | inr e ↦ rw e tt
]

Reads-suc : (c k : ℕ) (s : Text) (r : Option Number) → Reads s r k → Reads (c ∷ s) r (suc k)
Reads-suc c k s none h = tt
Reads-suc c k s (some r) h = (omega (arith, h.0), h.1)

Reads-weaken : (s : Text) (r : Option Number) → Reads s r 2 → Reads s r 1
Reads-weaken s none h = tt
Reads-weaken s (some r) h = (omega (arith, h.0), h.1)

signed-Reads : (s : Text) → Reads s (signed s) 1
unfolding signed
signed-Reads [] = tt
signed-Reads (c ∷ s) = elim (Bool-cases (c == b'-')) [
  | inl e ↦ rw e (Reads-weaken (c ∷ s) (number true s) (Reads-suc c 1 s _ (number-Reads true s)))
  | inr e ↦ rw e (elim (Bool-cases (c == b'+')) [
    | inl f ↦
        rw f (Reads-weaken (c ∷ s) (number false s) (Reads-suc c 1 s _ (number-Reads false s)))
    | inr f ↦ rw f (number-Reads false (c ∷ s))
  ])
]

-- strtol takes one byte at least, and stops before a byte that is no digit.
pub strtol-Reads : (s : Text) → Reads s (strtol s) 1
unfolding strtol skip_space
strtol-Reads [] = signed-Reads []
strtol-Reads (c ∷ s) = elim (Bool-cases (is_space c)) [
  | inl e ↦ rw e (Reads-weaken (c ∷ s) _ (Reads-suc c 1 s _ (strtol-Reads s)))
  | inr e ↦ rw e (signed-Reads (c ∷ s))
]

signed-Reads_two : (c : ℕ) (s : Text) → is_digit c ≡ false → Reads (c ∷ s) (signed (c ∷ s)) 2
unfolding signed number
signed-Reads_two c s d = elim (Bool-cases (c == b'-')) [
  | inl e ↦ rw e (Reads-suc c 1 s _ (number-Reads true s))
  | inr e ↦ rw e (elim (Bool-cases (c == b'+')) [
    | inl f ↦ rw f (Reads-suc c 1 s _ (number-Reads false s))
    | inr f ↦ rw (f, d) tt
  ])
]

-- Behind a number strtol takes two bytes at least: a sign or white space, and a digit.
pub strtol-Reads_two : (s : Text) → EndsNumber s → Reads s (strtol s) 2
unfolding strtol skip_space
strtol-Reads_two [] h = signed-Reads []
strtol-Reads_two (c ∷ s) h = elim (Bool-cases (is_space c)) [
  | inl e ↦ rw e (Reads-suc c 1 s _ (strtol-Reads s))
  | inr e ↦ rw e (signed-Reads_two c s h)
]

-- The same as equations on the number read.
pub strtol_rest :
    (s : Text) (r : Number) → strtol s ≡ some r → (length r.rest + 1 ≤ length s) × EndsNumber r.rest
strtol_rest s r e = subst (λ o. Reads s o 1) e (strtol-Reads s)

pub strtol_rest_two :
    (s : Text) (r : Number) → EndsNumber s → strtol s ≡ some r → length r.rest + 2 ≤ length s
strtol_rest_two s r h e = (subst (λ o. Reads s o 2) e (strtol-Reads_two s h)).0

-- ===== src/Files/Values.antt =====
-- pack_repeated_uint32_from_str of lib/socket.c: the chunk numbers of a command line.
use epoll_chat.Common.{
  ℕ, zero, suc, ◌+◌, ◌*◌, ◌/◌, ◌<◌, ◌≤◌, ◌^◌, ◌≡◌, refl, sym, ap, ◌∙◌, inl, inr, List, [], ◌∷◌,
  ◌++◌, Text, Option, none, some, Option-cases, arith, length, length-append, append-nil, ap₂,
  decimal,
}
use epoll_chat.Common.Int.{pos}
use epoll_chat.Libc.{strtol, Number, to_u32}
use epoll_chat.Libc.Strtol.{strtol_rest, strtol_rest_two}
use epoll_chat.Libc.Decimal.{EndsNumber, strtol-decimal}
use epoll_chat.Files.{pack_uint32, parse_packed_uint32}
use epoll_chat.Files.Packing.{AllU32, parse-pack_uint32}

abbrev pub cons_value : ℕ → Option (List ℕ) → Option (List ℕ)
cons_value v none = none
cons_value v (some vs) = some (v ∷ vs)

-- What the loop makes of the rest `t` of the string behind a number, given what it makes of a
-- string in its next rounds: `*e == '\0'` ends it.
abbrev pub after_value : (Text → Option (List ℕ)) → ℕ → Text → Option (List ℕ)
after_value next v [] = some (v ∷ [])
after_value next v (c ∷ e) = cons_value v (next (c ∷ e))

-- The loop over `str`: the numbers in `vals`, or none at a byte that starts no number.
unfoldable pub parse_values : ℕ → Text → Option (List ℕ)
parse_values zero s = none
parse_values (suc fuel) s = elim (strtol s) [
  | none ↦ none
  | some r ↦ after_value (parse_values fuel) (to_u32 r.value) r.rest
]

-- Each number takes a byte, so a round to each byte and one more are enough.
unfoldable pub pack_repeated_uint32_from_str : Text → Option (Text × ℕ)
unfolding parse_values
pack_repeated_uint32_from_str s = elim (parse_values (suc (length s)) s) [
  | none ↦ none
  | some vs ↦ some (pack_uint32 vs, length vs)
]

-- How many elements of `vals` the loop writes, the one at the byte that starts no number included.
abbrev pub after_written : (Text → ℕ) → Text → ℕ
after_written next [] = 1
after_written next (c ∷ e) = suc (next (c ∷ e))

unfoldable pub written : ℕ → Text → ℕ
written zero s = 0
written (suc fuel) s = elim (strtol s) [ none ↦ 1 | some r ↦ after_written (written fuel) r.rest ]

parse_values-suc :
    (f : ℕ) (s : Text) (r : Number)
    → strtol s ≡ some r
    → parse_values (suc f) s ≡ after_value (parse_values f) (to_u32 r.value) r.rest
unfolding parse_values
parse_values-suc f s r e = rw (e, parse_values)

parse_values-none : (f : ℕ) (s : Text) → strtol s ≡ none → parse_values (suc f) s ≡ none
unfolding parse_values
parse_values-none f s e = rw (e, parse_values)

after_value-cong :
    (p q : Text → Option (List ℕ)) (v : ℕ) (t : Text)
    → p t ≡ q t
    → after_value p v t ≡ after_value q v t
after_value-cong p q v [] h = refl
after_value-cong p q v (c ∷ e) h = ap (cons_value v) h

parse_values_enough :
    (f g : ℕ) (s : Text) → length s < f → length s < g → parse_values f s ≡ parse_values g s
parse_values_enough zero g s h k = absurd (omega arith)
parse_values_enough (suc f) zero s h k = absurd (omega arith)
parse_values_enough (suc f) (suc g) s h k = elim (Option-cases (strtol s)) [
  | inl e ↦ parse_values-none f s e ∙ sym (parse_values-none g s e)
  | inr (r, e) ↦
      let l = (strtol_rest s r e).0 in
      parse_values-suc f s r e
      ∙ (after_value-cong (parse_values f) (parse_values g) (to_u32 r.value) r.rest
            (parse_values_enough f g r.rest (omega arith) (omega arith))
          ∙ sym (parse_values-suc g s r e))
]

-- The loop of pack_repeated_uint32_from_str ends by itself within as many rounds as the string has
-- bytes and one more: more rounds find the same numbers.
pub parse_values_lem :
    (s : Text) (k : ℕ) → parse_values (suc (length s) + k) s ≡ parse_values (suc (length s)) s
parse_values_lem s k =
    parse_values_enough (suc (length s) + k) (suc (length s)) s (omega arith) (omega arith)

written_suc :
    (f : ℕ) (s : Text) (r : Number)
    → strtol s ≡ some r
    → written (suc f) s ≡ after_written (written f) r.rest
unfolding written
written_suc f s r e = rw (e, written)

written_none : (f : ℕ) (s : Text) → strtol s ≡ none → written (suc f) s ≡ 1
unfolding written
written_none f s e = rw (e, written)

after_written-bound :
    (p : Text → ℕ) (t : Text) (n : ℕ)
    → length t + 2 ≤ n
    → (1 ≤ length t → 2 * p t ≤ length t + 1)
    → 2 * after_written p t ≤ n + 1
after_written-bound p [] n l h = omega arith
after_written-bound p (c ∷ e) n l h = omega (arith, h (omega arith))

-- Behind a number each element takes two bytes of the string.
written-bound : (f : ℕ) (s : Text) → EndsNumber s → 1 ≤ length s → 2 * written f s ≤ length s + 1
unfolding written
written-bound zero s b l = omega arith
written-bound (suc f) s b l = elim (Option-cases (strtol s)) [
  | inl e ↦ rw (written_none f s e) (omega arith)
  | inr (r, e) ↦ rw (written_suc f s r e) (
      after_written-bound (written f) r.rest (length s) (strtol_rest_two s r b e)
        (written-bound f r.rest (strtol_rest s r e).1))
]

after_written-size :
    (p : Text → ℕ) (t : Text) (n : ℕ)
    → length t + 1 ≤ n
    → (1 ≤ length t → 2 * p t ≤ length t + 1)
    → after_written p t ≤ 1 + n / 2
after_written-size p [] n l h = omega arith
after_written-size p (c ∷ e) n l h = omega (arith, h (omega arith))

-- `vals`, allocated with 1 + strlen(str) / 2 elements, is not overrun by the loop of
-- pack_repeated_uint32_from_str on any string, however many rounds are made, the element that is
-- written before an invalid byte is found included.
pub written-size : (fuel : ℕ) (s : Text) → written fuel s ≤ 1 + length s / 2
unfolding written
written-size zero s = omega arith
written-size (suc f) s = elim (Option-cases (strtol s)) [
  | inl e ↦ rw (written_none f s e) (omega arith)
  | inr (r, e) ↦ rw (written_suc f s r e) (
      after_written-size (written f) r.rest (length s) (strtol_rest s r e).0
        (written-bound f r.rest (strtol_rest s r e).1))
]

-- The numbers of a command line, with a space between them.
abbrev pub numbers_text : ℕ → List ℕ → Text
numbers_text v [] = decimal v
numbers_text v (u ∷ us) = decimal v ++ (b' ' ∷ numbers_text u us)

strtol-space : (s : Text) → strtol (b' ' ∷ s) ≡ strtol s
unfolding strtol epoll_chat.Libc.skip_space
strtol-space s = refl

parse_values-space : (f : ℕ) (s : Text) → parse_values (suc f) (b' ' ∷ s) ≡ parse_values (suc f) s
unfolding parse_values
parse_values-space f s = rw (strtol-space s, parse_values)

to_u32-pos : (v : ℕ) → v < 2 ^ 32 → to_u32 (pos v) ≡ v
to_u32-pos v h = omega arith

parse_values-numbers_text :
    (f v : ℕ) (vs : List ℕ)
    → length vs ≤ f
    → AllU32 (v ∷ vs)
    → parse_values (suc f) (numbers_text v vs) ≡ some (v ∷ vs)
parse_values-numbers_text f v [] l (h, hs) =
    parse_values-suc f (decimal v) _
      (ap strtol (sym (append-nil (decimal v))) ∙ strtol-decimal v [] (omega arith) tt)
    ∙ ap (λ x. some (x ∷ [])) (to_u32-pos v h)
parse_values-numbers_text zero v (u ∷ us) l h = absurd (omega arith)
parse_values-numbers_text (suc f) v (u ∷ us) l (h, hs) =
    parse_values-suc (suc f) (numbers_text v (u ∷ us)) _
      (strtol-decimal v (b' ' ∷ numbers_text u us) (omega arith) refl)
    ∙ ap₂ cons_value (to_u32-pos v h) (
        parse_values-space f (numbers_text u us)
        ∙ parse_values-numbers_text f u us (omega arith) hs)

length-numbers_text : (v : ℕ) (vs : List ℕ) → length vs ≤ length (numbers_text v vs)
length-numbers_text v [] = omega arith
length-numbers_text v (u ∷ us) =
    omega (arith, length-append (decimal v) (b' ' ∷ numbers_text u us), length-numbers_text u us)

pub pack-numbers_text :
    (v : ℕ) (vs : List ℕ)
    → AllU32 (v ∷ vs)
    → pack_repeated_uint32_from_str (numbers_text v vs)
      ≡ some (pack_uint32 (v ∷ vs), length (v ∷ vs))
unfolding pack_repeated_uint32_from_str
pack-numbers_text v vs h = rw (
  parse_values-numbers_text (length (numbers_text v vs)) v vs (length-numbers_text v vs) h,
  pack_repeated_uint32_from_str,
)

-- One or more 32-bit numbers, printed with `%u` and a space between them, are packed by
-- pack_repeated_uint32_from_str, which returns how many they are, into bytes that
-- parse_packed_uint32 parses into the same numbers.
pub parse-pack-numbers :
    (v : ℕ) (vs : List ℕ)
    → AllU32 (v ∷ vs)
    → (bytes : Text) × (pack_repeated_uint32_from_str (numbers_text v vs)
        ≡ some (bytes, length (v ∷ vs)))
      × (parse_packed_uint32 bytes ≡ v ∷ vs)
parse-pack-numbers v vs h =
    (pack_uint32 (v ∷ vs), pack-numbers_text v vs h, (parse-pack_uint32 (v ∷ vs) h).0)

-- ===== src/Protobuf/Sample.antt =====
-- A codec for which the laws hold, so that they can be met: numbers for tags and lengths.
use epoll_chat.Common.{
  ℕ, zero, suc, ◌≡◌, refl, ap, ◌∙◌, ◌≢◌, ◌-◌, ◌≤◌, ◌<◌, Option, none, some, [], ◌∷◌, ◌++◌, Text,
  length, take, drop, arith, append_assoc, ◌==◌, if◌then◌else◌, length-append, ==_refl, ==_ne,
}
use mathlib.Core.Option.{some-injective, none-ne-some}
use epoll_chat.Protobuf.Read.{Value, varint, bytes, Field, Message, Protobuf, ◌>>=◌}
use epoll_chat.Protobuf.Laws.{ProtobufLaws}

pub find : Message → ℕ → Option Field
find [] i = none
find (f ∷ m) i = if f.id == i then some f else find m i

unfoldable pub put_value : ℕ → Value → Text → Text
put_value i (varint v) rest = i ∷ 0 ∷ v ∷ rest
put_value i (bytes s) rest = i ∷ 1 ∷ length s ∷ (s ++ rest)

unfoldable pub put : Message → Text → Text
unfolding put_value
put [] rest = rest
put (f ∷ m) rest = put_value f.id f.value (put m rest)

-- One field and what follows it.
get : Text → Option (Field × Text)
get (i ∷ zero ∷ v ∷ rest) = some (record { id = i; value = varint v }, rest)
get (i ∷ suc zero ∷ n ∷ rest) = some (record { id = i; value = bytes (take n rest) }, drop n rest)
get other = none

pub get_n : ℕ → Text → Option (Message × Text)
get_n zero s = some ([], s)
get_n (suc n) s = get s >>= λ fr. get_n n fr.1 >>= λ mr. some (fr.0 ∷ mr.0, mr.1)

-- As many fields as there are; every field takes a byte at least.
pub get_all : ℕ → Text → Option Message
get_all zero s = some []
get_all (suc n) [] = some []
get_all (suc n) (c ∷ s) = get (c ∷ s) >>= λ fr. get_all n fr.1 >>= λ m. some (fr.0 ∷ m)

take-length : (s t : Text) → take (length s) (s ++ t) ≡ s
take-length [] t = refl
take-length (c ∷ s) t = ap (◌∷◌ c) (take-length s t)

drop-length : (s t : Text) → drop (length s) (s ++ t) ≡ t
drop-length [] t = refl
drop-length (c ∷ s) t = drop-length s t

get-put_value :
    (i : ℕ) (v : Value) (rest : Text)
    → get (put_value i v rest) ≡ some (record { id = i; value = v }, rest)
unfolding get put_value
get-put_value i (varint v) rest = refl
get-put_value i (bytes s) rest = rw (take-length s rest, drop-length s rest)

get_n-put : (m : Message) (rest : Text) → get_n (length m) (put m rest) ≡ some (m, rest)
unfolding get_n put
get_n-put [] rest = refl
get_n-put (f ∷ m) rest = simp (get-put_value, get_n-put m rest)

put_value-length : (i : ℕ) (v : Value) (rest : Text) → length rest < length (put_value i v rest)
unfolding put_value
put_value-length i (varint v) rest = omega arith
put_value-length i (bytes s) rest = omega (arith, length-append s rest)

put-length : (m : Message) → length m ≤ length (put m [])
unfolding put
put-length [] = omega arith
put-length (f ∷ m) = omega (arith, put-length m, put_value-length f.id f.value (put m []))

get_all_step :
    (n : ℕ) (f : Field) (s rest : Text)
    → s ≢ []
    → get s ≡ some (f, rest)
    → get_all (suc n) s ≡ (get_all n rest >>= λ m. some (f ∷ m))
unfolding get_all
get_all_step n f [] rest h e = absurd (h refl)
get_all_step n f (c ∷ s) rest h e = rw e

put_value-ne-nil : (i : ℕ) (v : Value) (rest : Text) → put_value i v rest ≢ []
unfolding put_value
put_value-ne-nil i (varint v) rest e = cc
put_value-ne-nil i (bytes s) rest e = cc

get_all-put : (n : ℕ) (m : Message) → length m ≤ n → get_all n (put m []) ≡ some m
unfolding get_all put
get_all-put zero [] h = refl
get_all-put zero (f ∷ m) h = absurd (omega arith)
get_all-put (suc n) [] h = refl
get_all-put (suc n) (f ∷ m) h =
    get_all_step n f _ (put m []) (put_value-ne-nil f.id f.value (put m []))
      (get-put_value f.id f.value (put m []))
    ∙ ap (λ r. r >>= λ k. some (f ∷ k)) (get_all-put n m (omega arith))

pub with_count : Text → Option (Message × Text) → Option (Message × ℕ)
with_count s none = none
with_count s (some (m, rest)) = some (m, length s - length rest)

instance abbrev pub sample : Protobuf
sample = record {
  find_field = find;
  encode_msg = λ m. put m [];
  decode_msg = λ s. get_all (length s) s >>= λ m. some (m, length s);
  decode_n_fields = λ s n. with_count s (get_n n s);
}

sample-find_later : (f : Field) (m : Message) (i : ℕ) → f.id ≢ i → find (f ∷ m) i ≡ find m i
unfolding find
sample-find_later f m i h = rw (==_ne f.id i h)

sample-find_here : (f : Field) (m : Message) → find (f ∷ m) f.id ≡ some f
unfolding find
sample-find_here f m = rw (==_refl f.id)

put_value-append :
    (i : ℕ) (v : Value) (s rest : Text) → put_value i v s ++ rest ≡ put_value i v (s ++ rest)
unfolding put_value
put_value-append i (varint v) s rest = refl
put_value-append i (bytes t) s rest = ap (λ r. i ∷ 1 ∷ length t ∷ r) (append_assoc t s rest)

put-append : (m : Message) (rest : Text) → put m [] ++ rest ≡ put m rest
unfolding put
put-append [] rest = refl
put-append (f ∷ m) rest =
    put_value-append f.id f.value (put m []) rest ∙ ap (put_value f.id f.value) (put-append m rest)

used_length : (m : Message) (rest : Text) → length (put m rest) - length rest ≡ length (put m [])
used_length m rest = omega (arith, ap length (put-append m rest), length-append (put m []) rest)

with_count-reads :
    (s : Text) (o : Option (Message × Text)) (k : ℕ) (m : Message)
    → with_count s o ≡ some (m, k)
    → k ≤ length s
unfolding with_count
with_count-reads s none k m e = absurd (none-ne-some _ e)
with_count-reads s (some (m', rest)) k m e =
    let q : length s - length rest ≡ k = ap (λ x. x.1) (some-injective _ _ e) in omega arith

-- The sample codec keeps the laws.
pub sample_laws : ProtobufLaws sample
unfolding with_count
sample_laws = record {
  find_here = sample-find_here;
  find_later = sample-find_later;
  decode-encode = λ m h e. rw (get_all-put (length (put m [])) m (put-length m));
  decode_n_fields-encode = λ m rest e.
      rw (put-append m rest, get_n-put m rest) (ap (λ k. some (m, k)) (used_length m rest));
  decode_n_fields-reads = λ s n k m e. with_count-reads s (get_n n s) k m e;
}

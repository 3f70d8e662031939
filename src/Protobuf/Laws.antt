-- ===== src/Protobuf/Laws.antt =====
-- What the program relies on of the ac_protobuf library: a field is found by its number, and a
-- message within the format's limits is decoded to itself.
use epoll_chat.Common.{
  ℕ, ◌<◌, ◌≤◌, ◌^◌, ◌≡◌, ◌∙◌, ◌≢◌, Bool, true, false, some, [], ◌∷◌, ◌++◌, Text, length, arith,
}
use epoll_chat.Protobuf.Read.{Value, varint, bytes, Field, Message, Protobuf, of_bool}

abbrev pub ValueFits : Value → Type 0
ValueFits (varint v) = v < 2 ^ 64
ValueFits (bytes s) = length s < 2 ^ 31

-- Every number fits in 64 bits, and every byte string in the format's length.
abbrev pub IsEncodable : Message → Type 0
IsEncodable [] = Unit {0}
IsEncodable (f ∷ m) = ValueFits f.value × IsEncodable m

pub of_bool_lt : (b : Bool) → of_bool b < 2 ^ 64
of_bool_lt true = omega arith
of_bool_lt false = omega arith

pub record ProtobufLaws (pb : Protobuf) : Type 0 where
  pub find_here : (f : Field) (m : Message) → pb.find_field (f ∷ m) f.id ≡ some f
  pub find_later :
      (f : Field) (m : Message) (i : ℕ) → f.id ≢ i → pb.find_field (f ∷ m) i ≡ pb.find_field m i
  pub decode-encode :
      (m : Message)
      → 0 < length m
      → IsEncodable m
      → pb.decode_msg (pb.encode_msg m) ≡ some (m, length (pb.encode_msg m))
  pub decode_n_fields-encode :
      (m : Message) (rest : Text)
      → IsEncodable m
      → pb.decode_n_fields (pb.encode_msg m ++ rest) (length m) ≡ some (m, length (pb.encode_msg m))
  pub decode_n_fields-reads :
      (s : Text) (n k : ℕ) (m : Message) → pb.decode_n_fields s n ≡ some (m, k) → k ≤ length s

abbrev pub field : ℕ → Value → Field
field i v = record { id = i; value = v }

module _ ⦃pb : Protobuf⦄ (laws : ProtobufLaws pb) where
  -- The fields of a message numbered from 1, each found by its number.
  pub find_1 : (v : Value) (m : Message) → pb.find_field (field 1 v ∷ m) 1 ≡ some (field 1 v)
  find_1 v m = laws.find_here (field 1 v) m

  pub find_2 :
      (u v : Value) (m : Message) → pb.find_field (field 1 u ∷ field 2 v ∷ m) 2 ≡ some (field 2 v)
  find_2 u v m =
      laws.find_later (field 1 u) (field 2 v ∷ m) 2 (omega arith) ∙ laws.find_here (field 2 v) m

  pub find_3 :
      (u v w : Value) (m : Message)
      → pb.find_field (field 1 u ∷ field 2 v ∷ field 3 w ∷ m) 3 ≡ some (field 3 w)
  find_3 u v w m =
      laws.find_later (field 1 u) (field 2 v ∷ field 3 w ∷ m) 3 (omega arith)
      ∙ (laws.find_later (field 2 v) (field 3 w ∷ m) 3 (omega arith) ∙ laws.find_here (field 3 w) m)

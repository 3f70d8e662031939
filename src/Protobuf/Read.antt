-- ===== src/Protobuf/Read.antt =====
-- Messages, the library's functions, and the field accesses of proto/*.pb.c.
use epoll_chat.Common.{ℕ, ◌%◌, ◌^◌, Bool, not, Option, none, some, List, Text, ◌==◌}

-- `value` of a field: a 64-bit number at wiretype 0, `len` bytes at wiretype 2.
pub data Value : Type 0 where
  varint : ℕ → Value
  bytes : Text → Value

-- `ac_protobuf_field_t`
pub record Field : Type 0 where
  pub id : ℕ
  pub value : Value

-- `ac_protobuf_message_t`: the chain of fields.
abbrev pub Message : Type 0
Message = List Field

-- The functions of the library. A decoder gives the message and the number of bytes read, or NULL.
pub record Protobuf : Type 0 where
  -- ac_find_protobuf_field_in_msg
  pub find_field : Message → ℕ → Option Field
  -- ac_encode_protobuf_msg
  pub encode_msg : Message → Text
  -- ac_decode_protobuf_msg
  pub decode_msg : Text → Option (Message × ℕ)
  -- ac_decode_protobuf_msg_with_n_fields
  pub decode_n_fields : Text → ℕ → Option (Message × ℕ)

-- In the parsers `none` is a fault: a NULL field or a value of the other wiretype is read.
infixl 5 ◌>>=◌
abbrev pub ◌>>=◌ {ℓ κ} : {A : Type ℓ} {B : Type κ} → Option A → (A → Option B) → Option B
none >>= f = none
some a >>= f = f a

-- memcpy of `f->len` bytes from `f->value`
abbrev pub value_bytes : Value → Option Text
value_bytes (varint v) = none
value_bytes (bytes s) = some s

-- *(uint32_t *)(f->value)
abbrev pub value_u32 : Value → Option ℕ
value_u32 (varint v) = some (v % 2 ^ 32)
value_u32 (bytes s) = none

-- *(bool *)(f->value), the low byte of the number
abbrev pub value_bool : Value → Option Bool
value_bool (varint v) = some (not (v % 2 ^ 8 == 0))
value_bool (bytes s) = none

-- (uint64_t) of a `bool`
abbrev pub of_bool : Bool → ℕ
of_bool b = elim b [ Bool.true ↦ 1 | Bool.false ↦ 0 ]

module _ ⦃pb : Protobuf⦄ where
  abbrev pub read_bytes : Message → ℕ → Option Text
  read_bytes m i = pb.find_field m i >>= λ f. value_bytes f.value

  abbrev pub read_u32 : Message → ℕ → Option ℕ
  read_u32 m i = pb.find_field m i >>= λ f. value_u32 f.value

  abbrev pub read_bool : Message → ℕ → Option Bool
  read_bool m i = pb.find_field m i >>= λ f. value_bool f.value

abbrev pub varint_field : ℕ → ℕ → Field
varint_field i v = record { id = i; value = varint v }

abbrev pub bytes_field : ℕ → Text → Field
bytes_field i s = record { id = i; value = bytes s }

-- The result of a decoder without the number of bytes read.
abbrev pub message_of : Option (Message × ℕ) → Option Message
message_of none = none
message_of (some (m, n)) = some m

-- A protobuf string read as a C string: up to its first zero byte.
unfoldable pub c_string : Text → Text
c_string List.[] = List.[]
c_string (List.◌∷◌ c s) = elim (c == 0) [
  | Bool.true ↦ List.[]
  | Bool.false ↦ List.◌∷◌ c (c_string s)
]

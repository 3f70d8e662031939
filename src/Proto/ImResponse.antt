-- ===== src/Proto/ImResponse.antt =====
-- proto/IMResponse.pb.h and proto/IMResponse.pb.c.
use epoll_chat.Common.{◌≡◌, some, Option, Text, [], ◌∷◌, arith, ◌<◌, ◌^◌, length, ℕ, Bool}
use epoll_chat.Protobuf.{
  Message, Protobuf, ProtobufLaws, IsEncodable, message_of, ◌>>=◌, read_u32, read_bytes,
  bytes_field, read_bool, of_bool, of_bool_lt, varint_field, find_1, find_2, find_3,
}

pub record ImResponse : Type 0 where
  pub type : ℕ
  pub success : Bool
  pub value : Text

-- encodeIMResponseToProtobufMsg
unfoldable pub to_msg : ImResponse → Message
to_msg r = varint_field 1 r.type ∷ varint_field 2 (of_bool r.success) ∷ bytes_field 3 r.value ∷ []

module _ ⦃pb : Protobuf⦄ where
  -- parseIMResponseFromProtobufMsg
  unfoldable pub of_msg : Message → Option ImResponse
  of_msg m = do
    type ← read_u32 m 1
    success ← read_bool m 2
    value ← read_bytes m 3
    some (record { type = type; success = success; value = value })

  -- encodeIMResponseToBytes
  unfoldable pub to_bytes : ImResponse → Text
  to_bytes r = pb.encode_msg (to_msg r)

  -- parseIMResponseFromBytes
  unfoldable pub of_bytes : Text → Option ImResponse
  of_bytes s = do m ← message_of (pb.decode_msg s); of_msg m

-- The numbers fit in their C types, and the strings in the wire format.
abbrev pub Fits : ImResponse → Type 0
Fits r = (r.type < 2 ^ 32) × (length r.value < 2 ^ 31)

to_msg-IsEncodable : (r : ImResponse) → Fits r → IsEncodable (to_msg r)
unfolding to_msg
to_msg-IsEncodable r h = omega (arith, of_bool_lt)

module _ ⦃pb : Protobuf⦄ (laws : ProtobufLaws pb) where
  pub of_msg-to_msg : (r : ImResponse) → Fits r → of_msg (to_msg r) ≡ some r
  unfolding of_msg to_msg
  of_msg-to_msg r h = simp (find_1 laws, find_2 laws, find_3 laws) (ground arith)

  -- What is encoded is decoded to itself.
  pub of_bytes-to_bytes : (r : ImResponse) → Fits r → of_bytes (to_bytes r) ≡ some r
  unfolding of_bytes to_bytes to_msg
  of_bytes-to_bytes r h =
      rw (laws.decode-encode (to_msg r) (omega arith) (to_msg-IsEncodable r h)) (of_msg-to_msg r h)

-- ===== src/Proto/ImRequest.antt =====
-- proto/IMRequest.pb.h and proto/IMRequest.pb.c.
use epoll_chat.Common.{◌≡◌, some, Option, Text, [], ◌∷◌, arith, ◌<◌, ◌^◌, length, ℕ}
use epoll_chat.Protobuf.{
  Message, Protobuf, ProtobufLaws, IsEncodable, message_of, ◌>>=◌, read_u32, read_bytes,
  bytes_field, varint_field, find_1, find_2,
}

pub record ImRequest : Type 0 where
  pub type : ℕ
  pub value : Text

-- encodeIMRequestToProtobufMsg
unfoldable pub to_msg : ImRequest → Message
to_msg r = varint_field 1 r.type ∷ bytes_field 2 r.value ∷ []

module _ ⦃pb : Protobuf⦄ where
  -- parseIMRequestFromProtobufMsg
  unfoldable pub of_msg : Message → Option ImRequest
  of_msg m = do
    type ← read_u32 m 1
    value ← read_bytes m 2
    some (record { type = type; value = value })

  -- encodeIMRequestToBytes
  unfoldable pub to_bytes : ImRequest → Text
  to_bytes r = pb.encode_msg (to_msg r)

  -- parseIMRequestFromBytes
  unfoldable pub of_bytes : Text → Option ImRequest
  of_bytes s = do m ← message_of (pb.decode_msg s); of_msg m

-- The numbers fit in their C types, and the strings in the wire format.
abbrev pub Fits : ImRequest → Type 0
Fits r = (r.type < 2 ^ 32) × (length r.value < 2 ^ 31)

pub to_msg-IsEncodable : (r : ImRequest) → Fits r → IsEncodable (to_msg r)
unfolding to_msg
to_msg-IsEncodable r h = omega arith

module _ ⦃pb : Protobuf⦄ (laws : ProtobufLaws pb) where
  pub of_msg-to_msg : (r : ImRequest) → Fits r → of_msg (to_msg r) ≡ some r
  unfolding of_msg to_msg
  of_msg-to_msg r h = simp (find_1 laws, find_2 laws) (ground arith)

  -- What is encoded is decoded to itself.
  pub of_bytes-to_bytes : (r : ImRequest) → Fits r → of_bytes (to_bytes r) ≡ some r
  unfolding of_bytes to_bytes to_msg
  of_bytes-to_bytes r h =
      rw (laws.decode-encode (to_msg r) (omega arith) (to_msg-IsEncodable r h)) (of_msg-to_msg r h)

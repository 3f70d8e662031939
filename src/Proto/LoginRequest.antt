-- ===== src/Proto/LoginRequest.antt =====
-- proto/LoginRequest.pb.h and proto/LoginRequest.pb.c.
use epoll_chat.Common.{◌≡◌, some, Option, Text, [], ◌∷◌, arith, ◌<◌, ◌^◌, length, ℕ}
use epoll_chat.Protobuf.{
  Message, Protobuf, ProtobufLaws, IsEncodable, message_of, ◌>>=◌, read_u32, read_bytes,
  bytes_field, varint_field, find_1, find_2, find_3,
}

pub record LoginRequest : Type 0 where
  pub username : Text
  pub password : Text
  pub port : ℕ

-- encodeLoginRequestToProtobufMsg
unfoldable pub to_msg : LoginRequest → Message
to_msg r = bytes_field 1 r.username ∷ bytes_field 2 r.password ∷ varint_field 3 r.port ∷ []

module _ ⦃pb : Protobuf⦄ where
  -- parseLoginRequestFromProtobufMsg
  unfoldable pub of_msg : Message → Option LoginRequest
  of_msg m = do
    username ← read_bytes m 1
    password ← read_bytes m 2
    port ← read_u32 m 3
    some (record { username = username; password = password; port = port })

  -- encodeLoginRequestToBytes
  unfoldable pub to_bytes : LoginRequest → Text
  to_bytes r = pb.encode_msg (to_msg r)

  -- parseLoginRequestFromBytes
  unfoldable pub of_bytes : Text → Option LoginRequest
  of_bytes s = do m ← message_of (pb.decode_msg s); of_msg m

-- The numbers fit in their C types, and the strings in the wire format.
abbrev pub Fits : LoginRequest → Type 0
Fits r = (length r.username < 2 ^ 31) × (length r.password < 2 ^ 31) × (r.port < 2 ^ 32)

to_msg-IsEncodable : (r : LoginRequest) → Fits r → IsEncodable (to_msg r)
unfolding to_msg
to_msg-IsEncodable r h = omega arith

module _ ⦃pb : Protobuf⦄ (laws : ProtobufLaws pb) where
  pub of_msg-to_msg : (r : LoginRequest) → Fits r → of_msg (to_msg r) ≡ some r
  unfolding of_msg to_msg
  of_msg-to_msg r h = simp (find_1 laws, find_2 laws, find_3 laws) (ground arith)

  -- What is encoded is decoded to itself.
  pub of_bytes-to_bytes : (r : LoginRequest) → Fits r → of_bytes (to_bytes r) ≡ some r
  unfolding of_bytes to_bytes to_msg
  of_bytes-to_bytes r h =
      rw (laws.decode-encode (to_msg r) (omega arith) (to_msg-IsEncodable r h)) (of_msg-to_msg r h)

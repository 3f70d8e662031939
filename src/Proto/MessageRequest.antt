-- ===== src/Proto/MessageRequest.antt =====
-- proto/MessageRequest.pb.h and proto/MessageRequest.pb.c.
use epoll_chat.Common.{◌≡◌, some, Option, Text, [], ◌∷◌, arith, ◌<◌, ◌^◌, length, Bool}
use epoll_chat.Protobuf.{
  Message, Protobuf, ProtobufLaws, IsEncodable, message_of, ◌>>=◌, read_bytes, bytes_field,
  read_bool, of_bool, of_bool_lt, varint_field, find_1, find_2, find_3,
}

pub record MessageRequest : Type 0 where
  pub broadcast : Bool
  pub username : Text
  pub msg : Text

-- encodeMessageRequestToProtobufMsg
unfoldable pub to_msg : MessageRequest → Message
to_msg r =
    varint_field 1 (of_bool r.broadcast) ∷ bytes_field 2 r.username ∷ bytes_field 3 r.msg ∷ []

module _ ⦃pb : Protobuf⦄ where
  -- parseMessageRequestFromProtobufMsg
  unfoldable pub of_msg : Message → Option MessageRequest
  of_msg m = do
    broadcast ← read_bool m 1
    username ← read_bytes m 2
    msg ← read_bytes m 3
    some (record { broadcast = broadcast; username = username; msg = msg })

  -- encodeMessageRequestToBytes
  unfoldable pub to_bytes : MessageRequest → Text
  to_bytes r = pb.encode_msg (to_msg r)

  -- parseMessageRequestFromBytes
  unfoldable pub of_bytes : Text → Option MessageRequest
  of_bytes s = do m ← message_of (pb.decode_msg s); of_msg m

-- The numbers fit in their C types, and the strings in the wire format.
abbrev pub Fits : MessageRequest → Type 0
Fits r = (length r.username < 2 ^ 31) × (length r.msg < 2 ^ 31)

to_msg-IsEncodable : (r : MessageRequest) → Fits r → IsEncodable (to_msg r)
unfolding to_msg
to_msg-IsEncodable r h = omega (arith, of_bool_lt)

module _ ⦃pb : Protobuf⦄ (laws : ProtobufLaws pb) where
  pub of_msg-to_msg : (r : MessageRequest) → Fits r → of_msg (to_msg r) ≡ some r
  unfolding of_msg to_msg
  of_msg-to_msg r h = simp (find_1 laws, find_2 laws, find_3 laws) (ground arith)

  -- What is encoded is decoded to itself.
  pub of_bytes-to_bytes : (r : MessageRequest) → Fits r → of_bytes (to_bytes r) ≡ some r
  unfolding of_bytes to_bytes to_msg
  of_bytes-to_bytes r h =
      rw (laws.decode-encode (to_msg r) (omega arith) (to_msg-IsEncodable r h)) (of_msg-to_msg r h)

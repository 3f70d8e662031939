-- ===== src/Proto/GetIpRequest.antt =====
-- proto/GetIPRequest.pb.h and proto/GetIPRequest.pb.c.
use epoll_chat.Common.{◌≡◌, some, Option, Text, [], ◌∷◌, arith, ◌<◌, ◌^◌, length}
use epoll_chat.Protobuf.{
  Message, Protobuf, ProtobufLaws, IsEncodable, message_of, ◌>>=◌, read_bytes, bytes_field, find_1,
}

pub record GetIpRequest : Type 0 where
  pub username : Text

-- encodeGetIPRequestToProtobufMsg
unfoldable pub to_msg : GetIpRequest → Message
to_msg r = bytes_field 1 r.username ∷ []

module _ ⦃pb : Protobuf⦄ where
  -- parseGetIPRequestFromProtobufMsg
  unfoldable pub of_msg : Message → Option GetIpRequest
  of_msg m = do username ← read_bytes m 1; some (record { username = username })

  -- encodeGetIPRequestToBytes
  unfoldable pub to_bytes : GetIpRequest → Text
  to_bytes r = pb.encode_msg (to_msg r)

  -- parseGetIPRequestFromBytes
  unfoldable pub of_bytes : Text → Option GetIpRequest
  of_bytes s = do m ← message_of (pb.decode_msg s); of_msg m

-- The numbers fit in their C types, and the strings in the wire format.
abbrev pub Fits : GetIpRequest → Type 0
Fits r = (length r.username < 2 ^ 31)

to_msg-IsEncodable : (r : GetIpRequest) → Fits r → IsEncodable (to_msg r)
unfolding to_msg
to_msg-IsEncodable r h = omega arith

module _ ⦃pb : Protobuf⦄ (laws : ProtobufLaws pb) where
  pub of_msg-to_msg : (r : GetIpRequest) → Fits r → of_msg (to_msg r) ≡ some r
  unfolding of_msg to_msg
  of_msg-to_msg r h = simp (find_1 laws)

  -- What is encoded is decoded to itself.
  pub of_bytes-to_bytes : (r : GetIpRequest) → Fits r → of_bytes (to_bytes r) ≡ some r
  unfolding of_bytes to_bytes to_msg
  of_bytes-to_bytes r h =
      rw (laws.decode-encode (to_msg r) (omega arith) (to_msg-IsEncodable r h)) (of_msg-to_msg r h)

-- ===== src/Proto/GetIpResponse.antt =====
-- proto/GetIPResponse.pb.h and proto/GetIPResponse.pb.c.
use epoll_chat.Common.{◌≡◌, some, Option, Text, [], ◌∷◌, arith, ◌<◌, ◌^◌, length}
use epoll_chat.Protobuf.{
  Message, Protobuf, ProtobufLaws, IsEncodable, message_of, ◌>>=◌, read_bytes, bytes_field, find_1,
  find_2,
}

pub record GetIpResponse : Type 0 where
  pub username : Text
  pub addr : Text

-- encodeGetIPResponseToProtobufMsg
unfoldable pub to_msg : GetIpResponse → Message
to_msg r = bytes_field 1 r.username ∷ bytes_field 2 r.addr ∷ []

module _ ⦃pb : Protobuf⦄ where
  -- parseGetIPResponseFromProtobufMsg
  unfoldable pub of_msg : Message → Option GetIpResponse
  of_msg m = do
    username ← read_bytes m 1
    addr ← read_bytes m 2
    some (record { username = username; addr = addr })

  -- encodeGetIPResponseToBytes
  unfoldable pub to_bytes : GetIpResponse → Text
  to_bytes r = pb.encode_msg (to_msg r)

  -- parseGetIPResponseFromBytes
  unfoldable pub of_bytes : Text → Option GetIpResponse
  of_bytes s = do m ← message_of (pb.decode_msg s); of_msg m

-- The numbers fit in their C types, and the strings in the wire format.
abbrev pub Fits : GetIpResponse → Type 0
Fits r = (length r.username < 2 ^ 31) × (length r.addr < 2 ^ 31)

to_msg-IsEncodable : (r : GetIpResponse) → Fits r → IsEncodable (to_msg r)
unfolding to_msg
to_msg-IsEncodable r h = omega arith

module _ ⦃pb : Protobuf⦄ (laws : ProtobufLaws pb) where
  pub of_msg-to_msg : (r : GetIpResponse) → Fits r → of_msg (to_msg r) ≡ some r
  unfolding of_msg to_msg
  of_msg-to_msg r h = simp (find_1 laws, find_2 laws)

  -- What is encoded is decoded to itself.
  pub of_bytes-to_bytes : (r : GetIpResponse) → Fits r → of_bytes (to_bytes r) ≡ some r
  unfolding of_bytes to_bytes to_msg
  of_bytes-to_bytes r h =
      rw (laws.decode-encode (to_msg r) (omega arith) (to_msg-IsEncodable r h)) (of_msg-to_msg r h)

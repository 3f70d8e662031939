-- ===== src/Proto/TextResponse.antt =====
-- proto/TextResponse.pb.h and proto/TextResponse.pb.c.
use epoll_chat.Common.{◌≡◌, some, Option, Text, [], ◌∷◌, arith, ◌<◌, ◌^◌, length}
use epoll_chat.Protobuf.{
  Message, Protobuf, ProtobufLaws, IsEncodable, message_of, ◌>>=◌, read_bytes, bytes_field, find_1,
}

pub record TextResponse : Type 0 where
  pub msg : Text

-- encodeTextResponseToProtobufMsg
unfoldable pub to_msg : TextResponse → Message
to_msg r = bytes_field 1 r.msg ∷ []

module _ ⦃pb : Protobuf⦄ where
  -- parseTextResponseFromProtobufMsg
  unfoldable pub of_msg : Message → Option TextResponse
  of_msg m = do msg ← read_bytes m 1; some (record { msg = msg })

  -- encodeTextResponseToBytes
  unfoldable pub to_bytes : TextResponse → Text
  to_bytes r = pb.encode_msg (to_msg r)

  -- parseTextResponseFromBytes
  unfoldable pub of_bytes : Text → Option TextResponse
  of_bytes s = do m ← message_of (pb.decode_msg s); of_msg m

-- The numbers fit in their C types, and the strings in the wire format.
abbrev pub Fits : TextResponse → Type 0
Fits r = (length r.msg < 2 ^ 31)

to_msg-IsEncodable : (r : TextResponse) → Fits r → IsEncodable (to_msg r)
unfolding to_msg
to_msg-IsEncodable r h = omega arith

module _ ⦃pb : Protobuf⦄ (laws : ProtobufLaws pb) where
  pub of_msg-to_msg : (r : TextResponse) → Fits r → of_msg (to_msg r) ≡ some r
  unfolding of_msg to_msg
  of_msg-to_msg r h = simp (find_1 laws)

  -- What is encoded is decoded to itself.
  pub of_bytes-to_bytes : (r : TextResponse) → Fits r → of_bytes (to_bytes r) ≡ some r
  unfolding of_bytes to_bytes to_msg
  of_bytes-to_bytes r h =
      rw (laws.decode-encode (to_msg r) (omega arith) (to_msg-IsEncodable r h)) (of_msg-to_msg r h)

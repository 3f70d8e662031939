-- ===== src/Proto/RegisterChunkRequest.antt =====
-- proto/RegisterChunkRequest.pb.h and proto/RegisterChunkRequest.pb.c.
use epoll_chat.Common.{◌≡◌, some, Option, Text, [], ◌∷◌, arith, ◌<◌, ◌^◌, length}
use epoll_chat.Protobuf.{
  Message, Protobuf, ProtobufLaws, IsEncodable, message_of, ◌>>=◌, read_bytes, bytes_field, find_1,
  find_2,
}

pub record RegisterChunkRequest : Type 0 where
  pub filename : Text
  pub chunks : Text

-- encodeRegisterChunkRequestToProtobufMsg
unfoldable pub to_msg : RegisterChunkRequest → Message
to_msg r = bytes_field 1 r.filename ∷ bytes_field 2 r.chunks ∷ []

module _ ⦃pb : Protobuf⦄ where
  -- parseRegisterChunkRequestFromProtobufMsg
  unfoldable pub of_msg : Message → Option RegisterChunkRequest
  of_msg m = do
    filename ← read_bytes m 1
    chunks ← read_bytes m 2
    some (record { filename = filename; chunks = chunks })

  -- encodeRegisterChunkRequestToBytes
  unfoldable pub to_bytes : RegisterChunkRequest → Text
  to_bytes r = pb.encode_msg (to_msg r)

  -- parseRegisterChunkRequestFromBytes
  unfoldable pub of_bytes : Text → Option RegisterChunkRequest
  of_bytes s = do m ← message_of (pb.decode_msg s); of_msg m

-- The numbers fit in their C types, and the strings in the wire format.
abbrev pub Fits : RegisterChunkRequest → Type 0
Fits r = (length r.filename < 2 ^ 31) × (length r.chunks < 2 ^ 31)

to_msg-IsEncodable : (r : RegisterChunkRequest) → Fits r → IsEncodable (to_msg r)
unfolding to_msg
to_msg-IsEncodable r h = omega arith

module _ ⦃pb : Protobuf⦄ (laws : ProtobufLaws pb) where
  pub of_msg-to_msg : (r : RegisterChunkRequest) → Fits r → of_msg (to_msg r) ≡ some r
  unfolding of_msg to_msg
  of_msg-to_msg r h = simp (find_1 laws, find_2 laws)

  -- What is encoded is decoded to itself.
  pub of_bytes-to_bytes : (r : RegisterChunkRequest) → Fits r → of_bytes (to_bytes r) ≡ some r
  unfolding of_bytes to_bytes to_msg
  of_bytes-to_bytes r h =
      rw (laws.decode-encode (to_msg r) (omega arith) (to_msg-IsEncodable r h)) (of_msg-to_msg r h)

-- ===== src/Proto/RegisterFileRequest.antt =====
-- proto/RegisterFileRequest.pb.h and proto/RegisterFileRequest.pb.c.
use epoll_chat.Common.{◌≡◌, some, Option, Text, [], ◌∷◌, arith, ◌<◌, ◌^◌, length, ℕ}
use epoll_chat.Protobuf.{
  Message, Protobuf, ProtobufLaws, IsEncodable, message_of, ◌>>=◌, read_u32, read_bytes,
  bytes_field, varint_field, find_1, find_2,
}

pub record RegisterFileRequest : Type 0 where
  pub filename : Text
  pub chunks : ℕ

-- encodeRegisterFileRequestToProtobufMsg
unfoldable pub to_msg : RegisterFileRequest → Message
to_msg r = bytes_field 1 r.filename ∷ varint_field 2 r.chunks ∷ []

module _ ⦃pb : Protobuf⦄ where
  -- parseRegisterFileRequestFromProtobufMsg
  unfoldable pub of_msg : Message → Option RegisterFileRequest
  of_msg m = do
    filename ← read_bytes m 1
    chunks ← read_u32 m 2
    some (record { filename = filename; chunks = chunks })

  -- encodeRegisterFileRequestToBytes
  unfoldable pub to_bytes : RegisterFileRequest → Text
  to_bytes r = pb.encode_msg (to_msg r)

  -- parseRegisterFileRequestFromBytes
  unfoldable pub of_bytes : Text → Option RegisterFileRequest
  of_bytes s = do m ← message_of (pb.decode_msg s); of_msg m

-- The numbers fit in their C types, and the strings in the wire format.
abbrev pub Fits : RegisterFileRequest → Type 0
Fits r = (length r.filename < 2 ^ 31) × (r.chunks < 2 ^ 32)

to_msg-IsEncodable : (r : RegisterFileRequest) → Fits r → IsEncodable (to_msg r)
unfolding to_msg
to_msg-IsEncodable r h = omega arith

module _ ⦃pb : Protobuf⦄ (laws : ProtobufLaws pb) where
  pub of_msg-to_msg : (r : RegisterFileRequest) → Fits r → of_msg (to_msg r) ≡ some r
  unfolding of_msg to_msg
  of_msg-to_msg r h = simp (find_1 laws, find_2 laws) (ground arith)

  -- What is encoded is decoded to itself.
  pub of_bytes-to_bytes : (r : RegisterFileRequest) → Fits r → of_bytes (to_bytes r) ≡ some r
  unfolding of_bytes to_bytes to_msg
  of_bytes-to_bytes r h =
      rw (laws.decode-encode (to_msg r) (omega arith) (to_msg-IsEncodable r h)) (of_msg-to_msg r h)

-- ===== src/Proto/SearchFileRequest.antt =====
-- proto/SearchFileRequest.pb.h and proto/SearchFileRequest.pb.c.
use epoll_chat.Common.{◌≡◌, some, Option, Text, [], ◌∷◌, arith, ◌<◌, ◌^◌, length}
use epoll_chat.Protobuf.{
  Message, Protobuf, ProtobufLaws, IsEncodable, message_of, ◌>>=◌, read_bytes, bytes_field, find_1,
  find_2,
}

pub record SearchFileRequest : Type 0 where
  pub filename : Text
  pub chunks : Text

-- encodeSearchFileRequestToProtobufMsg
unfoldable pub to_msg : SearchFileRequest → Message
to_msg r = bytes_field 1 r.filename ∷ bytes_field 2 r.chunks ∷ []

module _ ⦃pb : Protobuf⦄ where
  -- parseSearchFileRequestFromProtobufMsg
  unfoldable pub of_msg : Message → Option SearchFileRequest
  of_msg m = do
    filename ← read_bytes m 1
    chunks ← read_bytes m 2
    some (record { filename = filename; chunks = chunks })

  -- encodeSearchFileRequestToBytes
  unfoldable pub to_bytes : SearchFileRequest → Text
  to_bytes r = pb.encode_msg (to_msg r)

  -- parseSearchFileRequestFromBytes
  unfoldable pub of_bytes : Text → Option SearchFileRequest
  of_bytes s = do m ← message_of (pb.decode_msg s); of_msg m

-- The numbers fit in their C types, and the strings in the wire format.
abbrev pub Fits : SearchFileRequest → Type 0
Fits r = (length r.filename < 2 ^ 31) × (length r.chunks < 2 ^ 31)

to_msg-IsEncodable : (r : SearchFileRequest) → Fits r → IsEncodable (to_msg r)
unfolding to_msg
to_msg-IsEncodable r h = omega arith

module _ ⦃pb : Protobuf⦄ (laws : ProtobufLaws pb) where
  pub of_msg-to_msg : (r : SearchFileRequest) → Fits r → of_msg (to_msg r) ≡ some r
  unfolding of_msg to_msg
  of_msg-to_msg r h = simp (find_1 laws, find_2 laws)

  -- What is encoded is decoded to itself.
  pub of_bytes-to_bytes : (r : SearchFileRequest) → Fits r → of_bytes (to_bytes r) ≡ some r
  unfolding of_bytes to_bytes to_msg
  of_bytes-to_bytes r h =
      rw (laws.decode-encode (to_msg r) (omega arith) (to_msg-IsEncodable r h)) (of_msg-to_msg r h)

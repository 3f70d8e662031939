-- ===== src/Proto/ChunkDataResponse.antt =====
-- proto/ChunkDataResponse.pb.h and proto/ChunkDataResponse.pb.c.
use epoll_chat.Common.{◌≡◌, some, Option, Text, [], ◌∷◌, arith, ◌<◌, ◌^◌, length, ℕ}
use epoll_chat.Protobuf.{
  Message, Protobuf, ProtobufLaws, IsEncodable, message_of, ◌>>=◌, read_u32, read_bytes,
  bytes_field, varint_field, find_1, find_2, find_3,
}

pub record ChunkDataResponse : Type 0 where
  pub filename : Text
  pub chunk : ℕ
  pub payload : Text

-- encodeChunkDataResponseToProtobufMsg
unfoldable pub to_msg : ChunkDataResponse → Message
to_msg r = bytes_field 1 r.filename ∷ varint_field 2 r.chunk ∷ bytes_field 3 r.payload ∷ []

module _ ⦃pb : Protobuf⦄ where
  -- parseChunkDataResponseFromProtobufMsg
  unfoldable pub of_msg : Message → Option ChunkDataResponse
  of_msg m = do
    filename ← read_bytes m 1
    chunk ← read_u32 m 2
    payload ← read_bytes m 3
    some (record { filename = filename; chunk = chunk; payload = payload })

  -- encodeChunkDataResponseToBytes
  unfoldable pub to_bytes : ChunkDataResponse → Text
  to_bytes r = pb.encode_msg (to_msg r)

  -- parseChunkDataResponseFromBytes
  unfoldable pub of_bytes : Text → Option ChunkDataResponse
  of_bytes s = do m ← message_of (pb.decode_msg s); of_msg m

-- The numbers fit in their C types, and the strings in the wire format.
abbrev pub Fits : ChunkDataResponse → Type 0
Fits r = (length r.filename < 2 ^ 31) × (r.chunk < 2 ^ 32) × (length r.payload < 2 ^ 31)

to_msg-IsEncodable : (r : ChunkDataResponse) → Fits r → IsEncodable (to_msg r)
unfolding to_msg
to_msg-IsEncodable r h = omega arith

module _ ⦃pb : Protobuf⦄ (laws : ProtobufLaws pb) where
  pub of_msg-to_msg : (r : ChunkDataResponse) → Fits r → of_msg (to_msg r) ≡ some r
  unfolding of_msg to_msg
  of_msg-to_msg r h = simp (find_1 laws, find_2 laws, find_3 laws) (ground arith)

  -- What is encoded is decoded to itself.
  pub of_bytes-to_bytes : (r : ChunkDataResponse) → Fits r → of_bytes (to_bytes r) ≡ some r
  unfolding of_bytes to_bytes to_msg
  of_bytes-to_bytes r h =
      rw (laws.decode-encode (to_msg r) (omega arith) (to_msg-IsEncodable r h)) (of_msg-to_msg r h)

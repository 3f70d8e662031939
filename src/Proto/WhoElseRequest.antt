-- ===== src/Proto/WhoElseRequest.antt =====
-- proto/WhoElseRequest.pb.h and proto/WhoElseRequest.pb.c.
use epoll_chat.Common.{◌≡◌, some, Option, Text, [], ◌∷◌, arith, ◌<◌, ◌^◌, ℕ, Bool}
use epoll_chat.Protobuf.{
  Message, Protobuf, ProtobufLaws, IsEncodable, message_of, ◌>>=◌, read_u32, read_bool, of_bool,
  of_bool_lt, varint_field, find_1, find_2, find_3,
}

pub record WhoElseRequest : Type 0 where
  pub limit_time : Bool
  pub past_seconds : ℕ
  pub currently_online : Bool

-- encodeWhoElseRequestToProtobufMsg
unfoldable pub to_msg : WhoElseRequest → Message
to_msg r =
    varint_field 1 (of_bool r.limit_time)
    ∷ varint_field 2 r.past_seconds
    ∷ varint_field 3 (of_bool r.currently_online)
    ∷ []

module _ ⦃pb : Protobuf⦄ where
  -- parseWhoElseRequestFromProtobufMsg
  unfoldable pub of_msg : Message → Option WhoElseRequest
  of_msg m = do
    limit_time ← read_bool m 1
    past_seconds ← read_u32 m 2
    currently_online ← read_bool m 3
    some (record {
      limit_time = limit_time;
      past_seconds = past_seconds;
      currently_online = currently_online;
    })

  -- encodeWhoElseRequestToBytes
  unfoldable pub to_bytes : WhoElseRequest → Text
  to_bytes r = pb.encode_msg (to_msg r)

  -- parseWhoElseRequestFromBytes
  unfoldable pub of_bytes : Text → Option WhoElseRequest
  of_bytes s = do m ← message_of (pb.decode_msg s); of_msg m

-- The numbers fit in their C types, and the strings in the wire format.
abbrev pub Fits : WhoElseRequest → Type 0
Fits r = (r.past_seconds < 2 ^ 32)

to_msg-IsEncodable : (r : WhoElseRequest) → Fits r → IsEncodable (to_msg r)
unfolding to_msg
to_msg-IsEncodable r h = omega (arith, of_bool_lt)

module _ ⦃pb : Protobuf⦄ (laws : ProtobufLaws pb) where
  pub of_msg-to_msg : (r : WhoElseRequest) → Fits r → of_msg (to_msg r) ≡ some r
  unfolding of_msg to_msg
  of_msg-to_msg r h = simp (find_1 laws, find_2 laws, find_3 laws) (ground arith)

  -- What is encoded is decoded to itself.
  pub of_bytes-to_bytes : (r : WhoElseRequest) → Fits r → of_bytes (to_bytes r) ≡ some r
  unfolding of_bytes to_bytes to_msg
  of_bytes-to_bytes r h =
      rw (laws.decode-encode (to_msg r) (omega arith) (to_msg-IsEncodable r h)) (of_msg-to_msg r h)

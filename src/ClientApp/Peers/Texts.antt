-- ===== src/ClientApp/Peers/Texts.antt =====
-- A response in its envelope, as the client's parse_response handles it, and the messages shown.
use epoll_chat.Common.{ℕ, ◌<◌, ◌^◌, ◌≡◌, refl, ◌∙◌, Bool, ◌++◌, Text, some, codes, length, arith}
use epoll_chat.Protobuf.{Protobuf, ProtobufLaws, Message, of_bool_lt, ◌>>=◌, c_string}
use epoll_chat.Proto.ImResponse
use epoll_chat.Proto.ImResponse.{ImResponse}
use epoll_chat.Proto.TextResponse
use epoll_chat.Delivery.{encode_text}
use epoll_chat.ClientApp.{App, Os, prints}
use epoll_chat.ClientApp.Peers.{parse_response, handle_response}

module _ ⦃os : Os⦄ ⦃pb : Protobuf⦄ where
  parse_response_lem :
      (a : App) (c : ℕ) (bytes : Text) (m : Message) (n : ℕ) (rsp : ImResponse)
      → pb.decode_n_fields bytes 3 ≡ some (m, n)
      → ImResponse.of_msg m ≡ some rsp
      → parse_response a c bytes
        ≡ (handle_response (record a { last_response = rsp.success }) c rsp >>= λ a'. some (a', n))
  unfolding parse_response
  parse_response_lem a c bytes m n rsp e k = rw (e, parse_response, k) refl

  -- A text response that is handled.
  handle_text :
      (a : App) (c : ℕ) (txt : Text) (success : Bool)
      → TextResponse.of_bytes (TextResponse.to_bytes (record { msg = txt }))
        ≡ some (record { msg = txt })
      → handle_response a c (encode_text txt success) ≡ some (prints a (c_string txt ++ codes "\n"))
  unfolding handle_response encode_text
  handle_text a c txt success e = rw e refl

module _ ⦃os : Os⦄ ⦃pb : Protobuf⦄ (laws : ProtobufLaws pb) where
  -- The client handles the response that was put in an envelope, and parses exactly its bytes.
  pub parse_response-envelope :
      (a : App) (c : ℕ) (rsp : ImResponse) (rest : Text)
      → ImResponse.Fits rsp
      → parse_response a c (ImResponse.to_bytes rsp ++ rest) ≡ (
          handle_response (record a { last_response = rsp.success }) c rsp >>= λ a'.
          some (a', length (ImResponse.to_bytes rsp)))
  unfolding ImResponse.to_bytes ImResponse.to_msg
  parse_response-envelope a c rsp rest h =
      parse_response_lem a c _ (ImResponse.to_msg rsp) _ rsp
        (laws.decode_n_fields-encode (ImResponse.to_msg rsp) rest
          (omega (arith, of_bool_lt, h.0, h.1)))
        (ImResponse.of_msg-to_msg laws rsp h)

  encode_text-Fits :
      (txt : Text) (success : Bool)
      → length (TextResponse.to_bytes (record { msg = txt })) < 2 ^ 31
      → ImResponse.Fits (encode_text txt success)
  unfolding encode_text
  encode_text-Fits txt success h = omega arith

  -- A text response is printed by the client that receives it, up to its first zero byte, on a line,
  -- and its success is kept for the login prompt; exactly its bytes are parsed. The codec is one
  -- that keeps the laws, and the text fits in the wire format.
  pub parse_response-text :
      (a : App) (c : ℕ) (txt : Text) (success : Bool) (rest : Text)
      → length txt < 2 ^ 31
      → length (TextResponse.to_bytes (record { msg = txt })) < 2 ^ 31
      → parse_response a c (ImResponse.to_bytes (encode_text txt success) ++ rest)
        ≡ some (
          prints (record a { last_response = success }) (c_string txt ++ codes "\n"),
          length (ImResponse.to_bytes (encode_text txt success)),
        )
  unfolding encode_text
  parse_response-text a c txt success rest h k =
      parse_response-envelope a c (encode_text txt success) rest (encode_text-Fits txt success k)
      ∙ rw
          (handle_text (record a { last_response = success }) c txt success
            (TextResponse.of_bytes-to_bytes laws (record { msg = txt }) h))
          refl

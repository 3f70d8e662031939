-- ===== src/Server/Requests.antt =====
-- Requests as the client's commands encode them, and the handlers of their types.
use epoll_chat.Common.{ℕ, ◌<◌, ◌^◌, ◌≡◌, refl, ◌∙◌, ◌++◌, Text, some, arith, length}
use epoll_chat.Protobuf.{Message, Protobuf, ProtobufLaws, ◌>>=◌}
use epoll_chat.Proto.ImRequest.{ImRequest}
use epoll_chat.Proto.ImRequest
use epoll_chat.Proto.LoginRequest
use epoll_chat.Proto.MessageRequest
use epoll_chat.Proto.BlockRequest
use epoll_chat.Proto.UnBlockRequest
use epoll_chat.Proto.LogOutRequest
use epoll_chat.Proto.WhoElseRequest
use epoll_chat.Proto.GetIpRequest
use epoll_chat.Proto.RegisterFileRequest
use epoll_chat.Proto.RegisterChunkRequest
use epoll_chat.Proto.SearchFileRequest
use epoll_chat.World.{World}
use epoll_chat.Server.Dispatch.{
  Command, Request, enabled_commands, find_command, parser, run, touch, execute, parse_command,
  command_type,
}

-- The command that a request is for.
abbrev pub command_of : Request → Command
command_of (Request.login r) = Command.login
command_of (Request.message r) = Command.message
command_of (Request.block r) = Command.block
command_of (Request.unblock r) = Command.unblock
command_of (Request.logout r) = Command.logout
command_of (Request.whoelse r) = Command.whoelse
command_of (Request.getip r) = Command.getip
command_of (Request.regfile r) = Command.regfile
command_of (Request.regchunk r) = Command.regchunk
command_of (Request.searchfile r) = Command.searchfile

-- Its numbers and strings fit in the wire format.
abbrev pub RequestFits : Request → Type 0
RequestFits (Request.login r) = LoginRequest.Fits r
RequestFits (Request.message r) = MessageRequest.Fits r
RequestFits (Request.block r) = BlockRequest.Fits r
RequestFits (Request.unblock r) = UnBlockRequest.Fits r
RequestFits (Request.logout r) = Unit {0}
RequestFits (Request.whoelse r) = WhoElseRequest.Fits r
RequestFits (Request.getip r) = GetIpRequest.Fits r
RequestFits (Request.regfile r) = RegisterFileRequest.Fits r
RequestFits (Request.regchunk r) = RegisterChunkRequest.Fits r
RequestFits (Request.searchfile r) = SearchFileRequest.Fits r

module _ ⦃pb : Protobuf⦄ where
  -- encode…ToBytes of the request
  unfoldable pub payload : Request → Text
  payload (Request.login r) = LoginRequest.to_bytes r
  payload (Request.message r) = MessageRequest.to_bytes r
  payload (Request.block r) = BlockRequest.to_bytes r
  payload (Request.unblock r) = UnBlockRequest.to_bytes r
  payload (Request.logout r) = pb.encode_msg (LogOutRequest.to_msg r)
  payload (Request.whoelse r) = WhoElseRequest.to_bytes r
  payload (Request.getip r) = GetIpRequest.to_bytes r
  payload (Request.regfile r) = RegisterFileRequest.to_bytes r
  payload (Request.regchunk r) = RegisterChunkRequest.to_bytes r
  payload (Request.searchfile r) = SearchFileRequest.to_bytes r

  -- The IMRequest that carries it, and its bytes.
  abbrev pub envelope : Request → ImRequest
  envelope r = record { type = command_type (command_of r); value = payload r }

  find_command-type : (k : Command) → find_command (command_type k) enabled_commands ≡ some k
  unfolding find_command
  find_command-type Command.login = refl
  find_command-type _ = refl

  -- The steps of parse_command, each given what the one before it returns.
  parse_command_lem :
      (w : World) (c : ℕ) (bytes : Text) (m : Message) (n : ℕ) (req : ImRequest)
      → pb.decode_n_fields bytes 2 ≡ some (m, n)
      → ImRequest.of_msg m ≡ some req
      → parse_command w c bytes ≡ (execute w c req >>= λ r. some (r.0, n, r.1))
  unfolding parse_command
  parse_command_lem w c bytes m n req e k = rw (e, parse_command, k)

  execute_lem :
      (w : World) (c : ℕ) (req : ImRequest) (k : Command) (r : Request)
      → find_command req.type enabled_commands ≡ some k
      → parser k req.value ≡ some r
      → execute w c req ≡ some (touch (run w c r).0 c, (run w c r).1)
  unfolding execute
  execute_lem w c req k r e p = rw (e, execute, p)

command_type_lt : (k : Command) → command_type k < 2 ^ 32
command_type_lt Command.login = omega arith
command_type_lt Command.message = omega arith
command_type_lt Command.block = omega arith
command_type_lt Command.unblock = omega arith
command_type_lt Command.logout = omega arith
command_type_lt Command.whoelse = omega arith
command_type_lt Command.getip = omega arith
command_type_lt Command.regfile = omega arith
command_type_lt Command.regchunk = omega arith
command_type_lt Command.searchfile = omega arith

module _ ⦃pb : Protobuf⦄ (laws : ProtobufLaws pb) where
  decode_two :
      (r : ImRequest) (rest : Text)
      → ImRequest.Fits r
      → pb.decode_n_fields (ImRequest.to_bytes r ++ rest) 2
        ≡ some (ImRequest.to_msg r, length (ImRequest.to_bytes r))
  unfolding ImRequest.to_bytes ImRequest.to_msg
  decode_two r rest h =
      laws.decode_n_fields-encode (ImRequest.to_msg r) rest (ImRequest.to_msg-IsEncodable r h)

  parser-payload : (r : Request) → RequestFits r → parser (command_of r) (payload r) ≡ some r
  unfolding parser payload LogOutRequest.of_msg
  parser-payload (Request.login r) h = rw (LoginRequest.of_bytes-to_bytes laws r h)
  parser-payload (Request.message r) h = rw (MessageRequest.of_bytes-to_bytes laws r h)
  parser-payload (Request.block r) h = rw (BlockRequest.of_bytes-to_bytes laws r h)
  parser-payload (Request.unblock r) h = rw (UnBlockRequest.of_bytes-to_bytes laws r h)
  parser-payload (Request.logout r) h = refl
  parser-payload (Request.whoelse r) h = rw (WhoElseRequest.of_bytes-to_bytes laws r h)
  parser-payload (Request.getip r) h = rw (GetIpRequest.of_bytes-to_bytes laws r h)
  parser-payload (Request.regfile r) h = rw (RegisterFileRequest.of_bytes-to_bytes laws r h)
  parser-payload (Request.regchunk r) h = rw (RegisterChunkRequest.of_bytes-to_bytes laws r h)
  parser-payload (Request.searchfile r) h = rw (SearchFileRequest.of_bytes-to_bytes laws r h)

  -- With a codec that keeps the laws, parse_command on the bytes of a request that fits in the
  -- wire format, with any bytes behind them, runs the request as it was encoded, does what
  -- follows a command to the user's `last_active` (touch), and parses exactly the request's
  -- bytes.
  pub parse_command-envelope :
      (w : World) (c : ℕ) (r : Request) (rest : Text)
      → RequestFits r
      → length (payload r) < 2 ^ 31
      → parse_command w c (ImRequest.to_bytes (envelope r) ++ rest)
        ≡ some (touch (run w c r).0 c, length (ImRequest.to_bytes (envelope r)), (run w c r).1)
  parse_command-envelope w c r rest h k =
      let fits : ImRequest.Fits (envelope r) = (command_type_lt (command_of r), k) in
      parse_command_lem w c (ImRequest.to_bytes (envelope r) ++ rest)
        (ImRequest.to_msg (envelope r)) (length (ImRequest.to_bytes (envelope r))) (envelope r)
        (decode_two (envelope r) rest fits) (ImRequest.of_msg-to_msg laws (envelope r) fits)
      ∙ rw (
          execute_lem w c (envelope r) (command_of r) r (find_command-type (command_of r))
            (parser-payload r h))

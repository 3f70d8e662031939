-- ===== src/Server/Dispatch.antt =====
-- serverlib/command.c, and im_receive_command of lib/socket.c, which calls it.
use epoll_chat.Common.{
  ℕ, zero, suc, ◌+◌, ◌-◌, Bool, true, false, List, [], ◌∷◌, Text, Option, none, some, if◌then◌else◌,
  ◌==◌, length,
}
use epoll_chat.Protobuf.{Protobuf, ◌>>=◌}
use epoll_chat.Proto.ImRequest.{ImRequest}
use epoll_chat.Proto.ImRequest
use epoll_chat.Proto.ImResponse.{ImResponse}
use epoll_chat.Proto.LoginRequest
use epoll_chat.Proto.LoginRequest.{LoginRequest}
use epoll_chat.Proto.MessageRequest
use epoll_chat.Proto.MessageRequest.{MessageRequest}
use epoll_chat.Proto.BlockRequest
use epoll_chat.Proto.BlockRequest.{BlockRequest}
use epoll_chat.Proto.UnBlockRequest
use epoll_chat.Proto.UnBlockRequest.{UnBlockRequest}
use epoll_chat.Proto.LogOutRequest
use epoll_chat.Proto.LogOutRequest.{LogOutRequest}
use epoll_chat.Proto.WhoElseRequest
use epoll_chat.Proto.WhoElseRequest.{WhoElseRequest}
use epoll_chat.Proto.GetIpRequest
use epoll_chat.Proto.GetIpRequest.{GetIpRequest}
use epoll_chat.Proto.RegisterFileRequest
use epoll_chat.Proto.RegisterFileRequest.{RegisterFileRequest}
use epoll_chat.Proto.RegisterChunkRequest
use epoll_chat.Proto.RegisterChunkRequest.{RegisterChunkRequest}
use epoll_chat.Proto.SearchFileRequest
use epoll_chat.Proto.SearchFileRequest.{SearchFileRequest}
use epoll_chat.Buffer.{Buffer, contents, prepare_receive, received}
use epoll_chat.World.{World, put_user, put_client}
use epoll_chat.Delivery.{is_user_logged_in, send_response_to_client}
use epoll_chat.Server.Accounts.{Reply, cmd_login, cmd_logout, cmd_block, cmd_unblock}
use epoll_chat.Server.Talk.{cmd_message, cmd_whoelse, cmd_getip}
use epoll_chat.Server.Sharing.{cmd_regfile, cmd_regchunk, cmd_searchfile}
use epoll_chat.Server.Connection.{close_socket}

-- The entries of `enabled_commands`.
pub data Command : Type 0 where
  login message block unblock logout whoelse getip regfile regchunk searchfile : Command

-- `type` of an entry
abbrev pub command_type : Command → ℕ
command_type login = 1
command_type message = 2
command_type block = 4
command_type unblock = 5
command_type logout = 6
command_type whoelse = 3
command_type getip = 7
command_type regfile = 8
command_type regchunk = 9
command_type searchfile = 10

abbrev pub enabled_commands : List Command
enabled_commands =
    login ∷ message ∷ block ∷ unblock ∷ logout ∷ whoelse ∷ getip ∷ regfile ∷ regchunk ∷ searchfile
    ∷ []

-- The loop over `enabled_commands`, which ends at the first entry of the type.
unfoldable pub find_command : ℕ → List Command → Option Command
find_command t [] = none
find_command t (k ∷ ks) = if command_type k == t then some k else find_command t ks

-- What a parser gives to `run`.
pub data Request : Type 0 where
  login : LoginRequest → Request
  message : MessageRequest → Request
  block : BlockRequest → Request
  unblock : UnBlockRequest → Request
  logout : LogOutRequest → Request
  whoelse : WhoElseRequest → Request
  getip : GetIpRequest → Request
  regfile : RegisterFileRequest → Request
  regchunk : RegisterChunkRequest → Request
  searchfile : SearchFileRequest → Request

-- What `recv` returns: bytes, none of them at the end of the stream, or -1.
pub data Recv : Type 0 where
  arrived : Text → Recv
  failed : Recv

module _ ⦃pb : Protobuf⦄ where
  -- `parser` of an entry
  unfoldable pub parser : Command → Text → Option Request
  parser Command.login s = LoginRequest.of_bytes s >>= λ r. some (Request.login r)
  parser Command.message s = MessageRequest.of_bytes s >>= λ r. some (Request.message r)
  parser Command.block s = BlockRequest.of_bytes s >>= λ r. some (Request.block r)
  parser Command.unblock s = UnBlockRequest.of_bytes s >>= λ r. some (Request.unblock r)
  parser Command.logout s = LogOutRequest.of_msg none >>= λ r. some (Request.logout r)
  parser Command.whoelse s = WhoElseRequest.of_bytes s >>= λ r. some (Request.whoelse r)
  parser Command.getip s = GetIpRequest.of_bytes s >>= λ r. some (Request.getip r)
  parser Command.regfile s = RegisterFileRequest.of_bytes s >>= λ r. some (Request.regfile r)
  parser Command.regchunk s = RegisterChunkRequest.of_bytes s >>= λ r. some (Request.regchunk r)
  parser Command.searchfile s = SearchFileRequest.of_bytes s >>= λ r. some (Request.searchfile r)

  -- `run` of an entry
  unfoldable pub run : World → ℕ → Request → Reply
  run w c (Request.login r) = cmd_login w c r
  run w c (Request.message r) = cmd_message w c r
  run w c (Request.block r) = cmd_block w c r
  run w c (Request.unblock r) = cmd_unblock w c r
  run w c (Request.logout r) = cmd_logout w c r
  run w c (Request.whoelse r) = cmd_whoelse w c r
  run w c (Request.getip r) = cmd_getip w c r
  run w c (Request.regfile r) = cmd_regfile w c r
  run w c (Request.regchunk r) = cmd_regchunk w c r
  run w c (Request.searchfile r) = cmd_searchfile w c r

  -- `if (isUserLoggedIn(db, client->user)) client->user->last_active = time(NULL)`
  unfoldable pub touch : World → ℕ → World
  touch w c = elim (w.clients c).user [
    | none ↦ w
    | some u ↦
        if is_user_logged_in w u
        then put_user w u (record (w.users u) { last_active = w.now })
        else w
  ]

  -- The body of the loop in parse_command for the request's type; `none` is a fault of the parser.
  unfoldable pub execute : World → ℕ → ImRequest → Option Reply
  unfolding touch
  execute w c req = elim (find_command req.type enabled_commands) [
    | none ↦ some (w, none)
    | some k ↦ parser k req.value >>= λ r. let (w', rsp) = run w c r in some (touch w' c, rsp)
  ]

  -- parse_command: the world, the number of bytes parsed and the response
  unfoldable pub parse_command : World → ℕ → Text → Option (World × ℕ × Option ImResponse)
  parse_command w c bytes = elim (pb.decode_n_fields bytes 2) [
    | none ↦ some (w, 0, none)
    | some (m, n) ↦ ImRequest.of_msg m >>= λ req. execute w c req >>= λ r. some (r.0, n, r.1)
  ]

  -- `if (rsp != NULL) send_response_to_client(…)`
  unfoldable pub respond : World → ℕ → Option ImResponse → World
  respond w c none = w
  respond w c (some rsp) = send_response_to_client w c rsp

  -- `client->inbuffer.buffer_start += parsed`
  unfoldable pub consume : World → ℕ → ℕ → World
  consume w c n = put_client w c (record (w.clients c) {
    inbuffer = record ((w.clients c).inbuffer) {
      buffer_start = (w.clients c).inbuffer.buffer_start + n;
    };
  })

  -- The loop of im_receive_command: the world, and whether the loop ended by itself.
  unfoldable pub receive_loop : ℕ → World → ℕ → Option (World × Bool)
  receive_loop zero w c = some (w, false)
  receive_loop (suc fuel) w c =
      let step = parse_command w c (contents (w.clients c).inbuffer) >>= λ r.
      let w' = respond r.0 c r.2 in
      if r.1 == 0 then some (w', true) else receive_loop fuel (consume w' c r.1) c in
      if (w.clients c).inbuffer.buffer_start == (w.clients c).inbuffer.buffer_end
      then some (w, true)
      else step

  unfoldable pub put_inbuffer : World → ℕ → Buffer → World
  put_inbuffer w c b = put_client w c (record (w.clients c) { inbuffer = b })

  -- The loop with fuel for a round to each byte; `none` is a fault.
  unfoldable pub parse_input : World → ℕ → Option World
  parse_input w c =
      receive_loop (suc (length (contents (w.clients c).inbuffer))) w c >>= λ r. some r.0

  -- im_receive_command, with what `recv` returns. The result of a failed `recv`, -1, is added to
  -- `buffer_end` like a size: the end goes back by one, and past the memory if it stands at 0.
  unfoldable pub im_receive_command : World → ℕ → Recv → Option World
  im_receive_command w c (arrived []) =
      some (close_socket (put_inbuffer w c (prepare_receive (w.clients c).inbuffer)) c)
  im_receive_command w c (arrived (x ∷ xs)) =
      parse_input (put_inbuffer w c (received (x ∷ xs) (prepare_receive (w.clients c).inbuffer))) c
  im_receive_command w c failed =
      let b = prepare_receive (w.clients c).inbuffer in
      if b.buffer_end == 0
      then none
      else parse_input (put_inbuffer w c (record b { buffer_end = b.buffer_end - 1 })) c

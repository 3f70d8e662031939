-- ===== src/ClientApp/Console.antt =====
-- clientlib/command.c, and got_command and input_thread of client.c: the lines that are typed.
pub mod Prefixes
pub mod Lines
pub mod Typed
pub mod Sound
pub mod Runs
use epoll_chat.Common.{
  ℕ, Bool, true, false, List, [], ◌∷◌, Text, Option, none, some, if◌then◌else◌, codes,
}
use epoll_chat.Protobuf.{Protobuf, ◌>>=◌, c_string}
use epoll_chat.Proto.ImRequest.{ImRequest}
use epoll_chat.Libc.{fgets, chop}
use epoll_chat.ClientApp.{App, Os, send_request, epoll_do_send_buffer, server_client}
use epoll_chat.ClientApp.Commands.{
  Outcome, cmd_login_impl, cmd_logout_impl, cmd_message_impl, cmd_broadcast_impl, cmd_block_impl,
  cmd_unblock_impl, cmd_whoelse_impl, cmd_whoelsesince_impl, cmd_startprivate_impl,
  cmd_searchfile_impl, cmd_searchchunk_impl,
}
use epoll_chat.ClientApp.Private.{starts_with, cmd_private_impl, cmd_stopprivate_impl}
use epoll_chat.ClientApp.RegFile.{cmd_regfile_impl}

-- MAX_COMMAND
abbrev pub max_command : ℕ
max_command = 32768

-- The `im_command_t` structs of clientlib/commands.
pub data Entry : Type 0 where
  login message broadcast block unblock logout whoelsesince whoelse : Entry
  startprivate private stopprivate regfile searchfile searchchunk : Entry

abbrev pub prefix : Entry → Text
prefix login = codes "login"
prefix message = codes "message "
prefix broadcast = codes "broadcast "
prefix block = codes "block "
prefix unblock = codes "unblock "
prefix logout = codes "logout"
prefix whoelsesince = codes "whoelsesince "
prefix whoelse = codes "whoelse"
prefix startprivate = codes "startprivate "
prefix private = codes "private "
prefix stopprivate = codes "stopprivate "
prefix regfile = codes "register"
prefix searchfile = codes "searchFile "
prefix searchchunk = codes "searchChunk "

-- `enabled_commands` of the client
abbrev pub enabled_entries : List Entry
enabled_entries =
    login ∷ message ∷ broadcast ∷ block ∷ unblock ∷ logout ∷ whoelsesince ∷ whoelse ∷ startprivate
    ∷ private ∷ stopprivate ∷ regfile ∷ searchfile ∷ searchchunk ∷ []

-- The loop of parse_command: the first entry whose prefix the line has.
unfoldable pub find_entry : Text → List Entry → Option Entry
find_entry s [] = none
find_entry s (k ∷ ks) = if starts_with (prefix k) s then some k else find_entry s ks

module _ ⦃pb : Protobuf⦄ where
  -- `if (rsp != NULL)` of parse_command
  unfoldable pub send_made : App → Option ImRequest → App
  send_made a none = a
  send_made a (some req) = send_request a (server_client a) req

module _ ⦃os : Os⦄ ⦃pb : Protobuf⦄ where
  -- `run` of an entry
  unfoldable pub run_entry : App → Entry → Text → Outcome
  run_entry a login req = cmd_login_impl a req
  run_entry a message req = cmd_message_impl a req
  run_entry a broadcast req = cmd_broadcast_impl a req
  run_entry a block req = cmd_block_impl a req
  run_entry a unblock req = cmd_unblock_impl a req
  run_entry a logout req = cmd_logout_impl a req
  run_entry a whoelsesince req = cmd_whoelsesince_impl a req
  run_entry a whoelse req = cmd_whoelse_impl a req
  run_entry a startprivate req = cmd_startprivate_impl a req
  run_entry a private req = cmd_private_impl a req
  run_entry a stopprivate req = cmd_stopprivate_impl a req
  run_entry a regfile req = cmd_regfile_impl a req
  run_entry a searchfile req = cmd_searchfile_impl a req
  run_entry a searchchunk req = cmd_searchchunk_impl a req

  -- parse_command of the client, always called with clients[0]; an empty line finds no entry either
  unfoldable pub parse_line : App → Text → Option App
  unfolding send_made
  parse_line a command = elim (find_entry command enabled_entries) [
    | none ↦ some a
    | some k ↦ run_entry a k command >>= λ r. some (send_made r.0 r.1)
  ]

  -- got_command
  unfoldable pub got_command : App → Text → Option App
  got_command a buf = parse_line a buf >>= λ a'. some (epoll_do_send_buffer a')

  -- One round of the first loop of input_thread, once `loginlock` is free: the state, and whether
  -- the loop goes on.
  unfoldable pub login_round : App → Option (App × Bool)
  login_round a =
      if a.last_response
      then some (a, false)
      else got_command a (codes "login") >>= λ a'. some (a', true)

  -- One round of its second loop; which reads a line.
  unfoldable pub input_round : App → Option App
  input_round a = fgets max_command a.stdin >>= λ r.
      chop (c_string r.0) >>= λ buf. got_command (record a { stdin = r.1 }) buf

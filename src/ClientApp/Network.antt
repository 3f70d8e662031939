-- ===== src/ClientApp/Network.antt =====
-- network_thread of client.c, with im_receive_command of lib/socket.c on parse_response, and main.
pub mod Keeps
pub mod Receive
pub mod Sound
pub mod Events
use epoll_chat.Common.{
  ℕ, zero, suc, ◌+◌, ◌-◌, Bool, true, false, List, [], ◌∷◌, ◌++◌, Text, codes, Option, none, some,
  if◌then◌else◌, ◌==◌, ◌||◌, length, update,
}
use epoll_chat.Common.Int.{ℤ, pos}
use epoll_chat.Protobuf.{Protobuf, ◌>>=◌}
use epoll_chat.Buffer.{contents, prepare_receive, received}
use epoll_chat.Trie.{null}
use epoll_chat.World.{World, Address, epoll_add}
use epoll_chat.Auth.{new_user_db}
use epoll_chat.Server.Start.{no_user, no_client}
use epoll_chat.Server.Connection.{pick_client, slot, im_connection_accept}
use epoll_chat.Server.Dispatch.{Recv, arrived, failed, consume, put_inbuffer}
use epoll_chat.Server.Loop.{Event, send_outbuffer}
use epoll_chat.ClientApp.{App, Os, Node, with_world}
use epoll_chat.ClientApp.Session.{accept_peer, close_peer}
use epoll_chat.ClientApp.Peers.{parse_response}

module _ ⦃os : Os⦄ ⦃pb : Protobuf⦄ where
  -- The loop of im_receive_command on parse_response, which makes no response of its own: the state,
  -- and whether the loop ended by itself. It ends with the program where the program exits.
  unfoldable pub response_loop : ℕ → App → ℕ → Option (App × Bool)
  response_loop zero a c = some (a, false)
  response_loop (suc fuel) a c =
      let step = parse_response a c (contents (a.world.clients c).inbuffer) >>= λ r.
      if r.1 == 0 || r.0.exited
      then some (r.0, true)
      else response_loop fuel (with_world r.0 (consume r.0.world c r.1)) c in
      if (a.world.clients c).inbuffer.buffer_start == (a.world.clients c).inbuffer.buffer_end
      then some (a, true)
      else step

  -- The loop with fuel for a round to each byte; `none` is a fault.
  unfoldable pub parse_responses : App → ℕ → Option App
  parse_responses a c =
      response_loop (suc (length (contents (a.world.clients c).inbuffer))) a c >>= λ r. some r.0

  -- im_receive_command with parse_response, with what `recv` returns.
  unfoldable pub receive_responses : App → ℕ → Recv → Option App
  receive_responses a c (arrived []) = some (
      close_peer
        (with_world a (put_inbuffer a.world c (prepare_receive (a.world.clients c).inbuffer))) c)
  receive_responses a c (arrived (x ∷ xs)) =
      parse_responses
        (with_world a (
          put_inbuffer a.world c
            (received (x ∷ xs) (prepare_receive (a.world.clients c).inbuffer))))
        c
  receive_responses a c failed =
      let b = prepare_receive (a.world.clients c).inbuffer in
      if b.buffer_end == 0
      then none
      else parse_responses
          (with_world a (put_inbuffer a.world c (record b { buffer_end = b.buffer_end - 1 }))) c

  -- EPOLLIN and EPOLLOUT of a connection. Both end the round of events, as a missing client does.
  unfoldable pub handle_peer : App → Event → Option (App × Bool)
  handle_peer a e =
      if e.readable
      then elim (pick_client a.world e.fd) [
        | none ↦ some (a, false)
        | some j ↦ receive_responses a (slot a.world j) e.recv >>= λ a'. some (a', false)
      ]
      else if e.writable
      then elim (pick_client a.world e.fd) [
        | none ↦ some (a, false)
        | some j ↦ some (with_world a (send_outbuffer a.world (slot a.world j) e.sent_own), false)
      ]
      else some (a, true)

  -- One event: the state, and whether the loop goes on to the next event.
  unfoldable pub handle_client_event : ℕ → App → Event → Option (App × Bool)
  handle_client_event masterfd a e =
      if e.hangup
      then elim (pick_client a.world e.fd) [
        | none ↦ some (a, false)
        | some j ↦ some (close_peer a (slot a.world j), true)
      ]
      else if e.fd == masterfd
      then elim e.accepted [
        | none ↦ some (a, true)
        | some (sockfd, addr) ↦ accept_peer a sockfd addr >>= λ a'. some (a', true)
      ]
      else handle_peer a e

  -- The loop over the events of one epoll_wait.
  unfoldable pub handle_client_events : ℕ → App → List Event → Option App
  handle_client_events masterfd a [] = some a
  handle_client_events masterfd a (e ∷ es) = handle_client_event masterfd a e >>= λ r. elim r.1 [
    | true ↦ handle_client_events masterfd r.0 es
    | false ↦ some r.0
  ]

-- The globals before the server's connection is put into the table: epoll watches `masterfd`.
abbrev start_world : ℤ → ℕ → World
start_world now masterfd = record {
  now = now;
  is_server = false;
  users = λ u. no_user;
  user_count = 0;
  clients = λ c. no_client;
  client_count = 0;
  freed = [];
  db = new_user_db (pos 0) (pos 0);
  file_db = null;
  global_chunk_id = 0;
  slots = [];
  calls = epoll_add masterfd ∷ [];
}

-- main, up to the two threads, where every call succeeds: `sock` is the connection to the server at
-- `addr`, `port` the port that `masterfd` listens on, and `datapath` the directory made.
unfoldable pub client_start :
    ℤ → ℕ → ℕ → Address → ℕ → Text → (Text → Option Node) → List (Option ℕ) → Text → App
unfolding im_connection_accept
client_start now masterfd sock addr port datapath files dials stdin =
    let (w, c) = im_connection_accept (start_world now masterfd) sock addr in
    record {
      world = record w { slots = c ∷ [] };
      close_prehooks = λ c. false;
      close_callbacks = update (λ c. false) c true;
      logged_in_user_name = none;
      listen_port = port;
      last_response = false;
      datapath = datapath;
      files = files;
      dials = dials;
      stdin = stdin;
      printed = (codes "Using storage path for p2p files: " ++ (datapath ++ codes "\n")) ∷ [];
      exited = false;
      server_closed = false;
    }

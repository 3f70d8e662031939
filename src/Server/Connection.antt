-- ===== src/Server/Connection.antt =====
-- lib/socket.c: the table of clients, new connections and closed ones.
use epoll_chat.Common.{
  ℕ, suc, List, [], ◌∷◌, ◌++◌, Option, none, some, ltb, if◌then◌else◌, ◌==◌, length, get_or, set,
  update,
}
use epoll_chat.Protobuf.{Protobuf}
use epoll_chat.Buffer.{init_buffer, out_buffer_default_size, msg_limit}
use epoll_chat.World.{World, Address, epoll_add, epoll_del, close_fd, called}
use epoll_chat.Auth.{logout_user}

-- MAX_CLIENTS of server.c and client.c
abbrev pub max_clients : ℕ
max_clients = 256

-- The loop of pick_client: the first slot whose client has the descriptor.
unfoldable pub find_slot : World → ℕ → List ℕ → Option ℕ
find_slot w fd [] = none
find_slot w fd (c ∷ cs) =
    let rest = find_slot w fd cs in
    if (w.clients c).fd == fd then some 0 else elim rest [ none ↦ none | some i ↦ some (suc i) ]

-- pick_client with createNew false; -1 is `none`
unfoldable pub pick_client : World → ℕ → Option ℕ
pick_client w fd = find_slot w fd w.slots

-- The client in a slot.
abbrev pub slot : World → ℕ → ℕ
slot w i = get_or w.slots i 0

-- im_connection_accept: the new client, and its registration with epoll
unfoldable pub im_connection_accept : World → ℕ → Address → World × ℕ
im_connection_accept w sockfd addr = (
  record w {
    clients = update w.clients w.client_count (record {
      fd = sockfd;
      user = none;
      outbuffer = init_buffer out_buffer_default_size;
      inbuffer = init_buffer msg_limit;
      addr = addr;
      chunkids = [];
    });
    client_count = suc w.client_count;
    calls = epoll_add sockfd ∷ w.calls;
  },
  w.client_count,
)

-- `clients[pick_client(…, true)] = im_connection_accept(…)`. A client of the same descriptor is
-- freed and replaced; otherwise the client goes to the end of the table, and past `MAX_CLIENTS` the
-- write is out of bounds: `none`.
unfoldable pub accept_client : World → ℕ → Address → Option World
accept_client w sockfd addr =
    let (w', c) = im_connection_accept w sockfd addr in
    elim (pick_client w sockfd) [
      | some i ↦ some (record w' { slots = set w.slots i c; freed = slot w i ∷ w.freed })
      | none ↦
          if ltb (length w.slots) max_clients
          then some (record w' { slots = w.slots ++ (c ∷ []) })
          else none
    ]

module _ ⦃pb : Protobuf⦄ where
  -- close_socket of a client with no hooks, as all clients of the server are
  unfoldable pub close_socket : World → ℕ → World
  close_socket w c =
      let w' = logout_user w (w.clients c).user in
      called (called w' (epoll_del (w'.clients c).fd)) (close_fd (w'.clients c).fd)

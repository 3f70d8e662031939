-- ===== src/ClientApp/Session.antt =====
-- The connections of the client program: close_socket of lib/socket.c with the hooks of client.c,
-- and a new connection in its table.
use epoll_chat.Common.{ℕ, true, false, ◌++◌, Option, none, some, if◌then◌else◌, codes, update}
use epoll_chat.Protobuf.{Protobuf, ◌>>=◌}
use epoll_chat.World.{Address}
use epoll_chat.Server.Connection.{accept_client, close_socket}
use epoll_chat.ClientApp.{App, prints, with_world}

-- pm_close_connection
unfoldable pub pm_close_connection : App → ℕ → App
pm_close_connection a c = elim (a.world.clients c).user [
  | none ↦ a
  | some u ↦
      prints a
        ((a.world.users u).username ++ codes " has ended private messaging session with you.\n")
]

-- `clients[pick_client(…, true)] = im_connection_accept(…)`: the hooks of the new client are NULL.
unfoldable pub accept_peer : App → ℕ → Address → Option App
accept_peer a sockfd addr = accept_client a.world sockfd addr >>= λ w. some (record a {
  world = w;
  close_prehooks = update a.close_prehooks a.world.client_count false;
  close_callbacks = update a.close_callbacks a.world.client_count false;
})

module _ ⦃pb : Protobuf⦄ where
  -- close_socket with the hooks of the client
  unfoldable pub close_peer : App → ℕ → App
  unfolding pm_close_connection
  close_peer a c =
      let a' = if a.close_prehooks c then pm_close_connection a c else a in
      let a'' = with_world a' (close_socket a'.world c) in
      if a.close_callbacks c then record a'' { server_closed = true } else a''

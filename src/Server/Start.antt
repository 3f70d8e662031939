-- ===== src/Server/Start.antt =====
-- main of server.c: the state in which the two threads of the server start.
use epoll_chat.Common.{ℕ, true, List, [], ◌∷◌, Text, none}
use epoll_chat.Common.Int.{ℤ, signed32}
use epoll_chat.Buffer.{init_buffer, out_buffer_default_size, msg_limit}
use epoll_chat.Trie.{new_node}
use epoll_chat.World.{World, User, Client, epoll_add}
use epoll_chat.Auth.{new_user, new_user_db, build_user_db}
use epoll_chat.Files.{no_file}
use epoll_chat.Libc.{atoi}

-- What stands at an address before anything is allocated there; it is never read.
abbrev pub no_user : User
no_user = new_user [] []

abbrev pub no_client : Client
no_client = record {
  fd = 0;
  user = none;
  outbuffer = init_buffer out_buffer_default_size;
  inbuffer = init_buffer msg_limit;
  addr = record { ip = []; sin_port = 0 };
  chunkids = [];
}

-- The globals, with the arguments of the command line for the two durations.
abbrev pub before_users : ℤ → Text → Text → World
before_users now block_duration timeout = record {
  now = now;
  is_server = true;
  users = λ u. no_user;
  user_count = 0;
  clients = λ c. no_client;
  client_count = 0;
  freed = [];
  db = new_user_db (signed32 (atoi block_duration)) (signed32 (atoi timeout));
  file_db = new_node no_file;
  global_chunk_id = 0;
  slots = [];
  calls = [];
}

-- main, up to the two threads: `words` are those of the credentials file, `password` is what the
-- array holds before the first of them, and `masterfd` is the socket that it listens on.
unfoldable pub server_start : ℕ → ℤ → Text → Text → Text → List Text → World
server_start masterfd now block_duration timeout password words =
    let w = build_user_db (before_users now block_duration timeout) password words in
    record w { calls = epoll_add masterfd ∷ w.calls }

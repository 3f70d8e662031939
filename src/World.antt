-- ===== src/World.antt =====
-- The state of a program: the objects on its heap, its tables, and the calls it has made of epoll.
-- lib/auth.h, lib/client.h, lib/file.h and the globals of server.c and lib/file.c.
use epoll_chat.Common.{ℕ, Bool, List, ◌∷◌, ◌++◌, Text, Option, update, ◌/◌, ◌%◌, replicate}
use epoll_chat.Common.Int.{ℤ}
use epoll_chat.Buffer.{Buffer}
use epoll_chat.Trie.{Trie}

-- `user_t`. A pointer to a user is its number, in the order of their allocation.
pub record User : Type 0 where
  pub username : Text
  pub password : Text
  pub last_logged_in : ℤ
  pub last_active : ℤ
  pub last_blocked : ℤ
  pub attempts : ℕ
  pub client : Option ℕ
  pub buffer : Buffer
  pub blocked : List ℕ

-- `struct sockaddr_in`: the four bytes of the address and the port.
pub record Address : Type 0 where
  pub ip : Text
  pub sin_port : ℕ

-- `im_client_t`, numbered likewise; `nchunks` is the length of `chunkids`.
pub record Client : Type 0 where
  pub fd : ℕ
  pub user : Option ℕ
  pub outbuffer : Buffer
  pub inbuffer : Buffer
  pub addr : Address
  pub chunkids : List ℕ

-- The entry of a `trie_file_t` node: no file while `chunks` is 0.
pub record FileEntry : Type 0 where
  pub chunks : ℕ
  pub chunk_sid : ℕ

-- `UserDb`. The list holds users, never NULL, the newest first.
pub record UserDb : Type 0 where
  pub first : List ℕ
  pub root : Trie (Option ℕ)
  pub block_duration : ℤ
  pub login_timeout : ℤ

-- The calls of epoll_ctl, close and send, with the interest asked for (EPOLLOUT beside EPOLLIN).
pub data SysCall : Type 0 where
  epoll_add : ℕ → SysCall
  epoll_mod : ℕ → Bool → SysCall
  epoll_del : ℕ → SysCall
  close_fd : ℕ → SysCall
  send_bytes : ℕ → Text → SysCall

-- `now` is what time(NULL) gives; it stands still while one event is handled.
pub record World : Type 0 where
  pub now : ℤ
  pub is_server : Bool
  pub users : ℕ → User
  pub user_count : ℕ
  pub clients : ℕ → Client
  pub client_count : ℕ
  pub freed : List ℕ
  pub db : UserDb
  pub file_db : Trie FileEntry
  pub global_chunk_id : ℕ
  -- `clients[0] … clients[nclients - 1]`
  pub slots : List ℕ
  -- the calls made, the newest first
  pub calls : List SysCall

abbrev pub put_user : World → ℕ → User → World
put_user w u user = record w { users = update w.users u user }

abbrev pub put_client : World → ℕ → Client → World
put_client w c client = record w { clients = update w.clients c client }

abbrev pub called : World → SysCall → World
called w s = record w { calls = s ∷ w.calls }

-- The bytes of a `struct sockaddr_in` on Linux: AF_INET, the port and the address in network
-- order, and eight zeros.
unfoldable pub sockaddr_bytes : Address → Text
sockaddr_bytes a = 2 ∷ 0 ∷ (a.sin_port / 256) ∷ (a.sin_port % 256) ∷ (a.ip ++ replicate 8 0)

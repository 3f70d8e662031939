-- ===== src/ClientApp.antt =====
-- The client program: the globals of client.c, its files, and what it asks of the system.
pub mod Names
pub mod Session
pub mod Commands
pub mod Private
pub mod RegFile
pub mod Console
pub mod Peers
pub mod Network
pub mod Talk
use epoll_chat.Common.{
  ℕ, Bool, true, false, List, [], ◌∷◌, ◌++◌, Text, Option, none, some, if◌then◌else◌, codes,
  decimal, get_or,
}
use epoll_chat.World.{World, epoll_mod, called, put_client}
use epoll_chat.Protobuf.{Protobuf}
use epoll_chat.Proto.ImRequest.{ImRequest}
use epoll_chat.Proto.ImRequest
use epoll_chat.Buffer.{append_bytes}
use epoll_chat.ClientApp.Names.{same_path}

-- What stat finds at a path. Every path of one file has an entry.
pub data Node : Type 0 where
  regular : Text → Node
  directory : Node

abbrev pub Files : Type 0
Files = Text → Option Node

-- What the system decides: whether fopen with "rb" and with "wb" and mkdir succeed on a path,
-- whether malloc gives a block of a size, and the directory that the program runs in.
pub record Os : Type 0 where
  pub can_read : Files → Text → Bool
  pub can_write : Files → Text → Bool
  pub can_make : Files → Text → Bool
  pub can_allocate : ℕ → Bool
  pub working_directory : Text

-- The state. `world` has the table of connections, the server's the first, and `p2pdb` as its
-- database of users. `close_prehooks` and `close_callbacks` tell the clients whose hooks are set, to
-- pm_close_connection and to server_close_connection.
pub record App : Type 0 where
  pub world : World
  pub close_prehooks : ℕ → Bool
  pub close_callbacks : ℕ → Bool
  pub logged_in_user_name : Option Text
  pub listen_port : ℕ
  pub last_response : Bool
  pub datapath : Text
  pub files : Files
  -- what the next calls of socket and connect give: a connected socket, or a failure
  pub dials : List (Option ℕ)
  -- what is still to be read from the standard input
  pub stdin : Text
  -- what was printed, the newest first
  pub printed : List Text
  -- `exit(0)` was called; "Server has closed connection" was logged
  pub exited : Bool
  pub server_closed : Bool

abbrev pub prints : App → Text → App
prints a s = record a { printed = s ∷ a.printed }

abbrev pub with_world : App → World → App
with_world a w = record a { world = w }

-- `clients[0]`
abbrev pub server_client : App → ℕ
server_client a = get_or a.world.slots 0 0

-- What "%s" shows for `loggedInUserName`.
abbrev pub my_name : App → Text
my_name a = elim a.logged_in_user_name [ none ↦ codes "(null)" | some s ↦ s ]

-- "%s/%s" and "%s/%s/%u"
abbrev pub file_dir : App → Text → Text
file_dir a filename = a.datapath ++ (b'/' ∷ filename)

abbrev pub chunk_path : App → Text → ℕ → Text
chunk_path a filename chunk = file_dir a filename ++ (b'/' ∷ decimal chunk)

-- fopen with "wb", fwrite of `s` and fclose, where fopen succeeds: the bytes are then at every path of
-- the file.
abbrev pub store_file : ⦃os : Os⦄ → Files → Text → Text → Files
store_file ⦃os⦄ files path s q =
    if same_path os.working_directory q path then some (regular s) else files q

-- mkdir where it succeeds
abbrev pub make_dir : ⦃os : Os⦄ → Files → Text → Files
make_dir ⦃os⦄ files path q =
    if same_path os.working_directory q path then some directory else files q

-- What fread finds in a file that was opened; nothing in a directory.
abbrev pub bytes_of : Option Node → Text
bytes_of none = []
bytes_of (some (regular s)) = s
bytes_of (some directory) = []

-- epoll_do_send_buffer
unfoldable pub epoll_do_send_buffer : App → App
epoll_do_send_buffer a =
    with_world a (called a.world (epoll_mod (a.world.clients (server_client a)).fd true))

module _ ⦃pb : Protobuf⦄ where
  -- send_request of clientlib/command.c on the buffer of a client
  unfoldable pub send_request : App → ℕ → ImRequest → App
  send_request a c req = with_world a (
      put_client a.world c (record (a.world.clients c) {
        outbuffer = append_bytes (a.world.clients c).outbuffer (ImRequest.to_bytes req);
      }))

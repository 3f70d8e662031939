-- ===== src/Tests/Data.antt =====
-- Two users with two connections, in the states that the runs start from.
use epoll_chat.Common.{
  ℕ, ◌<◌, true, [], ◌∷◌, Text, Option, none, some, if◌then◌else◌, codes, ◌==◌, arith,
}
use epoll_chat.Common.Int.{ℤ, pos, negsuc}
use epoll_chat.Buffer.{Buffer}
use epoll_chat.Buffer.Queue.{IsValid}
use epoll_chat.Trie.{null, modify_node}
use epoll_chat.World.{World}
use epoll_chat.Delivery.Queues.{BuffersValid}

abbrev pub alice : Text
alice = codes "alice"

abbrev pub bob : Text
bob = codes "bob"

abbrev pub empty_buffer : ℕ → Buffer
empty_buffer n = record { cells = []; buffer_capacity = n; buffer_start = 0; buffer_end = 0 }

pub empty_buffer-IsValid : (n : ℕ) → 0 < n → IsValid (empty_buffer n)
empty_buffer-IsValid n h = omega arith

-- Four bytes of memory that hold "abc", with "a" taken out.
abbrev pub two_left : Buffer
two_left = record { cells = codes "abc"; buffer_capacity = 4; buffer_start = 1; buffer_end = 3 }

pub two_left-IsValid : IsValid two_left
two_left-IsValid = omega arith

-- User 0 is alice and user 1 is bob, each with the name as its password.
abbrev pub name_of : ℕ → Text
name_of u = if u == 0 then alice else bob

-- `at` gives the users' clients and `by` the clients' users; the users were last active at `active`.
abbrev pub two_users : (ℕ → Option ℕ) → (ℕ → Option ℕ) → ℤ → World
two_users at by active = record {
  now = pos 1000;
  is_server = true;
  users = λ u. record {
    username = name_of u;
    password = name_of u;
    last_logged_in = active;
    last_active = active;
    last_blocked = negsuc 0;
    attempts = 0;
    client = at u;
    buffer = empty_buffer 8192;
    blocked = [];
  };
  user_count = 2;
  clients = λ c. record {
    fd = if c == 0 then 10 else 11;
    user = by c;
    outbuffer = empty_buffer 8192;
    inbuffer = empty_buffer 32768;
    addr = record { ip = 127 ∷ 0 ∷ 0 ∷ 1 ∷ []; sin_port = 5000 };
    chunkids = if c == 0 then 0 ∷ 1 ∷ [] else [];
  };
  client_count = 2;
  freed = [];
  db = record {
    first = 1 ∷ 0 ∷ [];
    root = modify_node none (λ old. some 1) bob (modify_node none (λ old. some 0) alice null);
    block_duration = pos 60;
    login_timeout = pos 300;
  };
  file_db = null;
  global_chunk_id = 2;
  slots = 0 ∷ 1 ∷ [];
  calls = [];
}

abbrev pub nobody : ℕ → Option ℕ
nobody n = none

-- User 0 with client 0, and user 1 with client 1.
abbrev pub pairs : ℕ → Option ℕ
pairs n = if n == 0 then some 0 else if n == 1 then some 1 else none

abbrev pub only_zero : ℕ → Option ℕ
only_zero n = if n == 0 then some 0 else none

-- Nobody is logged in; both are; both were, and their sessions have run out; alice is alone.
abbrev pub offline : World
offline = two_users nobody nobody (negsuc 0)

abbrev pub online : World
online = two_users pairs pairs (pos 900)

abbrev pub expired : World
expired = two_users pairs pairs (pos 100)

abbrev pub alice_alone : World
alice_alone = two_users only_zero only_zero (pos 900)

-- Both are logged in, and "bc" waits in the buffers of each client.
abbrev pub pending : World
pending = record online {
  clients = λ c. record (online.clients c) { inbuffer = two_left; outbuffer = two_left };
}

pub two_users-BuffersValid :
    (at by : ℕ → Option ℕ) (active : ℤ) → BuffersValid (two_users at by active)
two_users-BuffersValid at by active = record {
  out = λ c. empty_buffer-IsValid 8192 (omega arith);
  store = λ u. empty_buffer-IsValid 8192 (omega arith);
}

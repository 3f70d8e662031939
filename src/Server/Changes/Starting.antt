-- ===== src/Server/Changes/Starting.antt =====
-- The state in which the server starts, and the states that it reaches.
use epoll_chat.Common.{ℕ, List, [], ◌∷◌, Text, arith, Bool-cases, inl, inr, ◌==◌}
use epoll_chat.Common.Int.{ℤ}
use epoll_chat.Protobuf.{Protobuf, ProtobufLaws}
use epoll_chat.Buffer.{out_buffer_default_size, msg_limit}
use epoll_chat.Buffer.Queue.{init_buffer-IsValid}
use epoll_chat.World.{World}
use epoll_chat.Auth.{new_user, add_user, build_user_db}
use epoll_chat.Server.Start.{server_start, before_users}
use epoll_chat.Server.Changes.Sound.{Sound, UserSound}
use epoll_chat.Server.Changes.Reach.{Reach}
use epoll_chat.Server.Changes.Reach.Events.{Reach-Sound}

new_user-UserSound : (username password : Text) → UserSound (new_user username password)
new_user-UserSound username password =
    (init_buffer-IsValid out_buffer_default_size (omega arith), tt)

pub add_user-Sound :
    (w : World) (username password : Text) → Sound w → Sound (add_user w username password).0
unfolding add_user
add_user-Sound w username password s = record {
  clients = s.clients;
  users = λ u. elim (Bool-cases (u == w.user_count)) [
    | inl e ↦ rw e (new_user-UserSound username password)
    | inr e ↦ rw e (s.users u)
  ];
  allocated = s.allocated;
  room = s.room;
}

build_user_db-Sound :
    (w : World) (password : Text) (words : List Text)
    → Sound w
    → Sound (build_user_db w password words)
unfolding build_user_db
build_user_db-Sound w password [] s = s
build_user_db-Sound w password (username ∷ []) s = add_user-Sound w username password s
build_user_db-Sound w password (username ∷ password' ∷ words) s =
    build_user_db-Sound (add_user w username password').0 password' words
      (add_user-Sound w username password' s)

before-Sound :
    (now : ℤ) (block_duration timeout : Text) → Sound (before_users now block_duration timeout)
before-Sound now block_duration timeout = record {
  clients = λ c. (
    init_buffer-IsValid out_buffer_default_size (omega arith),
    init_buffer-IsValid msg_limit (omega arith),
  );
  users = λ u. new_user-UserSound [] [];
  allocated = tt;
  room = omega arith;
}

start-Sound :
    (masterfd : ℕ) (now : ℤ) (block_duration timeout password : Text) (words : List Text)
    → Sound (server_start masterfd now block_duration timeout password words)
unfolding server_start
start-Sound masterfd now block_duration timeout password words =
    let s =
      build_user_db-Sound (before_users now block_duration timeout) password words
        (before-Sound now block_duration timeout) in
    record { clients = s.clients; users = s.users; allocated = s.allocated; room = s.room }

module _ ⦃pb : Protobuf⦄ (laws : ProtobufLaws pb) where
  -- Every state that the server reaches from its start is sound: whatever its arguments, the words
  -- of its credentials file and the descriptor that it listens on, whatever requests arrive in
  -- whatever pieces, and in whatever order events, sweeps and the clock follow each other, all
  -- buffers of clients and users are valid, nobody has a user blocked twice, and the table has at
  -- most 256 clients, all of them allocated. No step is a fault, recv and send return what they can,
  -- and the codec keeps the laws.
  pub reachable-Sound :
      (masterfd : ℕ) (now : ℤ) (block_duration timeout password : Text) (words : List Text)
      (w : World)
      → Reach masterfd (server_start masterfd now block_duration timeout password words) w
      → Sound w
  reachable-Sound masterfd now block_duration timeout password words w r =
      Reach-Sound laws masterfd _ w r
        (start-Sound masterfd now block_duration timeout password words)

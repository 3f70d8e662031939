-- ===== src/Server/Changes/Sound.antt =====
-- Soundness of a state of the server, and how changes act on it.
use epoll_chat.Common.{ℕ, ◌≤◌, sym, subst, inl, inr, Bool-cases, ◌==◌, contains, length}
use epoll_chat.Buffer.Queue.{IsValid, append_bytes_lem}
use epoll_chat.World.{World, User, Client, put_user, put_client}
use epoll_chat.Auth.{block_user, unblock_user}
use epoll_chat.Auth.Blocking.{HasNoRepeats, unblock_list-HasNoRepeats}
use epoll_chat.Server.Connection.{max_clients}
use epoll_chat.Server.Table.{AllBelow}
use epoll_chat.Server.Changes.{
  Change, same, next, send, store, set_user, set_client, block, unblock, call, files,
}

-- A client's buffers are valid.
abbrev pub ClientSound : Client → Type 0
ClientSound c = IsValid c.outbuffer × IsValid c.inbuffer

-- A user's buffer is valid, and nobody is blocked twice.
abbrev pub UserSound : User → Type 0
UserSound u = IsValid u.buffer × HasNoRepeats u.blocked

-- All clients and users are so, and the table has allocated clients, 256 at most.
pub record Sound (w : World) : Type 0 where
  pub clients : (c : ℕ) → ClientSound (w.clients c)
  pub users : (u : ℕ) → UserSound (w.users u)
  pub allocated : AllBelow w.client_count w.slots
  pub room : length w.slots ≤ max_clients

pub put_client-Sound :
    (w : World) (c : ℕ) (client : Client)
    → ClientSound client
    → Sound w
    → Sound (put_client w c client)
put_client-Sound w c client v s = record {
  clients = λ d. elim (Bool-cases (d == c)) [ inl e ↦ rw e v | inr e ↦ rw e (s.clients d) ];
  users = s.users;
  allocated = s.allocated;
  room = s.room;
}

pub put_user-Sound :
    (w : World) (u : ℕ) (user : User) → UserSound user → Sound w → Sound (put_user w u user)
put_user-Sound w u user v s = record {
  clients = s.clients;
  users = λ d. elim (Bool-cases (d == u)) [ inl e ↦ rw e v | inr e ↦ rw e (s.users d) ];
  allocated = s.allocated;
  room = s.room;
}

block-Sound : (w : World) (by u : ℕ) → Sound w → Sound (block_user w by u)
unfolding block_user epoll_chat.Delivery.has_blocked_user
block-Sound w by u s = elim (Bool-cases (u == by)) [
  | inl e ↦ rw e s
  | inr e ↦ rw e (elim (Bool-cases (contains (w.users by).blocked u)) [
    | inl b ↦ rw b s
    | inr b ↦ rw b (put_user-Sound w by _ ((s.users by).0, (b, (s.users by).1)) s)
  ])
]

unblock-Sound : (w : World) (by u : ℕ) → Sound w → Sound (unblock_user w by u)
unfolding unblock_user
unblock-Sound w by u s =
    put_user-Sound w by _
      ((s.users by).0, unblock_list-HasNoRepeats u (w.users by).blocked (s.users by).1) s

-- A change keeps it.
pub Change-Sound : {w w' : World} → Change w w' → Sound w → Sound w'
Change-Sound same s = s
Change-Sound (next h k) s = Change-Sound k (Change-Sound h s)
Change-Sound {w = w} (send c t) s =
    put_client-Sound w c _
      ((append_bytes_lem (w.clients c).outbuffer t (s.clients c).0).0, (s.clients c).1) s
Change-Sound {w = w} (store u t) s =
    put_user-Sound w u _ ((append_bytes_lem (w.users u).buffer t (s.users u).0).0, (s.users u).1) s
Change-Sound {w = w} (set_user u user (n, b, l)) s =
    put_user-Sound w u user
      (subst IsValid (sym b) (s.users u).0, subst HasNoRepeats (sym l) (s.users u).1) s
Change-Sound {w = w} (set_client c client (f, o, i)) s =
    put_client-Sound w c client
      (subst IsValid (sym o) (s.clients c).0, subst IsValid (sym i) (s.clients c).1) s
Change-Sound {w = w} (block by u) s = block-Sound w by u s
Change-Sound {w = w} (unblock by u) s = unblock-Sound w by u s
Change-Sound (call x) s = record {
  clients = s.clients;
  users = s.users;
  allocated = s.allocated;
  room = s.room;
}
Change-Sound (files t n) s = record {
  clients = s.clients;
  users = s.users;
  allocated = s.allocated;
  room = s.room;
}

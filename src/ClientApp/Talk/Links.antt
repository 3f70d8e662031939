-- ===== src/ClientApp/Talk/Links.antt =====
-- The two ends of a private session: what link_peer and a new connection leave.
use epoll_chat.Common.{
  ℕ, ◌≡◌, refl, ap, ap₂, subst, ◌∙◌, true, ◌++◌, Text, Option, none, some, codes, length, ==_refl,
  ltb, Option-cases, Bool-cases, inl, inr, arith,
}
use epoll_chat.Protobuf.{Protobuf}
use epoll_chat.Proto.ImResponse
use epoll_chat.Proto.ImResponse.{ImResponse}
use epoll_chat.Buffer.{contents, append_bytes, init_buffer, out_buffer_default_size}
use epoll_chat.Buffer.Queue.{IsValid, append_bytes_lem}
use epoll_chat.World.{World, Client, Address}
use epoll_chat.Delivery.{send_response_to_client}
use epoll_chat.Delivery.Queues.{queue}
use epoll_chat.Auth.{find_user, find_or_add_user}
use epoll_chat.Auth.Accounts.{find_user-find_or_add_user}
use epoll_chat.Server.Connection.{accept_client, pick_client, max_clients}
use epoll_chat.ClientApp.{App, Os, prints, with_world, my_name}
use epoll_chat.ClientApp.Session.{accept_peer}
use epoll_chat.ClientApp.Private.{find_peer}
use epoll_chat.ClientApp.Peers.{link_peer, start_session_with, registered_by, private_registration}

-- The user found by a name and the client point at each other, and pm_close_connection is set.
abbrev pub SessionOpen : App → Text → ℕ → Type 0
SessionOpen a name c =
    (u : ℕ) × (find_peer a.world name ≡ some (u, c))
    × ((a.world.clients c).user ≡ some u)
    × (a.close_prehooks c ≡ true)

find_peer_lem :
    (w : World) (name : Text) (u c : ℕ)
    → find_user w name ≡ some u
    → (w.users u).client ≡ some c
    → find_peer w name ≡ some (u, c)
unfolding find_peer
find_peer_lem w name u c e f = rw (e, find_peer, f) refl

find_user-link_peer :
    (a : App) (u c : ℕ) (name : Text)
    → find_user (link_peer a u c).world name ≡ find_user a.world name
unfolding find_user link_peer
find_user-link_peer a u c name = refl

link_peer-SessionOpen :
    (a : App) (u c : ℕ) (name : Text)
    → find_user a.world name ≡ some u
    → SessionOpen (link_peer a u c) name c
unfolding link_peer
link_peer-SessionOpen a u c name e = (
  u,
  find_peer_lem (link_peer a u c).world name u c (find_user-link_peer a u c name ∙ e)
      (rw (==_refl u) refl),
  rw (==_refl c) refl,
  rw (==_refl c) refl,
)

module _ ⦃pb : Protobuf⦄ where
  send-SessionOpen :
      (a : App) (name : Text) (c d : ℕ) (rsp : ImResponse)
      → SessionOpen a name c
      → SessionOpen (with_world a (send_response_to_client a.world d rsp)) name c
  unfolding send_response_to_client find_peer find_user
  send-SessionOpen a name c d rsp (u, f, g, h) = (u, f, ground (arith, g), h)

module _ ⦃os : Os⦄ ⦃pb : Protobuf⦄ where
  -- The states in which the two ends are linked.
  abbrev met : App → Text → Text → App
  met a name notice = prints (with_world a (find_or_add_user a.world name).0) notice

  pub registered_by-SessionOpen :
      (b : App) (d : ℕ) (name : Text) → SessionOpen (registered_by b d name) name d
  unfolding registered_by
  registered_by-SessionOpen b d name =
      link_peer-SessionOpen
        (met b name (name ++ codes " has started a private messaging session with you\n"))
        (find_or_add_user b.world name).1 d name (find_user-find_or_add_user b.world name)

  abbrev started : App → ℕ → Text → App
  started a c name =
      link_peer (met a name (codes "Start private messaging with " ++ (name ++ codes "\n")))
        (find_or_add_user a.world name).1 c

  pub start_session_with-SessionOpen :
      (a : App) (c : ℕ) (name : Text) → SessionOpen (start_session_with a c name) name c
  unfolding start_session_with
  start_session_with-SessionOpen a c name =
      send-SessionOpen (started a c name) name c c (private_registration (started a c name)) (
        link_peer-SessionOpen
          (met a name (codes "Start private messaging with " ++ (name ++ codes "\n")))
          (find_or_add_user a.world name).1 c name (find_user-find_or_add_user a.world name))

  clients-find_or_add_user :
      (w : World) (name : Text) → (find_or_add_user w name).0.clients ≡ w.clients
  unfolding find_or_add_user epoll_chat.Auth.add_user
  clients-find_or_add_user w name = elim (Option-cases (find_user w name)) [
    | inl e ↦ rw (e, find_or_add_user) refl
    | inr (u, e) ↦ rw (e, find_or_add_user) refl
  ]

  outbuffer-started :
      (a : App) (c : ℕ) (name : Text)
      → ((started a c name).world.clients c).outbuffer ≡ (a.world.clients c).outbuffer
  unfolding link_peer
  outbuffer-started a c name =
      rw (==_refl c)
        (ap (λ (f : ℕ → Client). (f c).outbuffer) (clients-find_or_add_user a.world name))

  outbuffer-send :
      (w : World) (c : ℕ) (rsp : ImResponse)
      → ((send_response_to_client w c rsp).clients c).outbuffer
        ≡ append_bytes (w.clients c).outbuffer (ImResponse.to_bytes rsp)
  unfolding send_response_to_client
  outbuffer-send w c rsp = rw (==_refl c) refl

  registration_lem :
      (a : App) (c : ℕ) (name : Text)
      → private_registration (started a c name) ≡ private_registration a
  unfolding private_registration link_peer
  registration_lem a c name = refl

  -- The registration goes to the new connection, behind what waits for it.
  pub queue-start_session_with :
      (a : App) (c : ℕ) (name : Text)
      → IsValid (a.world.clients c).outbuffer
      → queue (start_session_with a c name).world c
        ≡ queue a.world c ++ ImResponse.to_bytes (private_registration a)
  unfolding start_session_with
  queue-start_session_with a c name v =
      ap contents (
        outbuffer-send (started a c name).world c (private_registration (started a c name))
        ∙ ap₂ (λ b r. append_bytes b (ImResponse.to_bytes r)) (outbuffer-started a c name)
            (registration_lem a c name))
      ∙ (append_bytes_lem (a.world.clients c).outbuffer
          (ImResponse.to_bytes (private_registration a)) v).1

-- What is new after a connection was accepted or made.
pub record IsNew (a : App) (a1 : App) : Type 0 where
  pub empty :
      (a1.world.clients a.world.client_count).outbuffer ≡ init_buffer out_buffer_default_size
  pub named : my_name a1 ≡ my_name a

NewIn : World → Option World → Type 0
NewIn w none = Unit {0}
NewIn w (some w') = (w'.clients w.client_count).outbuffer ≡ init_buffer out_buffer_default_size

accept_client-NewIn : (w : World) (sock : ℕ) (addr : Address) → NewIn w (accept_client w sock addr)
unfolding NewIn accept_client epoll_chat.Server.Connection.im_connection_accept
accept_client-NewIn w sock addr = elim (Option-cases (pick_client w sock)) [
  | inr (i, p) ↦ rw (p, accept_client, ==_refl w.client_count) refl
  | inl p ↦ elim (Bool-cases (ltb (length w.slots) max_clients)) [
    | inl t ↦ rw (p, accept_client, t, ==_refl w.client_count) refl
    | inr t ↦ rw (p, accept_client, t) tt
  ]
]

abbrev pub NewOf : App → Option App → Type 0
NewOf a none = Unit {0}
NewOf a (some a1) = IsNew a a1

pub accept_peer-NewOf : (a : App) (sock : ℕ) (addr : Address) → NewOf a (accept_peer a sock addr)
unfolding NewIn accept_peer
accept_peer-NewOf a sock addr = elim (Option-cases (accept_client a.world sock addr)) [
  | inl e ↦ rw e tt
  | inr (w, e) ↦ rw e (record {
    empty = subst (NewIn a.world) e (accept_client-NewIn a.world sock addr);
    named = refl;
  })
]

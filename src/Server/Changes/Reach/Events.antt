-- ===== src/Server/Changes/Reach/Events.antt =====
-- The events of a run of the server as changes, and whole runs.
use epoll_chat.Common.{
  ℕ, subst, inl, inr, Bool, true, false, [], ◌∷◌, Option, none, some, arith, Bool-cases,
  Option-cases, ◌==◌, length, ltb, if-keeps,
}
use epoll_chat.Protobuf.{Protobuf, ProtobufLaws, ◌>>=◌}
use epoll_chat.Buffer.{prepare_receive, out_buffer_default_size, msg_limit}
use epoll_chat.Buffer.Queue.{init_buffer-IsValid}
use epoll_chat.Buffer.Receive.{prepare_receive_lem, prepare_receive-start, received_lem}
use epoll_chat.World.{World, Address}
use epoll_chat.Server.Connection.{
  pick_client, slot, accept_client, im_connection_accept, max_clients, close_socket,
}
use epoll_chat.Server.Table.{accept_client_lem}
use epoll_chat.Server.Dispatch.{Recv, arrived, failed, im_receive_command}
use epoll_chat.Server.Loop.{Event, handle_event, handle_client, time_thread}
use epoll_chat.Server.Changes.{close_socket-Change}
use epoll_chat.Server.Changes.Sound.{Sound, Change-Sound, ClientSound, UserSound}
use epoll_chat.Server.Changes.Reach.{
  RecvFits, FitsClient, Step, event, swept, tick, Reach, start, more,
}
use epoll_chat.Server.Changes.Reach.Parsing.{SoundOf, parse_input-SoundOf}
use epoll_chat.Server.Changes.Reach.Sending.{
  StepSound, bind-StepSound, back_one, put_inbuffer-Sound, sweep-Change, handle_output-Sound,
}

-- A new client has empty buffers.
new-ClientSound :
    (w : World) (fd : ℕ) (addr : Address)
    → Sound w
    → (c : ℕ) → ClientSound ((im_connection_accept w fd addr).0.clients c)
unfolding im_connection_accept
new-ClientSound w fd addr s c = elim (Bool-cases (c == w.client_count)) [
  | inl e ↦ rw e (
    init_buffer-IsValid out_buffer_default_size (omega arith),
    init_buffer-IsValid msg_limit (omega arith),
  )
  | inr e ↦ rw e (s.clients c)
]

AcceptedIn : Option World → Type 0
AcceptedIn none = Unit {0}
AcceptedIn (some w) = ((c : ℕ) → ClientSound (w.clients c)) × ((u : ℕ) → UserSound (w.users u))

accept_client-AcceptedIn :
    (w : World) (fd : ℕ) (addr : Address) → Sound w → AcceptedIn (accept_client w fd addr)
unfolding AcceptedIn accept_client im_connection_accept
accept_client-AcceptedIn w fd addr s = elim (Option-cases (pick_client w fd)) [
  | inr (i, p) ↦ rw (p, accept_client) (new-ClientSound w fd addr s, s.users)
  | inl p ↦ elim (Bool-cases (ltb (length w.slots) max_clients)) [
    | inl t ↦ rw (p, accept_client, t) (new-ClientSound w fd addr s, s.users)
    | inr t ↦ rw (p, accept_client, t) tt
  ]
]

pub accept_client-Sound :
    (w : World) (fd : ℕ) (addr : Address) → Sound w → SoundOf (accept_client w fd addr)
unfolding AcceptedIn
accept_client-Sound w fd addr s = elim (Option-cases (accept_client w fd addr)) [
  | inl e ↦ rw e tt
  | inr (w', e) ↦
      let table = accept_client_lem w w' fd addr s.allocated s.room e in
      let (clients, users) = subst AcceptedIn e (accept_client-AcceptedIn w fd addr s) in
      rw e (record { clients = clients; users = users; allocated = table.1; room = table.2 })
]

module _ ⦃pb : Protobuf⦄ (laws : ProtobufLaws pb) where
  im_receive_command-SoundOf :
      (w : World) (c : ℕ) (r : Recv)
      → RecvFits (w.clients c).inbuffer r
      → Sound w
      → SoundOf (im_receive_command w c r)
  unfolding im_receive_command
  im_receive_command-SoundOf w c (arrived []) h s =
      Change-Sound (close_socket-Change _ c)
        (put_inbuffer-Sound w c _ (prepare_receive_lem (w.clients c).inbuffer (s.clients c).1).0 s)
  im_receive_command-SoundOf w c (arrived (x ∷ xs)) h s = parse_input-SoundOf laws _ c (
      put_inbuffer-Sound w c _ (received_lem (x ∷ xs) (w.clients c).inbuffer (s.clients c).1 h).0 s)
  im_receive_command-SoundOf w c failed h s =
      let b = prepare_receive (w.clients c).inbuffer in
      if-keeps SoundOf (b.buffer_end == 0) _ _ tt (
        parse_input-SoundOf laws _ c (
          put_inbuffer-Sound w c _
            (back_one b (prepare_receive_lem (w.clients c).inbuffer (s.clients c).1).0
              (prepare_receive-start (w.clients c).inbuffer))
            s))

  handle_client-Sound :
      (w : World) (e : Event)
      → FitsClient w (pick_client w e.fd) e
      → Sound w
      → StepSound (handle_client w e)
  unfolding handle_client
  handle_client-Sound w e h s = elim (Option-cases (pick_client w e.fd)) [
    | inl p ↦
        rw (p, handle_client)
          (if-keeps StepSound e.readable _ _ s (if-keeps StepSound e.writable _ _ s s))
    | inr (j, p) ↦
        let (fits, own, user) = subst (λ o. FitsClient w o e) p h in
        rw (p, handle_client)
          (if-keeps StepSound e.readable _ _
            (bind-StepSound _ false (im_receive_command-SoundOf w (slot w j) e.recv fits s))
            (if-keeps StepSound e.writable _ _
              (handle_output-Sound w (slot w j) e.sent_own e.sent_user own user s) s))
  ]

  handle_event-Sound :
      (masterfd : ℕ) (w : World) (e : Event)
      → FitsClient w (pick_client w e.fd) e
      → Sound w
      → StepSound (handle_event masterfd w e)
  unfolding handle_event
  handle_event-Sound masterfd w e h s =
      if-keeps StepSound e.hangup _ _ (hangup_lem (pick_client w e.fd)) (
        if-keeps StepSound (e.fd == masterfd) _ _ (accepted_lem e.accepted)
          (handle_client-Sound w e h s))
    where
      hangup_lem :
          (o : Option ℕ)
          → StepSound (elim o as (λ x. Option (World × Bool)) [
            | none ↦ some (w, false)
            | some j ↦ some (close_socket w (slot w j), true)
          ])
      hangup_lem none = s
      hangup_lem (some j) = Change-Sound (close_socket-Change w (slot w j)) s

      accepted_lem :
          (o : Option (ℕ × Address))
          → StepSound (elim o as (λ x. Option (World × Bool)) [
            | none ↦ some (w, true)
            | some (sockfd, addr) ↦ accept_client w sockfd addr >>= λ w'. some (w', true)
          ])
      accepted_lem none = s
      accepted_lem (some (sockfd, addr)) =
          bind-StepSound _ true (accept_client-Sound w sockfd addr s)

  -- A step keeps it.
  Step-Sound : (masterfd : ℕ) {w w' : World} → Step masterfd w w' → Sound w → Sound w'
  unfolding time_thread
  Step-Sound masterfd {w = w} (event e goes_on h eq) s =
      subst StepSound eq (handle_event-Sound masterfd w e h s)
  Step-Sound masterfd {w = w} swept s = Change-Sound (sweep-Change w w.slots) s
  Step-Sound masterfd (tick now l) s = record {
    clients = s.clients;
    users = s.users;
    allocated = s.allocated;
    room = s.room;
  }

  -- Every state that the server reaches is sound if the first is: with a codec that keeps the laws,
  -- whatever requests arrive in whatever pieces, and in whatever order events, sweeps and the clock
  -- follow each other, as long as no step is a fault, and recv and send return what they can, all
  -- buffers of clients and users are valid, nobody has a user blocked twice, and the table has at
  -- most 256 clients, all of them allocated.
  pub Reach-Sound : (masterfd : ℕ) (w w' : World) → Reach masterfd w w' → Sound w → Sound w'
  Reach-Sound masterfd w w' start s = s
  Reach-Sound masterfd w w' (more r step) s =
      Step-Sound masterfd step (Reach-Sound masterfd w _ r s)

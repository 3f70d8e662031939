-- ===== src/Server/Rounds.antt =====
-- One round of events in network_thread of server.c.
use epoll_chat.Common.{
  ℕ, ◌≡◌, ◌≢◌, ◌⊎◌, inl, inr, true, false, List, [], ◌∷◌, none, some, ◌||◌, ==_ne, arith,
  Option-cases, Bool-cases,
}
use epoll_chat.Protobuf.{Protobuf}
use epoll_chat.World.{World}
use epoll_chat.Server.Connection.{pick_client, slot}
use epoll_chat.Server.Dispatch.{im_receive_command}
use epoll_chat.Server.Loop.{Event, handle_output, handle_client, handle_event, handle_events}

module _ ⦃pb : Protobuf⦄ where
  -- The event of a client ends the round, if it is handled at all.
  handle_client_ends :
      (w : World) (e : Event)
      → (e.readable || e.writable) ≡ true
      → (handle_client w e ≡ none) ⊎ ((w' : World) × (handle_client w e ≡ some (w', false)))
  unfolding handle_client
  handle_client_ends w e r = elim (Option-cases (pick_client w e.fd)) [
    | inl p ↦ elim (Bool-cases e.readable) [
      | inl h ↦ inr (w, rw (h, p))
      | inr h ↦ inr (w, rw (h, writes h, p))
    ]
    | inr (j, p) ↦ elim (Bool-cases e.readable) [
      | inl h ↦ elim (Option-cases (im_receive_command w (slot w j) e.recv)) [
        | inl q ↦ inl (rw (h, p, q))
        | inr (w', q) ↦ inr (w', rw (h, p, q))
      ]
      | inr h ↦ inr (handle_output w (slot w j) e.sent_own e.sent_user, rw (h, writes h, p))
    ]
  ]
    where
      writes : e.readable ≡ false → e.writable ≡ true
      writes h = ground arith

  -- An event of input or output on a descriptor other than the master's, without a hang-up, ends
  -- the round: whatever events epoll_wait returned after it are dropped.
  pub handle_events-dropped :
      (masterfd : ℕ) (w : World) (e : Event) (es : List Event)
      → e.hangup ≡ false
      → e.fd ≢ masterfd
      → (e.readable || e.writable) ≡ true
      → handle_events masterfd w (e ∷ es) ≡ handle_events masterfd w (e ∷ [])
  unfolding handle_events handle_event handle_client
  handle_events-dropped m w e es h n r = elim (handle_client_ends w e r) [
    | inl q ↦ rw (h, ==_ne e.fd m n, q)
    | inr (w', q) ↦ rw (h, ==_ne e.fd m n, q)
  ]

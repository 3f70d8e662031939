-- ===== src/Server/Loop.antt =====
-- server.c: the sweep of time_thread and the events of network_thread, with im_send_buffer of
-- lib/socket.c.
use epoll_chat.Common.{
  ℕ, ◌-◌, Bool, true, false, not, List, [], ◌∷◌, Text, Option, none, some, if◌then◌else◌, ◌==◌,
  codes, take, length,
}
use epoll_chat.Common.Int.{int32, ◌+ℤ◌, ltb_ℤ}
use epoll_chat.Protobuf.{Protobuf, ◌>>=◌}
use epoll_chat.Buffer.{Buffer, contents, sent, compact}
use epoll_chat.World.{World, Address, epoll_mod, send_bytes, put_user, put_client, called}
use epoll_chat.Delivery.{is_user_logged_in, encode_exit_text, send_response_to_client}
use epoll_chat.Auth.{logout_user}
use epoll_chat.Server.Connection.{pick_client, slot, accept_client, close_socket}
use epoll_chat.Server.Dispatch.{Recv, im_receive_command}

-- What `send` returns: the number of bytes taken, or -1.
pub data Sent : Type 0 where
  taken : ℕ → Sent
  refused : Sent

-- `if (len == 0)` of im_send_buffer asks for input only, and the last line makes room.
abbrev pub finish_send : World → ℕ → ℕ → World
finish_send w fd len = if len == 0 then called w (epoll_mod fd false) else w

-- im_send_buffer on a buffer, for the descriptor of the client: the calls made, and the buffer.
unfoldable pub im_send_buffer : World → ℕ → Buffer → Sent → World × Buffer
im_send_buffer w fd b r =
    let len = length (contents b) in
    if len == 0 then (finish_send w fd 0, compact b) else elim r [
      | refused ↦ (w, b)
      | taken n ↦
          (finish_send (called w (send_bytes fd (take n (contents b)))) fd (len - n), sent n b)
    ]

-- im_send_buffer on the client's own buffer
unfoldable pub send_outbuffer : World → ℕ → Sent → World
send_outbuffer w c r =
    let (w', b) = im_send_buffer w (w.clients c).fd (w.clients c).outbuffer r in
    put_client w' c (record (w'.clients c) { outbuffer = b })

-- im_send_buffer on the buffer of the client's user, if that is active
unfoldable pub send_user_buffer : World → ℕ → Sent → World
send_user_buffer w c r = elim (w.clients c).user [
  | none ↦ w
  | some u ↦
      let (w', b) = im_send_buffer w (w.clients c).fd (w.users u).buffer r in
      put_user w' u (record (w'.users u) { buffer = b })
]

-- `clients[j]->user->last_active + db->login_timeout > ct`
unfoldable pub is_active : World → Option ℕ → Bool
is_active w none = false
is_active w (some u) = ltb_ℤ w.now (int32 ((w.users u).last_active +ℤ w.db.login_timeout))

-- The branch of EPOLLOUT in network_thread.
unfoldable pub handle_output : World → ℕ → Sent → Sent → World
unfolding is_active
handle_output w c r s =
    let w' = send_outbuffer w c r in
    if is_active w' (w'.clients c).user then send_user_buffer w' c s else w'

-- An event, with what accept, recv and the two calls of send will return when it is handled.
pub record Event : Type 0 where
  pub fd : ℕ
  pub hangup : Bool
  pub readable : Bool
  pub writable : Bool
  pub accepted : Option (ℕ × Address)
  pub recv : Recv
  pub sent_own : Sent
  pub sent_user : Sent

abbrev pub logged_off_text : Text
logged_off_text =
    codes "You haven't issued any command for a while. You are automatically logged off."

module _ ⦃pb : Protobuf⦄ where
  -- The loop of time_thread over the clients.
  unfoldable pub sweep : World → List ℕ → World
  sweep w [] = w
  sweep w (c ∷ cs) =
      sweep
        (elim (w.clients c).user [
          | none ↦ w
          | some u ↦
              if not (is_user_logged_in w u)
              then send_response_to_client (logout_user w (some u)) c
                  (encode_exit_text logged_off_text false)
              else w
        ])
        cs

  -- One round of time_thread.
  unfoldable pub time_thread : World → World
  time_thread w = sweep w w.slots

  -- EPOLLIN and EPOLLOUT of a client. Both end the round of events, as a missing client does.
  unfoldable pub handle_client : World → Event → Option (World × Bool)
  handle_client w e =
      if e.readable
      then elim (pick_client w e.fd) [
        | none ↦ some (w, false)
        | some j ↦ im_receive_command w (slot w j) e.recv >>= λ w'. some (w', false)
      ]
      else if e.writable
      then elim (pick_client w e.fd) [
        | none ↦ some (w, false)
        | some j ↦ some (handle_output w (slot w j) e.sent_own e.sent_user, false)
      ]
      else some (w, true)

  -- One event of network_thread: the world, and whether the loop goes on to the next event.
  unfoldable pub handle_event : ℕ → World → Event → Option (World × Bool)
  handle_event masterfd w e =
      if e.hangup
      then elim (pick_client w e.fd) [
        | none ↦ some (w, false)
        | some j ↦ some (close_socket w (slot w j), true)
      ]
      else if e.fd == masterfd
      then elim e.accepted [
        | none ↦ some (w, true)
        | some (sockfd, addr) ↦ accept_client w sockfd addr >>= λ w'. some (w', true)
      ]
      else handle_client w e

  -- The loop over the events of one epoll_wait; `none` is a fault.
  unfoldable pub handle_events : ℕ → World → List Event → Option World
  handle_events masterfd w [] = some w
  handle_events masterfd w (e ∷ es) = handle_event masterfd w e >>= λ r. elim r.1 [
    | true ↦ handle_events masterfd r.0 es
    | false ↦ some r.0
  ]

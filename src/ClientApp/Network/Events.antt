-- ===== src/ClientApp/Network/Events.antt =====
-- The events of the client's network_thread on a sound state.
use epoll_chat.Common.{
  ℕ, zero, suc, ◌<◌, ◌≤◌, sym, subst, inl, inr, Bool, true, false, List, [], ◌∷◌, Text, Option,
  none, some, if-keeps, ◌==◌, ◌||◌, arith, Bool-cases, Option-cases, length, get_or,
}
use epoll_chat.Protobuf.{Protobuf, ProtobufLaws, ◌>>=◌}
use epoll_chat.Proto.ImResponse
use epoll_chat.Proto.ImResponse.{ImResponse}
use epoll_chat.Buffer.{Buffer, contents, prepare_receive}
use epoll_chat.Buffer.Queue.{IsValid}
use epoll_chat.Buffer.Receive.{prepare_receive_lem, prepare_receive-start, received_lem}
use epoll_chat.World.{World, Address}
use epoll_chat.Server.Connection.{pick_client, slot}
use epoll_chat.Server.Table.{AllBelow}
use epoll_chat.Server.Dispatch.{Recv, arrived, failed, consume, put_inbuffer}
use epoll_chat.Server.Loop.{Event, Sent, send_outbuffer}
use epoll_chat.Server.Changes.{close_socket-Change}
use epoll_chat.Server.Changes.Reach.{RecvFits, SentFits}
use epoll_chat.Server.Changes.Reach.Parsing.{consume-Sound}
use epoll_chat.Server.Changes.Reach.Sending.{
  back_one, put_inbuffer-Sound, send_outbuffer-Sound, im_send_buffer-Change,
}
use epoll_chat.ClientApp.{App, Os, with_world}
use epoll_chat.ClientApp.Session.{accept_peer, close_peer, pm_close_connection}
use epoll_chat.ClientApp.Peers.{parse_response, handle_response}
use epoll_chat.ClientApp.Network.{
  response_loop, parse_responses, receive_responses, handle_peer, handle_client_event,
}
use epoll_chat.ClientApp.Network.Receive.{parse_response-reads, count_consume}
use epoll_chat.ClientApp.Network.Sound.{
  Good, GoodIn, Change-Good, handle_response-GoodIn, accept_peer-GoodIn,
}

-- What recv and send give for the connection that an event is about, if there is one.
abbrev pub FitsPeer : World → Option ℕ → Event → Type 0
FitsPeer w none e = Unit {0}
FitsPeer w (some j) e =
    RecvFits (w.clients (slot w j)).inbuffer e.recv
    × SentFits (w.clients (slot w j)).outbuffer e.sent_own

abbrev pub StepGood : Option (App × Bool) → Type 0
StepGood none = Unit {0}
StepGood (some r) = Good r.0.world

bind-StepGood : (o : Option App) (b : Bool) → GoodIn o → StepGood (o >>= λ a. some (a, b))
bind-StepGood none b h = tt
bind-StepGood (some a) b h = h

ParsedGood : Option (App × ℕ) → Type 0
ParsedGood none = Unit {0}
ParsedGood (some r) = Good r.0.world

-- Every slot, also one outside of the table, stands for a client that was made.
get_or_below : (n i : ℕ) (cs : List ℕ) → 0 < n → AllBelow n cs → get_or cs i 0 < n
get_or_below n i [] h b = h
get_or_below n zero (c ∷ cs) h b = b.0
get_or_below n (suc i) (c ∷ cs) h b = get_or_below n i cs h b.1

slot_below : (w : World) (j : ℕ) → Good w → slot w j < w.client_count
slot_below w j (s, l) = get_or_below w.client_count j w.slots l s.allocated

module _ ⦃pb : Protobuf⦄ where
  pub close_peer-Good : (a : App) (c : ℕ) → Good a.world → Good (close_peer a c).world
  unfolding close_peer pm_close_connection
  close_peer-Good a c g =
      let P = λ (b : App). Good b.world in
      let a1 = if-keeps P (a.close_prehooks c) (pm_close_connection a c) a hook g in
      if-keeps P (a.close_callbacks c) _ _ (Change-Good (close_socket-Change _ c) a1)
        (Change-Good (close_socket-Change _ c) a1)
    where
      hook : Good (pm_close_connection a c).world
      hook = elim (Option-cases (a.world.clients c).user) [
        | inl e ↦ rw (e, pm_close_connection) g
        | inr (u, e) ↦ rw (e, pm_close_connection) g
      ]

  put_inbuffer-Good :
      (w : World) (c : ℕ) (b : Buffer) → IsValid b → Good w → Good (put_inbuffer w c b)
  unfolding put_inbuffer
  put_inbuffer-Good w c b v (s, l) = (put_inbuffer-Sound w c b v s, l)

  consume-Good :
      (w : World) (c n : ℕ)
      → n ≤ length (contents (w.clients c).inbuffer)
      → Good w
      → Good (consume w c n)
  unfolding consume
  consume-Good w c n h (s, l) = (consume-Sound w c n h s, l)

  send_outbuffer-Good :
      (w : World) (c : ℕ) (r : Sent)
      → SentFits (w.clients c).outbuffer r
      → Good w
      → Good (send_outbuffer w c r)
  unfolding send_outbuffer
  send_outbuffer-Good w c r h (s, l) = (
    send_outbuffer-Sound w c r h s,
    (Change-Good (im_send_buffer-Change w (w.clients c).fd (w.clients c).outbuffer r) (s, l)).1,
  )

module _ ⦃os : Os⦄ ⦃pb : Protobuf⦄ (laws : ProtobufLaws pb) where
  parse_response-ParsedGood :
      (a : App) (c : ℕ) (bytes : Text) → Good a.world → ParsedGood (parse_response a c bytes)
  unfolding parse_response ParsedGood
  parse_response-ParsedGood a c bytes g = elim (Option-cases (pb.decode_n_fields bytes 3)) [
    | inl e ↦ rw (e, parse_response) g
    | inr ((m, n), e) ↦ elim (Option-cases (ImResponse.of_msg m)) [
      | inl p ↦ rw (e, parse_response, p) tt
      | inr (rsp, p) ↦
          let b : App = record a { last_response = rsp.success } in
          elim (Option-cases (handle_response b c rsp)) [
            | inl q ↦ rw (e, parse_response, p, q) tt
            | inr (a', q) ↦
                rw (e, parse_response, p, q) (subst GoodIn q (handle_response-GoodIn b c rsp g))
          ]
    ]
  ]

  response_loop-StepGood :
      (fuel : ℕ) (a : App) (c : ℕ)
      → c < a.world.client_count
      → Good a.world
      → StepGood (response_loop fuel a c)
  unfolding response_loop ParsedGood
  response_loop-StepGood zero a c l g = g
  response_loop-StepGood (suc fuel) a c l g =
      elim (Bool-cases
        ((a.world.clients c).inbuffer.buffer_start == (a.world.clients c).inbuffer.buffer_end)) [
          | inl e ↦ rw (e, response_loop) g
          | inr e ↦
              let bytes = contents (a.world.clients c).inbuffer in
              elim (parse_response-reads laws a c bytes l) [
                | inl p ↦ rw (e, response_loop, p) tt
                | inr (r, p, reads, (kept, more)) ↦
                    let g1 = subst ParsedGood p (parse_response-ParsedGood a c bytes g) in
                    elim (Bool-cases (r.1 == 0 || r.0.exited)) [
                      | inl z ↦ rw (e, response_loop, p, z) g1
                      | inr z ↦
                          let w = r.0.world in
                          let fits : r.1 ≤ length (contents (w.clients c).inbuffer) =
                            subst (λ (b : Buffer). r.1 ≤ length (contents b)) (sym kept) reads in
                          rw (e, response_loop, p, z)
                            (response_loop-StepGood fuel (with_world r.0 (consume w c r.1)) c
                              (count_consume w c r.1 (omega arith)) (consume-Good w c r.1 fits g1))
                    ]
              ]
        ]

  parse_responses-GoodIn :
      (a : App) (c : ℕ) → c < a.world.client_count → Good a.world → GoodIn (parse_responses a c)
  unfolding parse_responses
  parse_responses-GoodIn a c l g =
      let fuel = suc (length (contents (a.world.clients c).inbuffer)) in
      elim (Option-cases (response_loop fuel a c)) [
        | inl e ↦ rw e tt
        | inr (r, e) ↦ rw e (subst StepGood e (response_loop-StepGood fuel a c l g))
      ]

  receive_responses-GoodIn :
      (a : App) (c : ℕ) (r : Recv)
      → RecvFits (a.world.clients c).inbuffer r
      → c < a.world.client_count
      → Good a.world
      → GoodIn (receive_responses a c r)
  unfolding receive_responses put_inbuffer
  receive_responses-GoodIn a c (arrived []) h l g = close_peer-Good _ c (
      put_inbuffer-Good a.world c _
        (prepare_receive_lem (a.world.clients c).inbuffer (g.0.clients c).1).0 g)
  receive_responses-GoodIn a c (arrived (x ∷ xs)) h l g = parse_responses-GoodIn _ c l (
      put_inbuffer-Good a.world c _
        (received_lem (x ∷ xs) (a.world.clients c).inbuffer (g.0.clients c).1 h).0 g)
  receive_responses-GoodIn a c failed h l g =
      let b = prepare_receive (a.world.clients c).inbuffer in
      if-keeps GoodIn (b.buffer_end == 0) _ _ tt (
        parse_responses-GoodIn _ c l (
          put_inbuffer-Good a.world c _
            (back_one b (prepare_receive_lem (a.world.clients c).inbuffer (g.0.clients c).1).0
              (prepare_receive-start (a.world.clients c).inbuffer))
            g))

  handle_peer-StepGood :
      (a : App) (e : Event)
      → FitsPeer a.world (pick_client a.world e.fd) e
      → Good a.world
      → StepGood (handle_peer a e)
  unfolding handle_peer
  handle_peer-StepGood a e h g = elim (Option-cases (pick_client a.world e.fd)) [
    | inl p ↦
        rw (p, handle_peer)
          (if-keeps StepGood e.readable _ _ g (if-keeps StepGood e.writable _ _ g g))
    | inr (j, p) ↦
        let (fits, own) = subst (λ o. FitsPeer a.world o e) p h in
        let c = slot a.world j in
        rw (p, handle_peer)
          (if-keeps StepGood e.readable _ _
            (bind-StepGood _ false
              (receive_responses-GoodIn a c e.recv fits (slot_below a.world j g) g))
            (if-keeps StepGood e.writable _ _ (send_outbuffer-Good a.world c e.sent_own own g) g))
  ]

  pub handle_client_event-StepGood :
      (masterfd : ℕ) (a : App) (e : Event)
      → FitsPeer a.world (pick_client a.world e.fd) e
      → Good a.world
      → StepGood (handle_client_event masterfd a e)
  unfolding handle_client_event
  handle_client_event-StepGood masterfd a e h g =
      if-keeps StepGood e.hangup _ _ (hangup_lem (pick_client a.world e.fd)) (
        if-keeps StepGood (e.fd == masterfd) _ _ (accepted_lem e.accepted)
          (handle_peer-StepGood a e h g))
    where
      hangup_lem :
          (o : Option ℕ)
          → StepGood (elim o as (λ x. Option (App × Bool)) [
            | none ↦ some (a, false)
            | some j ↦ some (close_peer a (slot a.world j), true)
          ])
      hangup_lem none = g
      hangup_lem (some j) = close_peer-Good a (slot a.world j) g

      accepted_lem :
          (o : Option (ℕ × Address))
          → StepGood (elim o as (λ x. Option (App × Bool)) [
            | none ↦ some (a, true)
            | some (sockfd, addr) ↦ accept_peer a sockfd addr >>= λ a'. some (a', true)
          ])
      accepted_lem none = g
      accepted_lem (some (sockfd, addr)) = bind-StepGood _ true (accept_peer-GoodIn a sockfd addr g)

-- ===== src/ClientApp/Talk/Opening.antt =====
-- How a private session opens: the server's answer to "startprivate", the connection to the peer,
-- and the registration that the peer gets.
use epoll_chat.Common.{
  ℕ, ◌<◌, ◌^◌, ◌≡◌, refl, ap, ap₂, replicate, append-nil, length-append, sym, subst, ◌∙◌, true,
  List, [], ◌∷◌, ◌++◌, Text, Option, some, length, arith,
}
use epoll_chat.Protobuf.{Protobuf, ProtobufLaws, c_string}
use epoll_chat.Proto.ImResponse
use epoll_chat.Proto.ImResponse.{ImResponse}
use epoll_chat.Proto.GetIpResponse
use epoll_chat.Proto.GetIpResponse.{GetIpResponse}
use epoll_chat.Proto.PrivateRegistrationResponse
use epoll_chat.Buffer.{contents, init_buffer, out_buffer_default_size}
use epoll_chat.Buffer.Queue.{IsValid, init_buffer-IsValid}
use epoll_chat.World.{World, Address, sockaddr_bytes}
use epoll_chat.Delivery.Queues.{queue}
use epoll_chat.Server.Talk.{address_response}
use epoll_chat.ClientApp.{App, Os, my_name}
use epoll_chat.ClientApp.Session.{accept_peer}
use epoll_chat.ClientApp.Peers.{
  parse_response, handle_response, parse_sockaddr, dial, start_session_with, registered_by,
  private_registration,
}
use epoll_chat.ClientApp.Peers.Addresses.{parse_sockaddr-sockaddr_bytes}
use epoll_chat.ClientApp.Peers.Texts.{parse_response-envelope}
use epoll_chat.ClientApp.Talk.Links.{
  registered_by-SessionOpen, start_session_with-SessionOpen, queue-start_session_with, IsNew, NewOf,
  accept_peer-NewOf, SessionOpen,
}

module _ ⦃os : Os⦄ ⦃pb : Protobuf⦄ where
  -- The server's answer, handled where the connection to the peer is made.
  handle_address :
      (a a1 : App) (s sock : ℕ) (ds : List (Option ℕ)) (gr : GetIpResponse) (addr : Address)
      (rsp : ImResponse)
      → rsp.type ≡ 3
      → GetIpResponse.of_bytes rsp.value ≡ some gr
      → parse_sockaddr gr.addr ≡ some addr
      → a.dials ≡ some sock ∷ ds
      → accept_peer (record a { dials = ds }) sock addr ≡ some a1
      → handle_response a s rsp
        ≡ some (start_session_with a1 a.world.client_count (c_string gr.username))
  unfolding handle_response dial
  handle_address a a1 s sock ds gr addr rsp t e p d q = rw (t, e, p, d, q) refl

  handle_registration :
      (b : App) (d : ℕ) (name : Text) (rsp : ImResponse)
      → rsp.type ≡ 4
      → PrivateRegistrationResponse.of_bytes rsp.value ≡ some (record { username = name })
      → handle_response b d rsp ≡ some (registered_by b d (c_string name))
  unfolding handle_response
  handle_registration b d name rsp t e = rw (t, e) refl

length-sockaddr_bytes : (addr : Address) → length addr.ip ≡ 4 → length (sockaddr_bytes addr) ≡ 16
unfolding sockaddr_bytes
length-sockaddr_bytes addr h = omega (arith, length-append addr.ip (replicate 8 0))

contents-init_buffer : contents (init_buffer out_buffer_default_size) ≡ []
unfolding init_buffer
contents-init_buffer = refl

-- What the server sends for a peer at an address.
abbrev pub ip_response : World → Text → ℕ → GetIpResponse
ip_response w peer cl = record { username = peer; addr = sockaddr_bytes (w.clients cl).addr }

module _ ⦃os : Os⦄ ⦃pb : Protobuf⦄ (laws : ProtobufLaws pb) where
  answer-parsed :
      (w : World) (cl : ℕ) (a a1 : App) (s sock : ℕ) (ds : List (Option ℕ)) (peer rest : Text)
      → length (w.clients cl).addr.ip ≡ 4
      → length peer < 2 ^ 31
      → length (GetIpResponse.to_bytes (ip_response w peer cl)) < 2 ^ 31
      → a.dials ≡ some sock ∷ ds
      → accept_peer (record a { last_response = true; dials = ds }) sock (w.clients cl).addr
        ≡ some a1
      → parse_response a s (ImResponse.to_bytes (address_response w peer cl) ++ rest)
        ≡ some (
          start_session_with a1 a.world.client_count (c_string peer),
          length (ImResponse.to_bytes (address_response w peer cl)),
        )
  unfolding address_response
  answer-parsed w cl a a1 s sock ds peer rest h l k d q =
      parse_response-envelope laws a s (address_response w peer cl) rest (omega arith)
      ∙ rw
          (handle_address (record a { last_response = true }) a1 s sock ds (ip_response w peer cl)
            (w.clients cl).addr (address_response w peer cl) refl
            (GetIpResponse.of_bytes-to_bytes laws (ip_response w peer cl)
              (omega (arith, length-sockaddr_bytes (w.clients cl).addr h)))
            (ap parse_sockaddr (sym (append-nil (sockaddr_bytes (w.clients cl).addr)))
              ∙ parse_sockaddr-sockaddr_bytes (w.clients cl).addr [] h)
            d q)
          refl

  registration-parsed :
      (a b : App) (d : ℕ) (rest : Text)
      → length (my_name a) < 2 ^ 31
      → length (PrivateRegistrationResponse.to_bytes (record { username = my_name a })) < 2 ^ 31
      → parse_response b d (ImResponse.to_bytes (private_registration a) ++ rest)
        ≡ some (
          registered_by (record b { last_response = true }) d (c_string (my_name a)),
          length (ImResponse.to_bytes (private_registration a)),
        )
  unfolding private_registration
  registration-parsed a b d rest l k =
      parse_response-envelope laws b d (private_registration a) rest (omega arith)
      ∙ rw
          (handle_registration (record b { last_response = true }) d (my_name a)
            (private_registration a) refl
            (PrivateRegistrationResponse.of_bytes-to_bytes laws (record { username = my_name a })
              l))
          refl

  registration-named :
      (a1 a : App) → my_name a1 ≡ my_name a → private_registration a1 ≡ private_registration a
  unfolding private_registration
  registration-named a1 a e = rw e refl

  -- A private session opens at both ends. When the server's answer to "startprivate" for a peer at
  -- an address of four bytes arrives, connect succeeds and the table of connections is not overrun,
  -- the client parses the answer, whatever stands behind it, and then finds the peer by its name
  -- with the new connection, whose user is the peer, and only the registration waits to be sent
  -- there; the peer that gets it parses it, and finds the client by its user's name with the
  -- connection it came from, whose user is that user; and pm_close_connection is set at both. The
  -- names have no zero byte, the messages fit in the wire format, and the codec keeps the laws.
  pub session-opens :
      (w : World) (cl : ℕ) (a a1 b : App) (s sock d : ℕ) (ds : List (Option ℕ)) (peer : Text)
      → length (w.clients cl).addr.ip ≡ 4
      → a.dials ≡ some sock ∷ ds
      → accept_peer (record a { last_response = true; dials = ds }) sock (w.clients cl).addr
        ≡ some a1
      → c_string peer ≡ peer
      → c_string (my_name a) ≡ my_name a
      → length peer < 2 ^ 31
      → length (my_name a) < 2 ^ 31
      → length (GetIpResponse.to_bytes (ip_response w peer cl)) < 2 ^ 31
      → length (PrivateRegistrationResponse.to_bytes (record { username = my_name a })) < 2 ^ 31
      → (a' b' : App) × (bytes : Text) × ((rest : Text)
          → parse_response a s (ImResponse.to_bytes (address_response w peer cl) ++ rest)
            ≡ some (a', length (ImResponse.to_bytes (address_response w peer cl))))
        × SessionOpen a' peer a.world.client_count
        × (queue a'.world a.world.client_count ≡ bytes)
        × ((rest : Text) → parse_response b d (bytes ++ rest) ≡ some (b', length bytes))
        × SessionOpen b' (my_name a) d
  session-opens w cl a a1 b s sock d ds peer h dl q zp zm lp lm k1 k2 =
      let n = a.world.client_count in
      let asked : App = record a { last_response = true; dials = ds } in
      let new : IsNew asked a1 =
        subst (NewOf asked) q (accept_peer-NewOf asked sock (w.clients cl).addr) in
      (
        start_session_with a1 n (c_string peer),
        registered_by (record b { last_response = true }) d (c_string (my_name a)),
        ImResponse.to_bytes (private_registration a),
        λ rest. answer-parsed w cl a a1 s sock ds peer rest h lp k1 dl q,
        subst (λ p. SessionOpen (start_session_with a1 n (c_string peer)) p n) zp
            (start_session_with-SessionOpen a1 n (c_string peer)),
        queue-start_session_with a1 n (c_string peer) (
              subst IsValid (sym new.empty)
                (init_buffer-IsValid out_buffer_default_size (omega arith)))
            ∙ ap₂ ◌++◌ (ap contents new.empty ∙ contents-init_buffer)
                (ap ImResponse.to_bytes (registration-named a1 a new.named)),
        λ rest. registration-parsed a b d rest lm k2,
        subst
            (λ p.
              SessionOpen
                (registered_by (record b { last_response = true }) d (c_string (my_name a))) p d)
            zm
            (registered_by-SessionOpen (record b { last_response = true }) d
              (c_string (my_name a))),
      )

-- ===== src/Tests/Requests.antt =====
-- Requests in their envelopes, and a round of events.
use epoll_chat.Common.{
  ◌≡◌, refl, ◌<◌, ◌^◌, true, false, [], ◌∷◌, ◌++◌, none, some, codes, arith, length,
}
use epoll_chat.Protobuf.{sample, sample_laws, put, put_value}
use epoll_chat.Proto.ImRequest
use epoll_chat.Proto.BlockRequest
use epoll_chat.Delivery.{is_logged_in}
use epoll_chat.Server.Accounts.{not_logged_in}
use epoll_chat.Server.Guards.{run-refused}
use epoll_chat.Server.Dispatch.{Request, Recv, run, touch, parse_command}
use epoll_chat.Server.Loop.{Event, Sent}
use epoll_chat.Server.Requests.{payload, envelope, parse_command-envelope}
use epoll_chat.Tests.Data.{offline, bob, online}

abbrev block_bob : Request
block_bob = Request.block (record { username = bob })

block_bob_small : length (payload block_bob) < 2 ^ 31
unfolding payload BlockRequest.to_bytes BlockRequest.to_msg put put_value
block_bob_small = omega arith

parse_command-envelope_example :
    parse_command online 0 (ImRequest.to_bytes (envelope block_bob) ++ codes "more")
    ≡ some (
      touch (run online 0 block_bob).0 0,
      length (ImRequest.to_bytes (envelope block_bob)),
      (run online 0 block_bob).1,
    )
parse_command-envelope_example =
    parse_command-envelope sample_laws online 0 block_bob (codes "more") (omega arith)
      block_bob_small

nobody_at_0 : is_logged_in offline (offline.clients 0).user ≡ false
unfolding is_logged_in
nobody_at_0 = refl

run-refused_example : run offline 0 block_bob ≡ not_logged_in offline
run-refused_example = run-refused offline 0 block_bob nobody_at_0 refl

-- The peer of client 0 has closed its end.
abbrev end_of_stream : Event
end_of_stream = record {
  fd = 10;
  hangup = false;
  readable = true;
  writable = false;
  accepted = none;
  recv = Recv.arrived [];
  sent_own = Sent.taken 0;
  sent_user = Sent.taken 0;
}

-- A connection comes in on the master socket.
abbrev pub incoming : Event
incoming = record end_of_stream {
  fd = 3;
  accepted = some (12, record { ip = 127 ∷ 0 ∷ 0 ∷ 1 ∷ []; sin_port = 5001 });
}

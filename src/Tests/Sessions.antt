-- ===== src/Tests/Sessions.antt =====
-- Logins, closed connections, the sweep and the table of clients.
use epoll_chat.Common.{
  ℕ, ◌≡◌, refl, ◌≢◌, ◌≤◌, true, [], ◌∷◌, some, if◌then◌else◌, ◌==◌, arith, contains, length,
}
use epoll_chat.Common.Int.{◌+ℤ◌, int32, InInt}
use epoll_chat.Protobuf.{sample, c_string}
use epoll_chat.Proto.LoginRequest.{LoginRequest}
use epoll_chat.Trie.{find_node, modify_node}
use epoll_chat.World.{World, Address}
use epoll_chat.Delivery.{is_user_logged_in}
use epoll_chat.Auth.{find_user, login, login_user, success}
use epoll_chat.Server.Accounts.{cmd_login}
use epoll_chat.Server.Connection.{
  accept_client, close_socket, pick_client, find_slot, max_clients, im_connection_accept,
}
use epoll_chat.Server.Loop.{time_thread}
use epoll_chat.Server.Links.{Linked}
use epoll_chat.Server.Sessions.{time_thread_lem}
use epoll_chat.Server.Logins.{
  cmd_login-Linked, second_login_unlinks, takeover_keeps_both, close_socket_lem,
}
use epoll_chat.Server.Online.{cmd_login-online}
use epoll_chat.Server.Table.{client_of, AllBelow, accept_client_lem}
use epoll_chat.Tests.Data.{alice, bob, pairs, offline, online, expired, alice_alone}

pairs-Linked :
    (w : World)
    → ((u : ℕ) → (w.users u).client ≡ pairs u)
    → ((c : ℕ) → (w.clients c).user ≡ pairs c)
    → Linked w
pairs-Linked w h k = record {
  to_user = λ u c e. ground (arith, h u, k c);
  to_client = λ u c e. ground (arith, h u, k c);
}

nobody-Linked : Linked offline
nobody-Linked = record {
  to_user = λ u c e. absurd (ground arith);
  to_client = λ u c e. absurd (ground arith);
}

time_thread_lem_example :
    Linked (time_thread expired)
    × ((c u : ℕ)
        → contains (time_thread expired).slots c ≡ true
        → ((time_thread expired).clients c).user ≡ some u
        → is_user_logged_in (time_thread expired) u ≡ true)
time_thread_lem_example = time_thread_lem expired (pairs-Linked expired (λ u. refl) (λ c. refl))

close_socket_lem_example :
    Linked (close_socket online 0) × ((u : ℕ) → ((close_socket online 0).users u).client ≢ some 0)
close_socket_lem_example = close_socket_lem online 0 (pairs-Linked online (λ u. refl) (λ c. refl))

abbrev as_alice : LoginRequest
as_alice = record { username = alice; password = alice; port = 6000 }

abbrev as_bob : LoginRequest
as_bob = record { username = bob; password = bob; port = 6000 }

cmd_login-Linked_example : Linked (cmd_login offline 0 as_alice).0
cmd_login-Linked_example = cmd_login-Linked offline 0 as_alice refl (λ u e. refl) nobody-Linked

bob_named : find_user alice_alone (c_string bob) ≡ some 1
unfolding find_user find_node modify_node c_string
bob_named = refl

bob_logs_in : (login alice_alone (c_string bob) (c_string bob)).1 ≡ success
unfolding login login_user find_user find_node modify_node c_string is_user_logged_in
bob_logs_in = refl

second_login_unlinks_example :
    let w' = (cmd_login alice_alone 0 as_bob).0 in
    ((w'.users 0).client ≡ some 0)
    × ((w'.users 1).client ≡ some 0)
    × ((w'.clients 0).user ≡ some 1)
    × ¬ Linked w'
second_login_unlinks_example =
    second_login_unlinks alice_alone 0 1 0 as_bob bob_named bob_logs_in (omega arith) refl

-- The sessions of both users ran out; alice logs in from a third connection.
alice_named : find_user expired (c_string alice) ≡ some 0
unfolding find_user find_node modify_node c_string
alice_named = refl

alice_logs_in : (login expired (c_string alice) (c_string alice)).1 ≡ success
unfolding login login_user find_user find_node modify_node c_string is_user_logged_in ◌+ℤ◌ int32
alice_logs_in = refl

takeover_keeps_both_example :
    let w' = (cmd_login expired 2 as_alice).0 in
    ((w'.clients 0).user ≡ some 0) × ((w'.clients 2).user ≡ some 0) × ¬ Linked w'
takeover_keeps_both_example =
    takeover_keeps_both expired 2 0 0 as_alice alice_named alice_logs_in (omega arith) refl

session_end : InInt (expired.now +ℤ expired.db.login_timeout)
unfolding ◌+ℤ◌
session_end = omega arith

cmd_login-online_example :
    let w' = (cmd_login expired 2 as_alice).0 in
    (is_user_logged_in w' 0 ≡ true)
    × ((w'.users 0).client ≡ some 2)
    × ((w'.clients 2).user ≡ some 0)
cmd_login-online_example =
    cmd_login-online expired 2 0 as_alice (omega arith) session_end alice_named alice_logs_in

abbrev local_address : Address
local_address = record { ip = 127 ∷ 0 ∷ 0 ∷ 1 ∷ []; sin_port = 5001 }

-- The table after one more connection.
abbrev three_clients : World
three_clients = record ((im_connection_accept online 12 local_address).0) { slots = 0 ∷ 1 ∷ 2 ∷ [] }

third_accepted : accept_client online 12 local_address ≡ some three_clients
unfolding accept_client im_connection_accept pick_client find_slot
third_accepted = refl

accept_client_lem_example :
    ((k : ℕ) → client_of three_clients k ≡ (if k == 12 then some 2 else client_of online k))
    × AllBelow three_clients.client_count three_clients.slots
    × (length three_clients.slots ≤ max_clients)
accept_client_lem_example =
    accept_client_lem online three_clients 12 local_address (omega arith) (omega arith)
      third_accepted

-- ===== src/Tests/Runs.antt =====
-- A run of the server and one of the client program, from their starts.
use epoll_chat.Common.{◌≡◌, refl, true, [], ◌∷◌, ◌++◌, Text, Option, none, some, codes, arith}
use epoll_chat.Common.Int.{pos}
use epoll_chat.Protobuf.{sample, sample_laws}
use epoll_chat.Proto.LoginRequest
use epoll_chat.World.{World, Address}
use epoll_chat.ClientApp.{App, Node, send_request, epoll_do_send_buffer}
use epoll_chat.ClientApp.Console.{login_round}
use epoll_chat.ClientApp.Console.Runs.{begin, then_step, logs_in, ClientRun-Sound}
use epoll_chat.ClientApp.Network.{client_start}
use epoll_chat.Tests.Clients.{willing}
use epoll_chat.Server.Connection.{im_connection_accept}
use epoll_chat.Server.Loop.{handle_event}
use epoll_chat.Server.Start.{server_start}
use epoll_chat.Server.Changes.Sound.{Sound}
use epoll_chat.Server.Changes.Reach.{Reach, start, more, event, tick, FitsClient}
use epoll_chat.Server.Changes.Starting.{reachable-Sound}
use epoll_chat.Tests.Data.{alice, bob}
use epoll_chat.Tests.Requests.{incoming}

abbrev first_state : World
first_state =
    server_start 3 (pos 100) (codes "60") (codes "300") [] (alice ∷ alice ∷ bob ∷ bob ∷ [])

-- A second later.
abbrev later : World
later = record first_state { now = pos 101 }

-- With the first connection.
abbrev connected : World
connected =
    let w =
      (im_connection_accept later 12 (record { ip = 127 ∷ 0 ∷ 0 ∷ 1 ∷ []; sin_port = 5001 })).0 in
    record w { slots = later.client_count ∷ [] }

accept_lem : handle_event 3 later incoming ≡ some (connected, true)
unfolding handle_event epoll_chat.Server.Connection.accept_client im_connection_accept
    epoll_chat.Server.Connection.pick_client epoll_chat.Server.Connection.find_slot server_start
    epoll_chat.Auth.build_user_db epoll_chat.Auth.add_user
accept_lem = refl

fits : FitsClient later (epoll_chat.Server.Connection.pick_client later 3) incoming
unfolding epoll_chat.Server.Connection.pick_client epoll_chat.Server.Connection.find_slot
    server_start epoll_chat.Auth.build_user_db epoll_chat.Auth.add_user
fits = tt

one_run : Reach 3 first_state connected
unfolding server_start epoll_chat.Auth.build_user_db epoll_chat.Auth.add_user
one_run = more (more start (tick (pos 101) (omega arith))) (event incoming true fits accept_lem)

reachable-Sound_example : Sound connected
reachable-Sound_example =
    reachable-Sound sample_laws 3 (pos 100) (codes "60") (codes "300") []
      (alice ∷ alice ∷ bob ∷ bob ∷ []) connected one_run

abbrev server_address : Address
server_address = record { ip = 127 ∷ 0 ∷ 0 ∷ 1 ∷ []; sin_port = 5000 }

abbrev no_files : Text → Option Node
no_files path = none

abbrev first_app : App
first_app =
    client_start (pos 100) 3 4 server_address 4000 (codes "data") no_files []
      (codes "alice" ++ (10 ∷ (codes "secret" ++ (10 ∷ []))))

-- Behind the questions for the name and the password.
abbrev answered : App
answered = record first_app {
  stdin = [];
  printed = codes "Password: " ∷ codes "Username: " ∷ first_app.printed;
  logged_in_user_name = some alice;
}

-- With the request.
abbrev asked : App
asked = epoll_do_send_buffer (
    send_request answered 0 (record {
      type = 1;
      value =
          LoginRequest.to_bytes
            (record { username = alice; password = codes "secret"; port = 4000 });
    }))

login_lem : login_round first_app ≡ some (asked, true)
unfolding login_round epoll_chat.ClientApp.Console.got_command
    epoll_chat.ClientApp.Console.parse_line epoll_chat.ClientApp.Console.find_entry
    epoll_chat.ClientApp.Console.run_entry epoll_chat.ClientApp.Console.send_made
    epoll_chat.ClientApp.Commands.cmd_login_impl epoll_chat.ClientApp.Commands.login_name
    epoll_chat.ClientApp.Commands.ask epoll_chat.Libc.fgets epoll_chat.Libc.read_line
    epoll_chat.Libc.chop epoll_chat.Protobuf.c_string client_start im_connection_accept
login_lem = refl

ClientRun-Sound_example : Sound asked.world
ClientRun-Sound_example =
    ClientRun-Sound sample_laws (pos 100) 3 4 server_address 4000 (codes "data") no_files []
      (codes "alice" ++ (10 ∷ (codes "secret" ++ (10 ∷ [])))) asked
      (then_step begin (logs_in true login_lem))

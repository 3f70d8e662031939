-- ===== src/ClientApp/Console/Runs.antt =====
-- Whole runs of the client program from its start: the events of network_thread, the rounds of
-- input_thread, and the clock, in any order.
use epoll_chat.Common.{
  ℕ, ◌≡◌, subst, inl, inr, Bool, List, Text, Option, none, some, if-keeps, arith, Option-cases,
  Bool-cases, codes, ◌==◌,
}
use epoll_chat.Common.Int.{ℤ, ◌≤ℤ◌}
use epoll_chat.Protobuf.{Protobuf, ProtobufLaws, c_string}
use epoll_chat.Proto.ImRequest.{ImRequest}
use epoll_chat.Libc.{fgets, chop}
use epoll_chat.Buffer.{out_buffer_default_size, msg_limit}
use epoll_chat.Buffer.Queue.{init_buffer-IsValid}
use epoll_chat.World.{Address}
use epoll_chat.Server.Connection.{pick_client, im_connection_accept}
use epoll_chat.Server.Loop.{Event}
use epoll_chat.Server.Changes.Sound.{Sound}
use epoll_chat.ClientApp.{App, Os, Node, with_world, server_client, epoll_do_send_buffer}
use epoll_chat.ClientApp.Console.{
  Entry, login, message, broadcast, block, unblock, logout, whoelsesince, whoelse, startprivate,
  private, stopprivate, regfile, searchfile, searchchunk, find_entry, enabled_entries, run_entry,
  send_made, parse_line, got_command, login_round, input_round, max_command,
}
use epoll_chat.ClientApp.Console.Sound.{
  GoodOut, login-GoodOut, message-GoodOut, searchchunk-GoodOut, private-GoodOut,
  stopprivate-GoodOut,
}
use epoll_chat.ClientApp.RegFile.Dialogue.{regfile-GoodOut}
use epoll_chat.ClientApp.Network.{handle_client_event, client_start}
use epoll_chat.ClientApp.Network.Sound.{
  Good, GoodIn, bind-GoodIn, Change-Good, send_request-Change, epoll_do_send_buffer-Change,
}
use epoll_chat.ClientApp.Network.Events.{FitsPeer, StepGood, handle_client_event-StepGood}

module _ ⦃os : Os⦄ ⦃pb : Protobuf⦄ where
  run_entry-GoodOut :
      (a : App) (k : Entry) (req : Text) → Good a.world → GoodOut (run_entry a k req)
  unfolding run_entry epoll_chat.ClientApp.Commands.cmd_logout_impl
      epoll_chat.ClientApp.Commands.cmd_broadcast_impl epoll_chat.ClientApp.Commands.cmd_block_impl
      epoll_chat.ClientApp.Commands.cmd_unblock_impl epoll_chat.ClientApp.Commands.cmd_whoelse_impl
      epoll_chat.ClientApp.Commands.cmd_whoelsesince_impl
      epoll_chat.ClientApp.Commands.cmd_startprivate_impl
      epoll_chat.ClientApp.Commands.cmd_searchfile_impl
  run_entry-GoodOut a login req g = login-GoodOut a req g
  run_entry-GoodOut a message req g = message-GoodOut a req g
  run_entry-GoodOut a broadcast req g = g
  run_entry-GoodOut a block req g = g
  run_entry-GoodOut a unblock req g = g
  run_entry-GoodOut a logout req g = g
  run_entry-GoodOut a whoelsesince req g = g
  run_entry-GoodOut a whoelse req g = g
  run_entry-GoodOut a startprivate req g = g
  run_entry-GoodOut a private req g = private-GoodOut a req g
  run_entry-GoodOut a stopprivate req g = stopprivate-GoodOut a req g
  run_entry-GoodOut a regfile req g = regfile-GoodOut a req g
  run_entry-GoodOut a searchfile req g = g
  run_entry-GoodOut a searchchunk req g = searchchunk-GoodOut a req g

  send_made-Good : (a : App) (r : Option ImRequest) → Good a.world → Good (send_made a r).world
  unfolding send_made
  send_made-Good a none g = g
  send_made-Good a (some req) g = Change-Good (send_request-Change a (server_client a) req) g

  got_command-GoodIn : (a : App) (line : Text) → Good a.world → GoodIn (got_command a line)
  unfolding got_command parse_line
  got_command-GoodIn a line g = elim (Option-cases (find_entry line enabled_entries)) [
    | inl e ↦ rw (e, parse_line) (Change-Good (epoll_do_send_buffer-Change a) g)
    | inr (k, e) ↦ elim (Option-cases (run_entry a k line)) [
      | inl q ↦ rw (e, parse_line, q) tt
      | inr (r, q) ↦
          rw (e, parse_line, q)
            (Change-Good (epoll_do_send_buffer-Change (send_made r.0 r.1))
              (send_made-Good r.0 r.1 (subst GoodOut q (run_entry-GoodOut a k line g))))
    ]
  ]

  login_round-StepGood : (a : App) → Good a.world → StepGood (login_round a)
  unfolding login_round
  login_round-StepGood a g =
      if-keeps StepGood a.last_response _ _ g (elim (Option-cases (got_command a (codes "login"))) [
        | inl e ↦ rw e tt
        | inr (a', e) ↦ rw e (subst GoodIn e (got_command-GoodIn a (codes "login") g))
      ])

  input_round-GoodIn : (a : App) → Good a.world → GoodIn (input_round a)
  unfolding input_round
  input_round-GoodIn a g = bind-GoodIn (fgets max_command a.stdin) _ λ r.
      bind-GoodIn (chop (c_string r.0)) _ λ buf. got_command-GoodIn (record a { stdin = r.1 }) buf g

  -- A step of the client program, whose listening socket is `masterfd`.
  pub data ClientStep (masterfd : ℕ) : App → App → Type 0 where
    happens :
        {a a' : App} (e : Event) (goes_on : Bool)
        → FitsPeer a.world (pick_client a.world e.fd) e
        → handle_client_event masterfd a e ≡ some (a', goes_on)
        → ClientStep masterfd a a'
    logs_in :
        {a a' : App} (goes_on : Bool)
        → login_round a ≡ some (a', goes_on)
        → ClientStep masterfd a a'
    types : {a a' : App} → input_round a ≡ some a' → ClientStep masterfd a a'
    passes :
        {a : App} (now : ℤ)
        → a.world.now ≤ℤ now
        → ClientStep masterfd a (with_world a (record a.world { now = now }))

  -- A run: steps one after the other.
  pub data ClientRun (masterfd : ℕ) : App → App → Type 0 where
    begin : {a : App} → ClientRun masterfd a a
    then_step :
        {a b c : App} → ClientRun masterfd a b → ClientStep masterfd b c → ClientRun masterfd a c

start-Good :
    (now : ℤ) (masterfd sock : ℕ) (addr : Address) (port : ℕ) (datapath : Text)
    (files : Text → Option Node) (dials : List (Option ℕ)) (stdin : Text)
    → Good (client_start now masterfd sock addr port datapath files dials stdin).world
unfolding client_start im_connection_accept
start-Good now masterfd sock addr port datapath files dials stdin = (
  record {
    clients = λ c. elim (Bool-cases (c == 0)) [
      | inl e ↦ rw e (
        init_buffer-IsValid out_buffer_default_size (omega arith),
        init_buffer-IsValid msg_limit (omega arith),
      )
      | inr e ↦ rw e (
        init_buffer-IsValid out_buffer_default_size (omega arith),
        init_buffer-IsValid msg_limit (omega arith),
      )
    ];
    users = λ u. (init_buffer-IsValid out_buffer_default_size (omega arith), tt);
    allocated = (omega arith, tt);
    room = omega arith;
  },
  omega arith,
)

module _ ⦃os : Os⦄ ⦃pb : Protobuf⦄ (laws : ProtobufLaws pb) where
  ClientStep-Good :
      (masterfd : ℕ) {a a' : App} → ClientStep masterfd a a' → Good a.world → Good a'.world
  ClientStep-Good masterfd {a = a} (happens e goes_on h eq) g =
      subst StepGood eq (handle_client_event-StepGood laws masterfd a e h g)
  ClientStep-Good masterfd {a = a} (logs_in goes_on eq) g =
      subst StepGood eq (login_round-StepGood a g)
  ClientStep-Good masterfd {a = a} (types eq) g = subst GoodIn eq (input_round-GoodIn a g)
  ClientStep-Good masterfd (passes now l) (s, k) =
      (record { clients = s.clients; users = s.users; allocated = s.allocated; room = s.room }, k)

  ClientRun-Good :
      (masterfd : ℕ) (a a' : App) → ClientRun masterfd a a' → Good a.world → Good a'.world
  ClientRun-Good masterfd a a' begin g = g
  ClientRun-Good masterfd a a' (then_step r step) g =
      ClientStep-Good masterfd step (ClientRun-Good masterfd a _ r g)

  -- Every state that the client program reaches from its start is sound: whatever the server and
  -- the peers send, in whatever pieces, whatever is typed and whatever the files are, and in
  -- whatever order events, logins, lines and the clock follow each other, all buffers are valid, no
  -- user has a user blocked twice, and the table has at most 256 connections, all of them made. No
  -- step is a fault, recv and send return what they can, and the codec keeps the laws.
  pub ClientRun-Sound :
      (now : ℤ) (masterfd sock : ℕ) (addr : Address) (port : ℕ) (datapath : Text)
      (files : Text → Option Node) (dials : List (Option ℕ)) (stdin : Text) (a : App)
      → ClientRun masterfd (client_start now masterfd sock addr port datapath files dials stdin) a
      → Sound a.world
  ClientRun-Sound now masterfd sock addr port datapath files dials stdin a r =
      (ClientRun-Good masterfd _ a r
        (start-Good now masterfd sock addr port datapath files dials stdin)).0

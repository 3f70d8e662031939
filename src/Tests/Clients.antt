-- ===== src/Tests/Clients.antt =====
-- Two client programs, and what their users type.
use epoll_chat.Common.{
  ℕ, ◌<◌, ◌^◌, ◌≡◌, refl, true, false, List, [], ◌++◌, Text, Option, none, some, if◌then◌else◌,
  codes, text_eq, length, arith, ◌==◌,
}
use epoll_chat.Common.Int.{pos}
use epoll_chat.Protobuf.{sample, sample_laws, put, put_value, c_string}
use epoll_chat.Proto.MessageRequest
use epoll_chat.Proto.TextResponse
use epoll_chat.Buffer.{contents}
use epoll_chat.World.{World}
use epoll_chat.Server.Dispatch.{run, touch, parse_command}
use epoll_chat.Server.Requests.{payload}
use epoll_chat.ClientApp.{App, Os, Files, regular, prints}
use epoll_chat.ClientApp.Private.{find_peer}
use epoll_chat.ClientApp.Console.{Entry, enabled_entries, find_entry, parse_line}
use epoll_chat.ClientApp.Console.Prefixes.{find_entry-prefix}
use epoll_chat.ClientApp.Console.Lines.{Line, meant}
use epoll_chat.ClientApp.Console.Typed.{to_server, typed-run}
use epoll_chat.ClientApp.Peers.{parse_response}
use epoll_chat.ClientApp.Talk.{Queued, private-shown}
use epoll_chat.Tests.Data.{alice, bob, online, pairs, two_users-BuffersValid, empty_buffer-IsValid}

-- A system that gives what it is asked for.
instance abbrev pub willing : Os
willing = record {
  can_read = λ files path. true;
  can_write = λ files path. true;
  can_make = λ files path. true;
  can_allocate = λ n. true;
  working_directory = codes "/home";
}

-- alice has chunk 0 of a file.
abbrev pub some_files : Files
some_files path = if text_eq path (codes "data/f/0") then some (regular (codes "abc")) else none

abbrev pub app_at : World → List (Option ℕ) → App
app_at w dials = record {
  world = w;
  close_prehooks = λ c. false;
  close_callbacks = λ c. c == 0;
  logged_in_user_name = some alice;
  listen_port = 4000;
  last_response = true;
  datapath = codes "data";
  files = some_files;
  dials = dials;
  stdin = [];
  printed = [];
  exited = false;
  server_closed = false;
}

abbrev pub app : App
app = app_at online []

abbrev hello : Line
hello = Line.message bob (codes "hello")

hello_small : length (payload (meant hello)) < 2 ^ 31
unfolding payload MessageRequest.to_bytes MessageRequest.to_msg put put_value
hello_small = omega arith

typed-run_example :
    (a' : App) × (bytes : Text) × (parse_line app (codes "message bob hello") ≡ some a')
    × (contents (to_server a') ≡ contents (to_server app) ++ bytes)
    × ((w : World) (c : ℕ) (rest : Text)
        → parse_command w c (bytes ++ rest)
          ≡ some (touch (run w c (meant hello)).0 c, length bytes, (run w c (meant hello)).1))
typed-run_example =
    typed-run sample_laws app hello refl (empty_buffer-IsValid 8192 (omega arith)) (omega arith)
      hello_small

find_entry-prefix_example :
    find_entry (codes "whoelse is here") enabled_entries ≡ some Entry.whoelse
find_entry-prefix_example = find_entry-prefix Entry.whoelse (codes " is here") refl

pub bob_found : find_peer online bob ≡ some (1, 1)
unfolding find_peer epoll_chat.Auth.find_user epoll_chat.Trie.find_node epoll_chat.Trie.modify_node
bob_found = refl

greeting_small :
    length (TextResponse.to_bytes (record { msg = codes "alice (private): hi" })) < 2 ^ 31
unfolding TextResponse.to_bytes TextResponse.to_msg put put_value
greeting_small = omega arith

private-shown_example :
    (a' : App) × (bytes : Text) × (parse_line app (codes "private bob hi") ≡ some a')
    × Queued app a' 1 bytes
    × ((rest : Text)
        → parse_response app 1 (bytes ++ rest)
          ≡ some (prints app (c_string (codes "alice (private): hi") ++ codes "\n"), length bytes))
private-shown_example =
    private-shown sample_laws app app bob (codes "hi") 1 1 1 refl bob_found refl
      (two_users-BuffersValid pairs pairs (pos 900)) (omega arith) greeting_small

-- ===== src/Lib.antt =====
-- The chat server: accounts, sessions, messages, shared files, and the loop that serves them; and
-- the client program: its command lines, and what it does with its server and with its peers.
--
-- The server keeps a table of users (lib/auth.c), a table of connected clients (server.c) and a
-- tree of registered files (lib/file.c). A client sends an IMRequest; the event loop puts its bytes
-- into the client's input buffer (lib/socket.c), parse_command takes the requests out of it one by
-- one (serverlib/command.c), and a command runs (serverlib/commands/). It changes the tables, and
-- answers by appending an IMResponse to the output buffer of a client, or to the buffer of a user
-- who is not online. When the socket takes output, the loop sends what the buffers hold. A second
-- thread logs out users whose time has run out.
--
-- The client program (client.c) turns lines of its standard input into IMRequests
-- (clientlib/command.c, clientlib/commands/) and shows the server's IMResponses. It also takes and
-- opens connections to peers, on which IMResponses go both ways: private messages and chunks of
-- files. It shares the buffers, the connections and the table of users with the server.
--
-- Modules:
--   Common: numbers, Boolean tests, lists, byte strings and integers that all parts use.
--   Protobuf: the message type, and the four functions of the ac_protobuf library as the fields of
--     the record Protobuf; ProtobufLaws says what is relied on: a field is found by its number, and
--     the decoders give back what the encoder wrote, and read no more than they are given.
--     Protobuf/Sample is a codec that meets the laws.
--   Proto: the messages of proto/, one module to a file X.pb.c: of_msg is parseXFromProtobufMsg,
--     of_bytes parseXFromBytes, to_msg encodeXToProtobufMsg and to_bytes encodeXToBytes.
--   Libc: strtol, atoi, fgets and sscanf with "%s %u", with the limits of long written out; Decimal
--     and Strtol show how they read what decimal digits print.
--   Buffer: im_buffer_t and what lib/buffer.c and lib/socket.c do to it; Queue and
--     Receive its view as a queue of bytes.
--   Trie: the trees of lib/auth.h and lib/file.h, with `child` as a function of the next byte.
--   World: the whole state. Users and clients are objects with an address, a number in the order of
--     allocation, so two pointers to one object are equal numbers; `slots` is clients[0..nclients-1],
--     `calls` the log of epoll_ctl, send and close.
--   Delivery: isUserLoggedIn, hasBlockedUser, lib/response.c and the sends of lib/socket.c.
--   Auth: lib/auth.c (login is `login`, logoutUser `logout_user`, and so on, in snake case).
--   Files: lib/file.c and the packed numbers of lib/socket.c; Values is the parser of numbers,
--     pack_repeated_uint32_from_str.
--   Server: Connection (pick_client, im_connection_accept, close_socket), Accounts, Talk and Sharing
--     (the ten cmd_*_impl), Dispatch (serverlib/command.c and im_receive_command), Loop (server.c);
--     the other modules under it hold proofs: Links, Sessions and Logins on the links between users
--     and clients, Requests on requests in their envelopes, Messages on the buffers, Search on
--     searchfile, Table on the table of clients, Rounds on a round of events, Input and Receive on the
--     input buffers, Output on what is sent, Guards on requests before a login, Online on the session
--     that a login starts. Start is main of server.c; Changes is the relation of one change of the
--     state to the next, with what each command, response and event changes (Commands, Reach), what
--     a change keeps (Sound), and the states from the start on (Starting).
--   ClientApp: the globals of client.c and its files; Names tells which paths name one file.
--     Session (close_socket with the hooks), Commands, Private and RegFile (the fourteen
--     cmd_*_impl of clientlib/commands/), Console (clientlib/command.c and input_thread), Peers
--     (parse_response, getChunkDataResponse, writeFile), Network (network_thread,
--     im_receive_command on parse_response, main); Talk and the modules under the others hold
--     proofs: Console/Lines has the command lines and what they ask for, Console/Runs has whole
--     runs of the program (on Sound and Events of Network, Sound of Console and Dialogue of
--     RegFile), Talk has runs of two client programs, one on each end of a connection.
--   Tests: concrete data and runs.
--
-- What stands in for the rest of the world: the results of accept, recv and send are arguments
-- (Event, Recv, Sent); `now` is what time(NULL) gives, and stands still while one event is handled;
-- the two threads of a program take turns by whole rounds, so the mutexes have no part, but for
-- loginlock, which lets the rounds of the login loop begin (login_round). The record Os tells which
-- files and directories of the client can be opened and made; its standard input is a list of
-- bytes. A fault (a NULL field of a message, a write past the table of clients, the end of a buffer
-- moved below its start) is `none`.
--
-- Bounds: sizes of buffers are natural numbers, as objects in memory keep sums and doubles of their
-- sizes below 2 ^ 64; times and durations are integers whose sums and differences wrap around in 32
-- bits where the code adds two int (int32; the overflow is undefined in C, and what compiled code
-- does); chunk numbers are uint32_t with their wrap-around written out (u32); ports are taken
-- modulo 65536.
-- The doubling of a capacity runs on fuel need + 1, enough as a positive capacity doubles at each
-- round (Buffer/Queue). receive_loop runs on fuel for one round to each byte of the input buffer and
-- one more, and tells by a flag whether the loop ended by itself; each round that goes on takes a
-- byte or more out of the buffer (Server/Receive).
-- The loops of the client program that ask again (confirm, choose_path) run on a round to each byte
-- of the input and one more, as each takes a byte or more; parse_values on a round to each byte of
-- the text (Files/Values); response_loop as receive_loop (ClientApp/Network/Receive).
--
-- Paths lead to files name by name from the working directory, with "." and "..": what is written is at
-- every path of the file. There are no links, and a path through a directory that is missing counts as
-- one that the system refuses to open.
--
-- Not modelled: the calls that set up sockets (listen_socket, make_socket_nonblocking), failures of
-- the calls of main, logging, the freeing of memory other than that of a replaced client (`freed`),
-- and the two threads of a program inside one round. Where the standard input of the client ends, the
-- code reads an array that was not written or loops for ever: the model has no result (`none`).
pub mod Common
pub mod Protobuf
pub mod Proto
pub mod Libc
pub mod Buffer
pub mod Trie
pub mod World
pub mod Delivery
pub mod Auth
pub mod Files
pub mod Server
pub mod ClientApp
pub mod Tests

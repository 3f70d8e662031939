-- ===== src/ClientApp/Commands.antt =====
-- clientlib/commands/*.c: the commands that make a request for the server. Each has the state, the
-- line typed, and gives the state and the request, NULL as `none` where it is rejected. `none` in
-- place of both is a fault, or the end of the input.
use epoll_chat.Common.{
  ℕ, Bool, true, false, [], ◌∷◌, ◌++◌, Text, Option, none, some, if◌then◌else◌, codes, drop, ◌==◌,
  decimal,
}
use epoll_chat.Common.Int.{ℤ, pos, negsuc, signed32}
use epoll_chat.Common.{suc}
use epoll_chat.Protobuf.{Protobuf, ◌>>=◌, c_string}
use epoll_chat.Proto.ImRequest.{ImRequest}
use epoll_chat.Proto.LoginRequest
use epoll_chat.Proto.MessageRequest
use epoll_chat.Proto.BlockRequest
use epoll_chat.Proto.UnBlockRequest
use epoll_chat.Proto.LogOutRequest
use epoll_chat.Proto.WhoElseRequest
use epoll_chat.Proto.GetIpRequest
use epoll_chat.Proto.SearchFileRequest
use epoll_chat.Libc.{atoi, fgets, chop}
use epoll_chat.Files.Values.{pack_repeated_uint32_from_str}
use epoll_chat.ClientApp.{App, prints}

abbrev pub Outcome : Type 0
Outcome = Option (App × Option ImRequest)

-- LOGIN_SIZE_LIMIT
abbrev pub login_size_limit : ℕ
login_size_limit = 100

-- "%d" and "%ld"
abbrev pub signed_decimal : ℤ → Text
signed_decimal (pos n) = decimal n
signed_decimal (negsuc n) = b'-' ∷ decimal (suc n)

-- A line of input without its last byte, as a C string.
unfoldable pub ask : ℕ → App → Option (Text × App)
ask size a =
    fgets size a.stdin >>= λ r. chop (c_string r.0) >>= λ s. some (s, record a { stdin = r.1 })

-- What stands before the first space and behind it; `none` where there is no space.
unfoldable pub split_at_space : Text → Option (Text × Text)
split_at_space [] = none
split_at_space (c ∷ s) =
    let rest = split_at_space s in
    if c == b' ' then some ([], s) else rest >>= λ r. some (c ∷ r.0, r.1)

-- `username` of cmd_login_impl, asked for before the first login only.
unfoldable pub login_name : App → Option (Text × App)
unfolding ask
login_name a = elim a.logged_in_user_name [
  | none ↦ ask login_size_limit (prints a (codes "Username: "))
  | some name ↦ some (name, a)
]

abbrev pub request_of : ℕ → Text → ImRequest
request_of type value = record { type = type; value = value }

module _ ⦃pb : Protobuf⦄ where
  abbrev login_request : App → Text → Text → ImRequest
  login_request a username password = request_of 1 (
      LoginRequest.to_bytes
        (record { username = username; password = password; port = a.listen_port }))

  -- cmd_login_impl
  unfoldable pub cmd_login_impl : App → Text → Outcome
  unfolding login_name ask
  cmd_login_impl a req = login_name a >>= λ r.
      ask login_size_limit (prints r.1 (codes "Password: ")) >>= λ q.
      some (record q.1 { logged_in_user_name = some r.0 }, some (login_request q.1 r.0 q.0))

  -- cmd_logout_impl
  unfoldable pub cmd_logout_impl : App → Text → Outcome
  cmd_logout_impl a req =
      some (a, some (request_of 6 (pb.encode_msg (LogOutRequest.to_msg (record {})))))

  abbrev message_request : Bool → Text → Text → ImRequest
  message_request broadcast username msg =
      request_of 2
        (MessageRequest.to_bytes (record { broadcast = broadcast; username = username; msg = msg }))

  -- cmd_message_impl
  unfoldable pub cmd_message_impl : App → Text → Outcome
  unfolding split_at_space
  cmd_message_impl a req = elim (split_at_space (drop 8 req)) [
    | none ↦ some (a, none)
    | some (username, msg) ↦ some (a, some (message_request false username msg))
  ]

  -- cmd_broadcast_impl; the pointer to the empty username is not set, and not read
  unfoldable pub cmd_broadcast_impl : App → Text → Outcome
  cmd_broadcast_impl a req = some (a, some (message_request true [] (drop 10 req)))

  -- cmd_block_impl
  unfoldable pub cmd_block_impl : App → Text → Outcome
  cmd_block_impl a req =
      some (a, some (request_of 4 (BlockRequest.to_bytes (record { username = drop 6 req }))))

  -- cmd_unblock_impl
  unfoldable pub cmd_unblock_impl : App → Text → Outcome
  cmd_unblock_impl a req =
      some (a, some (request_of 5 (UnBlockRequest.to_bytes (record { username = drop 8 req }))))

  abbrev who_else_request : Bool → ℕ → Bool → ImRequest
  who_else_request limit_time past_seconds currently_online = request_of 3 (
      WhoElseRequest.to_bytes (record {
        limit_time = limit_time;
        past_seconds = past_seconds;
        currently_online = currently_online;
      }))

  -- cmd_whoelse_impl
  unfoldable pub cmd_whoelse_impl : App → Text → Outcome
  cmd_whoelse_impl a req = some (a, some (who_else_request false 0 true))

  -- cmd_whoelsesince_impl
  unfoldable pub cmd_whoelsesince_impl : App → Text → Outcome
  cmd_whoelsesince_impl a req =
      let seconds = atoi (drop 13 req) in
      some (
        prints a (signed_decimal (signed32 seconds) ++ codes "\n"),
        some (who_else_request true seconds false),
      )

  -- cmd_startprivate_impl
  unfoldable pub cmd_startprivate_impl : App → Text → Outcome
  cmd_startprivate_impl a req =
      some (a, some (request_of 7 (GetIpRequest.to_bytes (record { username = drop 13 req }))))

  abbrev search_request : Text → Text → ImRequest
  search_request filename chunks =
      request_of 10 (SearchFileRequest.to_bytes (record { filename = filename; chunks = chunks }))

  -- cmd_searchfile_impl
  unfoldable pub cmd_searchfile_impl : App → Text → Outcome
  cmd_searchfile_impl a req = some (a, some (search_request (drop 11 req) []))

  -- cmd_searchchunk_impl
  unfoldable pub cmd_searchchunk_impl : App → Text → Outcome
  unfolding split_at_space
  cmd_searchchunk_impl a req = elim (split_at_space (drop 12 req)) [
    | none ↦
        some (
          prints a (codes "Error: invalid command. Please specify chunks or use searchFile\n"),
          none,
        )
    | some (filename, chunkseq) ↦ elim (pack_repeated_uint32_from_str chunkseq) [
      | none ↦ some (
        prints a
            (codes "Error: invalid command. Please specify chunks correctly or use searchFile\n"),
        none,
      )
      | some (chunks, n) ↦ some (a, some (search_request filename chunks))
    ]
  ]

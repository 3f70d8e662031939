-- ===== src/ClientApp/Console/Typed.antt =====
-- From the line typed at a client to the request run by the server.
use epoll_chat.Common.{
  ℕ, ◌<◌, ◌^◌, ◌≡◌, refl, ap, sym, subst, ◌∙◌, false, ◌∷◌, ◌++◌, Text, some, codes, decimal, length,
  contains, arith,
}
use epoll_chat.Common.Int.{signed32}
use epoll_chat.Protobuf.{Protobuf, ProtobufLaws}
use epoll_chat.Proto.ImRequest.{ImRequest}
use epoll_chat.Proto.ImRequest
use epoll_chat.Buffer.{Buffer, contents, append_bytes}
use epoll_chat.Buffer.Queue.{IsValid, append_bytes_lem}
use epoll_chat.World.{World}
use epoll_chat.Server.Dispatch.{Request, run, touch, parse_command}
use epoll_chat.Server.Requests.{envelope, payload, RequestFits, parse_command-envelope}
use epoll_chat.Files.{pack_uint32}
use epoll_chat.Files.Values.{numbers_text, pack_repeated_uint32_from_str, pack-numbers_text}
use epoll_chat.ClientApp.{App, Os, prints, send_request, server_client}
use epoll_chat.ClientApp.Commands.{
  signed_decimal, cmd_logout_impl, cmd_message_impl, cmd_broadcast_impl, cmd_block_impl,
  cmd_unblock_impl, cmd_whoelse_impl, cmd_whoelsesince_impl, cmd_startprivate_impl,
  cmd_searchfile_impl, cmd_searchchunk_impl,
}
use epoll_chat.ClientApp.Console.{
  Entry, enabled_entries, find_entry, run_entry, parse_line, send_made,
}
use epoll_chat.ClientApp.Console.Prefixes.{find_entry-prefix}
use epoll_chat.ClientApp.Console.Lines.{
  atoi-decimal, unambiguous, Line, entry_of, argument, meant, CanBeTyped, echoed,
  split_at_space_lem, line_text,
}

module _ ⦃os : Os⦄ ⦃pb : Protobuf⦄ where
  search_lem :
      (a : App) (name chunkseq bytes : Text) (n : ℕ)
      → contains name b' ' ≡ false
      → pack_repeated_uint32_from_str chunkseq ≡ some (bytes, n)
      → run_entry a Entry.searchchunk (codes "searchChunk " ++ (name ++ (b' ' ∷ chunkseq)))
        ≡ some
            (a, some (envelope (Request.searchfile (record { filename = name; chunks = bytes }))))
  unfolding run_entry cmd_searchchunk_impl epoll_chat.Server.Requests.payload
  search_lem a name chunkseq bytes n h e =
      rw (split_at_space_lem name chunkseq h, cmd_searchchunk_impl, e) refl

  message_lem :
      (a : App) (to msg : Text)
      → contains to b' ' ≡ false
      → run_entry a Entry.message (codes "message " ++ (to ++ (b' ' ∷ msg)))
        ≡ some (
          a,
          some
              (envelope (Request.message (record { broadcast = false; username = to; msg = msg }))),
        )
  unfolding run_entry cmd_message_impl epoll_chat.Server.Requests.payload
  message_lem a to msg h = rw (split_at_space_lem to msg h, cmd_message_impl) refl

  since_lem :
      (a : App) (n : ℕ)
      → n < 2 ^ 32
      → run_entry a Entry.whoelsesince (codes "whoelsesince " ++ decimal n)
        ≡ some (
          prints a (signed_decimal (signed32 n) ++ codes "\n"),
          some (envelope (meant (Line.whoelsesince n))),
        )
  unfolding run_entry cmd_whoelsesince_impl epoll_chat.Server.Requests.payload
  since_lem a n h = rw (atoi-decimal n h, cmd_whoelsesince_impl) refl

  -- The command of a line makes the request that is meant.
  run_entry-typed :
      (a : App) (l : Line)
      → CanBeTyped l
      → run_entry a (entry_of l) (line_text l) ≡ some (echoed a l, some (envelope (meant l)))
  unfolding run_entry cmd_broadcast_impl cmd_block_impl cmd_unblock_impl cmd_logout_impl
      cmd_whoelse_impl cmd_startprivate_impl cmd_searchfile_impl epoll_chat.Server.Requests.payload
  run_entry-typed a (Line.message to msg) h = message_lem a to msg h
  run_entry-typed a (Line.broadcast msg) h = refl
  run_entry-typed a (Line.block name) h = refl
  run_entry-typed a (Line.unblock name) h = refl
  run_entry-typed a Line.logout h = refl
  run_entry-typed a Line.whoelse h = refl
  run_entry-typed a (Line.whoelsesince n) h = since_lem a n h
  run_entry-typed a (Line.startprivate name) h = refl
  run_entry-typed a (Line.searchfile name) h = refl
  run_entry-typed a (Line.searchchunk name v vs) (h, k) =
      search_lem a name (numbers_text v vs) (pack_uint32 (v ∷ vs)) (length (v ∷ vs)) h
        (pack-numbers_text v vs k)

  parse_line_lem :
      (a a' : App) (s : Text) (k : Entry) (req : ImRequest)
      → find_entry s enabled_entries ≡ some k
      → run_entry a k s ≡ some (a', some req)
      → parse_line a s ≡ some (send_request a' (server_client a') req)
  unfolding parse_line send_made
  parse_line_lem a a' s k req e r = rw (e, parse_line, r) refl

  -- The buffer of the connection to the server.
  abbrev pub to_server : App → Buffer
  to_server a = (a.world.clients (server_client a)).outbuffer

  to_server-send_request :
      (a : App) (req : ImRequest)
      → to_server (send_request a (server_client a) req)
        ≡ append_bytes (to_server a) (ImRequest.to_bytes req)
  unfolding send_request
  to_server-send_request a req = ground arith

  send_request-contents :
      (a : App) (req : ImRequest)
      → IsValid (to_server a)
      → let b = to_server (send_request a (server_client a) req) in
        IsValid b × (contents b ≡ contents (to_server a) ++ ImRequest.to_bytes req)
  send_request-contents a req v =
      subst (λ b. IsValid b × (contents b ≡ contents (to_server a) ++ ImRequest.to_bytes req))
        (sym (to_server-send_request a req))
        (append_bytes_lem (to_server a) (ImRequest.to_bytes req) v)

  echoed-to_server : (a : App) (l : Line) → to_server (echoed a l) ≡ to_server a
  echoed-to_server a (Line.whoelsesince n) = refl
  echoed-to_server a (Line.message to msg) = refl
  echoed-to_server a (Line.broadcast msg) = refl
  echoed-to_server a (Line.block name) = refl
  echoed-to_server a (Line.unblock name) = refl
  echoed-to_server a Line.logout = refl
  echoed-to_server a Line.whoelse = refl
  echoed-to_server a (Line.startprivate name) = refl
  echoed-to_server a (Line.searchfile name) = refl
  echoed-to_server a (Line.searchchunk name v vs) = refl

  -- A line of a command is parsed, and the bytes of the request that is meant go behind what waits
  -- for the server.
  parse_line-typed :
      (a : App) (l : Line)
      → CanBeTyped l
      → IsValid (to_server a)
      → (a' : App) × (parse_line a (line_text l) ≡ some a')
        × IsValid (to_server a')
        × (contents (to_server a')
            ≡ contents (to_server a) ++ ImRequest.to_bytes (envelope (meant l)))
  parse_line-typed a l h v =
      let e = echoed a l in
      let same = echoed-to_server a l in
      let (v', c) = send_request-contents e (envelope (meant l)) (subst IsValid (sym same) v) in
      (
        send_request e (server_client e) (envelope (meant l)),
        parse_line_lem a e (line_text l) (entry_of l) (envelope (meant l))
            (find_entry-prefix (entry_of l) (argument l) (unambiguous l)) (run_entry-typed a l h),
        v',
        c ∙ ap (λ b. contents b ++ ImRequest.to_bytes (envelope (meant l))) same,
      )

module _ ⦃os : Os⦄ ⦃pb : Protobuf⦄ (laws : ProtobufLaws pb) where
  -- A typed line runs on the server: for each of the ten kinds of line that make a request, with
  -- names before a space that have none and numbers of 32 bits, the client's parse_command puts
  -- bytes behind what waits for the server, and the server's parse_command, in any state and for
  -- any client, with a codec that keeps the laws and a request that fits in the wire format, parses
  -- exactly these bytes and runs exactly the request that is meant.
  pub typed-run :
      (a : App) (l : Line)
      → CanBeTyped l
      → IsValid (to_server a)
      → RequestFits (meant l)
      → length (payload (meant l)) < 2 ^ 31
      → (a' : App) × (bytes : Text) × (parse_line a (line_text l) ≡ some a')
        × (contents (to_server a') ≡ contents (to_server a) ++ bytes)
        × ((w : World) (c : ℕ) (rest : Text)
            → parse_command w c (bytes ++ rest)
              ≡ some (touch (run w c (meant l)).0 c, length bytes, (run w c (meant l)).1))
  typed-run a l h v f k =
      let (a', e, v', c) = parse_line-typed a l h v in
      (
        a',
        ImRequest.to_bytes (envelope (meant l)),
        e,
        c,
        λ w d rest. parse_command-envelope laws w d (meant l) rest f k,
      )

-- ===== src/ClientApp/Peers.antt =====
-- client.c: chunks of files for peers, and parse_response, which handles what the server and the
-- peers send.
pub mod Chunks
pub mod Paths
pub mod Addresses
pub mod Texts
use epoll_chat.Common.{
  ℕ, ◌+◌, ◌*◌, Bool, true, false, List, [], ◌∷◌, ◌++◌, Text, Option, none, some, if◌then◌else◌,
  codes, decimal, take, update, ◌==◌,
}
use epoll_chat.Protobuf.{Protobuf, ◌>>=◌, c_string}
use epoll_chat.Proto.ImRequest.{ImRequest}
use epoll_chat.Proto.ImResponse.{ImResponse}
use epoll_chat.Proto.ImResponse
use epoll_chat.Proto.TextResponse
use epoll_chat.Proto.ExitResponse
use epoll_chat.Proto.GetIpResponse
use epoll_chat.Proto.GetIpResponse.{GetIpResponse}
use epoll_chat.Proto.PrivateRegistrationResponse
use epoll_chat.Proto.RegisterChunkRequest
use epoll_chat.Proto.ChunkDataRequest
use epoll_chat.Proto.ChunkDataRequest.{ChunkDataRequest}
use epoll_chat.Proto.ChunkDataResponse
use epoll_chat.Proto.ChunkDataResponse.{ChunkDataResponse}
use epoll_chat.World.{World, Address, put_user, put_client}
use epoll_chat.Delivery.{encode_text, send_response_to_client}
use epoll_chat.Auth.{find_or_add_user}
use epoll_chat.Files.{pack_uint32}
use epoll_chat.ClientApp.{
  App, Os, Node, Files, prints, with_world, my_name, file_dir, chunk_path, store_file, make_dir,
  bytes_of, send_request, epoll_do_send_buffer, server_client,
}
use epoll_chat.ClientApp.Session.{accept_peer}

-- memcpy of a `struct sockaddr_in`, 16 bytes; `none` where there are fewer to read.
unfoldable pub parse_sockaddr : Text → Option Address
parse_sockaddr (f ∷ f' ∷ p ∷ p' ∷ a ∷ b ∷ c ∷ d ∷ z0 ∷ z1 ∷ z2 ∷ z3 ∷ z4 ∷ z5 ∷ z6 ∷ z7 ∷ rest) =
    some (record { ip = a ∷ b ∷ c ∷ d ∷ []; sin_port = p * 256 + p' })
parse_sockaddr other = none

-- `user->client = client; client->user = user; client->close_prehook = pm_close_connection`
unfoldable pub link_peer : App → ℕ → ℕ → App
link_peer a u c =
    let w = put_user a.world u (record (a.world.users u) { client = some c }) in
    record a {
      world = put_client w c (record (w.clients c) { user = some u });
      close_prehooks = update a.close_prehooks c true;
    }

-- mkdir of the directory of a file, whether or not it succeeds
unfoldable pub ensure_dir : ⦃os : Os⦄ → App → Text → App
ensure_dir ⦃os⦄ a filename = elim (a.files (file_dir a filename)) [
  | some node ↦ a
  | none ↦
      if os.can_make a.files (file_dir a filename)
      then record a { files = make_dir a.files (file_dir a filename) }
      else a
]

module _ ⦃pb : Protobuf⦄ where
  unfoldable pub missing_chunk : App → Text → ℕ → ImResponse
  missing_chunk a filename chunk =
      encode_text
        (my_name a
          ++ (codes " (private): chunk "
              ++ (decimal chunk
                  ++ (codes " for file " ++ (filename ++ codes " does not exist on my end")))))
        false

  unfoldable pub chunk_data : Text → ℕ → Text → ImResponse
  chunk_data filename chunk payload = record {
    type = 6;
    success = true;
    value =
        ChunkDataResponse.to_bytes
          (record { filename = filename; chunk = chunk; payload = payload });
  }

  -- The RegisterChunkRequest of writeFile: its one chunk as a packed word.
  unfoldable pub chunk_registration : Text → ℕ → ImRequest
  chunk_registration filename chunk = record {
    type = 9;
    value =
        RegisterChunkRequest.to_bytes
          (record { filename = filename; chunks = pack_uint32 (chunk ∷ []) });
  }

  unfoldable pub private_registration : App → ImResponse
  private_registration a = record {
    type = 4;
    success = true;
    value = PrivateRegistrationResponse.to_bytes (record { username = my_name a });
  }

module _ ⦃os : Os⦄ ⦃pb : Protobuf⦄ where
  -- getChunkDataResponse
  unfoldable pub get_chunk_data_response : App → ChunkDataRequest → ImResponse
  unfolding missing_chunk chunk_data
  get_chunk_data_response a req =
      let filename = c_string req.filename in
      let path = chunk_path a filename req.chunk in
      elim (a.files path) [
        | none ↦ missing_chunk a filename req.chunk
        | some node ↦
            if os.can_read a.files path
            then chunk_data filename req.chunk (bytes_of (a.files path))
            else missing_chunk a filename req.chunk
      ]

  -- The branch of writeFile whose file is open.
  unfoldable pub store_chunk : App → Text → ℕ → Text → App
  unfolding chunk_registration
  store_chunk a filename chunk payload =
      let path = chunk_path a filename chunk in
      let a' =
        prints (record a { files = store_file a.files path payload })
          (codes "Stored file at " ++ (path ++ codes "\n")) in
      epoll_do_send_buffer (send_request a' (server_client a') (chunk_registration filename chunk))

  -- writeFile
  unfoldable pub write_file : App → ChunkDataResponse → App
  unfolding ensure_dir store_chunk
  write_file a cdr =
      let filename = c_string cdr.filename in
      let a' = ensure_dir a filename in
      if os.can_write a'.files (chunk_path a' filename cdr.chunk)
      then store_chunk a' filename cdr.chunk cdr.payload
      else a'

  -- Case 3 of parse_response behind connect: `c` is the new connection's client.
  unfoldable pub start_session_with : App → ℕ → Text → App
  unfolding link_peer private_registration
  start_session_with a c username =
      let (w, u) = find_or_add_user a.world username in
      let a' =
        link_peer
          (prints (with_world a w)
            (codes "Start private messaging with " ++ (username ++ codes "\n")))
          u c in
      with_world a' (send_response_to_client a'.world c (private_registration a'))

  -- Case 3: connect takes the next result of `dials`, and fails where none is left.
  unfoldable pub dial : App → GetIpResponse → Address → List (Option ℕ) → Option App
  unfolding start_session_with accept_peer
  dial a gr addr [] = some a
  dial a gr addr (none ∷ dials) = some (record a { dials = dials })
  dial a gr addr (some sock ∷ dials) = accept_peer (record a { dials = dials }) sock addr >>= λ a'.
      some (start_session_with a' a.world.client_count (c_string gr.username))

  -- Case 4
  unfoldable pub registered_by : App → ℕ → Text → App
  unfolding link_peer
  registered_by a c username =
      let (w, u) = find_or_add_user a.world username in
      link_peer
        (prints (with_world a w)
          (username ++ codes " has started a private messaging session with you\n"))
        u c

  -- The switch over the type; `none` is a fault.
  unfoldable pub handle_response : App → ℕ → ImResponse → Option App
  unfolding dial registered_by get_chunk_data_response write_file
  handle_response a c rsp =
      if rsp.type == 1
      then TextResponse.of_bytes rsp.value
        >>= (λ tr. some (prints a (c_string tr.msg ++ codes "\n")))
      else if rsp.type == 2
      then ExitResponse.of_bytes rsp.value
        >>= (λ er. some (record (prints a (c_string er.msg ++ codes "\n")) { exited = true }))
      else if rsp.type == 3
      then GetIpResponse.of_bytes rsp.value
        >>= (λ gr. parse_sockaddr gr.addr >>= λ addr. dial a gr addr a.dials)
      else if rsp.type == 4
      then PrivateRegistrationResponse.of_bytes rsp.value
        >>= (λ prr. some (registered_by a c (c_string prr.username)))
      else if rsp.type == 5
      then ChunkDataRequest.of_bytes rsp.value >>= (λ req.
        some (with_world a (send_response_to_client a.world c (get_chunk_data_response a req))))
      else if rsp.type == 6
      then ChunkDataResponse.of_bytes rsp.value >>= (λ cdr. some (write_file a cdr))
      else some a

  -- parse_response: the state, and the number of bytes parsed
  unfoldable pub parse_response : App → ℕ → Text → Option (App × ℕ)
  unfolding handle_response
  parse_response a c bytes = elim (pb.decode_n_fields bytes 3) [
    | none ↦ some (a, 0)
    | some (m, n) ↦ ImResponse.of_msg m >>= λ rsp.
        handle_response (record a { last_response = rsp.success }) c rsp >>= λ a'. some (a', n)
  ]

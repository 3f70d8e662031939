-- ===== src/ClientApp/Talk/Downloads.antt =====
-- A download: "private <peer> download <file> <chunk>" at one client, the peer that has the chunk,
-- and the first client again, which stores it.
use epoll_chat.Common.{
  ℕ, ◌<◌, ◌^◌, ◌≡◌, refl, ap, sym, subst, ◌∙◌, true, false, ◌∷◌, ◌++◌, Text, none, some, codes,
  length, contains, decimal, arith, Option-cases, Bool-cases, inl, inr,
}
use epoll_chat.Protobuf.{Protobuf, ProtobufLaws, c_string}
use epoll_chat.Proto.ImResponse
use epoll_chat.Proto.ImResponse.{ImResponse}
use epoll_chat.Proto.ChunkDataRequest
use epoll_chat.Proto.ChunkDataRequest.{ChunkDataRequest}
use epoll_chat.Proto.ChunkDataResponse
use epoll_chat.Proto.ChunkDataResponse.{ChunkDataResponse}
use epoll_chat.Delivery.{send_response_to_client}
use epoll_chat.Delivery.Queues.{BuffersValid, send_response_to_client_lem}
use epoll_chat.Libc.Decimal.{IsBlack, scan_word_u32-decimal}
use epoll_chat.ClientApp.{App, Os, with_world, chunk_path, file_dir, regular}
use epoll_chat.ClientApp.Peers.Chunks.{serve_lem, write_file-stores}
use epoll_chat.ClientApp.Private.{find_peer, private_download, chunk_request, cmd_private_impl}
use epoll_chat.ClientApp.Console.{parse_line}
use epoll_chat.ClientApp.Console.Lines.{split_at_space_lem}
use epoll_chat.ClientApp.Peers.{
  parse_response, handle_response, get_chunk_data_response, chunk_data, write_file, ensure_dir,
}
use epoll_chat.ClientApp.Peers.Texts.{parse_response-envelope}
use epoll_chat.ClientApp.Talk.{private_line, Queued, parse_line-private}

abbrev pub download_text : Text → ℕ → Text
download_text filename chunk = codes "download " ++ (filename ++ (b' ' ∷ decimal chunk))

module _ ⦃pb : Protobuf⦄ where
  private_download_lem :
      (a : App) (c x : ℕ) (f : Text) (n : ℕ)
      → IsBlack (x ∷ f)
      → n < 2 ^ 32
      → length (x ∷ f) < 8192
      → private_download a c ((x ∷ f) ++ (b' ' ∷ decimal n))
        ≡ some (with_world a (send_response_to_client a.world c (chunk_request (x ∷ f) n)), none)
  unfolding private_download
  private_download_lem a c x f n b l s =
      rw (scan_word_u32-decimal x f n b l, private_download) (ground arith)

  cmd_private-download :
      (a : App) (to : Text) (u c x : ℕ) (f : Text) (n : ℕ)
      → contains to b' ' ≡ false
      → find_peer a.world to ≡ some (u, c)
      → IsBlack (x ∷ f)
      → n < 2 ^ 32
      → length (x ∷ f) < 8192
      → cmd_private_impl a (private_line to (download_text (x ∷ f) n))
        ≡ some (with_world a (send_response_to_client a.world c (chunk_request (x ∷ f) n)), none)
  unfolding cmd_private_impl
  cmd_private-download a to u c x f n h e b l s =
      rw (split_at_space_lem to (download_text (x ∷ f) n) h, cmd_private_impl, e)
        (private_download_lem a c x f n b l s)

module _ ⦃os : Os⦄ ⦃pb : Protobuf⦄ where
  handle_request :
      (b : App) (d : ℕ) (f : Text) (n : ℕ)
      → ChunkDataRequest.of_bytes (ChunkDataRequest.to_bytes (record { filename = f; chunk = n }))
        ≡ some (record { filename = f; chunk = n })
      → handle_response b d (chunk_request f n)
        ≡ some (
            with_world b (
              send_response_to_client b.world d
                (get_chunk_data_response b (record { filename = f; chunk = n }))))
  unfolding handle_response chunk_request
  handle_request b d f n e = rw e refl

  handle_data :
      (a : App) (c : ℕ) (f : Text) (n : ℕ) (payload : Text)
      → let cdr : ChunkDataResponse = record { filename = f; chunk = n; payload = payload } in
        ChunkDataResponse.of_bytes (ChunkDataResponse.to_bytes cdr) ≡ some cdr
        → handle_response a c (chunk_data f n payload) ≡ some (write_file a cdr)
  unfolding handle_response chunk_data
  handle_data a c f n payload e = rw e refl

  served_lem :
      (b : App) (f : Text) (n : ℕ) (payload : Text)
      → c_string f ≡ f
      → b.files (chunk_path b f n) ≡ some (regular payload)
      → os.can_read b.files (chunk_path b f n) ≡ true
      → get_chunk_data_response b (record { filename = f; chunk = n }) ≡ chunk_data f n payload
  served_lem b f n payload z e r =
      let req : ChunkDataRequest = record { filename = f; chunk = n } in
      serve_lem b req payload (ap (λ g. b.files (chunk_path b g n)) z ∙ e)
        (ap (λ g. os.can_read b.files (chunk_path b g n)) z ∙ r)
      ∙ ap (λ g. chunk_data g n payload) z

  request-Fits :
      (f : Text) (n : ℕ)
      → length (ChunkDataRequest.to_bytes (record { filename = f; chunk = n })) < 2 ^ 31
      → ImResponse.Fits (chunk_request f n)
  unfolding chunk_request
  request-Fits f n h = omega arith

  data-Fits :
      (f : Text) (n : ℕ) (payload : Text)
      → length (ChunkDataResponse.to_bytes (record { filename = f; chunk = n; payload = payload }))
        < 2 ^ 31
      → ImResponse.Fits (chunk_data f n payload)
  unfolding chunk_data
  data-Fits f n payload h = omega arith

  -- The directory does not depend on the answer before.
  files-ensure_dir :
      (s : App) (f : Text)
      → (ensure_dir s f).files ≡ (ensure_dir (record s { last_response = true }) f).files
  unfolding ensure_dir
  files-ensure_dir s f = elim (Option-cases (s.files (file_dir s f))) [
    | inr (q, e) ↦ rw (e, ensure_dir) refl
    | inl e ↦ elim (Bool-cases (os.can_make s.files (file_dir s f))) [
      | inr m ↦ rw (e, ensure_dir, m) refl
      | inl m ↦ rw (e, ensure_dir, m) refl
    ]
  ]

  -- What the client that gets the chunk then has.
  stored_file :
      (s : App) (f : Text) (n : ℕ) (payload : Text)
      → c_string f ≡ f
      → os.can_write (ensure_dir s f).files (chunk_path s f n) ≡ true
      → (write_file
            (record s { last_response = true })
            (record { filename = f; chunk = n; payload = payload })).files
          (chunk_path s f n)
        ≡ some (regular payload)
  unfolding ensure_dir
  stored_file s f n payload z w =
      let s1 : App = record s { last_response = true } in
      let cdr : ChunkDataResponse = record { filename = f; chunk = n; payload = payload } in
      subst (λ g. (write_file s1 cdr).files (chunk_path s g n) ≡ some (regular payload)) z
        (write_file-stores s1 cdr (
          subst (λ g. os.can_write (ensure_dir s1 g).files (chunk_path s g n) ≡ true) (sym z)
            (subst (λ fl. os.can_write fl (chunk_path s f n) ≡ true) (files-ensure_dir s f) w)))

module _ ⦃os : Os⦄ ⦃pb : Protobuf⦄ (laws : ProtobufLaws pb) where
  -- The two messages of a download, each parsed as it was sent.
  request-parsed :
      (b : App) (d : ℕ) (f : Text) (n : ℕ) (rest : Text)
      → length f < 2 ^ 31
      → n < 2 ^ 32
      → length (ChunkDataRequest.to_bytes (record { filename = f; chunk = n })) < 2 ^ 31
      → parse_response b d (ImResponse.to_bytes (chunk_request f n) ++ rest)
        ≡ some (
          with_world
              (record b { last_response = true })
              (send_response_to_client b.world d (
                get_chunk_data_response
                  (record b { last_response = true })
                  (record { filename = f; chunk = n }))),
          length (ImResponse.to_bytes (chunk_request f n)),
        )
  unfolding chunk_request
  request-parsed b d f n rest h l k =
      parse_response-envelope laws b d (chunk_request f n) rest (request-Fits f n k)
      ∙ rw
          (handle_request (record b { last_response = true }) d f n
            (ChunkDataRequest.of_bytes-to_bytes laws _ (h, l)))
          refl

  data-parsed :
      (a : App) (c : ℕ) (f : Text) (n : ℕ) (payload rest : Text)
      → let cdr : ChunkDataResponse = record { filename = f; chunk = n; payload = payload } in
        ChunkDataResponse.Fits cdr
        → length (ChunkDataResponse.to_bytes cdr) < 2 ^ 31
        → parse_response a c (ImResponse.to_bytes (chunk_data f n payload) ++ rest)
          ≡ some (
            write_file (record a { last_response = true }) cdr,
            length (ImResponse.to_bytes (chunk_data f n payload)),
          )
  unfolding chunk_data
  data-parsed a c f n payload rest h k =
      parse_response-envelope laws a c (chunk_data f n payload) rest (data-Fits f n payload k)
      ∙ rw
          (handle_data (record a { last_response = true }) c f n payload
            (ChunkDataResponse.of_bytes-to_bytes laws _ h))
          refl

  -- A download gets the chunk. At a client with an open session with a peer, the line
  -- "private <peer> download <file> <chunk>" queues bytes for that peer only; the peer, which has the
  -- chunk as a file that can be read, parses them, whatever stands behind them, and queues bytes for
  -- the connection they came from only; and at a client that
  -- these reach, and that can write the chunk's file, the file then has the very bytes of the peer's
  -- chunk, under the same name and number. The name of the file has no white space
  -- and no zero byte and is shorter than BUFSIZ, the number has 32 bits, the messages fit in the
  -- wire format, the codec keeps the laws, and the output buffers of both are valid.
  pub download-stores :
      (a b s : App) (to : Text) (u c d e x : ℕ) (fs : Text) (n : ℕ) (payload : Text)
      → contains to b' ' ≡ false
      → find_peer a.world to ≡ some (u, c)
      → IsBlack (x ∷ fs)
      → n < 2 ^ 32
      → length (x ∷ fs) < 8192
      → c_string (x ∷ fs) ≡ x ∷ fs
      → b.files (chunk_path b (x ∷ fs) n) ≡ some (regular payload)
      → os.can_read b.files (chunk_path b (x ∷ fs) n) ≡ true
      → BuffersValid a.world
      → BuffersValid b.world
      → length payload < 2 ^ 31
      → os.can_write (ensure_dir s (x ∷ fs)).files (chunk_path s (x ∷ fs) n) ≡ true
      → let req : ChunkDataRequest = record { filename = x ∷ fs; chunk = n } in
        let cdr : ChunkDataResponse = record { filename = x ∷ fs; chunk = n; payload = payload } in
        length (ChunkDataRequest.to_bytes req) < 2 ^ 31
        → length (ChunkDataResponse.to_bytes cdr) < 2 ^ 31
        → (a' b' : App) × (bytes data_bytes : Text) × (parse_line a
              (private_line to (download_text (x ∷ fs) n))
            ≡ some a')
          × Queued a a' c bytes
          × ((rest : Text) → parse_response b d (bytes ++ rest) ≡ some (b', length bytes))
          × Queued b b' d data_bytes
          × (s' : App) × ((rest : Text)
              → parse_response s e (data_bytes ++ rest) ≡ some (s', length data_bytes))
          × (s'.files (chunk_path s (x ∷ fs) n) ≡ some (regular payload))
  download-stores a b s to u c d e x fs n payload h found bl l sz z file readable va vb lp w k1 k2 =
      let b1 : App = record b { last_response = true } in
      let f : Text = x ∷ fs in
      let served = served_lem b1 f n payload z file readable in
      let reply = get_chunk_data_response b1 (record { filename = f; chunk = n }) in
      (
        with_world a (send_response_to_client a.world c (chunk_request f n)),
        with_world b1 (send_response_to_client b.world d reply),
        ImResponse.to_bytes (chunk_request f n),
        ImResponse.to_bytes reply,
        parse_line-private a _ to (download_text f n)
            (cmd_private-download a to u c x fs n h found bl l sz),
        (send_response_to_client_lem a.world c (chunk_request f n) va).1,
        λ rest. request-parsed b d f n rest (omega arith) l k1,
        (send_response_to_client_lem b.world d reply vb).1,
        write_file (record s { last_response = true })
            (record { filename = f; chunk = n; payload = payload }),
        λ rest.
            subst
              (λ r.
                parse_response s e (ImResponse.to_bytes r ++ rest)
                ≡ some (
                  write_file (record s { last_response = true })
                      (record { filename = f; chunk = n; payload = payload }),
                  length (ImResponse.to_bytes r),
                ))
              (sym served) (data-parsed s e f n payload rest (omega arith) k2),
        stored_file s f n payload z w,
      )

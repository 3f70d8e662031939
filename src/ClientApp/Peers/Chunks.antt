-- ===== src/ClientApp/Peers/Chunks.antt =====
-- The chunks that a client stores, and those it gives to others.
use epoll_chat.Common.{
  ℕ, ◌<◌, ◌^◌, ◌≡◌, refl, ap, sym, subst, ◌∙◌, true, false, ◌&&◌, ◌∷◌, ◌++◌, Text, some, ◌==◌,
  text_eq, Bool-cases, Option-cases, inl, inr, ap₂, decimal,
}
use epoll_chat.Protobuf.{Protobuf, c_string}
use epoll_chat.Proto.ChunkDataRequest.{ChunkDataRequest}
use epoll_chat.Proto.ChunkDataResponse.{ChunkDataResponse}
use epoll_chat.ClientApp.{App, Os, Node, regular, Files, chunk_path, file_dir, store_file, bytes_of}
use epoll_chat.ClientApp.Peers.{
  get_chunk_data_response, write_file, store_chunk, ensure_dir, chunk_data,
}
use epoll_chat.ClientApp.Names.{is_name, same_path, same_path_refl}
use epoll_chat.ClientApp.Peers.Paths.{same_path-chunks, same_path-dir}

module _ ⦃os : Os⦄ where
  -- A new directory takes no chunk that there was.
  ensure_dir-keeps :
      (a : App) (f g : Text) (d : ℕ) (node : Node)
      → is_name f ≡ true
      → is_name g ≡ true
      → a.files (chunk_path a g d) ≡ some node
      → (ensure_dir a f).files (chunk_path a g d) ≡ some node
  unfolding ensure_dir
  ensure_dir-keeps a f g d node i j e = elim (Option-cases (a.files (file_dir a f))) [
    | inr (n, q) ↦ rw (q, ensure_dir) e
    | inl q ↦ elim (Bool-cases (os.can_make a.files (file_dir a f))) [
      | inr m ↦ rw (q, ensure_dir, m) e
      | inl m ↦ rw (q, ensure_dir, m, same_path-dir os.working_directory a f g d i j) e
    ]
  ]

  datapath-ensure_dir : (a : App) (filename : Text) → (ensure_dir a filename).datapath ≡ a.datapath
  unfolding ensure_dir
  datapath-ensure_dir a filename = elim (Option-cases (a.files (file_dir a filename))) [
    | inr (n, f) ↦ rw (f, ensure_dir) refl
    | inl f ↦ elim (Bool-cases (os.can_make a.files (file_dir a filename))) [
      | inr m ↦ rw (f, ensure_dir, m) refl
      | inl m ↦ rw (f, ensure_dir, m) refl
    ]
  ]

module _ ⦃os : Os⦄ ⦃pb : Protobuf⦄ where
  files-store_chunk :
      (a : App) (filename : Text) (chunk : ℕ) (payload : Text)
      → (store_chunk a filename chunk payload).files
        ≡ store_file a.files (chunk_path a filename chunk) payload
  unfolding store_chunk epoll_chat.ClientApp.epoll_do_send_buffer epoll_chat.ClientApp.send_request
  files-store_chunk a filename chunk payload = refl

  datapath-store_chunk :
      (a : App) (filename : Text) (chunk : ℕ) (payload : Text)
      → (store_chunk a filename chunk payload).datapath ≡ a.datapath
  unfolding store_chunk epoll_chat.ClientApp.epoll_do_send_buffer epoll_chat.ClientApp.send_request
  datapath-store_chunk a filename chunk payload = refl

  pub serve_lem :
      (a : App) (req : ChunkDataRequest) (payload : Text)
      → a.files (chunk_path a (c_string req.filename) req.chunk) ≡ some (regular payload)
      → os.can_read a.files (chunk_path a (c_string req.filename) req.chunk) ≡ true
      → get_chunk_data_response a req ≡ chunk_data (c_string req.filename) req.chunk payload
  unfolding get_chunk_data_response
  serve_lem a req payload e r =
      rw (e, get_chunk_data_response, r)
        (ap (λ n. chunk_data (c_string req.filename) req.chunk (bytes_of n)) e)

  write_lem :
      (a : App) (cdr : ChunkDataResponse)
      → let a1 = ensure_dir a (c_string cdr.filename) in
        os.can_write a1.files (chunk_path a1 (c_string cdr.filename) cdr.chunk) ≡ true
        → write_file a cdr ≡ store_chunk a1 (c_string cdr.filename) cdr.chunk cdr.payload
  unfolding write_file
  write_lem a cdr w = rw w refl

  stored_lem :
      (files : Files) (path payload : Text)
      → store_file files path payload path ≡ some (regular payload)
  stored_lem files path payload = rw (same_path_refl os.working_directory path) refl

  other_lem :
      (files : Files) (path q payload : Text)
      → same_path os.working_directory q path ≡ false
      → store_file files path payload q ≡ files q
  other_lem files path q payload e = rw e refl

  path-ensure_dir :
      (a : App) (filename g : Text) (d : ℕ)
      → chunk_path (ensure_dir a filename) g d ≡ chunk_path a g d
  path-ensure_dir a filename g d =
      ap (λ p. (p ++ (b'/' ∷ g)) ++ (b'/' ∷ decimal d)) (datapath-ensure_dir a filename)

  -- What writeFile makes of the files, where the chunk's file can be written.
  record Wrote (a : App) (cdr : ChunkDataResponse) (a' : App) : Type 0 where
    at_path : (g : Text) (d : ℕ) → chunk_path a' g d ≡ chunk_path a g d
    at_files :
        a'.files
        ≡ store_file
            (ensure_dir a (c_string cdr.filename)).files
            (chunk_path a (c_string cdr.filename) cdr.chunk)
            cdr.payload

  write_file-Wrote :
      (a : App) (cdr : ChunkDataResponse)
      → os.can_write
          (ensure_dir a (c_string cdr.filename)).files
          (chunk_path a (c_string cdr.filename) cdr.chunk)
        ≡ true
      → Wrote a cdr (write_file a cdr)
  write_file-Wrote a cdr w =
      let f = c_string cdr.filename in
      let a1 = ensure_dir a f in
      let p = path-ensure_dir a f f cdr.chunk in
      subst (Wrote a cdr)
        (sym (write_lem a cdr (subst (λ q. os.can_write a1.files q ≡ true) (sym p) w)))
        (record {
          at_path = λ g d.
              ap (λ q. (q ++ (b'/' ∷ g)) ++ (b'/' ∷ decimal d))
                (datapath-store_chunk a1 f cdr.chunk cdr.payload ∙ datapath-ensure_dir a f);
          at_files =
              files-store_chunk a1 f cdr.chunk cdr.payload
              ∙ ap (λ q. store_file a1.files q cdr.payload) p;
        })

  -- Where its file can be written, the bytes are there.
  pub write_file-stores :
      (a : App) (cdr : ChunkDataResponse)
      → let f = c_string cdr.filename in
        os.can_write (ensure_dir a f).files (chunk_path a f cdr.chunk) ≡ true
        → (write_file a cdr).files (chunk_path a f cdr.chunk) ≡ some (regular cdr.payload)
  write_file-stores a cdr w =
      let f = c_string cdr.filename in
      ap (λ h. h (chunk_path a f cdr.chunk)) (write_file-Wrote a cdr w).at_files
      ∙ stored_lem (ensure_dir a f).files (chunk_path a f cdr.chunk) cdr.payload

  -- A chunk that writeFile stores, where its file can be written and read again, is the chunk that
  -- getChunkDataResponse gives to a peer that asks for the same file and number, byte for byte.
  pub write_file-serves :
      (a : App) (cdr : ChunkDataResponse) (req : ChunkDataRequest)
      → let f = c_string cdr.filename in
        c_string req.filename ≡ f
        → req.chunk ≡ cdr.chunk
        → os.can_write (ensure_dir a f).files (chunk_path a f cdr.chunk) ≡ true
        → os.can_read (write_file a cdr).files (chunk_path a f cdr.chunk) ≡ true
        → get_chunk_data_response (write_file a cdr) req ≡ chunk_data f cdr.chunk cdr.payload
  write_file-serves a cdr req ef ec w r =
      let f = c_string cdr.filename in
      let wrote = write_file-Wrote a cdr w in
      let asked : chunk_path (write_file a cdr) (c_string req.filename) req.chunk
          ≡ chunk_path a f cdr.chunk =
        wrote.at_path (c_string req.filename) req.chunk ∙ ap₂ (chunk_path a) ef ec in
      serve_lem (write_file a cdr) req cdr.payload
        (ap (write_file a cdr).files asked
          ∙ (ap (λ h. h (chunk_path a f cdr.chunk)) wrote.at_files
              ∙ stored_lem (ensure_dir a f).files (chunk_path a f cdr.chunk) cdr.payload))
        (ap (os.can_read (write_file a cdr).files) asked ∙ r)
      ∙ ap₂ (λ g d. chunk_data g d cdr.payload) ef ec

  write_lem_closed :
      (a : App) (cdr : ChunkDataResponse)
      → let a1 = ensure_dir a (c_string cdr.filename) in
        os.can_write a1.files (chunk_path a1 (c_string cdr.filename) cdr.chunk) ≡ false
        → write_file a cdr ≡ a1
  unfolding write_file
  write_lem_closed a cdr w = rw w refl

  -- writeFile leaves every other chunk that was there, of another file or of another number, as it
  -- was, whether or not the new chunk's file can be written. The names of both files are names in a
  -- directory, without a slash, and not "." or ".."; numbers are below 2 ^ 63.
  pub write_file-keeps :
      (a : App) (cdr : ChunkDataResponse) (g : Text) (d : ℕ) (node : Node)
      → is_name (c_string cdr.filename) ≡ true
      → is_name g ≡ true
      → (text_eq g (c_string cdr.filename) && d == cdr.chunk) ≡ false
      → d < 2 ^ 63
      → cdr.chunk < 2 ^ 63
      → a.files (chunk_path a g d) ≡ some node
      → (write_file a cdr).files (chunk_path a g d) ≡ some node
  write_file-keeps a cdr g d node i j n ld lc e =
      let f = c_string cdr.filename in
      let a1 = ensure_dir a f in
      let kept = ensure_dir-keeps a f g d node i j e in
      elim (Bool-cases (os.can_write a1.files (chunk_path a1 f cdr.chunk))) [
        | inr w ↦ ap (λ (q : App). q.files (chunk_path a g d)) (write_lem_closed a cdr w) ∙ kept
        | inl w ↦
            ap (λ h. h (chunk_path a g d))
              (write_file-Wrote a cdr (
                subst (λ q. os.can_write a1.files q ≡ true) (path-ensure_dir a f f cdr.chunk)
                  w)).at_files
            ∙ (other_lem a1.files (chunk_path a f cdr.chunk) (chunk_path a g d) cdr.payload
                  (same_path-chunks os.working_directory a g f d cdr.chunk j i ld lc ∙ n)
                ∙ kept)
      ]

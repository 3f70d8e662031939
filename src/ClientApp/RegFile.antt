-- ===== src/ClientApp/RegFile.antt =====
-- clientlib/commands/regfile.c: a file is cut into chunks, and registered. The name of a directory
-- and its chunks are written as "%s/%s" and "%s/%s/%ld" under `datapath`.
pub mod Split
pub mod Negative
pub mod Count
pub mod Dialogue
use epoll_chat.Common.{
  ℕ, zero, suc, ◌+◌, ◌-◌, ◌*◌, ◌/◌, Bool, true, false, not, ◌||◌, List, [], ◌∷◌, ◌++◌, Text, Option,
  none, some, if◌then◌else◌, ◌⊎◌, inl, inr, codes, drop, take, ltb, ◌==◌, length, decimal, contains,
}
use epoll_chat.Common.Int.{ℤ, pos, negsuc, sub_ℕ}
use epoll_chat.Protobuf.{Protobuf, ◌>>=◌, c_string}
use epoll_chat.Proto.ImRequest.{ImRequest}
use epoll_chat.Proto.RegisterFileRequest
use epoll_chat.Libc.{strtol, Number, fgets, chop, to_u32}
use epoll_chat.ClientApp.{
  App, Os, Node, regular, directory, Files, prints, file_dir, chunk_path, store_file, make_dir,
  bytes_of,
}
use epoll_chat.ClientApp.Commands.{Outcome, request_of, signed_decimal}
use epoll_chat.ClientApp.Private.{bufsiz}

-- `inbuffer[0]` of an answer: y, n, or neither
abbrev pub answer : Text → Option Bool
answer [] = none
answer (c ∷ s) =
    if c == b'y' || c == b'Y'
    then some true
    else if c == b'n' || c == b'N'
    then some false
    else none

-- A loop that prints `question` until the answer is y or n, and `again` at any other. Each round
-- takes a byte of the input or more; where it ends the loop does not.
unfoldable pub confirm : ℕ → Text → Text → App → Option (Bool × App)
confirm zero question again a = none
confirm (suc fuel) question again a = fgets bufsiz a.stdin >>= λ r.
    let a' = record (prints a question) { stdin = r.1 } in
    elim (answer r.0) [
      | some agreed ↦ some (agreed, a')
      | none ↦ confirm fuel question again (prints a' again)
    ]

abbrev pub sure_text : Text
sure_text =
    codes "You're trying to register a new file on our P2P network.\nIf you are trying to register "
    ++ (codes
          "only a (or few) chunks of a file, don't use this command. After you download a chunk "
        ++ (codes
              "from another peer, it is automatically registered on the server.\nThis is for new "
            ++ codes "files only.\nAre you sure this is what you want to do? [y/n]: "))

-- `filename`: what stands behind the last slash of the path.
unfoldable pub base_name : Text → Text
base_name [] = []
base_name (c ∷ s) = if contains s b'/' then base_name s else if c == b'/' then s else c ∷ s

-- What the checks of a path find: its bytes, or what is printed. perror writes elsewhere.
unfoldable pub check_path : Option Node → Text ⊎ Text
check_path none = inr []
check_path (some directory) =
    inr (codes "That's not a regular file (could be a directory, etc)... Choose another file.\n")
check_path (some (regular [])) =
    inr (codes "That file is empty (0 bytes)... Please choose another file.\n")
check_path (some (regular (x ∷ s))) = inl (x ∷ s)

-- The loop that asks for the path: the path and the bytes of the file.
unfoldable pub choose_path : ℕ → App → Option (Text × Text × App)
unfolding check_path
choose_path zero a = none
choose_path (suc fuel) a = fgets bufsiz a.stdin >>= λ r. chop (c_string r.0) >>= λ path.
    let a' = record (prints a (codes "Path to your local file: ")) { stdin = r.1 } in
    elim (check_path (a.files path)) [
      | inl bytes ↦ some (path, bytes, a')
      | inr msg ↦ choose_path fuel (prints a' msg)
    ]

-- `errno != 0 || chunksize == 0`; no number is read as 0
abbrev pub chunk_size_of : Option Number → ℤ
chunk_size_of none = pos 1024
chunk_size_of (some r) = elim r.erange [
  | true ↦ pos 1024
  | false ↦ elim r.value [ pos n ↦ if n == 0 then pos 1024 else pos n | negsuc n ↦ negsuc n ]
]

unfoldable pub chunk_size : Text → ℤ
chunk_size inbuffer = chunk_size_of (strtol (c_string inbuffer))

-- `bytes / chunksize`, and one more if that many chunks do not hold all bytes. The quotient is
-- rounded towards 0; it is negative for a negative size.
unfoldable pub chunk_count : ℕ → ℤ → ℤ
chunk_count bytes (pos n) =
    if ltb (bytes / n * n) bytes then pos (suc (bytes / n)) else pos (bytes / n)
chunk_count bytes (negsuc n) =
    if ltb (bytes / suc n * suc n) bytes then sub_ℕ 1 (bytes / suc n) else sub_ℕ 0 (bytes / suc n)

-- The summary before the second question.
unfoldable pub summary_text : Text → Text → ℕ → ℤ → ℤ → Text
summary_text filename filepath bytes chunksize nchunks =
    codes "\n\n===P2P FILE REGISTRATION===\nFile name: "
    ++ (filename
        ++ (codes "\nLocal file path: "
            ++ (filepath
                ++ (codes "\nFile size: "
                    ++ (decimal bytes
                        ++ (codes " bytes\nChunk size: "
                            ++ (signed_decimal chunksize
                                ++ (codes " bytes\nTotal Chunks: "
                                    ++ (signed_decimal nchunks
                                        ++ codes "\n\nCan you confirm? [y/n]: ")))))))))

-- The loop over `i` below `nchunks`: `n` more chunks from number `i` on, of the bytes left in the
-- file. A file that cannot be opened is written through NULL.
unfoldable pub write_chunks : ⦃os : Os⦄ → App → Text → ℕ → ℕ → ℕ → Text → Option App
write_chunks a filename size zero i bytes = some a
write_chunks ⦃os⦄ a filename size (suc n) i bytes =
    let rest =
      write_chunks
        (record a { files = store_file a.files (chunk_path a filename i) (take size bytes) })
        filename size n (suc i) (drop size bytes) in
    if os.can_write a.files (chunk_path a filename i) then rest else none

-- From the allocation of `buf` to the end of the loop. With a block that is not given, or a file that
-- cannot be opened, the first fread goes to or from NULL, and fclose takes a NULL; a negative size
-- makes one chunk at most, whose block is never given.
unfoldable pub split_file : ⦃os : Os⦄ → App → Text → Text → Text → ℤ → ℤ → Option App
unfolding write_chunks
split_file ⦃os⦄ a filepath filename bytes (pos size) (pos n) =
    if not (os.can_read a.files filepath)
    then none
    else if os.can_allocate size
    then write_chunks a filename size n 0 bytes
    else if n == 0
    then some a
    else none
split_file ⦃os⦄ a filepath filename bytes (negsuc size) (pos n) =
    if os.can_read a.files filepath then if n == 0 then some a else none else none
split_file ⦃os⦄ a filepath filename bytes size (negsuc n) =
    if os.can_read a.files filepath then some a else none

module _ ⦃os : Os⦄ ⦃pb : Protobuf⦄ where
  abbrev pub register_request : Text → ℤ → ImRequest
  register_request filename nchunks =
      request_of 8
        (RegisterFileRequest.to_bytes (record { filename = filename; chunks = to_u32 nchunks }))

  -- From mkdir on.
  unfoldable pub register_file : App → Text → Text → ℤ → ℤ → Outcome
  unfolding split_file base_name
  register_file a filepath bytes size n =
      let dir = file_dir a (base_name filepath) in
      if elim (a.files dir) [ none ↦ os.can_make a.files dir | some node ↦ false ]
      then split_file (record a { files = make_dir a.files dir }) filepath (base_name filepath)
          bytes size n
        >>= (λ a'. some (a', some (register_request (base_name filepath) n)))
      else some (
        prints a (
            codes "Error: couldn't create "
            ++ (dir ++ codes ". Did you already register file of same name?")),
        none,
      )

  -- From the question for the size on.
  unfoldable pub ask_chunk_size : App → Text → Text → Outcome
  unfolding chunk_size chunk_count summary_text register_file base_name
  ask_chunk_size a filepath bytes =
      let name = base_name filepath in
      fgets bufsiz a.stdin >>= λ r.
      let size = chunk_size r.0 in
      let n = chunk_count (length bytes) size in
      let a' =
        record (prints
          (prints a (
            name
            ++ (codes " is a valid file with " ++ (decimal (length bytes) ++ codes " bytes!\n"))))
          (codes "How large do you want a chunk to be (in bytes) [default 1024]: ")) {
            stdin = r.1;
          } in
      confirm (suc (length a'.stdin)) (summary_text name filepath (length bytes) size n)
        (codes "I didn't get that...\n") a'
      >>= λ q. if q.0 then register_file q.1 filepath bytes size n else some (q.1, none)

  -- cmd_regfile_impl
  unfoldable pub cmd_regfile_impl : App → Text → Outcome
  unfolding confirm choose_path ask_chunk_size
  cmd_regfile_impl a req =
      confirm (suc (length a.stdin)) sure_text (codes "I didn't get that...\n\n") a >>= λ q.
      if q.0
      then choose_path (suc (length q.1.stdin)) q.1 >>= (λ r. ask_chunk_size r.2 r.0 r.1)
      else some (q.1, none)

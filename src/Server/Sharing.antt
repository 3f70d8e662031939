-- ===== src/Server/Sharing.antt =====
-- serverlib/commands/regfile.c, regchunk.c and searchfile.c.
use epoll_chat.Common.{
  ℕ, ◌+◌, ◌-◌, Bool, true, false, List, [], ◌∷◌, ◌++◌, Text, none, some, if◌then◌else◌, codes, ◌==◌,
  ltb, length, set, replicate, decimal,
}
use epoll_chat.Protobuf.{Protobuf, c_string}
use epoll_chat.Proto.RegisterFileRequest.{RegisterFileRequest}
use epoll_chat.Proto.RegisterChunkRequest.{RegisterChunkRequest}
use epoll_chat.Proto.SearchFileRequest.{SearchFileRequest}
use epoll_chat.World.{World, FileEntry}
use epoll_chat.Delivery.{is_user_logged_in}
use epoll_chat.Auth.{user_linked_list_to_string}
use epoll_chat.Files.{
  find_file, add_file, reg_all_file_chunk, reg_file_chunk, Holding, no_chunk, some_chunk,
  wanted_chunk, client_has_file_chunks, parse_packed_uint32,
}
use epoll_chat.Server.Accounts.{Reply, text_reply, if_logged_in}
use epoll_chat.Server.Talk.{shown}

abbrev pub same_holding : Holding → Holding → Bool
same_holding no_chunk no_chunk = true
same_holding some_chunk some_chunk = true
same_holding wanted_chunk wanted_chunk = true
same_holding _ _ = false

-- One round of usersWithChunks: whether the user is taken, and the mask after it.
unfoldable pub check_user :
    World → FileEntry → List Bool → Holding → ℕ → List Bool → Bool × List Bool
check_user w f wanted target u has = elim (w.users u).client [
  | none ↦ (false, has)
  | some c ↦
      let r = client_has_file_chunks w c f wanted has in
      if is_user_logged_in w u then (same_holding r.0 target, r.1) else (false, has)
]

-- usersWithChunks over the list of users
unfoldable pub users_with_chunks :
    World → FileEntry → List Bool → Holding → List ℕ → List Bool → List ℕ × List Bool
users_with_chunks w f wanted target [] has = ([], has)
users_with_chunks w f wanted target (u ∷ us) has =
    let r = check_user w f wanted target u has in
    let rest = users_with_chunks w f wanted target us r.1 in
    (if r.0 then u ∷ rest.0 else rest.0, rest.1)

-- `wantedchunkmask` after the loop over the requested chunks
unfoldable pub mark_wanted : ℕ → List ℕ → List Bool → List Bool
mark_wanted n [] mask = mask
mark_wanted n (k ∷ ks) mask = mark_wanted n ks (if ltb k n then set mask k true else mask)

-- `chfcTarget` and `chfcDescription`
abbrev pub chunk_target : List ℕ → Holding
chunk_target [] = some_chunk
chunk_target (k ∷ ks) = wanted_chunk

abbrev pub target_description : List ℕ → Text
target_description [] = codes "any"
target_description (k ∷ ks) = codes "your requested"

-- The count of `haschunkmask`.
unfoldable pub count_chunks : List Bool → ℕ
count_chunks [] = 0
count_chunks (b ∷ bs) = (if b then 1 else 0) + count_chunks bs

-- What cmd_searchfile_impl finds out: the users listed, and the chunks that are available.
unfoldable pub search_result : World → FileEntry → List ℕ → List ℕ × List Bool
search_result w f chunks =
    users_with_chunks w f (mark_wanted f.chunks chunks (replicate f.chunks false))
      (chunk_target chunks) w.db.first (replicate f.chunks false)

-- The two texts of cmd_searchfile_impl.
unfoldable pub search_text : Text → FileEntry → List ℕ → Text → ℕ → Text
search_text name f chunks users haschunks =
    if haschunks == f.chunks
    then name
      ++ (codes " is registered on server with "
          ++ (decimal f.chunks
              ++ (codes " chunks. All chunks are currently available. Below are users with "
                  ++ (target_description chunks
                      ++ (codes " chunks:\n"
                          ++ (users
                              ++ (codes
                                    "\nAfter downloading all chunks, cd into your clientdata directory and run `cat "
                                  ++ (name
                                      ++ (codes "/{0.."
                                          ++ (decimal (f.chunks - 1)
                                              ++ (codes "} > "
                                                  ++ (name ++ codes ".merged`"))))))))))))
    else name
      ++ (codes " is registered on server with "
          ++ (decimal f.chunks
              ++ (codes " chunks. Only "
                  ++ (decimal haschunks
                      ++ (codes
                            " chunks are available (registered by currently online clients). Below are users with "
                          ++ (target_description chunks ++ (codes " chunks:\n" ++ users)))))))

module _ ⦃pb : Protobuf⦄ where
  unfoldable pub regfile_reply : World → ℕ → Text → ℕ → Reply
  unfolding text_reply
  regfile_reply w c name chunks =
      let (w', f) = add_file w name chunks in
      elim f [
        | none ↦ text_reply w' (name ++ codes " already exists") false
        | some file ↦
            text_reply (reg_all_file_chunk w' c file) (name ++ codes " successfully registered")
              true
      ]

  -- cmd_regfile_impl
  unfoldable pub cmd_regfile : World → ℕ → RegisterFileRequest → Reply
  cmd_regfile w c req = if_logged_in w c λ me. regfile_reply w c (c_string req.filename) req.chunks

  unfoldable pub regchunk_reply : World → ℕ → Text → Text → Reply
  unfolding text_reply
  regchunk_reply w c name packed = elim (find_file w name) [
    | none ↦ text_reply w (name ++ codes " does not exist on server. Register it first") false
    | some f ↦
        let chunks = parse_packed_uint32 packed in
        text_reply (reg_file_chunk w c f chunks)
          (codes "Successfully registered "
            ++ (decimal (length chunks) ++ (codes " chunks for " ++ name)))
          true
  ]

  -- cmd_regchunk_impl
  unfoldable pub cmd_regchunk : World → ℕ → RegisterChunkRequest → Reply
  cmd_regchunk w c req =
      if_logged_in w c λ me. regchunk_reply w c (c_string req.filename) req.chunks

  unfoldable pub searchfile_reply : World → Text → Text → Reply
  unfolding text_reply search_text
  searchfile_reply w name packed = elim (find_file w name) [
    | none ↦ text_reply w (name ++ codes " is not available on server (not yet registered).") false
    | some f ↦
        let chunks = parse_packed_uint32 packed in
        let r = search_result w f chunks in
        text_reply w
          (search_text name f chunks (shown (user_linked_list_to_string w r.0 (codes "\n")).0)
            (count_chunks r.1))
          true
  ]

  -- cmd_searchfile_impl
  unfoldable pub cmd_searchfile : World → ℕ → SearchFileRequest → Reply
  cmd_searchfile w c req =
      if_logged_in w c λ me. searchfile_reply w (c_string req.filename) req.chunks

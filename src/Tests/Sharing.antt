-- ===== src/Tests/Sharing.antt =====
-- Registered files, their chunks and searches.
use epoll_chat.Common.{
  ◌≡◌, ◌≢◌, ◌⊎◌, inl, ◌<◌, ◌≤◌, ◌+◌, ◌-◌, ◌&&◌, true, false, [], ◌∷◌, ◌++◌, refl, Text, none, some,
  codes, arith, contains, get_or, replicate,
}
use epoll_chat.Protobuf.{sample}
use epoll_chat.Trie.{find_node}
use epoll_chat.World.{FileEntry}
use epoll_chat.Delivery.{is_user_logged_in}
use epoll_chat.Files.{add_file, find_file, reg_file_chunk, client_has_file_chunks}
use epoll_chat.Files.Ranges.{RangesApart, add_file-RangesApart, find_file-add_file}
use epoll_chat.Files.Chunks.{foreign_chunk}
use epoll_chat.Server.Sharing.{search_result}
use epoll_chat.Server.Search.{
  search_result-available, search_result-users, is_available, any_asked, held_ids,
}
use epoll_chat.Tests.Data.{online}

abbrev song : Text
song = codes "song"

abbrev two_chunks : FileEntry
two_chunks = record { chunks = 2; chunk_sid = 0 }

abbrev next_three : FileEntry
next_three = record { chunks = 3; chunk_sid = 2 }

no_files : RangesApart online
unfolding find_node
no_files = record { below = λ s. omega arith; apart = λ s t n. inl (omega arith) }

add_file-RangesApart_example : RangesApart (add_file online song 3).0
add_file-RangesApart_example = add_file-RangesApart online song 3 (omega arith) no_files

find_file-add_file_example :
    (((add_file online song 3).1 ≡ none)
      × (find_file (add_file online song 3).0 song ≡ find_file online song)
      × (find_file online song ≢ none))
    ⊎ (((add_file online song 3).1 ≡ some (record { chunks = 3; chunk_sid = 2 }))
        × (find_file online song ≡ none)
        × (0 < 3 → find_file (add_file online song 3).0 song ≡ (add_file online song 3).1))
find_file-add_file_example = find_file-add_file online song 3

foreign_chunk_example :
    let w' = reg_file_chunk online 0 two_chunks ((2 + 1 - 0) ∷ []) in
    (2 ≤ 2 + 1 - 0)
    × ((w'.clients 0).chunkids ≡ (online.clients 0).chunkids ++ ((2 + 1) ∷ []))
    × (get_or (client_has_file_chunks w' 0 next_three [] (replicate 3 false)).1 1 false ≡ true)
foreign_chunk_example =
    foreign_chunk online 0 two_chunks next_three 1 [] (replicate 3 false) (omega arith)
      (omega arith) (omega arith) refl

search_result-available_example :
    get_or (search_result online two_chunks []).1 1 false ≡ is_available online (0 + 1) (1 ∷ 0 ∷ [])
search_result-available_example =
    search_result-available online two_chunks [] 1 (omega arith) (omega arith)

search_result-users_example : contains (search_result online two_chunks (1 ∷ [])).0 0 ≡ (
    contains (1 ∷ 0 ∷ []) 0
    && (is_user_logged_in online 0 && any_asked two_chunks (1 ∷ []) (held_ids online 0)))
search_result-users_example = search_result-users online two_chunks (1 ∷ []) 0 (omega arith)

-- ===== src/Files.antt =====
-- lib/file.h, lib/file.c and the packed numbers of lib/socket.c: registered files and their chunks.
pub mod Packing
pub mod Values
pub mod Ranges
pub mod Chunks
use epoll_chat.Common.{
  ℕ, zero, suc, ◌+◌, ◌-◌, ◌*◌, ◌%◌, ◌/◌, ◌^◌, Bool, true, false, ◌&&◌, List, [], ◌∷◌, ◌++◌, Text,
  Option, none, some, if◌then◌else◌, ltb, leb, ◌==◌, length, get_or, set,
}
use epoll_chat.Trie.{Trie, find_node, modify_node, entry}
use epoll_chat.World.{World, FileEntry, Client, put_client}

-- `uint32_t` arithmetic
abbrev pub u32 : ℕ → ℕ
u32 n = n % 2 ^ 32

-- The entry of a new node; its `chunk_sid` is not read before it is written.
abbrev pub no_file : FileEntry
no_file = record { chunks = 0; chunk_sid = 0 }

abbrev pub file_at : Trie FileEntry → Text → FileEntry
file_at t filename = entry no_file (find_node t filename)

-- findFile
unfoldable pub find_file : World → Text → Option FileEntry
find_file w filename = let f = file_at w.file_db filename in if ltb 0 f.chunks then some f else none

-- The writes of addFile at the last node, unless it is an existing file.
abbrev pub register : ℕ → ℕ → FileEntry → FileEntry
register sid chunks f = if ltb 0 f.chunks then f else record { chunks = chunks; chunk_sid = sid }

-- addFile: NULL if the file exists. The nodes on the way are made in both cases.
unfoldable pub add_file : World → Text → ℕ → World × Option FileEntry
add_file w filename chunks =
    let w' = record w {
      file_db = modify_node no_file (register w.global_chunk_id chunks) filename w.file_db;
    } in
    if ltb 0 (file_at w.file_db filename).chunks then (w', none) else (
      record w' { global_chunk_id = u32 (w.global_chunk_id + chunks) },
      some (record { chunks = chunks; chunk_sid = w.global_chunk_id }),
    )

-- `n` numbers from `sid` on
unfoldable pub chunk_ids : ℕ → ℕ → List ℕ
chunk_ids sid zero = []
chunk_ids sid (suc n) = sid ∷ chunk_ids (u32 (sid + 1)) n

-- regAllFileChunk
unfoldable pub reg_all_file_chunk : World → ℕ → FileEntry → World
unfolding chunk_ids
reg_all_file_chunk w c f =
    put_client w c
      (record (w.clients c) { chunkids = (w.clients c).chunkids ++ chunk_ids f.chunk_sid f.chunks })

-- The loop of regFileChunk; a chunk number is not compared with `file->chunks`.
unfoldable pub global_ids : FileEntry → List ℕ → List ℕ
global_ids f [] = []
global_ids f (k ∷ ks) = u32 (f.chunk_sid + k) ∷ global_ids f ks

-- regFileChunk
unfoldable pub reg_file_chunk : World → ℕ → FileEntry → List ℕ → World
unfolding global_ids
reg_file_chunk w c f chunks =
    put_client w c
      (record (w.clients c) { chunkids = (w.clients c).chunkids ++ global_ids f chunks })

-- What clientHasFileChunks returns: 0, 1 and 2.
pub data Holding : Type 0 where
  no_chunk some_chunk wanted_chunk : Holding

-- `chunkids[i] >= sid && chunkids[i] < eid`
unfoldable pub in_file : FileEntry → ℕ → Bool
in_file f id = leb f.chunk_sid id && ltb id (u32 (f.chunk_sid + f.chunks))

-- `if (ret == 0) ret = 1; if (wantedchunkmask[…]) ret = 2;`
abbrev pub raise : Bool → Holding → Holding
raise true r = wanted_chunk
raise false no_chunk = some_chunk
raise false some_chunk = some_chunk
raise false wanted_chunk = wanted_chunk

-- The loop of clientHasFileChunks over the client's chunks, with `ret` and `haschunkmask`.
unfoldable pub check_chunks :
    FileEntry → List Bool → List ℕ → Holding → List Bool → Holding × List Bool
check_chunks f wanted [] ret has = (ret, has)
check_chunks f wanted (id ∷ ids) ret has =
    check_chunks f wanted ids
      (if in_file f id then raise (get_or wanted (id - f.chunk_sid) false) ret else ret)
      (if in_file f id then set has (id - f.chunk_sid) true else has)

-- clientHasFileChunks
unfoldable pub client_has_file_chunks :
    World → ℕ → FileEntry → List Bool → List Bool → Holding × List Bool
unfolding check_chunks
client_has_file_chunks w c f wanted has = check_chunks f wanted (w.clients c).chunkids no_chunk has

-- parse_packed_uint32: whole words of four bytes, little-endian; what is left over is dropped.
unfoldable pub parse_packed_uint32 : Text → List ℕ
parse_packed_uint32 (a ∷ b ∷ c ∷ d ∷ rest) =
    (a + 256 * b + 65536 * c + 16777216 * d) ∷ parse_packed_uint32 rest
parse_packed_uint32 other = []

-- The second loop of pack_repeated_uint32_from_str, which stores the numbers as words.
unfoldable pub pack_uint32 : List ℕ → Text
pack_uint32 [] = []
pack_uint32 (v ∷ vs) =
    (v % 256) ∷ (v / 256 % 256) ∷ (v / 65536 % 256) ∷ (v / 16777216 % 256) ∷ pack_uint32 vs

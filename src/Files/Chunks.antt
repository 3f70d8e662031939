-- ===== src/Files/Chunks.antt =====
-- What clientHasFileChunks finds out about a client, against the numbers that the client holds.
use epoll_chat.Common.{
  ℕ, zero, suc, ◌+◌, ◌-◌, ◌≤◌, ◌<◌, ◌^◌, ◌≡◌, refl, ◌∙◌, Bool, true, false, ◌&&◌, ◌||◌, List, [],
  ◌∷◌, ◌++◌, if◌then◌else◌, ltb, leb, ◌==◌, length, get_or, set, length-set, contains, arith,
  ==_refl,
}
use epoll_chat.World.{World, FileEntry}
use epoll_chat.Files.{
  u32, in_file, check_chunks, Holding, no_chunk, some_chunk, wanted_chunk, raise, global_ids,
  reg_file_chunk, client_has_file_chunks, chunk_ids,
}

pub get_or-set :
    (xs : List Bool) (i j : ℕ)
    → j < length xs
    → get_or (set xs i true) j false ≡ ((i == j) || get_or xs j false)
get_or-set [] i j h = absurd (omega arith)
get_or-set (x ∷ xs) zero zero h = refl
get_or-set (x ∷ xs) zero (suc j) h = ground arith
get_or-set (x ∷ xs) (suc i) zero h = ground arith
get_or-set (x ∷ xs) (suc i) (suc j) h = get_or-set xs i j (omega arith) ∙ ground arith

-- The numbers of a file fit in 32 bits.
abbrev pub RangeFits : FileEntry → Type 0
RangeFits f = f.chunk_sid + f.chunks < 2 ^ 32

-- After clientHasFileChunks the mask has chunk `i` exactly if it had it or the client holds it.
pub check_chunks-mask :
    (f : FileEntry) (wanted : List Bool) (ids : List ℕ) (ret : Holding) (has : List Bool) (i : ℕ)
    → RangeFits f
    → length has ≡ f.chunks
    → i < f.chunks
    → get_or (check_chunks f wanted ids ret has).1 i false
      ≡ (get_or has i false || contains ids (f.chunk_sid + i))
unfolding check_chunks in_file
check_chunks-mask f wanted [] ret has i fits len h = ground arith
check_chunks-mask f wanted (id ∷ ids) ret has i fits len h =
    check_chunks-mask f wanted ids _ _ i fits
      (ground (arith, len, length-set has (id - f.chunk_sid) true)) h
    ∙ ground (arith, get_or-set has (id - f.chunk_sid) i (omega arith))

-- Whether a number in the list belongs to the file, and to a wanted chunk of it.
abbrev pub any_chunk : FileEntry → List ℕ → Bool
any_chunk f [] = false
any_chunk f (id ∷ ids) = in_file f id || any_chunk f ids

abbrev pub any_wanted : FileEntry → List Bool → List ℕ → Bool
any_wanted f wanted [] = false
any_wanted f wanted (id ∷ ids) =
    (in_file f id && get_or wanted (id - f.chunk_sid) false) || any_wanted f wanted ids

check_chunks-holding_from :
    (f : FileEntry) (wanted : List Bool) (ids : List ℕ) (ret : Holding) (has : List Bool)
    → (check_chunks f wanted ids ret has).0 ≡ (
        if any_wanted f wanted ids
        then wanted_chunk
        else (if any_chunk f ids then raise false ret else ret))
unfolding check_chunks
check_chunks-holding_from f wanted [] ret has = refl
check_chunks-holding_from f wanted (id ∷ ids) ret has =
    check_chunks-holding_from f wanted ids
      (if in_file f id then raise (get_or wanted (id - f.chunk_sid) false) ret else ret)
      (if in_file f id then set has (id - f.chunk_sid) true else has)
    ∙ ground arith

-- What clientHasFileChunks returns: 2 if the client holds a wanted chunk, otherwise 1 if it holds
-- a chunk of the file, otherwise 0.
pub check_chunks-holding :
    (f : FileEntry) (wanted : List Bool) (ids : List ℕ) (has : List Bool)
    → (check_chunks f wanted ids no_chunk has).0 ≡ (
        if any_wanted f wanted ids
        then wanted_chunk
        else (if any_chunk f ids then some_chunk else no_chunk))
check_chunks-holding f wanted ids has = check_chunks-holding_from f wanted ids no_chunk has

pub length-check_chunks :
    (f : FileEntry) (wanted : List Bool) (ids : List ℕ) (ret : Holding) (has : List Bool)
    → length (check_chunks f wanted ids ret has).1 ≡ length has
unfolding check_chunks
length-check_chunks f wanted [] ret has = refl
length-check_chunks f wanted (id ∷ ids) ret has =
    length-check_chunks f wanted ids _ _ ∙ ground (arith, length-set has (id - f.chunk_sid) true)

pub contains-append :
    (xs ys : List ℕ) (a : ℕ) → contains (xs ++ ys) a ≡ (contains xs a || contains ys a)
contains-append [] ys a = refl
contains-append (x ∷ xs) ys a = ground (arith, contains-append xs ys a)

-- The numbers that regAllFileChunk adds are those of the file.
pub contains-chunk_ids :
    (sid n a : ℕ) → sid + n < 2 ^ 32 → contains (chunk_ids sid n) a ≡ (leb sid a && ltb a (sid + n))
unfolding chunk_ids
contains-chunk_ids sid zero a h = ground arith
contains-chunk_ids sid (suc n) a h =
    ground (arith, contains-chunk_ids (u32 (sid + 1)) n a (omega arith))

-- regFileChunk takes a chunk number that the file does not have: with the distance to a chunk of a
-- file whose range stands behind, its numbers within 32 bits, it puts that chunk's number behind the
-- numbers of the client, and clientHasFileChunks then finds the client to hold that chunk of the
-- other file.
pub foreign_chunk :
    (w : World) (c : ℕ) (f g : FileEntry) (j : ℕ) (wanted has : List Bool)
    → RangeFits g
    → f.chunk_sid + f.chunks ≤ g.chunk_sid
    → j < g.chunks
    → length has ≡ g.chunks
    → let k = g.chunk_sid + j - f.chunk_sid in
      let w' = reg_file_chunk w c f (k ∷ []) in
      (f.chunks ≤ k)
      × ((w'.clients c).chunkids ≡ (w.clients c).chunkids ++ ((g.chunk_sid + j) ∷ []))
      × (get_or (client_has_file_chunks w' c g wanted has).1 j false ≡ true)
unfolding reg_file_chunk client_has_file_chunks global_ids
foreign_chunk w c f g j wanted has fits apart h len =
    let ids = (w.clients c).chunkids in
    let id = g.chunk_sid + j in
    let number : u32 (f.chunk_sid + (id - f.chunk_sid)) ≡ id = ground arith in
    (
      omega arith,
      rw (==_refl c, number) refl,
      rw (==_refl c, number)
          (check_chunks-mask g wanted (ids ++ (id ∷ [])) no_chunk has j fits len h
            ∙ ground (arith, contains-append ids (id ∷ []) id)),
    )

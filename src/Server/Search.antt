-- ===== src/Server/Search.antt =====
-- What cmd_searchfile_impl tells: which chunks are available, and who has them.
use epoll_chat.Common.{
  ℕ, zero, suc, ◌+◌, ◌<◌, ◌≡◌, refl, ap, ◌∙◌, inl, inr, Bool, false, ◌&&◌, ◌||◌, List, [], ◌∷◌,
  none, some, if◌then◌else◌, length, get_or, replicate, contains, arith, Option-cases, Bool-cases,
  true, leb, ltb, ◌-◌, set, length-set,
}
use epoll_chat.World.{World, FileEntry}
use epoll_chat.Delivery.{is_user_logged_in}
use epoll_chat.Files.{in_file, client_has_file_chunks, Holding, no_chunk, some_chunk, wanted_chunk}
use epoll_chat.Files.Chunks.{
  RangeFits, get_or-set, any_chunk, any_wanted, check_chunks-mask, check_chunks-holding,
  length-check_chunks,
}
use epoll_chat.Server.Sharing.{
  check_user, users_with_chunks, mark_wanted, chunk_target, search_result, same_holding,
}

-- The numbers that a user's client holds, none without a client.
abbrev pub held_ids : World → ℕ → List ℕ
held_ids w u = elim (w.users u).client [ none ↦ [] | some c ↦ (w.clients c).chunkids ]

-- Whether a user of the list who is online holds the chunk.
abbrev pub is_available : World → ℕ → List ℕ → Bool
is_available w id [] = false
is_available w id (u ∷ us) =
    (is_user_logged_in w u && contains (held_ids w u) id) || is_available w id us

check_user-mask :
    (w : World) (f : FileEntry) (wanted : List Bool) (target : Holding) (u : ℕ) (has : List Bool)
    (i : ℕ)
    → RangeFits f
    → length has ≡ f.chunks
    → i < f.chunks
    → (length (check_user w f wanted target u has).1 ≡ f.chunks)
      × (get_or (check_user w f wanted target u has).1 i false ≡ (
          get_or has i false
          || (is_user_logged_in w u && contains (held_ids w u) (f.chunk_sid + i))))
unfolding check_user client_has_file_chunks is_user_logged_in
check_user-mask w f wanted target u has i fits len h = elim (Option-cases (w.users u).client) [
  | inl e ↦ ground (arith, e)
  | inr (c, e) ↦ ground (
    arith,
    e,
    check_chunks-mask f wanted (w.clients c).chunkids no_chunk has i fits len h,
    length-check_chunks f wanted (w.clients c).chunkids no_chunk has,
  )
]

users_with_chunks-mask :
    (w : World) (f : FileEntry) (wanted : List Bool) (target : Holding) (us : List ℕ)
    (has : List Bool) (i : ℕ)
    → RangeFits f
    → length has ≡ f.chunks
    → i < f.chunks
    → get_or (users_with_chunks w f wanted target us has).1 i false
      ≡ (get_or has i false || is_available w (f.chunk_sid + i) us)
unfolding users_with_chunks
users_with_chunks-mask w f wanted target [] has i fits len h = ground arith
users_with_chunks-mask w f wanted target (u ∷ us) has i fits len h =
    let one = check_user-mask w f wanted target u has i fits len h in
    users_with_chunks-mask w f wanted target us (check_user w f wanted target u has).1 i fits one.0
      h
    ∙ ground (arith, one.1)

get_or-replicate : (n i : ℕ) → get_or (replicate n false) i false ≡ false
get_or-replicate zero i = refl
get_or-replicate (suc n) zero = refl
get_or-replicate (suc n) (suc i) = get_or-replicate n i

length-replicate : (n : ℕ) → length (replicate n false) ≡ n
length-replicate zero = refl
length-replicate (suc n) = ap suc (length-replicate n)

-- In a search for a file whose numbers fit in 32 bits, each of its chunks counts as available
-- exactly if a user of the database who is online holds it.
pub search_result-available :
    (w : World) (f : FileEntry) (chunks : List ℕ) (i : ℕ)
    → RangeFits f
    → i < f.chunks
    → get_or (search_result w f chunks).1 i false ≡ is_available w (f.chunk_sid + i) w.db.first
unfolding search_result
search_result-available w f chunks i fits h =
    users_with_chunks-mask w f _ _ w.db.first (replicate f.chunks false) i fits
      (length-replicate f.chunks) h
    ∙ ground (arith, get_or-replicate f.chunks i)

-- Whether a user has what was asked for: a requested chunk, or any chunk where none was requested.
abbrev pub is_match : FileEntry → List Bool → Holding → List ℕ → Bool
is_match f wanted target ids =
    same_holding
      (if any_wanted f wanted ids
        then wanted_chunk
        else (if any_chunk f ids then some_chunk else no_chunk))
      target

check_user-match :
    (w : World) (f : FileEntry) (wanted : List Bool) (target : Holding) (u : ℕ) (has : List Bool)
    → (check_user w f wanted target u has).0
      ≡ (is_user_logged_in w u && is_match f wanted target (held_ids w u))
unfolding check_user client_has_file_chunks is_user_logged_in
check_user-match w f wanted target u has = elim (Option-cases (w.users u).client) [
  | inl e ↦ ground (arith, e)
  | inr (c, e) ↦ ground (arith, e, check_chunks-holding f wanted (w.clients c).chunkids has)
]

users_with_chunks-users :
    (w : World) (f : FileEntry) (wanted : List Bool) (target : Holding) (us : List ℕ)
    (has : List Bool) (v : ℕ)
    → contains (users_with_chunks w f wanted target us has).0 v
      ≡ (contains us v && (is_user_logged_in w v && is_match f wanted target (held_ids w v)))
unfolding users_with_chunks
users_with_chunks-users w f wanted target [] has v = refl
users_with_chunks-users w f wanted target (u ∷ us) has v = ground (
  arith,
  check_user-match w f wanted target u has,
  users_with_chunks-users w f wanted target us (check_user w f wanted target u has).1 v,
)

-- Whether a number is that of a chunk of the file which was asked for: a requested one, or any one
-- where none was requested.
abbrev pub is_asked : FileEntry → List ℕ → ℕ → Bool
is_asked f [] id = leb f.chunk_sid id && ltb id (f.chunk_sid + f.chunks)
is_asked f (k ∷ ks) id =
    (leb f.chunk_sid id && ltb id (f.chunk_sid + f.chunks)) && contains (k ∷ ks) (id - f.chunk_sid)

-- Whether one of the numbers is.
abbrev pub any_asked : FileEntry → List ℕ → List ℕ → Bool
any_asked f ks [] = false
any_asked f ks (id ∷ ids) = is_asked f ks id || any_asked f ks ids

get_or-mark_wanted :
    (n : ℕ) (ks : List ℕ) (mask : List Bool) (i : ℕ)
    → length mask ≡ n
    → i < n
    → get_or (mark_wanted n ks mask) i false ≡ (get_or mask i false || contains ks i)
unfolding mark_wanted
get_or-mark_wanted n [] mask i len h = ground arith
get_or-mark_wanted n (k ∷ ks) mask i len h =
    get_or-mark_wanted n ks (if ltb k n then set mask k true else mask) i
      (ground (arith, len, length-set mask k true)) h
    ∙ ground (arith, get_or-set mask k i (omega arith))

any_wanted-asked :
    (f : FileEntry) (k : ℕ) (ks ids : List ℕ)
    → RangeFits f
    → any_wanted f (mark_wanted f.chunks (k ∷ ks) (replicate f.chunks false)) ids
      ≡ any_asked f (k ∷ ks) ids
unfolding in_file
any_wanted-asked f k ks [] fits = refl
any_wanted-asked f k ks (id ∷ ids) fits =
    let rest = any_wanted-asked f k ks ids fits in
    elim (Bool-cases (leb f.chunk_sid id && ltb id (f.chunk_sid + f.chunks))) [
      | inl e ↦
          let at =
            get_or-mark_wanted f.chunks (k ∷ ks) (replicate f.chunks false) (id - f.chunk_sid)
              (length-replicate f.chunks) (ground arith)
            ∙ ap (λ b. b || contains (k ∷ ks) (id - f.chunk_sid))
                (get_or-replicate f.chunks (id - f.chunk_sid)) in
          ground (arith, e, at, rest)
      | inr e ↦ ground (arith, e, rest)
    ]

any_chunk-asked :
    (f : FileEntry) (ids : List ℕ) → RangeFits f → any_chunk f ids ≡ any_asked f [] ids
unfolding in_file
any_chunk-asked f [] fits = refl
any_chunk-asked f (id ∷ ids) fits = ground (arith, any_chunk-asked f ids fits)

any_wanted_none :
    (f : FileEntry) (n : ℕ) (ids : List ℕ) → any_wanted f (replicate n false) ids ≡ false
any_wanted_none f n [] = refl
any_wanted_none f n (id ∷ ids) =
    ground (arith, get_or-replicate n (id - f.chunk_sid), any_wanted_none f n ids)

is_match-asked :
    (f : FileEntry) (ks ids : List ℕ)
    → RangeFits f
    → is_match f (mark_wanted f.chunks ks (replicate f.chunks false)) (chunk_target ks) ids
      ≡ any_asked f ks ids
unfolding mark_wanted
is_match-asked f [] ids fits =
    rw (any_wanted_none f f.chunks ids, any_chunk-asked f ids fits)
      (elim (Bool-cases (any_asked f [] ids)) [ inl e ↦ rw e refl | inr e ↦ rw e refl ])
is_match-asked f (k ∷ ks) ids fits =
    rw (any_wanted-asked f k ks ids fits) (elim (Bool-cases (any_asked f (k ∷ ks) ids)) [
      | inl e ↦ rw e refl
      | inr e ↦ rw e (elim (Bool-cases (any_chunk f ids)) [ inl q ↦ rw q refl | inr q ↦ rw q refl ])
    ])

-- In a search for a file whose numbers fit in 32 bits, the users listed are exactly those of the
-- database who are online and hold a requested chunk of the file, or any chunk of it where none was
-- requested.
pub search_result-users :
    (w : World) (f : FileEntry) (chunks : List ℕ) (v : ℕ)
    → RangeFits f
    → contains (search_result w f chunks).0 v
      ≡ (contains w.db.first v && (is_user_logged_in w v && any_asked f chunks (held_ids w v)))
unfolding search_result
search_result-users w f chunks v fits =
    users_with_chunks-users w f _ (chunk_target chunks) w.db.first (replicate f.chunks false) v
    ∙ ap (λ b. contains w.db.first v && (is_user_logged_in w v && b))
        (is_match-asked f chunks (held_ids w v) fits)

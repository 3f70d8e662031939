-- ===== src/Files/Ranges.antt =====
-- The ranges of chunk numbers of registered files.
use epoll_chat.Common.{
  ℕ, ◌+◌, ◌≤◌, ◌<◌, ◌^◌, ◌≡◌, ap, ◌∙◌, ◌⊎◌, ◌≢◌, inl, inr, false, Text, none, some, if◌then◌else◌,
  ltb, text_eq, arith, Bool-cases, text_eq_refl, text_eq_iff,
}
use epoll_chat.Trie.{modify_node}
use epoll_chat.Trie.Laws.{entry-modify_node}
use epoll_chat.World.{World, FileEntry}
use epoll_chat.Files.{file_at, find_file, add_file, register, no_file, u32}

-- The file under a name, no file where there is none.
abbrev pub file_of : World → Text → FileEntry
file_of w s = file_at w.file_db s

abbrev pub range_end : FileEntry → ℕ
range_end f = f.chunk_sid + f.chunks

-- Every range ends below the next number to give out, and two files share no number.
pub record RangesApart (w : World) : Type 0 where
  pub below : (s : Text) → range_end (file_of w s) ≤ w.global_chunk_id
  pub apart :
      (s t : Text)
      → text_eq s t ≡ false
      → (range_end (file_of w s) ≤ (file_of w t).chunk_sid)
        ⊎ (range_end (file_of w t) ≤ (file_of w s).chunk_sid)
        ⊎ ((file_of w s).chunks ≡ 0)
        ⊎ ((file_of w t).chunks ≡ 0)

file_db-add_file :
    (w : World) (name : Text) (chunks : ℕ)
    → (add_file w name chunks).0.file_db
      ≡ modify_node no_file (register w.global_chunk_id chunks) name w.file_db
unfolding add_file
file_db-add_file w name chunks = elim (Bool-cases (ltb 0 (file_of w name).chunks)) [
  | inl e ↦ rw e
  | inr e ↦ rw e
]

next_id-add_file :
    (w : World) (name : Text) (chunks : ℕ)
    → (add_file w name chunks).0.global_chunk_id ≡ (
        if ltb 0 (file_of w name).chunks
        then w.global_chunk_id
        else u32 (w.global_chunk_id + chunks))
unfolding add_file
next_id-add_file w name chunks = elim (Bool-cases (ltb 0 (file_of w name).chunks)) [
  | inl e ↦ rw e
  | inr e ↦ rw e
]

-- addFile changes the entry of its name, unless that is a file already, and no other.
pub file_of-add_file :
    (w : World) (name key : Text) (chunks : ℕ)
    → file_of (add_file w name chunks).0 key ≡ (
        if text_eq name key
        then register w.global_chunk_id chunks (file_of w name)
        else file_of w key)
file_of-add_file w name key chunks =
    ap (λ db. file_at db key) (file_db-add_file w name chunks)
    ∙ entry-modify_node no_file (register w.global_chunk_id chunks) name key w.file_db

-- addFile keeps the ranges of the files apart, if they were apart and the numbers up to the end
-- of the new range fit in 32 bits.
pub add_file-RangesApart :
    (w : World) (name : Text) (chunks : ℕ)
    → w.global_chunk_id + chunks < 2 ^ 32
    → RangesApart w
    → RangesApart (add_file w name chunks).0
add_file-RangesApart w name chunks fits v = record {
  below = λ s. ground (
    arith,
    file_of-add_file w name s chunks,
    next_id-add_file w name chunks,
    v.below s,
    v.below name,
  );
  apart = λ s t n. ground (
    arith,
    file_of-add_file w name s chunks,
    file_of-add_file w name t chunks,
    v.below s,
    v.below t,
    v.apart s t n,
    text_eq_iff name s,
    text_eq_iff name t,
    text_eq_iff s t,
  );
}

result-add_file :
    (w : World) (name : Text) (chunks : ℕ)
    → (add_file w name chunks).1 ≡ (
        if ltb 0 (file_of w name).chunks
        then none
        else some (record { chunks = chunks; chunk_sid = w.global_chunk_id }))
unfolding add_file
result-add_file w name chunks = elim (Bool-cases (ltb 0 (file_of w name).chunks)) [
  | inl e ↦ rw e
  | inr e ↦ rw e
]

file_of-add_file_self :
    (w : World) (name : Text) (chunks : ℕ)
    → file_of (add_file w name chunks).0 name ≡ register w.global_chunk_id chunks (file_of w name)
file_of-add_file_self w name chunks = file_of-add_file w name name chunks ∙ rw (text_eq_refl name)

-- addFile gives NULL exactly for a name that findFile finds; otherwise the new file is found if it
-- has a chunk, with the next numbers as its range.
pub find_file-add_file :
    (w : World) (name : Text) (chunks : ℕ)
    → (((add_file w name chunks).1 ≡ none)
        × (find_file (add_file w name chunks).0 name ≡ find_file w name)
        × (find_file w name ≢ none))
      ⊎ (((add_file w name chunks).1
            ≡ some (record { chunks = chunks; chunk_sid = w.global_chunk_id }))
          × (find_file w name ≡ none)
          × (0 < chunks → find_file (add_file w name chunks).0 name ≡ (add_file w name chunks).1))
unfolding find_file
find_file-add_file w name chunks =
    ground (arith, result-add_file w name chunks, file_of-add_file_self w name chunks)

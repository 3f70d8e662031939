-- ===== src/ClientApp/RegFile/Split.antt =====
-- The chunk files that regfile writes, against the file that it cuts.
use epoll_chat.Common.{
  ℕ, zero, suc, ◌+◌, ◌*◌, ◌<◌, ◌≤◌, ◌^◌, ◌≡◌, refl, sym, ap, ap₂, subst, ◌∙◌, true, false, [], ◌++◌,
  Text, some, length, take, drop, take_all, take-add, length-take, arith,
}
use native.Mathlib.Nat.{suc-mul, zero-mul, le-mul_of_pos_right}
use epoll_chat.Common.Int.{pos}
use epoll_chat.ClientApp.{App, Os, regular, Files, chunk_path, bytes_of, store_file}
use epoll_chat.ClientApp.RegFile.{write_chunks, split_file, chunk_count}
use epoll_chat.ClientApp.RegFile.Count.{chunk_count-least}
use epoll_chat.ClientApp.Names.{same_path, same_path_refl}
use epoll_chat.ClientApp.Peers.Paths.{same_path-numbers}

-- The bytes of a chunk's file, and of `n` chunks from number `i` on.
abbrev pub chunk_at : App → Text → ℕ → Text
chunk_at a filename i = bytes_of (a.files (chunk_path a filename i))

abbrev pub joined : App → Text → ℕ → ℕ → Text
joined a filename i zero = []
joined a filename i (suc n) = chunk_at a filename i ++ joined a filename (suc i) n

-- Each of these has at most `size` bytes.
abbrev pub EachAtMost : ℕ → App → Text → ℕ → ℕ → Type 0
EachAtMost size a filename i zero = Unit {0}
EachAtMost size a filename i (suc n) =
    (length (chunk_at a filename i) ≤ size) × EachAtMost size a filename (suc i) n

record IsSplit (a : App) (filename : Text) (size n i : ℕ) (bytes : Text) (a' : App) : Type 0 where
  before : (j : ℕ) → j < i → a'.files (chunk_path a' filename j) ≡ a.files (chunk_path a filename j)
  all : joined a' filename i n ≡ take (n * size) bytes
  sizes : EachAtMost size a' filename i n

-- Every file of a chunk can be written.
abbrev pub Writable : Os → App → Text → Type 0
Writable os a filename =
    (files : Files) (i : ℕ) → os.can_write files (chunk_path a filename i) ≡ true

module _ ⦃os : Os⦄ where
  abbrev with_chunk : App → Text → ℕ → ℕ → Text → App
  with_chunk a filename size i bytes = record a {
    files = store_file a.files (chunk_path a filename i) (take size bytes);
  }

  step_lem :
      (a : App) (filename : Text) (size n i : ℕ) (bytes : Text)
      → Writable os a filename
      → write_chunks a filename size (suc n) i bytes
        ≡ write_chunks
            (with_chunk a filename size i bytes)
            filename
            size
            n
            (suc i)
            (drop size bytes)
  unfolding write_chunks
  step_lem a filename size n i bytes w = rw (w a.files i) refl

  done_lem :
      (a : App) (filename : Text) (size i : ℕ) (bytes : Text)
      → write_chunks a filename size zero i bytes ≡ some a
  unfolding write_chunks
  done_lem a filename size i bytes = refl

  chunk_stored :
      (a : App) (filename : Text) (size i : ℕ) (bytes : Text)
      → (with_chunk a filename size i bytes).files (chunk_path a filename i)
        ≡ some (regular (take size bytes))
  chunk_stored a filename size i bytes =
      rw (same_path_refl os.working_directory (chunk_path a filename i)) refl

  other_path :
      (a : App) (filename : Text) (j i : ℕ)
      → j < i
      → i < 2 ^ 63
      → same_path os.working_directory (chunk_path a filename j) (chunk_path a filename i) ≡ false
  other_path a filename j i l b =
      same_path-numbers os.working_directory a filename j i (omega arith) b ∙ ground arith

  chunk_kept :
      (a : App) (filename : Text) (size i j : ℕ) (bytes : Text)
      → j < i
      → i < 2 ^ 63
      → (with_chunk a filename size i bytes).files (chunk_path a filename j)
        ≡ a.files (chunk_path a filename j)
  chunk_kept a filename size i j bytes l b = rw (other_path a filename j i l b) refl

  write_chunks-IsSplit :
      (a : App) (filename : Text) (size n i : ℕ) (bytes : Text)
      → i + n < 2 ^ 63
      → Writable os a filename
      → (a' : App) × (write_chunks a filename size n i bytes ≡ some a')
        × IsSplit a filename size n i bytes a'
  write_chunks-IsSplit a filename size zero i bytes b w = (
    a,
    done_lem a filename size i bytes,
    record { before = λ j l. refl; all = ap (λ k. take k bytes) (sym (zero-mul size)); sizes = tt },
  )
  write_chunks-IsSplit a filename size (suc n) i bytes b w =
      let a1 = with_chunk a filename size i bytes in
      let (a', e, s) =
        write_chunks-IsSplit a1 filename size n (suc i) (drop size bytes) (omega arith) w in
      let here : a'.files (chunk_path a' filename i) ≡ some (regular (take size bytes)) =
        s.before i (omega arith) ∙ chunk_stored a filename size i bytes in
      (
        a',
        step_lem a filename size n i bytes w ∙ e,
        record {
          before = λ j l.
              s.before j (omega arith) ∙ chunk_kept a filename size i j bytes l (omega arith);
          all =
              ap₂ ◌++◌ (ap bytes_of here) s.all
              ∙ (take-add size (n * size) bytes
                  ∙ ap (λ k. take k bytes) (omega (arith, suc-mul n size)));
          sizes = (
            subst (λ t. length t ≤ size) (sym (ap bytes_of here))
                (omega (arith, length-take size bytes)),
            s.sizes,
          );
        },
      )

  split_file_lem :
      (a : App) (filepath filename : Text) (bytes : Text) (size n : ℕ)
      → os.can_read a.files filepath ≡ true
      → os.can_allocate size ≡ true
      → split_file a filepath filename bytes (pos size) (pos n)
        ≡ write_chunks a filename size n 0 bytes
  unfolding split_file
  split_file_lem a filepath filename bytes size n r m = rw (r, m) refl

count_small : (k size b : ℕ) → 0 < size → k * size < b + size → k ≤ b
count_small zero size b h l = omega arith
count_small (suc k) size b h l = omega (arith, suc-mul k size, le-mul_of_pos_right k h)

module _ ⦃os : Os⦄ where
  -- The chunks are the file. With a positive chunk size whose buffer is allocated, a file that can be
  -- read and has less than 2 ^ 63 bytes, and chunk files that can be written, the loop of regfile
  -- ends, and the files of the chunks it has counted, put one behind the other from number 0 on,
  -- are the bytes of the file, with at most the chunk size in each.
  pub split_file-joined :
      (a : App) (filepath filename bytes : Text) (size : ℕ)
      → 0 < size
      → length bytes < 2 ^ 63
      → os.can_read a.files filepath ≡ true
      → os.can_allocate size ≡ true
      → Writable os a filename
      → (k : ℕ) × (a' : App) × (chunk_count (length bytes) (pos size) ≡ pos k)
        × (split_file a filepath filename bytes (pos size) (pos k) ≡ some a')
        × (joined a' filename 0 k ≡ bytes)
        × EachAtMost size a' filename 0 k
  split_file-joined a filepath filename bytes size h b r m w =
      let (k, c, enough, least) = chunk_count-least (length bytes) size h in
      let (a', e, s) =
        write_chunks-IsSplit a filename size k 0 bytes
          (omega (arith, count_small k size (length bytes) h least)) w in
      (
        k,
        a',
        c,
        split_file_lem a filepath filename bytes size k r m ∙ e,
        s.all ∙ take_all (k * size) bytes enough,
        s.sizes,
      )

-- ===== src/Buffer/Queue.antt =====
-- A buffer as a queue of bytes: what is appended and what is sent.
use epoll_chat.Common.{
  ℕ, zero, suc, ◌+◌, ◌-◌, ◌*◌, ◌<◌, ◌≤◌, ◌≡◌, refl, sym, ap, ◌∙◌, inl, inr, ◌++◌, Text, length,
  take, drop, leb, ◌==◌, arith, Bool-cases, append_assoc, length-append, length-take, length-drop,
  drop-append_le, drop-drop, take-append_eq, drop-take,
}
use epoll_chat.Buffer.{
  init_buffer, Buffer, contents, slice, write_at, reset_buffer_start, grow, enlarge, make_room,
  append_bytes, compact, sent,
}

-- The written bytes end at `buffer_end`, and the memory is larger.
pub record IsValid (b : Buffer) : Type 0 where
  pub started : b.buffer_start ≤ b.buffer_end
  pub written : b.buffer_end ≤ length b.cells
  pub held : b.buffer_end ≤ b.buffer_capacity
  pub positive : 0 < b.buffer_capacity

pub init_buffer-IsValid : (n : ℕ) → 0 < n → IsValid (init_buffer n)
unfolding init_buffer
init_buffer-IsValid n h = omega arith

pub length-contents : (b : Buffer) → IsValid b → length (contents b) ≡ b.buffer_end - b.buffer_start
length-contents b v = omega (
  arith,
  length-take (b.buffer_end - b.buffer_start) (drop b.buffer_start b.cells),
  length-drop b.buffer_start b.cells,
)

pub reset-IsValid : (b : Buffer) → IsValid b → IsValid (reset_buffer_start b)
unfolding reset_buffer_start
reset-IsValid b v =
    ground
      (arith, length-contents b v, length-append (contents b) (drop (length (contents b)) b.cells))

-- Moving the bytes to the front changes none of them.
pub contents-reset : (b : Buffer) → IsValid b → contents (reset_buffer_start b) ≡ contents b
unfolding reset_buffer_start
contents-reset b v = elim (Bool-cases (b.buffer_start == 0)) [
  | inl e ↦ rw e
  | inr e ↦ rw e (
      take-append_eq (b.buffer_end - b.buffer_start - 0) (contents b) _
        (omega (arith, length-contents b v)))
]

grow-lt :
    (fuel need capacity : ℕ)
    → 0 < capacity
    → need < capacity + fuel
    → need < grow fuel need capacity
unfolding grow
grow-lt zero need capacity p h = omega arith
grow-lt (suc fuel) need capacity p h = elim (Bool-cases (leb capacity need)) [
  | inl e ↦ rw e (grow-lt fuel need (capacity * 2) (omega arith) (omega arith))
  | inr e ↦ rw e (ground arith)
]

enlarge-IsValid :
    (n : ℕ) (b : Buffer)
    → IsValid b
    → IsValid (enlarge n b)
      × (b.buffer_end + n < (enlarge n b).buffer_capacity)
      × ((enlarge n b).cells ≡ b.cells)
      × ((enlarge n b).buffer_start ≡ b.buffer_start)
      × ((enlarge n b).buffer_end ≡ b.buffer_end)
unfolding enlarge
enlarge-IsValid n b v = ground (
  arith,
  grow-lt (suc (b.buffer_end + n)) (b.buffer_end + n) b.buffer_capacity v.positive (omega arith),
)

-- The room that an append asks for: the contents stay, and `n` more bytes fit.
make_room-IsValid :
    (n : ℕ) (b : Buffer)
    → IsValid b
    → IsValid (make_room n b)
      × ((make_room n b).buffer_end + n < (make_room n b).buffer_capacity)
      × (contents (make_room n b) ≡ contents b)
unfolding make_room
make_room-IsValid n b v = elim (Bool-cases (leb b.buffer_capacity (b.buffer_end + n))) [
  | inl e ↦ rw e (moved (enlarge-IsValid n (reset_buffer_start b) (reset-IsValid b v)))
  | inr e ↦ rw e (v, ground arith, refl)
]
  where
    moved :
        IsValid (enlarge n (reset_buffer_start b))
          × ((reset_buffer_start b).buffer_end + n
              < (enlarge n (reset_buffer_start b)).buffer_capacity)
          × ((enlarge n (reset_buffer_start b)).cells ≡ (reset_buffer_start b).cells)
          × ((enlarge n (reset_buffer_start b)).buffer_start ≡ (reset_buffer_start b).buffer_start)
          × ((enlarge n (reset_buffer_start b)).buffer_end ≡ (reset_buffer_start b).buffer_end)
        → IsValid (enlarge n (reset_buffer_start b))
          × ((enlarge n (reset_buffer_start b)).buffer_end + n
              < (enlarge n (reset_buffer_start b)).buffer_capacity)
          × (contents (enlarge n (reset_buffer_start b)) ≡ contents b)
    moved (w, room, c, s, e) = (w, omega arith, cc (contents-reset b v))

-- A write of `s` behind the bytes of a queue.
pub slice-write_at :
    (cells s : Text) (i j : ℕ)
    → i ≤ j
    → j ≤ length cells
    → slice (write_at cells j s) i (j + length s) ≡ slice cells i j ++ s
slice-write_at cells s i j h k =
    ap (take (j + length s - i))
      (drop-append_le i (take j cells) _ (omega (arith, length-take j cells)))
    ∙ (ap (λ t. take (j + length s - i) (t ++ (s ++ drop (j + length s) cells)))
          (drop-take i j cells)
        ∙ (ap (take (j + length s - i)) (sym (append_assoc (slice cells i j) s _))
            ∙ take-append_eq (j + length s - i) (slice cells i j ++ s) _ (
                omega (
                  arith,
                  length-append (slice cells i j) s,
                  length-take (j - i) (drop i cells),
                  length-drop i cells,
                ))))

pub length-write_at :
    (cells s : Text) (j : ℕ) → j ≤ length cells → j + length s ≤ length (write_at cells j s)
length-write_at cells s j h = omega (
  arith,
  length-append (take j cells) (s ++ drop (j + length s) cells),
  length-append s (drop (j + length s) cells),
  length-take j cells,
)

-- An append to a valid buffer puts the bytes at the end of the queue and leaves the buffer valid:
-- what is written lies inside the enlarged memory.
pub append_bytes_lem :
    (b : Buffer) (s : Text)
    → IsValid b
    → IsValid (append_bytes b s) × (contents (append_bytes b s) ≡ contents b ++ s)
unfolding append_bytes
append_bytes_lem b s v = finish (make_room (length s) b) (make_room-IsValid (length s) b v)
  where
    finish :
        (b' : Buffer)
        → IsValid b' × (b'.buffer_end + length s < b'.buffer_capacity) × (contents b' ≡ contents b)
        → let b'' = record b' {
          cells = write_at b'.cells b'.buffer_end s;
          buffer_end = b'.buffer_end + length s;
        } in
          IsValid b'' × (contents b'' ≡ contents b ++ s)
    finish b' (w, room, e) = (
      omega (arith, length-write_at b'.cells s b'.buffer_end w.written),
      slice-write_at b'.cells s b'.buffer_start b'.buffer_end w.started w.written
          ∙ ap (λ t. t ++ s) e,
    )

pub compact_lem :
    (b : Buffer) → IsValid b → IsValid (compact b) × (contents (compact b) ≡ contents b)
unfolding compact
compact_lem b v = elim (Bool-cases (leb b.buffer_capacity (b.buffer_start * 2))) [
  | inl e ↦ rw e (reset-IsValid b v, contents-reset b v)
  | inr e ↦ rw e (v, refl)
]

slice-drop : (cells : Text) (i j n : ℕ) → drop n (slice cells i j) ≡ slice cells (i + n) j
slice-drop cells i j n =
    drop-take n (j - i) (drop i cells)
    ∙ (ap (take (j - i - n)) (drop-drop n i cells)
        ∙ ap (λ k. take k (drop (i + n) cells)) (regroup i j n))
  where
    regroup : (i j n : ℕ) → j - i - n ≡ j - (i + n)
    regroup i j n = omega arith

-- Of a valid buffer, what `send` took of its bytes leaves the front of the queue, the rest stays in
-- order, and the buffer stays valid.
pub sent_lem :
    (n : ℕ) (b : Buffer)
    → IsValid b
    → n ≤ length (contents b)
    → IsValid (sent n b) × (contents (sent n b) ≡ drop n (contents b))
unfolding sent
sent_lem n b v h =
    let b' : Buffer = record b { buffer_start = b.buffer_start + n } in
    let kept : IsValid (compact b') × (contents (compact b') ≡ contents b') =
      compact_lem b' (omega (arith, length-contents b v)) in
    (kept.0, kept.1 ∙ sym (slice-drop b.cells b.buffer_start b.buffer_end n))

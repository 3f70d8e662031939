-- ===== src/Buffer/Receive.antt =====
-- The room that im_receive_command makes in a buffer, and what arrives in it.
use epoll_chat.Common.{
  ◌-◌, ◌*◌, ◌<◌, ◌≤◌, ◌≡◌, ap, ◌∙◌, inl, inr, ◌++◌, Text, length, ltb, if◌then◌else◌, arith,
  Bool-cases,
}
use epoll_chat.Buffer.{Buffer, contents, reset_buffer_start, prepare_receive, received}
use epoll_chat.Buffer.Queue.{
  IsValid, reset-IsValid, contents-reset, length-write_at, slice-write_at,
}

pub prepare_receive_lem :
    (b : Buffer)
    → IsValid b
    → IsValid (prepare_receive b) × (contents (prepare_receive b) ≡ contents b)
unfolding prepare_receive
prepare_receive_lem b v = grow_lem (reset_buffer_start b) (reset-IsValid b v) (contents-reset b v)
  where
    grow_lem :
        (c : Buffer)
        → IsValid c
        → contents c ≡ contents b
        → let c' =
            if ltb c.buffer_capacity (c.buffer_end * 2)
            then record c { buffer_capacity = c.buffer_capacity * 2 }
            else c in
          IsValid c' × (contents c' ≡ contents b)
    grow_lem c w e = elim (Bool-cases (ltb c.buffer_capacity (c.buffer_end * 2))) [
      | inl t ↦ rw t (omega arith, e)
      | inr t ↦ rw t (w, e)
    ]

-- What arrives in the room that prepare_receive leaves in a valid buffer is put behind what was not
-- yet parsed, and the buffer stays valid.
pub received_lem :
    (s : Text) (b : Buffer)
    → IsValid b
    → length s ≤ (prepare_receive b).buffer_capacity - (prepare_receive b).buffer_end
    → IsValid (received s (prepare_receive b))
      × (contents (received s (prepare_receive b)) ≡ contents b ++ s)
unfolding received
received_lem s b v h =
    let c : Buffer = prepare_receive b in
    let kept : IsValid c × (contents c ≡ contents b) = prepare_receive_lem b v in
    (
      omega (arith, length-write_at c.cells s c.buffer_end kept.0.written),
      slice-write_at c.cells s c.buffer_start c.buffer_end kept.0.started kept.0.written
          ∙ ap (λ t. t ++ s) kept.1,
    )

-- In a valid buffer prepare_receive leaves half of the capacity free at least, and a byte at
-- least.
pub prepare_receive-room :
    (b : Buffer)
    → IsValid b
    → let b' = prepare_receive b in
      (0 < b'.buffer_capacity - b'.buffer_end)
      × (b'.buffer_capacity ≤ 2 * (b'.buffer_capacity - b'.buffer_end))
unfolding prepare_receive
prepare_receive-room b v =
    let w : IsValid (reset_buffer_start b) = reset-IsValid b v in
    elim (Bool-cases
      (ltb (reset_buffer_start b).buffer_capacity ((reset_buffer_start b).buffer_end * 2))) [
        | inl e ↦ rw (e, prepare_receive) (omega arith)
        | inr e ↦ rw (e, prepare_receive) (ground arith)
      ]

-- The bytes stand at the front then.
pub prepare_receive-start : (b : Buffer) → (prepare_receive b).buffer_start ≡ 0
unfolding prepare_receive reset_buffer_start
prepare_receive-start b = ground arith

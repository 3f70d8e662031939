-- ===== src/Server/Output.antt =====
-- What im_send_buffer sends, and when the loop stops asking for output.
use epoll_chat.Common.{
  ℕ, ◌-◌, ◌<◌, ◌≤◌, ◌≡◌, refl, ap, ap₂, ◌∙◌, inl, inr, true, false, [], ◌∷◌, ◌++◌, some,
  if◌then◌else◌, ◌==◌, ==_ne, ==_refl, arith, Bool-cases, length, length-drop, take, drop,
}
use epoll_chat.Buffer.{Buffer, contents, sent, compact}
use epoll_chat.Buffer.Queue.{IsValid, sent_lem, compact_lem}
use epoll_chat.World.{World, epoll_mod, send_bytes, called, put_user, put_client}
use epoll_chat.Server.Loop.{
  Sent, im_send_buffer, send_outbuffer, send_user_buffer, is_active, handle_output,
}

-- Of a valid buffer im_send_buffer hands over the bytes that `send` takes and keeps the rest in
-- order, leaving the buffer valid; it calls `send` exactly if bytes wait, and then asks for input
-- only exactly if none are left.
pub im_send_buffer_lem :
    (w : World) (fd n : ℕ) (b : Buffer)
    → IsValid b
    → n ≤ length (contents b)
    → let r = im_send_buffer w fd b (Sent.taken n) in
      IsValid r.1
      × (contents r.1 ≡ drop n (contents b))
      × (r.0.calls
          ≡ (if n == length (contents b) then epoll_mod fd false ∷ [] else [])
            ++ ((if length (contents b) == 0 then [] else send_bytes fd (take n (contents b)) ∷ [])
                ++ w.calls))
unfolding im_send_buffer
im_send_buffer_lem w fd n b v h = elim (Bool-cases (length (contents b) == 0)) [
  | inl e ↦
      let z : length (contents b) ≡ 0 = ground arith in
      let n_zero : n ≡ 0 = omega arith in
      rw (e, n_zero) ((compact_lem b v).0, (compact_lem b v).1, ground (arith, z))
  | inr e ↦ rw e ((sent_lem n b v h).0, (sent_lem n b v h).1, ground arith)
]

part_sent :
    (w : World) (fd n : ℕ) (b : Buffer)
    → n < length (contents b)
    → im_send_buffer w fd b (Sent.taken n)
      ≡ (called w (send_bytes fd (take n (contents b))), sent n b)
unfolding im_send_buffer
part_sent w fd n b h =
    rw
      (==_ne (length (contents b)) 0 (omega arith), ==_ne (length (contents b) - n) 0 (omega arith))
      refl

nothing_sent :
    (w : World) (fd : ℕ) (b : Buffer) (s : Sent)
    → length (contents b) ≡ 0
    → im_send_buffer w fd b s ≡ (called w (epoll_mod fd false), compact b)
unfolding im_send_buffer
nothing_sent w fd b s z = rw (z, im_send_buffer) refl

-- The world after a part of the client's own buffer was sent.
after_part : World → ℕ → ℕ → World
after_part w c n =
    let b = (w.clients c).outbuffer in
    put_client (called w (send_bytes (w.clients c).fd (take n (contents b)))) c
      (record (w.clients c) { outbuffer = sent n b })

own_part :
    (w : World) (c n : ℕ)
    → n < length (contents (w.clients c).outbuffer)
    → send_outbuffer w c (Sent.taken n) ≡ after_part w c n
unfolding send_outbuffer after_part
own_part w c n h = rw (part_sent w (w.clients c).fd n (w.clients c).outbuffer h) refl

-- The rest of the branch, for a client of an active user with an empty buffer.
rest_of_output :
    (w : World) (c u : ℕ) (s : Sent)
    → (w.clients c).user ≡ some u
    → is_active w (some u) ≡ true
    → length (contents (w.users u).buffer) ≡ 0
    → (if is_active w (w.clients c).user then send_user_buffer w c s else w)
      ≡ put_user
          (called w (epoll_mod (w.clients c).fd false))
          u
          (record (w.users u) { buffer = compact (w.users u).buffer })
unfolding send_user_buffer
rest_of_output w c u s e a z =
    rw (e, a, send_user_buffer, nothing_sent w (w.clients c).fd (w.users u).buffer s z) refl

after_part_lem :
    (w : World) (c u n : ℕ)
    → let w' = after_part w c n in
      ((w'.clients c).user ≡ (w.clients c).user)
      × (is_active w' (some u) ≡ is_active w (some u))
      × ((w'.users u).buffer ≡ (w.users u).buffer)
      × ((w'.clients c).fd ≡ (w.clients c).fd)
      × ((w'.clients c).outbuffer ≡ sent n (w.clients c).outbuffer)
unfolding after_part is_active
after_part_lem w c u n = rw (==_refl c) (refl, refl, refl, refl, refl)

calls-after_part :
    (w : World) (c n : ℕ)
    → (after_part w c n).calls
      ≡ send_bytes (w.clients c).fd (take n (contents (w.clients c).outbuffer)) ∷ w.calls
unfolding after_part
calls-after_part w c n = refl

-- After a `send` that takes a part of a client's own buffer, the buffer of its active user being
-- empty, the loop asks for input only, although bytes still wait in the client's own buffer.
pub handle_output-stalls :
    (w : World) (c u n : ℕ) (s : Sent)
    → (w.clients c).user ≡ some u
    → is_active w (some u) ≡ true
    → length (contents (w.users u).buffer) ≡ 0
    → IsValid (w.clients c).outbuffer
    → n < length (contents (w.clients c).outbuffer)
    → let w' = handle_output w c (Sent.taken n) s in
      (w'.calls
        ≡ epoll_mod (w.clients c).fd false
          ∷ send_bytes (w.clients c).fd (take n (contents (w.clients c).outbuffer))
          ∷ w.calls)
      × (contents (w'.clients c).outbuffer ≡ drop n (contents (w.clients c).outbuffer))
      × (0 < length (contents (w'.clients c).outbuffer))
unfolding handle_output
handle_output-stalls w c u n s e a z v h =
    let (user, active, buffer, fd, own) = after_part_lem w c u n in
    let eq =
      ap (λ x. if is_active x (x.clients c).user then send_user_buffer x c s else x)
        (own_part w c n h)
      ∙ rest_of_output (after_part w c n) c u s (user ∙ e) (active ∙ a)
          (ap (λ b. length (contents b)) buffer ∙ z) in
    let kept = ap contents own ∙ (sent_lem n (w.clients c).outbuffer v (omega arith)).1 in
    let left = ap (λ x. contents (x.clients c).outbuffer) eq ∙ kept in
    (
      ap (λ x. x.calls) eq ∙ ap₂ (λ f l. epoll_mod f false ∷ l) fd (calls-after_part w c n),
      left,
      omega (arith, ap length left, length-drop n (contents (w.clients c).outbuffer)),
    )

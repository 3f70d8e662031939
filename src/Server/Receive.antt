-- ===== src/Server/Receive.antt =====
-- How the loop of im_receive_command ends.
use epoll_chat.Common.{
  ℕ, zero, suc, ◌+◌, ◌<◌, ◌≤◌, ◌≡◌, refl, sym, ap, subst, ◌∙◌, ◌⊎◌, inl, inr, true, Text, Option,
  none, some, ◌==◌, ==_refl, arith, Bool-cases, Option-cases, length,
}
use epoll_chat.Protobuf.{Protobuf, ProtobufLaws}
use epoll_chat.Proto.ImRequest
use epoll_chat.Proto.ImRequest.{ImRequest}
use epoll_chat.Proto.ImResponse.{ImResponse}
use epoll_chat.Buffer.{Buffer, contents}
use epoll_chat.Buffer.Queue.{IsValid, length-contents}
use epoll_chat.World.{World}
use epoll_chat.Server.Accounts.{Reply}
use epoll_chat.Server.Dispatch.{
  enabled_commands, find_command, parser, run, touch, execute, parse_command, respond, consume,
  receive_loop,
}
use epoll_chat.Server.Input.{SameInput}
use epoll_chat.Server.Input.Commands.{run-SameInput, touch-SameInput, respond-SameInput}

-- A buffer from which the first `n` bytes were parsed.
pub skip :
    (b : Buffer) (n : ℕ)
    → IsValid b
    → n ≤ length (contents b)
    → let b' : Buffer = record b { buffer_start = b.buffer_start + n } in
      IsValid b' × (length (contents b') + n ≡ length (contents b))
skip b n v h =
    let b' : Buffer = record b { buffer_start = b.buffer_start + n } in
    let v' : IsValid b' = omega (arith, length-contents b v) in
    (v', omega (arith, length-contents b v, length-contents b' v'))

module _ ⦃pb : Protobuf⦄ where
  pub consume_lem :
      (w : World) (c n : ℕ)
      → ((consume w c n).clients c).inbuffer
        ≡ record ((w.clients c).inbuffer) { buffer_start = (w.clients c).inbuffer.buffer_start + n }
  unfolding consume
  consume_lem w c n = rw (==_refl c) refl

  -- A request is a fault or leaves the input buffers as they were.
  execute-SameInput :
      (w : World) (c : ℕ) (req : ImRequest)
      → (execute w c req ≡ none) ⊎ ((r : Reply) × (execute w c req ≡ some r) × SameInput w r.0)
  unfolding execute
  execute-SameInput w c req = elim (Option-cases (find_command req.type enabled_commands)) [
    | inl e ↦ inr ((w, none), rw (e, execute) refl, λ d. refl)
    | inr (k, e) ↦ elim (Option-cases (parser k req.value)) [
      | inl p ↦ inl (rw (e, execute, p) refl)
      | inr (r, p) ↦ inr (
        (touch (run w c r).0 c, (run w c r).1),
        rw (e, execute, p) refl,
        λ d. touch-SameInput (run w c r).0 c d ∙ run-SameInput w c r d,
      )
    ]
  ]

module _ ⦃pb : Protobuf⦄ (laws : ProtobufLaws pb) where
  -- parse_command is a fault, or reads at most the bytes it is given and leaves the input buffers.
  pub parse_command-reads :
      (w : World) (c : ℕ) (bytes : Text)
      → (parse_command w c bytes ≡ none)
        ⊎ ((r : World × ℕ × Option ImResponse) × (parse_command w c bytes ≡ some r)
            × (r.1 ≤ length bytes)
            × SameInput w r.0)
  unfolding parse_command
  parse_command-reads w c bytes = elim (Option-cases (pb.decode_n_fields bytes 2)) [
    | inl e ↦ inr ((w, 0, none), rw (e, parse_command) refl, omega arith, λ d. refl)
    | inr ((m, n), e) ↦ elim (Option-cases (ImRequest.of_msg m)) [
      | inl p ↦ inl (rw (e, parse_command, p) refl)
      | inr (req, p) ↦ elim (execute-SameInput w c req) [
        | inl q ↦ inl (rw (e, parse_command, p, q) refl)
        | inr (r, q, same) ↦ inr (
          (r.0, n, r.1),
          rw (e, parse_command, p, q) refl,
          laws.decode_n_fields-reads bytes 2 n m e,
          same,
        )
      ]
    ]
  ]

  loop_ends :
      (fuel : ℕ) (w : World) (c : ℕ)
      → IsValid (w.clients c).inbuffer
      → length (contents (w.clients c).inbuffer) < fuel
      → (receive_loop fuel w c ≡ none) ⊎ ((w' : World) × (receive_loop fuel w c ≡ some (w', true)))
  unfolding receive_loop
  loop_ends zero w c v h = absurd (omega arith)
  loop_ends (suc fuel) w c v h =
      elim (Bool-cases ((w.clients c).inbuffer.buffer_start == (w.clients c).inbuffer.buffer_end)) [
        | inl e ↦ inr (w, rw (e, receive_loop) refl)
        | inr e ↦ elim (parse_command-reads w c (contents (w.clients c).inbuffer)) [
          | inl p ↦ inl (rw (e, receive_loop, p) refl)
          | inr (r, p, reads, same) ↦
              let w1 = respond r.0 c r.2 in
              elim (Bool-cases (r.1 == 0)) [
                | inl z ↦ inr (w1, rw (e, receive_loop, p, z) refl)
                | inr z ↦
                    let left =
                      subst
                        (λ b.
                          IsValid b
                          × (length (contents b) + r.1 ≡ length (contents (w.clients c).inbuffer)))
                        (sym (
                          consume_lem w1 c r.1
                          ∙ ap (λ (b : Buffer). record b { buffer_start = b.buffer_start + r.1 })
                              (respond-SameInput r.0 c r.2 c ∙ same c)))
                        (skip (w.clients c).inbuffer r.1 v reads) in
                    elim (loop_ends fuel (consume w1 c r.1) c left.0 (ground (arith, left.1))) [
                      | inl q ↦ inl (rw (e, receive_loop, p, z, q) refl)
                      | inr (w', q) ↦ inr (w', rw (e, receive_loop, p, z, q) refl)
                    ]
              ]
        ]
      ]

  -- With a codec that keeps the laws, on a valid input buffer the loop of im_receive_command,
  -- given one round to each byte that waits and one more, is stopped by a fault of a parser or
  -- ends by itself; it never runs out of rounds.
  pub receive_loop-ends :
      (w : World) (c : ℕ)
      → IsValid (w.clients c).inbuffer
      → (receive_loop (suc (length (contents (w.clients c).inbuffer))) w c ≡ none)
        ⊎ ((w' : World) × (receive_loop (suc (length (contents (w.clients c).inbuffer))) w c
              ≡ some (w', true)))
  receive_loop-ends w c v =
      loop_ends (suc (length (contents (w.clients c).inbuffer))) w c v (omega arith)

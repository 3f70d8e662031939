-- ===== src/ClientApp/Network/Receive.antt =====
-- How the loop of im_receive_command on parse_response ends.
use epoll_chat.Common.{
  ℕ, zero, suc, ◌+◌, ◌<◌, ◌≤◌, ◌≡◌, refl, sym, ap, subst, ◌∙◌, ◌⊎◌, inl, inr, true, Text, none,
  some, ◌==◌, ◌||◌, arith, Bool-cases, Option-cases, length,
}
use epoll_chat.Protobuf.{Protobuf, ProtobufLaws}
use epoll_chat.Proto.ImResponse
use epoll_chat.Proto.ImResponse.{ImResponse}
use epoll_chat.Buffer.{Buffer, contents}
use epoll_chat.Buffer.Queue.{IsValid}
use epoll_chat.World.{World}
use epoll_chat.Server.Dispatch.{consume}
use epoll_chat.Server.Receive.{skip, consume_lem}
use epoll_chat.ClientApp.{App, Os, with_world}
use epoll_chat.ClientApp.Peers.{parse_response, handle_response}
use epoll_chat.ClientApp.Network.{response_loop}
use epoll_chat.ClientApp.Network.Keeps.{Kept, KeptBy, handle_response-Kept}

module _ ⦃pb : Protobuf⦄ where
  pub count_consume : (w : World) (c n : ℕ) → c < w.client_count → c < (consume w c n).client_count
  unfolding consume
  count_consume w c n h = h

module _ ⦃os : Os⦄ ⦃pb : Protobuf⦄ (laws : ProtobufLaws pb) where
  -- parse_response is a fault, or reads at most the bytes it is given and leaves the input buffer.
  pub parse_response-reads :
      (a : App) (c : ℕ) (bytes : Text)
      → c < a.world.client_count
      → (parse_response a c bytes ≡ none)
        ⊎ ((r : App × ℕ) × (parse_response a c bytes ≡ some r)
            × (r.1 ≤ length bytes)
            × KeptBy c a.world r.0.world)
  unfolding parse_response
  parse_response-reads a c bytes h = elim (Option-cases (pb.decode_n_fields bytes 3)) [
    | inl e ↦ inr ((a, 0), rw (e, parse_response) refl, omega arith, (refl, omega arith))
    | inr ((m, n), e) ↦ elim (Option-cases (ImResponse.of_msg m)) [
      | inl p ↦ inl (rw (e, parse_response, p) refl)
      | inr (rsp, p) ↦
          let b : App = record a { last_response = rsp.success } in
          elim (Option-cases (handle_response b c rsp)) [
            | inl q ↦ inl (rw (e, parse_response, p, q) refl)
            | inr (a', q) ↦ inr (
              (a', n),
              rw (e, parse_response, p, q) refl,
              laws.decode_n_fields-reads bytes 3 n m e,
              subst (Kept c a.world) q (handle_response-Kept b c rsp h),
            )
          ]
    ]
  ]

  loop_ends :
      (fuel : ℕ) (a : App) (c : ℕ)
      → IsValid (a.world.clients c).inbuffer
      → c < a.world.client_count
      → length (contents (a.world.clients c).inbuffer) < fuel
      → (response_loop fuel a c ≡ none) ⊎ ((a' : App) × (response_loop fuel a c ≡ some (a', true)))
  unfolding response_loop
  loop_ends zero a c v l h = absurd (omega arith)
  loop_ends (suc fuel) a c v l h =
      elim (Bool-cases
        ((a.world.clients c).inbuffer.buffer_start == (a.world.clients c).inbuffer.buffer_end)) [
          | inl e ↦ inr (a, rw (e, response_loop) refl)
          | inr e ↦ elim (parse_response-reads a c (contents (a.world.clients c).inbuffer) l) [
            | inl p ↦ inl (rw (e, response_loop, p) refl)
            | inr (r, p, reads, (kept, more)) ↦ elim (Bool-cases (r.1 == 0 || r.0.exited)) [
              | inl z ↦ inr (r.0, rw (e, response_loop, p, z) refl)
              | inr z ↦
                  let w1 = r.0.world in
                  let left =
                    subst
                      (λ b.
                        IsValid b
                        × (length (contents b) + r.1
                            ≡ length (contents (a.world.clients c).inbuffer)))
                      (sym (
                        consume_lem w1 c r.1
                        ∙ ap (λ (b : Buffer). record b { buffer_start = b.buffer_start + r.1 })
                            kept))
                      (skip (a.world.clients c).inbuffer r.1 v reads) in
                  elim (loop_ends fuel (with_world r.0 (consume w1 c r.1)) c left.0
                    (count_consume w1 c r.1 (omega arith)) (ground (arith, left.1))) [
                      | inl q ↦ inl (rw (e, response_loop, p, z, q) refl)
                      | inr (a', q) ↦ inr (a', rw (e, response_loop, p, z, q) refl)
                    ]
            ]
          ]
        ]

  -- With a codec that keeps the laws, on the valid input buffer of a connection that was made, the
  -- loop of the client's im_receive_command, given one round to each byte that waits and one more,
  -- is stopped by a fault or ends by itself, or with the program; it never runs out of rounds.
  pub response_loop-ends :
      (a : App) (c : ℕ)
      → IsValid (a.world.clients c).inbuffer
      → c < a.world.client_count
      → (response_loop (suc (length (contents (a.world.clients c).inbuffer))) a c ≡ none)
        ⊎ ((a' : App) × (response_loop (suc (length (contents (a.world.clients c).inbuffer))) a c
              ≡ some (a', true)))
  response_loop-ends a c v l =
      loop_ends (suc (length (contents (a.world.clients c).inbuffer))) a c v l (omega arith)

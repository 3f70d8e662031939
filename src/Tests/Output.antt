-- ===== src/Tests/Output.antt =====
-- The loop that takes requests out of a buffer, and what is sent.
use epoll_chat.Common.{
  suc, ◌<◌, ◌≡◌, refl, ◌⊎◌, true, false, [], ◌∷◌, ◌++◌, none, some, if◌then◌else◌, ◌==◌, arith,
  length, take, drop,
}
use epoll_chat.Common.Int.{◌+ℤ◌, int32}
use epoll_chat.Protobuf.{sample, sample_laws}
use epoll_chat.Buffer.{contents}
use epoll_chat.Buffer.Queue.{IsValid}
use epoll_chat.World.{World, epoll_mod, send_bytes}
use epoll_chat.Server.Dispatch.{receive_loop}
use epoll_chat.Server.Receive.{receive_loop-ends}
use epoll_chat.Server.Loop.{Sent, im_send_buffer, is_active, handle_output}
use epoll_chat.Server.Output.{im_send_buffer_lem, handle_output-stalls}
use epoll_chat.Tests.Data.{pending, two_left, two_left-IsValid}

receive_loop-ends_example :
    (receive_loop (suc (length (contents two_left))) pending 0 ≡ none)
    ⊎ ((w' : World) × (receive_loop (suc (length (contents two_left))) pending 0 ≡ some (w', true)))
receive_loop-ends_example = receive_loop-ends sample_laws pending 0 two_left-IsValid

im_send_buffer_lem_example :
    let r = im_send_buffer pending 10 two_left (Sent.taken 1) in
    IsValid r.1
    × (contents r.1 ≡ drop 1 (contents two_left))
    × (r.0.calls
        ≡ (if 1 == length (contents two_left) then epoll_mod 10 false ∷ [] else [])
          ++ ((if length (contents two_left) == 0
                then []
                else send_bytes 10 (take 1 (contents two_left)) ∷ [])
              ++ []))
im_send_buffer_lem_example = im_send_buffer_lem pending 10 1 two_left two_left-IsValid (omega arith)

alice_active : is_active pending (some 0) ≡ true
unfolding is_active ◌+ℤ◌ int32
alice_active = refl

handle_output-stalls_example :
    let w' = handle_output pending 0 (Sent.taken 1) Sent.refused in
    (w'.calls ≡ epoll_mod 10 false ∷ send_bytes 10 (take 1 (contents two_left)) ∷ [])
    × (contents (w'.clients 0).outbuffer ≡ drop 1 (contents two_left))
    × (0 < length (contents (w'.clients 0).outbuffer))
handle_output-stalls_example =
    handle_output-stalls pending 0 0 1 Sent.refused refl alice_active refl two_left-IsValid
      (omega arith)

-- ===== src/Tests/Buffers.antt =====
-- Buffers, and what messages and notices put into them.
use epoll_chat.Common.{
  ℕ, ◌≡◌, refl, true, false, not, ◌&&◌, [], ◌∷◌, ◌++◌, none, some, if◌then◌else◌, codes, points_to,
}
use epoll_chat.Common.Int.{pos}
use epoll_chat.Protobuf.{sample}
use epoll_chat.Proto.ImResponse
use epoll_chat.Buffer.{append_bytes, contents}
use epoll_chat.Buffer.Queue.{IsValid, append_bytes_lem}
use epoll_chat.Trie.{find_node, modify_node}
use epoll_chat.Delivery.{encode_text, notify_all, has_blocked_user, is_user_logged_in}
use epoll_chat.Delivery.Queues.{queue, stored, BuffersValid, copies, is_told, notify_all_lem}
use epoll_chat.Auth.{find_user}
use epoll_chat.Server.Talk.{chat_text, broadcast, direct_reply}
use epoll_chat.Server.Messages.{direct_reply-delivered, broadcast_lem, gets, any_refuses}
use epoll_chat.Tests.Data.{
  two_left, two_left-IsValid, bob, online, alice_alone, two_users-BuffersValid, pairs, only_zero,
}

append_bytes_lem_example :
    IsValid (append_bytes two_left (codes "hello"))
    × (contents (append_bytes two_left (codes "hello")) ≡ contents two_left ++ codes "hello")
append_bytes_lem_example = append_bytes_lem two_left (codes "hello") two_left-IsValid

notify_all_lem_example :
    BuffersValid (notify_all online 0 (encode_text (codes "hi") true) (1 ∷ 0 ∷ []))
    × ((d : ℕ)
        → queue (notify_all online 0 (encode_text (codes "hi") true) (1 ∷ 0 ∷ [])) d
          ≡ queue online d
            ++ copies
                (is_told online 0)
                (λ v. (online.users v).client)
                d
                (ImResponse.to_bytes (encode_text (codes "hi") true))
                (1 ∷ 0 ∷ []))
notify_all_lem_example =
    notify_all_lem online 0 (encode_text (codes "hi") true) (1 ∷ 0 ∷ [])
      (two_users-BuffersValid pairs pairs (pos 900))

bob_found : find_user alice_alone bob ≡ some 1
unfolding find_user find_node modify_node
bob_found = refl

bob_accepts : has_blocked_user alice_alone 1 0 ≡ false
unfolding has_blocked_user
bob_accepts = refl

direct_reply-delivered_example :
    let r = direct_reply alice_alone 0 bob (codes "hi") in
    let s = ImResponse.to_bytes (chat_text alice_alone 0 (codes "hi")) in
    (r.1 ≡ none)
    × BuffersValid r.0
    × ((d : ℕ)
        → queue r.0 d
          ≡ queue alice_alone d
            ++ (if is_user_logged_in alice_alone 1 && points_to (only_zero 1) d then s else []))
    × (stored r.0 1 ≡ stored alice_alone 1 ++ (if is_user_logged_in alice_alone 1 then [] else s))
direct_reply-delivered_example =
    direct_reply-delivered alice_alone 0 1 bob (codes "hi") bob_found bob_accepts
      (two_users-BuffersValid only_zero only_zero (pos 900))

broadcast_lem_example :
    let r = broadcast online 0 (codes "hi") (1 ∷ 0 ∷ []) true in
    BuffersValid r.0
    × ((d : ℕ)
        → queue r.0 d
          ≡ queue online d
            ++ copies
                (gets online 0)
                (λ v. (online.users v).client)
                d
                (ImResponse.to_bytes (chat_text online 0 (codes "hi")))
                (1 ∷ 0 ∷ []))
    × (r.1 ≡ not (any_refuses online 0 (1 ∷ 0 ∷ [])))
broadcast_lem_example =
    broadcast_lem online 0 (codes "hi") (two_users-BuffersValid pairs pairs (pos 900))

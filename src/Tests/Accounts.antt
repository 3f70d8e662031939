-- ===== src/Tests/Accounts.antt =====
-- Accounts, blocked users and lists of users.
use epoll_chat.Common.{
  ◌≡◌, refl, ◌↔◌, ◌≤◌, ◌+◌, false, not, ◌&&◌, ◌||◌, [], ◌∷◌, some, codes, ◌==◌, arith, length,
}
use epoll_chat.Common.Int.{pos, negsuc, ◌+ℤ◌, ◌<ℤ◌, ◌≤ℤ◌, InInt}
use epoll_chat.Protobuf.{sample}
use epoll_chat.Trie.{find_node, modify_node}
use epoll_chat.Delivery.{is_user_logged_in, has_blocked_user}
use epoll_chat.Auth.{
  find_user, login, success, wrong_password, user_blocked, block_user, unblock_user,
  user_linked_list_to_string,
}
use epoll_chat.Auth.Accounts.{login-success_iff, three_failures_lock, at_time}
use epoll_chat.Auth.Blocking.{
  HasNoRepeats, has_blocked_user-block_user, has_blocked_user-unblock_user,
}
use epoll_chat.Auth.Lists.{user_linked_list_to_string_lem, join, names}
use epoll_chat.Tests.Data.{alice, bob, offline, online}

alice_found : find_user offline alice ≡ some 0
unfolding find_user find_node modify_node
alice_found = refl

login-success_iff_example :
    ((login offline alice alice).1 ≡ success)
    ↔ ((negsuc 0 ≤ℤ pos 1000) × (alice ≡ alice) × (is_user_logged_in offline 0 ≡ false))
login-success_iff_example = login-success_iff offline alice alice 0 alice_found

-- The block ends at 1062.
block_end : InInt (pos 1002 +ℤ pos 60)
unfolding ◌+ℤ◌
block_end = omega arith

blocked_still : pos 1061 <ℤ pos 1002 +ℤ pos 60
unfolding ◌+ℤ◌
blocked_still = omega arith

three_failures_lock_example :
    let one = login (at_time offline (pos 1000)) alice bob in
    let two = login (at_time one.0 (pos 1001)) alice bob in
    let three = login (at_time two.0 (pos 1002)) alice bob in
    (one.1 ≡ wrong_password)
    × (two.1 ≡ wrong_password)
    × (three.1 ≡ user_blocked)
    × (login (at_time three.0 (pos 1061)) alice alice
        ≡ (at_time three.0 (pos 1061), user_blocked, some 0))
three_failures_lock_example =
    three_failures_lock offline alice bob bob bob alice (pos 1000) (pos 1001) (pos 1002) (pos 1061)
      0 alice_found refl (ground arith) (ground arith) (ground arith) (ground arith) (ground arith)
      (ground arith) block_end blocked_still

has_blocked_user-block_user_example :
    has_blocked_user (block_user online 0 1) 0 1
    ≡ (((0 == 0) && ((1 == 1) && not (1 == 0))) || has_blocked_user online 0 1)
has_blocked_user-block_user_example = has_blocked_user-block_user online 0 1 0 1

one_blocked : HasNoRepeats ((block_user online 0 1).users 0).blocked
unfolding block_user has_blocked_user
one_blocked = (refl, tt)

has_blocked_user-unblock_user_example :
    has_blocked_user (unblock_user (block_user online 0 1) 0 1) 0 1
    ≡ (not ((0 == 0) && (1 == 1)) && has_blocked_user (block_user online 0 1) 0 1)
has_blocked_user-unblock_user_example =
    has_blocked_user-unblock_user (block_user online 0 1) 0 1 0 1 one_blocked

user_linked_list_to_string_lem_example :
    let r = user_linked_list_to_string online (1 ∷ 0 ∷ []) (codes ", ") in
    (r.0 ≡ some (join (codes ", ") (names online (1 ∷ 0 ∷ []))))
    × (length (join (codes ", ") (names online (1 ∷ 0 ∷ []))) + 1 ≤ r.1 + 1)
user_linked_list_to_string_lem_example =
    user_linked_list_to_string_lem online (codes ", ") 1 (0 ∷ []) (omega arith) (omega arith)

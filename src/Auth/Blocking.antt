-- ===== src/Auth/Blocking.antt =====
-- blockUser and unblockUser as changes of a set of users.
use epoll_chat.Common.{
  ℕ, ◌≡◌, subst, inl, inr, false, not, ◌&&◌, ◌||◌, List, [], ◌∷◌, contains, arith, Bool-cases, ◌==◌,
  ==_iff,
}
use epoll_chat.World.{World}
use epoll_chat.Delivery.{has_blocked_user}
use epoll_chat.Auth.{block_user, unblock_user, unblock_list}

-- No user stands in the list twice.
abbrev pub HasNoRepeats : List ℕ → Type 0
HasNoRepeats [] = Unit {0}
HasNoRepeats (x ∷ xs) = (contains xs x ≡ false) × HasNoRepeats xs

-- blockUser leaves a user's list of blocked users without repeats if it was so.
pub block_user-HasNoRepeats :
    (w : World) (by u v : ℕ)
    → HasNoRepeats (w.users v).blocked
    → HasNoRepeats ((block_user w by u).users v).blocked
unfolding block_user has_blocked_user
block_user-HasNoRepeats w by u v h = elim (Bool-cases (u == by)) [
  | inl e ↦ rw e h
  | inr e ↦ rw e (elim (Bool-cases (contains (w.users by).blocked u)) [
    | inl b ↦ rw b h
    | inr b ↦ rw b (elim (Bool-cases (v == by)) [
      | inl s ↦ rw s (b, subst (λ k. HasNoRepeats (w.users k).blocked) ((==_iff v by).0 s) h)
      | inr s ↦ rw s h
    ])
  ])
]

-- On a list without repeats the loop of unblockUser takes out the user, and no other.
unblock_list-contains :
    (u v : ℕ) (xs : List ℕ)
    → HasNoRepeats xs
    → contains (unblock_list u xs) v ≡ (not (v == u) && contains xs v)
unfolding unblock_list
unblock_list-contains u v [] h = ground arith
unblock_list-contains u v (x ∷ []) h = ground arith
unblock_list-contains u v (x ∷ y ∷ ys) (h, k) =
    ground (arith, unblock_list-contains u v ys k.1, unblock_list-contains u v (y ∷ ys) k)

-- After blockUser exactly the user named is blocked besides; nobody blocks itself.
pub has_blocked_user-block_user :
    (w : World) (by u x y : ℕ)
    → has_blocked_user (block_user w by u) x y
      ≡ (((x == by) && ((y == u) && not (u == by))) || has_blocked_user w x y)
unfolding has_blocked_user block_user
has_blocked_user-block_user w by u x y = ground arith

-- After unblockUser the user named is no longer blocked by `by`, and every other stays as it was,
-- if no user was in the list of `by` twice.
pub has_blocked_user-unblock_user :
    (w : World) (by u x y : ℕ)
    → HasNoRepeats (w.users by).blocked
    → has_blocked_user (unblock_user w by u) x y
      ≡ (not ((x == by) && (y == u)) && has_blocked_user w x y)
unfolding has_blocked_user unblock_user
has_blocked_user-unblock_user w by u x y h =
    ground (arith, unblock_list-contains u y (w.users by).blocked h)

pub unblock_list-HasNoRepeats :
    (u : ℕ) (xs : List ℕ) → HasNoRepeats xs → HasNoRepeats (unblock_list u xs)
unfolding unblock_list
unblock_list-HasNoRepeats u [] h = tt
unblock_list-HasNoRepeats u (x ∷ []) h = ground arith
unblock_list-HasNoRepeats u (x ∷ y ∷ ys) (h, k) = ground (
  arith,
  unblock_list-HasNoRepeats u ys k.1,
  unblock_list-HasNoRepeats u (y ∷ ys) k,
  unblock_list-contains u y ys k.1,
  unblock_list-contains u x (y ∷ ys) k,
)

-- unblockUser leaves a user's list of blocked users without repeats if it was so.
pub unblock_user-HasNoRepeats :
    (w : World) (by u v : ℕ)
    → HasNoRepeats (w.users v).blocked
    → HasNoRepeats ((unblock_user w by u).users v).blocked
unfolding unblock_user
unblock_user-HasNoRepeats w by u v h = elim (Bool-cases (v == by)) [
  | inl e ↦ rw e (
      unblock_list-HasNoRepeats u (w.users by).blocked
        (subst (λ k. HasNoRepeats (w.users k).blocked) ((==_iff v by).0 e) h))
  | inr e ↦ rw e h
]

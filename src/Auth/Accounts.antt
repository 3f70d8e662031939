-- ===== src/Auth/Accounts.antt =====
-- Accounts and passwords: who is found, when a login succeeds, and when it is locked out.
use epoll_chat.Common.{
  ℕ, ◌+◌, ◌≡◌, refl, sym, subst, ◌∙◌, ◌≢◌, ◌↔◌, inl, inr, false, [], Text, none, some,
  if◌then◌else◌, text_eq, text_eq_iff, text_eq_refl, arith, Option-cases,
}
use epoll_chat.Common.Int.{int32, InInt, int32-InInt, ℤ, ◌≤ℤ◌, ◌<ℤ◌, ◌+ℤ◌}
use epoll_chat.Protobuf.{Protobuf}
use epoll_chat.Trie.Laws.{entry-modify_node}
use epoll_chat.World.{World, put_user}
use epoll_chat.Delivery.{is_user_logged_in}
use epoll_chat.Auth.{
  add_user, find_user, find_or_add_user, login, login_user, fail_password, success, user_blocked,
  wrong_password,
}

-- After addUser the new user is found under its name, and every other name finds what it found.
pub find_user-add_user :
    (w : World) (username password key : Text)
    → find_user (add_user w username password).0 key
      ≡ (if text_eq username key then some w.user_count else find_user w key)
unfolding find_user add_user
find_user-add_user w username password key =
    entry-modify_node none (λ old. some w.user_count) username key w.db.root

-- findOrAddUser gives the user that findUser then finds under the name.
pub find_user-find_or_add_user :
    (w : World) (username : Text)
    → find_user (find_or_add_user w username).0 username ≡ some (find_or_add_user w username).1
unfolding find_or_add_user add_user
find_user-find_or_add_user w username = elim (Option-cases (find_user w username)) [
  | inl e ↦
      rw (e, find_or_add_user)
        (find_user-add_user w username [] username ∙ rw (text_eq_refl username))
  | inr (u, e) ↦ rw (e, find_or_add_user) e
]

-- The time of the world moved on.
abbrev pub at_time : World → ℤ → World
at_time w t = record w { now = t }

module _ ⦃pb : Protobuf⦄ where
  -- For a name that findUser finds, login succeeds exactly if the user is not blocked, the
  -- password is the user's, and the user is not logged in.
  pub login-success_iff :
      (w : World) (username password : Text) (u : ℕ)
      → find_user w username ≡ some u
      → ((login w username password).1 ≡ success) ↔ (
          ((w.users u).last_blocked ≤ℤ w.now)
          × ((w.users u).password ≡ password)
          × (is_user_logged_in w u ≡ false))
  unfolding login login_user fail_password
  login-success_iff w username password u e =
      ground (arith, e, text_eq_iff (w.users u).password password)

  -- A wrong password for a user that is not blocked, the count still below 2, changes that user's
  -- count only.
  login_wrong :
      (w : World) (username password : Text) (u : ℕ)
      → find_user w username ≡ some u
      → (w.users u).last_blocked ≤ℤ w.now
      → (w.users u).password ≢ password
      → (w.users u).attempts + 1 ≢ 3
      → login w username password ≡ (
        put_user w u (record (w.users u) { attempts = (w.users u).attempts + 1 }),
        wrong_password,
        some u,
      )
  unfolding login login_user fail_password
  login_wrong w username password u e h n m =
      ground (arith, e, text_eq_iff (w.users u).password password)

  login_third :
      (w : World) (username password : Text) (u : ℕ)
      → find_user w username ≡ some u
      → (w.users u).last_blocked ≤ℤ w.now
      → (w.users u).password ≢ password
      → (w.users u).attempts ≡ 2
      → login w username password ≡ (
        put_user w u (record (w.users u) {
          last_blocked = int32 (w.now +ℤ w.db.block_duration);
          attempts = 0;
        }),
        user_blocked,
        some u,
      )
  unfolding login login_user fail_password
  login_third w username password u e h n m =
      ground (arith, e, text_eq_iff (w.users u).password password)

  login_locked :
      (w : World) (username password : Text) (u : ℕ)
      → find_user w username ≡ some u
      → w.now <ℤ (w.users u).last_blocked
      → login w username password ≡ (w, user_blocked, some u)
  unfolding login login_user
  login_locked w username password u e h = ground (arith, e)

  -- Three wrong passwords for a user that exists and had no failures before, each at a time when
  -- the user is not blocked, are refused twice and then block the user: until the block's time
  -- has passed since the third, a login is refused as blocked whatever password it gives, and
  -- changes nothing. The end of the block is a time that an int holds.
  pub three_failures_lock :
      (w : World) (username p q r s : Text) (t1 t2 t3 t : ℤ) (u : ℕ)
      → find_user w username ≡ some u
      → (w.users u).attempts ≡ 0
      → (w.users u).last_blocked ≤ℤ t1
      → (w.users u).last_blocked ≤ℤ t2
      → (w.users u).last_blocked ≤ℤ t3
      → (w.users u).password ≢ p
      → (w.users u).password ≢ q
      → (w.users u).password ≢ r
      → InInt (t3 +ℤ w.db.block_duration)
      → t <ℤ t3 +ℤ w.db.block_duration
      → let one = login (at_time w t1) username p in
        let two = login (at_time one.0 t2) username q in
        let three = login (at_time two.0 t3) username r in
        (one.1 ≡ wrong_password)
        × (two.1 ≡ wrong_password)
        × (three.1 ≡ user_blocked)
        × (login (at_time three.0 t) username s ≡ (at_time three.0 t, user_blocked, some u))
  unfolding find_user
  three_failures_lock w username p q r s t1 t2 t3 t u e a b1 b2 b3 n1 n2 n3 i h =
      let w1 : World =
        put_user (at_time w t1) u (record (w.users u) { attempts = (w.users u).attempts + 1 }) in
      let w2 : World =
        put_user (at_time w1 t2) u (record (w1.users u) { attempts = (w1.users u).attempts + 1 }) in
      rw (login_wrong (at_time w t1) username p u e b1 n1 (omega arith)) (
        rw (login_wrong (at_time w1 t2) username q u e (ground arith) (ground arith) (ground arith))
          (rw
            (login_third (at_time w2 t3) username r u e (ground arith) (ground arith)
              (ground arith))
            (
              refl,
              refl,
              refl,
              login_locked _ username s u e
                  (ground (arith, subst (λ z. t <ℤ z) (sym (int32-InInt _ i)) h)),
            )))

-- ===== src/Server/Online.antt =====
-- The state that a login that succeeds leaves.
use epoll_chat.Common.{
  ℕ, ◌≡◌, refl, sym, ap, subst, ◌∙◌, true, Text, some, arith, ==_refl, text_eq_iff, codes, ◌++◌,
}
use epoll_chat.Common.Int.{pos, ◌+ℤ◌, ◌<ℤ◌, int32, InInt, int32-InInt}
use epoll_chat.Protobuf.{Protobuf, c_string}
use epoll_chat.Proto.LoginRequest.{LoginRequest}
use epoll_chat.World.{World}
use epoll_chat.Delivery.{is_user_logged_in, encode_text, notify_all}
use epoll_chat.Auth.{login, login_user, start_session, find_user, success}
use epoll_chat.Auth.Accounts.{login-success_iff}
use epoll_chat.Server.Accounts.{link, cmd_login}
use epoll_chat.Server.Links.{notify_all-SameLinks}
use epoll_chat.Server.Logins.{cmd_login_success}

module _ ⦃pb : Protobuf⦄ where
  -- A login that succeeds is the start of the session and its notices.
  login_success_eq :
      (w : World) (username password : Text) (u : ℕ)
      → find_user w username ≡ some u
      → (login w username password).1 ≡ success
      → login w username password ≡ (
        notify_all
            (start_session w u)
            u
            (encode_text (username ++ codes " has logged in") true)
            w.db.first,
        success,
        some u,
      )
  unfolding login login_user
  login_success_eq w username password u e k =
      let (b, p, o) = (login-success_iff w username password u e).0 k in
      ground (arith, e, text_eq_iff (w.users u).password password)

  -- link of a user whose last activity is now leaves it logged in.
  link-online :
      (w : World) (c u port : ℕ)
      → (w.users u).last_active ≡ w.now
      → pos 0 <ℤ w.db.login_timeout
      → InInt (w.now +ℤ w.db.login_timeout)
      → is_user_logged_in (link w c u port) u ≡ true
  unfolding link is_user_logged_in ◌+ℤ◌
  link-online w c u port a h i =
      let e : int32 ((w.users u).last_active +ℤ w.db.login_timeout) ≡ w.now +ℤ w.db.login_timeout =
        ap (λ z. int32 (z +ℤ w.db.login_timeout)) a ∙ int32-InInt _ i in
      ground (arith, e)

  -- After a login that succeeds, the user is logged in, at the client that the request came from. The
  -- time-out is positive, and the time it ends is one that an int holds.
  pub cmd_login-online :
      (w : World) (c u : ℕ) (req : LoginRequest)
      → pos 0 <ℤ w.db.login_timeout
      → InInt (w.now +ℤ w.db.login_timeout)
      → find_user w (c_string req.username) ≡ some u
      → (login w (c_string req.username) (c_string req.password)).1 ≡ success
      → let w' = (cmd_login w c req).0 in
        (is_user_logged_in w' u ≡ true)
        × ((w'.users u).client ≡ some c)
        × ((w'.clients c).user ≡ some u)
  unfolding link start_session
  cmd_login-online w c u req t i e k =
      let txt = c_string req.username ++ codes " has logged in" in
      let w0 = notify_all (start_session w u) u (encode_text txt true) w.db.first in
      let s = notify_all-SameLinks (start_session w u) u (encode_text txt true) w.db.first in
      let same = ap (λ x. x.0) (login_success_eq w _ (c_string req.password) u e k) in
      subst
        (λ x.
          (is_user_logged_in x u ≡ true)
          × ((x.users u).client ≡ some c)
          × ((x.clients c).user ≡ some u))
        (sym (cmd_login_success w c u req e k ∙ ap (λ x. link x c u req.port) same))
        (
          link-online w0 c u req.port (s.active u ∙ (ground arith ∙ sym s.time))
              (subst (λ x. pos 0 <ℤ x) (sym s.timeout) t)
              (subst (λ x. InInt (x +ℤ w0.db.login_timeout)) (sym s.time)
                (subst (λ x. InInt (w.now +ℤ x)) (sym s.timeout) i)),
          rw (==_refl u) refl,
          rw (==_refl c) refl,
        )

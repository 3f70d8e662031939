-- ===== src/Server/Logins.antt =====
-- cmd_login and close_socket on the links between users and clients.
use epoll_chat.Common.{
  ℕ, ◌≡◌, refl, sym, subst, ◌∙◌, ◌≢◌, inl, inr, true, List, Text, Option, none, some, arith,
  Bool-cases, Option-cases, text_eq,
}
use mathlib.Core.Option.{some-injective, none-ne-some}
use epoll_chat.Common.Int.{ltb_ℤ}
use epoll_chat.Protobuf.{Protobuf, c_string}
use epoll_chat.Proto.LoginRequest.{LoginRequest}
use epoll_chat.World.{World}
use epoll_chat.Delivery.{is_user_logged_in, encode_text, notify_all}
use epoll_chat.Auth.{
  login, login_user, start_session, find_user, logout_user, unlink, LoginStatus, success,
  user_not_found, user_blocked, wrong_password, another_session,
}
use epoll_chat.Server.Accounts.{link, login_reply, cmd_login}
use epoll_chat.Server.Connection.{close_socket}
use epoll_chat.Server.Links.{
  Linked, SameLinks, notify_all-SameLinks, fail_password-SameLinks, link-Linked,
  logout_user-SameLinks, logout_user-Linked,
}

-- The pointers between users and clients are the same.
record SamePointers (w w' : World) : Type 0 where
  users : (u : ℕ) → (w'.users u).client ≡ (w.users u).client
  clients : (c : ℕ) → (w'.clients c).user ≡ (w.clients c).user

pointers_of : {w w' : World} → SameLinks w w' → SamePointers w w'
pointers_of s = record { users = s.users; clients = s.clients }

same_pointers : (w : World) → SamePointers w w
same_pointers w = record { users = λ u. refl; clients = λ c. refl }

SamePointers-Linked : {w w' : World} → SamePointers w w' → Linked w → Linked w'
SamePointers-Linked s l = record {
  to_user = λ u c e. s.clients c ∙ l.to_user u c (sym (s.users u) ∙ e);
  to_client = λ u c e. s.users u ∙ l.to_client u c (sym (s.clients c) ∙ e);
}

-- link on a client of another user leaves that user at the client.
link_over :
    (w : World) (c u v port : ℕ)
    → v ≢ u
    → (w.users v).client ≡ some c
    → let w' = link w c u port in
      ((w'.users v).client ≡ some c)
      × ((w'.users u).client ≡ some c)
      × ((w'.clients c).user ≡ some u)
      × ¬ Linked w'
unfolding link
link_over w c u v port n h =
    let w' = link w c u port in
    let a : (w'.users v).client ≡ some c = ground arith in
    let b : (w'.clients c).user ≡ some u = ground arith in
    (a, ground arith, b, λ l. n (some-injective v u (sym (l.to_user v c a) ∙ b)))

-- link of a user with another client leaves that client with the user.
link_beside :
    (w : World) (c d u port : ℕ)
    → d ≢ c
    → (w.clients d).user ≡ some u
    → let w' = link w c u port in
      ((w'.clients d).user ≡ some u) × ((w'.clients c).user ≡ some u) × ¬ Linked w'
unfolding link
link_beside w c d u port n h =
    let w' = link w c u port in
    let a : (w'.clients d).user ≡ some u = ground arith in
    let b : (w'.users u).client ≡ some c = ground arith in
    (a, ground arith, λ l. n (some-injective d c (sym (l.to_client u d a) ∙ b)))

module _ ⦃pb : Protobuf⦄ where
  start_session-SamePointers :
      (w : World) (u : ℕ) (vs : List ℕ) (txt : Text)
      → SamePointers w (notify_all (start_session w u) u (encode_text txt true) vs)
  unfolding start_session
  start_session-SamePointers w u vs txt =
      let s = notify_all-SameLinks (start_session w u) u (encode_text txt true) vs in
      record { users = λ v. s.users v ∙ ground arith; clients = λ c. s.clients c }

  login_user-SamePointers :
      (w : World) (u : ℕ) (username password : Text)
      → SamePointers w (login_user w u username password).0
  unfolding login_user
  login_user-SamePointers w u username password =
      elim (Bool-cases (ltb_ℤ w.now (w.users u).last_blocked)) [
        | inl e ↦ rw e (same_pointers w)
        | inr e ↦ rw e (elim (Bool-cases (text_eq (w.users u).password password)) [
          | inr k ↦ rw k (pointers_of (fail_password-SameLinks w u))
          | inl k ↦ rw k (elim (Bool-cases (is_user_logged_in w u)) [
            | inl o ↦ rw o (same_pointers w)
            | inr o ↦ rw o (start_session-SamePointers w u w.db.first _)
          ])
        ])
      ]

  login-SamePointers :
      (w : World) (username password : Text)
      → SamePointers w (login w username password).0
        × ((login w username password).2 ≡ find_user w username)
  unfolding login
  login-SamePointers w username password = elim (Option-cases (find_user w username)) [
    | inl e ↦ rw (e, login) (same_pointers w, refl)
    | inr (u, e) ↦ rw (e, login) (login_user-SamePointers w u username password, refl)
  ]

  -- A login keeps users and clients linked in pairs if they were, the connection has no user yet,
  -- and the user named, if there is one, has no client, whatever the answer is.
  pub cmd_login-Linked :
      (w : World) (c : ℕ) (req : LoginRequest)
      → (w.clients c).user ≡ none
      → ((u : ℕ) → find_user w (c_string req.username) ≡ some u → (w.users u).client ≡ none)
      → Linked w
      → Linked (cmd_login w c req).0
  unfolding cmd_login login_reply
  cmd_login-Linked w c req free fresh l =
      let r = login w (c_string req.username) (c_string req.password) in
      let (s, p) = login-SamePointers w (c_string req.username) (c_string req.password) in
      go r.0 r.1 r.2 s (sym p)
    where
      go :
          (w' : World) (status : LoginStatus) (p : Option ℕ)
          → SamePointers w w'
          → find_user w (c_string req.username) ≡ p
          → Linked (login_reply c req.port (w', status, p)).0
      go w' success none s e = SamePointers-Linked s l
      go w' success (some u) s e =
          link-Linked w' c u req.port (s.clients c ∙ free) (s.users u ∙ fresh u e)
            (SamePointers-Linked s l)
      go w' user_not_found p s e = SamePointers-Linked s l
      go w' user_blocked p s e = SamePointers-Linked s l
      go w' wrong_password p s e = SamePointers-Linked s l
      go w' another_session p s e = SamePointers-Linked s l

  pub cmd_login_success :
      (w : World) (c u : ℕ) (req : LoginRequest)
      → find_user w (c_string req.username) ≡ some u
      → (login w (c_string req.username) (c_string req.password)).1 ≡ success
      → (cmd_login w c req).0
        ≡ link (login w (c_string req.username) (c_string req.password)).0 c u req.port
  unfolding cmd_login login_reply
  cmd_login_success w c u req e k =
      let r = login w (c_string req.username) (c_string req.password) in
      let p : r.2 ≡ some u =
        (login-SamePointers w (c_string req.username) (c_string req.password)).1 ∙ e in
      rw (k, p)

  -- A second login that succeeds on a connection, as another user, leaves the first user pointing
  -- at the client: both users then hold the one client, the client has the second, and the links
  -- are no longer in pairs.
  pub second_login_unlinks :
      (w : World) (c u v : ℕ) (req : LoginRequest)
      → find_user w (c_string req.username) ≡ some u
      → (login w (c_string req.username) (c_string req.password)).1 ≡ success
      → v ≢ u
      → (w.users v).client ≡ some c
      → let w' = (cmd_login w c req).0 in
        ((w'.users v).client ≡ some c)
        × ((w'.users u).client ≡ some c)
        × ((w'.clients c).user ≡ some u)
        × ¬ Linked w'
  second_login_unlinks w c u v req e k n h =
      let s = login-SamePointers w (c_string req.username) (c_string req.password) in
      subst
        (λ x.
          ((x.users v).client ≡ some c)
          × ((x.users u).client ≡ some c)
          × ((x.clients c).user ≡ some u)
          × ¬ Linked x)
        (sym (cmd_login_success w c u req e k)) (link_over _ c u v req.port n (s.0.users v ∙ h))

  -- A login that succeeds while another client still has the user, as it has after the session
  -- ran out and before the sweep has seen it, leaves that client with the user: two clients then
  -- have the user, and the links are no longer in pairs.
  pub takeover_keeps_both :
      (w : World) (c d u : ℕ) (req : LoginRequest)
      → find_user w (c_string req.username) ≡ some u
      → (login w (c_string req.username) (c_string req.password)).1 ≡ success
      → d ≢ c
      → (w.clients d).user ≡ some u
      → let w' = (cmd_login w c req).0 in
        ((w'.clients d).user ≡ some u) × ((w'.clients c).user ≡ some u) × ¬ Linked w'
  takeover_keeps_both w c d u req e k n h =
      let s = login-SamePointers w (c_string req.username) (c_string req.password) in
      subst (λ x. ((x.clients d).user ≡ some u) × ((x.clients c).user ≡ some u) × ¬ Linked x)
        (sym (cmd_login_success w c u req e k)) (link_beside _ c d u req.port n (s.0.clients d ∙ h))

  -- unlink of a user leaves nobody at the client.
  unlink-alone :
      (w : World) (u c v : ℕ)
      → (w.users u).client ≡ some c
      → Linked w
      → ((unlink w u c).users v).client ≢ some c
  unfolding unlink
  unlink-alone w u c v e l h = ground (arith, l.to_user v c, l.to_user u c)

  left_alone :
      (w : World) (c : ℕ)
      → Linked w
      → (u : ℕ) → ((logout_user w (w.clients c).user).users u).client ≢ some c
  unfolding logout_user
  left_alone w c l u h = elim (Option-cases (w.clients c).user) [
    | inl e ↦
        let q : (w.users u).client ≡ some c =
          subst (λ p. ((logout_user w p).users u).client ≡ some c) e h in
        none-ne-some _ (sym e ∙ l.to_user u c q)
    | inr (v, e) ↦
        let s = logout_user-SameLinks w v c (l.to_client v c e) in
        let q = sym (s.users u) ∙ subst (λ p. ((logout_user w p).users u).client ≡ some c) e h in
        unlink-alone w v c u (l.to_client v c e) l q
  ]

  -- Over linked users and clients close_socket leaves no user pointing at the client, whatever its
  -- user was, and keeps the links in pairs.
  pub close_socket_lem :
      (w : World) (c : ℕ)
      → Linked w
      → Linked (close_socket w c) × ((u : ℕ) → ((close_socket w c).users u).client ≢ some c)
  unfolding close_socket
  close_socket_lem w c l =
      let w' = logout_user w (w.clients c).user in
      let k : Linked w' = logout_user-Linked w (w.clients c).user l in
      (record { to_user = k.to_user; to_client = k.to_client }, left_alone w c l)

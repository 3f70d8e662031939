-- ===== src/Server/Accounts.antt =====
-- serverlib/commands/login.c, logout.c, block.c and unblock.c.
use epoll_chat.Common.{
  ℕ, ◌%◌, Bool, true, false, not, ◌++◌, Text, Option, none, some, if◌then◌else◌, codes, ◌==◌,
}
use epoll_chat.Protobuf.{Protobuf, c_string}
use epoll_chat.Proto.ImResponse.{ImResponse}
use epoll_chat.Proto.LoginRequest.{LoginRequest}
use epoll_chat.Proto.LogOutRequest.{LogOutRequest}
use epoll_chat.Proto.BlockRequest.{BlockRequest}
use epoll_chat.Proto.UnBlockRequest.{UnBlockRequest}
use epoll_chat.World.{World, put_user, put_client}
use epoll_chat.Delivery.{is_logged_in, has_blocked_user, encode_text, encode_exit_text}
use epoll_chat.Auth.{
  LoginStatus, success, user_not_found, user_blocked, wrong_password, another_session, login,
  find_user, block_user, unblock_user,
}
use epoll_chat.Server.Connection.{close_socket}

-- What `run` of a command returns: the world, and the response, NULL for none.
abbrev pub Reply : Type 0
Reply = World × Option ImResponse

-- The writes of cmd_login_impl that link a user and a client.
unfoldable pub link : World → ℕ → ℕ → ℕ → World
link w c u port =
    let w' = put_client w c (record (w.clients c) {
      user = some u;
      addr = record ((w.clients c).addr) { sin_port = port % 65536 };
    }) in
    put_user w' u (record (w'.users u) { client = some c })

module _ ⦃pb : Protobuf⦄ where
  unfoldable pub text_reply : World → Text → Bool → Reply
  text_reply w txt ok = (w, some (encode_text txt ok))

  unfoldable pub exit_reply : World → Text → Reply
  exit_reply w txt = (w, some (encode_exit_text txt false))

  -- The switch of cmd_login_impl. The pointer is set where the status is not `user_not_found`.
  unfoldable pub login_reply : ℕ → ℕ → World × LoginStatus × Option ℕ → Reply
  unfolding link text_reply exit_reply
  login_reply c port (w, success, some u) =
      let w' = link w c u port in
      text_reply w' (codes "Welcome " ++ ((w'.users u).username ++ codes "!")) true
  login_reply c port (w, success, none) = (w, none)
  login_reply c port (w, user_not_found, p) = exit_reply w (codes "user does not exist")
  login_reply c port (w, wrong_password, p) = text_reply w (codes "password is wrong") false
  login_reply c port (w, user_blocked, p) = exit_reply w (codes "you are blocked! try again later")
  login_reply c port (w, another_session, p) = exit_reply w (codes "another session is in place")

  -- cmd_login_impl
  unfoldable pub cmd_login : World → ℕ → LoginRequest → Reply
  cmd_login w c req =
      login_reply c req.port (login w (c_string req.username) (c_string req.password))

  unfoldable pub not_logged_in : World → Reply
  unfolding text_reply
  not_logged_in w = text_reply w (codes "You are not logged in") false

  -- cmd_logout_impl
  unfoldable pub cmd_logout : World → ℕ → LogOutRequest → Reply
  cmd_logout w c req =
      if not (is_logged_in w (w.clients c).user) then not_logged_in w else (close_socket w c, none)

  -- cmd_block_impl for the client's user `me`
  unfoldable pub block_reply : World → ℕ → Text → Reply
  unfolding text_reply
  block_reply w me name = elim (find_user w name) [
    | none ↦ text_reply w (name ++ codes " is not present on server") false
    | some u ↦
        if u == me
        then text_reply w (codes "cannot block yourself") false
        else if has_blocked_user w me u
        then text_reply w (name ++ codes " is already blocked") false
        else text_reply (block_user w me u) (name ++ codes " is blocked") true
  ]

  -- cmd_unblock_impl for the client's user `me`
  unfoldable pub unblock_reply : World → ℕ → Text → Reply
  unfolding text_reply
  unblock_reply w me name = elim (find_user w name) [
    | none ↦ text_reply w (name ++ codes " is not present on server") false
    | some u ↦
        if u == me
        then text_reply w (codes "cannot unblock yourself") false
        else if not (has_blocked_user w me u)
        then text_reply w (name ++ codes " is not blocked") false
        else text_reply (unblock_user w me u) (name ++ codes " is unblocked") true
  ]

  -- The guard of the commands: `run` gets the client's user, which is not NULL then.
  unfoldable pub if_logged_in : World → ℕ → (ℕ → Reply) → Reply
  if_logged_in w c run = elim (w.clients c).user [
    | none ↦ not_logged_in w
    | some me ↦ if not (is_logged_in w (some me)) then not_logged_in w else run me
  ]

  unfoldable pub cmd_block : World → ℕ → BlockRequest → Reply
  cmd_block w c req = if_logged_in w c λ me. block_reply w me (c_string req.username)

  unfoldable pub cmd_unblock : World → ℕ → UnBlockRequest → Reply
  cmd_unblock w c req = if_logged_in w c λ me. unblock_reply w me (c_string req.username)

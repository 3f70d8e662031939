-- ===== src/Server/Input.antt =====
-- The input buffers under sends, logins and logouts. Commands goes on to the commands.
pub mod Commands
use epoll_chat.Common.{
  ℕ, ◌≡◌, refl, ◌∙◌, inl, inr, Bool, true, List, [], ◌∷◌, ◌++◌, Text, Option, none, some, arith,
  Bool-cases, Option-cases, codes,
}
use epoll_chat.Protobuf.{Protobuf, c_string}
use epoll_chat.Proto.ImResponse.{ImResponse}
use epoll_chat.Proto.LoginRequest.{LoginRequest}
use epoll_chat.World.{World}
use epoll_chat.Delivery.{
  is_user_logged_in, is_logged_in, send_response_to_client, store_for_user, send_response_to_user,
  notify_all, wants_notice, encode_text,
}
use epoll_chat.Auth.{
  login, login_user, fail_password, start_session, logout_user, unlink, find_user, block_user,
  unblock_user, LoginStatus, success, user_not_found, user_blocked, wrong_password, another_session,
}
use epoll_chat.Files.{add_file, find_file, reg_all_file_chunk, reg_file_chunk}
use epoll_chat.Server.Accounts.{
  Reply, link, text_reply, exit_reply, login_reply, cmd_login, cmd_logout, if_logged_in,
  block_reply, unblock_reply, cmd_block, cmd_unblock, not_logged_in,
}
use epoll_chat.Server.Talk.{
  send_message, is_recipient, broadcast, broadcast_reply, direct_reply, cmd_message, history_reply,
  cmd_whoelse, getip_reply, cmd_getip, chat_text,
}
use epoll_chat.Server.Sharing.{
  regfile_reply, cmd_regfile, regchunk_reply, cmd_regchunk, searchfile_reply, cmd_searchfile,
}
use epoll_chat.Server.Connection.{close_socket}
use epoll_chat.Server.Dispatch.{Request, run, touch, respond}

-- The input buffers of two worlds are the same.
abbrev pub SameInput : World → World → Type 0
SameInput w w' = (c : ℕ) → (w'.clients c).inbuffer ≡ (w.clients c).inbuffer

module _ ⦃pb : Protobuf⦄ where
  pub send-SameInput :
      (w : World) (c : ℕ) (msg : ImResponse) → SameInput w (send_response_to_client w c msg)
  unfolding send_response_to_client
  send-SameInput w c msg d = ground arith

  store-SameInput : (w : World) (u : ℕ) (msg : ImResponse) → SameInput w (store_for_user w u msg)
  unfolding store_for_user
  store-SameInput w u msg d = refl

  pub respond_user-SameInput :
      (w : World) (u : ℕ) (msg : ImResponse) → SameInput w (send_response_to_user w u msg)
  unfolding send_response_to_user
  respond_user-SameInput w u msg d = elim (Option-cases (w.users u).client) [
    | inl e ↦ rw (e, send_response_to_user) (store-SameInput w u msg d)
    | inr (c, e) ↦
        rw (e, send_response_to_user)
          (elim (Bool-cases (is_user_logged_in w u)) [
            | inl t ↦ rw t (send-SameInput w c msg d)
            | inr t ↦ rw t (store-SameInput w u msg d)
          ])
  ]

  notify_all-SameInput :
      (w : World) (user : ℕ) (rsp : ImResponse) (vs : List ℕ)
      → SameInput w (notify_all w user rsp vs)
  unfolding notify_all
  notify_all-SameInput w user rsp [] d = refl
  notify_all-SameInput w user rsp (v ∷ vs) d = elim (Bool-cases (wants_notice w user v)) [
    | inl e ↦
        rw (e, notify_all)
          (notify_all-SameInput (send_response_to_user w v rsp) user rsp vs d
            ∙ respond_user-SameInput w v rsp d)
    | inr e ↦ rw (e, notify_all) (notify_all-SameInput w user rsp vs d)
  ]

  unlink-SameInput : (w : World) (u c : ℕ) → SameInput w (unlink w u c)
  unfolding unlink
  unlink-SameInput w u c d = ground arith

  logout_user-SameInput : (w : World) (p : Option ℕ) → SameInput w (logout_user w p)
  unfolding logout_user unlink
  logout_user-SameInput w none d = refl
  logout_user-SameInput w (some u) d = elim (Option-cases (w.users u).client) [
    | inl e ↦ rw (e, logout_user) refl
    | inr (c, e) ↦
        rw (e, logout_user)
          (ground (
            arith,
            notify_all-SameInput (unlink w u c) u
                (encode_text ((w.users u).username ++ codes " has logged out") true) w.db.first d,
          ))
  ]

  pub close_socket-SameInput : (w : World) (c : ℕ) → SameInput w (close_socket w c)
  unfolding close_socket
  close_socket-SameInput w c d = logout_user-SameInput w (w.clients c).user d

  pub login-SameInput : (w : World) (name password : Text) → SameInput w (login w name password).0
  unfolding login login_user fail_password start_session
  login-SameInput w name password d = elim (Option-cases (find_user w name)) [
    | inl e ↦ rw (e, login) refl
    | inr (u, e) ↦
        rw (e, login)
          (ground (
            arith,
            notify_all-SameInput (start_session w u) u
                (encode_text (name ++ codes " has logged in") true) w.db.first d,
          ))
  ]

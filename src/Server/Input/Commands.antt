-- ===== src/Server/Input/Commands.antt =====
-- No command touches an input buffer: only im_receive_command does.
use epoll_chat.Common.{
  ℕ, ◌≡◌, refl, ◌∙◌, inl, inr, Bool, true, List, [], ◌∷◌, Text, Option, none, some, arith,
  Bool-cases, Option-cases,
}
use epoll_chat.Protobuf.{Protobuf, c_string}
use epoll_chat.Proto.ImResponse.{ImResponse}
use epoll_chat.Proto.LoginRequest.{LoginRequest}
use epoll_chat.World.{World}
use epoll_chat.Delivery.{is_logged_in}
use epoll_chat.Auth.{
  login, find_user, block_user, unblock_user, LoginStatus, success, user_not_found, user_blocked,
  wrong_password, another_session,
}
use epoll_chat.Files.{add_file, find_file, reg_all_file_chunk, reg_file_chunk}
use epoll_chat.Server.Accounts.{
  Reply, link, text_reply, exit_reply, login_reply, cmd_login, cmd_logout, if_logged_in,
  block_reply, unblock_reply, cmd_block, cmd_unblock, not_logged_in,
}
use epoll_chat.Server.Talk.{
  send_message, is_recipient, broadcast, broadcast_reply, direct_reply, cmd_message, history_reply,
  cmd_whoelse, getip_reply, cmd_getip, chat_text,
}
use epoll_chat.Server.Sharing.{
  regfile_reply, cmd_regfile, regchunk_reply, cmd_regchunk, searchfile_reply, cmd_searchfile,
}
use epoll_chat.Server.Dispatch.{Request, run, touch, respond}
use epoll_chat.Server.Input.{
  SameInput, send-SameInput, respond_user-SameInput, close_socket-SameInput, login-SameInput,
}

module _ ⦃pb : Protobuf⦄ where
  cmd_login-SameInput : (w : World) (c : ℕ) (r : LoginRequest) → SameInput w (cmd_login w c r).0
  unfolding cmd_login login_reply link text_reply exit_reply
  cmd_login-SameInput w c r d =
      let l = login w (c_string r.username) (c_string r.password) in
      answer l.0 l.1 l.2 ∙ login-SameInput w (c_string r.username) (c_string r.password) d
    where
      answer :
          (w' : World) (s : LoginStatus) (p : Option ℕ)
          → ((login_reply c r.port (w', s, p)).0.clients d).inbuffer ≡ (w'.clients d).inbuffer
      answer w' success none = refl
      answer w' success (some u) = ground arith
      answer w' user_not_found p = refl
      answer w' user_blocked p = refl
      answer w' wrong_password p = refl
      answer w' another_session p = refl

  if_logged_in-SameInput :
      (w : World) (c : ℕ) (k : ℕ → Reply)
      → ((me : ℕ) → SameInput w (k me).0)
      → SameInput w (if_logged_in w c k).0
  unfolding if_logged_in not_logged_in text_reply
  if_logged_in-SameInput w c k h d = elim (Option-cases (w.clients c).user) [
    | inl e ↦ rw (e, if_logged_in) refl
    | inr (u, e) ↦ rw (e, if_logged_in) (ground (arith, h u d))
  ]

  block_reply-SameInput : (w : World) (me : ℕ) (name : Text) → SameInput w (block_reply w me name).0
  unfolding block_reply block_user text_reply
  block_reply-SameInput w me name d = elim (Option-cases (find_user w name)) [
    | inl e ↦ rw (e, block_reply) refl
    | inr (u, e) ↦ rw (e, block_reply) (ground arith)
  ]

  unblock_reply-SameInput :
      (w : World) (me : ℕ) (name : Text) → SameInput w (unblock_reply w me name).0
  unfolding unblock_reply unblock_user text_reply
  unblock_reply-SameInput w me name d = elim (Option-cases (find_user w name)) [
    | inl e ↦ rw (e, unblock_reply) refl
    | inr (u, e) ↦ rw (e, unblock_reply) (ground arith)
  ]

  send_message-SameInput :
      (w : World) (to from : ℕ) (msg : Text) → SameInput w (send_message w to from msg).0
  unfolding send_message
  send_message-SameInput w to from msg d =
      ground (arith, respond_user-SameInput w to (chat_text w from msg) d)

  broadcast-SameInput :
      (w : World) (from : ℕ) (msg : Text) (vs : List ℕ) (b : Bool)
      → SameInput w (broadcast w from msg vs b).0
  unfolding broadcast
  broadcast-SameInput w from msg [] b d = refl
  broadcast-SameInput w from msg (v ∷ vs) b d = elim (Bool-cases (is_recipient w from v)) [
    | inl e ↦
        rw (e, broadcast)
          (broadcast-SameInput (send_message w v from msg).0 from msg vs _ d
            ∙ send_message-SameInput w v from msg d)
    | inr e ↦ rw (e, broadcast) (broadcast-SameInput w from msg vs _ d)
  ]

  broadcast_reply-SameInput :
      (w : World) (me : ℕ) (msg : Text) → SameInput w (broadcast_reply w me msg).0
  unfolding broadcast_reply text_reply
  broadcast_reply-SameInput w me msg d =
      ground (arith, broadcast-SameInput w me msg w.db.first true d)

  direct_reply-SameInput :
      (w : World) (me : ℕ) (name msg : Text) → SameInput w (direct_reply w me name msg).0
  unfolding direct_reply text_reply
  direct_reply-SameInput w me name msg d = elim (Option-cases (find_user w name)) [
    | inl e ↦ rw (e, direct_reply) refl
    | inr (u, e) ↦ rw (e, direct_reply) (ground (arith, send_message-SameInput w u me msg d))
  ]

  history_reply-SameInput : (w : World) (us : List ℕ) → SameInput w (history_reply w us).0
  unfolding history_reply text_reply
  history_reply-SameInput w [] d = refl
  history_reply-SameInput w (u ∷ us) d = refl

  getip_reply-SameInput : (w : World) (me : ℕ) (name : Text) → SameInput w (getip_reply w me name).0
  unfolding getip_reply text_reply
  getip_reply-SameInput w me name d = elim (Option-cases (find_user w name)) [
    | inl e ↦ rw (e, getip_reply) refl
    | inr (u, e) ↦ rw (e, getip_reply) (ground arith)
  ]

  regfile_reply-SameInput :
      (w : World) (c : ℕ) (name : Text) (n : ℕ) → SameInput w (regfile_reply w c name n).0
  unfolding regfile_reply add_file reg_all_file_chunk text_reply
  regfile_reply-SameInput w c name n d = ground arith

  regchunk_reply-SameInput :
      (w : World) (c : ℕ) (name packed : Text) → SameInput w (regchunk_reply w c name packed).0
  unfolding regchunk_reply reg_file_chunk text_reply
  regchunk_reply-SameInput w c name packed d = elim (Option-cases (find_file w name)) [
    | inl e ↦ rw (e, regchunk_reply) refl
    | inr (f, e) ↦ rw (e, regchunk_reply) (ground arith)
  ]

  searchfile_reply-SameInput :
      (w : World) (name packed : Text) → SameInput w (searchfile_reply w name packed).0
  unfolding searchfile_reply text_reply
  searchfile_reply-SameInput w name packed d = elim (Option-cases (find_file w name)) [
    | inl e ↦ rw (e, searchfile_reply) refl
    | inr (f, e) ↦ rw (e, searchfile_reply) refl
  ]

  -- No command changes an input buffer.
  pub run-SameInput : (w : World) (c : ℕ) (r : Request) → SameInput w (run w c r).0
  unfolding run cmd_logout not_logged_in text_reply cmd_block cmd_unblock cmd_message cmd_whoelse
      cmd_getip cmd_regfile cmd_regchunk cmd_searchfile
  run-SameInput w c (Request.login r) = cmd_login-SameInput w c r
  run-SameInput w c (Request.message r) = if_logged_in-SameInput w c _ λ me d. ground (
    arith,
    broadcast_reply-SameInput w me (c_string r.msg) d,
    direct_reply-SameInput w me (c_string r.username) (c_string r.msg) d,
  )
  run-SameInput w c (Request.block r) =
      if_logged_in-SameInput w c _ λ me. block_reply-SameInput w me (c_string r.username)
  run-SameInput w c (Request.unblock r) =
      if_logged_in-SameInput w c _ λ me. unblock_reply-SameInput w me (c_string r.username)
  run-SameInput w c (Request.logout r) = λ d.
      elim (Bool-cases (is_logged_in w (w.clients c).user)) [
        | inl e ↦ rw e (close_socket-SameInput w c d)
        | inr e ↦ rw e refl
      ]
  run-SameInput w c (Request.whoelse r) =
      if_logged_in-SameInput w c _ λ me. history_reply-SameInput w _
  run-SameInput w c (Request.getip r) =
      if_logged_in-SameInput w c _ λ me. getip_reply-SameInput w me (c_string r.username)
  run-SameInput w c (Request.regfile r) =
      if_logged_in-SameInput w c _ λ me. regfile_reply-SameInput w c (c_string r.filename) r.chunks
  run-SameInput w c (Request.regchunk r) =
      if_logged_in-SameInput w c _ λ me. regchunk_reply-SameInput w c (c_string r.filename) r.chunks
  run-SameInput w c (Request.searchfile r) =
      if_logged_in-SameInput w c _ λ me. searchfile_reply-SameInput w (c_string r.filename) r.chunks

  pub touch-SameInput : (w : World) (c : ℕ) → SameInput w (touch w c)
  unfolding touch
  touch-SameInput w c d = elim (Option-cases (w.clients c).user) [
    | inl e ↦ rw (e, touch) refl
    | inr (u, e) ↦ rw (e, touch) (ground arith)
  ]

  pub respond-SameInput : (w : World) (c : ℕ) (r : Option ImResponse) → SameInput w (respond w c r)
  unfolding respond
  respond-SameInput w c none = λ d. refl
  respond-SameInput w c (some rsp) = send-SameInput w c rsp

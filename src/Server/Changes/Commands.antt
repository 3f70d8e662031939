-- ===== src/Server/Changes/Commands.antt =====
-- The changes that each command makes.
use epoll_chat.Common.{
  ℕ, ◌≡◌, refl, sym, subst, ltb, if◌then◌else◌, inl, inr, Bool, true, not, ◌==◌, List, [], ◌∷◌,
  Text, Option, none, some, arith, Option-cases,
}
use epoll_chat.Protobuf.{Protobuf, c_string}
use epoll_chat.Proto.ImResponse.{ImResponse}
use epoll_chat.Proto.LoginRequest.{LoginRequest}
use epoll_chat.World.{World}
use epoll_chat.Delivery.{is_logged_in, is_user_logged_in, has_blocked_user}
use epoll_chat.Auth.{
  login, find_user, LoginStatus, success, user_not_found, user_blocked, wrong_password,
  another_session,
}
use epoll_chat.Files.{file_at, add_file, find_file, reg_all_file_chunk, reg_file_chunk}
use epoll_chat.Server.Accounts.{
  Reply, link, text_reply, exit_reply, login_reply, cmd_login, cmd_logout, if_logged_in,
  block_reply, unblock_reply, cmd_block, cmd_unblock, not_logged_in,
}
use epoll_chat.Server.Talk.{
  send_message, is_recipient, broadcast, broadcast_reply, direct_reply, cmd_message, history_reply,
  cmd_whoelse, getip_reply, cmd_getip, chat_text,
}
use epoll_chat.Server.Sharing.{
  regfile_reply, cmd_regfile, regchunk_reply, cmd_regchunk, searchfile_reply, cmd_searchfile,
}
use epoll_chat.Server.Dispatch.{Request, run, touch, respond}
use epoll_chat.Server.Changes.{
  Change, same, next, set_user, set_client, files, if-Change, if_pair-Change, send-Change,
  respond_user-Change, close_socket-Change, login-Change,
}

module _ ⦃pb : Protobuf⦄ where
  link-Change : (w : World) (c u port : ℕ) → Change w (link w c u port)
  unfolding link
  link-Change w c u port =
      next (set_client c _ (refl, refl, refl)) (set_user u _ (refl, refl, refl))

  answer-Change :
      (c port : ℕ) (w : World) (s : LoginStatus) (p : Option ℕ)
      → Change w (login_reply c port (w, s, p)).0
  unfolding login_reply link text_reply exit_reply
  answer-Change c port w success none = same
  answer-Change c port w success (some u) = link-Change w c u port
  answer-Change c port w user_not_found p = same
  answer-Change c port w user_blocked p = same
  answer-Change c port w wrong_password p = same
  answer-Change c port w another_session p = same

  cmd_login-Change : (w : World) (c : ℕ) (r : LoginRequest) → Change w (cmd_login w c r).0
  unfolding cmd_login
  cmd_login-Change w c r =
      let l = login w (c_string r.username) (c_string r.password) in
      next (login-Change w (c_string r.username) (c_string r.password))
        (answer-Change c r.port l.0 l.1 l.2)

  if_logged_in-Change :
      (w : World) (c : ℕ) (k : ℕ → Reply)
      → ((me : ℕ) → Change w (k me).0)
      → Change w (if_logged_in w c k).0
  unfolding if_logged_in not_logged_in text_reply
  if_logged_in-Change w c k h = elim (Option-cases (w.clients c).user) [
    | inl e ↦ rw (e, if_logged_in) same
    | inr (u, e) ↦
        rw (e, if_logged_in) (if_pair-Change (not (is_logged_in w (some u))) _ _ same (h u))
  ]

  block_reply-Change : (w : World) (me : ℕ) (name : Text) → Change w (block_reply w me name).0
  unfolding block_reply text_reply
  block_reply-Change w me name = elim (Option-cases (find_user w name)) [
    | inl e ↦ rw (e, block_reply) same
    | inr (u, e) ↦
        rw (e, block_reply)
          (if_pair-Change (u == me) _ _ same
            (if_pair-Change (has_blocked_user w me u) _ _ same (Change.block me u)))
  ]

  unblock_reply-Change : (w : World) (me : ℕ) (name : Text) → Change w (unblock_reply w me name).0
  unfolding unblock_reply text_reply
  unblock_reply-Change w me name = elim (Option-cases (find_user w name)) [
    | inl e ↦ rw (e, unblock_reply) same
    | inr (u, e) ↦
        rw (e, unblock_reply)
          (if_pair-Change (u == me) _ _ same
            (if_pair-Change (not (has_blocked_user w me u)) _ _ same (Change.unblock me u)))
  ]

  send_message-Change :
      (w : World) (to from : ℕ) (msg : Text) → Change w (send_message w to from msg).0
  unfolding send_message
  send_message-Change w to from msg =
      if_pair-Change (has_blocked_user w to from) _ _ same
        (respond_user-Change w to (chat_text w from msg))

  broadcast-Change :
      (w : World) (from : ℕ) (msg : Text) (vs : List ℕ) (b : Bool)
      → Change w (broadcast w from msg vs b).0
  unfolding broadcast
  broadcast-Change w from msg [] b = same
  broadcast-Change w from msg (v ∷ vs) b =
      next
        (if_pair-Change (is_recipient w from v) (send_message w v from msg) (w, true)
          (send_message-Change w v from msg) same)
        (broadcast-Change (if is_recipient w from v then send_message w v from msg else (w, true)).0
          from msg vs _)

  broadcast_reply-Change : (w : World) (me : ℕ) (msg : Text) → Change w (broadcast_reply w me msg).0
  unfolding broadcast_reply text_reply
  broadcast_reply-Change w me msg =
      if_pair-Change (not (broadcast w me msg w.db.first true).1) _ _
        (broadcast-Change w me msg w.db.first true) (broadcast-Change w me msg w.db.first true)

  direct_reply-Change :
      (w : World) (me : ℕ) (name msg : Text) → Change w (direct_reply w me name msg).0
  unfolding direct_reply text_reply
  direct_reply-Change w me name msg = elim (Option-cases (find_user w name)) [
    | inl e ↦ rw (e, direct_reply) same
    | inr (u, e) ↦
        rw (e, direct_reply)
          (if_pair-Change (not (send_message w u me msg).1) _ _ (send_message-Change w u me msg)
            (send_message-Change w u me msg))
  ]

  history_reply-Change : (w : World) (us : List ℕ) → Change w (history_reply w us).0
  unfolding history_reply text_reply
  history_reply-Change w [] = same
  history_reply-Change w (u ∷ us) = same

  getip_reply_world : (w : World) (me : ℕ) (name : Text) → (getip_reply w me name).0 ≡ w
  unfolding getip_reply text_reply
  getip_reply_world w me name = elim (Option-cases (find_user w name)) [
    | inl e ↦ rw (e, getip_reply) refl
    | inr (u, e) ↦ elim (Option-cases (w.users u).client) [
      | inl f ↦ rw (e, getip_reply, f) (ground arith)
      | inr (c, f) ↦ rw (e, getip_reply, f) (ground arith)
    ]
  ]

  getip_reply-Change : (w : World) (me : ℕ) (name : Text) → Change w (getip_reply w me name).0
  getip_reply-Change w me name = subst (Change w) (sym (getip_reply_world w me name)) same

  add_file-Change : (w : World) (name : Text) (n : ℕ) → Change w (add_file w name n).0
  unfolding add_file
  add_file-Change w name n =
      if_pair-Change (ltb 0 (file_at w.file_db name).chunks) _ _ (files _ w.global_chunk_id)
        (files _ _)

  regfile_reply-Change :
      (w : World) (c : ℕ) (name : Text) (n : ℕ) → Change w (regfile_reply w c name n).0
  unfolding regfile_reply reg_all_file_chunk text_reply
  regfile_reply-Change w c name n = elim (Option-cases (add_file w name n).1) [
    | inl e ↦ rw (e, regfile_reply) (add_file-Change w name n)
    | inr (f, e) ↦
        rw (e, regfile_reply) (next (add_file-Change w name n) (set_client c _ (refl, refl, refl)))
  ]

  regchunk_reply-Change :
      (w : World) (c : ℕ) (name packed : Text) → Change w (regchunk_reply w c name packed).0
  unfolding regchunk_reply reg_file_chunk text_reply
  regchunk_reply-Change w c name packed = elim (Option-cases (find_file w name)) [
    | inl e ↦ rw (e, regchunk_reply) same
    | inr (f, e) ↦ rw (e, regchunk_reply) (set_client c _ (refl, refl, refl))
  ]

  searchfile_reply-Change :
      (w : World) (name packed : Text) → Change w (searchfile_reply w name packed).0
  unfolding searchfile_reply text_reply
  searchfile_reply-Change w name packed = elim (Option-cases (find_file w name)) [
    | inl e ↦ rw (e, searchfile_reply) same
    | inr (f, e) ↦ rw (e, searchfile_reply) same
  ]

  -- Every request is such a change, whatever its branch.
  pub run-Change : (w : World) (c : ℕ) (r : Request) → Change w (run w c r).0
  unfolding run cmd_logout not_logged_in text_reply cmd_block cmd_unblock cmd_message cmd_whoelse
      cmd_getip cmd_regfile cmd_regchunk cmd_searchfile
  run-Change w c (Request.login r) = cmd_login-Change w c r
  run-Change w c (Request.message r) = if_logged_in-Change w c _ λ me.
      if_pair-Change r.broadcast _ _ (broadcast_reply-Change w me (c_string r.msg))
        (direct_reply-Change w me (c_string r.username) (c_string r.msg))
  run-Change w c (Request.block r) =
      if_logged_in-Change w c _ λ me. block_reply-Change w me (c_string r.username)
  run-Change w c (Request.unblock r) =
      if_logged_in-Change w c _ λ me. unblock_reply-Change w me (c_string r.username)
  run-Change w c (Request.logout r) =
      if_pair-Change (not (is_logged_in w (w.clients c).user)) _ _ same (close_socket-Change w c)
  run-Change w c (Request.whoelse r) = if_logged_in-Change w c _ λ me. history_reply-Change w _
  run-Change w c (Request.getip r) =
      if_logged_in-Change w c _ λ me. getip_reply-Change w me (c_string r.username)
  run-Change w c (Request.regfile r) =
      if_logged_in-Change w c _ λ me. regfile_reply-Change w c (c_string r.filename) r.chunks
  run-Change w c (Request.regchunk r) =
      if_logged_in-Change w c _ λ me. regchunk_reply-Change w c (c_string r.filename) r.chunks
  run-Change w c (Request.searchfile r) =
      if_logged_in-Change w c _ λ me. searchfile_reply-Change w (c_string r.filename) r.chunks

  pub touch-Change : (w : World) (c : ℕ) → Change w (touch w c)
  unfolding touch
  touch-Change w c = elim (Option-cases (w.clients c).user) [
    | inl e ↦ rw (e, touch) same
    | inr (u, e) ↦
        rw (e, touch) (if-Change (is_user_logged_in w u) (set_user u _ (refl, refl, refl)) same)
  ]

  pub respond-Change : (w : World) (c : ℕ) (r : Option ImResponse) → Change w (respond w c r)
  unfolding respond
  respond-Change w c none = same
  respond-Change w c (some rsp) = send-Change w c rsp

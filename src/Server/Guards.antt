-- ===== src/Server/Guards.antt =====
-- The guards of the commands.
use epoll_chat.Common.{ℕ, ◌≡◌, refl, inl, inr, Bool, true, false, arith, Option-cases}
use epoll_chat.Protobuf.{Protobuf}
use epoll_chat.World.{World}
use epoll_chat.Delivery.{is_logged_in}
use epoll_chat.Server.Accounts.{
  Reply, not_logged_in, if_logged_in, cmd_logout, cmd_block, cmd_unblock,
}
use epoll_chat.Server.Talk.{cmd_message, cmd_whoelse, cmd_getip}
use epoll_chat.Server.Sharing.{cmd_regfile, cmd_regchunk, cmd_searchfile}
use epoll_chat.Server.Dispatch.{Request, run}

-- Whether a request is a login.
abbrev pub is_login : Request → Bool
is_login (Request.login r) = true
is_login _ = false

module _ ⦃pb : Protobuf⦄ where
  refused :
      (w : World) (c : ℕ) (k : ℕ → Reply)
      → is_logged_in w (w.clients c).user ≡ false
      → if_logged_in w c k ≡ not_logged_in w
  unfolding if_logged_in is_logged_in
  refused w c k h = elim (Option-cases (w.clients c).user) [
    | inl e ↦ rw (e, if_logged_in) refl
    | inr (u, e) ↦ rw (e, if_logged_in) (ground (arith, e, h))
  ]

  -- For a client without a user who is logged in, every request but a login changes nothing and is
  -- answered with the one refusal.
  pub run-refused :
      (w : World) (c : ℕ) (r : Request)
      → is_logged_in w (w.clients c).user ≡ false
      → is_login r ≡ false
      → run w c r ≡ not_logged_in w
  unfolding run cmd_logout cmd_block cmd_unblock cmd_message cmd_whoelse cmd_getip cmd_regfile
      cmd_regchunk cmd_searchfile
  run-refused w c (Request.login r) h l = absurd (ground (arith, l))
  run-refused w c (Request.message r) h l = refused w c _ h
  run-refused w c (Request.block r) h l = refused w c _ h
  run-refused w c (Request.unblock r) h l = refused w c _ h
  run-refused w c (Request.logout r) h l = rw h refl
  run-refused w c (Request.whoelse r) h l = refused w c _ h
  run-refused w c (Request.getip r) h l = refused w c _ h
  run-refused w c (Request.regfile r) h l = refused w c _ h
  run-refused w c (Request.regchunk r) h l = refused w c _ h
  run-refused w c (Request.searchfile r) h l = refused w c _ h

-- ===== src/Server/Changes.antt =====
-- What a command of the server may do to the world, as a relation, for a login, a logout and the
-- sends. Commands goes on to the commands, Reach to whole runs.
pub mod Commands
pub mod Sound
pub mod Reach
pub mod Starting
use epoll_chat.Common.{
  ℕ, ◌≡◌, refl, ◌∙◌, inl, inr, Bool, true, false, not, List, [], ◌∷◌, ◌++◌, Text, Option, none,
  some, if◌then◌else◌, arith, Bool-cases, Option-cases, codes, text_eq, ◌+◌, ◌==◌,
}
use epoll_chat.Common.Int.{ltb_ℤ}
use epoll_chat.Protobuf.{Protobuf}
use epoll_chat.Proto.ImResponse
use epoll_chat.Proto.ImResponse.{ImResponse}
use epoll_chat.Buffer.{append_bytes}
use epoll_chat.World.{World, User, Client, SysCall, FileEntry, put_user, put_client, called}
use epoll_chat.Trie.{Trie}
use epoll_chat.Delivery.{
  is_user_logged_in, send_response_to_client, store_for_user, send_response_to_user, notify_all,
  wants_notice, encode_text,
}
use epoll_chat.Auth.{
  login, login_user, fail_password, start_session, logout_user, unlink, find_user, block_user,
  unblock_user,
}
use epoll_chat.Server.Connection.{close_socket}

-- What of a user only sends and blocks change.
abbrev pub KeepsUser : User → User → Type 0
KeepsUser old new =
    (new.username ≡ old.username) × (new.buffer ≡ old.buffer) × (new.blocked ≡ old.blocked)

-- What of a client only sends and receives change.
abbrev pub KeepsClient : Client → Client → Type 0
KeepsClient old new =
    (new.fd ≡ old.fd) × (new.outbuffer ≡ old.outbuffer) × (new.inbuffer ≡ old.inbuffer)

-- The changes: bytes behind the output buffer of a client or of a user, a user or a client whose
-- buffers stay, a block taken up or given up, calls of the system, and the registered files.
pub data Change : World → World → Type 0 where
  same : {w : World} → Change w w
  next : {v w x : World} → Change v w → Change w x → Change v x
  send :
      {w : World} (c : ℕ) (s : Text)
      → Change w (
          put_client w c
            (record (w.clients c) { outbuffer = append_bytes (w.clients c).outbuffer s }))
  store :
      {w : World} (u : ℕ) (s : Text)
      → Change w (put_user w u (record (w.users u) { buffer = append_bytes (w.users u).buffer s }))
  set_user :
      {w : World} (u : ℕ) (user : User) → KeepsUser (w.users u) user → Change w (put_user w u user)
  set_client :
      {w : World} (c : ℕ) (client : Client)
      → KeepsClient (w.clients c) client
      → Change w (put_client w c client)
  block : {w : World} (by u : ℕ) → Change w (block_user w by u)
  unblock : {w : World} (by u : ℕ) → Change w (unblock_user w by u)
  call : {w : World} (s : SysCall) → Change w (called w s)
  files :
      {w : World} (t : Trie FileEntry) (n : ℕ)
      → Change w (record w { file_db = t; global_chunk_id = n })

-- Both branches of a test.
pub if-Change : {w x y : World} (b : Bool) → Change w x → Change w y → Change w (if b then x else y)
if-Change true h k = h
if-Change false h k = k

pub if_pair-Change {ℓ} :
    {A : Type ℓ} {w : World} (b : Bool) (r s : World × A)
    → Change w r.0
    → Change w s.0
    → Change w (if b then r else s).0
if_pair-Change true r s h k = h
if_pair-Change false r s h k = k

module _ ⦃pb : Protobuf⦄ where
  pub send-Change :
      (w : World) (c : ℕ) (msg : ImResponse) → Change w (send_response_to_client w c msg)
  unfolding send_response_to_client
  send-Change w c msg = next (send c (ImResponse.to_bytes msg)) (call _)

  pub respond_user-Change :
      (w : World) (u : ℕ) (msg : ImResponse) → Change w (send_response_to_user w u msg)
  unfolding send_response_to_user store_for_user
  respond_user-Change w u msg = elim (Option-cases (w.users u).client) [
    | inl e ↦ rw (e, send_response_to_user) (store u (ImResponse.to_bytes msg))
    | inr (c, e) ↦
        rw (e, send_response_to_user)
          (if-Change (is_user_logged_in w u) (send-Change w c msg)
            (store u (ImResponse.to_bytes msg)))
  ]

  notify_all-Change :
      (w : World) (user : ℕ) (rsp : ImResponse) (vs : List ℕ) → Change w (notify_all w user rsp vs)
  unfolding notify_all
  notify_all-Change w user rsp [] = same
  notify_all-Change w user rsp (v ∷ vs) = elim (Bool-cases (wants_notice w user v)) [
    | inl e ↦
        rw (e, notify_all)
          (next (respond_user-Change w v rsp)
            (notify_all-Change (send_response_to_user w v rsp) user rsp vs))
    | inr e ↦ rw (e, notify_all) (notify_all-Change w user rsp vs)
  ]

  unlink-Change : (w : World) (u c : ℕ) → Change w (unlink w u c)
  unfolding unlink
  unlink-Change w u c = next (set_client c _ (refl, refl, refl)) (set_user u _ (refl, refl, refl))

  pub logout_user-Change : (w : World) (p : Option ℕ) → Change w (logout_user w p)
  unfolding logout_user unlink
  logout_user-Change w none = same
  logout_user-Change w (some u) = elim (Option-cases (w.users u).client) [
    | inl e ↦ rw (e, logout_user) same
    | inr (c, e) ↦
        rw (e, logout_user)
          (if-Change (not w.is_server) (unlink-Change w u c) (
            next (unlink-Change w u c) (
              notify_all-Change (unlink w u c) u
                (encode_text ((w.users u).username ++ codes " has logged out") true) w.db.first)))
  ]

  pub close_socket-Change : (w : World) (c : ℕ) → Change w (close_socket w c)
  unfolding close_socket
  close_socket-Change w c = next (logout_user-Change w (w.clients c).user) (next (call _) (call _))

  fail_password-Change : (w : World) (u : ℕ) → Change w (fail_password w u).0
  unfolding fail_password
  fail_password-Change w u =
      if_pair-Change ((w.users u).attempts + 1 == 3) _ _ (set_user u _ (refl, refl, refl))
        (set_user u _ (refl, refl, refl))

  login_user-Change :
      (w : World) (u : ℕ) (name password : Text) → Change w (login_user w u name password).0
  unfolding login_user start_session
  login_user-Change w u name password =
      if_pair-Change (ltb_ℤ w.now (w.users u).last_blocked) _ _ same (
        if_pair-Change (not (text_eq (w.users u).password password)) _ _ (fail_password-Change w u)
          (if_pair-Change (is_user_logged_in w u) _ _ same (
            next (set_user u _ (refl, refl, refl)) (
              notify_all-Change (start_session w u) u
                (encode_text (name ++ codes " has logged in") true) w.db.first))))

  pub login-Change : (w : World) (name password : Text) → Change w (login w name password).0
  unfolding login
  login-Change w name password = elim (Option-cases (find_user w name)) [
    | inl e ↦ rw (e, login) same
    | inr (u, e) ↦ rw (e, login) (login_user-Change w u name password)
  ]

-- ===== src/Server/Talk.antt =====
-- serverlib/commands/message.c, whoelse.c and getip.c.
use epoll_chat.Common.{
  ℕ, Bool, true, false, not, ◌&&◌, List, [], ◌∷◌, ◌++◌, Text, Option, none, some, if◌then◌else◌,
  codes, ◌==◌,
}
use epoll_chat.Common.Int.{signed32}
use epoll_chat.Protobuf.{Protobuf, c_string}
use epoll_chat.Proto.MessageRequest.{MessageRequest}
use epoll_chat.Proto.WhoElseRequest.{WhoElseRequest}
use epoll_chat.Proto.GetIpRequest.{GetIpRequest}
use epoll_chat.Proto.GetIpResponse.{GetIpResponse}
use epoll_chat.Proto.GetIpResponse
use epoll_chat.Proto.ImResponse.{ImResponse}
use epoll_chat.World.{World, sockaddr_bytes}
use epoll_chat.Delivery.{is_user_logged_in, has_blocked_user, encode_text, send_response_to_user}
use epoll_chat.Auth.{
  find_user, logged_in_users, logged_in_users_in_past_seconds, user_linked_list_to_string,
}
use epoll_chat.Server.Accounts.{Reply, text_reply, if_logged_in}

-- The bytes that printf's `%s` shows for a string, glibc's "(null)" for NULL.
abbrev pub shown : Option Text → Text
shown none = codes "(null)"
shown (some s) = s

module _ ⦃pb : Protobuf⦄ where
  -- "%s: %s"
  unfoldable pub chat_text : World → ℕ → Text → ImResponse
  chat_text w from msg = encode_text ((w.users from).username ++ (codes ": " ++ msg)) true

  -- sendMessage
  unfoldable pub send_message : World → ℕ → ℕ → Text → World × Bool
  send_message w to from msg =
      if has_blocked_user w to from
      then (w, false)
      else (send_response_to_user w to (chat_text w from msg), true)

  -- The test of the broadcast loop.
  unfoldable pub is_recipient : World → ℕ → ℕ → Bool
  is_recipient w from v = not (v == from) && is_user_logged_in w v

  -- The broadcast loop, with `success`.
  unfoldable pub broadcast : World → ℕ → Text → List ℕ → Bool → World × Bool
  broadcast w from msg [] success = (w, success)
  broadcast w from msg (v ∷ vs) success =
      let r = if is_recipient w from v then send_message w v from msg else (w, true) in
      broadcast r.0 from msg vs (success && r.1)

  -- The branch of `req->broadcast`.
  unfoldable pub broadcast_reply : World → ℕ → Text → Reply
  unfolding text_reply
  broadcast_reply w me msg =
      let r = broadcast w me msg w.db.first true in
      if not r.1
      then text_reply r.0 (codes "Your message could not be delivered to some of the recipients.")
          false
      else (r.0, none)

  -- The other branch.
  unfoldable pub direct_reply : World → ℕ → Text → Text → Reply
  unfolding text_reply
  direct_reply w me name msg = elim (find_user w name) [
    | none ↦ text_reply w (codes "Recipient user does not exist on server.") false
    | some to ↦
        let r = send_message w to me msg in
        if not r.1
        then text_reply r.0
            (codes "Your message couldn't be delivered because the recipient has blocked you") false
        else (r.0, none)
  ]

  -- cmd_message_impl
  unfoldable pub cmd_message : World → ℕ → MessageRequest → Reply
  cmd_message w c req = if_logged_in w c λ me.
      if req.broadcast
      then broadcast_reply w me (c_string req.msg)
      else direct_reply w me (c_string req.username) (c_string req.msg)

  -- The users that cmd_whoelse_impl asks for; `pastSeconds` is passed on as an int.
  unfoldable pub user_history : World → Option ℕ → WhoElseRequest → List ℕ
  user_history w me req =
      if req.limit_time
      then logged_in_users_in_past_seconds w (signed32 req.past_seconds) req.currently_online me
      else logged_in_users w req.currently_online me

  unfoldable pub history_reply : World → List ℕ → Reply
  unfolding text_reply
  history_reply w [] = text_reply w (codes "No other users other than you") false
  history_reply w (u ∷ us) =
      text_reply w (shown (user_linked_list_to_string w (u ∷ us) (codes "\n")).0) true

  -- cmd_whoelse_impl
  unfoldable pub cmd_whoelse : World → ℕ → WhoElseRequest → Reply
  cmd_whoelse w c req = if_logged_in w c λ me. history_reply w (user_history w (some me) req)

  -- The response of cmd_getip_impl for a user at a client.
  unfoldable pub address_response : World → Text → ℕ → ImResponse
  address_response w name c = record {
    type = 3;
    success = true;
    value =
        GetIpResponse.to_bytes
          (record { username = name; addr = sockaddr_bytes (w.clients c).addr });
  }

  unfoldable pub getip_reply : World → ℕ → Text → Reply
  unfolding text_reply
  getip_reply w me name = elim (find_user w name) [
    | none ↦ text_reply w (codes "User is not present on server") false
    | some u ↦
        if u == me
        then text_reply w (codes "Cannot startprivate with yourself") false
        else if has_blocked_user w u me
        then text_reply w (codes "Target has blocked you") false
        else elim (w.users u).client [
          | none ↦ text_reply w (codes "Target is not online") false
          | some c ↦
              if not (is_user_logged_in w u)
              then text_reply w (codes "Target is not online") false
              else (w, some (address_response w name c))
        ]
  ]

  -- cmd_getip_impl
  unfoldable pub cmd_getip : World → ℕ → GetIpRequest → Reply
  cmd_getip w c req = if_logged_in w c λ me. getip_reply w me (c_string req.username)

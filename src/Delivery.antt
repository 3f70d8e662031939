-- ===== src/Delivery.antt =====
-- Who is logged in, and how a response gets to a client or a user: parts of lib/auth.c,
-- lib/response.c and lib/socket.c that the rest stands on.
pub mod Queues
use epoll_chat.Common.{
  ℕ, Bool, true, false, not, ◌&&◌, List, [], ◌∷◌, Text, Option, none, some, if◌then◌else◌, contains,
  ◌==◌,
}
use epoll_chat.Common.Int.{int32, ◌+ℤ◌, ltb_ℤ}
use epoll_chat.Protobuf.{Protobuf}
use epoll_chat.Proto.ImResponse.{ImResponse}
use epoll_chat.Proto.ImResponse
use epoll_chat.Proto.TextResponse
use epoll_chat.Proto.ExitResponse
use epoll_chat.Buffer.{append_bytes}
use epoll_chat.World.{World, User, Client, epoll_mod, put_user, put_client, called}

abbrev has_client : Option ℕ → Bool
has_client none = false
has_client (some c) = true

-- isUserLoggedIn on a user
unfoldable pub is_user_logged_in : World → ℕ → Bool
is_user_logged_in w u =
    has_client (w.users u).client
    && ltb_ℤ w.now (int32 ((w.users u).last_active +ℤ w.db.login_timeout))

-- isUserLoggedIn on a pointer that may be NULL
unfoldable pub is_logged_in : World → Option ℕ → Bool
is_logged_in w none = false
is_logged_in w (some u) = is_user_logged_in w u

-- hasBlockedUser
unfoldable pub has_blocked_user : World → ℕ → ℕ → Bool
has_blocked_user w by u = contains (w.users by).blocked u

module _ ⦃pb : Protobuf⦄ where
  -- encodeTextToIMResponse, encodeTextResponseToIMResponseAndFree
  unfoldable pub encode_text : Text → Bool → ImResponse
  encode_text txt success = record {
    type = 1;
    success = success;
    value = TextResponse.to_bytes (record { msg = txt });
  }

  -- encodeExitTextToIMResponse, encodeExitResponseToIMResponseAndFree
  unfoldable pub encode_exit_text : Text → Bool → ImResponse
  encode_exit_text txt success = record {
    type = 2;
    success = success;
    value = ExitResponse.to_bytes (record { msg = txt });
  }

  unfoldable pub send_response_to_client : World → ℕ → ImResponse → World
  send_response_to_client w c msg =
      called
        (put_client w c (record (w.clients c) {
          outbuffer = append_bytes (w.clients c).outbuffer (ImResponse.to_bytes msg);
        }))
        (epoll_mod (w.clients c).fd true)

  -- To the user's own buffer.
  unfoldable pub store_for_user : World → ℕ → ImResponse → World
  store_for_user w u msg =
      put_user w u
        (record (w.users u) { buffer = append_bytes (w.users u).buffer (ImResponse.to_bytes msg) })

  -- send_response_to_user: to the client of a logged-in user, and to the user's buffer otherwise
  unfoldable pub send_response_to_user : World → ℕ → ImResponse → World
  send_response_to_user w u msg = elim (w.users u).client [
    | none ↦ store_for_user w u msg
    | some c ↦
        if is_user_logged_in w u then send_response_to_client w c msg else store_for_user w u msg
  ]

  -- The test of the loops in login and logoutUser: `v` is online and not blocked by `user`.
  unfoldable pub wants_notice : World → ℕ → ℕ → Bool
  wants_notice w user v =
      not (v == user) && (is_user_logged_in w v && not (has_blocked_user w user v))

  unfoldable pub notify_all : World → ℕ → ImResponse → List ℕ → World
  notify_all w user rsp [] = w
  notify_all w user rsp (v ∷ vs) =
      notify_all (if wants_notice w user v then send_response_to_user w v rsp else w) user rsp vs

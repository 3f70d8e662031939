-- ===== src/ClientApp/Private.antt =====
-- clientlib/commands/private.c and stopprivate.c: messages to peers and the end of a session.
use epoll_chat.Common.{
  ℕ, Bool, true, false, [], ◌∷◌, ◌++◌, Text, Option, none, some, if◌then◌else◌, codes, drop, ltb,
  length, update, ◌==◌, ◌&&◌,
}
use epoll_chat.Protobuf.{Protobuf}
use epoll_chat.Proto.ImResponse.{ImResponse}
use epoll_chat.Proto.ChunkDataRequest
use epoll_chat.World.{World}
use epoll_chat.Delivery.{encode_text, send_response_to_client}
use epoll_chat.Auth.{find_user}
use epoll_chat.Libc.{scan_word_u32}
use epoll_chat.ClientApp.{App, prints, with_world, my_name}
use epoll_chat.ClientApp.Session.{close_peer}
use epoll_chat.ClientApp.Commands.{Outcome, split_at_space}

-- BUFSIZ, the size of `filename`
abbrev pub bufsiz : ℕ
bufsiz = 8192

-- strncmp with the length of `p`
abbrev pub starts_with : Text → Text → Bool
starts_with [] s = true
starts_with (x ∷ p) [] = false
starts_with (x ∷ p) (y ∷ s) = x == y && starts_with p s

-- `findUser(p2pdb, username)` with a `client` that is not NULL
unfoldable pub find_peer : World → Text → Option (ℕ × ℕ)
find_peer w username = elim (find_user w username) [
  | none ↦ none
  | some u ↦ elim (w.users u).client [ none ↦ none | some c ↦ some (u, c) ]
]

module _ ⦃pb : Protobuf⦄ where
  -- "%s (private): %s"
  unfoldable pub private_text : App → Text → ImResponse
  private_text a msg = encode_text (my_name a ++ (codes " (private): " ++ msg)) true

  unfoldable pub chunk_request : Text → ℕ → ImResponse
  chunk_request filename chunk = record {
    type = 5;
    success = true;
    value = ChunkDataRequest.to_bytes (record { filename = filename; chunk = chunk });
  }

  abbrev send_to : App → ℕ → ImResponse → Outcome
  send_to a c rsp = some (with_world a (send_response_to_client a.world c rsp), none)

  -- The branch of "download ". A name that is longer than `filename` is written past its end.
  unfoldable pub private_download : App → ℕ → Text → Outcome
  unfolding chunk_request
  private_download a c message = elim (scan_word_u32 message) [
    | none ↦ some (a, none)
    | some (filename, chunk) ↦
        if ltb (length filename) bufsiz then send_to a c (chunk_request filename chunk) else none
  ]

  -- cmd_private_impl
  unfoldable pub cmd_private_impl : App → Text → Outcome
  unfolding split_at_space find_peer private_text private_download
  cmd_private_impl a req = elim (split_at_space (drop 8 req)) [
    | none ↦ some (a, none)
    | some (username, message) ↦ elim (find_peer a.world username) [
      | none ↦ some (a, none)
      | some (u, c) ↦
          if starts_with (codes "download ") message
          then private_download a c (drop 9 message)
          else send_to a c (private_text a message)
    ]
  ]

  -- cmd_stopprivate_impl
  unfoldable pub cmd_stopprivate_impl : App → Text → Outcome
  unfolding find_peer
  cmd_stopprivate_impl a req = elim (find_peer a.world (drop 12 req)) [
    | none ↦ some (a, none)
    | some (u, c) ↦ some (
      prints (close_peer (record a { close_prehooks = update a.close_prehooks c false }) c)
          (codes "Ended private messaging with " ++ (drop 12 req ++ codes "\n")),
      none,
    )
  ]

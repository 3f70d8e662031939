-- ===== src/ClientApp/Talk.antt =====
-- Messages and chunks between two client programs: clientlib/commands/private.c at one of them, and
-- parse_response of client.c at the other.
pub mod Downloads
pub mod Links
pub mod Opening
use epoll_chat.Common.{
  ℕ, zero, suc, ◌+◌, ◌*◌, ◌<◌, ◌≤◌, ◌^◌, ◌≡◌, refl, ap, sym, subst, ◌∙◌, Bool, true, false, List,
  [], ◌∷◌, ◌++◌, Text, Option, none, some, if◌then◌else◌, codes, length, ◌==◌, contains, drop,
  arith,
}
use epoll_chat.Protobuf.{Protobuf, ProtobufLaws, ◌>>=◌, c_string}
use epoll_chat.Proto.ImRequest.{ImRequest}
use epoll_chat.Proto.ImResponse
use epoll_chat.Proto.ImResponse.{ImResponse}
use epoll_chat.Proto.TextResponse
use epoll_chat.World.{World}
use epoll_chat.Delivery.{send_response_to_client}
use epoll_chat.Delivery.Queues.{BuffersValid, queue, send_response_to_client_lem}
use epoll_chat.ClientApp.{App, Os, prints, with_world, my_name}
use epoll_chat.ClientApp.Commands.{split_at_space}
use epoll_chat.ClientApp.Private.{find_peer, starts_with, private_text, cmd_private_impl}
use epoll_chat.ClientApp.Console.{
  Entry, enabled_entries, find_entry, run_entry, parse_line, send_made,
}
use epoll_chat.ClientApp.Console.Prefixes.{find_entry-prefix}
use epoll_chat.ClientApp.Console.Lines.{split_at_space_lem}
use epoll_chat.ClientApp.Peers.{parse_response}
use epoll_chat.ClientApp.Peers.Texts.{parse_response-text}

abbrev pub private_line : Text → Text → Text
private_line to msg = codes "private " ++ (to ++ (b' ' ∷ msg))

-- Behind `bytes` in the buffer of client `c`, and nothing in the others.
abbrev pub Queued : App → App → ℕ → Text → Type 0
Queued a a' c bytes = (e : ℕ) → queue a'.world e ≡ queue a.world e ++ (if c == e then bytes else [])

module _ ⦃os : Os⦄ ⦃pb : Protobuf⦄ where
  -- A line of "private " whose command makes no request.
  pub parse_line-private :
      (a a' : App) (to msg : Text)
      → cmd_private_impl a (private_line to msg) ≡ some (a', none)
      → parse_line a (private_line to msg) ≡ some a'
  unfolding parse_line run_entry send_made
  parse_line-private a a' to msg e =
      rw (find_entry-prefix Entry.private (to ++ (b' ' ∷ msg)) tt, parse_line, e) refl

  cmd_private-text :
      (a : App) (to msg : Text) (u c : ℕ)
      → contains to b' ' ≡ false
      → find_peer a.world to ≡ some (u, c)
      → starts_with (codes "download ") msg ≡ false
      → cmd_private_impl a (private_line to msg)
        ≡ some (with_world a (send_response_to_client a.world c (private_text a msg)), none)
  unfolding cmd_private_impl
  cmd_private-text a to msg u c h e d =
      rw (split_at_space_lem to msg h, cmd_private_impl, e, d) refl

module _ ⦃os : Os⦄ ⦃pb : Protobuf⦄ (laws : ProtobufLaws pb) where
  -- "private" with a peer whose session is open, and a message that is no download, on clients with
  -- valid output buffers: the line puts bytes behind what waits for that peer's connection, and into
  -- no other buffer; and these bytes, with any behind them, are parsed by the peer's client, which
  -- prints "<sender> (private): <message>" up to its first zero byte. The codec keeps the laws, and
  -- the text fits in the wire format.
  pub private-shown :
      (a b : App) (to msg : Text) (u c d : ℕ)
      → contains to b' ' ≡ false
      → find_peer a.world to ≡ some (u, c)
      → starts_with (codes "download ") msg ≡ false
      → BuffersValid a.world
      → let txt = my_name a ++ (codes " (private): " ++ msg) in
        length txt < 2 ^ 31
        → length (TextResponse.to_bytes (record { msg = txt })) < 2 ^ 31
        → (a' : App) × (bytes : Text) × (parse_line a (private_line to msg) ≡ some a')
          × Queued a a' c bytes
          × ((rest : Text)
              → parse_response b d (bytes ++ rest)
                ≡ some (
                  prints (record b { last_response = true }) (c_string txt ++ codes "\n"),
                  length bytes,
                ))
  unfolding private_text
  private-shown a b to msg u c d h e s v f k = (
    with_world a (send_response_to_client a.world c (private_text a msg)),
    ImResponse.to_bytes (private_text a msg),
    parse_line-private a _ to msg (cmd_private-text a to msg u c h e s),
    (send_response_to_client_lem a.world c (private_text a msg) v).1,
    λ rest. parse_response-text laws b d (my_name a ++ (codes " (private): " ++ msg)) true rest f k,
  )

-- ===== src/ClientApp/Peers/Addresses.antt =====
-- The address that the server's getip sends, as the client that asked for it reads it.
use epoll_chat.Common.{ℕ, ◌+◌, ◌*◌, ◌/◌, ◌%◌, ◌≡◌, ap, [], ◌∷◌, ◌++◌, Text, some, length, arith}
use epoll_chat.World.{Address, sockaddr_bytes}
use epoll_chat.ClientApp.Peers.{parse_sockaddr}

port_lem : (p : ℕ) → p / 256 * 256 + p % 256 ≡ p
port_lem p = omega arith

sockaddr_lem :
    (ip : Text) (p : ℕ) (rest : Text)
    → length ip ≡ 4
    → parse_sockaddr (sockaddr_bytes (record { ip = ip; sin_port = p }) ++ rest)
      ≡ some (record { ip = ip; sin_port = p })
unfolding parse_sockaddr sockaddr_bytes
sockaddr_lem [] p rest h = absurd (omega arith)
sockaddr_lem (a ∷ []) p rest h = absurd (omega arith)
sockaddr_lem (a ∷ b ∷ []) p rest h = absurd (omega arith)
sockaddr_lem (a ∷ b ∷ c ∷ []) p rest h = absurd (omega arith)
sockaddr_lem (a ∷ b ∷ c ∷ d ∷ []) p rest h =
    ap (λ q. some (record { ip = a ∷ b ∷ c ∷ d ∷ []; sin_port = q })) (port_lem p)
sockaddr_lem (a ∷ b ∷ c ∷ d ∷ e ∷ s) p rest h = absurd (omega arith)

-- An address of four bytes with a port survives the 16 bytes of a `struct sockaddr_in`, in which
-- the server's getip sends it and from which the client's parse_response takes it, with any bytes
-- behind them.
pub parse_sockaddr-sockaddr_bytes :
    (addr : Address) (rest : Text)
    → length addr.ip ≡ 4
    → parse_sockaddr (sockaddr_bytes addr ++ rest) ≡ some addr
parse_sockaddr-sockaddr_bytes addr rest h = sockaddr_lem addr.ip addr.sin_port rest h

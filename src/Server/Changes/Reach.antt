-- ===== src/Server/Changes/Reach.antt =====
-- Whole runs of the server: the events of network_thread, the sweeps of time_thread and the clock,
-- in any order.
pub mod Parsing
pub mod Sending
pub mod Events
use epoll_chat.Common.{
  ℕ, ◌+◌, ◌-◌, ◌<◌, ◌≤◌, ◌≡◌, refl, sym, subst, ◌∙◌, inl, inr, Bool, true, false, List, [], ◌∷◌,
  Text, Option, none, some, if◌then◌else◌, arith, length,
}
use epoll_chat.Common.Int.{ℤ, ◌≤ℤ◌}
use epoll_chat.Protobuf.{Protobuf}
use epoll_chat.Buffer.{Buffer, contents, prepare_receive}
use epoll_chat.World.{World, User}
use epoll_chat.Server.Connection.{pick_client, slot}
use epoll_chat.Server.Dispatch.{Recv, arrived, failed}
use epoll_chat.Server.Loop.{Event, Sent, taken, refused, handle_event, time_thread, send_outbuffer}

-- What the system can return: `recv` no more than the room it is given, and `send` no more than the
-- bytes.
abbrev pub RecvFits : Buffer → Recv → Type 0
RecvFits b (arrived s) =
    length s ≤ (prepare_receive b).buffer_capacity - (prepare_receive b).buffer_end
RecvFits b failed = Unit {0}

abbrev pub SentFits : Buffer → Sent → Type 0
SentFits b (taken n) = n ≤ length (contents b)
SentFits b refused = Unit {0}

abbrev pub UserSentFits : World → Option ℕ → Sent → Type 0
UserSentFits w none s = Unit {0}
UserSentFits w (some u) s = SentFits (w.users u).buffer s

-- For the client that an event is about, if there is one; the buffer of its user is sent second.
abbrev pub FitsClient : World → Option ℕ → Event → Type 0
FitsClient w none e = Unit {0}
FitsClient w (some j) e =
    let c = slot w j in
    RecvFits (w.clients c).inbuffer e.recv
    × SentFits (w.clients c).outbuffer e.sent_own
    × (let w' = send_outbuffer w c e.sent_own in UserSentFits w' (w'.clients c).user e.sent_user)

module _ ⦃pb : Protobuf⦄ where
  -- A step of the server, whose listening socket is `masterfd`.
  pub data Step (masterfd : ℕ) : World → World → Type 0 where
    event :
        {w w' : World} (e : Event) (goes_on : Bool)
        → FitsClient w (pick_client w e.fd) e
        → handle_event masterfd w e ≡ some (w', goes_on)
        → Step masterfd w w'
    swept : {w : World} → Step masterfd w (time_thread w)
    tick : {w : World} (now : ℤ) → w.now ≤ℤ now → Step masterfd w (record w { now = now })

  -- A run: steps one after the other.
  pub data Reach (masterfd : ℕ) : World → World → Type 0 where
    start : {w : World} → Reach masterfd w w
    more : {v w x : World} → Reach masterfd v w → Step masterfd w x → Reach masterfd v x

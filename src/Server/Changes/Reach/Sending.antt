-- ===== src/Server/Changes/Reach/Sending.antt =====
-- The sweeps and the sends of the server, and its input buffers, as changes.
use epoll_chat.Common.{
  ℕ, ◌-◌, ◌≡◌, subst, inl, inr, Bool, false, not, List, [], ◌∷◌, Option, none, some, if◌then◌else◌,
  arith, Bool-cases, Option-cases, ◌==◌, length, take, if-keeps,
}
use epoll_chat.Protobuf.{Protobuf, ◌>>=◌}
use epoll_chat.Buffer.{Buffer, contents}
use epoll_chat.Buffer.Queue.{IsValid, compact_lem}
use epoll_chat.World.{World, send_bytes}
use epoll_chat.Delivery.{is_user_logged_in, send_response_to_client, encode_exit_text}
use epoll_chat.Auth.{logout_user}
use epoll_chat.Server.Output.{im_send_buffer_lem}
use epoll_chat.Server.Dispatch.{put_inbuffer}
use epoll_chat.Server.Loop.{
  Sent, taken, refused, handle_output, sweep, send_outbuffer, send_user_buffer, im_send_buffer,
  is_active, logged_off_text,
}
use epoll_chat.Server.Changes.{
  Change, same, next, call, if-Change, if_pair-Change, send-Change, logout_user-Change,
}
use epoll_chat.Server.Changes.Sound.{Sound, Change-Sound, put_client-Sound, put_user-Sound}
use epoll_chat.Server.Changes.Reach.{SentFits, UserSentFits}
use epoll_chat.Server.Changes.Reach.Parsing.{SoundOf}

abbrev pub StepSound : Option (World × Bool) → Type 0
StepSound none = Unit {0}
StepSound (some r) = Sound r.0

pub bind-StepSound : (o : Option World) (b : Bool) → SoundOf o → StepSound (o >>= λ w. some (w, b))
bind-StepSound none b h = tt
bind-StepSound (some w) b h = h

-- One byte less at the end, where the bytes stand at the front.
pub back_one :
    (b : Buffer)
    → IsValid b
    → b.buffer_start ≡ 0
    → IsValid (record b { buffer_end = b.buffer_end - 1 })
back_one b v z = omega arith

module _ ⦃pb : Protobuf⦄ where
  pub put_inbuffer-Sound :
      (w : World) (c : ℕ) (b : Buffer) → IsValid b → Sound w → Sound (put_inbuffer w c b)
  unfolding put_inbuffer
  put_inbuffer-Sound w c b v s = put_client-Sound w c _ ((s.clients c).0, v) s

  pub sweep-Change : (w : World) (cs : List ℕ) → Change w (sweep w cs)
  unfolding sweep
  sweep-Change w [] = same
  sweep-Change w (c ∷ cs) = elim (Option-cases (w.clients c).user) [
    | inl e ↦ rw (e, sweep) (sweep-Change w cs)
    | inr (u, e) ↦
        rw (e, sweep)
          (next
            (if-Change (not (is_user_logged_in w u))
              (next (logout_user-Change w (some u))
                (send-Change (logout_user w (some u)) c (encode_exit_text logged_off_text false)))
              same)
            (sweep-Change
              (if not (is_user_logged_in w u)
                then send_response_to_client (logout_user w (some u)) c
                    (encode_exit_text logged_off_text false)
                else w)
              cs))
  ]

  -- im_send_buffer makes calls, and leaves the buffer valid.
  pub im_send_buffer-Change :
      (w : World) (fd : ℕ) (b : Buffer) (r : Sent) → Change w (im_send_buffer w fd b r).0
  unfolding im_send_buffer
  im_send_buffer-Change w fd b (taken n) = if_pair-Change (length (contents b) == 0) _ _ (call _) (
      next (call (send_bytes fd (take n (contents b))))
        (if-Change (length (contents b) - n == 0) (call _) same))
  im_send_buffer-Change w fd b refused = if_pair-Change (length (contents b) == 0) _ _ (call _) same

  sent-IsValid :
      (w : World) (fd : ℕ) (b : Buffer) (r : Sent)
      → SentFits b r
      → IsValid b
      → IsValid (im_send_buffer w fd b r).1
  unfolding im_send_buffer
  sent-IsValid w fd b (taken n) h v = (im_send_buffer_lem w fd n b v h).0
  sent-IsValid w fd b refused h v = elim (Bool-cases (length (contents b) == 0)) [
    | inl e ↦ rw e (compact_lem b v).0
    | inr e ↦ rw e v
  ]

  pub send_outbuffer-Sound :
      (w : World) (c : ℕ) (r : Sent)
      → SentFits (w.clients c).outbuffer r
      → Sound w
      → Sound (send_outbuffer w c r)
  unfolding send_outbuffer
  send_outbuffer-Sound w c r h s =
      let fd = (w.clients c).fd in
      let b = (w.clients c).outbuffer in
      let w' = (im_send_buffer w fd b r).0 in
      let s' = Change-Sound (im_send_buffer-Change w fd b r) s in
      put_client-Sound w' c _ (sent-IsValid w fd b r h (s.clients c).0, (s'.clients c).1) s'

  send_user_buffer-Sound :
      (w : World) (c : ℕ) (r : Sent)
      → UserSentFits w (w.clients c).user r
      → Sound w
      → Sound (send_user_buffer w c r)
  unfolding send_user_buffer
  send_user_buffer-Sound w c r h s = elim (Option-cases (w.clients c).user) [
    | inl e ↦ rw (e, send_user_buffer) s
    | inr (u, e) ↦
        let fd = (w.clients c).fd in
        let b = (w.users u).buffer in
        let w' = (im_send_buffer w fd b r).0 in
        let s' = Change-Sound (im_send_buffer-Change w fd b r) s in
        rw (e, send_user_buffer)
          (put_user-Sound w' u _
            (
              sent-IsValid w fd b r (subst (λ p. UserSentFits w p r) e h) (s.users u).0,
              (s'.users u).1,
            )
            s')
  ]

  pub handle_output-Sound :
      (w : World) (c : ℕ) (r q : Sent)
      → SentFits (w.clients c).outbuffer r
      → (let w' = send_outbuffer w c r in UserSentFits w' (w'.clients c).user q)
      → Sound w
      → Sound (handle_output w c r q)
  unfolding handle_output
  handle_output-Sound w c r q h k s =
      let w' = send_outbuffer w c r in
      let s' = send_outbuffer-Sound w c r h s in
      if-keeps Sound (is_active w' (w'.clients c).user) _ _ (send_user_buffer-Sound w' c q k s') s'

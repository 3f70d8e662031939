-- ===== src/Server/Changes/Reach/Parsing.antt =====
-- The loop of im_receive_command as changes.
use epoll_chat.Common.{
  ℕ, zero, suc, ◌≤◌, sym, subst, ◌∙◌, inl, inr, Bool, Text, Option, none, some, Bool-cases,
  Option-cases, ◌==◌, length,
}
use epoll_chat.Protobuf.{Protobuf, ProtobufLaws}
use epoll_chat.Proto.ImRequest
use epoll_chat.Proto.ImRequest.{ImRequest}
use epoll_chat.Proto.ImResponse.{ImResponse}
use epoll_chat.Buffer.{Buffer, contents}
use epoll_chat.World.{World}
use epoll_chat.Server.Accounts.{Reply}
use epoll_chat.Server.Dispatch.{
  enabled_commands, find_command, parser, run, execute, parse_command, respond, consume,
  receive_loop, parse_input,
}
use epoll_chat.Server.Input.Commands.{respond-SameInput}
use epoll_chat.Server.Receive.{parse_command-reads, skip}
use epoll_chat.Server.Changes.{Change, same, next}
use epoll_chat.Server.Changes.Commands.{run-Change, touch-Change, respond-Change}
use epoll_chat.Server.Changes.Sound.{Sound, Change-Sound, put_client-Sound}

-- A result, if there is one, is a change of the world.
ChangeIn : World → Option Reply → Type 0
ChangeIn w none = Unit {0}
ChangeIn w (some r) = Change w r.0

abbrev pub SoundOf : Option World → Type 0
SoundOf none = Unit {0}
SoundOf (some w) = Sound w

ParsedIn : World → Option (World × ℕ × Option ImResponse) → Type 0
ParsedIn w none = Unit {0}
ParsedIn w (some r) = Change w r.0

SoundIn : Option (World × Bool) → Type 0
SoundIn none = Unit {0}
SoundIn (some r) = Sound r.0

module _ ⦃pb : Protobuf⦄ where
  execute-ChangeIn : (w : World) (c : ℕ) (req : ImRequest) → ChangeIn w (execute w c req)
  unfolding execute ChangeIn
  execute-ChangeIn w c req = elim (Option-cases (find_command req.type enabled_commands)) [
    | inl e ↦ rw (e, execute) same
    | inr (k, e) ↦ elim (Option-cases (parser k req.value)) [
      | inl p ↦ rw (e, execute, p) tt
      | inr (r, p) ↦ rw (e, execute, p) (next (run-Change w c r) (touch-Change (run w c r).0 c))
    ]
  ]

  parse_command-ChangeIn : (w : World) (c : ℕ) (bytes : Text) → ParsedIn w (parse_command w c bytes)
  unfolding parse_command ChangeIn ParsedIn
  parse_command-ChangeIn w c bytes = elim (Option-cases (pb.decode_n_fields bytes 2)) [
    | inl e ↦ rw (e, parse_command) same
    | inr ((m, n), e) ↦ elim (Option-cases (ImRequest.of_msg m)) [
      | inl p ↦ rw (e, parse_command, p) tt
      | inr (req, p) ↦ elim (Option-cases (execute w c req)) [
        | inl q ↦ rw (e, parse_command, p, q) tt
        | inr (r, q) ↦ rw (e, parse_command, p, q) (subst (ChangeIn w) q (execute-ChangeIn w c req))
      ]
    ]
  ]

  -- The bytes of a command that was parsed are taken out.
  pub consume-Sound :
      (w : World) (c n : ℕ)
      → n ≤ length (contents (w.clients c).inbuffer)
      → Sound w
      → Sound (consume w c n)
  unfolding consume
  consume-Sound w c n h s =
      put_client-Sound w c _ ((s.clients c).0, (skip (w.clients c).inbuffer n (s.clients c).1 h).0)
        s

module _ ⦃pb : Protobuf⦄ (laws : ProtobufLaws pb) where
  receive_loop-SoundIn : (fuel : ℕ) (w : World) (c : ℕ) → Sound w → SoundIn (receive_loop fuel w c)
  unfolding receive_loop SoundIn ParsedIn
  receive_loop-SoundIn zero w c s = s
  receive_loop-SoundIn (suc fuel) w c s =
      elim (Bool-cases ((w.clients c).inbuffer.buffer_start == (w.clients c).inbuffer.buffer_end)) [
        | inl e ↦ rw (e, receive_loop) s
        | inr e ↦ elim (parse_command-reads laws w c (contents (w.clients c).inbuffer)) [
          | inl p ↦ rw (e, receive_loop, p) tt
          | inr (r, p, reads, kept) ↦
              let w1 = respond r.0 c r.2 in
              let s1 : Sound w1 =
                Change-Sound
                  (next
                    (subst (ParsedIn w) p
                      (parse_command-ChangeIn w c (contents (w.clients c).inbuffer)))
                    (respond-Change r.0 c r.2))
                  s in
              elim (Bool-cases (r.1 == 0)) [
                | inl z ↦ rw (e, receive_loop, p, z) s1
                | inr z ↦
                    rw (e, receive_loop, p, z)
                      (receive_loop-SoundIn fuel (consume w1 c r.1) c (
                        consume-Sound w1 c r.1
                          (subst (λ (b : Buffer). r.1 ≤ length (contents b))
                            (sym (respond-SameInput r.0 c r.2 c ∙ kept c)) reads)
                          s1))
              ]
        ]
      ]

  -- im_receive_command behind `recv`, where it is no fault.
  pub parse_input-SoundOf : (w : World) (c : ℕ) → Sound w → SoundOf (parse_input w c)
  unfolding parse_input SoundIn
  parse_input-SoundOf w c s =
      let fuel = suc (length (contents (w.clients c).inbuffer)) in
      elim (Option-cases (receive_loop fuel w c)) [
        | inl e ↦ rw e tt
        | inr (r, e) ↦ rw e (subst (SoundIn) e (receive_loop-SoundIn fuel w c s))
      ]

-- ===== src/Server/Messages.antt =====
-- What serverlib/commands/message.c puts into the buffers, for one recipient and for all.
use epoll_chat.Common.{
  ℕ, ◌≡◌, refl, sym, ap, ◌∙◌, inl, inr, Bool, true, false, not, ◌&&◌, ◌||◌, List, [], ◌∷◌, ◌++◌,
  Text, none, some, if◌then◌else◌, arith, Bool-cases, points_to, append-nil, append_assoc, ◌==◌,
}
use epoll_chat.Protobuf.{Protobuf}
use epoll_chat.Proto.ImResponse
use epoll_chat.Proto.ImResponse.{ImResponse}
use epoll_chat.World.{World}
use epoll_chat.Delivery.{
  is_user_logged_in, has_blocked_user, send_response_to_client, store_for_user,
  send_response_to_user,
}
use epoll_chat.Delivery.Queues.{
  queue, stored, BuffersValid, copies, send_response_to_client_lem, store_for_user_lem, to_client,
  to_store,
}
use epoll_chat.Auth.{find_user}
use epoll_chat.Server.Talk.{chat_text, send_message, is_recipient, broadcast, direct_reply}

module _ ⦃pb : Protobuf⦄ where
  -- What send_response_to_user does to the buffers.
  respond_lem :
      (w : World) (u : ℕ) (msg : ImResponse)
      → BuffersValid w
      → let w' = send_response_to_user w u msg in
        BuffersValid w'
        × ((d : ℕ)
            → queue w' d
              ≡ queue w d
                ++ (if is_user_logged_in w u && points_to (w.users u).client d
                    then ImResponse.to_bytes msg
                    else []))
        × (stored w' u
            ≡ stored w u ++ (if is_user_logged_in w u then [] else ImResponse.to_bytes msg))
  unfolding send_response_to_client store_for_user
  respond_lem w u msg b = elim (Bool-cases (is_user_logged_in w u)) [
    | inl e ↦
        let (c, at, same) = to_client w u msg e in
        let there = send_response_to_client_lem w c msg b in
        rw (same, e)
          (
            there.0,
            λ d.
                there.1 d
                ∙ ap (λ p. queue w d ++ (if points_to p d then ImResponse.to_bytes msg else []))
                    (sym at),
            sym (append-nil (stored w u)),
          )
    | inr e ↦
        let there = store_for_user_lem w u msg b in
        rw (to_store w u msg e, e) (there.0, (λ d. sym (append-nil (queue w d))), there.1)
  ]

  -- Over valid buffers, which it leaves valid, a message to a user who exists and has not blocked
  -- the sender is not answered; its text goes to the
  -- client of a recipient who is logged in, and to the recipient's own buffer otherwise, behind
  -- what waits there, and to no other client.
  pub direct_reply-delivered :
      (w : World) (me to : ℕ) (name msg : Text)
      → find_user w name ≡ some to
      → has_blocked_user w to me ≡ false
      → BuffersValid w
      → let r = direct_reply w me name msg in
        let s = ImResponse.to_bytes (chat_text w me msg) in
        (r.1 ≡ none)
        × BuffersValid r.0
        × ((d : ℕ)
            → queue r.0 d
              ≡ queue w d
                ++ (if is_user_logged_in w to && points_to (w.users to).client d then s else []))
        × (stored r.0 to ≡ stored w to ++ (if is_user_logged_in w to then [] else s))
  unfolding direct_reply send_message
  direct_reply-delivered w me to name msg e n b =
      let (valid, sent, kept) = respond_lem w to (chat_text w me msg) b in
      rw (e, direct_reply, n) (refl, valid, sent, kept)

  -- A recipient of a broadcast that gets it, and one that has blocked the sender.
  -- It is another user, and online.
  abbrev pub gets : World → ℕ → ℕ → Bool
  gets w from v = (not (v == from) && is_user_logged_in w v) && not (has_blocked_user w v from)

  abbrev pub any_refuses : World → ℕ → List ℕ → Bool
  any_refuses w from [] = false
  any_refuses w from (v ∷ vs) =
      ((not (v == from) && is_user_logged_in w v) && has_blocked_user w v from)
      || any_refuses w from vs

  -- One round of the broadcast loop.
  broadcast_step : World → ℕ → Text → ℕ → World × Bool
  broadcast_step w from msg v =
      if is_recipient w from v then send_message w v from msg else (w, true)

  recipient_online :
      (w : World) (from v : ℕ) → is_recipient w from v ≡ true → is_user_logged_in w v ≡ true
  unfolding is_recipient
  recipient_online w from v h = ground arith

  tests_same :
      (w : World) (from c : ℕ) (rsp : ImResponse) (msg : Text)
      → let w' = send_response_to_client w c rsp in
        ((d : ℕ) (s : Text) (vs : List ℕ)
          → copies (gets w' from) (λ v. (w'.users v).client) d s vs
            ≡ copies (gets w from) (λ v. (w.users v).client) d s vs)
        × ((vs : List ℕ) → any_refuses w' from vs ≡ any_refuses w from vs)
        × (chat_text w' from msg ≡ chat_text w from msg)
  unfolding send_response_to_client is_recipient is_user_logged_in has_blocked_user chat_text
  tests_same w from c rsp msg = ((λ d s vs. refl), (λ vs. refl), refl)

  -- It sends to one client at most, and leaves the tests of the later rounds as they were.
  broadcast_step_lem :
      (d : ℕ) (w : World) (from : ℕ) (msg : Text) (v : ℕ)
      → BuffersValid w
      → let w' = (broadcast_step w from msg v).0 in
        let s = ImResponse.to_bytes (chat_text w from msg) in
        BuffersValid w'
        × (queue w' d
            ≡ queue w d ++ (if gets w from v && points_to (w.users v).client d then s else []))
        × ((broadcast_step w from msg v).1
            ≡ not ((not (v == from) && is_user_logged_in w v) && has_blocked_user w v from))
        × ((vs : List ℕ)
            → copies (gets w' from) (λ x. (w'.users x).client) d s vs
              ≡ copies (gets w from) (λ x. (w.users x).client) d s vs)
        × ((vs : List ℕ) → any_refuses w' from vs ≡ any_refuses w from vs)
        × (chat_text w' from msg ≡ chat_text w from msg)
  unfolding broadcast_step send_message is_recipient
  broadcast_step_lem d w from msg v b =
      elim (Bool-cases (not (v == from) && is_user_logged_in w v)) [
        | inr e ↦ rw e (b, sym (append-nil (queue w d)), refl, (λ vs. refl), (λ vs. refl), refl)
        | inl e ↦ elim (Bool-cases (has_blocked_user w v from)) [
          | inl h ↦
              rw (e, h) (b, sym (append-nil (queue w d)), refl, (λ vs. refl), (λ vs. refl), refl)
          | inr h ↦
              let (c, at, same) =
                to_client w v (chat_text w from msg) (recipient_online w from v e) in
              let there = send_response_to_client_lem w c (chat_text w from msg) b in
              let tests = tests_same w from c (chat_text w from msg) msg in
              rw (e, h, same)
                (
                  there.0,
                  there.1 d
                      ∙ ap
                          (λ p.
                            queue w d
                            ++ (if points_to p d
                                then ImResponse.to_bytes (chat_text w from msg)
                                else []))
                          (sym at),
                  refl,
                  tests.0 d (ImResponse.to_bytes (chat_text w from msg)),
                  tests.1,
                  tests.2,
                )
        ]
      ]

  broadcast_at :
      (d : ℕ) (w : World) (from : ℕ) (msg : Text) (vs : List ℕ) (success : Bool)
      → BuffersValid w
      → let r = broadcast w from msg vs success in
        BuffersValid r.0
        × (queue r.0 d
            ≡ queue w d
              ++ copies
                  (gets w from)
                  (λ v. (w.users v).client)
                  d
                  (ImResponse.to_bytes (chat_text w from msg))
                  vs)
        × (r.1 ≡ (success && not (any_refuses w from vs)))
  unfolding broadcast broadcast_step
  broadcast_at d w from msg [] success b = (b, sym (append-nil (queue w d)), ground arith)
  broadcast_at d w from msg (v ∷ vs) success b =
      let (valid, text, flag, same, refuses, words) = broadcast_step_lem d w from msg v b in
      let w' = (broadcast_step w from msg v).0 in
      let s = ImResponse.to_bytes (chat_text w from msg) in
      let rest = broadcast_at d w' from msg vs (success && (broadcast_step w from msg v).1) valid in
      (
        rest.0,
        rest.1
            ∙ (ap
                  (λ t.
                    queue w' d
                    ++ copies (gets w' from) (λ x. (w'.users x).client) d (ImResponse.to_bytes t)
                        vs)
                  words
                ∙ (ap (◌++◌ (queue w' d)) (same vs)
                    ∙ (ap (λ t. t ++ copies (gets w from) (λ x. (w.users x).client) d s vs) text
                        ∙ append_assoc (queue w d) _ _))),
        rest.2 ∙ ground (arith, flag, refuses vs),
      )

  -- Over valid buffers, which it leaves valid, a broadcast gives each client one copy for each user of the database who is online there, is
  -- not the sender, and has not blocked the sender, and sends nothing else to a client; it reports
  -- success exactly if no such user who is online has blocked the sender.
  pub broadcast_lem :
      (w : World) (from : ℕ) (msg : Text)
      → BuffersValid w
      → let r = broadcast w from msg w.db.first true in
        BuffersValid r.0
        × ((d : ℕ)
            → queue r.0 d
              ≡ queue w d
                ++ copies
                    (gets w from)
                    (λ v. (w.users v).client)
                    d
                    (ImResponse.to_bytes (chat_text w from msg))
                    w.db.first)
        × (r.1 ≡ not (any_refuses w from w.db.first))
  broadcast_lem w from msg b =
      let at = λ (d : ℕ). broadcast_at d w from msg w.db.first true b in
      ((at 0).0, (λ d. (at d).1), (at 0).2)

-- ===== src/Delivery/Queues.antt =====
-- What the sends of lib/socket.c put into the buffers, and whom the notices of login and logout
-- reach.
use epoll_chat.Common.{
  ℕ, ◌≡◌, refl, sym, ap, subst, ◌∙◌, inl, inr, Bool, true, false, not, ◌&&◌, List, [], ◌∷◌, ◌++◌,
  Text, Option, some, if◌then◌else◌, arith, Bool-cases, Option-cases, ◌==◌, ==_refl, ==_iff,
  ==_true_sym, ==_false_sym, points_to, append-nil, append_assoc,
}
use epoll_chat.Protobuf.{Protobuf}
use epoll_chat.Proto.ImResponse.{ImResponse}
use epoll_chat.Proto.ImResponse
use epoll_chat.Buffer.{Buffer, contents, append_bytes}
use epoll_chat.Buffer.Queue.{IsValid, append_bytes_lem}
use epoll_chat.World.{World}
use epoll_chat.Delivery.{
  is_user_logged_in, has_blocked_user, send_response_to_client, store_for_user,
  send_response_to_user, wants_notice, notify_all,
}

-- The bytes that wait for a client, and those that wait for a user.
abbrev pub queue : World → ℕ → Text
queue w c = contents (w.clients c).outbuffer

abbrev pub stored : World → ℕ → Text
stored w u = contents (w.users u).buffer

-- Every output buffer is valid.
pub record BuffersValid (w : World) : Type 0 where
  pub out : (c : ℕ) → IsValid (w.clients c).outbuffer
  pub store : (u : ℕ) → IsValid (w.users u).buffer

-- `s` once for each `v` of the list that passes the test and stands at client `d`.
abbrev pub copies : (ℕ → Bool) → (ℕ → Option ℕ) → ℕ → Text → List ℕ → Text
copies p client d s [] = []
copies p client d s (v ∷ vs) =
    (if p v && points_to (client v) d then s else []) ++ copies p client d s vs

module _ ⦃pb : Protobuf⦄ where
  pub send_response_to_client_lem :
      (w : World) (c : ℕ) (msg : ImResponse)
      → BuffersValid w
      → BuffersValid (send_response_to_client w c msg)
        × ((d : ℕ)
            → queue (send_response_to_client w c msg) d
              ≡ queue w d ++ (if c == d then ImResponse.to_bytes msg else []))
  unfolding send_response_to_client
  send_response_to_client_lem w c msg v = (
    record {
      out =
          λ d. out d (append_bytes_lem (w.clients c).outbuffer (ImResponse.to_bytes msg) (v.out c));
      store = v.store;
    },
    λ d. text d (append_bytes_lem (w.clients c).outbuffer (ImResponse.to_bytes msg) (v.out c)),
  )
    where
      b : Buffer
      b = append_bytes (w.clients c).outbuffer (ImResponse.to_bytes msg)

      out :
          (d : ℕ)
          → IsValid b × (contents b ≡ queue w c ++ ImResponse.to_bytes msg)
          → IsValid ((send_response_to_client w c msg).clients d).outbuffer
      out d h = elim (Bool-cases (d == c)) [ inl e ↦ rw e h.0 | inr e ↦ rw e (v.out d) ]

      text :
          (d : ℕ)
          → IsValid b × (contents b ≡ queue w c ++ ImResponse.to_bytes msg)
          → queue (send_response_to_client w c msg) d
            ≡ queue w d ++ (if c == d then ImResponse.to_bytes msg else [])
      text d h = elim (Bool-cases (d == c)) [
        | inl e ↦ rw (e, ==_true_sym d c e, (==_iff d c).0 e) h.1
        | inr e ↦ rw (e, ==_false_sym d c e) (sym (append-nil (queue w d)))
      ]

  pub store_for_user_lem :
      (w : World) (u : ℕ) (msg : ImResponse)
      → BuffersValid w
      → BuffersValid (store_for_user w u msg)
        × (stored (store_for_user w u msg) u ≡ stored w u ++ ImResponse.to_bytes msg)
  unfolding store_for_user
  store_for_user_lem w u msg v = (
    record {
      out = v.out;
      store = λ x. elim (Bool-cases (x == u)) [
        | inl e ↦ rw e (append_bytes_lem (w.users u).buffer (ImResponse.to_bytes msg) (v.store u)).0
        | inr e ↦ rw e (v.store x)
      ];
    },
    rw (==_refl u) (append_bytes_lem (w.users u).buffer (ImResponse.to_bytes msg) (v.store u)).1,
  )

  -- A user that is logged in has a client, and gets its responses there.
  pub to_client :
      (w : World) (u : ℕ) (msg : ImResponse)
      → is_user_logged_in w u ≡ true
      → (c : ℕ) × ((w.users u).client ≡ some c)
        × (send_response_to_user w u msg ≡ send_response_to_client w c msg)
  unfolding is_user_logged_in send_response_to_user
  to_client w u msg h = elim (Option-cases (w.users u).client) [
    | inl e ↦ absurd (ground (arith, e))
    | inr (c, e) ↦ (c, e, rw (e, send_response_to_user) (rw h))
  ]

  -- Any other gets them in its own buffer.
  pub to_store :
      (w : World) (u : ℕ) (msg : ImResponse)
      → is_user_logged_in w u ≡ false
      → send_response_to_user w u msg ≡ store_for_user w u msg
  unfolding send_response_to_user
  to_store w u msg h = ground arith

  copies_same :
      (w : World) (user c d : ℕ) (rsp : ImResponse) (s : Text) (vs : List ℕ)
      → copies
          (wants_notice (send_response_to_client w c rsp) user)
          (λ v. ((send_response_to_client w c rsp).users v).client)
          d
          s
          vs
        ≡ copies (wants_notice w user) (λ v. (w.users v).client) d s vs
  unfolding send_response_to_client wants_notice is_user_logged_in has_blocked_user
  copies_same w user c d rsp s vs = refl

  wanted_online :
      (w : World) (user v : ℕ) → wants_notice w user v ≡ true → is_user_logged_in w v ≡ true
  unfolding wants_notice
  wanted_online w user v h = ground arith

  -- One round of the loop of notices.
  notice_step : World → ℕ → ImResponse → ℕ → World
  notice_step w user rsp v = if wants_notice w user v then send_response_to_user w v rsp else w

  -- It sends to one client at most, and leaves the tests of the later rounds as they were.
  notice_step_lem :
      (d : ℕ) (w : World) (user : ℕ) (rsp : ImResponse) (v : ℕ)
      → BuffersValid w
      → BuffersValid (notice_step w user rsp v)
        × (queue (notice_step w user rsp v) d
            ≡ queue w d
              ++ (if wants_notice w user v && points_to (w.users v).client d
                  then ImResponse.to_bytes rsp
                  else []))
        × ((vs : List ℕ)
            → copies
                (wants_notice (notice_step w user rsp v) user)
                (λ x. ((notice_step w user rsp v).users x).client)
                d
                (ImResponse.to_bytes rsp)
                vs
              ≡ copies
                  (wants_notice w user)
                  (λ x. (w.users x).client)
                  d
                  (ImResponse.to_bytes rsp)
                  vs)
  unfolding notice_step
  notice_step_lem d w user rsp v b = go (wants_notice w user v) refl
    where
      Goal : World → Bool → Type 0
      Goal w' wanted =
          BuffersValid w'
          × (queue w' d
              ≡ queue w d
                ++ (if wanted && points_to (w.users v).client d
                    then ImResponse.to_bytes rsp
                    else []))
          × ((vs : List ℕ)
              → copies (wants_notice w' user) (λ x. (w'.users x).client) d (ImResponse.to_bytes rsp)
                  vs
                ≡ copies (wants_notice w user) (λ x. (w.users x).client) d (ImResponse.to_bytes rsp)
                    vs)

      go :
          (wanted : Bool)
          → wants_notice w user v ≡ wanted
          → Goal (if wanted then send_response_to_user w v rsp else w) wanted
      go false e = (b, sym (append-nil (queue w d)), λ vs. refl)
      go true e =
          let (c, at, same) = to_client w v rsp (wanted_online w user v e) in
          let there = send_response_to_client_lem w c rsp b in
          subst (λ x. Goal x true) (sym same)
            (
              there.0,
              there.1 d
                  ∙ ap (λ p. queue w d ++ (if points_to p d then ImResponse.to_bytes rsp else []))
                      (sym at),
              copies_same w user c d rsp (ImResponse.to_bytes rsp),
            )

  notify_all_at :
      (d : ℕ) (w : World) (user : ℕ) (rsp : ImResponse) (vs : List ℕ)
      → BuffersValid w
      → BuffersValid (notify_all w user rsp vs)
        × (queue (notify_all w user rsp vs) d
            ≡ queue w d
              ++ copies
                  (wants_notice w user)
                  (λ v. (w.users v).client)
                  d
                  (ImResponse.to_bytes rsp)
                  vs)
  unfolding notify_all notice_step
  notify_all_at d w user rsp [] b = (b, sym (append-nil (queue w d)))
  notify_all_at d w user rsp (v ∷ vs) b =
      let one = notice_step_lem d w user rsp v b in
      let rest = notify_all_at d (notice_step w user rsp v) user rsp vs one.0 in
      (
        rest.0,
        rest.1
            ∙ (ap (◌++◌ (queue (notice_step w user rsp v) d)) (one.2 vs)
                ∙ (ap
                      (λ t.
                        t
                        ++ copies (wants_notice w user) (λ x. (w.users x).client) d
                            (ImResponse.to_bytes rsp) vs)
                      one.1
                    ∙ append_assoc (queue w d) _ _)),
      )

  -- Who is to get the notice of a login or a logout of `user`.
  abbrev pub is_told : World → ℕ → ℕ → Bool
  is_told w user v = not (v == user) && (is_user_logged_in w v && not (has_blocked_user w user v))

  -- The notice of a login or a logout, over valid buffers, which it leaves valid: each client gets
  -- one copy for each user of the list that is online there, is another user, and is not blocked
  -- by the user; no other bytes go to a client.
  pub notify_all_lem :
      (w : World) (user : ℕ) (rsp : ImResponse) (vs : List ℕ)
      → BuffersValid w
      → BuffersValid (notify_all w user rsp vs)
        × ((d : ℕ)
            → queue (notify_all w user rsp vs) d
              ≡ queue w d
                ++ copies (is_told w user) (λ v. (w.users v).client) d (ImResponse.to_bytes rsp) vs)
  unfolding wants_notice
  notify_all_lem w user rsp vs b =
      ((notify_all_at 0 w user rsp vs b).0, λ d. (notify_all_at d w user rsp vs b).1)

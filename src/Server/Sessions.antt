-- ===== src/Server/Sessions.antt =====
-- Logins and the sweep over linked users and clients.
use epoll_chat.Common.{
  ℕ, ◌≡◌, refl, sym, subst, ◌∙◌, inl, inr, Bool, true, false, not, List, [], ◌∷◌, Option, none,
  some, if◌then◌else◌, arith, Bool-cases, ◌==◌, ==_iff, contains,
}
use epoll_chat.Protobuf.{Protobuf}
use epoll_chat.Proto.ImResponse.{ImResponse}
use epoll_chat.World.{World}
use epoll_chat.Delivery.{is_user_logged_in, send_response_to_client, encode_exit_text}
use epoll_chat.Auth.{logout_user, unlink}
use epoll_chat.Server.Loop.{sweep, time_thread, logged_off_text}
use epoll_chat.Server.Links.{
  Linked, SameLinks, SameLinks-trans, SameLinks-Linked, SameLinks-online, send-SameLinks,
  logout_user-SameLinks, unlink-Linked,
}

-- The client's user, if it has one, is logged in.
abbrev pub IsQuiet : World → ℕ → Type 0
IsQuiet w c = (u : ℕ) → (w.clients c).user ≡ some u → is_user_logged_in w u ≡ true

SameLinks-IsQuiet : {w w' : World} (c : ℕ) → SameLinks w w' → IsQuiet w c → IsQuiet w' c
SameLinks-IsQuiet c s q u e = SameLinks-online s u ∙ q u (sym (s.clients c) ∙ e)

module _ ⦃pb : Protobuf⦄ where
  unlink-IsQuiet :
      (w : World) (u c d : ℕ)
      → (w.users u).client ≡ some c
      → Linked w
      → IsQuiet w d
      → IsQuiet (unlink w u c) d
  unfolding unlink is_user_logged_in
  unlink-IsQuiet w u c d e l q v h = ground (arith, l.to_client v d, l.to_client u d, q v)

  slots-unlink : (w : World) (u c : ℕ) → (unlink w u c).slots ≡ w.slots
  unfolding unlink
  slots-unlink w u c = refl

  unlink-IsQuiet_self : (w : World) (u c : ℕ) → IsQuiet (unlink w u c) c
  unfolding unlink
  unlink-IsQuiet_self w u c v h = absurd (ground arith)

  -- One client of the loop in time_thread.
  sweep_client : World → ℕ → World
  sweep_client w c = elim (w.clients c).user [
    | none ↦ w
    | some u ↦
        if not (is_user_logged_in w u)
        then send_response_to_client (logout_user w (some u)) c
            (encode_exit_text logged_off_text false)
        else w
  ]

  -- What one client of the loop leaves behind.
  Swept : World → ℕ → World → Type 0
  Swept w c w' =
      Linked w' × ((d : ℕ) → IsQuiet w d → IsQuiet w' d) × IsQuiet w' c × (w'.slots ≡ w.slots)

  logged_off-Swept :
      (w : World) (c u : ℕ) (msg : ImResponse)
      → (w.users u).client ≡ some c
      → Linked w
      → Swept w c (send_response_to_client (logout_user w (some u)) c msg)
  unfolding Swept
  logged_off-Swept w c u msg e l =
      let s : SameLinks (unlink w u c) (send_response_to_client (logout_user w (some u)) c msg) =
        SameLinks-trans (logout_user-SameLinks w u c e)
          (send-SameLinks (logout_user w (some u)) c msg) in
      (
        SameLinks-Linked s (unlink-Linked w u c e l),
        λ d q. SameLinks-IsQuiet d s (unlink-IsQuiet w u c d e l q),
        SameLinks-IsQuiet c s (unlink-IsQuiet_self w u c),
        s.slots ∙ slots-unlink w u c,
      )

  sweep_client-Swept : (w : World) (c : ℕ) → Linked w → Swept w c (sweep_client w c)
  unfolding sweep_client Swept
  sweep_client-Swept w c l = go (w.clients c).user refl
    where
      check :
          (u : ℕ) (b : Bool)
          → (w.clients c).user ≡ some u
          → is_user_logged_in w u ≡ b
          → Swept w c (
              if not b
              then send_response_to_client
                  (logout_user w (some u))
                  c
                  (encode_exit_text logged_off_text false)
              else w)
      check u false e h = logged_off-Swept w c u _ (l.to_client u c e) l
      check u true e h = (l, (λ d q. q), (λ v k. ground (arith, e, h)), refl)

      go :
          (p : Option ℕ)
          → (w.clients c).user ≡ p
          → Swept w c (elim p [
            | none ↦ w
            | some u ↦
                if not (is_user_logged_in w u)
                then send_response_to_client
                    (logout_user w (some u))
                    c
                    (encode_exit_text logged_off_text false)
                else w
          ])
      go none e = (l, (λ d q. q), (λ v k. ground (arith, e)), refl)
      go (some u) e = check u (is_user_logged_in w u) e refl

  sweep-Swept :
      (w : World) (cs : List ℕ)
      → Linked w
      → Linked (sweep w cs)
        × ((d : ℕ) → IsQuiet w d → IsQuiet (sweep w cs) d)
        × ((c : ℕ) → contains cs c ≡ true → IsQuiet (sweep w cs) c)
        × ((sweep w cs).slots ≡ w.slots)
  unfolding sweep sweep_client Swept
  sweep-Swept w [] l = (l, (λ d q. q), (λ c h. ground arith), refl)
  sweep-Swept w (x ∷ xs) l =
      let (l', keep, quiet, same) = sweep_client-Swept w x l in
      let (l'', keep', quiet', same') = sweep-Swept (sweep_client w x) xs l' in
      (
        l'',
        λ d q. keep' d (keep d q),
        λ c h. elim (Bool-cases (x == c)) [
          | inl e ↦ subst (IsQuiet (sweep w (x ∷ xs))) ((==_iff x c).0 e) (keep' x quiet)
          | inr e ↦ quiet' c (rw e at h)
        ],
        same' ∙ same,
      )

  -- With users and clients linked in pairs, after a round of time_thread no client in the table
  -- has a user whose session has run out, and users and clients are still linked in pairs.
  pub time_thread_lem :
      (w : World)
      → Linked w
      → Linked (time_thread w)
        × ((c u : ℕ)
            → contains (time_thread w).slots c ≡ true
            → ((time_thread w).clients c).user ≡ some u
            → is_user_logged_in (time_thread w) u ≡ true)
  unfolding time_thread
  time_thread_lem w l =
      let (l', keep, quiet, same) = sweep-Swept w w.slots l in
      (l', λ c u h e. quiet c (rw same at h) u e)

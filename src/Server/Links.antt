-- ===== src/Server/Links.antt =====
-- The links between users and clients: what login, logout and the sweep do to them.
use epoll_chat.Common.{
  ℕ, ◌≡◌, refl, sym, subst, ◌∙◌, inl, inr, Bool, true, false, not, List, [], ◌∷◌, Option, none,
  some, if◌then◌else◌, arith, Bool-cases, Option-cases, codes, ◌++◌, ◌+◌, ◌==◌,
}
use epoll_chat.Protobuf.{Protobuf}
use epoll_chat.Proto.ImResponse.{ImResponse}
use epoll_chat.World.{World, User, put_user}
use epoll_chat.Delivery.{
  is_user_logged_in, send_response_to_client, store_for_user, send_response_to_user, notify_all,
  wants_notice, encode_text,
}
use epoll_chat.Auth.{fail_password, unlink, logout_user}
use epoll_chat.Server.Accounts.{link}

-- A client and its user point at each other.
pub record Linked (w : World) : Type 0 where
  pub to_user : (u c : ℕ) → (w.users u).client ≡ some c → (w.clients c).user ≡ some u
  pub to_client : (u c : ℕ) → (w.clients c).user ≡ some u → (w.users u).client ≡ some c

-- The pointers of two worlds are the same.
pub record SameLinks (w w' : World) : Type 0 where
  pub users : (u : ℕ) → (w'.users u).client ≡ (w.users u).client
  pub clients : (c : ℕ) → (w'.clients c).user ≡ (w.clients c).user
  pub active : (u : ℕ) → (w'.users u).last_active ≡ (w.users u).last_active
  pub timeout : w'.db.login_timeout ≡ w.db.login_timeout
  pub time : w'.now ≡ w.now
  pub slots : w'.slots ≡ w.slots

pub SameLinks-refl : (w : World) → SameLinks w w
SameLinks-refl w = record {
  users = λ u. refl;
  clients = λ c. refl;
  active = λ u. refl;
  timeout = refl;
  time = refl;
  slots = refl;
}

pub SameLinks-trans : {v w x : World} → SameLinks v w → SameLinks w x → SameLinks v x
SameLinks-trans a b = record {
  users = λ u. b.users u ∙ a.users u;
  clients = λ c. b.clients c ∙ a.clients c;
  active = λ u. b.active u ∙ a.active u;
  timeout = b.timeout ∙ a.timeout;
  time = b.time ∙ a.time;
  slots = b.slots ∙ a.slots;
}

pub SameLinks-Linked : {w w' : World} → SameLinks w w' → Linked w → Linked w'
SameLinks-Linked s l = record {
  to_user = λ u c e. s.clients c ∙ l.to_user u c (sym (s.users u) ∙ e);
  to_client = λ u c e. s.users u ∙ l.to_client u c (sym (s.clients c) ∙ e);
}

pub SameLinks-online :
    {w w' : World} → SameLinks w w' → (u : ℕ) → is_user_logged_in w' u ≡ is_user_logged_in w u
unfolding is_user_logged_in
SameLinks-online s u = rw (s.users u, s.active u, s.timeout, s.time)

module _ ⦃pb : Protobuf⦄ where
  pub send-SameLinks :
      (w : World) (c : ℕ) (msg : ImResponse) → SameLinks w (send_response_to_client w c msg)
  unfolding send_response_to_client
  send-SameLinks w c msg = record {
    users = λ u. refl;
    clients = λ d. ground arith;
    active = λ u. refl;
    timeout = refl;
    time = refl;
    slots = refl;
  }

  pub store-SameLinks :
      (w : World) (u : ℕ) (msg : ImResponse) → SameLinks w (store_for_user w u msg)
  unfolding store_for_user
  store-SameLinks w u msg = record {
    users = λ v. ground arith;
    clients = λ d. refl;
    active = λ v. ground arith;
    timeout = refl;
    time = refl;
    slots = refl;
  }

  pub respond_user-SameLinks :
      (w : World) (u : ℕ) (msg : ImResponse) → SameLinks w (send_response_to_user w u msg)
  unfolding send_response_to_user
  respond_user-SameLinks w u msg = elim (Option-cases (w.users u).client) [
    | inl e ↦ rw (e, send_response_to_user) (store-SameLinks w u msg)
    | inr (c, e) ↦
        rw (e, send_response_to_user)
          (elim (Bool-cases (is_user_logged_in w u)) [
            | inl t ↦ rw t (send-SameLinks w c msg)
            | inr t ↦ rw t (store-SameLinks w u msg)
          ])
  ]

  pub notify_all-SameLinks :
      (w : World) (user : ℕ) (rsp : ImResponse) (vs : List ℕ)
      → SameLinks w (notify_all w user rsp vs)
  unfolding notify_all
  notify_all-SameLinks w user rsp [] = SameLinks-refl w
  notify_all-SameLinks w user rsp (v ∷ vs) = elim (Bool-cases (wants_notice w user v)) [
    | inl e ↦ rw e (
        SameLinks-trans (respond_user-SameLinks w v rsp)
          (notify_all-SameLinks (send_response_to_user w v rsp) user rsp vs))
    | inr e ↦ rw e (notify_all-SameLinks w user rsp vs)
  ]

  -- link keeps the links in pairs where neither side was linked.
  pub link-Linked :
      (w : World) (c u port : ℕ)
      → (w.clients c).user ≡ none
      → (w.users u).client ≡ none
      → Linked w
      → Linked (link w c u port)
  unfolding link
  link-Linked w c u port e k l = record {
    to_user = λ v d h. ground (arith, l.to_user v d, l.to_user u d);
    to_client = λ v d h. ground (arith, l.to_client v d, l.to_client v c);
  }

  -- unlink keeps them in pairs too.
  pub unlink-Linked :
      (w : World) (u c : ℕ) → (w.users u).client ≡ some c → Linked w → Linked (unlink w u c)
  unfolding unlink
  unlink-Linked w u c e l = record {
    to_user = λ v d h. ground (arith, l.to_user v d, l.to_user u c);
    to_client = λ v d h. ground (arith, l.to_client v d, l.to_user u c);
  }

  -- Apart from its notices logoutUser is unlink.
  pub logout_user-SameLinks :
      (w : World) (u c : ℕ)
      → (w.users u).client ≡ some c
      → SameLinks (unlink w u c) (logout_user w (some u))
  unfolding logout_user
  logout_user-SameLinks w u c e =
      subst
        (λ p. SameLinks (unlink w u c) (elim p [
          | none ↦ w
          | some d ↦
              if not w.is_server
              then unlink w u d
              else notify_all (unlink w u d) u
                  (encode_text ((w.users u).username ++ codes " has logged out") true) w.db.first
        ]))
        (sym e) (served (not w.is_server))
    where
      served :
          (b : Bool)
          → SameLinks (unlink w u c) (
              if b
              then unlink w u c
              else notify_all
                  (unlink w u c)
                  u
                  (encode_text ((w.users u).username ++ codes " has logged out") true)
                  w.db.first)
      served true = SameLinks-refl (unlink w u c)
      served false = notify_all-SameLinks (unlink w u c) u _ w.db.first

  -- logoutUser keeps users and clients linked in pairs, whatever the user is.
  pub logout_user-Linked : (w : World) (p : Option ℕ) → Linked w → Linked (logout_user w p)
  unfolding logout_user
  logout_user-Linked w none l = l
  logout_user-Linked w (some u) l = elim (Option-cases (w.users u).client) [
    | inl e ↦ rw (e, logout_user) l
    | inr (c, e) ↦ SameLinks-Linked (logout_user-SameLinks w u c e) (unlink-Linked w u c e l)
  ]

  pub fail_password-SameLinks : (w : World) (u : ℕ) → SameLinks w (fail_password w u).0
  unfolding fail_password
  fail_password-SameLinks w u = elim (Bool-cases ((w.users u).attempts + 1 == 3)) [
    | inl e ↦ rw e (same _ refl refl)
    | inr e ↦ rw e (same _ refl refl)
  ]
    where
      same :
          (x : User)
          → x.client ≡ (w.users u).client
          → x.last_active ≡ (w.users u).last_active
          → SameLinks w (put_user w u x)
      same x e a = record {
        users = λ v. ground arith;
        clients = λ d. refl;
        active = λ v. ground arith;
        timeout = refl;
        time = refl;
        slots = refl;
      }

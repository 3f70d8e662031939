-- ===== src/ClientApp/Console/Sound.antt =====
-- The lines that are typed, and the login loop, on a sound state of the client program.
use epoll_chat.Common.{
  ℕ, ◌≡◌, refl, sym, subst, inl, inr, false, Text, Option, none, some, if-keeps, Option-cases,
  length, codes, drop, update, ltb,
}
use epoll_chat.Protobuf.{Protobuf, ◌>>=◌, c_string}
use epoll_chat.Proto.ImRequest.{ImRequest}
use epoll_chat.Libc.{fgets, chop, scan_word_u32}
use epoll_chat.Files.Values.{pack_repeated_uint32_from_str}
use epoll_chat.Server.Changes.{send-Change}
use epoll_chat.ClientApp.{App, prints}
use epoll_chat.ClientApp.Commands.{
  ask, login_name, login_size_limit, split_at_space, cmd_login_impl, cmd_message_impl,
  cmd_searchchunk_impl,
}
use epoll_chat.ClientApp.Private.{
  find_peer, starts_with, private_text, private_download, chunk_request, cmd_private_impl,
  cmd_stopprivate_impl, bufsiz,
}
use epoll_chat.ClientApp.Network.Sound.{Good, Change-Good}
use epoll_chat.ClientApp.Network.Events.{close_peer-Good}

-- What a command leaves, if it ends: a state, and another thing.
abbrev pub GoodOut {ℓ} : {A : Type ℓ} → Option (App × A) → Type 0
GoodOut none = Unit {0}
GoodOut (some r) = Good r.0.world

-- A step that leaves the world as it was.
abbrev pub SameOut {ℓ} : {A : Type ℓ} → App → Option (A × App) → Type 0
SameOut a none = Unit {0}
SameOut a (some r) = r.1.world ≡ a.world

pub bind-GoodOut {ℓ ℓ'} :
    {A : Type ℓ} {B : Type ℓ'} (o : Option A) (f : A → Option (App × B))
    → ((x : A) → GoodOut (f x))
    → GoodOut (o >>= f)
bind-GoodOut none f h = tt
bind-GoodOut (some x) f h = h x

-- A dialogue, and a command behind it.
pub then-GoodOut {ℓ ℓ'} :
    {A : Type ℓ} {B : Type ℓ'} (a : App) (o : Option (A × App)) (f : A × App → Option (App × B))
    → Good a.world
    → SameOut a o
    → ((x : A × App) → Good x.1.world → GoodOut (f x))
    → GoodOut (o >>= f)
then-GoodOut a none f g e h = tt
then-GoodOut a (some x) f g e h = h x (subst Good (sym e) g)

ask-SameOut : (size : ℕ) (a : App) → SameOut a (ask size a)
unfolding ask
ask-SameOut size a = elim (Option-cases (fgets size a.stdin)) [
  | inl e ↦ rw e tt
  | inr (r, e) ↦ elim (Option-cases (chop (c_string r.0))) [
    | inl k ↦ rw (e, k) tt
    | inr (s, k) ↦ rw (e, k) refl
  ]
]

login_name-SameOut : (a : App) → SameOut a (login_name a)
unfolding login_name
login_name-SameOut a = name_lem a.logged_in_user_name
  where
    name_lem :
        (o : Option Text)
        → SameOut a (elim o as (λ x. Option (Text × App)) [
          | none ↦ ask login_size_limit (prints a (codes "Username: "))
          | some name ↦ some (name, a)
        ])
    name_lem none = ask-SameOut login_size_limit (prints a (codes "Username: "))
    name_lem (some name) = refl

module _ ⦃pb : Protobuf⦄ where
  pub login-GoodOut : (a : App) (req : Text) → Good a.world → GoodOut (cmd_login_impl a req)
  unfolding cmd_login_impl
  login-GoodOut a req g = then-GoodOut a (login_name a) _ g (login_name-SameOut a) λ r h.
      then-GoodOut r.1 (ask login_size_limit (prints r.1 (codes "Password: "))) _ h
        (ask-SameOut login_size_limit (prints r.1 (codes "Password: "))) λ q k. k

  pub message-GoodOut : (a : App) (req : Text) → Good a.world → GoodOut (cmd_message_impl a req)
  unfolding cmd_message_impl
  message-GoodOut a req g = elim (Option-cases (split_at_space (drop 8 req))) [
    | inl e ↦ rw (e, cmd_message_impl) g
    | inr (r, e) ↦ rw (e, cmd_message_impl) g
  ]

  pub searchchunk-GoodOut :
      (a : App) (req : Text) → Good a.world → GoodOut (cmd_searchchunk_impl a req)
  unfolding cmd_searchchunk_impl
  searchchunk-GoodOut a req g = elim (Option-cases (split_at_space (drop 12 req))) [
    | inl e ↦ rw (e, cmd_searchchunk_impl) g
    | inr (r, e) ↦ elim (Option-cases (pack_repeated_uint32_from_str r.1)) [
      | inl k ↦ rw (e, cmd_searchchunk_impl, k) g
      | inr (q, k) ↦ rw (e, cmd_searchchunk_impl, k) g
    ]
  ]

  download-GoodOut :
      (a : App) (c : ℕ) (msg : Text) → Good a.world → GoodOut (private_download a c msg)
  unfolding private_download
  download-GoodOut a c msg g = elim (Option-cases (scan_word_u32 msg)) [
    | inl e ↦ rw (e, private_download) g
    | inr ((name, n), e) ↦
        rw (e, private_download)
          (if-keeps (GoodOut {A = Option ImRequest}) (ltb (length name) bufsiz) _ _
            (Change-Good (send-Change a.world c (chunk_request name n)) g) tt)
  ]

  pub private-GoodOut : (a : App) (req : Text) → Good a.world → GoodOut (cmd_private_impl a req)
  unfolding cmd_private_impl
  private-GoodOut a req g = elim (Option-cases (split_at_space (drop 8 req))) [
    | inl e ↦ rw (e, cmd_private_impl) g
    | inr ((name, msg), e) ↦ elim (Option-cases (find_peer a.world name)) [
      | inl k ↦ rw (e, cmd_private_impl, k) g
      | inr ((u, c), k) ↦
          rw (e, cmd_private_impl, k)
            (if-keeps (GoodOut {A = Option ImRequest}) (starts_with (codes "download ") msg) _ _
              (download-GoodOut a c (drop 9 msg) g)
              (Change-Good (send-Change a.world c (private_text a msg)) g))
    ]
  ]

  pub stopprivate-GoodOut :
      (a : App) (req : Text) → Good a.world → GoodOut (cmd_stopprivate_impl a req)
  unfolding cmd_stopprivate_impl
  stopprivate-GoodOut a req g = elim (Option-cases (find_peer a.world (drop 12 req))) [
    | inl e ↦ rw (e, cmd_stopprivate_impl) g
    | inr ((u, c), e) ↦
        rw (e, cmd_stopprivate_impl)
          (close_peer-Good (record a { close_prehooks = update a.close_prehooks c false }) c g)
  ]

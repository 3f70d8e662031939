-- ===== src/ClientApp/Network/Keeps.antt =====
-- The input buffer of a connection under the responses that come from it.
use epoll_chat.Common.{
  ℕ, ◌<◌, ◌≤◌, ◌≡◌, refl, sym, subst, ◌∙◌, inl, inr, true, List, [], ◌∷◌, ◌++◌, Text, Option, none,
  some, if-keeps, ◌==◌, ltb, arith, Bool-cases, Option-cases, length, codes,
}
use epoll_chat.Protobuf.{Protobuf, ◌>>=◌, c_string}
use epoll_chat.Proto.ImResponse.{ImResponse}
use epoll_chat.Proto.TextResponse
use epoll_chat.Proto.ExitResponse
use epoll_chat.Proto.GetIpResponse
use epoll_chat.Proto.GetIpResponse.{GetIpResponse}
use epoll_chat.Proto.PrivateRegistrationResponse
use epoll_chat.Proto.PrivateRegistrationResponse.{PrivateRegistrationResponse}
use epoll_chat.Proto.ChunkDataRequest
use epoll_chat.Proto.ChunkDataResponse
use epoll_chat.Proto.ChunkDataResponse.{ChunkDataResponse}
use epoll_chat.World.{World, Address}
use epoll_chat.Delivery.{send_response_to_client}
use epoll_chat.Auth.{find_user, find_or_add_user}
use epoll_chat.Server.Connection.{accept_client, pick_client, max_clients}
use epoll_chat.ClientApp.{App, Os, chunk_path, file_dir, with_world, prints}
use epoll_chat.ClientApp.Session.{accept_peer}
use epoll_chat.ClientApp.Peers.{
  handle_response, parse_sockaddr, private_registration, link_peer, dial, start_session_with,
  registered_by, write_file, store_chunk, ensure_dir, get_chunk_data_response,
}

-- The input buffer of a client is the same in two worlds, and no client has gone.
abbrev pub KeptBy : ℕ → World → World → Type 0
KeptBy c w w' =
    ((w'.clients c).inbuffer ≡ (w.clients c).inbuffer) × (w.client_count ≤ w'.client_count)

KeptBy-refl : (c : ℕ) (w : World) → KeptBy c w w
KeptBy-refl c w = (refl, omega arith)

KeptBy-trans : (c : ℕ) (v w x : World) → KeptBy c w x → KeptBy c v w → KeptBy c v x
KeptBy-trans c v w x (h, k) (i, j) = (h ∙ i, omega arith)

-- And so in a result, if there is one.
abbrev pub Kept : ℕ → World → Option App → Type 0
Kept c w none = Unit {0}
Kept c w (some a) = KeptBy c w a.world

bind-Kept {ℓ} :
    {A : Type ℓ} (c : ℕ) (w : World) (o : Option A) (f : A → Option App)
    → ((x : A) → Kept c w (f x))
    → Kept c w (o >>= f)
bind-Kept c w none f h = tt
bind-Kept c w (some x) f h = h x

find_or_add_user-KeptBy : (c : ℕ) (w : World) (name : Text) → KeptBy c w (find_or_add_user w name).0
unfolding find_or_add_user epoll_chat.Auth.add_user
find_or_add_user-KeptBy c w name = elim (Option-cases (find_user w name)) [
  | inl e ↦ rw (e, find_or_add_user) (KeptBy-refl c w)
  | inr (u, e) ↦ rw (e, find_or_add_user) (KeptBy-refl c w)
]

link_peer-KeptBy : (a : App) (u c d : ℕ) → KeptBy c a.world (link_peer a u d).world
unfolding link_peer
link_peer-KeptBy a u c d = (ground arith, omega arith)

abbrev pub NewKept : ℕ → World → Option World → Type 0
NewKept c w none = Unit {0}
NewKept c w (some w') = KeptBy c w w'

pub accept_client-NewKept :
    (c : ℕ) (w : World) (fd : ℕ) (addr : Address)
    → c < w.client_count
    → NewKept c w (accept_client w fd addr)
unfolding accept_client epoll_chat.Server.Connection.im_connection_accept
accept_client-NewKept c w fd addr h = elim (Option-cases (pick_client w fd)) [
  | inr (i, p) ↦ rw (p, accept_client) (ground arith, omega arith)
  | inl p ↦ elim (Bool-cases (ltb (length w.slots) max_clients)) [
    | inl t ↦ rw (p, accept_client, t) (ground arith, omega arith)
    | inr t ↦ rw (p, accept_client, t) tt
  ]
]

accept_peer-Kept :
    (a : App) (c fd : ℕ) (addr : Address)
    → c < a.world.client_count
    → Kept c a.world (accept_peer a fd addr)
unfolding accept_peer
accept_peer-Kept a c fd addr h = elim (Option-cases (accept_client a.world fd addr)) [
  | inl e ↦ rw e tt
  | inr (w, e) ↦ rw e (subst (NewKept c a.world) e (accept_client-NewKept c a.world fd addr h))
]

then-Kept :
    (c : ℕ) (w : World) (o : Option App) (f : App → App)
    → Kept c w o
    → ((x : App) → KeptBy c x.world (f x).world)
    → Kept c w (o >>= λ x. some (f x))
then-Kept c w none f k h = tt
then-Kept c w (some x) f k h = KeptBy-trans c w x.world (f x).world (h x) k

module _ ⦃os : Os⦄ ⦃pb : Protobuf⦄ where
  send-KeptBy :
      (w : World) (c d : ℕ) (rsp : ImResponse) → KeptBy c w (send_response_to_client w d rsp)
  unfolding send_response_to_client
  send-KeptBy w c d rsp = (ground arith, omega arith)

  start-KeptBy :
      (a : App) (c d : ℕ) (name : Text) → KeptBy c a.world (start_session_with a d name).world
  unfolding start_session_with
  start-KeptBy a c d name =
      let w = (find_or_add_user a.world name).0 in
      let met =
        prints (with_world a w) (codes "Start private messaging with " ++ (name ++ codes "\n")) in
      let linked = link_peer met (find_or_add_user a.world name).1 d in
      KeptBy-trans c a.world linked.world
        (send_response_to_client linked.world d (private_registration linked))
        (send-KeptBy linked.world c d (private_registration linked))
        (KeptBy-trans c a.world w linked.world
          (link_peer-KeptBy met (find_or_add_user a.world name).1 c d)
          (find_or_add_user-KeptBy c a.world name))

  registered-KeptBy :
      (a : App) (c d : ℕ) (name : Text) → KeptBy c a.world (registered_by a d name).world
  unfolding registered_by
  registered-KeptBy a c d name =
      let w = (find_or_add_user a.world name).0 in
      let met =
        prints (with_world a w)
          (name ++ codes " has started a private messaging session with you\n") in
      KeptBy-trans c a.world w (link_peer met (find_or_add_user a.world name).1 d).world
        (link_peer-KeptBy met (find_or_add_user a.world name).1 c d)
        (find_or_add_user-KeptBy c a.world name)

  dial-Kept :
      (a : App) (c : ℕ) (gr : GetIpResponse) (addr : Address) (dials : List (Option ℕ))
      → c < a.world.client_count
      → Kept c a.world (dial a gr addr dials)
  unfolding dial
  dial-Kept a c gr addr [] h = KeptBy-refl c a.world
  dial-Kept a c gr addr (none ∷ dials) h = KeptBy-refl c a.world
  dial-Kept a c gr addr (some sock ∷ dials) h =
      then-Kept c a.world (accept_peer (record a { dials = dials }) sock addr) _
        (accept_peer-Kept (record a { dials = dials }) c sock addr h)
        (λ a1. start-KeptBy a1 c a.world.client_count (c_string gr.username))

  pub ensure_dir_world : (a : App) (filename : Text) → (ensure_dir a filename).world ≡ a.world
  unfolding ensure_dir
  ensure_dir_world a filename = elim (Option-cases (a.files (file_dir a filename))) [
    | inr (n, f) ↦ rw (f, ensure_dir) refl
    | inl f ↦ elim (Bool-cases (os.can_make a.files (file_dir a filename))) [
      | inr m ↦ rw (f, ensure_dir, m) refl
      | inl m ↦ rw (f, ensure_dir, m) refl
    ]
  ]

  store-KeptBy :
      (a : App) (c : ℕ) (filename : Text) (n : ℕ) (payload : Text)
      → KeptBy c a.world (store_chunk a filename n payload).world
  unfolding store_chunk epoll_chat.ClientApp.epoll_do_send_buffer epoll_chat.ClientApp.send_request
  store-KeptBy a c filename n payload = (ground arith, omega arith)

  write-KeptBy :
      (a : App) (c : ℕ) (cdr : ChunkDataResponse) → KeptBy c a.world (write_file a cdr).world
  unfolding write_file
  write-KeptBy a c cdr =
      let a1 = ensure_dir a (c_string cdr.filename) in
      let kept : KeptBy c a.world a1.world =
        subst (KeptBy c a.world) (sym (ensure_dir_world a (c_string cdr.filename)))
          (KeptBy-refl c a.world) in
      if-keeps (λ (b : App). KeptBy c a.world b.world)
        (os.can_write a1.files (chunk_path a1 (c_string cdr.filename) cdr.chunk)) _ _
        (KeptBy-trans c a.world a1.world
          (store_chunk a1 (c_string cdr.filename) cdr.chunk cdr.payload).world
          (store-KeptBy a1 c (c_string cdr.filename) cdr.chunk cdr.payload) kept)
        kept

  -- Whatever the response is.
  pub handle_response-Kept :
      (a : App) (c : ℕ) (rsp : ImResponse)
      → c < a.world.client_count
      → Kept c a.world (handle_response a c rsp)
  unfolding handle_response
  handle_response-Kept a c rsp h =
      let P = Kept c a.world in
      let w = a.world in
      if-keeps P (rsp.type == 1) _ _
        (bind-Kept c w (TextResponse.of_bytes rsp.value)
          (λ tr. some (prints a (c_string tr.msg ++ codes "\n"))) λ tr. KeptBy-refl c w)
        (if-keeps P (rsp.type == 2) _ _
          (bind-Kept c w (ExitResponse.of_bytes rsp.value)
            (λ er. some (record (prints a (c_string er.msg ++ codes "\n")) { exited = true }))
            λ er. KeptBy-refl c w)
          (if-keeps P (rsp.type == 3) _ _
            (bind-Kept c w (GetIpResponse.of_bytes rsp.value)
              (λ gr. parse_sockaddr gr.addr >>= λ addr. dial a gr addr a.dials)
              λ gr.
                bind-Kept c w (parse_sockaddr gr.addr) (λ addr. dial a gr addr a.dials)
                  λ addr. dial-Kept a c gr addr a.dials h)
            (if-keeps P (rsp.type == 4) _ _
              (bind-Kept c w (PrivateRegistrationResponse.of_bytes rsp.value)
                (λ prr. some (registered_by a c (c_string prr.username)))
                λ prr. registered-KeptBy a c c (c_string prr.username))
              (if-keeps P (rsp.type == 5) _ _
                (bind-Kept c w (ChunkDataRequest.of_bytes rsp.value)
                  (λ req.
                    some
                      (with_world a (send_response_to_client w c (get_chunk_data_response a req))))
                  λ req. send-KeptBy w c c (get_chunk_data_response a req))
                (if-keeps P (rsp.type == 6) _ _
                  (bind-Kept c w (ChunkDataResponse.of_bytes rsp.value)
                    (λ cdr. some (write_file a cdr)) λ cdr. write-KeptBy a c cdr)
                  (KeptBy-refl c w))))))

-- ===== src/ClientApp/Network/Sound.antt =====
-- Soundness of a state of the client program, and how responses act on it.
use epoll_chat.Common.{
  ℕ, ◌<◌, ◌≡◌, refl, sym, subst, ◌∙◌, inl, inr, true, List, [], ◌∷◌, ◌++◌, Text, Option, none, some,
  if-keeps, ◌==◌, arith, Option-cases, codes,
}
use epoll_chat.Protobuf.{Protobuf, ◌>>=◌, c_string}
use epoll_chat.Proto.ImRequest
use epoll_chat.Proto.ImRequest.{ImRequest}
use epoll_chat.Proto.ImResponse.{ImResponse}
use epoll_chat.Proto.TextResponse
use epoll_chat.Proto.ExitResponse
use epoll_chat.Proto.GetIpResponse
use epoll_chat.Proto.GetIpResponse.{GetIpResponse}
use epoll_chat.Proto.PrivateRegistrationResponse
use epoll_chat.Proto.ChunkDataRequest
use epoll_chat.Proto.ChunkDataResponse
use epoll_chat.Proto.ChunkDataResponse.{ChunkDataResponse}
use epoll_chat.World.{World, Address}
use epoll_chat.Delivery.{send_response_to_client}
use epoll_chat.Auth.{find_user, find_or_add_user, add_user, block_user}
use epoll_chat.Server.Connection.{accept_client}
use epoll_chat.Server.Changes.{
  Change, same, next, send, store, set_user, set_client, block, unblock, call, files, send-Change,
}
use epoll_chat.Server.Changes.Sound.{Sound, Change-Sound}
use epoll_chat.Server.Changes.Starting.{add_user-Sound}
use epoll_chat.Server.Changes.Reach.Parsing.{SoundOf}
use epoll_chat.Server.Changes.Reach.Events.{accept_client-Sound}
use epoll_chat.ClientApp.{
  App, Os, chunk_path, with_world, prints, send_request, epoll_do_send_buffer,
}
use epoll_chat.ClientApp.Session.{accept_peer}
use epoll_chat.ClientApp.Peers.{
  handle_response, parse_sockaddr, private_registration, link_peer, dial, start_session_with,
  registered_by, write_file, store_chunk, ensure_dir, get_chunk_data_response,
}
use epoll_chat.ClientApp.Network.Keeps.{NewKept, accept_client-NewKept, ensure_dir_world}

-- The state is sound in the server's sense, and the connection to the server was made.
abbrev pub Good : World → Type 0
Good w = Sound w × (0 < w.client_count)

abbrev pub GoodIn : Option App → Type 0
GoodIn none = Unit {0}
GoodIn (some a) = Good a.world

pub bind-GoodIn {ℓ} :
    {A : Type ℓ} (o : Option A) (f : A → Option App) → ((x : A) → GoodIn (f x)) → GoodIn (o >>= f)
bind-GoodIn none f h = tt
bind-GoodIn (some x) f h = h x

Change-count : {w w' : World} → Change w w' → w'.client_count ≡ w.client_count
unfolding block_user epoll_chat.Auth.unblock_user
Change-count same = refl
Change-count (next h k) = Change-count k ∙ Change-count h
Change-count (send c t) = refl
Change-count (store u t) = refl
Change-count (set_user u user k) = refl
Change-count (set_client c client k) = refl
Change-count {w = w} (block by u) =
    if-keeps (λ (x : World). x.client_count ≡ w.client_count) (u == by) _ _ refl
      (if-keeps (λ (x : World). x.client_count ≡ w.client_count) _ _ _ refl refl)
Change-count (unblock by u) = refl
Change-count (call s) = refl
Change-count (files t n) = refl

pub Change-Good : {w w' : World} → Change w w' → Good w → Good w'
Change-Good h (s, l) = (Change-Sound h s, subst (λ n. 0 < n) (sym (Change-count h)) l)

find_or_add_user-Good : (w : World) (name : Text) → Good w → Good (find_or_add_user w name).0
unfolding find_or_add_user add_user
find_or_add_user-Good w name g = elim (Option-cases (find_user w name)) [
  | inl e ↦ rw (e, find_or_add_user) (add_user-Sound w name [] g.0, g.1)
  | inr (u, e) ↦ rw (e, find_or_add_user) g
]

link_peer-Change : (a : App) (u c : ℕ) → Change a.world (link_peer a u c).world
unfolding link_peer
link_peer-Change a u c = next (set_user u _ (refl, refl, refl)) (set_client c _ (refl, refl, refl))

pub accept_peer-GoodIn :
    (a : App) (fd : ℕ) (addr : Address) → Good a.world → GoodIn (accept_peer a fd addr)
unfolding accept_peer
accept_peer-GoodIn a fd addr g = elim (Option-cases (accept_client a.world fd addr)) [
  | inl e ↦ rw e tt
  | inr (w, e) ↦
      let s = subst SoundOf e (accept_client-Sound a.world fd addr g.0) in
      let k = subst (NewKept 0 a.world) e (accept_client-NewKept 0 a.world fd addr g.1) in
      let l = g.1 in rw e (s, omega (arith, k.1))
]

then-GoodIn :
    (o : Option App) (f : App → App)
    → GoodIn o
    → ((x : App) → Good x.world → Good (f x).world)
    → GoodIn (o >>= λ x. some (f x))
then-GoodIn none f k h = tt
then-GoodIn (some x) f k h = h x k

module _ ⦃pb : Protobuf⦄ where
  pub send_request-Change :
      (a : App) (c : ℕ) (req : ImRequest) → Change a.world (send_request a c req).world
  unfolding send_request
  send_request-Change a c req = send c (ImRequest.to_bytes req)

pub epoll_do_send_buffer-Change : (a : App) → Change a.world (epoll_do_send_buffer a).world
unfolding epoll_do_send_buffer
epoll_do_send_buffer-Change a = call _

module _ ⦃os : Os⦄ ⦃pb : Protobuf⦄ where
  start-Good :
      (a : App) (d : ℕ) (name : Text) → Good a.world → Good (start_session_with a d name).world
  unfolding start_session_with
  start-Good a d name g =
      let (w, u) = find_or_add_user a.world name in
      let met =
        prints (with_world a w) (codes "Start private messaging with " ++ (name ++ codes "\n")) in
      let linked = link_peer met u d in
      Change-Good
        (next (link_peer-Change met u d) (send-Change linked.world d (private_registration linked)))
        (find_or_add_user-Good a.world name g)

  registered-Good :
      (a : App) (d : ℕ) (name : Text) → Good a.world → Good (registered_by a d name).world
  unfolding registered_by
  registered-Good a d name g =
      let (w, u) = find_or_add_user a.world name in
      let met =
        prints (with_world a w)
          (name ++ codes " has started a private messaging session with you\n") in
      Change-Good (link_peer-Change met u d) (find_or_add_user-Good a.world name g)

  dial-GoodIn :
      (a : App) (gr : GetIpResponse) (addr : Address) (dials : List (Option ℕ))
      → Good a.world
      → GoodIn (dial a gr addr dials)
  unfolding dial
  dial-GoodIn a gr addr [] g = g
  dial-GoodIn a gr addr (none ∷ dials) g = g
  dial-GoodIn a gr addr (some sock ∷ dials) g =
      then-GoodIn (accept_peer (record a { dials = dials }) sock addr) _
        (accept_peer-GoodIn (record a { dials = dials }) sock addr g)
        (λ a1. start-Good a1 a.world.client_count (c_string gr.username))

  store-Change :
      (a : App) (filename : Text) (n : ℕ) (payload : Text)
      → Change a.world (store_chunk a filename n payload).world
  unfolding store_chunk send_request epoll_do_send_buffer
  store-Change a filename n payload = next (send _ _) (call _)

  write-Good : (a : App) (cdr : ChunkDataResponse) → Good a.world → Good (write_file a cdr).world
  unfolding write_file
  write-Good a cdr g =
      let a1 = ensure_dir a (c_string cdr.filename) in
      let g1 : Good a1.world = subst Good (sym (ensure_dir_world a (c_string cdr.filename))) g in
      if-keeps (λ (b : App). Good b.world)
        (os.can_write a1.files (chunk_path a1 (c_string cdr.filename) cdr.chunk)) _ _
        (Change-Good (store-Change a1 (c_string cdr.filename) cdr.chunk cdr.payload) g1) g1

  -- Whatever the response is.
  pub handle_response-GoodIn :
      (a : App) (c : ℕ) (rsp : ImResponse) → Good a.world → GoodIn (handle_response a c rsp)
  unfolding handle_response
  handle_response-GoodIn a c rsp g =
      if-keeps GoodIn (rsp.type == 1) _ _
        (bind-GoodIn (TextResponse.of_bytes rsp.value)
          (λ tr. some (prints a (c_string tr.msg ++ codes "\n"))) λ tr. g)
        (if-keeps GoodIn (rsp.type == 2) _ _
          (bind-GoodIn (ExitResponse.of_bytes rsp.value)
            (λ er. some (record (prints a (c_string er.msg ++ codes "\n")) { exited = true }))
            λ er. g)
          (if-keeps GoodIn (rsp.type == 3) _ _
            (bind-GoodIn (GetIpResponse.of_bytes rsp.value)
              (λ gr. parse_sockaddr gr.addr >>= λ addr. dial a gr addr a.dials)
              λ gr.
                bind-GoodIn (parse_sockaddr gr.addr) (λ addr. dial a gr addr a.dials)
                  λ addr. dial-GoodIn a gr addr a.dials g)
            (if-keeps GoodIn (rsp.type == 4) _ _
              (bind-GoodIn (PrivateRegistrationResponse.of_bytes rsp.value)
                (λ prr. some (registered_by a c (c_string prr.username)))
                λ prr. registered-Good a c (c_string prr.username) g)
              (if-keeps GoodIn (rsp.type == 5) _ _
                (bind-GoodIn (ChunkDataRequest.of_bytes rsp.value)
                  (λ req. some (
                    with_world a
                      (send_response_to_client a.world c (get_chunk_data_response a req))))
                  λ req. Change-Good (send-Change a.world c (get_chunk_data_response a req)) g)
                (if-keeps GoodIn (rsp.type == 6) _ _
                  (bind-GoodIn (ChunkDataResponse.of_bytes rsp.value)
                    (λ cdr. some (write_file a cdr)) λ cdr. write-Good a cdr g)
                  g)))))

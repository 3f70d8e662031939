-- ===== src/ClientApp/RegFile/Dialogue.antt =====
-- The dialogue of regfile on a sound state of the client program.
use epoll_chat.Common.{
  ℕ, zero, suc, ◌≡◌, refl, sym, subst, inl, inr, ◌⊎◌, Bool, false, Text, Option, none, some,
  if-keeps, if◌then◌else◌, Option-cases, length, codes, drop, take, not, ◌==◌,
}
use epoll_chat.Common.Int.{ℤ, pos, negsuc}
use epoll_chat.Protobuf.{Protobuf, ◌>>=◌, c_string}
use epoll_chat.Proto.ImRequest.{ImRequest}
use epoll_chat.Libc.{fgets, chop}
use epoll_chat.ClientApp.{App, Os, prints, file_dir, chunk_path, store_file, make_dir}
use epoll_chat.ClientApp.Private.{bufsiz}
use epoll_chat.ClientApp.RegFile.{
  confirm, choose_path, check_path, answer, write_chunks, split_file, register_file, ask_chunk_size,
  cmd_regfile_impl, base_name, sure_text,
}
use epoll_chat.ClientApp.Network.Sound.{Good, GoodIn}
use epoll_chat.ClientApp.Console.Sound.{GoodOut, SameOut, bind-GoodOut, then-GoodOut}

confirm-SameOut :
    (fuel : ℕ) (question again : Text) (a : App) → SameOut a (confirm fuel question again a)
unfolding confirm
confirm-SameOut zero question again a = tt
confirm-SameOut (suc fuel) question again a = elim (Option-cases (fgets bufsiz a.stdin)) [
  | inl e ↦ rw (e, confirm) tt
  | inr (r, e) ↦ elim (Option-cases (answer r.0)) [
    | inr (b, k) ↦ rw (e, confirm, ◌>>=◌, k) refl
    | inl k ↦
        rw (e, confirm, ◌>>=◌, k)
          (confirm-SameOut fuel question again
            (prints (record (prints a question) { stdin = r.1 }) again))
  ]
]

-- What choose_path gives: a path, the bytes, and the state.
PathIn : App → Option (Text × Text × App) → Type 0
PathIn a none = Unit {0}
PathIn a (some r) = r.2.world ≡ a.world

check_path-cases : (r : Text ⊎ Text) → ((s : Text) × (r ≡ inl s)) ⊎ ((s : Text) × (r ≡ inr s))
check_path-cases (inl s) = inl (s, refl)
check_path-cases (inr s) = inr (s, refl)

choose_path-PathIn : (fuel : ℕ) (a : App) → PathIn a (choose_path fuel a)
unfolding choose_path PathIn
choose_path-PathIn zero a = tt
choose_path-PathIn (suc fuel) a = elim (Option-cases (fgets bufsiz a.stdin)) [
  | inl e ↦ rw (e, choose_path) tt
  | inr (r, e) ↦ elim (Option-cases (chop (c_string r.0))) [
    | inl k ↦ rw (e, choose_path, k) tt
    | inr (path, k) ↦ elim (check_path-cases (check_path (a.files path))) [
      | inl (s, q) ↦ rw (e, choose_path, k, ◌>>=◌, q) refl
      | inr (msg, q) ↦
          rw (e, choose_path, k, ◌>>=◌, q)
            (choose_path-PathIn fuel
              (prints (record (prints a (codes "Path to your local file: ")) { stdin = r.1 }) msg))
    ]
  ]
]

module _ ⦃os : Os⦄ where
  write_chunks-GoodIn :
      (a : App) (filename : Text) (size n i : ℕ) (bytes : Text)
      → Good a.world
      → GoodIn (write_chunks a filename size n i bytes)
  unfolding write_chunks
  write_chunks-GoodIn a filename size zero i bytes g = g
  write_chunks-GoodIn a filename size (suc n) i bytes g =
      if-keeps GoodIn (os.can_write a.files (chunk_path a filename i)) _ _
        (write_chunks-GoodIn
          (record a { files = store_file a.files (chunk_path a filename i) (take size bytes) })
          filename size n (suc i) (drop size bytes) g)
        tt

  split_file-GoodIn :
      (a : App) (filepath filename bytes : Text) (size n : ℤ)
      → Good a.world
      → GoodIn (split_file a filepath filename bytes size n)
  unfolding split_file
  split_file-GoodIn a filepath filename bytes (pos size) (pos n) g =
      if-keeps GoodIn (not (os.can_read a.files filepath)) _ _ tt (
        if-keeps GoodIn (os.can_allocate size) _ _ (write_chunks-GoodIn a filename size n 0 bytes g)
          (if-keeps GoodIn (n == 0) _ _ g tt))
  split_file-GoodIn a filepath filename bytes (negsuc size) (pos n) g =
      if-keeps GoodIn (os.can_read a.files filepath) _ _ (if-keeps GoodIn (n == 0) _ _ g tt) tt
  split_file-GoodIn a filepath filename bytes (pos size) (negsuc n) g =
      if-keeps GoodIn (os.can_read a.files filepath) _ _ g tt
  split_file-GoodIn a filepath filename bytes (negsuc size) (negsuc n) g =
      if-keeps GoodIn (os.can_read a.files filepath) _ _ g tt

GoodIn-GoodOut {ℓ} :
    {B : Type ℓ} (o : Option App) (b : B) → GoodIn o → GoodOut (o >>= λ a. some (a, b))
GoodIn-GoodOut none b h = tt
GoodIn-GoodOut (some a) b h = h

module _ ⦃os : Os⦄ ⦃pb : Protobuf⦄ where
  register_file-GoodOut :
      (a : App) (filepath bytes : Text) (size n : ℤ)
      → Good a.world
      → GoodOut (register_file a filepath bytes size n)
  unfolding register_file
  register_file-GoodOut a filepath bytes size n g =
      let dir = file_dir a (base_name filepath) in
      if-keeps (GoodOut {A = Option ImRequest})
        (elim (a.files dir) as (λ x. Bool) [ none ↦ os.can_make a.files dir | some node ↦ false ]) _
        _
        (GoodIn-GoodOut
          (split_file (record a { files = make_dir a.files dir }) filepath (base_name filepath)
            bytes size n)
          _
          (split_file-GoodIn (record a { files = make_dir a.files dir }) filepath
            (base_name filepath) bytes size n g))
        g

  ask_chunk_size-GoodOut :
      (a : App) (filepath bytes : Text) → Good a.world → GoodOut (ask_chunk_size a filepath bytes)
  unfolding ask_chunk_size
  ask_chunk_size-GoodOut a filepath bytes g = bind-GoodOut (fgets bufsiz a.stdin) _ λ r.
      then-GoodOut a _ _ g (confirm-SameOut _ _ _ _) λ q h.
        if-keeps (GoodOut {A = Option ImRequest}) q.0 _ _
          (register_file-GoodOut q.1 filepath bytes _ _ h) h

  path-GoodOut :
      (a : App) (fuel : ℕ)
      → Good a.world
      → GoodOut (choose_path fuel a >>= λ r. ask_chunk_size r.2 r.0 r.1)
  unfolding PathIn
  path-GoodOut a fuel g = elim (Option-cases (choose_path fuel a)) [
    | inl e ↦ rw e tt
    | inr (r, e) ↦ rw e (
        ask_chunk_size-GoodOut r.2 r.0 r.1
          (subst Good (sym (subst (PathIn a) e (choose_path-PathIn fuel a))) g))
  ]

  pub regfile-GoodOut : (a : App) (req : Text) → Good a.world → GoodOut (cmd_regfile_impl a req)
  unfolding cmd_regfile_impl
  regfile-GoodOut a req g =
      let again = codes "I didn't get that...\n\n" in
      let fuel = suc (length a.stdin) in
      then-GoodOut a (confirm fuel sure_text again a)
        (λ q.
          if q.0
          then choose_path (suc (length q.1.stdin)) q.1 >>= (λ r. ask_chunk_size r.2 r.0 r.1)
          else some (q.1, none))
        g (confirm-SameOut fuel sure_text again a)
        λ q h.
          if-keeps (GoodOut {A = Option ImRequest}) q.0
            (choose_path (suc (length q.1.stdin)) q.1 >>= (λ r. ask_chunk_size r.2 r.0 r.1))
            (some (q.1, none)) (path-GoodOut q.1 (suc (length q.1.stdin)) h) h

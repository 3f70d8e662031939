-- ===== src/Auth.antt =====
-- lib/auth.h and lib/auth.c: accounts, login and logout, blocked users, lists of users.
pub mod Accounts
pub mod Blocking
pub mod Lists
use epoll_chat.Common.{
  ℕ, zero, suc, ◌+◌, ◌-◌, Bool, true, false, not, ◌&&◌, ◌||◌, List, [], ◌∷◌, ◌++◌, Text, Option,
  none, some, if◌then◌else◌, contains, ◌==◌, codes, text_eq, length, points_to, update,
}
use epoll_chat.Common.Int.{int32, ℤ, pos, negsuc, ◌+ℤ◌, ◌-ℤ◌, ltb_ℤ, leb_ℤ}
use epoll_chat.Protobuf.{Protobuf}
use epoll_chat.Buffer.{init_buffer, out_buffer_default_size}
use epoll_chat.Trie.{new_node, find_node, modify_node, entry}
use epoll_chat.World.{World, User, Client, UserDb, put_user, put_client}
use epoll_chat.Delivery.{is_user_logged_in, has_blocked_user, encode_text, notify_all}

-- The user that addUser allocates.
abbrev pub new_user : Text → Text → User
new_user username password = record {
  username = username;
  password = password;
  last_logged_in = negsuc 0;
  last_active = negsuc 0;
  last_blocked = negsuc 0;
  attempts = 0;
  client = none;
  buffer = init_buffer out_buffer_default_size;
  blocked = [];
}

-- addUser, with the pointer to the new user
unfoldable pub add_user : World → Text → Text → World × ℕ
add_user w username password = (
  record w {
    users = update w.users w.user_count (new_user username password);
    user_count = suc w.user_count;
    db = record (w.db) {
      first = w.user_count ∷ w.db.first;
      root = modify_node none (λ old. some w.user_count) username w.db.root;
    };
  },
  w.user_count,
)

-- newUserDb
unfoldable pub new_user_db : ℤ → ℤ → UserDb
new_user_db block_duration login_timeout = record {
  first = [];
  root = new_node none;
  block_duration = block_duration;
  login_timeout = login_timeout;
}

-- The loop of buildUserDb over the words of the file. `fscanf` that finds one word only still
-- returns 1, so the last user gets the password that is left in the array.
unfoldable pub build_user_db : World → Text → List Text → World
build_user_db w password [] = w
build_user_db w password (username ∷ []) = (add_user w username password).0
build_user_db w password (username ∷ password' ∷ words) =
    build_user_db (add_user w username password').0 password' words

-- findUser
unfoldable pub find_user : World → Text → Option ℕ
find_user w username = entry none (find_node w.db.root username)

-- findOrAddUser
unfoldable pub find_or_add_user : World → Text → World × ℕ
find_or_add_user w username = elim (find_user w username) [
  | some u ↦ (w, u)
  | none ↦ add_user w username []
]

-- What login returns: 0, 1, 2, 3 and 4.
pub data LoginStatus : Type 0 where
  success user_not_found user_blocked wrong_password another_session : LoginStatus

-- The branch of a wrong password; the third in a row blocks the user.
unfoldable pub fail_password : World → ℕ → World × LoginStatus
fail_password w u =
    let user = w.users u in
    if user.attempts + 1 == 3
    then (
      put_user w u
          (record user { last_blocked = int32 (w.now +ℤ w.db.block_duration); attempts = 0 }),
      user_blocked,
    )
    else (put_user w u (record user { attempts = user.attempts + 1 }), wrong_password)

-- The writes of a login that succeeds.
unfoldable pub start_session : World → ℕ → World
start_session w u =
    put_user w u (record (w.users u) { attempts = 0; last_logged_in = w.now; last_active = w.now })

module _ ⦃pb : Protobuf⦄ where
  -- login from the lookup on
  unfoldable pub login_user : World → ℕ → Text → Text → World × LoginStatus
  unfolding fail_password start_session
  login_user w u username password =
      if ltb_ℤ w.now (w.users u).last_blocked
      then (w, user_blocked)
      else if not (text_eq (w.users u).password password)
      then fail_password w u
      else if is_user_logged_in w u
      then (w, another_session)
      else (
        notify_all (start_session w u) u (encode_text (username ++ codes " has logged in") true)
            w.db.first,
        success,
      )

  -- login: the world after it, its result, and the pointer that it stores
  unfoldable pub login : World → Text → Text → World × LoginStatus × Option ℕ
  login w username password = elim (find_user w username) [
    | none ↦ (w, user_not_found, none)
    | some u ↦ let (w', status) = login_user w u username password in (w', status, some u)
  ]

  -- The two writes of logoutUser that part a user from its client.
  unfoldable pub unlink : World → ℕ → ℕ → World
  unlink w u c =
      let w' = put_client w c (record (w.clients c) { user = none }) in
      put_user w' u (record (w'.users u) { client = none })

  -- logoutUser
  unfoldable pub logout_user : World → Option ℕ → World
  unfolding unlink
  logout_user w none = w
  logout_user w (some u) = elim (w.users u).client [
    | none ↦ w
    | some c ↦
        if not w.is_server
        then unlink w u c
        else notify_all (unlink w u c) u
            (encode_text ((w.users u).username ++ codes " has logged out") true) w.db.first
  ]

-- blockUser
unfoldable pub block_user : World → ℕ → ℕ → World
block_user w by u =
    if u == by
    then w
    else if has_blocked_user w by u
    then w
    else put_user w by (record (w.users by) { blocked = u ∷ (w.users by).blocked })

-- The loop of unblockUser: after it has taken a link out it steps over the next one.
unfoldable pub unblock_list : ℕ → List ℕ → List ℕ
unblock_list u [] = []
unblock_list u (x ∷ []) = if x == u then [] else x ∷ []
unblock_list u (x ∷ y ∷ ys) = elim (x == u) [
  | true ↦ y ∷ unblock_list u ys
  | false ↦ x ∷ unblock_list u (y ∷ ys)
]

-- unblockUser
unfoldable pub unblock_user : World → ℕ → ℕ → World
unblock_user w by u =
    put_user w by (record (w.users by) { blocked = unblock_list u (w.users by).blocked })

-- The test of loggedInUsersAfterTime; `exclude` may be NULL.
unfoldable pub is_listed : World → ℤ → Bool → Option ℕ → ℕ → Bool
is_listed w threshold currently_online exclude v =
    not (points_to exclude v)
    && (leb_ℤ threshold (w.users v).last_active && (not currently_online || is_user_logged_in w v))

unfoldable pub listed_users : World → ℤ → Bool → Option ℕ → List ℕ → List ℕ
listed_users w threshold currently_online exclude [] = []
listed_users w threshold currently_online exclude (v ∷ vs) =
    let rest = listed_users w threshold currently_online exclude vs in
    if is_listed w threshold currently_online exclude v then v ∷ rest else rest

-- loggedInUsersAfterTime
unfoldable pub logged_in_users_after_time : World → ℤ → Bool → Option ℕ → List ℕ
logged_in_users_after_time w threshold currently_online exclude =
    listed_users w threshold currently_online exclude w.db.first

-- loggedInUsers
unfoldable pub logged_in_users : World → Bool → Option ℕ → List ℕ
logged_in_users w = logged_in_users_after_time w (pos 0)

-- loggedInUsersInPastSeconds; `seconds` is an int
unfoldable pub logged_in_users_in_past_seconds : World → ℤ → Bool → Option ℕ → List ℕ
logged_in_users_in_past_seconds w seconds = logged_in_users_after_time w (int32 (w.now -ℤ seconds))

-- The second loop of userLinkedListToString: `written` is what stands between `*str` and `nxt`.
unfoldable pub write_names : World → Text → Text → List ℕ → Text
write_names w separator written [] = written
write_names w separator written (u ∷ us) =
    write_names w separator
      ((if length written == 0 then written else written ++ separator) ++ (w.users u).username) us

-- Its first loop.
unfoldable pub names_size : World → List ℕ → ℕ
names_size w [] = 0
names_size w (u ∷ us) = 2 + length (w.users u).username + names_size w us

-- userLinkedListToString: the string, NULL for no user, and the size returned; the block allocated
-- is one byte larger than that size.
unfoldable pub user_linked_list_to_string : World → List ℕ → Text → Option Text × ℕ
user_linked_list_to_string w [] separator = (none, 0)
user_linked_list_to_string w (u ∷ us) separator =
    (some (write_names w separator [] (u ∷ us)), names_size w (u ∷ us) - 2)

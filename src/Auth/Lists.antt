-- ===== src/Auth/Lists.antt =====
-- The lists of users that whoelse and whoelsesince ask for, and their text.
use epoll_chat.Common.{
  ℕ, ◌+◌, ◌≤◌, ◌<◌, ◌≡◌, refl, sym, ap, ◌∙◌, ◌≢◌, Bool, false, ◌&&◌, List, [], ◌∷◌, ◌++◌, Text,
  Option, some, contains, arith, ==_ne, length, length-append, append_assoc, append-nil,
}
use epoll_chat.Common.Int.{ℤ, pos, negsuc, ◌-ℤ◌, InInt, int32-InInt}
use epoll_chat.World.{World}
use epoll_chat.Auth.{
  is_listed, listed_users, logged_in_users_after_time, logged_in_users_in_past_seconds, write_names,
  names_size, user_linked_list_to_string,
}

-- loggedInUsersAfterTime lists a user exactly if it is in the list gone through and passes the
-- test: not the one excluded, active since the threshold, and online where that is asked for.
pub contains-listed_users :
    (w : World) (threshold : ℤ) (online : Bool) (exclude : Option ℕ) (v : ℕ) (us : List ℕ)
    → contains (listed_users w threshold online exclude us) v
      ≡ (contains us v && is_listed w threshold online exclude v)
unfolding listed_users
contains-listed_users w threshold online exclude v [] = refl
contains-listed_users w threshold online exclude v (u ∷ us) =
    ground (arith, contains-listed_users w threshold online exclude v us)

-- loggedInUsersInPastSeconds where the threshold is a time that an int holds.
past_seconds_lem :
    (w : World) (seconds : ℤ) (online : Bool) (exclude : Option ℕ)
    → InInt (w.now -ℤ seconds)
    → logged_in_users_in_past_seconds w seconds online exclude
      ≡ listed_users w (w.now -ℤ seconds) online exclude w.db.first
unfolding logged_in_users_in_past_seconds logged_in_users_after_time
past_seconds_lem w seconds online exclude i =
    ap (λ z. listed_users w z online exclude w.db.first) (int32-InInt (w.now -ℤ seconds) i)

-- A user that never logged in, with `last_active` -1, is listed by a request for more seconds than
-- the clock shows, like every user of the database but the one that asks.
pub never_active_listed :
    (w : World) (t seconds me v : ℕ)
    → w.now ≡ pos t
    → t < seconds
    → InInt (w.now -ℤ pos seconds)
    → v ≢ me
    → (w.users v).last_active ≡ negsuc 0
    → contains (logged_in_users_in_past_seconds w (pos seconds) false (some me)) v
      ≡ contains w.db.first v
unfolding is_listed ◌-ℤ◌
never_active_listed w t seconds me v e h i n a =
    ap (λ l. contains l v) (past_seconds_lem w (pos seconds) false (some me) i)
    ∙ (contains-listed_users w (w.now -ℤ pos seconds) false (some me) v w.db.first ∙ ground arith)

-- Names with the separator between them.
abbrev pub join : Text → List Text → Text
join sep [] = []
join sep (n ∷ []) = n
join sep (n ∷ m ∷ ns) = n ++ (sep ++ join sep (m ∷ ns))

abbrev pub names : World → List ℕ → List Text
names w [] = []
names w (u ∷ us) = (w.users u).username ∷ names w us

-- Every user listed has a name.
abbrev pub AllNamed : World → List ℕ → Type 0
AllNamed w [] = Unit {0}
AllNamed w (u ∷ us) = (0 < length (w.users u).username) × AllNamed w us

-- The separator and what follows it, for each further name.
abbrev tail_text : World → Text → List ℕ → Text
tail_text w sep [] = []
tail_text w sep (u ∷ us) = sep ++ ((w.users u).username ++ tail_text w sep us)

write_names_lem :
    (w : World) (sep written : Text) (us : List ℕ)
    → 0 < length written
    → write_names w sep written us ≡ written ++ tail_text w sep us
unfolding write_names
write_names_lem w sep written [] h = sym (append-nil written)
write_names_lem w sep written (u ∷ us) h = rw (==_ne (length written) 0 (omega arith)) (
    write_names_lem w sep ((written ++ sep) ++ (w.users u).username) us (
      omega (arith, length-append (written ++ sep) (w.users u).username, length-append written sep))
    ∙ (append_assoc (written ++ sep) (w.users u).username (tail_text w sep us)
        ∙ append_assoc written sep ((w.users u).username ++ tail_text w sep us)))

join_lem :
    (w : World) (sep : Text) (u : ℕ) (us : List ℕ)
    → join sep (names w (u ∷ us)) ≡ (w.users u).username ++ tail_text w sep us
join_lem w sep u [] = sym (append-nil (w.users u).username)
join_lem w sep u (v ∷ vs) = ap (λ t. (w.users u).username ++ (sep ++ t)) (join_lem w sep v vs)

length-tail_text :
    (w : World) (sep : Text) (us : List ℕ)
    → length sep ≤ 2
    → length (tail_text w sep us) ≤ names_size w us
unfolding names_size
length-tail_text w sep [] h = omega arith
length-tail_text w sep (u ∷ us) h = omega (
  arith,
  length-append sep ((w.users u).username ++ tail_text w sep us),
  length-append (w.users u).username (tail_text w sep us),
  length-tail_text w sep us h,
)

-- For one or more users with names and a separator of at most two bytes, userLinkedListToString
-- writes the names with the separator between them, and they fit, with the final zero byte, in
-- the block, which has one byte more than the size returned.
pub user_linked_list_to_string_lem :
    (w : World) (sep : Text) (u : ℕ) (us : List ℕ)
    → AllNamed w (u ∷ us)
    → length sep ≤ 2
    → let r = user_linked_list_to_string w (u ∷ us) sep in
      (r.0 ≡ some (join sep (names w (u ∷ us))))
      × (length (join sep (names w (u ∷ us))) + 1 ≤ r.1 + 1)
unfolding user_linked_list_to_string write_names names_size
user_linked_list_to_string_lem w sep u us (h, k) s = (
  ap some (write_names_lem w sep (w.users u).username us h ∙ sym (join_lem w sep u us)),
  omega (
    arith,
    ap length (join_lem w sep u us),
    length-append (w.users u).username (tail_text w sep us),
    length-tail_text w sep us s,
  ),
)

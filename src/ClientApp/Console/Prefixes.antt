-- ===== src/ClientApp/Console/Prefixes.antt =====
-- Which command a typed line runs: the prefixes of clientlib/commands in the order of
-- clientlib/command.c.
use epoll_chat.Common.{◌≡◌, refl, false, ◌++◌, Text, some, codes}
use epoll_chat.ClientApp.Private.{starts_with}
use epoll_chat.ClientApp.Console.{
  Entry, login, message, broadcast, block, unblock, logout, whoelsesince, whoelse, startprivate,
  private, stopprivate, regfile, searchfile, searchchunk, prefix, enabled_entries, find_entry,
}

-- What stands behind "whoelse" does not make the line one of "whoelsesince ".
abbrev pub IsUnambiguous : Entry → Text → Type 0
IsUnambiguous whoelse arg = starts_with (codes "since ") arg ≡ false
IsUnambiguous _ arg = Unit {0}

-- The client's parse_command finds each of its fourteen commands by the command's prefix, whatever
-- stands behind it; only "whoelse" must not be followed by "since ", which makes it the longer
-- command, standing before it in the table.
pub find_entry-prefix :
    (k : Entry) (arg : Text)
    → IsUnambiguous k arg
    → find_entry (prefix k ++ arg) enabled_entries ≡ some k
unfolding find_entry
find_entry-prefix whoelse arg h = rw h
find_entry-prefix login arg h = refl
find_entry-prefix message arg h = refl
find_entry-prefix broadcast arg h = refl
find_entry-prefix block arg h = refl
find_entry-prefix unblock arg h = refl
find_entry-prefix logout arg h = refl
find_entry-prefix whoelsesince arg h = refl
find_entry-prefix startprivate arg h = refl
find_entry-prefix private arg h = refl
find_entry-prefix stopprivate arg h = refl
find_entry-prefix regfile arg h = refl
find_entry-prefix searchfile arg h = refl
find_entry-prefix searchchunk arg h = refl

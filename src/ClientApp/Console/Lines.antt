-- ===== src/ClientApp/Console/Lines.antt =====
-- The lines that a user types to ask the server for something, and the requests that they mean.
use epoll_chat.Common.{
  ℕ, ◌<◌, ◌^◌, ◌≡◌, refl, ap, sym, ◌∙◌, true, false, List, [], ◌∷◌, ◌++◌, Text, some, codes,
  decimal, contains, arith, append-nil,
}
use epoll_chat.Common.Int.{signed32}
use epoll_chat.Server.Dispatch.{Request}
use epoll_chat.Libc.{atoi}
use epoll_chat.Libc.Decimal.{strtol-decimal}
use epoll_chat.Files.{pack_uint32}
use epoll_chat.Files.Packing.{AllU32}
use epoll_chat.Files.Values.{numbers_text}
use epoll_chat.ClientApp.{App, prints}
use epoll_chat.ClientApp.Commands.{split_at_space, signed_decimal}
use epoll_chat.ClientApp.Console.{Entry, prefix}
use epoll_chat.ClientApp.Console.Prefixes.{IsUnambiguous}

-- What a user can ask the server for by one line.
pub data Line : Type 0 where
  message : Text → Text → Line
  broadcast : Text → Line
  block unblock : Text → Line
  logout whoelse : Line
  whoelsesince : ℕ → Line
  startprivate : Text → Line
  searchfile : Text → Line
  searchchunk : Text → ℕ → List ℕ → Line

abbrev pub entry_of : Line → Entry
entry_of (Line.message to msg) = Entry.message
entry_of (Line.broadcast msg) = Entry.broadcast
entry_of (Line.block name) = Entry.block
entry_of (Line.unblock name) = Entry.unblock
entry_of Line.logout = Entry.logout
entry_of Line.whoelse = Entry.whoelse
entry_of (Line.whoelsesince n) = Entry.whoelsesince
entry_of (Line.startprivate name) = Entry.startprivate
entry_of (Line.searchfile name) = Entry.searchfile
entry_of (Line.searchchunk name v vs) = Entry.searchchunk

-- How it is typed, behind the command's prefix.
abbrev pub argument : Line → Text
argument (Line.message to msg) = to ++ (b' ' ∷ msg)
argument (Line.broadcast msg) = msg
argument (Line.block name) = name
argument (Line.unblock name) = name
argument Line.logout = []
argument Line.whoelse = []
argument (Line.whoelsesince n) = decimal n
argument (Line.startprivate name) = name
argument (Line.searchfile name) = name
argument (Line.searchchunk name v vs) = name ++ (b' ' ∷ numbers_text v vs)

-- The request meant.
abbrev pub meant : Line → Request
meant (Line.message to msg) =
    Request.message (record { broadcast = false; username = to; msg = msg })
meant (Line.broadcast msg) = Request.message (record { broadcast = true; username = []; msg = msg })
meant (Line.block name) = Request.block (record { username = name })
meant (Line.unblock name) = Request.unblock (record { username = name })
meant Line.logout = Request.logout (record {})
meant Line.whoelse =
    Request.whoelse (record { limit_time = false; past_seconds = 0; currently_online = true })
meant (Line.whoelsesince n) =
    Request.whoelse (record { limit_time = true; past_seconds = n; currently_online = false })
meant (Line.startprivate name) = Request.getip (record { username = name })
meant (Line.searchfile name) = Request.searchfile (record { filename = name; chunks = [] })
meant (Line.searchchunk name v vs) =
    Request.searchfile (record { filename = name; chunks = pack_uint32 (v ∷ vs) })

-- A name before a space has no space, and numbers are `uint32_t`.
abbrev pub CanBeTyped : Line → Type 0
CanBeTyped (Line.message to msg) = contains to b' ' ≡ false
CanBeTyped (Line.whoelsesince n) = n < 2 ^ 32
CanBeTyped (Line.searchchunk name v vs) = (contains name b' ' ≡ false) × AllU32 (v ∷ vs)
CanBeTyped other = Unit {0}

-- What is printed on the way.
abbrev pub echoed : App → Line → App
echoed a (Line.whoelsesince n) = prints a (signed_decimal (signed32 n) ++ codes "\n")
echoed a other = a

pub split_at_space_lem :
    (s t : Text) → contains s b' ' ≡ false → split_at_space (s ++ (b' ' ∷ t)) ≡ some (s, t)
unfolding split_at_space
split_at_space_lem [] t h = refl
split_at_space_lem (c ∷ s) t h = ground (arith, split_at_space_lem s t)

pub atoi-decimal : (n : ℕ) → n < 2 ^ 32 → atoi (decimal n) ≡ n
unfolding atoi
atoi-decimal n h =
    rw
      (ap epoll_chat.Libc.strtol (sym (append-nil (decimal n)))
        ∙ strtol-decimal n [] (omega arith) tt)
      (omega arith)

pub unambiguous : (l : Line) → IsUnambiguous (entry_of l) (argument l)
unambiguous (Line.message to msg) = tt
unambiguous (Line.broadcast msg) = tt
unambiguous (Line.block name) = tt
unambiguous (Line.unblock name) = tt
unambiguous Line.logout = tt
unambiguous Line.whoelse = refl
unambiguous (Line.whoelsesince n) = tt
unambiguous (Line.startprivate name) = tt
unambiguous (Line.searchfile name) = tt
unambiguous (Line.searchchunk name v vs) = tt

abbrev pub line_text : Line → Text
line_text l = prefix (entry_of l) ++ argument l

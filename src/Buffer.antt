-- ===== src/Buffer.antt =====
-- lib/buffer.h, lib/buffer.c, and what lib/socket.c and clientlib/command.c do to a buffer:
-- send_response, send_request, the reads and the writes of sockets.
pub mod Queue
pub mod Receive
use epoll_chat.Common.{
  ℕ, zero, suc, ◌+◌, ◌-◌, ◌*◌, ◌<◌, ◌≤◌, Bool, true, false, List, [], ◌∷◌, ◌++◌, Text, length, take,
  drop, ltb, leb, ◌==◌, if◌then◌else◌,
}

-- `im_buffer_t`. `cells` is the memory behind `buffer` as far as it was written; sizes are `size_t`
-- values of objects in memory, whose sums and doubles stay below 2 ^ 64.
pub record Buffer : Type 0 where
  pub cells : Text
  pub buffer_capacity : ℕ
  pub buffer_start : ℕ
  pub buffer_end : ℕ

-- BUFSIZ of the C library, and MSG_LIMIT of lib/socket.h
abbrev pub out_buffer_default_size : ℕ
out_buffer_default_size = 8192

abbrev pub msg_limit : ℕ
msg_limit = 32768

unfoldable pub init_buffer : ℕ → Buffer
init_buffer size = record { cells = []; buffer_capacity = size; buffer_start = 0; buffer_end = 0 }

-- The bytes from index `i` up to index `j`.
abbrev pub slice : Text → ℕ → ℕ → Text
slice s i j = take (j - i) (drop i s)

-- memcpy of `s` to index `i`; what lies behind stays.
abbrev pub write_at : Text → ℕ → Text → Text
write_at cells i s = take i cells ++ (s ++ drop (i + length s) cells)

-- The copy is taken as a move of the bytes, also where the two ranges overlap.
unfoldable pub reset_buffer_start : Buffer → Buffer
reset_buffer_start b = if b.buffer_start == 0 then b else record b {
  cells = write_at b.cells 0 (slice b.cells b.buffer_start b.buffer_end);
  buffer_start = 0;
  buffer_end = b.buffer_end - b.buffer_start;
}

-- `while (need >= capacity) capacity <<= 1`
unfoldable pub grow : ℕ → ℕ → ℕ → ℕ
grow zero need capacity = capacity
grow (suc fuel) need capacity =
    let rest = grow fuel need (capacity * 2) in if leb capacity need then rest else capacity

-- A positive capacity doubles at least `need + 1` times before it stays below `need`.
unfoldable pub enlarge : ℕ → Buffer → Buffer
unfolding grow
enlarge n b =
    if leb b.buffer_capacity (b.buffer_end + n)
    then record b {
      buffer_capacity = grow (suc (b.buffer_end + n)) (b.buffer_end + n) b.buffer_capacity;
    }
    else b

unfoldable pub make_room : ℕ → Buffer → Buffer
unfolding reset_buffer_start enlarge
make_room n b =
    if leb b.buffer_capacity (b.buffer_end + n) then enlarge n (reset_buffer_start b) else b

-- send_response and send_request, on the encoded bytes
unfoldable pub append_bytes : Buffer → Text → Buffer
append_bytes b s =
    let b' = make_room (length s) b in
    record b' { cells = write_at b'.cells b'.buffer_end s; buffer_end = b'.buffer_end + length s }

-- im_send_buffer, where `send` took `nsent` of the bytes
unfoldable pub compact : Buffer → Buffer
compact b = if leb b.buffer_capacity (b.buffer_start * 2) then reset_buffer_start b else b

unfoldable pub sent : ℕ → Buffer → Buffer
sent nsent b = compact (record b { buffer_start = b.buffer_start + nsent })

-- im_receive_command up to `recv`: the room is made, and doubled if it is half full.
unfoldable pub prepare_receive : Buffer → Buffer
prepare_receive b =
    let b' = reset_buffer_start b in
    if ltb b'.buffer_capacity (b'.buffer_end * 2)
    then record b' { buffer_capacity = b'.buffer_capacity * 2 }
    else b'

-- `recv` stores what has arrived, at most the free room.
unfoldable pub received : Text → Buffer → Buffer
received s b = record b {
  cells = write_at b.cells b.buffer_end s;
  buffer_end = b.buffer_end + length s;
}

-- The bytes that wait in a buffer, oldest first.
abbrev pub contents : Buffer → Text
contents b = slice b.cells b.buffer_start b.buffer_end

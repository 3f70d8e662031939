-- ===== src/Files/Packing.antt =====
-- The packed numbers of a request, into bytes and back.
use epoll_chat.Common.{
  ℕ, ◌+◌, ◌*◌, ◌/◌, ◌%◌, ◌<◌, ◌^◌, ◌≡◌, refl, ap₂, List, [], ◌∷◌, arith, length,
}
use epoll_chat.Files.{parse_packed_uint32, pack_uint32}

-- Every number is a `uint32_t`.
abbrev pub AllU32 : List ℕ → Type 0
AllU32 [] = Unit {0}
AllU32 (v ∷ vs) = (v < 2 ^ 32) × AllU32 vs

word :
    (v : ℕ)
    → v < 2 ^ 32
    → v % 256 + 256 * (v / 256 % 256) + 65536 * (v / 65536 % 256) + 16777216 * (v / 16777216 % 256)
      ≡ v
word v h = omega arith

-- For numbers of 32 bits parse_packed_uint32 reads back what pack_repeated_uint32_from_str
-- stores, four bytes for each.
pub parse-pack_uint32 :
    (vs : List ℕ)
    → AllU32 vs
    → (parse_packed_uint32 (pack_uint32 vs) ≡ vs) × (length (pack_uint32 vs) ≡ 4 * length vs)
unfolding parse_packed_uint32 pack_uint32
parse-pack_uint32 [] h = (refl, refl)
parse-pack_uint32 (v ∷ vs) (h, k) =
    let (ih, len) = parse-pack_uint32 vs k in (ap₂ ◌∷◌ (word v h) ih, omega arith)

-- ===== src/ClientApp/RegFile/Count.antt =====
-- How many chunks regfile makes of a file.
use epoll_chat.Common.{ℕ, suc, ◌+◌, ◌*◌, ◌/◌, ◌<◌, ◌≤◌, ◌≡◌, refl, ltb, Bool-cases, inl, inr, arith}
use native.Mathlib.Nat.{div-mul-le_self, lt-div-mul-add, suc-mul}
use epoll_chat.Common.Int.{pos}
use epoll_chat.ClientApp.RegFile.{chunk_count}

-- For a chunk size that is positive, regfile makes the least number of chunks of that size that hold
-- all bytes of the file: one chunk less would not.
pub chunk_count-least :
    (bytes size : ℕ)
    → 0 < size
    → (k : ℕ) × (chunk_count bytes (pos size) ≡ pos k)
      × (bytes ≤ k * size)
      × (k * size < bytes + size)
unfolding chunk_count
chunk_count-least bytes size h = elim (Bool-cases (ltb (bytes / size * size) bytes)) [
  | inl e ↦ (
    suc (bytes / size),
    rw e refl,
    omega (arith, suc-mul (bytes / size) size, lt-div-mul-add {a = bytes} h),
    ground (arith, suc-mul (bytes / size) size, div-mul-le_self bytes size),
  )
  | inr e ↦ (
    bytes / size,
    rw e refl,
    ground (arith, div-mul-le_self bytes size),
    omega (arith, h, div-mul-le_self bytes size),
  )
]

-- ===== src/Stream/Valid.antt =====
-- The invariant of a stream, and its two readings: the bytes written so far, and those to be read.
use rdesktop.Common.{ℕ, ◌+◌, ◌-◌, ◌^◌, ◌≤◌, ◌<◌, ◌≡◌, List, arith}
use rdesktop.Common.{length, take, drop, replicate, length-append}
use rdesktop.Common.{length-replicate}
use rdesktop.Stream.{Stream, s_alloc, s_realloc, s_reset, s_mark_end, s_push_layer}
use rdesktop.Stream.{Layer}

-- The block has `size` bytes, and both pointers stay inside it.
pub record IsValid (s : Stream) : Type 0 where
  pub room : length s.buf ≡ s.size
  pub cursor : s.p ≤ s.size
  pub mark : s.end ≤ s.size
  pub wide : s.size < 2 ^ 32

abbrev pub written : Stream → List ℕ
written s = take s.p s.buf

abbrev pub unread : Stream → List ℕ
unread s = take (s.end - s.p) (drop s.p s.buf)

abbrev pub zero_byte : ℕ
zero_byte = 0

pub s_alloc-IsValid : (n : ℕ) → n < 2 ^ 32 → IsValid (s_alloc n)
unfolding s_alloc
s_alloc-IsValid n h = omega (arith, length-replicate n zero_byte)

pub s_mark_end-IsValid : {s : Stream} → IsValid s → IsValid (s_mark_end s)
unfolding s_mark_end
s_mark_end-IsValid v = omega arith

pub s_reset-IsValid : {s : Stream} → IsValid s → IsValid (s_reset s)
unfolding s_reset
s_reset-IsValid v = omega arith

-- A header is pushed with room for it.
pub s_push_layer-IsValid :
    {s : Stream} (h : Layer) (n : ℕ) → IsValid s → s.p + n ≤ s.size → IsValid (s_push_layer h n s)
unfolding s_push_layer
s_push_layer-IsValid h n v fits = omega arith

pub s_realloc-IsValid : {s : Stream} (n : ℕ) → IsValid s → n < 2 ^ 32 → IsValid (s_realloc s n)
unfolding s_realloc
s_realloc-IsValid {s} n v h = ground (
  arith,
  length-append s.buf (replicate (n - length s.buf) 0),
  length-replicate (n - length s.buf) zero_byte,
)

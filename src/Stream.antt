-- ===== src/Stream.antt =====
-- stream.h and stream.c: the buffer in which every PDU is built and parsed.
-- A pointer into the buffer is its offset from `data`. Fresh memory is taken to hold zeros, and an
-- allocation succeeds (xmalloc ends the process otherwise).
pub mod Valid
pub mod Read
pub mod Write
pub mod Puts
pub mod Replace
pub mod RoundTrip
pub mod Text
mod Tests
use rdesktop.Common.{ℕ, zero, suc, ◌+◌, ◌-◌, ◌*◌, ◌/◌, ◌%◌, ◌^◌, Bool, true, false, ◌&&◌}
use rdesktop.Common.{Option, none, some, List, [], ◌∷◌, ◌++◌, ltb, leb, ◌==◌, if◌then◌else◌}
use rdesktop.Common.{Result, ok, exit, protocol_error, write_overrun, undefined, ◌>>=◌, ◌>>◌, guard}
use rdesktop.Common.{length, take, drop, replicate, u32, u64}

-- The headers whose offsets a stream keeps.
pub data Layer : Type 0 where
  iso_hdr mcs_hdr sec_hdr rdp_hdr channel_hdr : Layer

abbrev pub layer_eq : Layer → Layer → Bool
layer_eq iso_hdr iso_hdr = true
layer_eq mcs_hdr mcs_hdr = true
layer_eq sec_hdr sec_hdr = true
layer_eq rdp_hdr rdp_hdr = true
layer_eq channel_hdr channel_hdr = true
layer_eq _ _ = false

-- `struct stream`. `buf` is the block at `data`; a header is `none` where the pointer is NULL.
pub record Stream : Type 0 where
  pub buf : List ℕ
  pub p : ℕ
  pub end : ℕ
  pub size : ℕ
  pub hdr : Layer → Option ℕ

-- After `s_realloc` of a zeroed struct every pointer is `data`.
unfoldable pub s_alloc : ℕ → Stream
s_alloc size = record { buf = replicate size 0; p = 0; end = 0; size = size; hdr = λ _. some 0 }

unfoldable pub s_realloc : Stream → ℕ → Stream
s_realloc s size =
    if leb size s.size
    then s
    else record s { buf = s.buf ++ replicate (size - length s.buf) 0; size = size }

unfoldable pub s_reset : Stream → Stream
s_reset s = record s { p = 0; end = 0; hdr = λ _. none }

unfoldable pub s_push_layer : Layer → ℕ → Stream → Stream
s_push_layer h n s = record s { hdr = λ k. if layer_eq k h then some s.p else s.hdr k; p = s.p + n }

unfoldable pub s_pop_layer : Layer → Stream → Result Stream
s_pop_layer h s = elim (s.hdr h) [ none ↦ exit undefined | some o ↦ ok (record s { p = o }) ]

unfoldable pub s_mark_end : Stream → Stream
s_mark_end s = record s { end = s.p }

abbrev pub s_remaining : Stream → ℕ
s_remaining s = u64 (s.end + 2 ^ 64 - s.p)

unfoldable pub s_check_rem : Stream → ℕ → Bool
s_check_rem s n = leb s.p s.end && leb n (s_remaining s)

unfoldable pub s_check_end : Stream → Bool
s_check_end s = s.p == s.end

abbrev pub s_length : Stream → ℕ
s_length s = s.end

-- The subtraction is of `size_t`, and wraps.
abbrev pub s_left : Stream → ℕ
s_left s = u64 (s.size + 2 ^ 64 - s.p)

abbrev pub s_assert_r : Stream → ℕ → Result (Unit {0})
s_assert_r s n = guard (s_check_rem s n) protocol_error

abbrev pub s_assert_w : Stream → ℕ → Result (Unit {0})
s_assert_w s n = if ltb (s_left s) n then exit write_overrun else ok tt

-- The assertion is made with the pointer at `data`.
unfoldable pub s_seek : Stream → ℕ → Result Stream
unfolding s_check_rem
s_seek s o = do let s0 = record s { p = 0 }; s_assert_r s0 o; ok (record s0 { p = o })

-- `memcpy(v, s->p, n)`, `s->p += n`.
unfoldable pub peek : Stream → ℕ → Result (List ℕ × Stream)
peek s n =
    if leb (s.p + n) (length s.buf)
    then ok (take n (drop s.p s.buf), record s { p = s.p + n })
    else exit undefined

-- `memcpy(s->p, v, n)`, `s->p += n`.
unfoldable pub poke : Stream → List ℕ → Result Stream
poke s bs =
    if leb (s.p + length bs) (length s.buf)
    then ok (record s {
      buf = take s.p s.buf ++ (bs ++ drop (s.p + length bs) s.buf);
      p = s.p + length bs;
    })
    else exit undefined

-- The byte forms of an integer: `n` bytes, lowest first.
abbrev pub le_bytes : ℕ → ℕ → List ℕ
le_bytes zero v = []
le_bytes (suc n) v = (v % 256) ∷ le_bytes n (v / 256)

abbrev pub le_value : List ℕ → ℕ
le_value [] = 0
le_value (b ∷ bs) = b + 256 * le_value bs

abbrev pub be16 : ℕ → List ℕ
be16 v = (v / 256 % 256) ∷ (v % 256) ∷ []

-- The readers.
unfoldable pub in_uint8a : Stream → ℕ → Result (List ℕ × Stream)
in_uint8a s n = do s_assert_r s n; peek s n

unfoldable pub in_uint8s : Stream → ℕ → Result Stream
in_uint8s s n = do s_assert_r s n; ok (record s { p = s.p + n })

-- The bytes under the one pointer that the assertion covers, as a number.
in_le : ℕ → Stream → Result (ℕ × Stream)
unfolding in_uint8a
in_le n s = do (bs, s') ← in_uint8a s n; ok (le_value bs, s')

unfoldable pub in_uint8 : Stream → Result (ℕ × Stream)
unfolding in_le
in_uint8 s = in_le 1 s

unfoldable pub in_uint16_le : Stream → Result (ℕ × Stream)
unfolding in_le
in_uint16_le s = in_le 2 s

unfoldable pub in_uint32_le : Stream → Result (ℕ × Stream)
unfolding in_le
in_uint32_le s = in_le 4 s

-- `v = (v << 8) + *p++`, of a 32-bit `v`.
unfoldable pub next_be : Stream → ℕ → Result (ℕ × Stream)
next_be s v = do (b, s') ← in_uint8 s; ok (u32 (v * 256 + b), s')

unfoldable pub in_uint16_be : Stream → Result (ℕ × Stream)
in_uint16_be s = do s_assert_r s 2; (v, s') ← in_uint8 s; next_be s' v

unfoldable pub in_uint32_be : Stream → Result (ℕ × Stream)
in_uint32_be s = do s_assert_r s 4; (v, s1) ← in_uint16_be s; (w, s2) ← next_be s1 v; next_be s2 w

-- The writers.
unfoldable pub out_uint8a : Stream → List ℕ → Result Stream
out_uint8a s bs = do s_assert_w s (length bs); poke s bs

unfoldable pub out_uint8 : Stream → ℕ → Result Stream
out_uint8 s v = out_uint8a s (le_bytes 1 v)

unfoldable pub out_uint16_le : Stream → ℕ → Result Stream
out_uint16_le s v = out_uint8a s (le_bytes 2 v)

unfoldable pub out_uint32_le : Stream → ℕ → Result Stream
out_uint32_le s v = out_uint8a s (le_bytes 4 v)

unfoldable pub out_uint16_be : Stream → ℕ → Result Stream
out_uint16_be s v = out_uint8a s (be16 v)

unfoldable pub out_uint32_be : Stream → ℕ → Result Stream
out_uint32_be s v = do
  s_assert_w s 4
  s1 ← out_uint16_be s (v / 2 ^ 16)
  out_uint16_be s1 (v % 2 ^ 16)

unfoldable pub out_uint8s : Stream → ℕ → Result Stream
out_uint8s s n = out_uint8a s (replicate n 0)

-- `n` bytes of `v` are read from its `p`, and written to `s`: the two streams after it, `s` first.
unfoldable pub out_uint8stream : Stream → Stream → ℕ → Result (Stream × Stream)
out_uint8stream s v n = do s_assert_r v n; (bs, v') ← peek v n; s' ← out_uint8a s bs; ok (s', v')

unfoldable pub out_stream : Stream → Stream → Result Stream
out_stream s v =
    if leb v.end (length v.buf) then out_uint8a s (take v.end v.buf) else exit undefined

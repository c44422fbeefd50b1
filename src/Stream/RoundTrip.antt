-- ===== src/Stream/RoundTrip.antt =====
-- What a writer put into a stream, the reader of the same name gets back.
use rdesktop.Common.{ℕ, ◌+◌, ◌/◌, ◌%◌, ◌^◌, ◌<◌, ◌≡◌, [], ok}
use mathlib.Core.List.{append-nil}
use rdesktop.Stream.{Stream, in_uint32_le, out_uint32_le, in_uint32_be, out_uint32_be, s_seek}
use rdesktop.Stream.{s_mark_end, le_bytes, be16}
use rdesktop.Stream.Read.{Reads, advance, in_uint32_le-append, in_uint32_be-append}
use rdesktop.Stream.Write.{Writes, put, out_uint8a-Writes, out_uint32_be-put, mark_end-seek-Reads}

-- A 32-bit integer written where it fits, ended and sought, is read back, in both byte orders, and
-- nothing is left.
pub uint32-round_trip :
    {s : Stream} (v n : ℕ)
    → v < 2 ^ 32
    → Writes s [] (4 + n)
    → ((t u w : Stream) × (out_uint32_le s v ≡ ok t)
        × (s_seek (s_mark_end t) 0 ≡ ok u)
        × (in_uint32_le u ≡ ok (v, w))
        × Reads w [])
      × ((t u w : Stream) × (out_uint32_be s v ≡ ok t)
          × (s_seek (s_mark_end t) 0 ≡ ok u)
          × (in_uint32_be u ≡ ok (v, w))
          × Reads w [])
uint32-round_trip {s} v n small w = (little, big)
  where
    little :
        (t u w : Stream) × (out_uint32_le s v ≡ ok t)
        × (s_seek (s_mark_end t) 0 ≡ ok u)
        × (in_uint32_le u ≡ ok (v, w))
        × Reads w []
    little =
        let wrote = out_uint8a-Writes (le_bytes 4 v) {n = n} w in
        let back = mark_end-seek-Reads wrote.1 in
        let got =
          in_uint32_le-append {xs = []} v small (rw (← append-nil (le_bytes 4 v)) at back.1) in
        (
          put s (le_bytes 4 v),
          record (s_mark_end (put s (le_bytes 4 v))) { p = 0 },
          advance (record (s_mark_end (put s (le_bytes 4 v))) { p = 0 }) 4,
          unfold out_uint32_le in wrote.0,
          back.0,
          got.0,
          got.1,
        )

    big :
        (t u w : Stream) × (out_uint32_be s v ≡ ok t)
        × (s_seek (s_mark_end t) 0 ≡ ok u)
        × (in_uint32_be u ≡ ok (v, w))
        × Reads w []
    big =
        let wrote = out_uint32_be-put v {n = n} w in
        let back = mark_end-seek-Reads wrote.1 in
        let got = in_uint32_be-append {xs = []} v small back.1 in
        (
          put (put s (be16 (v / 2 ^ 16))) (be16 (v % 2 ^ 16)),
          record (s_mark_end (put (put s (be16 (v / 2 ^ 16))) (be16 (v % 2 ^ 16)))) { p = 0 },
          got.0,
          wrote.0,
          back.0,
          got.1,
          got.2,
        )

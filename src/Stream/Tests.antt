-- ===== src/Stream/Tests.antt =====
-- Runs of the stream operations, and the theorems at concrete streams.
use rdesktop.Common.{ℕ, ◌-◌, ◌<◌, ◌≡◌, ◌⊎◌, refl, List, [], ◌∷◌, ◌++◌, none, arith, ok}
use rdesktop.Common.{exit, protocol_error, write_overrun, leb, length, take, if◌then◌else◌}
use rdesktop.Stream.{Stream, s_alloc, in_uint8a, out_uint8a, in_uint32_le, out_uint32_le}
use rdesktop.Stream.{in_uint32_be, out_uint32_be, s_seek, s_mark_end, peek, s_check_rem}
use rdesktop.Stream.Valid.{IsValid, written}
use rdesktop.Stream.Read.{Reads, advance, in_uint8a_lem}
use rdesktop.Stream.Write.{put, out_uint8a_lem, s_alloc-Writes}
use rdesktop.Stream.RoundTrip.{uint32-round_trip}
use rdesktop.Stream.Text.{in_ansi_string, in_ansi_string-unterminated}

-- "dvc" and its terminator, and two bytes after it.
abbrev named : Stream
named = record {
  buf = 0x64 ∷ 0x76 ∷ 0x63 ∷ 0 ∷ 7 ∷ 8 ∷ [];
  p = 0;
  end = 6;
  size = 6;
  hdr = λ _. none;
}

named-Reads : Reads named (0x64 ∷ 0x76 ∷ 0x63 ∷ 0 ∷ 7 ∷ 8 ∷ [])
named-Reads = record { valid = omega arith; inside = omega arith; rest = refl }

two_then_seven :
    (in_uint8a named 2 ≡ ok (0x64 ∷ 0x76 ∷ [], advance named 2))
    × (in_uint8a named 7 ≡ exit protocol_error)
unfolding in_uint8a peek s_check_rem
two_then_seven = (refl, refl)

full : (out_uint8a named (1 ∷ 2 ∷ 3 ∷ 4 ∷ 5 ∷ 6 ∷ 7 ∷ []) ≡ exit write_overrun)
unfolding out_uint8a
full = refl

in_uint8a_lem_example : in_uint8a named 2 ≡ (
    if leb 2 6
    then ok (take 2 (0x64 ∷ 0x76 ∷ 0x63 ∷ 0 ∷ 7 ∷ 8 ∷ []), advance named 2)
    else exit protocol_error)
in_uint8a_lem_example = in_uint8a_lem 2 named-Reads

abbrev two : List ℕ
two = 1 ∷ 2 ∷ []

named-IsValid : IsValid named
named-IsValid = omega arith

out_uint8a_lem_example :
    (out_uint8a named two ≡ ok (put named two))
    × ((named.size - named.p < length two)
        ⊎ (IsValid (put named two) × (written (put named two) ≡ written named ++ two)))
out_uint8a_lem_example = out_uint8a_lem two named-IsValid

uint32-round_trip_example :
    ((t u w : Stream) × (out_uint32_le (s_alloc 4) 0xdeadbeef ≡ ok t)
      × (s_seek (s_mark_end t) 0 ≡ ok u)
      × (in_uint32_le u ≡ ok (0xdeadbeef, w))
      × Reads w [])
    × ((t u w : Stream) × (out_uint32_be (s_alloc 4) 0xdeadbeef ≡ ok t)
        × (s_seek (s_mark_end t) 0 ≡ ok u)
        × (in_uint32_be u ≡ ok (0xdeadbeef, w))
        × Reads w [])
uint32-round_trip_example =
    uint32-round_trip 0xdeadbeef 0 (omega arith) (s_alloc-Writes 4 (omega arith))

in_ansi_string-unterminated_example :
    (s' : Stream) × (in_ansi_string named 4 ≡ ok (4, 0x64 ∷ 0x76 ∷ 0x63 ∷ [], s'))
    × Reads s' (0 ∷ 7 ∷ 8 ∷ [])
in_ansi_string-unterminated_example =
    in_ansi_string-unterminated (0x64 ∷ 0x76 ∷ 0x63 ∷ []) (0 ∷ 7 ∷ 8 ∷ []) (omega arith)
      (omega arith) named-Reads

-- ===== src/Ber/Tests.antt =====
-- Headers at concrete tags and lengths.
use rdesktop.Common.{ℕ, ◌≡◌, ◌⊎◌, refl, List, [], ◌∷◌, none, arith, Bool, true, ok}
use rdesktop.Stream.{Stream, s_alloc, s_seek, s_mark_end}
use rdesktop.Stream.Read.{Reads}
use rdesktop.Stream.Write.{s_alloc-Writes}
use rdesktop.Ber.{ber_out_header, ber_parse_header}
use rdesktop.Ber.Header.{parse_header-out_header}
use rdesktop.Ber.Total.{parse_header_total}

-- The header of an octet string of 300 bytes.
abbrev octets : Stream
octets = record { buf = 4 ∷ 0x82 ∷ 1 ∷ 0x2c ∷ []; p = 0; end = 4; size = 4; hdr = λ _. none }

octets-Reads : Reads octets (4 ∷ 0x82 ∷ 1 ∷ 0x2c ∷ [])
octets-Reads = record { valid = omega arith; inside = omega arith; rest = refl }

parse_header-out_header_example :
    (t u v : Stream) × (ber_out_header (s_alloc 10) 0x7f65 300 ≡ ok t)
    × (s_seek (s_mark_end t) 0 ≡ ok u)
    × (ber_parse_header u 0x7f65 77 ≡ ok (true, 300, v))
    × Reads v []
parse_header-out_header_example =
    parse_header-out_header 0x7f65 300 77 5 (omega arith) (omega arith)
      (s_alloc-Writes 10 (omega arith))

parse_header_total_example :
    (verdict : Bool) × (len : ℕ) × (t : Stream) × (ys : List ℕ) × (ber_parse_header octets 0x30 9
      ≡ ok (verdict, len, t))
    × ((verdict ≡ true) ⊎ (len ≡ 9))
    × Reads t ys
parse_header_total_example =
    parse_header_total 0x30 9 (4 ∷ 0x82 ∷ 1 ∷ 0x2c ∷ []) (omega arith) octets-Reads

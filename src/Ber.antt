-- ===== src/Ber.antt =====
-- The BER part of asn.c: the headers that MCS, CredSSP and licensing exchange.
-- A length returned through a pointer is an argument, its value before the call, and a result.
pub mod Header
pub mod Total
mod Tests
use rdesktop.Common.{ℕ, zero, suc, ◌-◌, ◌%◌, ◌^◌, Bool, true, false, not, ◌==◌, ltb, leb, has_bit}
use rdesktop.Common.{Option, none, some, if◌then◌else◌, Result, ok, exit, ◌>>=◌, ◌>>◌, bit_and}
use rdesktop.Stream.{Stream, s_check_rem, in_uint8, in_uint16_be, next_be, out_uint8, out_uint16_be}
use rdesktop.Stream.{out_stream, s_length}

abbrev pub tag_boolean : ℕ
tag_boolean = 1

abbrev pub tag_integer : ℕ
tag_integer = 2

abbrev pub tag_octet_string : ℕ
tag_octet_string = 4

abbrev pub tag_result : ℕ
tag_result = 10

-- `BER_TAG_SEQUENCE | BER_TAG_CONSTRUCTED`
abbrev pub tag_sequence : ℕ
tag_sequence = 0x30

-- `while (len--) next_be(s, *length);`
length_loop : ℕ → Stream → ℕ → Result (ℕ × Stream)
length_loop zero s value = ok (value, s)
length_loop (suc len) s value = do (v, s') ← next_be s value; length_loop len s' v

-- The length of the header whose tag has been read and found right.
parse_length : Stream → ℕ → Result (Bool × ℕ × Stream)
unfolding length_loop
parse_length s before = if not (s_check_rem s 1) then ok (false, before, s) else do
  (len, s1) ← in_uint8 s
  let n = bit_and len 0xffffff7f
  if has_bit len 0x80
      then (if not (s_check_rem s1 n)
          then ok (false, before, s1)
          else (do (value, s2) ← length_loop n s1 0; ok (true, value, s2)))
      else ok (true, len, s1)

-- The tag, if the bytes of one are there.
parse_tag : Stream → ℕ → Result (Option ℕ × Stream)
parse_tag s tagval =
    if ltb 0xff tagval
    then (if not (s_check_rem s 2)
        then ok (none, s)
        else (do (tag, s1) ← in_uint16_be s; ok (some tag, s1)))
    else (if not (s_check_rem s 1)
        then ok (none, s)
        else (do (tag, s1) ← in_uint8 s; ok (some tag, s1)))

-- Whether the header was as expected, the length, and the stream.
unfoldable pub ber_parse_header : Stream → ℕ → ℕ → Result (Bool × ℕ × Stream)
unfolding parse_tag parse_length
ber_parse_header s tagval before = do
  (found, s1) ← parse_tag s tagval
  elim found [
    | none ↦ ok (false, before, s1)
    | some tag ↦ if tag == tagval then parse_length s1 before else ok (false, before, s1)
  ]

unfoldable pub ber_out_header : Stream → ℕ → ℕ → Result Stream
ber_out_header s tagval len = do
  s1 ← if ltb 0xff tagval then out_uint16_be s tagval else out_uint8 s tagval
  if leb 0x80 len then (do s2 ← out_uint8 s1 0x82; out_uint16_be s2 len) else out_uint8 s1 len

unfoldable pub ber_out_integer : Stream → ℕ → Result Stream
unfolding ber_out_header
ber_out_integer s value = do s1 ← ber_out_header s tag_integer 2; out_uint16_be s1 value

unfoldable pub ber_out_sequence : Stream → Option Stream → Result Stream
unfolding ber_out_header
ber_out_sequence s none = ber_out_header s tag_sequence 0
ber_out_sequence s (some content) = do
  s1 ← ber_out_header s tag_sequence (s_length content)
  out_stream s1 content

-- Whether the length has a form that is understood, the tag, the length, and the stream.
unfoldable pub ber_in_header : Stream → Result (Bool × ℕ × ℕ × Stream)
ber_in_header s = do
  (tag, s1) ← in_uint8 s
  (len, s2) ← in_uint8 s1
  if ltb len 0x80
      then ok (true, tag, len, s2)
      else (if len == 0x81
          then (do (long, s3) ← in_uint8 s2; ok (true, tag, long, s3))
          else (if len == 0x82
              then (do (long, s3) ← in_uint16_be s2; ok (true, tag, long, s3))
              else ok (false, tag, len, s2)))

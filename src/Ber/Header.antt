-- ===== src/Ber/Header.antt =====
-- What `ber_out_header` writes is what `ber_parse_header` and `ber_in_header` read back.
use rdesktop.Common.{ℕ, ◌+◌, ◌*◌, ◌/◌, ◌%◌, ◌^◌, ◌<◌, ◌≡◌, refl}
use rdesktop.Common.{List, [], ◌∷◌, ◌++◌, arith, true, ltb, leb, if◌then◌else◌}
use rdesktop.Common.{ok, ◌>>=◌, length, u32, has_top_bit}
use rdesktop.Common.{le→ltb, ==_iff, Bool-cases, inl, inr}
use rdesktop.Stream.{Stream, out_uint8, out_uint16_be, be16, le_bytes}
use rdesktop.Stream.{s_seek, s_mark_end}
use rdesktop.Stream.Read.{Reads, advance, in_uint8-cons, in_uint16_be-cons, next_be-cons}
use rdesktop.Stream.Read.{check_rem-Reads}
use rdesktop.Stream.Write.{Writes, put, out_uint8a-Writes, mark_end-seek-Reads}
use rdesktop.Ber.{ber_out_header, ber_parse_header, ber_in_header, parse_tag, parse_length}
use rdesktop.Ber.{length_loop}
use rdesktop.Stream.Write.{Writes-le}
use rdesktop.Common.{length-append, some}
use mathlib.Core.List.{append_assoc, append-nil}

-- The bytes of a header.
abbrev pub tag_bytes : ℕ → List ℕ
tag_bytes tagval = if ltb 0xff tagval then be16 tagval else le_bytes 1 tagval

abbrev pub length_bytes : ℕ → List ℕ
length_bytes len = if leb 0x80 len then 0x82 ∷ be16 len else le_bytes 1 len

tag-Writes :
    {s : Stream} {ws : List ℕ} (tagval : ℕ) {n : ℕ}
    → Writes s ws (length (tag_bytes tagval) + n)
    → (t : Stream) × ((if ltb 0xff tagval then out_uint16_be s tagval else out_uint8 s tagval)
        ≡ ok t)
      × Writes t (ws ++ tag_bytes tagval) n
unfolding out_uint16_be out_uint8
tag-Writes {s} {ws} tagval {n} w = elim (Bool-cases (ltb 0xff tagval)) [
  | inl wide ↦
      let step = out_uint8a-Writes (be16 tagval) {n = n} (rw wide at w) in
      (put s (be16 tagval), rw wide step.0, rw wide step.1)
  | inr narrow ↦
      let step = out_uint8a-Writes (le_bytes 1 tagval) {n = n} (rw narrow at w) in
      (put s (le_bytes 1 tagval), rw narrow step.0, rw narrow step.1)
]

length-Writes :
    {s : Stream} {ws : List ℕ} (len : ℕ) {n : ℕ}
    → Writes s ws (length (length_bytes len) + n)
    → (t : Stream) × ((if leb 0x80 len
          then (do s2 ← out_uint8 s 0x82; out_uint16_be s2 len)
          else out_uint8 s len)
        ≡ ok t)
      × Writes t (ws ++ length_bytes len) n
unfolding out_uint16_be out_uint8
length-Writes {s} {ws} len {n} w = elim (Bool-cases (leb 0x80 len)) [
  | inl long ↦
      let w' = rw long at w in
      let mark =
        out_uint8a-Writes (le_bytes 1 0x82) {n = 2 + n}
          (Writes-le (1 + (2 + n)) w' (omega arith)) in
      let step = out_uint8a-Writes (be16 len) {n = n} mark.1 in
      (
        put (put s (le_bytes 1 0x82)) (be16 len),
        rw long (rw mark.0 step.0),
        rw long (rw (append_assoc ws (le_bytes 1 0x82) (be16 len)) at step.1),
      )
  | inr short ↦
      let step = out_uint8a-Writes (le_bytes 1 len) {n = n} (rw short at w) in
      (put s (le_bytes 1 len), rw short step.0, rw short step.1)
]

abbrev pub header_bytes : ℕ → ℕ → List ℕ
header_bytes tagval len = tag_bytes tagval ++ length_bytes len

pub out_header-Writes :
    {s : Stream} {ws : List ℕ} (tagval len : ℕ) {n : ℕ}
    → Writes s ws (length (header_bytes tagval len) + n)
    → (t : Stream) × (ber_out_header s tagval len ≡ ok t)
      × Writes t (ws ++ header_bytes tagval len) n
unfolding ber_out_header
out_header-Writes {s} {ws} tagval len {n} w =
    let sum : length (header_bytes tagval len)
        ≡ length (tag_bytes tagval) + length (length_bytes len) =
      length-append (tag_bytes tagval) (length_bytes len) in
    let (t, tagged, wt) =
      tag-Writes tagval {n = length (length_bytes len) + n} (Writes-le _ w (omega (arith, sum))) in
    let (u, done, wu) = length-Writes len {n = n} wt in
    (u, rw tagged done, rw (append_assoc ws (tag_bytes tagval) (length_bytes len)) at wu)

parse_tag-bytes :
    {s : Stream} (tagval : ℕ) {xs : List ℕ}
    → tagval < 2 ^ 16
    → Reads s (tag_bytes tagval ++ xs)
    → (t : Stream) × (parse_tag s tagval ≡ ok (some tagval, t)) × Reads t xs
unfolding parse_tag
parse_tag-bytes {s} tagval h r = elim (Bool-cases (ltb 0xff tagval)) [
  | inl wide ↦
      let r' = rw wide at r in
      let got =
        in_uint16_be-cons (tagval / 256 % 256) (tagval % 256) (omega arith) (omega arith) r' in
      (advance (advance s 1) 1, ground (arith, check_rem-Reads 2 r', got.0), got.1)
  | inr narrow ↦
      let r' = rw narrow at r in
      let got = in_uint8-cons (tagval % 256) r' in
      (advance s 1, ground (arith, check_rem-Reads 1 r', got.0), got.1)
]

parse_length-bytes :
    {s : Stream} (len before : ℕ) {xs : List ℕ}
    → len < 2 ^ 16
    → Reads s (length_bytes len ++ xs)
    → (t : Stream) × (parse_length s before ≡ ok (true, len, t)) × Reads t xs
unfolding parse_length length_loop
parse_length-bytes {s} len before h r = elim (Bool-cases (leb 0x80 len)) [
  | inl long ↦
      let r' = rw long at r in
      let mark = in_uint8-cons 0x82 r' in
      let high = next_be-cons 0 (len / 256 % 256) mark.1 in
      let low = next_be-cons (u32 (0 * 256 + len / 256 % 256)) (len % 256) high.1 in
      (
        advance (advance (advance s 1) 1) 1,
        ground (arith, check_rem-Reads 1 r', check_rem-Reads 2 mark.1, mark.0, high.0, low.0),
        low.1,
      )
  | inr short ↦
      let r' = rw short at r in
      let got = in_uint8-cons (len % 256) r' in
      (
        advance s 1,
        ground (arith, check_rem-Reads 1 r', got.0, has_top_bit (len % 256) (omega arith)),
        got.1,
      )
]

pub parse_header-bytes :
    {s : Stream} (tagval len before : ℕ) {xs : List ℕ}
    → tagval < 2 ^ 16
    → len < 2 ^ 16
    → Reads s (header_bytes tagval len ++ xs)
    → (t : Stream) × (ber_parse_header s tagval before ≡ ok (true, len, t)) × Reads t xs
unfolding ber_parse_header
parse_header-bytes {s} tagval len before {xs} ht hl r =
    let r' = rw (append_assoc (tag_bytes tagval) (length_bytes len) xs) at r in
    let (t, tagged, rt) = parse_tag-bytes tagval ht r' in
    let (u, done, ru) = parse_length-bytes len before hl rt in
    (u, rw (tagged, (==_iff tagval tagval).1 refl) done, ru)

-- A header written where it fits, for a tag and a length below 2^16, ended and sought from the
-- start of the stream, is parsed as that header, whatever the length held before, and leaves
-- nothing to read.
pub parse_header-out_header :
    {s : Stream} (tagval len before n : ℕ)
    → tagval < 2 ^ 16
    → len < 2 ^ 16
    → Writes s [] (length (header_bytes tagval len) + n)
    → (t u v : Stream) × (ber_out_header s tagval len ≡ ok t)
      × (s_seek (s_mark_end t) 0 ≡ ok u)
      × (ber_parse_header u tagval before ≡ ok (true, len, v))
      × Reads v []
parse_header-out_header tagval len before n ht hl w =
    let (t, wrote, wt) = out_header-Writes tagval len {n = n} w in
    let back = mark_end-seek-Reads wt in
    let (v, parsed, rv) =
      parse_header-bytes tagval len before ht hl
        (rw (← append-nil (header_bytes tagval len)) at back.1) in
    (t, record (s_mark_end t) { p = 0 }, v, wrote, back.0, parsed, rv)

-- `ber_in_header` reads the same headers, for tags of one byte.
pub in_header-bytes :
    {s : Stream} (tagval len : ℕ) {xs : List ℕ}
    → tagval < 256
    → len < 2 ^ 16
    → Reads s (header_bytes tagval len ++ xs)
    → (t : Stream) × (ber_in_header s ≡ ok (true, tagval, len, t)) × Reads t xs
unfolding ber_in_header
in_header-bytes {s} tagval len {xs} ht hl r =
    let r' = rw (append_assoc (tag_bytes tagval) (length_bytes len) xs) at r in
    let r'' = rw (le→ltb 0xff tagval (omega arith)) at r' in
    let tag = in_uint8-cons (tagval % 256) r'' in
    elim (Bool-cases (leb 0x80 len)) [
      | inl long ↦
          let rl = rw long at tag.1 in
          let mark = in_uint8-cons 0x82 rl in
          let value =
            in_uint16_be-cons (len / 256 % 256) (len % 256) (omega arith) (omega arith) mark.1 in
          (
            advance (advance (advance (advance s 1) 1) 1) 1,
            ground (arith, tag.0, mark.0, value.0),
            value.1,
          )
      | inr short ↦
          let rs = rw short at tag.1 in
          let got = in_uint8-cons (len % 256) rs in
          (advance (advance s 1) 1, ground (arith, tag.0, got.0), got.1)
    ]

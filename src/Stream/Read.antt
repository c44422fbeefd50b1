-- ===== src/Stream/Read.antt =====
-- The readers on a valid stream are parsers of the list of bytes not yet read.
use rdesktop.Common.{ℕ, ◌+◌, ◌-◌, ◌*◌, ◌/◌, ◌%◌, ◌^◌, ◌≤◌, ◌<◌, ◌≡◌, refl, sym, ◌∙◌}
use rdesktop.Common.{ap, List, [], ◌∷◌, ◌++◌, arith, leb, le→leb, lt→leb}
use rdesktop.Common.{ok, exit, protocol_error, u32, if◌then◌else◌}
use rdesktop.Common.{length, take, drop, length-append, length-take, length-drop, take-take}
use rdesktop.Common.{take-append_self, drop-append_self, drop-take, drop-drop, take_cong}
use rdesktop.Stream.{Stream, peek, s_check_rem, in_uint8a, in_uint8s, in_uint8, in_uint16_le}
use rdesktop.Stream.{in_uint32_le, next_be, in_uint16_be, in_uint32_be, le_value, le_bytes, be16}
use rdesktop.Stream.{in_le}
use rdesktop.Stream.{s_seek}
use rdesktop.Stream.Valid.{IsValid, unread}
use native.Mathlib.Nat.{add-zero}
use native.Mathlib.Decide.{dec_lt}

-- `s` is valid, and `xs` is what is left to read.
pub record Reads (s : Stream) (xs : List ℕ) : Type 0 where
  pub valid : IsValid s
  pub inside : s.p ≤ s.end
  pub rest : unread s ≡ xs

-- `s` moved on by `n` bytes.
abbrev pub advance : Stream → ℕ → Stream
advance s n = record s { p = s.p + n }

pub length-Reads : {s : Stream} {xs : List ℕ} → Reads s xs → length xs ≡ s.end - s.p
length-Reads {s} {xs} r = omega (
  arith,
  ap length r.rest,
  length-take {0} (s.end - s.p) (drop s.p s.buf),
  length-drop {0} s.p s.buf,
)

pub check_rem-Reads :
    {s : Stream} {xs : List ℕ} (n : ℕ) → Reads s xs → s_check_rem s n ≡ leb n (length xs)
unfolding s_check_rem
check_rem-Reads {s} {xs} n r = ground (arith, length-Reads r)

pub peek-lem :
    {s : Stream} {xs : List ℕ} (n : ℕ)
    → Reads s xs
    → n ≤ length xs
    → peek s n ≡ ok (take n xs, advance s n)
unfolding peek
peek-lem {s} {xs} n r h =
    rw
      (
        le→leb (s.p + n) (length s.buf) (omega (arith, length-Reads r, r.valid.room, r.valid.mark)),
        ← r.rest,
        take-take n (s.end - s.p) (drop s.p s.buf) (omega (arith, length-Reads r)),
      )
      refl

pub advance-Reads :
    {s : Stream} {xs : List ℕ} (n : ℕ)
    → Reads s xs
    → n ≤ length xs
    → Reads (advance s n) (drop n xs)
advance-Reads {s} {xs} n r h = record {
  valid = omega (arith, length-Reads r, r.valid.room, r.valid.mark, r.valid.wide, r.inside);
  inside = omega (arith, length-Reads r, r.inside);
  rest =
      take_cong (s.end - (s.p + n)) (s.end - s.p - n) (drop (s.p + n) s.buf) (omega arith)
      ∙ (ap (take (s.end - s.p - n)) (sym (drop-drop n s.p s.buf))
          ∙ (sym (drop-take n (s.end - s.p) (drop s.p s.buf)) ∙ ap (drop n) r.rest));
}

-- Enough bytes: the first `n` of them, and the stream moves on.
pub in_uint8a-Reads :
    {s : Stream} {xs : List ℕ} (n : ℕ)
    → Reads s xs
    → n ≤ length xs
    → (in_uint8a s n ≡ ok (take n xs, advance s n)) × Reads (advance s n) (drop n xs)
unfolding in_uint8a
in_uint8a-Reads {s} {xs} n r h =
    (rw (check_rem-Reads n r, le→leb n (length xs) h) (peek-lem n r h), advance-Reads n r h)

-- Too few: the session ends with a protocol error, and nothing is read out of range.
pub in_uint8a-short :
    {s : Stream} {xs : List ℕ} (n : ℕ)
    → Reads s xs
    → length xs < n
    → in_uint8a s n ≡ exit protocol_error
unfolding in_uint8a
in_uint8a-short {s} {xs} n r h = rw (check_rem-Reads n r, lt→leb n (length xs) h)

-- The same with the bytes to be read spelled out.
pub in_uint8a-append :
    {s : Stream} (bs xs : List ℕ)
    → Reads s (bs ++ xs)
    → (in_uint8a s (length bs) ≡ ok (bs, advance s (length bs))) × Reads (advance s (length bs)) xs
in_uint8a-append {s} bs xs r =
    let got = in_uint8a-Reads (length bs) r (omega (arith, length-append bs xs)) in
    (rw take-append_self at got.0, rw drop-append_self at got.1)

in_le-append :
    {s : Stream} (bs xs : List ℕ)
    → Reads s (bs ++ xs)
    → in_le (length bs) s ≡ ok (le_value bs, advance s (length bs))
unfolding in_le
in_le-append {s} bs xs r = rw (in_uint8a-append bs xs r).0

in_le-short :
    {s : Stream} {xs : List ℕ} (n : ℕ)
    → Reads s xs
    → length xs < n
    → in_le n s ≡ exit protocol_error
unfolding in_le
in_le-short n r h = rw (in_uint8a-short n r h)

module _ {s : Stream} {xs : List ℕ} where
  pub in_uint8-cons :
      (b : ℕ) → Reads s (b ∷ xs) → (in_uint8 s ≡ ok (b, advance s 1)) × Reads (advance s 1) xs
  unfolding in_uint8
  in_uint8-cons b r = (
    in_le-append (b ∷ []) xs r ∙ ap (λ v. ok (v, advance s 1)) (add-zero b),
    (in_uint8a-append (b ∷ []) xs r).1,
  )

  pub in_uint16_le-cons :
      (a b : ℕ)
      → Reads s (a ∷ b ∷ xs)
      → (in_uint16_le s ≡ ok (a + 256 * b, advance s 2)) × Reads (advance s 2) xs
  unfolding in_uint16_le
  in_uint16_le-cons a b r = (
    in_le-append (a ∷ b ∷ []) xs r ∙ ap (λ v. ok (a + 256 * v, advance s 2)) (add-zero b),
    (in_uint8a-append (a ∷ b ∷ []) xs r).1,
  )

  pub in_uint32_le-append :
      (v : ℕ)
      → v < 2 ^ 32
      → Reads s (le_bytes 4 v ++ xs)
      → (in_uint32_le s ≡ ok (v, advance s 4)) × Reads (advance s 4) xs
  unfolding in_uint32_le
  in_uint32_le-append v small r = (
    in_le-append (le_bytes 4 v) xs r ∙ ap (λ v. ok (v, advance s 4)) (omega arith),
    (in_uint8a-append (le_bytes 4 v) xs r).1,
  )

  pub next_be-cons :
      (v b : ℕ)
      → Reads s (b ∷ xs)
      → (next_be s v ≡ ok (u32 (v * 256 + b), advance s 1)) × Reads (advance s 1) xs
  unfolding next_be
  next_be-cons v b r = (rw (in_uint8-cons b r).0, (in_uint8-cons b r).1)

  pub in_uint8s-Reads :
      (n : ℕ)
      → Reads s xs
      → n ≤ length xs
      → (in_uint8s s n ≡ ok (advance s n)) × Reads (advance s n) (drop n xs)
  unfolding in_uint8s
  in_uint8s-Reads n r h = (rw (check_rem-Reads n r, le→leb n (length xs) h), advance-Reads n r h)

  pub in_uint8s-short : (n : ℕ) → Reads s xs → length xs < n → in_uint8s s n ≡ exit protocol_error
  unfolding in_uint8s
  in_uint8s-short n r h = rw (check_rem-Reads n r, lt→leb n (length xs) h)

module _ {s : Stream} {xs : List ℕ} where
  pub in_uint16_be-cons :
      (a b : ℕ)
      → a < 256
      → b < 256
      → Reads s (a ∷ b ∷ xs)
      → (in_uint16_be s ≡ ok (a * 256 + b, advance (advance s 1) 1))
        × Reads (advance (advance s 1) 1) xs
  unfolding in_uint16_be
  in_uint16_be-cons a b ha hb r =
      let first = in_uint8-cons a r in
      let second = next_be-cons a b first.1 in
      (ground (arith, check_rem-Reads 2 r, first.0, second.0), second.1)

-- Readers on too few bytes.
pub in_uint8-nil : {s : Stream} → Reads s [] → in_uint8 s ≡ exit protocol_error
unfolding in_uint8
in_uint8-nil r = in_le-short 1 r (omega arith)

pub in_uint16_le-short :
    {s : Stream} {xs : List ℕ} → Reads s xs → length xs < 2 → in_uint16_le s ≡ exit protocol_error
unfolding in_uint16_le
in_uint16_le-short r h = in_le-short 2 r h

pub in_uint32_le-short :
    {s : Stream} {xs : List ℕ} → Reads s xs → length xs < 4 → in_uint32_le s ≡ exit protocol_error
unfolding in_uint32_le
in_uint32_le-short r h = in_le-short 4 r h

-- `in_uint8a` on `n` bytes: exactly where as many are left it returns the next `n`, and the stream
-- moves on over them; otherwise the session ends with a protocol error. It reads nothing else.
pub in_uint8a_lem :
    {s : Stream} {xs : List ℕ} (n : ℕ)
    → Reads s xs
    → in_uint8a s n
      ≡ (if leb n (length xs) then ok (take n xs, advance s n) else exit protocol_error)
in_uint8a_lem {s} {xs} n r = elim (dec_lt (length xs) n) [
  | yes h ↦ rw (in_uint8a-short n r h, lt→leb n (length xs) h)
  | no h ↦ rw ((in_uint8a-Reads n r (omega arith)).0, le→leb n (length xs) (omega arith))
]

module _ {s : Stream} {xs : List ℕ} where
  pub in_uint32_be-append :
      (v : ℕ)
      → v < 2 ^ 32
      → Reads s (be16 (v / 2 ^ 16) ++ (be16 (v % 2 ^ 16) ++ xs))
      → (t : Stream) × (in_uint32_be s ≡ ok (v, t)) × Reads t xs
  unfolding in_uint32_be
  in_uint32_be-append v small r =
      let high =
        in_uint16_be-cons (v / 2 ^ 16 / 256 % 256) (v / 2 ^ 16 % 256) (omega arith) (omega arith)
          r in
      let third =
        next_be-cons (v / 2 ^ 16 / 256 % 256 * 256 + v / 2 ^ 16 % 256) (v % 2 ^ 16 / 256 % 256)
          high.1 in
      let last =
        next_be-cons
          (u32 ((v / 2 ^ 16 / 256 % 256 * 256 + v / 2 ^ 16 % 256) * 256 + v % 2 ^ 16 / 256 % 256))
          (v % 2 ^ 16 % 256) third.1 in
      (
        advance (advance (advance (advance s 1) 1) 1) 1,
        ground (arith, check_rem-Reads 4 r, high.0, third.0, last.0),
        last.1,
      )

-- The start can always be sought.
pub seek_start : (s : Stream) → s_seek s 0 ≡ ok (record s { p = 0 })
unfolding s_seek s_check_rem
seek_start s = ground arith

pub rewind-Reads : {s : Stream} → IsValid s → Reads (record s { p = 0 }) (take s.end s.buf)
rewind-Reads {s} v = record {
  valid = record { room = v.room; cursor = omega arith; mark = v.mark; wide = v.wide };
  inside = omega arith;
  rest = take_cong (s.end - 0) s.end s.buf (omega arith);
}

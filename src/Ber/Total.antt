-- ===== src/Ber/Total.antt =====
-- `ber_parse_header` checks before it reads: it answers on every input.
use rdesktop.Common.{ℕ, zero, suc, ◌+◌, ◌%◌, ◌*◌, ◌≤◌, ◌<◌, ◌≡◌, refl, ◌⊎◌, inl, inr, List, [], ◌∷◌}
use rdesktop.Common.{arith, Bool, true, false, ltb, leb, Result, ok, length, u32, drop, All}
use rdesktop.Common.{some, none, Bool-cases, ◌==◌, has_top_bit, clear_top_bit}
use rdesktop.Common.{Option, if◌then◌else◌}
use rdesktop.Stream.{Stream}
use rdesktop.Stream.Read.{Reads, advance, in_uint8-cons, in_uint16_be-cons, next_be-cons}
use rdesktop.Stream.Read.{check_rem-Reads}
use rdesktop.Ber.{ber_parse_header, parse_tag, parse_length, length_loop}

abbrev pub IsBytes : List ℕ → Type 0
IsBytes = All (λ b. b < 256)

-- `m` returns, with a verdict, a length and a stream on which `before` is still the length where
-- the header is refused.
record Answers (before : ℕ) (m : Result (Bool × ℕ × Stream)) : Type 0 where
  verdict : Bool
  len : ℕ
  next : Stream
  left : List ℕ
  returns : m ≡ ok (verdict, len, next)
  kept : (verdict ≡ true) ⊎ (len ≡ before)
  reads : Reads next left

length_loop-total :
    (n value : ℕ) (xs : List ℕ) {s : Stream}
    → Reads s xs
    → n ≤ length xs
    → (v : ℕ) × (t : Stream) × (length_loop n s value ≡ ok (v, t)) × Reads t (drop n xs)
unfolding length_loop
length_loop-total zero value xs {s} r h = (value, s, refl, r)
length_loop-total (suc n) value [] r h = absurd (omega arith)
length_loop-total (suc n) value (x ∷ xs) r h =
    let step = next_be-cons value x r in
    let (v, t, done, rt) = length_loop-total n (u32 (value * 256 + x)) xs step.1 (omega arith) in
    (v, t, rw step.0 done, rt)

parse_length-Answers :
    (before : ℕ) (xs : List ℕ) {s : Stream}
    → IsBytes xs
    → Reads s xs
    → Answers before (parse_length s before)
unfolding parse_length
parse_length-Answers before [] {s} b r = record {
  verdict = false;
  len = before;
  next = s;
  left = [];
  returns = rw (check_rem-Reads 1 r);
  kept = inr refl;
  reads = r;
}
parse_length-Answers before (x ∷ xs) {s} b r =
    let first = in_uint8-cons x r in
    elim (Bool-cases (leb 0x80 x)) [
      | inr short ↦ record {
        verdict = true;
        len = x;
        next = advance s 1;
        left = xs;
        returns = ground (arith, check_rem-Reads 1 r, first.0, has_top_bit x b.0);
        kept = inl refl;
        reads = first.1;
      }
      | inl long ↦ elim (Bool-cases (leb (x % 0x80) (length xs))) [
        | inl enough ↦
            let (v, t, done, rt) = length_loop-total (x % 0x80) 0 xs first.1 (ground arith) in
            record {
              verdict = true;
              len = v;
              next = t;
              left = drop (x % 0x80) xs;
              returns = ground (
                arith,
                check_rem-Reads 1 r,
                first.0,
                has_top_bit x b.0,
                clear_top_bit x b.0,
                check_rem-Reads (x % 0x80) first.1,
                done,
              );
              kept = inl refl;
              reads = rt;
            }
        | inr few ↦ record {
          verdict = false;
          len = before;
          next = advance s 1;
          left = xs;
          returns = ground (
            arith,
            check_rem-Reads 1 r,
            first.0,
            has_top_bit x b.0,
            clear_top_bit x b.0,
            check_rem-Reads (x % 0x80) first.1,
          );
          kept = inr refl;
          reads = first.1;
        }
      ]
    ]

-- What follows the tag, for a tag that was read or not.
after_tag :
    (tagval before : ℕ) (found : Option ℕ) (xs : List ℕ) {s1 : Stream}
    → IsBytes xs
    → Reads s1 xs
    → Answers before (elim found [
      | none ↦ ok (false, before, s1)
      | some tag ↦ if tag == tagval then parse_length s1 before else ok (false, before, s1)
    ])
after_tag tagval before none xs {s1} b r = record {
  verdict = false;
  len = before;
  next = s1;
  left = xs;
  returns = refl;
  kept = inr refl;
  reads = r;
}
after_tag tagval before (some tag) xs {s1} b r = elim (Bool-cases (tag == tagval)) [
  | inl same ↦ rw same (parse_length-Answers before xs b r)
  | inr other ↦ rw other (record {
    verdict = false;
    len = before;
    next = s1;
    left = xs;
    returns = refl;
    kept = inr refl;
    reads = r;
  })
]

parse_tag-total :
    (tagval : ℕ) (xs : List ℕ) {s : Stream}
    → IsBytes xs
    → Reads s xs
    → (found : Option ℕ) × (t : Stream) × (ys : List ℕ) × (parse_tag s tagval ≡ ok (found, t))
      × IsBytes ys
      × Reads t ys
unfolding parse_tag
parse_tag-total tagval [] {s} b r =
    (none, s, [], ground (arith, check_rem-Reads 2 r, check_rem-Reads 1 r), tt, r)
parse_tag-total tagval (x ∷ []) {s} b r = elim (Bool-cases (ltb 0xff tagval)) [
  | inl wide ↦ (none, s, x ∷ [], ground (arith, check_rem-Reads 2 r), b, r)
  | inr narrow ↦
      let first = in_uint8-cons x r in
      (some x, advance s 1, [], ground (arith, check_rem-Reads 1 r, first.0), tt, first.1)
]
parse_tag-total tagval (x ∷ y ∷ xs) {s} b r = elim (Bool-cases (ltb 0xff tagval)) [
  | inl wide ↦
      let both = in_uint16_be-cons x y b.0 b.1.0 r in
      (
        some (x * 256 + y),
        advance (advance s 1) 1,
        xs,
        ground (arith, check_rem-Reads 2 r, both.0),
        b.1.1,
        both.1,
      )
  | inr narrow ↦
      let first = in_uint8-cons x r in
      (some x, advance s 1, y ∷ xs, ground (arith, check_rem-Reads 1 r, first.0), b.1, first.1)
]

-- On any bytes at all the header is accepted or refused: the call returns, with a stream from
-- which reading can go on, and a refusal leaves the caller's length as it was.
pub parse_header_total :
    {s : Stream} (tagval before : ℕ) (xs : List ℕ)
    → IsBytes xs
    → Reads s xs
    → (verdict : Bool) × (len : ℕ) × (t : Stream) × (ys : List ℕ) × (ber_parse_header s tagval
          before
        ≡ ok (verdict, len, t))
      × ((verdict ≡ true) ⊎ (len ≡ before))
      × Reads t ys
unfolding ber_parse_header
parse_header_total {s} tagval before xs b r =
    let (found, t, ys, tagged, bs, rt) = parse_tag-total tagval xs b r in
    let a = after_tag tagval before found ys bs rt in
    (a.verdict, a.len, a.next, a.left, rw tagged a.returns, a.kept, a.reads)

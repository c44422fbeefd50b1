-- ===== src/Mppc/Match.antt =====
-- The offset and the length of a match: what they keep, and the range of the length.
use rdesktop.Common.{
  ℕ, zero, suc, ◌+◌, ◌-◌, ◌*◌, ◌/◌, ◌%◌, ◌^◌, ◌≤◌, ◌<◌, ◌≡◌, refl, arith, ap, ◌∙◌,
}
use rdesktop.Common.{Bool, true, false, List, length, Bool-cases, inl, inr, ◌==◌, if◌then◌else◌}
use rdesktop.Common.{bit_and, bit_or, bit_or_comm, bit_or_fields, bit_and_mask, leb, ltb}
use native.Mathlib.Nat.{pow-suc, one-le-pow, pow-le-pow_right}
use rdesktop.Mppc.{Outcome, go, corrupt, Walk, shift, append, append_until}
use rdesktop.Mppc.{next_bit, is_positive, shift_right, field, offset_big, offset_small, refill}
use rdesktop.Mppc.{length_prefix, long_length, match_length}
use rdesktop.Mppc.Pieces.{Ensures, Ensures-bind, Ensures-map, Keeps, Keeps-refl, Keeps-trans}
use rdesktop.Mppc.Pieces.{shift-Keeps, append-Keeps, append_until-Keeps, next_bit-Keeps}
use rdesktop.Mppc.Pieces.{refill-Keeps}

-- The length of a match that is coded in `bits` bits.
length_value : (bits x : ℕ) → bit_or (bit_and x (2 ^ bits - 1)) (2 ^ bits) ≡ 2 ^ bits + x % 2 ^ bits
length_value bits x = rw bit_and_mask (
    bit_or_comm (x % 2 ^ bits) (2 ^ bits)
    ∙ (ap (λ t. bit_or t (x % 2 ^ bits)) (one_times (2 ^ bits))
        ∙ (bit_or_fields bits 1 (x % 2 ^ bits) (small (2 ^ bits) (one-le-pow bits 2 (omega arith)))
            ∙ ap (λ t. t + x % 2 ^ bits) (times_one (2 ^ bits)))))
  where
    one_times : (t : ℕ) → t ≡ 1 * t
    one_times t = omega arith

    times_one : (t : ℕ) → 1 * t ≡ t
    times_one t = omega arith

    small : (t : ℕ) → 1 ≤ t → x % t < t
    small t h = grind arith

length_value_bounds :
    (bits hi x : ℕ)
    → 2 ≤ bits
    → suc bits ≤ hi
    → (3 ≤ bit_or (bit_and x (2 ^ bits - 1)) (2 ^ bits))
      × (bit_or (bit_and x (2 ^ bits - 1)) (2 ^ bits) < 2 ^ hi)
length_value_bounds bits hi x h k = rw length_value (
    bounds (2 ^ 2) (2 ^ bits) (2 ^ hi) refl (pow-le-pow_right (omega arith) h)
      (pow_double (pow-le-pow_right (omega arith) k)))
  where
    pow_double : 2 ^ suc bits ≤ 2 ^ hi → 2 ^ bits * 2 ≤ 2 ^ hi
    pow_double e = rw (← pow-suc 2 bits) e

    bounds : (f t u : ℕ) → f ≡ 4 → f ≤ t → t * 2 ≤ u → (3 ≤ t + x % t) × (t + x % t < u)
    bounds f t u e a b = (grind arith, grind arith)

module _ (W : Type 0) (old : ℕ → ℕ) (data_ : List ℕ) (clen : ℕ) (fits : clen ≤ length data_) where
  -- `o` goes on from `w` with a number and a walk that keeps.
  abbrev pub Decodes : Walk → Outcome (ℕ × Walk) → Type 0
  Decodes w o = Ensures W old (λ r. Keeps clen w r.1) o

  append_if-Keeps :
      (test : Bool) (w : Walk)
      → w.dict ≡ old
      → Ensures W old (λ w'. Keeps clen w w') (if test then append data_ clen w else go w)
  append_if-Keeps true w same = append-Keeps W old data_ clen fits w same
  append_if-Keeps false w same = Keeps-refl clen w

  field-Keeps :
      (skip n base : ℕ) (w : Walk) → w.dict ≡ old → Decodes w (field data_ clen skip n base w)
  unfolding field
  field-Keeps skip n base w same =
      Ensures-bind W old (λ w'. Keeps clen w w') (λ r. Keeps clen w r.1)
        (append_until data_ clen (skip + n) (skip + n) w) _
        (append_until-Keeps W old data_ clen fits (skip + n) (skip + n) w same)
        (λ a k.
          Keeps-trans k (Keeps-trans (shift-Keeps clen skip a) (shift-Keeps clen n (shift skip a))))

  offset_big-Keeps : (w : Walk) → w.dict ≡ old → Decodes w (offset_big data_ clen w)
  unfolding offset_big
  offset_big-Keeps w same = elim (Bool-cases (w.walker / 2 ^ 29 == 7)) [
    | inl a ↦ rw a (unfold field in field-Keeps 3 6 0 w same)
    | inr a ↦ elim (Bool-cases (w.walker / 2 ^ 29 == 6)) [
      | inl b ↦ rw (a, b) (unfold field in field-Keeps 3 8 64 w same)
      | inr b ↦ elim (Bool-cases (leb 4 (w.walker / 2 ^ 29))) [
        | inl c ↦ rw (a, b, c) (unfold field in field-Keeps 2 11 320 w same)
        | inr c ↦ rw (a, b, c) (unfold field in field-Keeps 1 16 2368 w same)
      ]
    ]
  ]

  offset_small-Keeps : (w : Walk) → w.dict ≡ old → Decodes w (offset_small data_ clen w)
  unfolding offset_small
  offset_small-Keeps w same = elim (Bool-cases (w.walker / 2 ^ 30 == 3)) [
    | inl a ↦ rw a (
        Ensures-bind W old (λ w'. Keeps clen w w') (λ r. Keeps clen w r.1)
          (if ltb w.walker_len 8 then append data_ clen w else go w) _
          (append_if-Keeps (ltb w.walker_len 8) w same)
          (λ a k.
            Keeps-trans k (Keeps-trans (shift-Keeps clen 2 a) (shift-Keeps clen 6 (shift 2 a)))))
    | inr a ↦ elim (Bool-cases (w.walker / 2 ^ 30 == 2)) [
      | inl b ↦ rw (a, b) (unfold field in field-Keeps 2 8 64 w same)
      | inr b ↦
          rw (a, b)
            (Ensures-bind W old (λ w'. Keeps clen w w') (λ r. Keeps clen w r.1)
              (append_until data_ clen 14 14 w) _
              (append_until-Keeps W old data_ clen fits 14 14 w same)
              (λ a k. Keeps-trans k (shift-Keeps clen 14 a)))
    ]
  ]

  pub offset-Keeps :
      (big : Bool) (w : Walk)
      → w.dict ≡ old
      → Decodes w (if big then offset_big data_ clen w else offset_small data_ clen w)
  offset-Keeps true w same = offset_big-Keeps w same
  offset-Keeps false w same = offset_small-Keeps w same

  length_prefix-Keeps :
      (m : ℕ) (w : Walk)
      → w.dict ≡ old
      → Ensures W old (λ r. Keeps clen w r.1 × (0 < r.0) × (r.0 ≤ m)) (length_prefix data_ clen m w)
  unfolding length_prefix
  length_prefix-Keeps zero w same = same
  length_prefix-Keeps (suc m) w same =
      Ensures-bind W old (λ w'. Keeps clen (shift 1 w) w' × (0 < w'.walker_len))
        (λ r. Keeps clen w r.1 × (0 < r.0) × (r.0 ≤ suc m)) (next_bit data_ clen w) _
        (next_bit-Keeps W old data_ clen fits w same)
        (λ a k.
          let whole = Keeps-trans (shift-Keeps clen 1 w) k.0 in
          after a whole (whole.same_dict ∙ same) (length_prefix-Keeps m a (whole.same_dict ∙ same)))
    where
      after :
          (a : Walk)
          → Keeps clen w a
          → a.dict ≡ old
          → Ensures W old
              (λ r. Keeps clen a r.1 × (0 < r.0) × (r.0 ≤ m))
              (length_prefix data_ clen m a)
          → Ensures W old
              (λ r. Keeps clen w r.1 × (0 < r.0) × (r.0 ≤ suc m))
              (elim (is_positive a) [
                | true ↦ go (suc m, a)
                | false ↦ elim (m == 0) [
                  | true ↦ corrupt a.dict
                  | false ↦ length_prefix data_ clen m a
                ]
              ])
      after a k kept rest = elim (Bool-cases (is_positive a)) [
        | inl p ↦ rw p (k, omega arith, omega arith)
        | inr p ↦ elim (Bool-cases (m == 0)) [
          | inl z ↦ rw (p, z) kept
          | inr z ↦
              rw (p, z)
                (Ensures-map W old (λ r. Keeps clen a r.1 × (0 < r.0) × (r.0 ≤ m))
                  (λ r. Keeps clen w r.1 × (0 < r.0) × (r.0 ≤ suc m)) (length_prefix data_ clen m a)
                  rest (λ r j. (Keeps-trans k j.0, j.1, omega (arith, j.2))))
        ]
      ]

  -- The walk keeps, and the length is in the range of the form of the history.
  abbrev pub IsLength : Bool → Walk → ℕ × Walk → Type 0
  IsLength big w r = Keeps clen w r.1 × (3 ≤ r.0) × (r.0 < 2 ^ (if big then 16 else 13))

  long_length-IsLength :
      (big : Bool) (w : Walk)
      → w.dict ≡ old
      → Ensures W old (IsLength big w) (long_length data_ clen big w)
  unfolding long_length
  long_length-IsLength big w same =
      Ensures-bind W old (λ r. Keeps clen w r.1 × (0 < r.0) × (r.0 ≤ (if big then 14 else 11)))
        (IsLength big w) (length_prefix data_ clen (if big then 14 else 11) w) _
        (unfold length_prefix in length_prefix-Keeps (if big then 14 else 11) w same)
        (λ r k.
          Ensures-bind W old (λ w'. Keeps clen (shift 1 r.1) w') (IsLength big w)
            (append_until data_ clen ((if big then 16 else 13) - r.0)
              ((if big then 16 else 13) - r.0) (shift 1 r.1))
            _
            (append_until-Keeps W old data_ clen fits ((if big then 16 else 13) - r.0)
              ((if big then 16 else 13) - r.0) (shift 1 r.1) (unfold shift in k.0.same_dict ∙ same))
            (λ a j.
              let bits = (if big then 16 else 13) - r.0 in
              let range =
                length_value_bounds bits (if big then 16 else 13) (shift_right (32 - bits) a.walker)
                  (low_bits big r.0 k.1 k.2).0 (low_bits big r.0 k.1 k.2).1 in
              (
                Keeps-trans k.0 (
                    Keeps-trans (shift-Keeps clen 1 r.1) (Keeps-trans j (shift-Keeps clen bits a))),
                range.0,
                range.1,
              )))
    where
      low_bits :
          (big : Bool) (m : ℕ)
          → 0 < m
          → m ≤ (if big then 14 else 11)
          → (2 ≤ (if big then 16 else 13) - m)
            × (suc ((if big then 16 else 13) - m) ≤ (if big then 16 else 13))
      low_bits true m h k = omega arith
      low_bits false m h k = omega arith

  pub match_length-IsLength :
      (big : Bool) (w : Walk)
      → w.dict ≡ old
      → Ensures W old (IsLength big w) (match_length data_ clen big w)
  unfolding match_length
  match_length-IsLength big w same =
      Ensures-bind W old (λ w'. Keeps clen w w' × (0 < w'.walker_len)) (IsLength big w)
        (refill data_ clen w) _ (refill-Keeps W old data_ clen fits w same)
        (λ a k. after big a k.0 (k.0.same_dict ∙ same))
    where
      after :
          (big : Bool) (a : Walk)
          → Keeps clen w a
          → a.dict ≡ old
          → Ensures W old
              (IsLength big w)
              (if is_positive a then go (3, shift 1 a) else long_length data_ clen big a)
      after big a k kept = elim (Bool-cases (is_positive a)) [
        | inl p ↦ rw p (Keeps-trans k (shift-Keeps clen 1 a), omega arith, three big)
        | inr p ↦ rw p (
            Ensures-map W old (IsLength big a) (IsLength big w) (long_length data_ clen big a)
              (long_length-IsLength big a kept) (λ r j. (Keeps-trans k j.0, j.1, j.2)))
      ]
        where
          three : (big : Bool) → 3 < 2 ^ (if big then 16 else 13)
          three true = omega arith
          three false = omega arith

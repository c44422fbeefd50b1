-- ===== src/Mppc/Round.antt =====
-- A round spends a bit and extends the output, so the loop ends, inside the history.
use rdesktop.Common.{ℕ, zero, suc, ◌+◌, ◌^◌, ◌≤◌, ◌<◌, ◌≡◌, refl, arith, ap, ◌∙◌}
use rdesktop.Common.{
  Bool, true, false, List, length, Bool-cases, ◌⊎◌, inl, inr, ◌==◌, if◌then◌else◌,
}
use rdesktop.Common.{leb, ltb}
use rdesktop.Mppc.{Outcome, go, finish, corrupt, wild, ◌>>=◌, Walk, shift, append, emit, copy}
use rdesktop.Mppc.{
  dict_size, match_source, literal_low, literal_high, copy_match, copy_tuple, round, fresh,
}
use rdesktop.Mppc.{
  low_byte, high_byte, next_bit, is_positive, offset_big, offset_small, match_length,
}
use rdesktop.Mppc.{loop, End, finished, failed, escaped, out_of_fuel}
use rdesktop.Mppc.Pieces.{Ensures, Ensures-bind, Ensures-map, bits_left, Keeps, Keeps-refl}
use rdesktop.Mppc.Pieces.{Keeps-trans, shift-Keeps, bits_left-shift, append-Keeps, fresh-Keeps}
use rdesktop.Mppc.Pieces.{next_bit-Keeps, append-more}
use rdesktop.Mppc.Match.{offset-Keeps, match_length-IsLength, IsLength}
use rdesktop.Mppc.Copy.{Extends, Extends-refl, Extends-trans, Keeps-Extends, emit-Extends}
use rdesktop.Mppc.Copy.{copy-Extends, match_source_small}

module _ (W : Type 0) (old : ℕ → ℕ) (data_ : List ℕ) (clen : ℕ) (fits : clen ≤ length data_) where
  -- A round from `w` to `w'`.
  abbrev Rounds : Walk → Walk → Type 0
  Rounds w w' = Extends w w' × (bits_left clen w' < bits_left clen w)

  -- `append` where it is needed.
  append_if :
      (test : Bool) (w : Walk)
      → w.dict ≡ old
      → Ensures W old (λ w'. Keeps clen w w') (if test then append data_ clen w else go w)
  append_if true w same = append-Keeps W old data_ clen fits w same
  append_if false w same = Keeps-refl clen w

  append_if-more :
      (test : Bool) (w : Walk)
      → w.dict ≡ old
      → 0 < w.walker_len
      → Ensures W old
          (λ w'. Keeps clen w w' × (0 < w'.walker_len))
          (if test then append data_ clen w else go w)
  append_if-more true w same h = append-more W old data_ clen fits w same
  append_if-more false w same h = (Keeps-refl clen w, h)

  -- A byte is put out of what was filled up, if that has a bit.
  emit-Rounds :
      (byte : ℕ → ℕ) (w a : Walk)
      → Keeps clen w a
      → a.dict ≡ old
      → 0 < a.walker_len
      → Ensures W old (Rounds w) (emit byte a)
  emit-Rounds byte w a k same h =
      Ensures-map W old (Rounds a) (Rounds w) (emit byte a) (emit-Extends W old clen byte a same h)
        (λ w' e. (Keeps-Extends k e.0, omega (arith, e.1, k.bits)))

  literal_low-Rounds :
      (w : Walk)
      → w.dict ≡ old
      → 0 < w.walker_len
      → Ensures W old (Rounds w) (literal_low data_ clen w)
  unfolding literal_low
  literal_low-Rounds w same h =
      Ensures-bind W old (λ w'. Keeps clen w w' × (0 < w'.walker_len)) (Rounds w) _ (emit low_byte)
        (filled (ltb w.walker_len 8) (leb clen w.i) (w.walker == 0))
        (λ a k. unfold emit in emit-Rounds low_byte w a k.0 (k.0.same_dict ∙ same) k.1)
    where
      filled :
          (short out zero_left : Bool)
          → Ensures W old
              (λ w'. Keeps clen w w' × (0 < w'.walker_len))
              (if short
                then (if out
                    then (if zero_left then finish else corrupt w.dict)
                    else append data_ clen w)
                else go w)
      filled false out z = (Keeps-refl clen w, h)
      filled true false z = append-more W old data_ clen fits w same
      filled true true true = tt
      filled true true false = same

  literal_high-Rounds :
      (w : Walk)
      → w.dict ≡ old
      → 0 < w.walker_len
      → Ensures W old (Rounds w) (literal_high data_ clen w)
  unfolding literal_high
  literal_high-Rounds w same h =
      Ensures-bind W old (λ w'. Keeps clen w w' × (0 < w'.walker_len)) (Rounds w) _ (emit high_byte)
        (append_if-more (ltb w.walker_len 8) w same h)
        (λ a k. unfold emit in emit-Rounds high_byte w a k.0 (k.0.same_dict ∙ same) k.1)

  -- The copy of a match, once its offset and its length are known.
  tuple_end :
      (big : Bool) (w : Walk) (match_off : ℕ) (r : ℕ × Walk)
      → (big ≡ false) ⊎ W
      → r.1.dict ≡ old
      → 0 < w.walker_len
      → IsLength W old data_ clen fits big (shift 1 w) r
      → Ensures W old (Rounds w) (copy_match big match_off r.0 r.1)
  unfolding copy_match
  tuple_end big w match_off r src same h k =
      elim (Bool-cases (leb dict_size (r.1.next_offset + r.0))) [
        | inl full ↦ rw full same
        | inr room ↦ rw room (
            Ensures-map W old
              (λ w'.
                Extends r.1 w'
                × (w'.next_offset ≡ r.1.next_offset + r.0)
                × (bits_left clen w' ≡ bits_left clen r.1))
              (Rounds w) (copy r.0 (match_source big r.1.next_offset match_off) r.1)
              (unfold copy in
                copy-Extends W old clen r.0 (match_source big r.1.next_offset match_off) r.1
                  (ground arith) (source big k.2 src))
              (λ w' e. (
                Keeps-Extends (Keeps-trans (shift-Keeps clen 1 w) k.0) e.0,
                omega (arith, e.2, k.0.bits, bits_left-shift clen 1 w (omega arith) h),
              )))
      ]
    where
      source :
          (big : Bool)
          → r.0 < 2 ^ (if big then 16 else 13)
          → (big ≡ false) ⊎ W
          → (match_source big r.1.next_offset match_off + r.0 ≤ dict_size) ⊎ W
      source false small s = inl (omega (arith, match_source_small r.1.next_offset match_off))
      source true small (inl e) = absurd (cc)
      source true small (inr w) = inr w

  copy_tuple-Rounds :
      (big : Bool) (w : Walk)
      → (big ≡ false) ⊎ W
      → w.dict ≡ old
      → 0 < w.walker_len
      → Ensures W old (Rounds w) (copy_tuple data_ clen big w)
  unfolding copy_tuple
  copy_tuple-Rounds big w src same h =
      Ensures-bind W old (λ w'. Keeps clen w0 w') (Rounds w)
        (if ltb w0.walker_len (if big then 3 else 2) then append data_ clen w0 else go w0) _
        (append_if (ltb w0.walker_len (if big then 3 else 2)) w0 (unfold shift in same))
        (λ w1 k1.
          Ensures-bind W old (λ r. Keeps clen w1 r.1) (Rounds w)
            (if big then offset_big data_ clen w1 else offset_small data_ clen w1) _
            (unfold offset_big offset_small in
              offset-Keeps W old data_ clen fits big w1 (k1.same_dict ∙ unfold shift in same))
            (λ o k2.
              Ensures-bind W old (IsLength W old data_ clen fits big o.1) (Rounds w)
                (match_length data_ clen big o.1) _
                (unfold match_length in
                  match_length-IsLength W old data_ clen fits big o.1
                    (k2.same_dict ∙ (k1.same_dict ∙ unfold shift in same)))
                (λ r k3.
                  unfold copy_match in
                  tuple_end big w o.0 r src
                    (k3.0.same_dict ∙ (k2.same_dict ∙ (k1.same_dict ∙ unfold shift in same))) h
                    (Keeps-trans k1 (Keeps-trans k2 k3.0), k3.1, k3.2))))
    where
      w0 : Walk
      w0 = shift 1 w

  -- Past the first test, a round has a bit to spend.
  round_body :
      (big : Bool) (w : Walk)
      → (big ≡ false) ⊎ W
      → w.dict ≡ old
      → 0 < w.walker_len
      → Ensures W old (Rounds w) (
          if is_positive w then literal_low data_ clen w else (do
            w1 ← next_bit data_ clen w
            if is_positive w1 then literal_high data_ clen w1 else copy_tuple data_ clen big w1))
  round_body big w src same h = elim (Bool-cases (is_positive w)) [
    | inl p ↦ rw p (literal_low-Rounds w same h)
    | inr p ↦ rw p (
        Ensures-bind W old (λ w'. Keeps clen (shift 1 w) w' × (0 < w'.walker_len)) (Rounds w)
          (next_bit data_ clen w) _ (next_bit-Keeps W old data_ clen fits w same)
          (λ w1 k.
            let whole = Keeps-trans (shift-Keeps clen 1 w) k.0 in
            second w1 whole (whole.same_dict ∙ same) k.1 (Bool-cases (is_positive w1))))
  ]
    where
      later : (w1 : Walk) → Keeps clen w w1 → (w' : Walk) → Rounds w1 w' → Rounds w w'
      later w1 k w' e = (Keeps-Extends k e.0, omega (arith, e.1, k.bits))

      second :
          (w1 : Walk)
          → Keeps clen w w1
          → w1.dict ≡ old
          → 0 < w1.walker_len
          → (is_positive w1 ≡ true) ⊎ (is_positive w1 ≡ false)
          → Ensures W old
              (Rounds w)
              (if is_positive w1 then literal_high data_ clen w1 else copy_tuple data_ clen big w1)
      second w1 k kept l (inl q) = rw q (
          Ensures-map W old (Rounds w1) (Rounds w) (literal_high data_ clen w1)
            (literal_high-Rounds w1 kept l) (later w1 k))
      second w1 k kept l (inr q) = rw q (
          Ensures-map W old (Rounds w1) (Rounds w) (copy_tuple data_ clen big w1)
            (copy_tuple-Rounds big w1 src kept l) (later w1 k))

  -- The byte that opens a round, if there is one.
  open_round :
      (w : Walk)
      → w.dict ≡ old
      → Ensures W old
          (λ w'. Keeps clen w w' × (0 < w'.walker_len))
          (if w.walker_len == 0
            then (if leb clen w.i then finish else fresh data_ clen w)
            else go w)
  open_round w same = elim (Bool-cases (w.walker_len == 0)) [
    | inl z ↦ elim (Bool-cases (leb clen w.i)) [
      | inl e ↦ rw (z, e) tt
      | inr e ↦ rw (z, e) (fresh-Keeps W old data_ clen fits w same (ground arith))
    ]
    | inr z ↦ rw z (Keeps-refl clen w, ground arith)
  ]

  pub round-Rounds :
      (big : Bool) (w : Walk)
      → (big ≡ false) ⊎ W
      → w.dict ≡ old
      → Ensures W old (Rounds w) (round data_ clen big w)
  unfolding round
  round-Rounds big w src same =
      Ensures-bind W old (λ w'. Keeps clen w w' × (0 < w'.walker_len)) (Rounds w) _ _
        (open_round w same)
        (λ w0 k.
          unfold literal_low next_bit literal_high copy_tuple in
          Ensures-map W old (Rounds w0) (Rounds w) _
            (round_body big w0 src (k.0.same_dict ∙ same) k.1)
            (λ w' e. (Keeps-Extends k.0 e.0, omega (arith, e.1, k.0.bits))))

-- The end of a loop from `w`: within the fuel; and where it is by `break`, the output extends
-- that of `w`, where it is by -1, the history before it stands.
abbrev pub Ends : Type 0 → Walk → End → Type 0
Ends W w (finished w') = Extends w w'
Ends W w (failed dict) = (j : ℕ) → j < w.next_offset → dict j ≡ w.dict j
Ends W w escaped = W
Ends W w out_of_fuel = ⊥

module _ (W : Type 0) (data_ : List ℕ) (clen : ℕ) (fits : clen ≤ length data_) where
  Ends-later : (w w' : Walk) (e : End) → Extends w w' → Ends W w' e → Ends W w e
  Ends-later w w' (finished v) x e = Extends-trans x e
  Ends-later w w' (failed dict) x e = λ j h. e j (omega (arith, x.grows)) ∙ x.outside j (inl h)
  Ends-later w w' escaped x e = e
  Ends-later w w' out_of_fuel x e = e

  pub loop-Ends :
      (big : Bool) (fuel : ℕ) (w : Walk)
      → (big ≡ false) ⊎ W
      → w.next_offset ≤ dict_size
      → bits_left clen w < fuel
      → Ends W w (loop data_ clen big fuel w)
  unfolding loop
  loop-Ends big zero w src h m = absurd (omega arith)
  loop-Ends big (suc fuel) w src h m =
      after (round data_ clen big w) (round-Rounds W w.dict data_ clen fits big w src refl)
        (λ w' r. loop-Ends big fuel w' src (r.0.inside) (omega (arith, r.1)))
    where
      after :
          (o : Outcome Walk)
          → Ensures W w.dict (λ w'. Extends w w' × (bits_left clen w' < bits_left clen w)) o
          → ((w' : Walk)
              → Extends w w' × (bits_left clen w' < bits_left clen w)
              → Ends W w' (loop data_ clen big fuel w'))
          → Ends W w (elim o [
            | go w' ↦ loop data_ clen big fuel w'
            | finish ↦ finished w
            | corrupt history ↦ failed history
            | wild ↦ escaped
          ])
      after (go w') r next = Ends-later w w' _ r.0 (next w' r)
      after finish r next = Extends-refl w h
      after (corrupt history) r next = λ j g. ap (λ f. f j) r
      after wild r next = r

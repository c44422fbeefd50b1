-- ===== src/Mppc/Copy.antt =====
-- The two ways in which a round writes the history: one literal, or the copy of a match.
use rdesktop.Common.{ℕ, zero, suc, ◌+◌, ◌-◌, ◌^◌, ◌≤◌, ◌<◌, ◌≡◌, refl, arith, ap}
use rdesktop.Common.{true, false, Bool-cases, ◌⊎◌, inl, inr}
use rdesktop.Common.{bit_and_mask, leb, leb→le, u32}
use rdesktop.Mppc.{go, wild, Walk, shift, write_byte, emit, copy, copy_match, update}
use rdesktop.Mppc.{dict_size, match_source}
use rdesktop.Mppc.Pieces.{Ensures, Ensures-map, bits_left, Keeps}

-- `w'` is `w` with the history from `w.next_offset` to `w'.next_offset` written, all inside it.
pub record Extends (w w' : Walk) : Type 0 where
  pub grows : w.next_offset ≤ w'.next_offset
  pub inside : w'.next_offset ≤ dict_size
  pub outside : (j : ℕ) → (j < w.next_offset) ⊎ (w'.next_offset ≤ j) → w'.dict j ≡ w.dict j

pub Extends-refl : (w : Walk) → w.next_offset ≤ dict_size → Extends w w
Extends-refl w h = record { grows = omega arith; inside = h; outside = λ j p. refl }

pub Extends-trans : {u v w : Walk} → Extends u v → Extends v w → Extends u w
Extends-trans {u} {v} {w} a b = record {
  grows = omega (arith, a.grows, b.grows);
  inside = b.inside;
  outside = λ j p. ground (arith, a.outside j, b.outside j, a.grows, b.grows);
}

-- A piece that keeps, before or after.
pub Keeps-Extends : {clen : ℕ} {u v w : Walk} → Keeps clen u v → Extends v w → Extends u w
Keeps-Extends {clen} {u} {v} {w} k e = record {
  grows = omega (arith, k.offset, e.grows);
  inside = e.inside;
  outside = λ j p. ground (arith, e.outside j, ap (λ f. f j) k.same_dict, k.offset);
}

update-Extends :
    (w w' : Walk) (v : ℕ)
    → w.next_offset < dict_size
    → w'.next_offset ≡ w.next_offset + 1
    → w'.dict ≡ update w.dict w.next_offset v
    → Extends w w'
update-Extends w w' v h e d = record {
  grows = omega arith;
  inside = omega arith;
  outside = λ j p. ground (arith, ap (λ f. f j) d);
}

-- Where there is room, a byte is written.
write_byte-go :
    (b : ℕ) (w : Walk)
    → w.next_offset < dict_size
    → write_byte b w
      ≡ go (record w { next_offset = w.next_offset + 1; dict = update w.dict w.next_offset b })
unfolding write_byte
write_byte-go b w h = let room : leb dict_size w.next_offset ≡ false = ground arith in rw room refl

module _ (W : Type 0) (old : ℕ → ℕ) (clen : ℕ) where
  pub emit-Extends :
      (byte : ℕ → ℕ) (w : Walk)
      → w.dict ≡ old
      → 0 < w.walker_len
      → Ensures W old (λ w'. Extends w w' × (bits_left clen w' < bits_left clen w)) (emit byte w)
  unfolding emit
  emit-Extends byte w same h = elim (Bool-cases (leb dict_size w.next_offset)) [
    | inl full ↦ rw full same
    | inr room ↦ rw room (
      update-Extends w _ (byte w.walker) (ground arith) (unfold shift in refl)
          (unfold shift in refl),
      unfold shift in omega arith,
    )
  ]

  -- A copy is inside the history on both sides, or its source leaves it.
  pub copy-Extends :
      (match_len k : ℕ) (w : Walk)
      → w.next_offset + match_len ≤ dict_size
      → (k + match_len ≤ dict_size) ⊎ W
      → Ensures W old
          (λ w'.
            Extends w w'
            × (w'.next_offset ≡ w.next_offset + match_len)
            × (bits_left clen w' ≡ bits_left clen w))
          (copy match_len k w)
  unfolding copy
  copy-Extends zero k w fits src = (Extends-refl w (omega arith), omega arith, refl)
  copy-Extends (suc n) k w fits src = elim (Bool-cases (leb dict_size k)) [
    | inl out ↦ rw out (escape src (leb→le dict_size k out))
    | inr in_range ↦
        let w1 = record w {
          next_offset = w.next_offset + 1;
          dict = update w.dict w.next_offset (w.dict k);
        } in
        rw (in_range, write_byte-go (w.dict k) w (omega arith))
          (Ensures-map W old
            (λ w'.
              Extends w1 w'
              × (w'.next_offset ≡ w1.next_offset + n)
              × (bits_left clen w' ≡ bits_left clen w1))
            (λ w'.
              Extends w w'
              × (w'.next_offset ≡ w.next_offset + suc n)
              × (bits_left clen w' ≡ bits_left clen w))
            (copy n (k + 1) w1) (copy-Extends n (k + 1) w1 (omega arith) (step src))
            (λ w' e. (
              Extends-trans (update-Extends w w1 (w.dict k) (omega arith) refl refl) e.0,
              omega (arith, e.1),
              e.2,
            )))
  ]
    where
      escape : (k + suc n ≤ dict_size) ⊎ W → dict_size ≤ k → W
      escape (inl h) out = absurd (omega arith)
      escape (inr w) out = w

      step : (k + suc n ≤ dict_size) ⊎ W → ((k + 1) + n ≤ dict_size) ⊎ W
      step (inl h) = inl (omega arith)
      step (inr w) = inr w

-- The 8K form takes its source from the first 8192 places.
pub match_source_small : (next off : ℕ) → match_source false next off ≤ 8191
match_source_small next off = omega (arith, bit_and_mask 13 (u32 (next + 2 ^ 32 - off)))

copy-wild :
    (match_len k : ℕ) (w : Walk)
    → k ≤ dict_size
    → dict_size < k + match_len
    → copy match_len k w ≡ wild
unfolding copy write_byte
copy-wild zero k w h g = absurd (omega arith)
copy-wild (suc n) k w h g = elim (Bool-cases (leb dict_size k)) [
  | inl out ↦ rw out refl
  | inr in_range ↦ elim (Bool-cases (leb dict_size w.next_offset)) [
    | inl full ↦ rw (in_range, full) refl
    | inr room ↦ rw (in_range, room) (copy-wild n (k + 1) _ (ground arith) (omega arith))
  ]
]

-- In the 64K form a match of `len` bytes at the offset `off` that has room before the end of the
-- history, and that starts before the history, by less than `len` and by at most its size, leaves the
-- array.
pub match_before_start :
    (off len : ℕ) (w : Walk)
    → w.next_offset + len < dict_size
    → w.next_offset < off
    → off ≤ w.next_offset + dict_size
    → off < w.next_offset + len
    → copy_match true off len w ≡ wild
unfolding copy_match
match_before_start off len w room h g k =
    let fits : leb dict_size (w.next_offset + len) ≡ false = ground arith in
    let src : match_source true w.next_offset off ≡ w.next_offset + dict_size - off =
      omega (arith, bit_and_mask 16 (u32 (w.next_offset + 2 ^ 32 - off))) in
    rw (fits, src)
      (unfold copy in copy-wild len (w.next_offset + dict_size - off) w (omega arith) (omega arith))

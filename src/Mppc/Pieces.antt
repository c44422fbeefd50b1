-- ===== src/Mppc/Pieces.antt =====
-- What the pieces of a round keep: they spend bits, and leave the output alone.
use rdesktop.Common.{ℕ, zero, suc, ◌+◌, ◌-◌, ◌*◌, ◌≤◌, ◌<◌, ◌≡◌, refl, ◌∙◌, arith}
use rdesktop.Common.{List, length, get_elem?-some, leb, ltb, Bool-cases, inl, inr, ◌==◌}
use rdesktop.Mppc.{Outcome, go, finish, corrupt, wild, ◌>>=◌, Walk, shift, fresh, refill, append}
use rdesktop.Mppc.{append_until, next_bit}

-- The outcome is no access outside an array, unless `W` allows that; `P` of where it goes on; and
-- -1 comes with the history `old`.
abbrev pub Ensures {ℓ} : {A : Type ℓ} → Type 0 → (ℕ → ℕ) → (A → Type 0) → Outcome A → Type 0
Ensures W old P (go a) = P a
Ensures W old P finish = Unit
Ensures W old P (corrupt history) = history ≡ old
Ensures W old P wild = W

pub Ensures-bind {ℓ κ} :
    {A : Type ℓ} {B : Type κ} (W : Type 0) (old : ℕ → ℕ) (P : A → Type 0) (Q : B → Type 0)
    (m : Outcome A) (f : A → Outcome B)
    → Ensures W old P m
    → ((a : A) → P a → Ensures W old Q (f a))
    → Ensures W old Q (m >>= f)
Ensures-bind W old P Q (go a) f h k = k a h
Ensures-bind W old P Q finish f h k = tt
Ensures-bind W old P Q (corrupt history) f h k = h
Ensures-bind W old P Q wild f h k = h

pub Ensures-map {ℓ} :
    {A : Type ℓ} (W : Type 0) (old : ℕ → ℕ) (P Q : A → Type 0) (m : Outcome A)
    → Ensures W old P m
    → ((a : A) → P a → Q a)
    → Ensures W old Q m
Ensures-map W old P Q (go a) h k = k a h
Ensures-map W old P Q finish h k = tt
Ensures-map W old P Q (corrupt history) h k = h
Ensures-map W old P Q wild h k = h

-- The bits that the decoder has yet to take, of which `walker` holds `walker_len`.
abbrev pub bits_left : ℕ → Walk → ℕ
bits_left clen w = 8 * (clen - w.i) + w.walker_len

-- From `w` to `w'` no bit is gained, and nothing is written.
pub record Keeps (clen : ℕ) (w w' : Walk) : Type 0 where
  pub bits : bits_left clen w' ≤ bits_left clen w
  pub offset : w'.next_offset ≡ w.next_offset
  pub same_dict : w'.dict ≡ w.dict

pub Keeps-refl : (clen : ℕ) (w : Walk) → Keeps clen w w
Keeps-refl clen w = record { bits = omega arith; offset = refl; same_dict = refl }

pub Keeps-trans : {clen : ℕ} {u v w : Walk} → Keeps clen u v → Keeps clen v w → Keeps clen u w
Keeps-trans a b = record {
  bits = omega (arith, a.bits, b.bits);
  offset = b.offset ∙ a.offset;
  same_dict = b.same_dict ∙ a.same_dict;
}

pub shift-Keeps : (clen n : ℕ) (w : Walk) → Keeps clen w (shift n w)
unfolding shift
shift-Keeps clen n w = record { bits = omega arith; offset = refl; same_dict = refl }

-- A bit that is there and is shifted out is spent.
pub bits_left-shift :
    (clen n : ℕ) (w : Walk)
    → 0 < n
    → 0 < w.walker_len
    → bits_left clen (shift n w) < bits_left clen w
unfolding shift
bits_left-shift clen n w h k = omega arith

module _ (W : Type 0) (old : ℕ → ℕ) (data_ : List ℕ) (clen : ℕ) (fits : clen ≤ length data_) where
  -- A fresh byte, where no bit was left.
  pub fresh-Keeps :
      (w : Walk)
      → w.dict ≡ old
      → w.walker_len ≡ 0
      → Ensures W old (λ w'. Keeps clen w w' × (0 < w'.walker_len)) (fresh data_ clen w)
  unfolding fresh
  fresh-Keeps w same e = elim (Bool-cases (leb clen w.i)) [
    | inl out ↦ rw out same
    | inr in_range ↦
        let (b, got) = get_elem?-some data_ w.i (ground arith) in
        rw (in_range, got)
          (record { bits = ground arith; offset = refl; same_dict = refl }, omega arith)
  ]

  pub refill-Keeps :
      (w : Walk)
      → w.dict ≡ old
      → Ensures W old (λ w'. Keeps clen w w' × (0 < w'.walker_len)) (refill data_ clen w)
  unfolding refill
  refill-Keeps w same = elim (Bool-cases (w.walker_len == 0)) [
    | inl none_left ↦ rw none_left (unfold fresh in fresh-Keeps w same (ground arith))
    | inr some_left ↦ rw some_left (Keeps-refl clen w, ground arith)
  ]

  pub append-more :
      (w : Walk)
      → w.dict ≡ old
      → Ensures W old (λ w'. Keeps clen w w' × (0 < w'.walker_len)) (append data_ clen w)
  unfolding append
  append-more w same = elim (Bool-cases (leb clen w.i)) [
    | inl out ↦ rw out same
    | inr in_range ↦
        let (b, got) = get_elem?-some data_ w.i (ground arith) in
        rw (in_range, got)
          (record { bits = ground arith; offset = refl; same_dict = refl }, omega arith)
  ]

  pub append-Keeps :
      (w : Walk) → w.dict ≡ old → Ensures W old (λ w'. Keeps clen w w') (append data_ clen w)
  append-Keeps w same =
      Ensures-map W old (λ w'. Keeps clen w w' × (0 < w'.walker_len)) (λ w'. Keeps clen w w')
        (append data_ clen w) (append-more w same) (λ w' k. k.0)

  pub append_until-Keeps :
      (fuel n : ℕ) (w : Walk)
      → w.dict ≡ old
      → Ensures W old (λ w'. Keeps clen w w') (append_until data_ clen fuel n w)
  unfolding append_until
  append_until-Keeps zero n w same = Keeps-refl clen w
  append_until-Keeps (suc fuel) n w same = elim (Bool-cases (ltb w.walker_len n)) [
    | inl short ↦
        rw (short, append_until)
          (Ensures-bind W old (λ w'. Keeps clen w w') (λ w'. Keeps clen w w') (append data_ clen w)
            (append_until data_ clen fuel n) (append-Keeps w same)
            (λ a k.
              Ensures-map W old (λ w'. Keeps clen a w') (λ w'. Keeps clen w w')
                (append_until data_ clen fuel n a)
                (append_until-Keeps fuel n a (k.same_dict ∙ same)) (λ b j. Keeps-trans k j)))
    | inr enough ↦ rw (enough, append_until) (Keeps-refl clen w)
  ]

  pub next_bit-Keeps :
      (w : Walk)
      → w.dict ≡ old
      → Ensures W old
          (λ w'. Keeps clen (shift 1 w) w' × (0 < w'.walker_len))
          (next_bit data_ clen w)
  unfolding next_bit
  next_bit-Keeps w same = unfold refill shift in refill-Keeps (shift 1 w) same

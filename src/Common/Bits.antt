-- ===== src/Common/Bits.antt =====
-- Facts about `&` and `|`, which the tactics take for unknowns.
use Prim.Native.Nat.{ℕ, zero, suc, ◌+◌, ◌-◌, ◌*◌, ◌/◌, ◌%◌, ◌^◌, ◌≤◌, ◌<◌, min, max}
use Prim.Native.Nat.{bit_and, bit_or, bitwise, digits, bit_and-bitwise, bit_or-bitwise}
use mathlib.Core.Path.{◌≡◌, refl, ap, sym, ◌∙◌}
use Prim.Native.Nat.{compare, Ordering}
use mathlib.Core.Bool.{Bool, true, false, ◌&&◌}
use rdesktop.Common.Tests.{leb, ◌==◌, ==_iff}
use native.Mathlib.Nat.{le_refl, pow-suc, one-le-pow}
use native.Mathlib.Omega.{arith}
use native.Mathlib.Decide.{dec_lt}

-- `bit_and` and `bit_or` stand for `digits`, whose fuel is the first number: more of it changes
-- nothing, so the value at a number follows from the value at its half.
module _ (rest : ℕ → ℕ) (op : ℕ → ℕ → ℕ) where
  digits-zero : (fuel b : ℕ) → digits rest op fuel 0 b ≡ rest b
  digits-zero zero b = refl
  digits-zero (suc fuel) b = refl

  -- By induction on a bound of the number.
  digits_agree :
      (bound x : ℕ)
      → x ≤ bound
      → (b k l : ℕ) → x ≤ k
      → x ≤ l
      → digits rest op k x b ≡ digits rest op l x b
  digits_agree bound zero h b k l hk hl = digits-zero k b ∙ sym (digits-zero l b)
  digits_agree zero (suc x) h b k l hk hl = absurd (omega arith)
  digits_agree (suc bound) (suc x) h b zero l hk hl = absurd (omega arith)
  digits_agree (suc bound) (suc x) h b (suc k) zero hk hl = absurd (omega arith)
  digits_agree (suc bound) (suc x) h b (suc k) (suc l) hk hl =
      let half : suc x / 2 ≤ x = omega arith in
      ap (λ t. t * 2 + op (suc x % 2) (b % 2))
        (digits_agree bound (suc x / 2) (omega arith) (b / 2) k l (omega arith) (omega arith))

  low_digit :
      (x b : ℕ)
      → bitwise rest op (suc x) b ≡ bitwise rest op (suc x / 2) (b / 2) * 2 + op (suc x % 2) (b % 2)
  low_digit x b =
      ap (λ t. t * 2 + op (suc x % 2) (b % 2))
        (digits_agree x (suc x / 2) (omega arith) (b / 2) x (suc x / 2) (omega arith) (omega arith))

pub bit_or_step : (x b : ℕ) → bit_or x b ≡ bit_or (x / 2) (b / 2) * 2 + max (x % 2) (b % 2)
bit_or_step zero b = simp bit_or-bitwise (omega arith)
bit_or_step (suc x) b = simp bit_or-bitwise (low_digit (λ y. y) max x b)

pub bit_and_step : (x b : ℕ) → bit_and x b ≡ bit_and (x / 2) (b / 2) * 2 + min (x % 2) (b % 2)
bit_and_step zero b = simp bit_and-bitwise (omega arith)
bit_and_step (suc x) b = simp bit_and-bitwise (low_digit (λ y. 0) min x b)

bit_and_nothing : (bound x : ℕ) → x ≤ bound → bit_and x 0 ≡ 0
bit_and_nothing bound zero h = refl
bit_and_nothing zero (suc x) h = absurd (omega arith)
bit_and_nothing (suc bound) (suc x) h =
    omega (arith, bit_and_step (suc x) 0, bit_and_nothing bound (suc x / 2) (omega arith))

pub bit_and-zero : (x : ℕ) → bit_and x 0 ≡ 0
bit_and-zero x = bit_and_nothing x x (le_refl x)

pub bit_or-zero : (a : ℕ) → bit_or a 0 ≡ a
bit_or-zero a = go a a (le_refl a)
  where
    go : (n a : ℕ) → a ≤ n → bit_or a 0 ≡ a
    go n zero h = refl
    go zero (suc a) h = absurd (omega arith)
    go (suc n) (suc a) h = omega (arith, bit_or_step (suc a) 0, go n (suc a / 2) (omega arith))

bit_or_zero-left : (b : ℕ) → bit_or 0 b ≡ b
bit_or_zero-left b = bit_or-bitwise 0 b

pub bit_or_comm : (a b : ℕ) → bit_or a b ≡ bit_or b a
bit_or_comm a b = go (a + b) a b (le_refl (a + b))
  where
    go : (n a b : ℕ) → a + b ≤ n → bit_or a b ≡ bit_or b a
    go n zero b h = omega (arith, bit_or-zero b, bit_or_zero-left b)
    go zero (suc a) b h = absurd (omega arith)
    go (suc n) (suc a) b h = omega (
      arith,
      bit_or_step (suc a) b,
      bit_or_step b (suc a),
      go n (suc a / 2) (b / 2) (omega arith),
    )

-- `high << width`, one bit wider.
shift_wider : (high width : ℕ) → high * 2 ^ suc width ≡ 2 * (high * 2 ^ width)
shift_wider high width = omega (arith, ap (λ (t : ℕ). high * t) (pow-suc 2 width))

-- `(high << width) | low` is a sum where `low` has `width` bits.
pub bit_or_fields :
    (width high low : ℕ) → low < 2 ^ width → bit_or (high * 2 ^ width) low ≡ high * 2 ^ width + low
bit_or_fields zero high low small = ground (arith, bit_or-zero high)
bit_or_fields (suc width) high low small =
    let inner = bit_or_fields width high (low / 2) (omega (arith, pow-suc 2 width)) in
    ground (arith, inner, shift_wider high width, bit_or_step (high * 2 ^ suc width) low)

-- A mask of `width` ones takes the low bits off such a sum.
mask_of_fields :
    (width high low : ℕ) → low < 2 ^ width → bit_and (high * 2 ^ width + low) (2 ^ width - 1) ≡ low
mask_of_fields zero high low small = rw bit_and-zero (omega arith)
mask_of_fields (suc width) high low small =
    let inner = mask_of_fields width high (low / 2) (omega (arith, pow-suc 2 width)) in
    let whole = bit_and_step (high * 2 ^ suc width + low) (2 ^ suc width - 1) in
    ground (arith, inner, whole, shift_wider high width, pow-suc 2 width, one-le-pow width 2)

-- So a mask is a remainder.
pub bit_and_mask : (width x : ℕ) → bit_and x (2 ^ width - 1) ≡ x % 2 ^ width
bit_and_mask width x =
    let split = mask_of_fields width (x / 2 ^ width) (x % 2 ^ width) in
    ground (arith, split, one-le-pow width 2)

-- A test that passes at every value below a small bound, by evaluation.
pub passes_below : (ℕ → Bool) → ℕ → Bool
passes_below test zero = true
passes_below test (suc bound) = passes_below test bound && test bound

pub passes_below-at :
    (test : ℕ → Bool) (bound : ℕ)
    → passes_below test bound ≡ true
    → (v : ℕ) → v < bound
    → test v ≡ true
unfolding passes_below
passes_below-at test zero all v h = absurd (omega arith)
passes_below-at test (suc bound) all v h = elim (dec_lt v bound) [
  | yes below ↦ passes_below-at test bound (ground arith) v below
  | no top ↦ let last : v ≡ bound = omega arith in rw last (ground arith)
]

abbrev iff : Bool → Bool → Bool
iff true b = b
iff false true = false
iff false false = true

iff→eq : (a b : Bool) → iff a b ≡ true → a ≡ b
iff→eq true true h = refl
iff→eq true false h = cc
iff→eq false true h = cc
iff→eq false false h = refl

-- `x & m` as a condition.
abbrev pub has_bit : ℕ → ℕ → Bool
has_bit x m = elim (compare (bit_and x m) 0) [ Ordering.eq ↦ false | _ ↦ true ]

-- The top bit of a byte, and the byte without it.
top_bit_table : passes_below (λ b. iff (has_bit b 0x80) (leb 0x80 b)) 256 ≡ true
unfolding passes_below
top_bit_table = refl

pub has_top_bit : (b : ℕ) → b < 256 → has_bit b 0x80 ≡ leb 0x80 b
has_top_bit b h = iff→eq _ _ (passes_below-at _ 256 top_bit_table b h)

clear_top_table : passes_below (λ b. bit_and b 0xffffff7f == b % 0x80) 256 ≡ true
unfolding passes_below
clear_top_table = refl

pub clear_top_bit : (b : ℕ) → b < 256 → bit_and b 0xffffff7f ≡ b % 0x80
clear_top_bit b h = (==_iff _ _).0 (passes_below-at _ 256 clear_top_table b h)

-- ===== src/Mppc.antt =====
-- mppc.c: the bulk decompressor. A round of its loop is cut at the points where the code branches.
-- `walker` is the 32-bit pattern of the C `int`, so `walker >= 0` reads its top bit; the history is
-- a function, and an access of `data` or of the history outside the array, to read or to write, is `wild`.
pub mod Pieces
pub mod Match
pub mod Copy
pub mod Round
pub mod Expand
mod Tests
use rdesktop.Common.{ℕ, zero, suc, ◌+◌, ◌-◌, ◌*◌, ◌/◌, ◌%◌, ◌^◌, Bool, true, false, ◌==◌, ltb, leb}
use rdesktop.Common.{
  if◌then◌else◌, Option, none, some, List, get_elem?, bit_and, bit_or, u32, has_bit,
}

abbrev pub dict_size : ℕ
dict_size = 65536

-- What a piece of a round comes to: it goes on, `break`s, returns -1 with the history as it is then,
-- or reads or writes outside an array.
pub data Outcome {ℓ} (A : Type ℓ) : Type ℓ where
  go : A → Outcome A
  finish wild : Outcome A
  corrupt : (history : ℕ → ℕ) → Outcome A

infixl 5 ◌>>=◌
abbrev pub ◌>>=◌ {ℓ κ} : {A : Type ℓ} {B : Type κ} → Outcome A → (A → Outcome B) → Outcome B
go a >>= f = f a
finish >>= f = finish
corrupt history >>= f = corrupt history
wild >>= f = wild

-- The variables of the loop.
pub record Walk : Type 0 where
  pub i : ℕ
  pub walker : ℕ
  pub walker_len : ℕ
  pub next_offset : ℕ
  pub dict : ℕ → ℕ

abbrev pub update : (ℕ → ℕ) → ℕ → ℕ → ℕ → ℕ
update f k v j = if j == k then v else f j

-- `walker >= 0`
abbrev pub is_positive : Walk → Bool
is_positive w = ltb w.walker (2 ^ 31)

-- `walker <<= n; walker_len -= n`
unfoldable pub shift : ℕ → Walk → Walk
shift n w = record w { walker = u32 (w.walker * 2 ^ n); walker_len = w.walker_len - n }

-- `walker >> n`, of the signed value: the sign is copied into the bits from above.
abbrev pub shift_right : ℕ → ℕ → ℕ
shift_right n x = if ltb x (2 ^ 31) then x / 2 ^ n else x / 2 ^ n + (2 ^ 32 - 2 ^ (32 - n))

-- `dict[next_offset++] = b;`
unfoldable pub write_byte : ℕ → Walk → Outcome Walk
write_byte b w =
    if leb dict_size w.next_offset
    then wild
    else go (record w { next_offset = w.next_offset + 1; dict = update w.dict w.next_offset b })

-- The test of `next_offset`, then `dict[next_offset++] = b; walker <<= 8; walker_len -= 8;`
unfoldable pub emit : (ℕ → ℕ) → Walk → Outcome Walk
unfolding write_byte shift
emit byte w =
    if leb dict_size w.next_offset
    then corrupt w.dict
    else (do w1 ← write_byte (byte w.walker) w; go (shift 8 w1))

-- `(uint32) walker >> 24`, and `(uint8) (walker >> 24 | 0x80)`.
abbrev pub low_byte : ℕ → ℕ
low_byte x = x / 2 ^ 24 % 256

abbrev pub high_byte : ℕ → ℕ
high_byte x = bit_or (shift_right 24 x) 0x80 % 256

module _ (data_ : List ℕ) (clen : ℕ) where
  -- `walker = data[i++] << 24; walker_len = 8;`, after the test of `i`.
  unfoldable pub fresh : Walk → Outcome Walk
  fresh w = if leb clen w.i then corrupt w.dict else elim (get_elem? data_ w.i) [
    | none ↦ wild
    | some b ↦ go (record w { i = w.i + 1; walker = u32 (b * 2 ^ 24); walker_len = 8 })
  ]

  -- The same where it is needed only at `walker_len == 0`.
  unfoldable pub refill : Walk → Outcome Walk
  unfolding fresh
  refill w = if w.walker_len == 0 then fresh w else go w

  -- `walker |= (data[i++] & 0xff) << (24 - walker_len); walker_len += 8;`, after the test of `i`.
  unfoldable pub append : Walk → Outcome Walk
  append w = if leb clen w.i then corrupt w.dict else elim (get_elem? data_ w.i) [
    | none ↦ wild
    | some b ↦ go (record w {
      i = w.i + 1;
      walker = bit_or w.walker (u32 (bit_and b 0xff * 2 ^ (24 - w.walker_len)));
      walker_len = w.walker_len + 8;
    })
  ]

  -- `for (; walker_len < n; walker_len += 8)`, which takes less than `n` rounds.
  unfoldable pub append_until : ℕ → ℕ → Walk → Outcome Walk
  append_until zero n w = go w
  append_until (suc fuel) n w = elim (ltb w.walker_len n) [
    | true ↦ append w >>= append_until fuel n
    | false ↦ go w
  ]

  -- `walker <<= 1; if (--walker_len == 0)` and a fresh byte.
  unfoldable pub next_bit : Walk → Outcome Walk
  unfolding refill shift
  next_bit w = refill (shift 1 w)

  -- A literal below 128, whose first bit is the flag itself.
  unfoldable pub literal_low : Walk → Outcome Walk
  unfolding append emit
  literal_low w =
      let filled =
        (if ltb w.walker_len 8
          then (if leb clen w.i
              then (if w.walker == 0 then finish else corrupt w.dict)
              else append w)
          else go w) in
      filled >>= emit low_byte

  -- A literal from 128 on.
  unfoldable pub literal_high : Walk → Outcome Walk
  unfolding append emit
  literal_high w = (if ltb w.walker_len 8 then append w else go w) >>= emit high_byte

  -- `n` bits, of which the first `skip` are the prefix: their value, and what follows.
  unfoldable pub field : ℕ → ℕ → ℕ → Walk → Outcome (ℕ × Walk)
  unfolding append_until shift
  field skip n base w = do
    w1 ← append_until (skip + n) (skip + n) w
    let w2 = shift skip w1
    go (w2.walker / 2 ^ (32 - n) + base, shift n w2)

  -- The offset of a match, in the form of the 64K history.
  unfoldable pub offset_big : Walk → Outcome (ℕ × Walk)
  unfolding field
  offset_big w =
      let top = w.walker / 2 ^ 29 in
      if top == 7
      then field 3 6 0 w
      else (if top == 6
          then field 3 8 64 w
          else (if leb 4 top then field 2 11 320 w else field 1 16 2368 w))

  -- The offset of a match, in the form of the 8K history.
  unfoldable pub offset_small : Walk → Outcome (ℕ × Walk)
  unfolding field append shift
  offset_small w =
      let top = w.walker / 2 ^ 30 in
      if top == 3
      then (do
        w1 ← (if ltb w.walker_len 8 then append w else go w)
        let w2 = shift 2 w1
        go (w2.walker / 2 ^ 26, shift 6 w2))
      else (if top == 2
          then field 2 8 64 w
          else (do w1 ← append_until 14 14 w; go (shift_right 18 w1.walker + 320, shift 14 w1)))

  -- `match_bits` counts down along the ones before the length.
  unfoldable pub length_prefix : ℕ → Walk → Outcome (ℕ × Walk)
  unfolding next_bit
  length_prefix zero w = corrupt w.dict
  length_prefix (suc m) w = do
    w1 ← next_bit w
    elim (is_positive w1) [
      | true ↦ go (suc m, w1)
      | false ↦ elim (m == 0) [ true ↦ corrupt w1.dict | false ↦ length_prefix m w1 ]
    ]

  -- The length from its first one on.
  unfoldable pub long_length : Bool → Walk → Outcome (ℕ × Walk)
  unfolding length_prefix append_until shift
  long_length big w0 = do
    (match_bits, w1) ← length_prefix (if big then 14 else 11) w0
    let bits = (if big then 16 else 13) - match_bits
    w2 ← append_until bits bits (shift 1 w1)
    let low = bit_and (shift_right (32 - bits) w2.walker) (2 ^ bits - 1)
    go (bit_or low (2 ^ bits), shift bits w2)

  unfoldable pub match_length : Bool → Walk → Outcome (ℕ × Walk)
  unfolding long_length refill shift
  match_length big w = do
    w0 ← refill w
    if is_positive w0 then go (3, shift 1 w0) else long_length big w0

-- `do dict[next_offset++] = dict[k++]; while (--match_len != 0);`
unfoldable pub copy : ℕ → ℕ → Walk → Outcome Walk
unfolding write_byte
copy zero k w = go w
copy (suc match_len) k w =
    if leb dict_size k then wild else (do w1 ← write_byte (w.dict k) w; copy match_len (k + 1) w1)

-- The source of a match, `(next_offset - match_off) & mask`.
abbrev pub match_source : Bool → ℕ → ℕ → ℕ
match_source big next_offset match_off =
    bit_and (u32 (next_offset + 2 ^ 32 - match_off)) (if big then 65535 else 8191)

-- A match of known offset and length: the test of the room for it, and the copy.
unfoldable pub copy_match : Bool → (match_off match_len : ℕ) → Walk → Outcome Walk
unfolding copy
copy_match big match_off match_len w =
    if leb dict_size (w.next_offset + match_len)
    then corrupt w.dict
    else copy match_len (match_source big w.next_offset match_off) w

-- How the loop ends: by `break`, by -1 with the history as it is then, or not within the fuel.
pub data End : Type 0 where
  finished : Walk → End
  failed : (ℕ → ℕ) → End
  escaped out_of_fuel : End

module _ (data_ : List ℕ) (clen : ℕ) (big : Bool) where
  -- From the second flag bit on: a match.
  unfoldable pub copy_tuple : Walk → Outcome Walk
  unfolding append shift offset_big offset_small match_length copy_match
  copy_tuple w = do
    let w0 = shift 1 w
    w1 ← (if ltb w0.walker_len (if big then 3 else 2) then append data_ clen w0 else go w0)
    (match_off, w2) ← (if big then offset_big data_ clen w1 else offset_small data_ clen w1)
    (match_len, w3) ← match_length data_ clen big w2
    copy_match big match_off match_len w3

  -- One round of the loop.
  unfoldable pub round : Walk → Outcome Walk
  unfolding fresh literal_low next_bit literal_high copy_tuple
  round w = do
    w0 ← (if w.walker_len == 0 then (if leb clen w.i then finish else fresh data_ clen w) else go w)
    if is_positive w0 then literal_low data_ clen w0 else (do
      w1 ← next_bit data_ clen w0
      if is_positive w1 then literal_high data_ clen w1 else copy_tuple w1)

  unfoldable pub loop : ℕ → Walk → End
  loop zero w = out_of_fuel
  loop (suc fuel) w = elim (round w) [
    | go w' ↦ loop fuel w'
    | finish ↦ finished w
    | corrupt history ↦ failed history
    | wild ↦ escaped
  ]

-- `g_mppc_dict`, without the stream that the fast path keeps beside it.
pub record Rdpcomp : Type 0 where
  pub roff : ℕ
  pub hist : ℕ → ℕ

-- What `mppc_expand` returns: 0 or -1, through `roff` and `rlen`, and in `g_mppc_dict`.
pub record Expanded : Type 0 where
  pub success : Bool
  pub roff : ℕ
  pub rlen : ℕ
  pub comp : Rdpcomp

-- `RDP_MPPC_RESET` and `RDP_MPPC_FLUSH`.
unfoldable pub reset : ℕ → Rdpcomp → Rdpcomp
reset ctype c =
    let c1 = (if has_bit ctype 0x40 then record c { roff = 0 } else c) in
    if has_bit ctype 0x80 then record { roff = 0; hist = λ _. 0 } else c1

-- Fuel for as many rounds as the data has bits.
abbrev pub fuel_for : ℕ → ℕ
fuel_for clen = 8 * clen + 1

abbrev pub start : Rdpcomp → Walk
start c = record { i = 0; walker = c.roff; walker_len = 0; next_offset = c.roff; dict = c.hist }

-- What is returned after the loop: `none` is an access outside an array, or fuel that ran out.
unfoldable pub returned : Rdpcomp → End → Option Expanded
returned c (finished w) = some (record {
  success = true;
  roff = c.roff;
  rlen = w.next_offset - c.roff;
  comp = record { roff = w.next_offset; hist = w.dict };
})
returned c (failed dict) =
    some (record { success = false; roff = c.roff; rlen = 0; comp = record c { hist = dict } })
returned c escaped = none
returned c out_of_fuel = none

-- From `*roff = 0` on.
unfoldable pub expand_compressed : List ℕ → ℕ → Bool → Rdpcomp → Option Expanded
unfolding loop returned
expand_compressed data_ clen big c =
    if clen == 0
    then some (record { success = true; roff = c.roff; rlen = 0; comp = c })
    else returned c (loop data_ clen big (fuel_for clen) (start c))

unfoldable pub mppc_expand : List ℕ → ℕ → ℕ → Rdpcomp → Option Expanded
unfolding reset expand_compressed
mppc_expand data_ clen ctype c =
    if has_bit ctype 0x20
    then expand_compressed data_ clen (has_bit ctype 0x01) (reset ctype c)
    else some (record { success = true; roff = 0; rlen = clen; comp = c })

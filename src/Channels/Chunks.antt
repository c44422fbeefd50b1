-- ===== src/Channels/Chunks.antt =====
-- The chunks of a message: how `channel_process` joins them.
use rdesktop.Common.{ℕ, ◌+◌, ◌-◌, ◌^◌, ◌≤◌, ◌<◌, ◌≡◌, refl, arith}
use rdesktop.Common.{true, false, List, [], ◌∷◌, ◌++◌, Result, ok, ◌>>=◌, some, none}
use rdesktop.Common.{length, length-append, take_all, has_bit, u32, Option, le→leb}
use mathlib.Core.List.{append_assoc}
use rdesktop.Stream.{Stream, out_uint8stream, s_realloc, s_reset, s_mark_end}
use rdesktop.Stream.{s_remaining}
use rdesktop.Stream.Valid.{IsValid, s_reset-IsValid}
use rdesktop.Stream.Read.{Reads, advance, check_rem-Reads, peek-lem, length-Reads}
use rdesktop.Stream.Write.{Writes, put, out_uint8a-Writes, s_realloc_lem, mark_end-seek-Reads}
use rdesktop.Channels.{Numbers, Channel, defragment}

-- All that is left of a stream goes behind what another one holds.
stream-Writes :
    {into s : Stream} {ws : List ℕ} (xs : List ℕ) (m : ℕ)
    → Writes into ws (length xs + m)
    → Reads s xs
    → (s' : Stream) × (out_uint8stream into s (u32 (s_remaining s)) ≡ ok (put into xs, s'))
      × Writes (put into xs) (ws ++ xs) m
unfolding out_uint8stream
stream-Writes {into} {s} xs m w r =
    let all : u32 (s_remaining s) ≡ length xs =
      omega (arith, length-Reads r, r.inside, r.valid.wide, r.valid.mark) in
    let step = out_uint8a-Writes xs {n = m} w in
    (
      advance s (length xs),
      rw
          (
            all,
            check_rem-Reads (length xs) r,
            le→leb (length xs) (length xs) (omega arith),
            peek-lem (length xs) r (omega arith),
            take_all (length xs) xs (omega arith),
            step.0,
          )
          refl,
      step.1,
    )

-- The messages for one channel, with the flags of their headers: the answers of `defragment`, up to
-- the first whole message.
unfoldable pub run_chunks :
    Numbers → (length : ℕ) → List (ℕ × Stream) → Channel → Result (Option Stream × Channel)
run_chunks n length [] ch = ok (none, ch)
run_chunks n length ((flags, s) ∷ rest) ch = do
  (whole, ch') ← defragment n length flags ch s
  elim whole [ some t ↦ ok (some t, ch') | none ↦ run_chunks n length rest ch' ]

-- The chunks after the first, and the bytes they carry.
pub data Tail (n : Numbers) : List (ℕ × Stream) → List ℕ → Type 0 where
  last :
      (flags : ℕ) (s : Stream) (xs : List ℕ)
      → has_bit flags n.flag_first ≡ false
      → has_bit flags n.flag_last ≡ true
      → Reads s xs
      → Tail n ((flags, s) ∷ []) xs
  more :
      (flags : ℕ) (s : Stream) (xs : List ℕ) (rest : List (ℕ × Stream)) (ys : List ℕ)
      → has_bit flags n.flag_first ≡ false
      → has_bit flags n.flag_last ≡ false
      → Reads s xs
      → Tail n rest ys
      → Tail n ((flags, s) ∷ rest) (xs ++ ys)

module _ (n : Numbers) (len : ℕ) where
  Tail-joined :
      (ch : Channel) {ws : List ℕ} {cs : List (ℕ × Stream)} {ys : List ℕ} (m : ℕ)
      → Writes ch.inbox ws (length ys + m)
      → Tail n cs ys
      → (t : Stream) × (ch' : Channel) × (run_chunks n len cs ch ≡ ok (some t, ch'))
        × Reads t (ws ++ ys)
        × (ch'.process ≡ ch.process)
  unfolding run_chunks defragment
  Tail-joined ch m w (last flags s xs no_first is_last r) =
      let (s', step, wrote) = stream-Writes xs m w r in
      let back = mark_end-seek-Reads wrote in
      (
        record (s_mark_end (put ch.inbox xs)) { p = 0 },
        record ch { inbox = record (s_mark_end (put ch.inbox xs)) { p = 0 } },
        rw (no_first, is_last, step, back.0) refl,
        back.1,
        refl,
      )
  Tail-joined ch {ws} m w (more flags s xs rest ys no_first no_last r tail) =
      let (s', step, wrote) =
        stream-Writes xs (length ys + m)
          (record {
            valid = w.valid;
            before = w.before;
            fits = omega (arith, w.fits, length-append xs ys);
          })
          r in
      let (t, ch', e, reads, same) =
        Tail-joined (record ch { inbox = put ch.inbox xs }) m wrote tail in
      (t, ch', rw (no_first, no_last, step) e, rw (append_assoc ws xs ys) at reads, same)

  -- The chunks of a message: the first with its flag, the last with its flag, and others without.
  -- Where the length that they announce is at least what they carry, `defragment` answers with no
  -- stream before the last chunk, and then with one that reads as the bytes of all chunks in their
  -- order, whatever the buffer of the channel held before.
  pub run_chunks-joined :
      (ch : Channel) (flags : ℕ) {s : Stream} {xs ys : List ℕ} {cs : List (ℕ × Stream)}
      → len < 2 ^ 32
      → IsValid ch.inbox
      → has_bit flags n.flag_first ≡ true
      → has_bit flags n.flag_last ≡ false
      → Reads s xs
      → Tail n cs ys
      → length xs + length ys ≤ len
      → (t : Stream) × (ch' : Channel) × (run_chunks n len ((flags, s) ∷ cs) ch ≡ ok (some t, ch'))
        × Reads t (xs ++ ys)
        × (ch'.process ≡ ch.process)
  unfolding run_chunks defragment
  run_chunks-joined ch flags {s} {xs} {ys} {cs} small v is_first no_last r tail fits =
      let kept = s_realloc_lem len v small in
      let fresh : Writes (s_reset (s_realloc ch.inbox len)) [] (length xs + (len - length xs)) =
        record {
          valid = s_reset-IsValid kept.6;
          before = unfold s_reset in refl;
          fits = unfold s_reset in omega (arith, kept.4);
        } in
      let (s', step, wrote) = stream-Writes xs (len - length xs) fresh r in
      let (t, ch', e, reads, same) =
        Tail-joined (record ch { inbox = put (s_reset (s_realloc ch.inbox len)) xs })
          (len - length xs - length ys)
          (record { valid = wrote.valid; before = wrote.before; fits = omega (arith, wrote.fits) })
          tail in
      (t, ch', rw (is_first, no_last, step) e, reads, same)

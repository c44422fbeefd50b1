-- ===== src/Stream/Write.antt =====
-- The writers on a valid stream append to the bytes written, or end the session.
use rdesktop.Common.{ℕ, ◌+◌, ◌-◌, ◌/◌, ◌%◌, ◌^◌, ◌≤◌, ◌<◌, ◌≡◌, refl, ◌∙◌}
use rdesktop.Common.{ap, List, [], ◌++◌, arith, leb, le→leb, lt→leb}
use rdesktop.Common.{ok, exit, write_overrun, if◌then◌else◌, le→ltb, lt→ltb}
use rdesktop.Common.{length, take, drop, length-append, length-take, length-drop}
use rdesktop.Common.{
  sym, drop_cong, drop-drop, drop-append_self, take_add, take-append_self, take-append_le,
  drop-take, Bool-cases, take_cong,
}
use rdesktop.Stream.{Stream, s_left, poke, out_uint8a}
use rdesktop.Stream.{out_uint16_be, out_uint32_be, be16, s_seek, s_mark_end, s_check_rem}
use rdesktop.Stream.Valid.{IsValid, written, s_alloc-IsValid, s_realloc-IsValid, zero_byte}
use rdesktop.Stream.{s_alloc, s_realloc}
use rdesktop.Common.{replicate, ◌⊎◌, inl, inr}
use native.Mathlib.Decide.{dec_lt}
use rdesktop.Stream.Read.{Reads}
use mathlib.Core.List.{append_assoc}

-- `s` after `bs` is written at its pointer.
abbrev pub put : Stream → List ℕ → Stream
put s bs = record s {
  buf = take s.p s.buf ++ (bs ++ drop (s.p + length bs) s.buf);
  p = s.p + length bs;
}

-- `s` is valid, `ws` is what stands before its pointer, and `n` more bytes fit.
pub record Writes (s : Stream) (ws : List ℕ) (n : ℕ) : Type 0 where
  pub valid : IsValid s
  pub before : written s ≡ ws
  pub fits : s.p + n ≤ s.size

s_left-lem : {s : Stream} → IsValid s → s_left s ≡ s.size - s.p
s_left-lem v = omega arith

pub length-put :
    (s : Stream) (bs : List ℕ)
    → s.p + length bs ≤ length s.buf
    → length (put s bs).buf ≡ length s.buf
length-put s bs h = rw (length-append, length-append, length-take, length-drop) (omega arith)

written-put : (s : Stream) (bs : List ℕ) → s.p ≤ length s.buf → written (put s bs) ≡ written s ++ bs
written-put s bs h = rw (← append_assoc (take s.p s.buf) bs (drop (s.p + length bs) s.buf)) (
    take_cong (s.p + length bs) (length (take s.p s.buf ++ bs)) _
      (omega (arith, length-append (take s.p s.buf) bs, length-take {0} s.p s.buf))
    ∙ take-append_self (take s.p s.buf ++ bs) (drop (s.p + length bs) s.buf))

-- Room enough: the bytes are appended.
pub out_uint8a-Writes :
    {s : Stream} {ws : List ℕ} (bs : List ℕ) {n : ℕ}
    → Writes s ws (length bs + n)
    → (out_uint8a s bs ≡ ok (put s bs)) × Writes (put s bs) (ws ++ bs) n
unfolding out_uint8a poke
out_uint8a-Writes {s} {ws} bs {n} w = (
  rw
      (
        le→ltb (s_left s) (length bs) (omega (arith, s_left-lem w.valid, w.fits)),
        le→leb (s.p + length bs) (length s.buf) (omega (arith, w.fits, w.valid.room)),
      )
      refl,
  record {
    valid = record {
      room = length-put s bs (omega (arith, w.fits, w.valid.room)) ∙ w.valid.room;
      cursor = omega (arith, w.fits);
      mark = w.valid.mark;
      wide = w.valid.wide;
    };
    before = written-put s bs (omega (arith, w.fits, w.valid.room)) ∙ ap (λ t. t ++ bs) w.before;
    fits = omega (arith, w.fits);
  },
)

-- Too little room: the session ends, and nothing is written out of range.
pub out_uint8a-full :
    {s : Stream} (bs : List ℕ)
    → IsValid s
    → s.size - s.p < length bs
    → out_uint8a s bs ≡ exit write_overrun
unfolding out_uint8a
out_uint8a-full {s} bs v h = rw (lt→ltb (s_left s) (length bs) (omega (arith, s_left-lem v)))

-- A big-endian 32-bit integer is the two halves, each asserted again.
pub out_uint32_be-put :
    {s : Stream} {ws : List ℕ} (v : ℕ) {n : ℕ}
    → Writes s ws (4 + n)
    → (out_uint32_be s v ≡ ok (put (put s (be16 (v / 2 ^ 16))) (be16 (v % 2 ^ 16))))
      × Writes
          (put (put s (be16 (v / 2 ^ 16))) (be16 (v % 2 ^ 16)))
          ((ws ++ be16 (v / 2 ^ 16)) ++ be16 (v % 2 ^ 16))
          n
unfolding out_uint32_be out_uint16_be
out_uint32_be-put {s} {ws} v {n} w =
    let high =
      out_uint8a-Writes (be16 (v / 2 ^ 16)) {n = 2 + n}
        (record { valid = w.valid; before = w.before; fits = omega (arith, w.fits) }) in
    let low = out_uint8a-Writes (be16 (v % 2 ^ 16)) {n = n} (record {
      valid = high.1.valid;
      before = high.1.before;
      fits = omega (arith, high.1.fits);
    }) in
    (
      rw (le→ltb (s_left s) 4 (omega (arith, s_left-lem w.valid, w.fits)), high.0, low.0) refl,
      low.1,
    )

-- What is written, ended and sought from the start is what is read.
pub mark_end-seek-Reads :
    {s : Stream} {ws : List ℕ} {n : ℕ}
    → Writes s ws n
    → (s_seek (s_mark_end s) 0 ≡ ok (record (s_mark_end s) { p = 0 }))
      × Reads (record (s_mark_end s) { p = 0 }) ws
unfolding s_mark_end s_seek s_check_rem
mark_end-seek-Reads {s} w = (
  refl_of s,
  record {
    valid = record {
      room = w.valid.room;
      cursor = omega arith;
      mark = w.valid.cursor;
      wide = w.valid.wide;
    };
    inside = omega arith;
    rest = take_cong (s.p - 0) s.p s.buf (omega arith) ∙ w.before;
  },
)
  where
    refl_of : (s : Stream) → s_seek (s_mark_end s) 0 ≡ ok (record (s_mark_end s) { p = 0 })
    refl_of s = ground arith

-- A stream just allocated takes `size` bytes.
pub s_alloc-Writes : (size : ℕ) → size < 2 ^ 32 → Writes (s_alloc size) [] size
unfolding s_alloc
s_alloc-Writes size h = record {
  valid = unfold s_alloc in s_alloc-IsValid size h;
  before = refl;
  fits = omega arith;
}

-- `s_realloc` keeps what is written, every pointer and every header, never shrinks the buffer,
-- and leaves a valid stream with room for `n` bytes.
pub s_realloc_lem :
    {s : Stream} (n : ℕ)
    → IsValid s
    → n < 2 ^ 32
    → (written (s_realloc s n) ≡ written s)
      × ((s_realloc s n).p ≡ s.p)
      × ((s_realloc s n).end ≡ s.end)
      × ((s_realloc s n).hdr ≡ s.hdr)
      × (n ≤ (s_realloc s n).size)
      × (s.size ≤ (s_realloc s n).size)
      × IsValid (s_realloc s n)
unfolding s_realloc
s_realloc_lem {s} n v h = (
  ground
      (arith, take-append_le s.p s.buf (replicate (n - length s.buf) zero_byte), v.room, v.cursor),
  ground arith,
  ground arith,
  ground arith,
  ground arith,
  ground arith,
  unfold s_realloc in s_realloc-IsValid n v h,
)

pub Writes-le : {s : Stream} {ws : List ℕ} {n : ℕ} (m : ℕ) → Writes s ws n → m ≤ n → Writes s ws m
Writes-le m w h = record { valid = w.valid; before = w.before; fits = omega (arith, w.fits) }

-- `out_uint8a` on a valid stream: exactly where the bytes fit they are appended to what is
-- written, and the stream stays valid; otherwise the session ends. It writes nothing else.
pub out_uint8a_lem :
    {s : Stream} (bs : List ℕ)
    → IsValid s
    → (out_uint8a s bs
        ≡ (if leb (length bs) (s.size - s.p) then ok (put s bs) else exit write_overrun))
      × ((s.size - s.p < length bs) ⊎ (IsValid (put s bs) × (written (put s bs) ≡ written s ++ bs)))
out_uint8a_lem {s} bs v = elim (dec_lt (s.size - s.p) (length bs)) [
  | yes h ↦ (rw (out_uint8a-full bs v h, lt→leb (length bs) (s.size - s.p) h), inl h)
  | no h ↦
      let step =
        out_uint8a-Writes bs {n = 0}
          (record { valid = v; before = refl; fits = omega (arith, v.cursor) }) in
      (
        rw (step.0, le→leb (length bs) (s.size - s.p) (omega arith)),
        inr (step.1.valid, step.1.before),
      )
]

pub poke-put :
    {s : Stream} (bs : List ℕ) → IsValid s → s.p + length bs ≤ s.size → poke s bs ≡ ok (put s bs)
unfolding poke
poke-put {s} bs v h = rw (le→leb (s.p + length bs) (length s.buf) (omega (arith, v.room)))

-- Growing a stream leaves what is to be read.
pub s_realloc-Reads :
    {s : Stream} {xs : List ℕ} (n : ℕ) → Reads s xs → n < 2 ^ 32 → Reads (s_realloc s n) xs
unfolding s_realloc
s_realloc-Reads {s} {xs} n r h = record {
  valid = unfold s_realloc in s_realloc-IsValid n r.valid h;
  inside = ground (arith, r.inside);
  rest = elim (Bool-cases (leb n s.size)) [
    | inl large ↦ rw large r.rest
    | inr small ↦ rw small (
        sym (drop-take s.p s.end (s.buf ++ replicate (n - length s.buf) zero_byte))
        ∙ (ap (drop s.p) (
              take-append_le s.end s.buf (replicate (n - length s.buf) zero_byte)
                (omega (arith, r.valid.mark, r.valid.room)))
            ∙ (drop-take s.p s.end s.buf ∙ r.rest)))
  ];
}

-- `n` more bytes are to be written over what is there, and `tail` stands behind them.
pub record Patches (s : Stream) (ws : List ℕ) (n : ℕ) (tail : List ℕ) : Type 0 where
  pub writes : Writes s ws n
  pub behind : drop (s.p + n) s.buf ≡ tail

drop-put :
    (s : Stream) (bs : List ℕ)
    → s.p + length bs ≤ length s.buf
    → drop (s.p + length bs) (put s bs).buf ≡ drop (s.p + length bs) s.buf
drop-put s bs h =
    ap (drop (s.p + length bs))
      (sym (append_assoc (take s.p s.buf) bs (drop (s.p + length bs) s.buf)))
    ∙ (drop_cong (s.p + length bs) (length (take s.p s.buf ++ bs)) _
          (omega (arith, length-append (take s.p s.buf) bs, length-take {0} s.p s.buf))
        ∙ drop-append_self (take s.p s.buf ++ bs) (drop (s.p + length bs) s.buf))

pub out_uint8a-Patches :
    {s : Stream} {ws : List ℕ} (bs : List ℕ) {n : ℕ} {tail : List ℕ}
    → Patches s ws (length bs + n) tail
    → (out_uint8a s bs ≡ ok (put s bs)) × Patches (put s bs) (ws ++ bs) n tail
out_uint8a-Patches {s} {ws} bs {n} {tail} q =
    let step = out_uint8a-Writes bs {n = n} q.writes in
    (
      step.0,
      record {
        writes = step.1;
        behind =
            sym (drop-drop n (s.p + length bs) (put s bs).buf)
            ∙ (ap (drop n) (drop-put s bs (omega (arith, q.writes.fits, q.writes.valid.room)))
                ∙ (drop-drop n (s.p + length bs) s.buf
                    ∙ (drop_cong (s.p + length bs + n) (s.p + (length bs + n)) s.buf (omega arith)
                        ∙ q.behind)));
      },
    )

-- What a stream holds up to `m`, once its patch is complete.
pub patched :
    {s : Stream} {ws tail : List ℕ} (m : ℕ)
    → Patches s ws 0 tail
    → s.p ≤ m
    → take m s.buf ≡ ws ++ take (m - s.p) tail
patched {s} {ws} {tail} m q h =
    take_cong m (s.p + (m - s.p)) s.buf (omega arith)
    ∙ (take_add s.p (m - s.p) s.buf
        ∙ (ap (λ w. w ++ take (m - s.p) (drop s.p s.buf)) q.writes.before
            ∙ ap (λ w. ws ++ take (m - s.p) w)
                (drop_cong s.p (s.p + 0) s.buf (omega arith) ∙ q.behind)))

-- The same with the new stream named, and what it keeps of the old one.
pub record Patched (s : Stream) (bs ws : List ℕ) (n : ℕ) (tail : List ℕ) : Type 0 where
  pub next : Stream
  pub returns : out_uint8a s bs ≡ ok next
  pub patches : Patches next (ws ++ bs) n tail
  pub same_end : next.end ≡ s.end
  pub same_size : next.size ≡ s.size
  pub same_hdr : next.hdr ≡ s.hdr
  pub moved : next.p ≡ s.p + length bs

pub patch :
    {s : Stream} {ws : List ℕ} (bs : List ℕ) {n : ℕ} {tail : List ℕ}
    → Patches s ws (length bs + n) tail
    → Patched s bs ws n tail
patch {s} bs {n} q =
    let step = out_uint8a-Patches bs {n = n} q in
    record {
      next = put s bs;
      returns = step.0;
      patches = step.1;
      same_end = refl;
      same_size = refl;
      same_hdr = refl;
      moved = refl;
    }

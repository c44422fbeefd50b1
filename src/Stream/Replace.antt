-- ===== src/Stream/Replace.antt =====
-- The bytes that are to be read are replaced where they stand, as `inout_uint8p` allows.
use rdesktop.Common.{ℕ, ◌+◌, ◌-◌, ◌^◌, ◌≤◌, ◌<◌, ◌≡◌, sym, ◌∙◌, ap, arith, List, ◌++◌, true, false}
use rdesktop.Common.{
  ok, length, length-append, drop-append_self, take, drop, length-take, ltb, le→leb, le→ltb,
}
use rdesktop.Common.{take_cong, drop_cong, drop-drop, drop-take, take-append_ge, take-append_self}
use rdesktop.Stream.{Stream, s_check_rem, peek, poke, s_seek, s_left}
use rdesktop.Stream.Read.{Reads, advance, check_rem-Reads, length-Reads, peek-lem}
use rdesktop.Stream.Write.{put, poke-put, length-put}

-- The unread bytes are overwritten from the pointer on.
overwritten-Reads :
    {s : Stream} (old new rest : List ℕ)
    → Reads s (old ++ rest)
    → length new ≡ length old
    → Reads (record (put s new) { p = s.p }) (new ++ rest)
overwritten-Reads {s} old new rest r e =
    let n = length new in
    let size : n + length rest ≡ s.end - s.p =
      omega (arith, e, length-Reads r, length-append old rest) in
    let room : s.p + n ≤ length s.buf = omega (arith, size, r.inside, r.valid.mark, r.valid.room) in
    let kept : take (s.end - s.p - n) (drop (s.p + n) s.buf) ≡ rest =
      ap (take (s.end - s.p - n)) (sym (drop-drop n s.p s.buf))
      ∙ (sym (drop-take n (s.end - s.p) (drop s.p s.buf))
          ∙ (ap (drop n) r.rest
              ∙ (drop_cong n (length old) (old ++ rest) e ∙ drop-append_self old rest))) in
    record {
      valid = record {
        room = length-put s new room ∙ r.valid.room;
        cursor = r.valid.cursor;
        mark = r.valid.mark;
        wide = r.valid.wide;
      };
      inside = r.inside;
      rest =
          ap (take (s.end - s.p)) (
            drop_cong s.p (length (take s.p s.buf)) _
              (omega (arith, length-take {0} s.p s.buf, room))
            ∙ drop-append_self (take s.p s.buf) (new ++ drop (s.p + n) s.buf))
          ∙ (take-append_ge (s.end - s.p) new (drop (s.p + n) s.buf) (omega (arith, size))
              ∙ ap (λ w. new ++ w) kept);
    }

seek_lem : (s : Stream) (o : ℕ) → o ≤ s.end → s.end < 2 ^ 32 → s_seek s o ≡ ok (record s { p = o })
unfolding s_seek s_check_rem
seek_lem s o inside small = ground arith

-- All steps of a replacement: the checks, what is found, the stream with `new`, and what is read of it
-- from the old pointer on.
pub record Replaced (s : Stream) (n : ℕ) (old new rest : List ℕ) : Type 0 where
  pub next : Stream
  pub readable : s_check_rem s n ≡ true
  pub writable : ltb (s_left s) n ≡ false
  pub got : peek s n ≡ ok (old, advance s n)
  pub wrote : poke s new ≡ ok next
  pub back : s_seek next s.p ≡ ok (record next { p = s.p })
  pub reads : Reads (record next { p = s.p }) (new ++ rest)

pub replaced :
    {s : Stream} (n : ℕ) (old new rest : List ℕ)
    → Reads s (old ++ rest)
    → length old ≡ n
    → length new ≡ n
    → Replaced s n old new rest
replaced {s} n old new rest r e e' =
    let v = r.valid in
    let there : n + length rest ≡ s.end - s.p =
      omega (arith, e, length-Reads r, length-append old rest) in
    record {
      next = put s new;
      readable =
          check_rem-Reads n r
          ∙ le→leb n (length (old ++ rest)) (omega (arith, there, length-Reads r));
      writable = le→ltb (s_left s) n (omega (arith, there, r.inside, v.mark, v.wide));
      got =
          peek-lem n r (omega (arith, there, length-Reads r))
          ∙ ap (λ bs. ok (bs, advance s n))
              (take_cong n (length old) (old ++ rest) (sym e) ∙ take-append_self old rest);
      wrote = poke-put new v (omega (arith, there, r.inside, v.mark, e'));
      back = seek_lem (put s new) s.p r.inside (omega (arith, v.mark, v.wide));
      reads = overwritten-Reads old new rest r (e' ∙ sym e);
    }

-- ===== src/Iso/Frame.antt =====
-- The frame that `iso_send` puts around a packet.
use rdesktop.Common.{ℕ, ◌+◌, ◌-◌, ◌/◌, ◌%◌, ◌^◌, ◌≤◌, ◌<◌, ◌≡◌, refl, sym, ◌∙◌, ap}
use rdesktop.Common.{arith, List, [], ◌∷◌, ◌++◌, ok, some}
use rdesktop.Common.{take, drop, u16, take_cong}
use rdesktop.Common.{drop-take}
use rdesktop.Stream.{Stream, iso_hdr, s_pop_layer, out_uint8, out_uint16_be, le_bytes, be16}
use rdesktop.Stream.{s_remaining}
use rdesktop.Stream.Valid.{IsValid}
use rdesktop.Stream.Write.{Patches, patch, patched}
use rdesktop.Iso.{iso_send}
use rdesktop.Iso.{pdu_dt}

-- The header of a data packet of `len` bytes in all.
abbrev pub data_header : ℕ → List ℕ
data_header len = 3 ∷ 0 ∷ (len / 256 % 256) ∷ (len % 256) ∷ 2 ∷ 0xf0 ∷ 0x80 ∷ []

pop_iso :
    (s : Stream) (o : ℕ) → s.hdr iso_hdr ≡ some o → s_pop_layer iso_hdr s ≡ ok (record s { p = o })
unfolding s_pop_layer
pop_iso s o pushed = rw (pushed, s_pop_layer) refl

-- `iso_send` puts the header, with the length of the whole packet, over the seven bytes that
-- `iso_init` left for it, and changes nothing behind them: the packet that goes to `tcp_send` is
-- the header and the bytes from there to the end.
pub iso_send_lem :
    {s : Stream} (o : ℕ)
    → IsValid s
    → s.hdr iso_hdr ≡ some o
    → o + 7 ≤ s.end
    → s.end - o < 2 ^ 16
    → (t : Stream) × (iso_send s ≡ ok t)
      × (take t.end t.buf
          ≡ (take o s.buf ++ data_header (s.end - o)) ++ drop (o + 7) (take s.end s.buf))
      × (t.end ≡ s.end)
      × IsValid t
unfolding iso_send out_uint8 out_uint16_be
iso_send_lem {s} o v pushed room small =
    let s0 = record s { p = o } in
    let len = u16 (s_remaining s0) in
    let q0 : Patches s0 (take o s.buf) 7 (drop (o + 7) s.buf) = record {
      writes = record {
        valid = record {
          room = v.room;
          cursor = omega (arith, v.mark);
          mark = v.mark;
          wide = v.wide;
        };
        before = refl;
        fits = omega (arith, v.mark);
      };
      behind = refl;
    } in
    let q1 = patch (le_bytes 1 3) {n = 6} q0 in
    let q2 = patch (le_bytes 1 0) {n = 5} q1.patches in
    let q3 = patch (be16 len) {n = 3} q2.patches in
    let q4 = patch (le_bytes 1 2) {n = 2} q3.patches in
    let q5 = patch (le_bytes 1 pdu_dt) {n = 1} q4.patches in
    let q6 = patch (le_bytes 1 0x80) {n = 0} q5.patches in
    let e : q6.next.end ≡ s.end =
      q6.same_end ∙ (q5.same_end ∙ (q4.same_end ∙ (q3.same_end ∙ (q2.same_end ∙ q1.same_end)))) in
    let at : q6.next.p ≡ o + 7 =
      omega (arith, q6.moved, q5.moved, q4.moved, q3.moved, q2.moved, q1.moved) in
    (
      q6.next,
      rw (pop_iso s o pushed, q1.returns, q2.returns, q3.returns, q4.returns, q5.returns)
          q6.returns,
      take_cong q6.next.end s.end q6.next.buf e
          ∙ (patched s.end q6.patches (omega (arith, room, at))
              ∙ (ap (λ w. w ++ take (s.end - q6.next.p) (drop (o + 7) s.buf))
                    (flat (take o s.buf) len)
                  ∙ (ap
                        (λ k.
                          (take o s.buf ++ data_header k)
                          ++ take (s.end - q6.next.p) (drop (o + 7) s.buf))
                        (omega (arith, small, room, v.mark, v.wide))
                      ∙ ap (λ w. (take o s.buf ++ data_header (s.end - o)) ++ w)
                          (take_cong (s.end - q6.next.p) (s.end - (o + 7)) (drop (o + 7) s.buf)
                              (omega (arith, at))
                            ∙ sym (drop-take (o + 7) s.end s.buf))))),
      e,
      q6.patches.writes.valid,
    )
  where
    flat :
        (w : List ℕ) (k : ℕ)
        → (((((w ++ le_bytes 1 3) ++ le_bytes 1 0) ++ be16 k) ++ le_bytes 1 2) ++ le_bytes 1 pdu_dt)
            ++ le_bytes 1 0x80
          ≡ w ++ data_header k
    flat [] k = refl
    flat (b ∷ w) k = ap (λ t. b ∷ t) (flat w k)

-- ===== src/Mcs/Send.antt =====
-- The bytes of a data packet that is sent.
use rdesktop.Common.{ℕ, ◌+◌, ◌-◌, ◌/◌, ◌%◌, ◌^◌, ◌≤◌, ◌<◌, ◌≡◌, refl, sym, ◌∙◌, ap}
use rdesktop.Common.{arith, List, [], ◌∷◌, ◌++◌, ok, some}
use rdesktop.Common.{
  take, drop, u16, drop_cong, take_cong, drop-take, bit_or, bit_or_fields, bit_or_comm,
}
use rdesktop.Common.{length, drop-append_self, length-take}
use mathlib.Core.List.{append_assoc}
use rdesktop.Stream.{
  Stream, mcs_hdr, iso_hdr, s_pop_layer, out_uint8, out_uint16_be, le_bytes, be16, s_remaining,
}
use rdesktop.Stream.Valid.{IsValid}
use rdesktop.Stream.Write.{Patches, patch, patched}
use rdesktop.Iso.Frame.{data_header, iso_send_lem}
use rdesktop.Mcs.{Link, mcs_data_packet, mcs_send_to_channel}
use rdesktop.Mcs.Packets.{sent}

-- The header of a send-data request with `len` bytes of user data, below 2^15.
abbrev pub request_header : (user channel len : ℕ) → List ℕ
request_header user channel len =
    0x64
    ∷ (user / 256 % 256)
    ∷ (user % 256)
    ∷ (channel / 256 % 256)
    ∷ (channel % 256)
    ∷ 0x70
    ∷ ((0x8000 + len) / 256 % 256)
    ∷ ((0x8000 + len) % 256)
    ∷ []

pop_mcs :
    (s : Stream) (o : ℕ) → s.hdr mcs_hdr ≡ some o → s_pop_layer mcs_hdr s ≡ ok (record s { p = o })
unfolding s_pop_layer
pop_mcs s o pushed = rw (pushed, s_pop_layer) refl

-- `length |= 0x8000`
long_form : (len : ℕ) → len < 2 ^ 15 → bit_or len 0x8000 ≡ 0x8000 + len
long_form len small = bit_or_comm len 0x8000 ∙ bit_or_fields 15 1 len small

mcs_data_packet_lem :
    {s : Stream} (user channel o : ℕ)
    → IsValid s
    → s.hdr mcs_hdr ≡ some o
    → o + 8 ≤ s.end
    → s.end - (o + 8) < 2 ^ 15
    → (t : Stream) × (mcs_data_packet user channel s ≡ ok t)
      × (take t.end t.buf
          ≡ (take o s.buf ++ request_header user channel (s.end - (o + 8)))
            ++ drop (o + 8) (take s.end s.buf))
      × (t.end ≡ s.end)
      × (t.hdr ≡ s.hdr)
      × IsValid t
unfolding mcs_data_packet out_uint8 out_uint16_be
mcs_data_packet_lem {s} user channel o v pushed room small =
    let s0 = record s { p = o } in
    let raw = u16 (s_remaining s0 + 2 ^ 64 - 8) in
    let len = bit_or raw 0x8000 in
    let at_len : raw ≡ s.end - (o + 8) = omega (arith, small, room, v.mark, v.wide) in
    let q0 : Patches s0 (take o s.buf) 8 (drop (o + 8) s.buf) = record {
      writes = record {
        valid = record {
          room = v.room;
          cursor = omega (arith, v.mark);
          mark = v.mark;
          wide = v.wide;
        };
        before = refl;
        fits = omega (arith, v.mark);
      };
      behind = refl;
    } in
    let q1 = patch (le_bytes 1 0x64) {n = 7} q0 in
    let q2 = patch (be16 user) {n = 5} q1.patches in
    let q3 = patch (be16 channel) {n = 3} q2.patches in
    let q4 = patch (le_bytes 1 0x70) {n = 2} q3.patches in
    let q5 = patch (be16 len) {n = 0} q4.patches in
    let e : q5.next.end ≡ s.end =
      q5.same_end ∙ (q4.same_end ∙ (q3.same_end ∙ (q2.same_end ∙ q1.same_end))) in
    let at : q5.next.p ≡ o + 8 = omega (arith, q5.moved, q4.moved, q3.moved, q2.moved, q1.moved) in
    (
      q5.next,
      rw (pop_mcs s o pushed, q1.returns, q2.returns, q3.returns, q4.returns) q5.returns,
      take_cong q5.next.end s.end q5.next.buf e
          ∙ (patched s.end q5.patches (omega (arith, room, at))
              ∙ (ap (λ w. w ++ take (s.end - q5.next.p) (drop (o + 8) s.buf))
                    (flat (take o s.buf) len)
                  ∙ (ap
                        (λ k.
                          (take o s.buf ++ framed k)
                          ++ take (s.end - q5.next.p) (drop (o + 8) s.buf))
                        (ap (λ k. bit_or k 0x8000) at_len ∙ long_form (s.end - (o + 8)) small)
                      ∙ ap (λ w. (take o s.buf ++ framed (0x8000 + (s.end - (o + 8)))) ++ w)
                          (take_cong (s.end - q5.next.p) (s.end - (o + 8)) (drop (o + 8) s.buf)
                              (omega (arith, at))
                            ∙ sym (drop-take (o + 8) s.end s.buf))))),
      e,
      q5.same_hdr ∙ (q4.same_hdr ∙ (q3.same_hdr ∙ (q2.same_hdr ∙ q1.same_hdr))),
      q5.patches.writes.valid,
    )
  where
    framed : ℕ → List ℕ
    framed k =
        0x64
        ∷ (user / 256 % 256)
        ∷ (user % 256)
        ∷ (channel / 256 % 256)
        ∷ (channel % 256)
        ∷ 0x70
        ∷ (k / 256 % 256)
        ∷ (k % 256)
        ∷ []

    flat :
        (w : List ℕ) (k : ℕ)
        → ((((w ++ le_bytes 1 0x64) ++ be16 user) ++ be16 channel) ++ le_bytes 1 0x70) ++ be16 k
          ≡ w ++ framed k
    flat [] k = refl
    flat (b ∷ w) k = ap (λ t. b ∷ t) (flat w k)

-- A packet that was made with `mcs_init`, so that its ISO header is at 0 and its MCS header at 7, and
-- that has less than 2^15 bytes of user data: `mcs_send_to_channel` hands over one packet, which is
-- the header of the frame with the length of all, the send-data request of the user to the channel
-- with the length of the user data, and the user data as they were.
pub mcs_send_to_channel_lem :
    {s : Stream} (channel : ℕ) (k : Link)
    → IsValid s
    → s.hdr iso_hdr ≡ some 0
    → s.hdr mcs_hdr ≡ some 7
    → 15 ≤ s.end
    → s.end - 15 < 2 ^ 15
    → mcs_send_to_channel channel s k
      ≡ ok (
          sent
            (data_header s.end
              ++ (request_header k.g_mcs_userid channel (s.end - 15) ++ drop 15 (take s.end s.buf)))
            k)
unfolding mcs_send_to_channel
mcs_send_to_channel_lem {s} channel k v iso mcs room small =
    let (t, built, bytes, same_end, same_hdr, valid) =
      mcs_data_packet_lem k.g_mcs_userid channel 7 v mcs room small in
    let (u, framed, frame, end, valid_u) =
      iso_send_lem 0 valid (ap (λ h. h iso_hdr) same_hdr ∙ iso) (omega (arith, same_end))
        (omega (arith, same_end, small)) in
    let request = request_header k.g_mcs_userid channel (s.end - 15) in
    let behind : drop 7 (take t.end t.buf) ≡ request ++ drop 15 (take s.end s.buf) =
      ap (drop 7) (bytes ∙ append_assoc (take 7 s.buf) request (drop 15 (take s.end s.buf)))
      ∙ (drop_cong 7 (length (take 7 s.buf))
            (take 7 s.buf ++ (request ++ drop 15 (take s.end s.buf)))
            (omega (arith, length-take {0} 7 s.buf, v.room, v.mark))
          ∙ drop-append_self (take 7 s.buf) (request ++ drop 15 (take s.end s.buf))) in
    rw (built, framed)
      (ap (λ p. ok (sent p k))
        (frame
          ∙ (ap (λ w. data_header (t.end - 0) ++ w) behind
              ∙ ap (λ n. data_header n ++ (request ++ drop 15 (take s.end s.buf)))
                  (omega (arith, same_end)))))

-- ===== src/Secure/Send.antt =====
-- The bytes of a packet that goes out unencrypted.
use rdesktop.Common.{
  ℕ, ◌+◌, ◌-◌, ◌^◌, ◌≤◌, ◌<◌, ◌≡◌, refl, sym, ◌∙◌, ap, arith, true, false, List, [], ◌++◌,
}
use rdesktop.Common.{
  ok, some, take, drop, length, has_bit, if◌then◌else◌, Bool-cases, inl, inr, length-take,
}
use rdesktop.Common.{drop-append_self, drop-take, take_cong, drop_cong}
use mathlib.Core.List.{append_assoc}
use rdesktop.Stream.{Stream, sec_hdr, iso_hdr, mcs_hdr, le_bytes, out_uint32_le, s_pop_layer}
use rdesktop.Stream.Valid.{IsValid}
use rdesktop.Stream.Write.{Patches, patch, patched}
use rdesktop.Iso.Frame.{data_header}
use rdesktop.Mcs.{Link}
use rdesktop.Mcs.Packets.{sent}
use rdesktop.Mcs.Send.{request_header, mcs_send_to_channel_lem}
use rdesktop.Secure.{Security, unlicensed, sec_encrypt_flag, sec_send_to_channel}

-- The security header: the flags, until there is an answer of the licence server.
abbrev pub security_header : Security → ℕ → List ℕ
security_header c flags = if unlicensed c then le_bytes 4 flags else []

-- A packet that was made with `sec_init`, so that the headers of the three layers are at 0, 7 and 15.
pub record IsPacket (s : Stream) : Type 0 where
  pub valid : IsValid s
  pub iso : s.hdr iso_hdr ≡ some 0
  pub mcs : s.hdr mcs_hdr ≡ some 7
  pub sec : s.hdr sec_hdr ≡ some 15

pop_sec : (s : Stream) → s.hdr sec_hdr ≡ some 15 → s_pop_layer sec_hdr s ≡ ok (record s { p = 15 })
unfolding s_pop_layer
pop_sec s pushed = rw (pushed, s_pop_layer) refl

-- The packet that is handed over.
abbrev pub framed : Security → Stream → (flags channel : ℕ) → Link → List ℕ
framed c s flags channel k =
    data_header s.end
    ++ (request_header k.g_mcs_userid channel (s.end - 15)
        ++ (security_header c flags
            ++ drop (15 + length (security_header c flags)) (take s.end s.buf)))

plain_short :
    (c : Security) {s : Stream} (flags channel : ℕ) (k : Link)
    → IsPacket s
    → has_bit flags sec_encrypt_flag ≡ false
    → unlicensed c ≡ false
    → 15 ≤ s.end
    → s.end - 15 < 2 ^ 15
    → sec_send_to_channel c s flags channel k ≡ ok (sent (framed c s flags channel k) k)
unfolding sec_send_to_channel
plain_short c {s} flags channel k p plain licensed room small =
    let v = p.valid in
    let at : IsValid (record s { p = 15 }) = record {
      room = v.room;
      cursor = omega (arith, v.mark);
      mark = v.mark;
      wide = v.wide;
    } in
    rw (pop_sec s p.sec, plain, licensed)
      (mcs_send_to_channel_lem channel k at p.iso p.mcs room small)

plain_long :
    (c : Security) {s : Stream} (flags channel : ℕ) (k : Link)
    → IsPacket s
    → has_bit flags sec_encrypt_flag ≡ false
    → unlicensed c ≡ true
    → 19 ≤ s.end
    → s.end - 15 < 2 ^ 15
    → sec_send_to_channel c s flags channel k ≡ ok (sent (framed c s flags channel k) k)
unfolding sec_send_to_channel out_uint32_le
plain_long c {s} flags channel k p plain open_ room small =
    let v = p.valid in
    let q0 : Patches (record s { p = 15 }) (take 15 s.buf) 4 (drop 19 s.buf) = record {
      writes = record {
        valid = record {
          room = v.room;
          cursor = omega (arith, v.mark);
          mark = v.mark;
          wide = v.wide;
        };
        before = refl;
        fits = omega (arith, v.mark);
      };
      behind = refl;
    } in
    let q = patch (le_bytes 4 flags) {n = 0} q0 in
    let t = q.next in
    let body : take t.end t.buf
        ≡ take 15 s.buf ++ (le_bytes 4 flags ++ drop 19 (take s.end s.buf)) =
      take_cong t.end s.end t.buf q.same_end
      ∙ (patched s.end q.patches (omega (arith, room, q.moved))
          ∙ (append_assoc (take 15 s.buf) (le_bytes 4 flags) (take (s.end - t.p) (drop 19 s.buf))
              ∙ ap (λ w. take 15 s.buf ++ (le_bytes 4 flags ++ w))
                  (take_cong (s.end - t.p) (s.end - 19) (drop 19 s.buf) (omega (arith, q.moved))
                    ∙ sym (drop-take 19 s.end s.buf)))) in
    let user : drop 15 (take t.end t.buf) ≡ le_bytes 4 flags ++ drop 19 (take s.end s.buf) =
      ap (drop 15) body
      ∙ (drop_cong 15 (length (take 15 s.buf)) _
            (omega (arith, length-take {0} 15 s.buf, v.room, v.mark, room))
          ∙ drop-append_self (take 15 s.buf) (le_bytes 4 flags ++ drop 19 (take s.end s.buf))) in
    let out =
      mcs_send_to_channel_lem {s = t} channel k q.patches.writes.valid
        (ap (λ h. h iso_hdr) q.same_hdr ∙ p.iso) (ap (λ h. h mcs_hdr) q.same_hdr ∙ p.mcs)
        (omega (arith, q.same_end, room)) (omega (arith, q.same_end, small)) in
    rw (pop_sec s p.sec, plain, open_, q.returns) (rw (user, q.same_end) at out)

-- A packet that was made with `sec_init`, with room for its security header, with less than 2^15
-- bytes behind the headers below, and sent without the flag for encryption: it goes out as one frame,
-- with the send-data request of the user to the channel, the flags in front of its bytes as long as
-- there was no answer of the licence server, and its bytes as they were.
pub sec_send_to_channel-plain :
    (c : Security) {s : Stream} (flags channel : ℕ) (k : Link)
    → IsPacket s
    → has_bit flags sec_encrypt_flag ≡ false
    → 15 + length (security_header c flags) ≤ s.end
    → s.end - 15 < 2 ^ 15
    → sec_send_to_channel c s flags channel k ≡ ok (sent (framed c s flags channel k) k)
sec_send_to_channel-plain c {s} flags channel k p plain room small =
    elim (Bool-cases (unlicensed c)) [
      | inl open_ ↦ plain_long c flags channel k p plain open_ (rw open_ at room) small
      | inr licensed ↦ plain_short c flags channel k p plain licensed (rw licensed at room) small
    ]

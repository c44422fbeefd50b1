-- ===== src/Licence/Sent.antt =====
-- The answers to the licence server, as they go out.
use rdesktop.Common.{ℕ, ◌+◌, ◌-◌, ◌^◌, ◌≤◌, ◌<◌, ◌≡◌, refl, ◌∙◌, ap, arith, List, ◌++◌}
use rdesktop.Common.{ok, take, drop, length, Result, length-append, length-take, length-replicate}
use rdesktop.Common.{Bool-cases, inl, inr, drop_cong, drop-append_self}
use rdesktop.Stream.{Stream, s_alloc, s_push_layer, s_mark_end, sec_hdr, iso_hdr, mcs_hdr}
use rdesktop.Tcp.{tcp_init}
use rdesktop.Iso.{iso_init}
use rdesktop.Iso.Frame.{data_header}
use rdesktop.Mcs.{mcs_init, mcs_global_channel}
use rdesktop.Mcs.Packets.{sent}
use rdesktop.Mcs.Send.{request_header}
use rdesktop.Secure.{Security, sec_init, sec_send, header_length, unlicensed}
use rdesktop.Secure.Send.{IsPacket, security_header, sec_send_to_channel-plain, framed}
use rdesktop.Licence.{Licence, send_packet, sec_license_pkt}
use rdesktop.Stream.Puts.{Puts, Left}

-- What goes out for a packet with the bytes `bs`.
abbrev pub licence_frame : Licence → List ℕ → List ℕ
licence_frame l bs =
    let user = security_header l.security sec_license_pkt ++ bs in
    data_header (15 + length user)
    ++ (request_header l.link.g_mcs_userid mcs_global_channel (length user) ++ user)

abbrev pub answered : Licence → List ℕ → Licence
answered l bs = record l { link = sent (licence_frame l bs) l.link }

record IsInit (c : Security) (n : ℕ) (s : Stream) : Type 0 where
  pub packet : IsPacket s
  pub at : s.p ≡ 15 + length (security_header c sec_license_pkt)
  pub room : s.p + (n + 2) ≤ s.size

init_lem : (c : Security) (n : ℕ) → n < 2 ^ 15 → IsInit c n (sec_init c sec_license_pkt (n + 2))
unfolding sec_init header_length mcs_init iso_init tcp_init s_alloc s_push_layer
init_lem c n small = elim (Bool-cases (unlicensed c)) [
  | inl open_ ↦ rw open_ (record {
    packet = record {
      valid = record {
        room = length-replicate _ 0;
        cursor = omega arith;
        mark = omega arith;
        wide = omega arith;
      };
      iso = refl;
      mcs = refl;
      sec = refl;
    };
    at = rw open_ refl;
    room = omega arith;
  })
  | inr licensed ↦ rw licensed (record {
    packet = record {
      valid = record {
        room = length-replicate _ 0;
        cursor = omega arith;
        mark = omega arith;
        wide = omega arith;
      };
      iso = refl;
      mcs = refl;
      sec = refl;
    };
    at = rw licensed refl;
    room = omega arith;
  })
]

-- The rest of the way of a packet whose bytes are written.
finish :
    (l : Licence) (bs : List ℕ) (s0 s1 : Stream)
    → IsInit l.security (length bs) s0
    → Left s0 s1 (take s0.p s0.buf ++ bs) 2 (length bs)
    → length bs < 2 ^ 14
    → sec_send l.security (s_mark_end s1) sec_license_pkt l.link
      ≡ ok (sent (licence_frame l bs) l.link)
unfolding s_mark_end sec_send
finish l bs s0 s1 i left small =
    let v = left.writes.valid in
    let h = left.same_hdr in
    let k = i.packet in
    let header = security_header l.security sec_license_pkt in
    let short : length header ≤ 4 = header_size l.security in
    let ended : IsPacket (record s1 { end = s1.p }) = record {
      valid = record { room = v.room; cursor = v.cursor; mark = v.cursor; wide = v.wide };
      iso = ap (λ f. f iso_hdr) h ∙ k.iso;
      mcs = ap (λ f. f mcs_hdr) h ∙ k.mcs;
      sec = ap (λ f. f sec_hdr) h ∙ k.sec;
    } in
    let out =
      sec_send_to_channel-plain l.security {s = record s1 { end = s1.p }} sec_license_pkt
        mcs_global_channel l.link ended refl (omega (arith, left.moved, i.at))
        (omega (arith, left.moved, i.at, short, small)) in
    let body : drop (15 + length header) (take s1.p s1.buf) ≡ bs =
      ap (drop (15 + length header)) left.writes.before
      ∙ (drop_cong (15 + length header) (length (take s0.p s0.buf)) _
            (omega (arith, length-take {0} s0.p s0.buf, i.at, k.valid.room, k.valid.cursor))
          ∙ drop-append_self (take s0.p s0.buf) bs) in
    let len : s1.p ≡ 15 + length (header ++ bs) =
      omega (arith, left.moved, i.at, length-append header bs) in
    let len15 : s1.p - 15 ≡ length (header ++ bs) = omega (arith, len) in
    let frame : framed l.security (record s1 { end = s1.p }) sec_license_pkt mcs_global_channel
          l.link
        ≡ licence_frame l bs =
      rw (body, len15, len) refl in
    out ∙ ap (λ p. ok (sent p l.link)) frame
  where
    header_size : (c : Security) → length (security_header c sec_license_pkt) ≤ 4
    header_size c = elim (Bool-cases (unlicensed c)) [
      | inl open_ ↦ rw open_ (omega arith)
      | inr licensed ↦ rw licensed (omega arith)
    ]

-- A packet that is written with exactly the length that is reserved goes out, as one frame.
pub send_packet_lem :
    (l : Licence) (write : Stream → Result Stream) (bs : List ℕ)
    → Puts write bs
    → length bs < 2 ^ 14
    → send_packet (length bs) write l ≡ ok (answered l bs)
unfolding send_packet
send_packet_lem l write bs puts small =
    let s0 = sec_init l.security sec_license_pkt (length bs + 2) in
    let i = init_lem l.security (length bs) (omega (arith, small)) in
    let (s1, (e, left)) =
      puts s0 (take s0.p s0.buf) 2
        (record { valid = i.packet.valid; before = refl; fits = i.room }) in
    rw (e, finish l bs s0 s1 i left small) refl

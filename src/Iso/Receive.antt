-- ===== src/Iso/Receive.antt =====
-- What `iso_recv` makes of a data packet on the wire, however it arrives.
use rdesktop.Common.{ℕ, ◌+◌, ◌-◌, ◌*◌, ◌/◌, ◌%◌, ◌^◌, ◌<◌, ◌≡◌, refl, ◌∙◌, ap}
use rdesktop.Common.{arith, false, List, [], ◌∷◌, ◌++◌, ok}
use rdesktop.Common.{length, take, drop, length-append, take-append_self, drop-append_self, ltb}
use rdesktop.Common.{take_cong, drop_cong}
use rdesktop.Stream.{Stream}
use rdesktop.Stream.Valid.{IsValid}
use mathlib.Core.Path.{subst}
use rdesktop.Stream.Read.{
  length-Reads, Reads, advance, in_uint8-cons, in_uint16_be-cons, in_uint8s-Reads,
}
use rdesktop.Tcp.{Tcp, Incoming}
use rdesktop.Tcp.Receive.{payload, Flows, tcp_recv-Delivers}
use rdesktop.Iso.{iso_recv, iso_recv_msg, message, Message, packet_length, packet_end, whole_packet}
use rdesktop.Iso.{x224_header, pdu_dt}
use rdesktop.Iso.Frame.{data_header}

joined : (len : ℕ) → len < 2 ^ 16 → len / 256 % 256 * 256 + len % 256 ≡ len
joined len small = omega arith

-- The length of a packet of less than 2^16 bytes, in its first four.
packet_length-header :
    (len : ℕ) {s : Stream} {xs : List ℕ}
    → len < 2 ^ 16
    → Reads s (0 ∷ (len / 256 % 256) ∷ (len % 256) ∷ xs)
    → (s' : Stream) × (packet_length 3 s ≡ ok (len, s')) × (s'.end ≡ s.end) × Reads s' xs
unfolding packet_length
packet_length-header len {s} {xs} small r =
    let a = in_uint8s-Reads 1 r (omega arith) in
    let b = in_uint16_be-cons (len / 256 % 256) (len % 256) (omega arith) (omega arith) a.1 in
    (advance (advance (advance s 1) 1) 1, rw (a.0, b.0, joined len small) refl, refl, b.1)

-- The X.224 header of data.
packet_end-data :
    {s : Stream} {xs : List ℕ}
    → Reads s (2 ∷ 0xf0 ∷ 0x80 ∷ xs)
    → (m : Message) × (packet_end false 3 0 s ≡ ok m)
      × (m.is_fastpath ≡ false)
      × (m.code ≡ pdu_dt)
      × Reads m.stream xs
unfolding packet_end x224_header
packet_end-data {s} r =
    let a = in_uint8s-Reads 1 r (omega arith) in
    let b = in_uint8-cons 0xf0 a.1 in
    let c = in_uint8s-Reads 1 b.1 (omega arith) in
    (
      record {
        code = 0xf0;
        is_fastpath = false;
        fastpath_hdr = 0;
        stream = advance (advance (advance s 1) 1) 1;
      },
      rw (a.0, b.0, c.0) refl,
      refl,
      refl,
      c.1,
    )

-- The packet from its first four bytes on.
whole_packet_lem :
    (t : Tcp) (body rest : List ℕ) {s : Stream}
    → t.network_error ≡ false
    → Flows t.incoming
    → IsValid t.g_in
    → length body + 7 < 2 ^ 16
    → s.p ≡ 0
    → Reads s (take 4 (data_header (length body + 7)))
    → payload t.incoming ≡ (2 ∷ 0xf0 ∷ 0x80 ∷ body) ++ rest
    → (m : Message) × (later : List Incoming) × (whole_packet 0 s t
        ≡ ok (message m, record t { g_in = m.stream; incoming = later }))
      × (m.is_fastpath ≡ false)
      × (m.code ≡ pdu_dt)
      × Reads m.stream body
      × (payload later ≡ rest)
      × Flows later
unfolding whole_packet
whole_packet_lem t body rest {s} up f v small start r wire =
    let long : ltb (length body + 7) 4 ≡ false = ground arith in
    let x224 = 2 ∷ 0xf0 ∷ 0x80 ∷ body in
    let version = in_uint8-cons 3 r in
    let (s2, at_length, same_end, empty) = packet_length-header (length body + 7) small version.1 in
    let d =
      (tcp_recv-Delivers t (length body + 7 - 4) [] up f
        (omega (arith, ap length wire, length-append body rest)) (omega arith) v empty
        (omega (arith, same_end, start, length-Reads r))).1 in
    let text : Reads d.stream (2 ∷ 0xf0 ∷ 0x80 ∷ body) =
      subst (λ w. Reads d.stream w)
        (ap (take (length body + 7 - 4)) wire
          ∙ (take_cong (length body + 7 - 4) (length x224) (x224 ++ rest) (omega arith)
              ∙ take-append_self x224 rest))
        d.reads in
    let (m, at_end, slow, code, reads) = packet_end-data text in
    (
      m,
      d.rest,
      rw (version.0, at_length, long, d.returns, at_end) refl,
      slow,
      code,
      reads,
      d.to_come
          ∙ (ap (drop (length body + 7 - 4)) wire
              ∙ (drop_cong (length body + 7 - 4) (length x224) (x224 ++ rest) (omega arith)
                  ∙ drop-append_self x224 rest)),
      d.flows,
    )

-- On a connection that flows and brings a data packet of less than 2^16 bytes, and whatever follows
-- it, `iso_recv` returns a slow-path message whose stream reads as the body of the packet, and
-- leaves exactly what follows to come.
pub iso_recv_lem :
    (t : Tcp) (body rest : List ℕ)
    → t.network_error ≡ false
    → Flows t.incoming
    → IsValid t.g_in
    → length body + 7 < 2 ^ 16
    → payload t.incoming ≡ data_header (length body + 7) ++ (body ++ rest)
    → (m : Message) × (later : List Incoming) × (iso_recv t
        ≡ ok (message m, record t { g_in = m.stream; incoming = later }))
      × (m.is_fastpath ≡ false)
      × Reads m.stream body
      × (payload later ≡ rest)
      × Flows later
unfolding iso_recv iso_recv_msg
iso_recv_lem t body rest up f v small wire =
    let none_yet : Reads (record t.g_in { p = 0; end = 0 }) [] = record {
      valid = record { room = v.room; cursor = omega arith; mark = omega arith; wide = v.wide };
      inside = omega arith;
      rest = refl;
    } in
    let d =
      (tcp_recv-Delivers t 4 [] up f (omega (arith, ap length wire, length-append body rest))
        (omega arith) v none_yet (omega arith)).0 in
    let header : Reads d.stream (take 4 (data_header (length body + 7))) = rw wire at d.reads in
    let (m, later, returns, slow, code, reads, to_come, flows) =
      whole_packet_lem (record t { g_in = d.stream; incoming = d.rest }) body rest up d.flows
        d.reads.valid small d.from_start header (rw wire at d.to_come) in
    (m, later, rw (d.returns, returns, slow, code) refl, slow, reads, to_come, flows)

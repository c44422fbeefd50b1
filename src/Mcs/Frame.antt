-- ===== src/Mcs/Frame.antt =====
-- What `mcs_recv` makes of a send-data indication on the wire.
use rdesktop.Common.{ℕ, ◌+◌, ◌*◌, ◌/◌, ◌%◌, ◌^◌, ◌<◌, ◌≡◌, refl, ◌∙◌}
use rdesktop.Common.{arith, true, false, List, [], ◌∷◌, ◌++◌, ok, if◌then◌else◌}
use rdesktop.Common.{length, ltb, has_bit, has_top_bit, le→leb, lt→leb}
use native.Mathlib.Decide.{dec_lt}
use rdesktop.Stream.{Stream}
use rdesktop.Stream.Valid.{IsValid}
use rdesktop.Stream.Read.{Reads, advance, in_uint8-cons, in_uint16_be-cons, in_uint8s-Reads}
use rdesktop.Tcp.{Tcp}
use rdesktop.Tcp.Receive.{payload, Flows}
use rdesktop.Iso.{message}
use rdesktop.Iso.Frame.{data_header}
use rdesktop.Iso.Receive.{iso_recv_lem}
use rdesktop.Mcs.{Link, Indication, indication_header, mcs_indication, mcs_recv}

-- The length of user data in aligned PER: one byte, or two with the top bit set.
abbrev pub per_length : ℕ → List ℕ
per_length n = if ltb n 0x80 then n ∷ [] else (0x80 + n / 256) ∷ (n % 256) ∷ []

-- A send-data indication of a user to a channel.
abbrev pub indication : (user channel : ℕ) → List ℕ → List ℕ
indication user channel text =
    0x68
    ∷ (user / 256 % 256)
    ∷ (user % 256)
    ∷ (channel / 256 % 256)
    ∷ (channel % 256)
    ∷ 0x70
    ∷ (per_length (length text) ++ text)

-- The length is skipped, in either form.
indication_header-length :
    (user channel : ℕ) (text : List ℕ) {s : Stream}
    → channel < 2 ^ 16
    → length text < 2 ^ 14
    → Reads s (
        (user / 256 % 256)
        ∷ (user % 256)
        ∷ (channel / 256 % 256)
        ∷ (channel % 256)
        ∷ 0x70
        ∷ (per_length (length text) ++ text))
    → (s' : Stream) × (indication_header s ≡ ok (channel, s')) × Reads s' text
unfolding indication_header
indication_header-length user channel text {s} small short r =
    let a = in_uint8s-Reads 2 r (omega arith) in
    let b =
      in_uint16_be-cons (channel / 256 % 256) (channel % 256) (omega arith) (omega arith) a.1 in
    let c = in_uint8s-Reads 1 b.1 (omega arith) in
    let joined : channel / 256 % 256 * 256 + channel % 256 ≡ channel = omega (arith, small) in
    elim (dec_lt (length text) 0x80) [
      | yes one ↦
          let one_byte : ltb (length text) 0x80 ≡ true = ground arith in
          let d = in_uint8-cons (length text) (rw one_byte at c.1) in
          let clear : has_bit (length text) 0x80 ≡ false =
            has_top_bit (length text) (omega arith) ∙ lt→leb 0x80 (length text) one in
          (
            advance (advance (advance (advance (advance s 2) 1) 1) 1) 1,
            rw (a.0, b.0, c.0, d.0, clear, joined) refl,
            d.1,
          )
      | no two ↦
          let two_bytes : ltb (length text) 0x80 ≡ false = ground arith in
          let d = in_uint8-cons (0x80 + length text / 256) (rw two_bytes at c.1) in
          let e = in_uint8s-Reads 1 d.1 (omega arith) in
          let set : has_bit (0x80 + length text / 256) 0x80 ≡ true =
            has_top_bit (0x80 + length text / 256) (omega arith)
            ∙ le→leb 0x80 (0x80 + length text / 256) (omega arith) in
          (
            advance (advance (advance (advance (advance (advance s 2) 1) 1) 1) 1) 1,
            rw (a.0, b.0, c.0, d.0, set, e.0, joined) refl,
            e.1,
          )
    ]

small_packet :
    (user channel : ℕ) (text : List ℕ)
    → length text < 2 ^ 14
    → length (indication user channel text) + 7 < 2 ^ 16
small_packet user channel text short = elim (dec_lt (length text) 0x80) [
  | yes one ↦
      let one_byte : ltb (length text) 0x80 ≡ true = ground arith in
      rw one_byte (omega (arith, short))
  | no two ↦
      let two_bytes : ltb (length text) 0x80 ≡ false = ground arith in
      rw two_bytes (omega (arith, short))
]

-- On a connection that flows and brings a data packet with a send-data indication, of less than
-- 2^14 bytes of user data, `mcs_recv` returns its channel with a stream that reads as exactly the
-- user data, and leaves the link as it was except for the input, where what follows is to come.
pub mcs_recv_lem :
    (k : Link) (channel0 user channel : ℕ) (text rest : List ℕ)
    → k.tcp.network_error ≡ false
    → Flows k.tcp.incoming
    → IsValid k.tcp.g_in
    → channel < 2 ^ 16
    → length text < 2 ^ 14
    → payload k.tcp.incoming
      ≡ data_header (length (indication user channel text) + 7)
        ++ (indication user channel text ++ rest)
    → (i : Indication) × (t : Tcp) × (mcs_recv channel0 k ≡ ok (message i, record k { tcp = t }))
      × (i.channel ≡ channel)
      × (i.is_fastpath ≡ false)
      × Reads i.stream text
      × (payload t.incoming ≡ rest)
      × Flows t.incoming
unfolding mcs_recv mcs_indication
mcs_recv_lem k channel0 user channel text rest up f v small short wire =
    let (m, later, returns, slow, reads, to_come, flows) =
      iso_recv_lem k.tcp (indication user channel text) rest up f v
        (small_packet user channel text short) wire in
    let opcode = in_uint8-cons 0x68 reads in
    let (s', at_header, at_text) =
      indication_header-length user channel text small short opcode.1 in
    (
      record { channel = channel; is_fastpath = false; fastpath_hdr = m.fastpath_hdr; stream = s' },
      record k.tcp { g_in = m.stream; incoming = later },
      rw (returns, slow, opcode.0, at_header) refl,
      refl,
      refl,
      at_text,
      to_come,
      flows,
    )

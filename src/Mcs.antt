-- ===== src/Mcs.antt =====
-- mcs.c: the data packets of the MCS layer, over iso.c. The connection sequence is in Connect.
pub mod Connect
pub mod Packets
pub mod Answers
pub mod Sequence
pub mod Frame
pub mod Send
mod Tests
use rdesktop.Common.{ℕ, zero, suc, ◌+◌, ◌-◌, ◌*◌, ◌/◌, ◌%◌, ◌^◌, Bool, true, false, leb, ◌==◌}
use rdesktop.Common.{if◌then◌else◌, List, [], ◌∷◌, ◌++◌, bit_or, has_bit, take, u16}
use rdesktop.Common.{Result, ok, exit, ◌>>=◌, ◌>>◌}
use rdesktop.Stream.{Stream, mcs_hdr, s_push_layer, s_pop_layer, s_remaining, in_uint8, in_uint8s}
use rdesktop.Stream.{in_uint16_be, out_uint8, out_uint16_be, out_uint32_be}
use rdesktop.Tcp.{Tcp}
use rdesktop.Iso.{iso_init, iso_send, iso_recv, iso_send_msg, pdu_dr, Received, message, nothing}
use rdesktop.Iso.{blocked, Message}

abbrev pub mcs_edrq : ℕ
mcs_edrq = 1

abbrev pub mcs_dpum : ℕ
mcs_dpum = 8

abbrev pub mcs_aurq : ℕ
mcs_aurq = 10

abbrev pub mcs_aucf : ℕ
mcs_aucf = 11

abbrev pub mcs_cjrq : ℕ
mcs_cjrq = 14

abbrev pub mcs_cjcf : ℕ
mcs_cjcf = 15

abbrev pub mcs_sdrq : ℕ
mcs_sdrq = 25

abbrev pub mcs_sdin : ℕ
mcs_sdin = 26

abbrev pub mcs_global_channel : ℕ
mcs_global_channel = 1003

abbrev pub mcs_userchannel_base : ℕ
mcs_userchannel_base = 1001

-- `g_mcs_userid`, the transport below, and the packets handed to it so far, in order.
pub record Link : Type 0 where
  pub g_mcs_userid : ℕ
  pub tcp : Tcp
  pub outgoing : List (List ℕ)

-- What `tcp_send` takes out of a stream.
abbrev pub packet : Stream → List ℕ
packet s = take s.end s.buf

abbrev pub hand_over : Stream → Link → Link
hand_over s k = record k { outgoing = k.outgoing ++ (packet s ∷ []) }

-- `iso_send(s)`
abbrev pub send : Stream → Link → Result Link
send s k = do t ← iso_send s; ok (hand_over t k)

-- `iso_disconnect` up to the closing of the socket.
unfoldable pub iso_disconnect : Link → Result Link
iso_disconnect k = do s ← iso_send_msg pdu_dr; ok (hand_over s k)

-- A 32-bit value.
unfoldable pub mcs_out_per_integer : Stream → ℕ → Result Stream
mcs_out_per_integer s value =
    if leb value 0xff
    then (do s1 ← out_uint8 s 1; out_uint8 s1 value)
    else (if leb value 0xffff
        then (do s1 ← out_uint8 s 2; out_uint16_be s1 value)
        else (do s1 ← out_uint8 s 4; out_uint32_be s1 value))

unfoldable pub mcs_init : ℕ → Stream
unfolding iso_init
mcs_init length = s_push_layer mcs_hdr 8 (iso_init (length + 8))

-- The packet for a channel, up to `iso_send`. The subtraction is of `size_t`.
unfoldable pub mcs_data_packet : ℕ → ℕ → Stream → Result Stream
mcs_data_packet userid channel s = do
  s ← s_pop_layer mcs_hdr s
  let len = bit_or (u16 (s_remaining s + 2 ^ 64 - 8)) 0x8000
  s ← out_uint8 s (mcs_sdrq * 4)
  s ← out_uint16_be s userid
  s ← out_uint16_be s channel
  s ← out_uint8 s 0x70
  out_uint16_be s len

unfoldable pub mcs_send_to_channel : ℕ → Stream → Link → Result Link
unfolding mcs_data_packet
mcs_send_to_channel channel s k = do s' ← mcs_data_packet k.g_mcs_userid channel s; send s' k

unfoldable pub mcs_send : Stream → Link → Result Link
unfolding mcs_send_to_channel
mcs_send s k = mcs_send_to_channel mcs_global_channel s k

-- What `mcs_recv` leaves in `*channel`, `*is_fastpath` and `*fastpath_hdr`, and the stream.
pub record Indication : Type 0 where
  pub channel : ℕ
  pub is_fastpath : Bool
  pub fastpath_hdr : ℕ
  pub stream : Stream

-- Behind the opcode of a send-data indication: the channel, and the stream at the user data.
unfoldable pub indication_header : Stream → Result (ℕ × Stream)
indication_header s = do
  s1 ← in_uint8s s 2
  (channel, s2) ← in_uint16_be s1
  s3 ← in_uint8s s2 1
  (len, s4) ← in_uint8 s3
  s5 ← if has_bit len 0x80 then in_uint8s s4 1 else ok s4
  ok (channel, s5)

-- A slow-path message: none where it is no indication.
unfoldable pub mcs_indication : Message → Result (Received Indication)
unfolding indication_header
mcs_indication m = do
  (opcode, s1) ← in_uint8 m.stream
  if opcode / 4 == mcs_sdin
      then (do
        (channel, s2) ← indication_header s1
        ok (
            message (record {
              channel = channel;
              is_fastpath = false;
              fastpath_hdr = m.fastpath_hdr;
              stream = s2;
            })))
      else ok nothing

-- `channel0` is what `*channel` held.
unfoldable pub mcs_recv : ℕ → Link → Result (Received Indication × Link)
unfolding mcs_indication
mcs_recv channel0 k = do
  (r, t) ← iso_recv k.tcp
  let k1 = record k { tcp = t }
  elim r [
    | nothing ↦ ok (nothing, k1)
    | blocked ↦ ok (blocked, k1)
    | message m ↦
        if m.is_fastpath
        then ok (
          message (record {
            channel = channel0;
            is_fastpath = true;
            fastpath_hdr = m.fastpath_hdr;
            stream = m.stream;
          }),
          k1,
        )
        else (do i ← mcs_indication m; ok (i, k1))
  ]

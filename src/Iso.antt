-- ===== src/Iso.antt =====
-- iso.c: TPKT framing; Negotiate has iso_connect. `logger` is not modelled.
pub mod Frame
pub mod Receive
pub mod Negotiate
mod Tests
use rdesktop.Common.{
  ℕ, zero, suc, ◌+◌, ◌-◌, ◌%◌, ◌^◌, Bool, true, false, not, ◌&&◌, ◌||◌, ltb, leb, ◌==◌,
}
use rdesktop.Common.{
  if◌then◌else◌, Option, none, some, List, [], ◌∷◌, ◌++◌, bit_and, bit_or, has_bit,
}
use rdesktop.Common.{Result, ok, exit, ◌>>=◌, ◌>>◌, length, u8, u16, u32}
use rdesktop.Stream.{
  Stream, iso_hdr, s_push_layer, s_pop_layer, s_mark_end, s_remaining, s_check_rem,
}
use rdesktop.Stream.{in_uint8, in_uint8s, in_uint16_be, in_uint32_le, next_be, out_uint8}
use rdesktop.Stream.{out_uint8a, out_uint16_le, out_uint16_be, out_uint32_le}
use rdesktop.Tcp.{Tcp, Status, done, null, waiting, tcp_init, tcp_recv}

abbrev pub pdu_cr : ℕ
pdu_cr = 0xe0

abbrev pub pdu_cc : ℕ
pdu_cc = 0xd0

abbrev pub pdu_dr : ℕ
pdu_dr = 0x80

abbrev pub pdu_dt : ℕ
pdu_dt = 0xf0

-- The stream that goes to `tcp_send`.
unfoldable pub iso_send_msg : ℕ → Result Stream
unfolding tcp_init
iso_send_msg code = do
  let s = tcp_init 11
  s ← out_uint8 s 3
  s ← out_uint8 s 0
  s ← out_uint16_be s 11
  s ← out_uint8 s 6
  s ← out_uint8 s code
  s ← out_uint16_le s 0
  s ← out_uint16_le s 0
  s ← out_uint8 s 0
  ok (s_mark_end s)

unfoldable pub iso_init : ℕ → Stream
unfolding tcp_init s_push_layer
iso_init len = s_push_layer iso_hdr 7 (tcp_init (len + 7))

-- The stream that goes to `tcp_send`; `length` is a `uint16`.
unfoldable pub iso_send : Stream → Result Stream
iso_send s = do
  s ← s_pop_layer iso_hdr s
  let len = u16 (s_remaining s)
  s ← out_uint8 s 3
  s ← out_uint8 s 0
  s ← out_uint16_be s len
  s ← out_uint8 s 2
  s ← out_uint8 s pdu_dt
  out_uint8 s 0x80

-- What a receiving call returns: a message, NULL, or nothing as long as it waits for the network.
pub data Received {ℓ} (A : Type ℓ) : Type ℓ where
  message : A → Received A
  nothing blocked : Received A

-- `*code`, `*is_fastpath`, `*fastpath_hdr` and the stream.
pub record Message : Type 0 where
  pub code : ℕ
  pub is_fastpath : Bool
  pub fastpath_hdr : ℕ
  pub stream : Stream

-- The length in the header: of TPKT after its version, or of the fast path.
packet_length : ℕ → Stream → Result (ℕ × Stream)
packet_length version s = if version == 3 then (do s1 ← in_uint8s s 1; in_uint16_be s1) else (do
  (len, s1) ← in_uint8 s
  if has_bit len 0x80 then next_be s1 (bit_and len 0xffffff7f) else ok (len, s1))

-- The X.224 header of a slow-path message.
x224_header : ℕ → Stream → Result (ℕ × Stream)
x224_header code0 s = do
  s1 ← in_uint8s s 1
  (code, s2) ← in_uint8 s1
  s3 ← if code == pdu_dt then in_uint8s s2 1 else in_uint8s s2 5
  ok (code, s3)

-- From the whole packet on.
packet_end : Bool → ℕ → ℕ → Stream → Result Message
unfolding x224_header
packet_end is_fastpath fastpath_hdr code0 s =
    if is_fastpath
    then ok (record { code = code0; is_fastpath = true; fastpath_hdr = fastpath_hdr; stream = s })
    else (do
      (code, s1) ← x224_header code0 s
      ok (record { code = code; is_fastpath = false; fastpath_hdr = 0; stream = s1 }))

-- From the first four bytes on. A length below four is NULL.
whole_packet : ℕ → Stream → Tcp → Result (Received Message × Tcp)
unfolding packet_length packet_end
whole_packet code0 s t = do
  (version, s1) ← in_uint8 s
  (len, s2) ← packet_length version s1
  if ltb len 4 then ok (nothing, record t { g_in = s2 }) else (do
    (status, s3, t1) ← tcp_recv (some s2) (len - 4) t
    elim status [
      | null ↦ ok (nothing, t1)
      | waiting ↦ ok (blocked, t1)
      | done ↦ do
        m ← packet_end (not (version == 3)) version code0 s3
        ok (message m, record t1 { g_in = m.stream })
    ])

-- `code0` is what `*code` held.
unfoldable pub iso_recv_msg : ℕ → Tcp → Result (Received Message × Tcp)
unfolding whole_packet
iso_recv_msg code0 t = do
  (status, s, t1) ← tcp_recv none 4 t
  elim status [
    | null ↦ ok (nothing, t1)
    | waiting ↦ ok (blocked, t1)
    | done ↦ whole_packet code0 s t1
  ]

unfoldable pub iso_recv : Tcp → Result (Received Message × Tcp)
unfolding iso_recv_msg
iso_recv t = do
  (r, t1) ← iso_recv_msg 0 t
  elim r [
    | nothing ↦ ok (nothing, t1)
    | blocked ↦ ok (blocked, t1)
    | message m ↦
        if m.is_fastpath
        then ok (message m, t1)
        else (if m.code == pdu_dt then ok (message m, t1) else ok (nothing, t1))
  ]

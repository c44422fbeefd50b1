-- ===== src/Mcs/Tests.antt =====
-- The theorems on the MCS layer at concrete connections.
use rdesktop.Common.{List, [], ◌∷◌, none, ok, exit, false, true, arith, refl, ◌≡◌, Bool, Result}
use rdesktop.Stream.{Stream}
use rdesktop.Stream.Read.{Reads}
use rdesktop.Tcp.{Tcp, Incoming, got}
use rdesktop.Tcp.Receive.{payload, Flows}
use rdesktop.Iso.{Received, message}
use rdesktop.Mcs.{Link, Indication, mcs_recv}
use rdesktop.Mcs.Connect.{mcs_connect_finalize}
use rdesktop.Mcs.Connect.{
  mcs_send_connect_initial, mcs_recv_connect_response, answer, attach_confirm, confirmation,
  connect_answer, connect_initial_packet, expect, join_channels, join_confirm, known,
  mcs_out_domain_params, mcs_parse_domain_params, mcs_recv_aucf, mcs_recv_cjcf, mcs_send_aurq,
  mcs_send_cjrq, mcs_send_edrq, parse_into, then_or_error,
}
use rdesktop.Ber.{ber_out_header, ber_out_integer, ber_parse_header}
use rdesktop.Stream.{
  out_uint16_be, out_uint8a, poke, out_uint8, out_stream, s_pop_layer, s_mark_end, s_seek, s_reset,
  in_uint16_be, in_uint8, in_uint8a, in_uint8s, next_be, peek, s_alloc, s_check_end, s_check_rem,
  s_push_layer, s_realloc,
}
use rdesktop.Iso.{iso_init, iso_send, iso_recv, iso_recv_msg}
use rdesktop.Tcp.{tcp_recv, tcp_init}
use rdesktop.Mcs.{mcs_out_per_integer}
use rdesktop.Common.{Option, some, ℕ}
use rdesktop.Stream.{Layer, mcs_hdr}
use rdesktop.Mcs.{mcs_send_to_channel}
use rdesktop.Mcs.Packets.{sent}
use rdesktop.Mcs.Send.{mcs_send_to_channel_lem}
use rdesktop.Mcs.Frame.{mcs_recv_lem}
use rdesktop.Mcs.Sequence.{Connected, mcs_connect_finalize-Connected}

abbrev empty : Stream
empty = record { buf = []; p = 0; end = 0; size = 0; hdr = λ _. none }

abbrev link : List Incoming → Link
link events = record {
  g_mcs_userid = 0;
  tcp = record { g_in = empty; network_error = false; ssl_initialized = false; incoming = events };
  outgoing = [];
}

-- Two bytes for the channel 1004.
abbrev indicated : Link
indicated =
    link (
      got 3 (0 ∷ 0 ∷ 16 ∷ 2 ∷ 0xf0 ∷ 0x80 ∷ 0x68 ∷ 0 ∷ 6 ∷ 3 ∷ 0xec ∷ 0x70 ∷ 2 ∷ 65 ∷ 66 ∷ []) ∷ [])

mcs_recv_lem_example :
    (i : Indication) × (t : Tcp) × (mcs_recv 0 indicated
      ≡ ok (message i, record indicated { tcp = t }))
    × (i.channel ≡ 1004)
    × (i.is_fastpath ≡ false)
    × Reads i.stream (65 ∷ 66 ∷ [])
    × (payload t.incoming ≡ [])
    × Flows t.incoming
mcs_recv_lem_example =
    mcs_recv_lem indicated 0 6 1004 (65 ∷ 66 ∷ []) [] refl tt (omega arith) (omega arith)
      (omega arith) refl

-- A join-confirm packet.
abbrev joined : Incoming
joined = got 3 (0 ∷ 0 ∷ 15 ∷ 2 ∷ 0xf0 ∷ 0x80 ∷ 0x3e ∷ 0 ∷ 0 ∷ 6 ∷ 3 ∷ 0xeb ∷ 3 ∷ 0xeb ∷ [])

-- The answers of a server to a connection with one channel.
abbrev answering : Link
answering = link (
    got 3 (
      0 ∷ 0 ∷ 22 ∷ 2 ∷ 0xf0 ∷ 0x80 ∷ 0x7f ∷ 0x66 ∷ 12 ∷ 10 ∷ 1 ∷ 0 ∷ 2 ∷ 1 ∷ 0 ∷ 0x30 ∷ 2 ∷ 5 ∷ 6
      ∷ 4 ∷ 0 ∷ [])
    ∷ got 3 (0 ∷ 0 ∷ 11 ∷ 2 ∷ 0xf0 ∷ 0x80 ∷ 0x2e ∷ 0 ∷ 0 ∷ 6 ∷ [])
    ∷ joined
    ∷ joined
    ∷ joined
    ∷ [])

abbrev settings : Stream
settings = record { buf = 1 ∷ 2 ∷ 3 ∷ []; p = 3; end = 3; size = 3; hdr = λ _. none }

abbrev link_of : Result (Received Bool × Link) → Link
link_of (ok (r, k)) = k
link_of (exit reason) = answering

abbrev run : Result (Received Bool × Link)
run = mcs_connect_finalize ok (1004 ∷ []) settings answering

run-true : run ≡ ok (message true, link_of run)
unfolding mcs_connect_finalize answer attach_confirm ber_out_header ber_out_integer ber_parse_header
    confirmation connect_answer connect_initial_packet expect in_uint16_be in_uint8 in_uint8a
    in_uint8s iso_init iso_recv iso_recv_msg iso_send join_channels join_confirm known
    mcs_out_domain_params mcs_out_per_integer mcs_parse_domain_params mcs_recv_aucf mcs_recv_cjcf
    mcs_recv_connect_response mcs_send_aurq mcs_send_cjrq mcs_send_connect_initial mcs_send_edrq
    next_be out_stream out_uint16_be out_uint8 out_uint8a parse_into peek poke s_alloc s_check_end
    s_check_rem s_mark_end s_pop_layer s_push_layer s_realloc s_reset s_seek tcp_init tcp_recv
    then_or_error
run-true = refl

mcs_connect_finalize-Connected_example : Connected ok (1004 ∷ []) settings answering (link_of run)
mcs_connect_finalize-Connected_example =
    mcs_connect_finalize-Connected ok (1004 ∷ []) settings answering (link_of run) run-true

-- A packet with room for both headers, and two bytes.
abbrev layers : Layer → Option ℕ
layers mcs_hdr = some 7
layers _ = some 0

abbrev made : Stream
made = record {
  buf = 0 ∷ 0 ∷ 0 ∷ 0 ∷ 0 ∷ 0 ∷ 0 ∷ 0 ∷ 0 ∷ 0 ∷ 0 ∷ 0 ∷ 0 ∷ 0 ∷ 0 ∷ 65 ∷ 66 ∷ [];
  p = 17;
  end = 17;
  size = 17;
  hdr = layers;
}

mcs_send_to_channel_lem_example :
    mcs_send_to_channel 1003 made (link [])
    ≡ ok (
        sent
          (3 ∷ 0 ∷ 0 ∷ 17 ∷ 2 ∷ 0xf0 ∷ 0x80 ∷ 0x64 ∷ 0 ∷ 0 ∷ 3 ∷ 0xeb ∷ 0x70 ∷ 0x80 ∷ 2 ∷ 65 ∷ 66
            ∷ [])
          (link []))
mcs_send_to_channel_lem_example =
    mcs_send_to_channel_lem {s = made} 1003 (link []) (omega arith) refl refl (omega arith)
      (omega arith)

-- ===== src/Iso/Tests.antt =====
-- The theorems on the frames at concrete packets.
use rdesktop.Common.{List, [], ◌∷◌, some, ok, true, false, ℕ, ◌++◌, arith, refl, ◌≡◌}
use rdesktop.Stream.{
  Stream, out_uint8, out_uint8a, poke, out_uint16_be, out_uint16_le, out_uint32_le, s_seek, s_reset,
  s_realloc, in_uint8, peek, in_uint8s, in_uint16_be, next_be, in_uint32_le, in_uint8a, s_alloc,
  s_check_rem,
}
use rdesktop.Stream.Read.{Reads}
use rdesktop.Tcp.{Tcp, Incoming, got, tcp_init, tcp_recv}
use rdesktop.Tcp.Receive.{payload, Flows}
use rdesktop.Iso.{
  iso_recv, iso_recv_msg, packet_end, packet_length, whole_packet, x224_header, Message, message,
}
use rdesktop.Iso.Receive.{iso_recv_lem}
use rdesktop.Iso.Negotiate.{
  Config, Attempt, Negotiation, connected, cookie, iso_connect, start, connect_loop, follow,
  attempt, received, confirm,
}
use rdesktop.Iso.Negotiate.{
  negotiation_response, select_protocol, first_protocol, iso_send_connection_request,
  negotiation_request,
}
use rdesktop.Iso.Negotiate.Sound.{Secures, iso_connect-Secures}

-- Two bytes behind the room for a header.
abbrev built : Stream
built = record {
  buf = 0 ∷ 0 ∷ 0 ∷ 0 ∷ 0 ∷ 0 ∷ 0 ∷ 65 ∷ 66 ∷ [];
  p = 9;
  end = 9;
  size = 9;
  hdr = λ _. some 0;
}

-- The same packet comes in, in two pieces, with one byte of the next.
abbrev arriving : Tcp
arriving = record {
  g_in = built;
  network_error = false;
  ssl_initialized = false;
  incoming = got 3 (0 ∷ 0 ∷ 9 ∷ 2 ∷ []) ∷ got 0xf0 (0x80 ∷ 65 ∷ 66 ∷ 3 ∷ []) ∷ [];
}

iso_recv_lem_example :
    (m : Message) × (later : List Incoming) × (iso_recv arriving
      ≡ ok (message m, record arriving { g_in = m.stream; incoming = later }))
    × (m.is_fastpath ≡ false)
    × Reads m.stream (65 ∷ 66 ∷ [])
    × (payload later ≡ 3 ∷ [])
    × Flows later
iso_recv_lem_example =
    iso_recv_lem arriving (65 ∷ 66 ∷ []) (3 ∷ []) refl tt (omega arith) (omega arith) refl

-- The server first fails to answer over CredSSP, and then selects TLS.
abbrev confirming : ℕ → Tcp
confirming protocol = record arriving {
  incoming =
      got 3 (0 ∷ 0 ∷ 19 ∷ 14 ∷ 0xd0 ∷ 0 ∷ 0 ∷ 0 ∷ 0 ∷ 0 ∷ 2 ∷ 1 ∷ 8 ∷ 0 ∷ protocol ∷ 0 ∷ 0 ∷ 0 ∷ [])
      ∷ [];
}

abbrev options : Config
options = record {
  username = 0x61 ∷ [];
  is_rdp_v5 = true;
  with_credssp = true;
  g_restricted_admin = false;
  g_remote_guard = false;
  g_use_password_as_pin = false;
  has_smart_card = false;
}

abbrev attempts : List Attempt
attempts =
    record { connection = some (confirming 2); tls = true; cssp = false }
    ∷ record { connection = some (confirming 1); tls = true; cssp = false }
    ∷ []

abbrev negotiation : Negotiation
negotiation = record {
  g_negotiate_rdp_protocol = false;
  g_encryption = true;
  g_extended_client_data_supported = false;
  requests = [];
}

-- The request for CredSSP or TLS, and after the failure for TLS.
abbrev request : ℕ → List ℕ
request neg_proto =
    3
    ∷ 0
    ∷ 0
    ∷ 39
    ∷ 34
    ∷ 0xe0
    ∷ 0
    ∷ 0
    ∷ 0
    ∷ 0
    ∷ 0
    ∷ (cookie ++ (0x61 ∷ 0x0d ∷ 0x0a ∷ 1 ∷ 0 ∷ 8 ∷ 0 ∷ neg_proto ∷ 0 ∷ 0 ∷ 0 ∷ []))

abbrev negotiated : Negotiation
negotiated = record {
  g_negotiate_rdp_protocol = true;
  g_encryption = false;
  g_extended_client_data_supported = true;
  requests = request 3 ∷ request 1 ∷ [];
}

runs : iso_connect options attempts negotiation ≡ ok (connected 1, negotiated)
unfolding iso_connect start connect_loop follow attempt received confirm negotiation_response
    select_protocol first_protocol iso_send_connection_request negotiation_request iso_recv_msg
    out_uint8 out_uint8a tcp_init poke out_uint16_be out_uint16_le out_uint32_le tcp_recv s_seek
    s_reset s_realloc in_uint8 peek in_uint8s in_uint16_be next_be in_uint32_le packet_end
    packet_length whole_packet x224_header in_uint8a s_alloc s_check_rem
runs = refl

iso_connect-Secures_example : Secures attempts true false 1
iso_connect-Secures_example = iso_connect-Secures options attempts negotiation negotiated 1 runs

-- ===== src/Tcp/Tests.antt =====
-- The theorems on the transfer loops at concrete connections.
use rdesktop.Common.{[], ◌∷◌, none, some, false, arith, refl}
use rdesktop.Stream.{Stream}
use rdesktop.Stream.Valid.{IsValid}
use rdesktop.Stream.Read.{Reads}
use rdesktop.Tcp.{Tcp, got, again, sent, blocks, tcp_recv, tcp_send}
use rdesktop.Tcp.Receive.{Delivers, tcp_recv-Delivers}
use rdesktop.Tcp.Send.{Sends, tcp_send-Sends}

abbrev three : Stream
three = record { buf = 1 ∷ 2 ∷ 3 ∷ []; p = 1; end = 3; size = 3; hdr = λ _. none }

three-IsValid : IsValid three
three-IsValid = omega arith

three-Reads : Reads three (2 ∷ 3 ∷ [])
three-Reads = record { valid = three-IsValid; inside = omega arith; rest = refl }

-- Five bytes in two pieces, with an interruption between.
abbrev pieces : Tcp
pieces = record {
  g_in = three;
  network_error = false;
  ssl_initialized = false;
  incoming = got 7 (8 ∷ []) ∷ again ∷ got 9 (10 ∷ 11 ∷ []) ∷ [];
}

tcp_recv-Delivers_example :
    Delivers pieces 0 [] (7 ∷ 8 ∷ 9 ∷ 10 ∷ 11 ∷ []) 4 (tcp_recv none 4 pieces)
    × Delivers pieces 1 (2 ∷ 3 ∷ []) (7 ∷ 8 ∷ 9 ∷ 10 ∷ 11 ∷ []) 4 (tcp_recv (some three) 4 pieces)
tcp_recv-Delivers_example =
    tcp_recv-Delivers pieces 4 (2 ∷ 3 ∷ []) refl tt (omega arith) (omega arith) three-IsValid
      three-Reads (omega arith)

tcp_send-Sends_example :
    Sends [] (1 ∷ 2 ∷ 3 ∷ []) (tcp_send false (sent 0 ∷ blocks ∷ sent 4 ∷ []) three)
tcp_send-Sends_example = tcp_send-Sends (sent 0 ∷ blocks ∷ sent 4 ∷ []) three-IsValid

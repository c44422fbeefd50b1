-- ===== src/Channels/Tests.antt =====
-- The theorems on static channels at concrete messages.
use rdesktop.Common.{ℕ, List, [], ◌∷◌, none, some, ok, arith, refl, ◌≡◌}
use rdesktop.Stream.{Stream}
use rdesktop.Stream.Read.{Reads}
use rdesktop.Channels.{numbers, Channel, no_stream}
use rdesktop.Common.{Finishes, true, false}
use rdesktop.Mcs.{Link}
use rdesktop.Secure.{Security}
use rdesktop.Channels.{channel_send}
use rdesktop.Channels.Ends.{channel_send-Finishes}
use rdesktop.Common.{◌++◌}
use rdesktop.Stream.{le_bytes}
use rdesktop.Stream.Read.{advance}
use rdesktop.Channels.{defragment, channel_process}
use rdesktop.Channels.Dispatch.{channel_process_lem}
use rdesktop.Channels.Chunks.{Tail, last, more, run_chunks, run_chunks-joined}

abbrev channel : Channel
channel = record { mcs_id = 1004; name = []; flags = 0; inbox = no_stream; process = 1 }

abbrev bytes : ℕ → Stream
bytes b = record { buf = b ∷ b ∷ []; p = 0; end = 2; size = 2; hdr = λ _. none }

bytes-Reads : (b : ℕ) → Reads (bytes b) (b ∷ b ∷ [])
bytes-Reads b = record { valid = omega arith; inside = omega arith; rest = refl }

abbrev rest : List (ℕ × Stream)
rest = (0, bytes 8) ∷ (2, bytes 9) ∷ []

rest-Tail : Tail numbers rest (8 ∷ 8 ∷ 9 ∷ 9 ∷ [])
rest-Tail =
    more 0 (bytes 8) (8 ∷ 8 ∷ []) ((2, bytes 9) ∷ []) (9 ∷ 9 ∷ []) refl refl (bytes-Reads 8)
      (last 2 (bytes 9) (9 ∷ 9 ∷ []) refl refl (bytes-Reads 9))

run_chunks-joined_example :
    (t : Stream) × (ch' : Channel) × (run_chunks numbers 6 ((1, bytes 7) ∷ rest) channel
      ≡ ok (some t, ch'))
    × Reads t (7 ∷ 7 ∷ 8 ∷ 8 ∷ 9 ∷ 9 ∷ [])
    × (ch'.process ≡ channel.process)
run_chunks-joined_example =
    run_chunks-joined numbers 6 channel 1 {s = bytes 7} (omega arith) (omega arith) refl refl
      (bytes-Reads 7) rest-Tail (omega arith)

-- Five bytes behind the header, on a stream without security.
abbrev message : Stream
message = record {
  buf = 0 ∷ 0 ∷ 0 ∷ 0 ∷ 0 ∷ 0 ∷ 0 ∷ 0 ∷ 1 ∷ 2 ∷ 3 ∷ 4 ∷ 5 ∷ [];
  p = 13;
  end = 13;
  size = 13;
  hdr = λ _. some 0;
}

abbrev plain : Security
plain = record {
  g_licence_issued = true;
  g_licence_error_result = false;
  g_encryption = false;
  sec_sign = λ bytes. [];
  sec_encrypt = λ bytes. bytes;
}

abbrev link : Link
link = record {
  g_mcs_userid = 6;
  tcp = record { g_in = no_stream; network_error = false; ssl_initialized = false; incoming = [] };
  outgoing = [];
}

channel_send-Finishes_example : Finishes (channel_send numbers plain 2 message channel link)
channel_send-Finishes_example =
    channel_send-Finishes numbers plain 2 message channel link (omega arith) (omega arith)

-- A whole message of two bytes for the second of two channels.
abbrev other : Channel
other = record { mcs_id = 1005; name = []; flags = 0; inbox = no_stream; process = 2 }

abbrev first_chunk : Stream
first_chunk = record {
  buf = 2 ∷ 0 ∷ 0 ∷ 0 ∷ 3 ∷ 0 ∷ 0 ∷ 0 ∷ 65 ∷ 66 ∷ [];
  p = 0;
  end = 10;
  size = 10;
  hdr = λ _. none;
}

first_chunk-Reads : Reads first_chunk (le_bytes 4 2 ++ (le_bytes 4 3 ++ (65 ∷ 66 ∷ [])))
first_chunk-Reads = record { valid = omega arith; inside = omega arith; rest = refl }

at_once :
    defragment numbers 2 3 channel (advance (advance first_chunk 4) 4)
    ≡ ok (some (advance (advance first_chunk 4) 4), channel)
unfolding defragment
at_once = refl

channel_process_lem_example :
    (channel_process numbers first_chunk 1004 (other ∷ channel ∷ [])
      ≡ ok (some (1, advance (advance first_chunk 4) 4), other ∷ channel ∷ []))
    × (channel_process numbers first_chunk 1004 (other ∷ []) ≡ ok (none, other ∷ []))
channel_process_lem_example =
    channel_process_lem numbers 1004 2 3 {s = first_chunk} {xs = 65 ∷ 66 ∷ []} (other ∷ []) channel
      [] (omega arith) (omega arith) first_chunk-Reads ((λ e. absurd (omega (arith, e))), tt) refl
      at_once

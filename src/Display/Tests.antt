-- ===== src/Display/Tests.antt =====
-- The resize at a session of 1281 by 100 pixels, which is sent as 1280 by 200.
use rdesktop.Common.{ℕ, ◌%◌, ◌≤◌, ◌≡◌, refl, arith, [], ◌∷◌, none, take, true, false, replicate}
use rdesktop.Stream.{Stream}
use rdesktop.Stream.Valid.{IsValid}
use rdesktop.Secure.{Security}
use rdesktop.Channels.{numbers, no_stream}
use rdesktop.Dvc.{Dvc, dvc_send, find, utils_djb2_hash, dvc_channels_is_available, free_slot}
use rdesktop.Display.{
  rdpedisp_channel_name, rdpedisp_is_available, rdpedisp_set_session_size,
  utils_apply_session_size_limitations,
}
use rdesktop.Display.Layout.{session_bytes, set_session_size-sends}

abbrev security : Security
security = record {
  g_licence_issued = true;
  g_licence_error_result = false;
  g_encryption = false;
  sec_sign = λ bytes. replicate 8 0;
  sec_encrypt = λ bytes. bytes;
}

abbrev dvc : Dvc
dvc = record {
  channels = record { hash = 1744254754; channel_id = 7; handler = 1 } ∷ replicate 19 free_slot;
  link = record {
    g_mcs_userid = 0;
    tcp = record {
      g_in = no_stream;
      network_error = false;
      ssl_initialized = false;
      incoming = [];
    };
    outgoing = [];
  };
  dvc_channel = record { mcs_id = 1004; name = []; flags = 0; inbox = no_stream; process = 1 };
  vc_chunk_size = 1600;
}

available : rdpedisp_is_available dvc.channels ≡ true
unfolding rdpedisp_is_available dvc_channels_is_available find utils_djb2_hash
available = refl

sizes : utils_apply_session_size_limitations 1281 100 ≡ (1280, 200)
unfolding utils_apply_session_size_limitations
sizes = refl

set_session_size-sends_example :
    (w : ℕ) × (h : ℕ) × (s : Stream) × ((w % 2 ≡ 0)
      × (200 ≤ w)
      × (w ≤ 8192)
      × (200 ≤ h)
      × (h ≤ 8192)
      × IsValid s
      × (s.end ≡ 56)
      × (take s.end s.buf ≡ session_bytes 96 w h)
      × (rdpedisp_set_session_size numbers security 96 none 1281 100 dvc
          ≡ dvc_send numbers security rdpedisp_channel_name s dvc))
set_session_size-sends_example =
    set_session_size-sends numbers security 96 1281 100 dvc (omega arith) available

-- ===== src/Session/Tests.antt =====
-- Runs of sec_recv.
use rdesktop.Common.{
  ℕ, ◌≡◌, refl, arith, List, [], ◌∷◌, ◌++◌, true, false, ok, none, some, length, replicate, Bool,
}
use rdesktop.Stream.{Stream}
use rdesktop.Stream.Read.{Reads}
use rdesktop.Tcp.{got, Tcp}
use rdesktop.Tcp.Receive.{Flows, payload}
use rdesktop.Iso.{message}
use rdesktop.Mcs.{Link, Indication, mcs_recv}
use rdesktop.Mcs.Frame.{mcs_recv_lem}
use rdesktop.Channels.{numbers, no_stream}
use rdesktop.Secure.Cipher.{Crypto, Keys, sec_encrypt, sec_decrypt}
use rdesktop.Secure.Paired.{IsStreamCipher, IsPaired}
use rdesktop.Licence.{Client}
use rdesktop.Session.{Session, SecRecv, delivers, sec_packet, with_link}
use rdesktop.Session.Deliver.{Returned, sec_recv-IsForCaller, sec_packet-decrypts, global_lem}

-- Digests of the right size, and a key stream of zeroes.
abbrev plain : Crypto
plain = record {
  Rc4 = List ℕ;
  rdssl_sha1 = λ bytes. replicate 20 (length bytes);
  rdssl_md5 = λ bytes. replicate 16 (length bytes);
  rdssl_rc4_set_key = λ key. key;
  rdssl_rc4_crypt = λ key bytes. (key, bytes);
}

plain-IsStreamCipher : IsStreamCipher plain
plain-IsStreamCipher = record { undo = λ key bytes. refl; size = λ key bytes. refl }

abbrev keys : Keys plain
keys = record {
  g_rc4_key_len = 16;
  g_rc4_decrypt_key = [];
  g_rc4_encrypt_key = [];
  g_sec_sign_key = [];
  g_sec_decrypt_key = [];
  g_sec_encrypt_key = [];
  g_sec_decrypt_update_key = [];
  g_sec_encrypt_update_key = [];
  g_sec_encrypt_use_count = 3;
  g_sec_decrypt_use_count = 3;
}

abbrev client : Client
client = record { g_username = 97 ∷ []; g_hostname = 104 ∷ 111 ∷ []; is_rdp_v5 = true; stored = [] }

-- Two bytes for the global channel.
abbrev link : Link
link = record {
  g_mcs_userid = 0;
  tcp = record {
    g_in = no_stream;
    network_error = false;
    ssl_initialized = false;
    incoming =
        got 3 (0 ∷ 0 ∷ 16 ∷ 2 ∷ 0xf0 ∷ 0x80 ∷ 0x68 ∷ 0 ∷ 6 ∷ 3 ∷ 0xeb ∷ 0x70 ∷ 2 ∷ 65 ∷ 66 ∷ [])
        ∷ [];
  };
  outgoing = [];
}

abbrev session : Bool → Session plain
session encryption = record {
  keys = keys;
  licence = record {
    g_licence_key = [];
    g_licence_sign_key = [];
    security = record {
      g_licence_issued = true;
      g_licence_error_result = false;
      g_encryption = encryption;
      sec_sign = λ bytes. replicate 8 0;
      sec_encrypt = λ bytes. bytes;
    };
    saved = [];
    link = link;
  };
  channels = [];
  calls = [];
  heartbeats = [];
}

-- The packet that mcs_recv makes of them, and the connection after it.
received :
    (i : Indication) × (t : Tcp) × (mcs_recv 0 link ≡ ok (message i, record link { tcp = t }))
    × (i.channel ≡ 1003)
    × (i.is_fastpath ≡ false)
    × Reads i.stream (65 ∷ 66 ∷ [])
    × (payload t.incoming ≡ [])
    × Flows t.incoming
received =
    mcs_recv_lem link 0 6 1003 (65 ∷ 66 ∷ []) [] refl tt (omega arith) (omega arith) (omega arith)
      refl

abbrev after : Session plain
after = with_link plain (record link { tcp = received.1 }) (session false)

run : SecRecv plain client numbers (session false) (message (received.0, received.0.stream)) after
unfolding sec_packet
run =
    let (i, t, e, channel, slow, reads, none_left, flows) = received in
    delivers (session false) after 0 (record link { tcp = received.1 }) received.0 received.0.stream
      e (rw slow (global_lem plain numbers received.0.channel received.0.stream after channel))

sec_recv-IsForCaller_example : Returned plain (message (received.0, received.0.stream))
sec_recv-IsForCaller_example =
    sec_recv-IsForCaller plain client numbers (session false) after
      (message (received.0, received.0.stream)) run

-- An encrypted packet of a peer with the same keys.
abbrev sealed : Indication
sealed = record {
  channel = 1003;
  is_fastpath = false;
  fastpath_hdr = 0;
  stream = record {
    buf = 8 ∷ 0 ∷ 0 ∷ 0 ∷ (replicate 8 1 ++ (7 ∷ 8 ∷ 9 ∷ []));
    p = 0;
    end = 15;
    size = 15;
    hdr = λ _. none;
  };
}

sealed-Reads :
    Reads sealed.stream
      (8 ∷ 0 ∷ 0 ∷ 0 ∷ (replicate 8 1 ++ (sec_encrypt plain (7 ∷ 8 ∷ 9 ∷ []) keys).1))
unfolding sec_encrypt
sealed-Reads = record { valid = omega arith; inside = omega arith; rest = refl }

sec_packet-decrypts_example :
    (u : Stream) × ((sec_packet plain client numbers sealed (session true)
        ≡ ok (
          some u,
          record (session true) {
            keys = (sec_decrypt plain (sec_encrypt plain (7 ∷ 8 ∷ 9 ∷ []) keys).1 keys).0;
          },
        ))
      × Reads u (7 ∷ 8 ∷ 9 ∷ [])
      × IsPaired plain
          (sec_encrypt plain (7 ∷ 8 ∷ 9 ∷ []) keys).0
          (sec_decrypt plain (sec_encrypt plain (7 ∷ 8 ∷ 9 ∷ []) keys).1 keys).0)
sec_packet-decrypts_example =
    sec_packet-decrypts plain client numbers sealed (session true) keys 8 0 0 0 (replicate 8 1)
      (7 ∷ 8 ∷ 9 ∷ []) plain-IsStreamCipher
      (record { len = refl; state = refl; key = refl; update = refl; count = refl }) refl refl refl
      refl refl refl refl sealed-Reads refl (omega arith)

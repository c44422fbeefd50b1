-- ===== src/Licence/Tests.antt =====
-- Runs of the licence messages.
use rdesktop.Common.{ℕ, ◌≡◌, ◌≢◌, refl, arith, List, [], ◌∷◌, ◌++◌, true, false, ◌==◌, ok, exit}
use rdesktop.Common.{undefined, none, length, Returns, replicate}
use rdesktop.Stream.{Stream, le_bytes}
use rdesktop.Stream.Read.{Reads}
use rdesktop.Channels.{no_stream}
use rdesktop.Secure.{Security}
use rdesktop.Secure.Cipher.{Crypto}
use rdesktop.Secure.Paired.{IsStreamCipher}
use rdesktop.Licence.{
  Client, Licence, null_data, licence_generate_keys, licence_process_request, rc4,
}
use rdesktop.Licence.Receive.{
  licence_process_platform_challenge, licence_process_new_license, licence_process, issued,
}
use rdesktop.Licence.Sent.{answered}
use rdesktop.Licence.Answers.{IsSized, reply, licence_process_request-answers}
use rdesktop.Licence.Challenge.{response, challenge-answers, challenge-null}
use rdesktop.Licence.Stored.{strings, new_license-stores}
use rdesktop.Licence.Flags.{Keeps, licence_process-Keeps}

ne : (m n : ℕ) → (m == n) ≡ false → m ≢ n
ne m n h = ground arith

-- Digests of the right size, and a key stream of zeroes.
abbrev plain : Crypto
plain = record {
  Rc4 = List ℕ;
  rdssl_sha1 = λ bytes. replicate 20 (length bytes);
  rdssl_md5 = λ bytes. replicate 16 (length bytes);
  rdssl_rc4_set_key = λ key. key;
  rdssl_rc4_crypt = λ key bytes. (key, bytes);
}

plain-IsSized : IsSized plain
plain-IsSized = record { md5 = λ bytes. refl; rc4_size = λ key bytes. refl }

plain-IsStreamCipher : IsStreamCipher plain
plain-IsStreamCipher = record { undo = λ key bytes. refl; size = λ key bytes. refl }

abbrev client : Client
client = record { g_username = 97 ∷ []; g_hostname = 104 ∷ 111 ∷ []; is_rdp_v5 = true; stored = [] }

abbrev security : Security
security = record {
  g_licence_issued = false;
  g_licence_error_result = false;
  g_encryption = false;
  sec_sign = λ bytes. replicate 8 0;
  sec_encrypt = λ bytes. bytes;
}

abbrev licence : Licence
licence = record {
  g_licence_key = replicate 16 1;
  g_licence_sign_key = replicate 16 2;
  security = security;
  saved = [];
  link = record {
    g_mcs_userid = 0;
    tcp = record {
      g_in = no_stream;
      network_error = false;
      ssl_initialized = false;
      incoming = [];
    };
    outgoing = [];
  };
}

-- A stream that holds the bytes.
abbrev from : List ℕ → Stream
from bytes = record { buf = bytes; p = 0; end = length bytes; size = length bytes; hdr = λ _. none }

abbrev random : List ℕ
random = replicate 32 5

random-Reads : Reads (from (random ++ [])) (random ++ [])
random-Reads = record { valid = omega arith; inside = omega arith; rest = refl }

licence_process_request-answers_example :
    (licence_process_request plain client (from (random ++ [])) licence
      ≡ ok (
          answered
            (licence_generate_keys plain null_data random null_data licence)
            (reply plain client (licence_generate_keys plain null_data random null_data licence))))
    × (length (reply plain client (licence_generate_keys plain null_data random null_data licence))
        ≡ 133)
licence_process_request-answers_example =
    licence_process_request-answers plain client licence random [] plain-IsSized random-Reads refl
      (omega arith) (omega arith) (omega arith)

abbrev challenge : List ℕ
challenge = replicate 6 0 ++ (10 ∷ 0 ∷ (replicate 10 84 ++ (replicate 16 3 ++ [])))

challenge-Reads : Reads (from challenge) challenge
challenge-Reads = record { valid = omega arith; inside = omega arith; rest = refl }

challenge-answers_example :
    licence_process_platform_challenge plain client (from challenge) licence
    ≡ ok (answered licence (response plain client (replicate 10 84) licence))
challenge-answers_example =
    challenge-answers plain client licence (replicate 6 0) (replicate 10 84) (replicate 16 3) []
      plain-IsSized challenge-Reads refl refl refl

abbrev bad_challenge : List ℕ
bad_challenge = replicate 6 0 ++ (11 ∷ 0 ∷ replicate 27 84)

bad_challenge-Reads : Reads (from bad_challenge) bad_challenge
bad_challenge-Reads = record { valid = omega arith; inside = omega arith; rest = refl }

challenge-null_example :
    licence_process_platform_challenge plain client (from bad_challenge) licence ≡ exit undefined
challenge-null_example =
    challenge-null plain client licence (replicate 6 0) 11 0 (replicate 27 84) bad_challenge-Reads
      refl (ne 11 10 refl)

abbrev new_licence : List ℕ
new_licence = (1 ∷ 0 ∷ 0 ∷ 0 ∷ []) ++ strings (115 ∷ []) (99 ∷ 99 ∷ []) [] (7 ∷ 8 ∷ 9 ∷ []) []

abbrev new_packet : List ℕ
new_packet = 9 ∷ 0 ∷ 26 ∷ 0 ∷ (rc4 plain licence.g_licence_key new_licence ++ [])

new_packet-Reads : Reads (from new_packet) new_packet
new_packet-Reads = record { valid = omega arith; inside = omega arith; rest = refl }

new_license-stores_example :
    licence_process_new_license plain (from new_packet) licence
    ≡ ok (record (issued licence) { saved = (7 ∷ 8 ∷ 9 ∷ []) ∷ [] })
new_license-stores_example =
    new_license-stores plain licence 9 0 (1 ∷ 0 ∷ 0 ∷ 0 ∷ []) (115 ∷ []) (99 ∷ 99 ∷ []) []
      (7 ∷ 8 ∷ 9 ∷ []) [] [] plain-IsStreamCipher 26 0 new_packet-Reads refl refl (omega arith)

abbrev request : List ℕ
request = 1 ∷ 3 ∷ 0 ∷ 0 ∷ random

request-Reads : Reads (from request) request
request-Reads = record { valid = omega arith; inside = omega arith; rest = refl }

licence_process-Keeps_example :
    Returns (Keeps licence) (licence_process plain client (from request) licence)
licence_process-Keeps_example =
    licence_process-Keeps plain client licence 1 3 0 0 random request-Reads (ne 1 3 refl)
      (ne 1 4 refl) (ne 1 255 refl)

abbrev alert : List ℕ
alert = 0xff ∷ 3 ∷ 16 ∷ 0 ∷ (le_bytes 4 7 ++ (le_bytes 4 2 ++ (replicate 4 0 ++ [])))

alert-Reads : Reads (from alert) alert
alert-Reads = record { valid = omega arith; inside = omega arith; rest = refl }

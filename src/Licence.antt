-- ===== src/Licence.antt =====
-- licence.c: the messages of the licence server, and the answers.
pub mod Receive
pub mod Packets
pub mod Sent
pub mod Answers
pub mod Stored
pub mod Challenge
pub mod Flags
mod Tests
use rdesktop.Common.{
  ℕ, zero, suc, ◌+◌, ◌^◌, Bool, true, false, not, if◌then◌else◌, ◌==◌, ltb, List, [], ◌∷◌, ◌++◌,
  Option,
}
use rdesktop.Common.{
  none, some, length, take, drop, replicate, u16, Result, ok, exit, undefined, ◌>>=◌, ◌>>◌,
}
use rdesktop.Stream.{
  Stream, in_uint8, in_uint8a, in_uint8s, in_uint16_le, in_uint32_le, out_uint8, out_uint8a,
}
use rdesktop.Stream.{
  out_uint8s, out_uint16_le, out_uint32_le, s_mark_end, s_check_rem, s_check_end, s_seek,
}
use rdesktop.Stream.{s_assert_r, s_assert_w, peek, poke}
use rdesktop.Mcs.{Link}
use rdesktop.Secure.{Security, sec_init, sec_send}
use rdesktop.Secure.Cipher.{Crypto, sec_hash_48, sec_hash_16, sec_sign, buf_out_uint32}

-- What the program knows: the names of the user and of the host without their terminators, whether
-- `g_rdp_version >= RDP_V5`, and what `load_licence` finds, `[]` for nothing.
pub record Client : Type 0 where
  pub g_username : List ℕ
  pub g_hostname : List ℕ
  pub is_rdp_v5 : Bool
  pub stored : List ℕ

-- The keys, the flags of the layer below, the licences that were saved, and the connection.
pub record Licence : Type 0 where
  pub g_licence_key : List ℕ
  pub g_licence_sign_key : List ℕ
  pub security : Security
  pub saved : List (List ℕ)
  pub link : Link

abbrev pub sec_license_pkt : ℕ
sec_license_pkt = 0x0080

abbrev pub version : Client → ℕ
version c = if c.is_rdp_v5 then 3 else 2

abbrev pub null_data : List ℕ
null_data = replicate 64 0

unfoldable pub licence_generate_keys :
    (k : Crypto) → (client_random server_random pre_master_secret : List ℕ) → Licence → Licence
unfolding sec_hash_48 sec_hash_16
licence_generate_keys k client_random server_random pre_master_secret l =
    let master_secret = sec_hash_48 k pre_master_secret client_random server_random 65 in
    let key_block = sec_hash_48 k master_secret server_random client_random 65 in
    record l {
      g_licence_sign_key = take 16 key_block;
      g_licence_key = sec_hash_16 k (drop 16 key_block) client_random server_random;
    }

-- `strncpy` fills up with zeroes.
abbrev pub licence_generate_hwid : Client → List ℕ
licence_generate_hwid c = buf_out_uint32 2 ++ take 16 (c.g_hostname ++ replicate 16 0)

-- RC4 from a fresh key state.
abbrev pub rc4 : (k : Crypto) → (key bytes : List ℕ) → List ℕ
rc4 k key bytes = (k.rdssl_rc4_crypt (k.rdssl_rc4_set_key (take 16 key)) bytes).1

-- The bytes of a packet, between `sec_init` and `s_mark_end`.
unfoldable pub info_packet :
    Client
    → (client_random rsa_data licence_data hwid signature : List ℕ) → ℕ
    → Stream
    → Result Stream
info_packet c client_random rsa_data licence_data hwid signature length_ s = do
  s ← out_uint8 s 0x12
  s ← out_uint8 s (version c)
  s ← out_uint16_le s length_
  s ← out_uint32_le s 1
  s ← out_uint16_le s 0
  s ← out_uint16_le s 0x0201
  s ← out_uint8a s (take 32 client_random)
  s ← out_uint16_le s 2
  s ← out_uint16_le s 72
  s ← out_uint8a s (take 64 rsa_data)
  s ← out_uint8s s 8
  s ← out_uint16_le s 1
  s ← out_uint16_le s (length licence_data)
  s ← out_uint8a s licence_data
  s ← out_uint16_le s 1
  s ← out_uint16_le s 20
  s ← out_uint8a s hwid
  out_uint8a s signature

-- A packet with a length of `length_`, which `write` writes, is sent.
unfoldable pub send_packet : (length_ : ℕ) → (Stream → Result Stream) → Licence → Result Licence
send_packet length_ write l = do
  s ← write (sec_init l.security sec_license_pkt (length_ + 2))
  link' ← sec_send l.security (s_mark_end s) sec_license_pkt l.link
  ok (record l { link = link' })

abbrev pub info_length : List ℕ → ℕ
info_length licence_data = u16 (24 + 32 + 64 + 8 + length licence_data + 20 + 16)

unfoldable pub licence_info :
    Client
    → (client_random rsa_data licence_data hwid signature : List ℕ) → Licence
    → Result Licence
licence_info c client_random rsa_data licence_data hwid signature =
    let n = info_length licence_data in
    send_packet n (info_packet c client_random rsa_data licence_data hwid signature n)

-- The length of a name with its terminator, and the bytes that are written.
abbrev pub name_length : List ℕ → ℕ
name_length name = u16 (length name + 1)

abbrev pub terminated : List ℕ → List ℕ
terminated name = take (name_length name) (name ++ (0 ∷ []))

unfoldable pub request_packet :
    Client → (client_random rsa_data user host : List ℕ) → ℕ → Stream → Result Stream
request_packet c client_random rsa_data user host length_ s = do
  s ← out_uint8 s 0x13
  s ← out_uint8 s (version c)
  s ← out_uint16_le s length_
  s ← out_uint32_le s 1
  s ← out_uint16_le s 0
  s ← out_uint16_le s 0xff01
  s ← out_uint8a s (take 32 client_random)
  s ← out_uint16_le s 2
  s ← out_uint16_le s 72
  s ← out_uint8a s (take 64 rsa_data)
  s ← out_uint8s s 8
  s ← out_uint16_le s 0x000f
  s ← out_uint16_le s (name_length user)
  s ← out_uint8a s (terminated user)
  s ← out_uint16_le s 0x0010
  s ← out_uint16_le s (name_length host)
  out_uint8a s (terminated host)

abbrev pub request_length : (user host : List ℕ) → ℕ
request_length user host = u16 (24 + 32 + 64 + 8 + name_length user + name_length host)

unfoldable pub licence_send_new_licence_request :
    Client → (client_random rsa_data user host : List ℕ) → Licence → Result Licence
licence_send_new_licence_request c client_random rsa_data user host =
    let n = request_length user host in
    send_packet n (request_packet c client_random rsa_data user host n)

unfoldable pub licence_process_request : Crypto → Client → Stream → Licence → Result Licence
licence_process_request k c s l = do
  (server_random, s1) ← in_uint8a s 32
  let keyed = licence_generate_keys k null_data server_random null_data l
  let hwid = licence_generate_hwid c
  let signature = sec_sign k 16 keyed.g_licence_sign_key 16 hwid
  if ltb 0 (length c.stored)
      then licence_info c null_data null_data c.stored (rc4 k keyed.g_licence_key hwid) signature
          keyed
      else licence_send_new_licence_request c null_data null_data c.g_username c.g_hostname keyed

unfoldable pub response_packet :
    Client → (token crypt_hwid signature : List ℕ) → Stream → Result Stream
response_packet c token crypt_hwid signature s = do
  s ← out_uint8 s 0x15
  s ← out_uint8 s (version c)
  s ← out_uint16_le s 58
  s ← out_uint16_le s 1
  s ← out_uint16_le s 10
  s ← out_uint8a s token
  s ← out_uint16_le s 1
  s ← out_uint16_le s 20
  s ← out_uint8a s crypt_hwid
  out_uint8a s signature

unfoldable pub licence_send_platform_challenge_response :
    Client → (token crypt_hwid signature : List ℕ) → Licence → Result Licence
licence_send_platform_challenge_response c token crypt_hwid signature =
    send_packet 58 (response_packet c token crypt_hwid signature)

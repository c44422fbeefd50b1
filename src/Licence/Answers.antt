-- ===== src/Licence/Answers.antt =====
-- What the client answers to a request and to a challenge of the licence server.
use rdesktop.Common.{ℕ, ◌+◌, ◌^◌, ◌<◌, ◌≡◌, ◌∙◌, arith, List, [], ◌∷◌, ◌++◌, if◌then◌else◌, ltb}
use rdesktop.Common.{
  ok, take, length, Result, length-append, replicate, length-take, Bool-cases, inl, inr,
}
use mathlib.Core.Path.{subst}
use rdesktop.Stream.{Stream, le_bytes, in_uint8a}
use rdesktop.Stream.Read.{Reads, advance, in_uint8a-append}
use rdesktop.Secure.Cipher.{Crypto, sec_sign, pad_54, pad_92, buf_out_uint32}
use rdesktop.Licence.{
  Client, Licence, null_data, rc4, licence_generate_keys, licence_generate_hwid, info_length,
}
use rdesktop.Licence.{
  request_length, name_length, terminated, licence_process_request, licence_info, send_packet,
}
use rdesktop.Licence.{licence_send_new_licence_request, info_packet, request_packet}
use rdesktop.Stream.Puts.{Puts}
use rdesktop.Licence.Packets.{info_bytes, request_bytes, info_packet-Puts, request_packet-Puts}
use rdesktop.Licence.Sent.{answered, send_packet_lem}

-- MD5 makes 16 bytes, and RC4 as many as it gets.
pub record IsSized (k : Crypto) : Type 0 where
  pub md5 : (bytes : List ℕ) → length (k.rdssl_md5 bytes) ≡ 16
  pub rc4_size :
      (key : k.Rc4) (bytes : List ℕ) → length (k.rdssl_rc4_crypt key bytes).1 ≡ length bytes

pub sign-size :
    (k : Crypto) (key bytes : List ℕ) → IsSized k → length (sec_sign k 16 key 16 bytes) ≡ 16
unfolding sec_sign
sign-size k key bytes h =
    let body =
      take 16 key
      ++ (pad_92
          ++ take 20 (
              k.rdssl_sha1
                (take 16 key ++ (pad_54 ++ (buf_out_uint32 (length bytes) ++ bytes))))) in
    omega (arith, length-take 16 (k.rdssl_md5 body), h.md5 body)

pub hwid-size : (c : Client) → length (licence_generate_hwid c) ≡ 20
hwid-size c = omega (
  arith,
  length-take 16 (c.g_hostname ++ replicate 16 0),
  length-append c.g_hostname (replicate 16 0),
)

-- The licence that is stored, or a request for a new one.
abbrev pub reply : Crypto → Client → (l : Licence) → List ℕ
reply k c l =
    let hwid = licence_generate_hwid c in
    if ltb 0 (length c.stored)
    then info_bytes c null_data null_data c.stored (rc4 k l.g_licence_key hwid)
        (sec_sign k 16 l.g_licence_sign_key 16 hwid) (info_length c.stored)
    else request_bytes c null_data null_data c.g_username c.g_hostname
        (request_length c.g_username c.g_hostname)

-- A packet whose length is the one that is announced.
sized :
    (l : Licence) (n : ℕ) (write : Stream → Result Stream) (bs : List ℕ)
    → Puts write bs
    → length bs ≡ n
    → n < 2 ^ 14
    → send_packet n write l ≡ ok (answered l bs)
sized l n write bs puts e small =
    subst (λ m. send_packet m write l ≡ ok (answered l bs)) e
      (send_packet_lem l write bs puts (omega (arith, e, small)))

info-size :
    (c : Client) (stored hwid signature : List ℕ) (n : ℕ)
    → length hwid ≡ 20
    → length signature ≡ 16
    → length stored < 2 ^ 13
    → length (info_bytes c null_data null_data stored hwid signature n) ≡ info_length stored
info-size c stored hwid signature n h g small = omega (
  arith,
  h,
  g,
  small,
  length-append stored (le_bytes 2 1 ++ (le_bytes 2 20 ++ (hwid ++ signature))),
  length-append hwid signature,
)

terminated-size :
    (name : List ℕ) → length name < 2 ^ 12 → length (terminated name) ≡ length name + 1
terminated-size name small =
    omega
      (arith, small, length-take (name_length name) (name ++ (0 ∷ [])), length-append name (0 ∷ []))

request-size :
    (c : Client) (user host : List ℕ) (n : ℕ)
    → length user < 2 ^ 12
    → length host < 2 ^ 12
    → length (request_bytes c null_data null_data user host n) ≡ request_length user host
request-size c user host n u h = omega (
  arith,
  u,
  h,
  terminated-size user u,
  terminated-size host h,
  length-append (terminated user)
      (le_bytes 2 0x0010 ++ (le_bytes 2 (name_length host) ++ terminated host)),
)

info_lem :
    (c : Client) (l : Licence) (hwid signature : List ℕ)
    → length hwid ≡ 20
    → length signature ≡ 16
    → length c.stored < 2 ^ 13
    → licence_info c null_data null_data c.stored hwid signature l
      ≡ ok (
          answered l
            (info_bytes c null_data null_data c.stored hwid signature (info_length c.stored)))
unfolding licence_info
info_lem c l hwid signature h g small =
    let n = info_length c.stored in
    sized l n (info_packet c null_data null_data c.stored hwid signature n) _
      (info_packet-Puts c null_data null_data c.stored hwid signature n)
      (info-size c c.stored hwid signature n h g small) (omega (arith, small))

request_lem :
    (c : Client) (l : Licence)
    → length c.g_username < 2 ^ 12
    → length c.g_hostname < 2 ^ 12
    → licence_send_new_licence_request c null_data null_data c.g_username c.g_hostname l
      ≡ ok (
          answered l (
            request_bytes c null_data null_data c.g_username c.g_hostname
              (request_length c.g_username c.g_hostname)))
unfolding licence_send_new_licence_request
request_lem c l user host =
    let n = request_length c.g_username c.g_hostname in
    sized l n (request_packet c null_data null_data c.g_username c.g_hostname n) _
      (request_packet-Puts c null_data null_data c.g_username c.g_hostname n)
      (request-size c c.g_username c.g_hostname n user host) (omega (arith, user, host))

-- A licence request with its 32 random bytes, a stored licence below 2^13 bytes and names below 2^12
-- characters: exactly one packet goes out. It is the licence with the encrypted id of the machine and
-- its signature if one is stored, and otherwise the request for a new one; its length field is the
-- number of its bytes. The keys are those of the random bytes.
pub licence_process_request-answers :
    (k : Crypto) (c : Client) (l : Licence) {s : Stream} (server_random rest : List ℕ)
    → IsSized k
    → Reads s (server_random ++ rest)
    → length server_random ≡ 32
    → length c.stored < 2 ^ 13
    → length c.g_username < 2 ^ 12
    → length c.g_hostname < 2 ^ 12
    → let keyed = licence_generate_keys k null_data server_random null_data l in
      (licence_process_request k c s l ≡ ok (answered keyed (reply k c keyed)))
      × (length (reply k c keyed) ≡ (
          if ltb 0 (length c.stored)
          then info_length c.stored
          else request_length c.g_username c.g_hostname))
unfolding licence_process_request
licence_process_request-answers k c l {s} server_random rest h r len small user host =
    let keyed = licence_generate_keys k null_data server_random null_data l in
    let hwid = licence_generate_hwid c in
    let sealed = rc4 k keyed.g_licence_key hwid in
    let signature = sec_sign k 16 keyed.g_licence_sign_key 16 hwid in
    let got : in_uint8a s 32 ≡ ok (server_random, advance s 32) =
      subst (λ n. in_uint8a s n ≡ ok (server_random, advance s n)) len
        (in_uint8a-append server_random rest r).0 in
    let hwid20 = hwid-size c in
    let sealed20 : length sealed ≡ 20 = h.rc4_size _ hwid ∙ hwid20 in
    let signature16 = sign-size k keyed.g_licence_sign_key hwid h in
    elim (Bool-cases (ltb 0 (length c.stored))) [
      | inl some_ ↦ (
        rw (got, some_) (info_lem c keyed sealed signature sealed20 signature16 small),
        rw some_ (
            info-size c c.stored sealed signature (info_length c.stored) sealed20 signature16
              small),
      )
      | inr none_ ↦ (
        rw (got, none_) (request_lem c keyed user host),
        rw none_ (
            request-size c c.g_username c.g_hostname (request_length c.g_username c.g_hostname) user
              host),
      )
    ]

-- ===== src/Licence/Packets.antt =====
-- The answers to the licence server, byte for byte.
use rdesktop.Common.{ℕ, List, ◌++◌}
use rdesktop.Common.{take, length, replicate}
use rdesktop.Stream.{out_uint8, out_uint8s, out_uint16_le, out_uint32_le, le_bytes}
use rdesktop.Stream.Puts.{Puts, bytes-Puts, step-Puts}
use rdesktop.Licence.{Client, version, info_packet, request_packet}
use rdesktop.Licence.{response_packet, name_length, terminated}

-- The packets as lists of bytes.
abbrev pub response_bytes : Client → (token crypt_hwid signature : List ℕ) → List ℕ
response_bytes c token crypt_hwid signature =
    le_bytes 1 0x15
    ++ (le_bytes 1 (version c)
        ++ (le_bytes 2 58
            ++ (le_bytes 2 1
                ++ (le_bytes 2 10
                    ++ (token
                        ++ (le_bytes 2 1 ++ (le_bytes 2 20 ++ (crypt_hwid ++ (signature)))))))))

pub response_packet-Puts :
    (c : Client) (token crypt_hwid signature : List ℕ)
    → Puts
        (response_packet c token crypt_hwid signature)
        (response_bytes c token crypt_hwid signature)
unfolding response_packet out_uint8 out_uint16_le out_uint32_le out_uint8s
response_packet-Puts c token crypt_hwid signature = step-Puts (le_bytes 1 0x15) _ _ (
    step-Puts (le_bytes 1 (version c)) _ _ (
      step-Puts (le_bytes 2 58) _ _ (
        step-Puts (le_bytes 2 1) _ _ (
          step-Puts (le_bytes 2 10) _ _ (
            step-Puts (token) _ _ (
              step-Puts (le_bytes 2 1) _ _ (
                step-Puts (le_bytes 2 20) _ _
                  (step-Puts (crypt_hwid) _ _ (bytes-Puts (signature))))))))))

abbrev pub info_bytes :
    Client → (client_random rsa_data licence_data hwid signature : List ℕ) → ℕ → List ℕ
info_bytes c client_random rsa_data licence_data hwid signature length_ =
    le_bytes 1 0x12
    ++ (le_bytes 1 (version c)
        ++ (le_bytes 2 length_
            ++ (le_bytes 4 1
                ++ (le_bytes 2 0
                    ++ (le_bytes 2 0x0201
                        ++ (take 32 client_random
                            ++ (le_bytes 2 2
                                ++ (le_bytes 2 72
                                    ++ (take 64 rsa_data
                                        ++ (replicate 8 0
                                            ++ (le_bytes 2 1
                                                ++ (le_bytes 2 (length licence_data)
                                                    ++ (licence_data
                                                        ++ (le_bytes 2 1
                                                            ++ (le_bytes 2 20
                                                            ++ (hwid ++ (signature)))))))))))))))))

pub info_packet-Puts :
    (c : Client) (client_random rsa_data licence_data hwid signature : List ℕ) (length_ : ℕ)
    → Puts
        (info_packet c client_random rsa_data licence_data hwid signature length_)
        (info_bytes c client_random rsa_data licence_data hwid signature length_)
unfolding info_packet out_uint8 out_uint16_le out_uint32_le out_uint8s
info_packet-Puts c client_random rsa_data licence_data hwid signature length_ =
    step-Puts (le_bytes 1 0x12) _ _ (
      step-Puts (le_bytes 1 (version c)) _ _ (
        step-Puts (le_bytes 2 length_) _ _ (
          step-Puts (le_bytes 4 1) _ _ (
            step-Puts (le_bytes 2 0) _ _ (
              step-Puts (le_bytes 2 0x0201) _ _ (
                step-Puts (take 32 client_random) _ _ (
                  step-Puts (le_bytes 2 2) _ _ (
                    step-Puts (le_bytes 2 72) _ _ (
                      step-Puts (take 64 rsa_data) _ _ (
                        step-Puts (replicate 8 0) _ _ (
                          step-Puts (le_bytes 2 1) _ _ (
                            step-Puts (le_bytes 2 (length licence_data)) _ _ (
                              step-Puts (licence_data) _ _ (
                                step-Puts (le_bytes 2 1) _ _ (
                                  step-Puts (le_bytes 2 20) _ _
                                    (step-Puts (hwid) _ _ (bytes-Puts (signature))))))))))))))))))

abbrev pub request_bytes : Client → (client_random rsa_data user host : List ℕ) → ℕ → List ℕ
request_bytes c client_random rsa_data user host length_ =
    le_bytes 1 0x13
    ++ (le_bytes 1 (version c)
        ++ (le_bytes 2 length_
            ++ (le_bytes 4 1
                ++ (le_bytes 2 0
                    ++ (le_bytes 2 0xff01
                        ++ (take 32 client_random
                            ++ (le_bytes 2 2
                                ++ (le_bytes 2 72
                                    ++ (take 64 rsa_data
                                        ++ (replicate 8 0
                                            ++ (le_bytes 2 0x000f
                                                ++ (le_bytes 2 (name_length user)
                                                    ++ (terminated user
                                                        ++ (le_bytes 2 0x0010
                                                            ++ (le_bytes 2 (name_length host)
                                                            ++ (terminated host))))))))))))))))

pub request_packet-Puts :
    (c : Client) (client_random rsa_data user host : List ℕ) (length_ : ℕ)
    → Puts
        (request_packet c client_random rsa_data user host length_)
        (request_bytes c client_random rsa_data user host length_)
unfolding request_packet out_uint8 out_uint16_le out_uint32_le out_uint8s
request_packet-Puts c client_random rsa_data user host length_ = step-Puts (le_bytes 1 0x13) _ _ (
    step-Puts (le_bytes 1 (version c)) _ _ (
      step-Puts (le_bytes 2 length_) _ _ (
        step-Puts (le_bytes 4 1) _ _ (
          step-Puts (le_bytes 2 0) _ _ (
            step-Puts (le_bytes 2 0xff01) _ _ (
              step-Puts (take 32 client_random) _ _ (
                step-Puts (le_bytes 2 2) _ _ (
                  step-Puts (le_bytes 2 72) _ _ (
                    step-Puts (take 64 rsa_data) _ _ (
                      step-Puts (replicate 8 0) _ _ (
                        step-Puts (le_bytes 2 0x000f) _ _ (
                          step-Puts (le_bytes 2 (name_length user)) _ _ (
                            step-Puts (terminated user) _ _ (
                              step-Puts (le_bytes 2 0x0010) _ _ (
                                step-Puts (le_bytes 2 (name_length host)) _ _
                                  (bytes-Puts (terminated host)))))))))))))))))

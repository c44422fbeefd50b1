-- ===== src/Secure/Tests.antt =====
-- A run of two ends of a session.
use rdesktop.Common.{
  ℕ, zero, suc, ◌≡◌, refl, ◌∙◌, ap, arith, Bool, true, false, List, [], ◌∷◌, length, take,
}
use rdesktop.Common.{◌++◌, replicate, none, some, if◌then◌else◌, ok}
use rdesktop.Stream.{Stream, layer_eq, iso_hdr, mcs_hdr}
use rdesktop.Mcs.{Link}
use rdesktop.Mcs.Packets.{sent}
use rdesktop.Secure.{Security, sec_send_to_channel}
use rdesktop.Secure.Send.{IsPacket, framed, sec_send_to_channel-plain}
use rdesktop.Secure.Cipher.{Crypto, Keys}
use rdesktop.Secure.Paired.{
  IsStreamCipher, IsPaired, encrypt_all, decrypt_all, decrypt_all-encrypt_all,
}

-- A stream cipher with a key stream of every other packet.
abbrev swap_digit : ℕ → ℕ
swap_digit zero = 1
swap_digit (suc zero) = 0
swap_digit (suc (suc n)) = suc (suc n)

abbrev swap : List ℕ → List ℕ
swap [] = []
swap (b ∷ bs) = swap_digit b ∷ swap bs

abbrev crypt : Bool → List ℕ → Bool × List ℕ
crypt true bytes = (false, swap bytes)
crypt false bytes = (true, bytes)

abbrev toy : Crypto
toy = record {
  Rc4 = Bool;
  rdssl_sha1 = λ bytes. take 20 bytes;
  rdssl_md5 = λ bytes. take 16 bytes;
  rdssl_rc4_set_key = λ key. true;
  rdssl_rc4_crypt = crypt;
}

swap_digit_twice : (b : ℕ) → swap_digit (swap_digit b) ≡ b
swap_digit_twice zero = refl
swap_digit_twice (suc zero) = refl
swap_digit_twice (suc (suc n)) = refl

swap_twice : (bs : List ℕ) → swap (swap bs) ≡ bs
swap_twice [] = refl
swap_twice (b ∷ bs) =
    ap (λ c. c ∷ swap (swap bs)) (swap_digit_twice b) ∙ ap (λ t. b ∷ t) (swap_twice bs)

length-swap : (bs : List ℕ) → length (swap bs) ≡ length bs
length-swap [] = refl
length-swap (b ∷ bs) = let e = length-swap bs in omega arith

toy-IsStreamCipher : IsStreamCipher toy
toy-IsStreamCipher = record {
  undo = λ key bytes. undo key bytes;
  size = λ key bytes. size key bytes;
}
  where
    undo :
        (key : Bool) (bytes : List ℕ) → crypt key (crypt key bytes).1 ≡ ((crypt key bytes).0, bytes)
    undo true bytes = ap (λ t. (false, t)) (swap_twice bytes)
    undo false bytes = refl

    size : (key : Bool) (bytes : List ℕ) → length (crypt key bytes).1 ≡ length bytes
    size true bytes = length-swap bytes
    size false bytes = refl

-- A state before its last packet with the first key.
abbrev end_ : Keys toy
end_ = record {
  g_rc4_key_len = 16;
  g_rc4_decrypt_key = true;
  g_rc4_encrypt_key = true;
  g_sec_sign_key = [];
  g_sec_decrypt_key = 1 ∷ 2 ∷ [];
  g_sec_encrypt_key = 1 ∷ 2 ∷ [];
  g_sec_decrypt_update_key = 1 ∷ 2 ∷ [];
  g_sec_encrypt_update_key = 1 ∷ 2 ∷ [];
  g_sec_encrypt_use_count = 4095;
  g_sec_decrypt_use_count = 4095;
}

abbrev packets : List (List ℕ)
packets = (0 ∷ 1 ∷ 7 ∷ []) ∷ (0 ∷ []) ∷ (1 ∷ 1 ∷ []) ∷ []

decrypt_all-encrypt_all_example :
    IsPaired toy
      (encrypt_all toy packets end_).0
      (decrypt_all toy (encrypt_all toy packets end_).1 end_).0
    × ((decrypt_all toy (encrypt_all toy packets end_).1 end_).1 ≡ packets)
decrypt_all-encrypt_all_example =
    decrypt_all-encrypt_all toy end_ end_ packets toy-IsStreamCipher
      (record { len = refl; state = refl; key = refl; update = refl; count = refl })
      (omega arith, (omega arith, (omega arith, tt)))

abbrev security : Security
security = record {
  g_licence_issued = false;
  g_licence_error_result = false;
  g_encryption = false;
  sec_sign = λ bytes. replicate 8 0;
  sec_encrypt = λ bytes. bytes;
}

-- A packet with three bytes behind its headers.
abbrev packet : Stream
packet = record {
  buf = replicate 19 0 ++ (5 ∷ 6 ∷ 7 ∷ []);
  p = 22;
  end = 22;
  size = 22;
  hdr =
      λ h. if layer_eq h iso_hdr then some 0 else (if layer_eq h mcs_hdr then some 7 else some 15);
}

packet-IsPacket : IsPacket packet
packet-IsPacket = record {
  valid = record { room = refl; cursor = omega arith; mark = omega arith; wide = omega arith };
  iso = refl;
  mcs = refl;
  sec = refl;
}

abbrev link : Link
link = record {
  g_mcs_userid = 6;
  tcp = record {
    g_in = record { buf = []; p = 0; end = 0; size = 0; hdr = λ _. none };
    network_error = false;
    ssl_initialized = false;
    incoming = [];
  };
  outgoing = [];
}

sec_send_to_channel-plain_example :
    sec_send_to_channel security packet 0x80 1003 link
    ≡ ok (sent (framed security packet 0x80 1003 link) link)
sec_send_to_channel-plain_example =
    sec_send_to_channel-plain security 0x80 1003 link packet-IsPacket refl (omega arith)
      (omega arith)

-- ===== src/Secure/Cipher.antt =====
-- secure.c: the hashes, the session keys and the cipher with its change of keys. The digests and RC4
-- of the cryptographic library are parameters.
use rdesktop.Common.{ℕ, ◌+◌, ◌%◌, List, ◌∷◌, ◌++◌, take, drop}
use rdesktop.Common.{if◌then◌else◌, ◌==◌, length, replicate}
use rdesktop.Stream.{le_bytes}

-- A digest of the bytes that its updates give it, and a key state of RC4, which a call changes.
pub record Crypto : Type 1 where
  pub Rc4 : Type 0
  pub rdssl_sha1 : List ℕ → List ℕ
  pub rdssl_md5 : List ℕ → List ℕ
  pub rdssl_rc4_set_key : List ℕ → Rc4
  pub rdssl_rc4_crypt : Rc4 → List ℕ → Rc4 × List ℕ

-- The static variables of a session with encryption.
pub record Keys (k : Crypto) : Type 0 where
  pub g_rc4_key_len : ℕ
  pub g_rc4_decrypt_key : k.Rc4
  pub g_rc4_encrypt_key : k.Rc4
  pub g_sec_sign_key : List ℕ
  pub g_sec_decrypt_key : List ℕ
  pub g_sec_encrypt_key : List ℕ
  pub g_sec_decrypt_update_key : List ℕ
  pub g_sec_encrypt_update_key : List ℕ
  pub g_sec_encrypt_use_count : ℕ
  pub g_sec_decrypt_use_count : ℕ

abbrev pub pad_54 : List ℕ
pad_54 = replicate 40 54

abbrev pub pad_92 : List ℕ
pad_92 = replicate 48 92

-- `buf_out_uint32`
abbrev pub buf_out_uint32 : ℕ → List ℕ
buf_out_uint32 value = le_bytes 4 value

abbrev pub sec_make_40bit : List ℕ → List ℕ
sec_make_40bit key = 0xd1 ∷ 0x26 ∷ 0x9e ∷ drop 3 key

module _ (k : Crypto) where
  -- One round of `sec_hash_48`.
  unfoldable pub hash_round : (i : ℕ) → (in_ salt1 salt2 : List ℕ) → ℕ → List ℕ
  hash_round i in_ salt1 salt2 salt =
      let shasig = k.rdssl_sha1 (
        replicate (i + 1) ((salt + i) % 256)
        ++ (take 48 in_ ++ (take 32 salt1 ++ take 32 salt2))) in
      k.rdssl_md5 (take 48 in_ ++ take 20 shasig)

  unfoldable pub sec_hash_48 : (in_ salt1 salt2 : List ℕ) → ℕ → List ℕ
  unfolding hash_round
  sec_hash_48 in_ salt1 salt2 salt =
      hash_round 0 in_ salt1 salt2 salt
      ++ (hash_round 1 in_ salt1 salt2 salt ++ hash_round 2 in_ salt1 salt2 salt)

  unfoldable pub sec_hash_16 : (in_ salt1 salt2 : List ℕ) → List ℕ
  sec_hash_16 in_ salt1 salt2 = k.rdssl_md5 (take 16 in_ ++ (take 32 salt1 ++ take 32 salt2))

  unfoldable pub sec_hash_sha1_16 : (in_ salt1 : List ℕ) → List ℕ
  sec_hash_sha1_16 in_ salt1 = k.rdssl_sha1 (take 16 in_ ++ take 16 salt1)

  -- The arguments `siglen`, `session_key`, `keylen` and `data`; `datalen` is the length of the data.
  unfoldable pub sec_sign : ℕ → List ℕ → ℕ → List ℕ → List ℕ
  sec_sign siglen session_key keylen bytes =
      let lenhdr = buf_out_uint32 (length bytes) in
      let shasig = k.rdssl_sha1 (take keylen session_key ++ (pad_54 ++ (lenhdr ++ bytes))) in
      take siglen (k.rdssl_md5 (take keylen session_key ++ (pad_92 ++ take 20 shasig)))

  -- `sec_update`, with `g_rc4_key_len`: the new key.
  unfoldable pub sec_update : ℕ → (key update_key : List ℕ) → List ℕ
  sec_update len key update_key =
      let shasig = k.rdssl_sha1 (take len update_key ++ (pad_54 ++ take len key)) in
      let hashed = k.rdssl_md5 (take len update_key ++ (pad_92 ++ take 20 shasig)) in
      let crypted = k.rdssl_rc4_crypt (k.rdssl_rc4_set_key (take len hashed)) (take len hashed) in
      let updated = crypted.1 ++ drop len hashed in
      if len == 8 then sec_make_40bit updated else updated

  -- The three keys, of 40 or of 128 bits.
  abbrev pub reduced : ℕ → List ℕ → List ℕ
  reduced rc4_key_size key = if rc4_key_size == 1 then sec_make_40bit key else key

  -- The counts are those of the state before.
  unfoldable pub sec_generate_keys : (client_random server_random : List ℕ) → ℕ → Keys k → Keys k
  unfolding sec_hash_48 sec_hash_16
  sec_generate_keys client_random server_random rc4_key_size s =
      let pre_master_secret = take 24 client_random ++ take 24 server_random in
      let master_secret = sec_hash_48 pre_master_secret client_random server_random 65 in
      let key_block = sec_hash_48 master_secret client_random server_random 88 in
      let sign = reduced rc4_key_size (take 16 key_block) in
      let decrypt =
        reduced rc4_key_size (sec_hash_16 (drop 16 key_block) client_random server_random) in
      let encrypt =
        reduced rc4_key_size (sec_hash_16 (drop 32 key_block) client_random server_random) in
      let len = if rc4_key_size == 1 then 8 else 16 in
      record s {
        g_rc4_key_len = len;
        g_rc4_decrypt_key = k.rdssl_rc4_set_key (take len decrypt);
        g_rc4_encrypt_key = k.rdssl_rc4_set_key (take len encrypt);
        g_sec_sign_key = sign;
        g_sec_decrypt_key = decrypt;
        g_sec_encrypt_key = encrypt;
        g_sec_decrypt_update_key = take 16 decrypt;
        g_sec_encrypt_update_key = take 16 encrypt;
      }

  -- A key change, and a call of RC4.
  unfoldable pub update_encrypt : Keys k → Keys k
  update_encrypt s =
      let key = sec_update s.g_rc4_key_len s.g_sec_encrypt_key s.g_sec_encrypt_update_key in
      record s {
        g_sec_encrypt_key = key;
        g_rc4_encrypt_key = k.rdssl_rc4_set_key (take s.g_rc4_key_len key);
        g_sec_encrypt_use_count = 0;
      }

  abbrev pub encrypt_bytes : List ℕ → Keys k → Keys k × List ℕ
  encrypt_bytes bytes s =
      let (key, out) = k.rdssl_rc4_crypt s.g_rc4_encrypt_key bytes in
      (
        record s {
          g_rc4_encrypt_key = key;
          g_sec_encrypt_use_count = s.g_sec_encrypt_use_count + 1;
        },
        out,
      )

  -- After 4096 uses the key changes.
  abbrev pub ready_encrypt : Keys k → Keys k
  ready_encrypt s = if s.g_sec_encrypt_use_count == 4096 then update_encrypt s else s

  unfoldable pub sec_encrypt : List ℕ → Keys k → Keys k × List ℕ
  sec_encrypt bytes s = encrypt_bytes bytes (ready_encrypt s)

  unfoldable pub update_decrypt : Keys k → Keys k
  update_decrypt s =
      let key = sec_update s.g_rc4_key_len s.g_sec_decrypt_key s.g_sec_decrypt_update_key in
      record s {
        g_sec_decrypt_key = key;
        g_rc4_decrypt_key = k.rdssl_rc4_set_key (take s.g_rc4_key_len key);
        g_sec_decrypt_use_count = 0;
      }

  abbrev pub decrypt_bytes : List ℕ → Keys k → Keys k × List ℕ
  decrypt_bytes bytes s =
      let (key, out) = k.rdssl_rc4_crypt s.g_rc4_decrypt_key bytes in
      (
        record s {
          g_rc4_decrypt_key = key;
          g_sec_decrypt_use_count = s.g_sec_decrypt_use_count + 1;
        },
        out,
      )

  abbrev pub ready_decrypt : Keys k → Keys k
  ready_decrypt s = if s.g_sec_decrypt_use_count == 4096 then update_decrypt s else s

  unfoldable pub sec_decrypt : List ℕ → Keys k → Keys k × List ℕ
  sec_decrypt bytes s =
      if length bytes == 0 then (s, bytes) else decrypt_bytes bytes (ready_decrypt s)

-- ===== src/Secure.antt =====
-- secure.c: the sending side of the security layer. The signature and the encryption are
-- parameters (`sec_sign` and `sec_encrypt` run the cryptographic library); `scard_lock` is not
-- modelled.
pub mod Cipher
pub mod Paired
pub mod Send
mod Tests
use rdesktop.Common.{ℕ, ◌+◌, Bool, ◌&&◌, ◌||◌, not, leb}
use rdesktop.Common.{if◌then◌else◌, List, ◌++◌, has_bit, drop}
use rdesktop.Common.{Result, ok, undefined, guard, ◌>>=◌, ◌>>◌}
use rdesktop.Stream.{
  Stream, sec_hdr, s_push_layer, s_pop_layer, s_remaining, out_uint32_le, peek, poke,
}
use rdesktop.Stream.{s_assert_r, s_assert_w}
use rdesktop.Mcs.{Link, mcs_init, mcs_send_to_channel, mcs_global_channel}

abbrev pub sec_encrypt_flag : ℕ
sec_encrypt_flag = 0x0008

-- The flags of the session that the layer reads, and what the keys make of a packet: its
-- signature of eight bytes, and its encryption.
pub record Security : Type 0 where
  pub g_licence_issued : Bool
  pub g_licence_error_result : Bool
  pub g_encryption : Bool
  pub sec_sign : List ℕ → List ℕ
  pub sec_encrypt : List ℕ → List ℕ

-- `!g_licence_issued && !g_licence_error_result`
abbrev pub unlicensed : Security → Bool
unlicensed c = not c.g_licence_issued && not c.g_licence_error_result

unfoldable pub header_length : Security → ℕ → ℕ
header_length c flags =
    if unlicensed c
    then (if has_bit flags sec_encrypt_flag then 12 else 4)
    else (if has_bit flags sec_encrypt_flag then 12 else 0)

unfoldable pub sec_init : Security → ℕ → ℕ → Stream
unfolding header_length
sec_init c flags maxlen =
    let hdrlen = header_length c flags in s_push_layer sec_hdr hdrlen (mcs_init (maxlen + hdrlen))

-- The bytes from the pointer on are replaced: eight of signature, and the data encrypted. With
-- fewer than eight left the length of the data is negative. The pointer ends behind the data, where
-- `inout_uint8p` moves it.
unfoldable pub sign_and_encrypt : Security → Stream → Result Stream
sign_and_encrypt c s = do
  s_assert_r s (s_remaining s)
  s_assert_w s (s_remaining s)
  guard (leb 8 (s_remaining s)) undefined
  (bytes, s1) ← peek s (s_remaining s)
  poke s (c.sec_sign (drop 8 bytes) ++ c.sec_encrypt (drop 8 bytes))

unfoldable pub sec_send_to_channel : Security → Stream → ℕ → ℕ → Link → Result Link
unfolding sign_and_encrypt
sec_send_to_channel c s flags channel k = do
  s1 ← s_pop_layer sec_hdr s
  s2 ← if unlicensed c || has_bit flags sec_encrypt_flag then out_uint32_le s1 flags else ok s1
  s3 ← if has_bit flags sec_encrypt_flag then sign_and_encrypt c s2 else ok s2
  mcs_send_to_channel channel s3 k

unfoldable pub sec_send : Security → Stream → ℕ → Link → Result Link
unfolding sec_send_to_channel
sec_send c s flags k = sec_send_to_channel c s flags mcs_global_channel k

-- ===== src/Licence/Receive.antt =====
-- licence.c: the challenge, the licence and the alert that the server sends, and the dispatch.
use rdesktop.Common.{
  ℕ, zero, suc, true, not, if◌then◌else◌, ◌==◌, List, [], ◌∷◌, ◌++◌, Option, ◌||◌,
}
use rdesktop.Common.{none, some, Result, ok, exit, undefined, ◌>>=◌, ◌>>◌}
use rdesktop.Stream.{
  Stream, in_uint8, in_uint8a, in_uint8s, in_uint16_le, in_uint32_le, s_check_rem,
}
use rdesktop.Stream.{s_seek, s_assert_r, s_assert_w, peek, poke}
use rdesktop.Secure.Cipher.{Crypto, sec_sign}
use rdesktop.Licence.{Client, Licence, rc4, licence_generate_hwid, licence_process_request}
use rdesktop.Licence.{licence_send_platform_challenge_response}

-- What the challenge holds: the token and the signature, where the length of the token is right.
unfoldable pub licence_parse_platform_challenge : Stream → Result (Option (List ℕ × List ℕ))
licence_parse_platform_challenge s = do
  s1 ← in_uint8s s 6
  (tokenlen, s2) ← in_uint16_le s1
  let tokens = (do
    (token, s3) ← in_uint8a s2 10
    (signature, s4) ← in_uint8a s3 16
    ok (some (token, signature)))
  if not (tokenlen == 10) then ok none else tokens

-- The answer to a token. Without one, `memcpy` reads from NULL.
unfoldable pub answer : Crypto → Client → Option (List ℕ × List ℕ) → Licence → Result Licence
answer k c none l = exit undefined
answer k c (some (in_token, in_sig)) l =
    let decrypt_token = rc4 k l.g_licence_key in_token in
    let hwid = licence_generate_hwid c in
    let out_sig = sec_sign k 16 l.g_licence_sign_key 16 (decrypt_token ++ hwid) in
    licence_send_platform_challenge_response c in_token (rc4 k l.g_licence_key hwid) out_sig l

-- What the parser returns is not read.
unfoldable pub licence_process_platform_challenge :
    Crypto → Client → Stream → Licence → Result Licence
licence_process_platform_challenge k c s l = do
  found ← licence_parse_platform_challenge s
  answer k c found l

-- `inout_uint8p`, and RC4 on these bytes where they stand; the pointer ends behind them.
unfoldable pub decrypt_in_place : Crypto → (key : List ℕ) → ℕ → Stream → Result Stream
decrypt_in_place k key n s = do
  s_assert_r s n
  s_assert_w s n
  (bytes, s1) ← peek s n
  poke s (rc4 k key bytes)

-- The loop over the strings, with the length that was read last: `none` where it returns from the
-- function.
unfoldable pub skip_strings : (rounds length_ : ℕ) → Stream → Result (Option (ℕ × Stream))
skip_strings zero length_ s = ok (some (length_, s))
skip_strings (suc rounds) length_ s = do
  s1 ← in_uint8s s length_
  (next, s2) ← in_uint32_le s1
  if not (s_check_rem s2 next) then ok none else skip_strings rounds next s2

abbrev pub issued : Licence → Licence
issued l = record l { security = record l.security { g_licence_issued = true } }

abbrev pub store : Option (ℕ × Stream) → Licence → Result Licence
store none l = ok l
store (some (length_, s)) l = do
  (bytes, s1) ← in_uint8a s length_
  ok (record (issued l) { saved = l.saved ++ (bytes ∷ []) })

-- From the block on, which is decrypted first.
unfoldable pub read_license : Crypto → (length_ : ℕ) → Stream → Licence → Result Licence
read_license k length_ s l = do
  s1 ← decrypt_in_place k l.g_licence_key length_ s
  s2 ← s_seek s1 s.p
  s3 ← in_uint8s s2 4
  found ← skip_strings 4 0 s3
  store found l

unfoldable pub licence_process_new_license : Crypto → Stream → Licence → Result Licence
licence_process_new_license k s l = do
  s1 ← in_uint8s s 2
  (length_, s2) ← in_uint16_le s1
  if not (s_check_rem s2 length_) then ok l else read_license k length_ s2 l

unfoldable pub licence_process_error_alert : Stream → Licence → Result Licence
licence_process_error_alert s l = do
  (error_code, s1) ← in_uint32_le s
  (state_transition, s2) ← in_uint32_le s1
  s3 ← in_uint8s s2 4
  ok (
      if error_code == 0x07
      then issued l
      else record l { security = record l.security { g_licence_error_result = true } })

unfoldable pub licence_process : Crypto → Client → Stream → Licence → Result Licence
licence_process k c s l = do
  (tag, s1) ← in_uint8 s
  s2 ← in_uint8s s1 3
  let challenge = licence_process_platform_challenge k c s2 l
  let new = licence_process_new_license k s2 l
  let alert = licence_process_error_alert s2 l
  let request = licence_process_request k c s2 l
  if tag == 0x01
      then request
      else (if tag == 0x02
          then challenge
          else (if tag == 0x03 || tag == 0x04 then new else (if tag == 0xff then alert else ok l)))

-- ===== src/Mcs/Connect.antt =====
-- mcs.c: the connection sequence. `sec_process_mcs_data` of secure.c, which reads the server's
-- settings, is a parameter.
use rdesktop.Common.{ℕ, ◌+◌, ◌*◌, ◌/◌, Bool, true, false, ◌==◌, has_bit, u16}
use rdesktop.Common.{if◌then◌else◌, List, [], ◌∷◌, Option, some, none, not}
use rdesktop.Common.{Result, ok, exit, protocol_error, undefined, ◌>>=◌}
use rdesktop.Stream.{Stream, s_alloc, s_mark_end, s_check_rem, s_check_end, s_length, in_uint8}
use rdesktop.Stream.{in_uint8s, in_uint16_be, out_uint8, out_uint16_be, out_stream}
use rdesktop.Ber.{ber_out_header, ber_out_integer, ber_out_sequence, ber_parse_header, tag_boolean}
use rdesktop.Ber.{tag_integer, tag_octet_string, tag_result}
use rdesktop.Iso.{iso_init, iso_recv, Received, message, nothing, blocked, Message}
use rdesktop.Mcs.{Link, send, iso_disconnect, mcs_out_per_integer, mcs_edrq, mcs_aurq, mcs_aucf}
use rdesktop.Mcs.{mcs_cjrq, mcs_cjcf, mcs_global_channel, mcs_userchannel_base}

abbrev connect_initial : ℕ
connect_initial = 0x7f65

abbrev connect_response : ℕ
connect_response = 0x7f66

abbrev tag_domain_params : ℕ
tag_domain_params = 0x30

unfoldable pub mcs_out_domain_params : Stream → ℕ → ℕ → ℕ → ℕ → Result Stream
mcs_out_domain_params s max_channels max_users max_tokens max_pdusize = do
  s ← ber_out_header s tag_domain_params 32
  s ← ber_out_integer s max_channels
  s ← ber_out_integer s max_users
  s ← ber_out_integer s max_tokens
  s ← ber_out_integer s 1
  s ← ber_out_integer s 0
  s ← ber_out_integer s 1
  s ← ber_out_integer s max_pdusize
  ber_out_integer s 2

-- A length that is left alone where the header is refused: `none` is a variable not yet set.
unfoldable pub parse_into : Stream → ℕ → Option ℕ → Result (Option ℕ × Stream)
parse_into s tag length = do
  (fits, len, s1) ← ber_parse_header s tag 0
  ok (if fits then some len else length, s1)

unfoldable pub known : Option ℕ → Result ℕ
known length = elim length [ none ↦ exit undefined | some len ↦ ok len ]

unfoldable pub mcs_parse_domain_params : Stream → Result Stream
unfolding parse_into known
mcs_parse_domain_params s = do
  (length, s1) ← parse_into s tag_domain_params none
  len ← known length
  if s_check_rem s1 len then in_uint8s s1 len else exit protocol_error

-- The message, up to `iso_send`.
unfoldable pub connect_initial_packet : Stream → Result Stream
unfolding mcs_out_domain_params
connect_initial_packet mcs_data = do
  let datalen = s_length mcs_data
  let length = 9 + 3 * 34 + 4 + datalen
  let s = iso_init (length + 5)
  s ← ber_out_header s connect_initial length
  s ← ber_out_header s tag_octet_string 1
  s ← out_uint8 s 1
  s ← ber_out_header s tag_octet_string 1
  s ← out_uint8 s 1
  s ← ber_out_header s tag_boolean 1
  s ← out_uint8 s 0xff
  s ← mcs_out_domain_params s 34 2 0 0xffff
  s ← mcs_out_domain_params s 1 1 1 0x420
  s ← mcs_out_domain_params s 0xffff 0xfc17 0xffff 0xffff
  s ← ber_out_header s tag_octet_string datalen
  s ← out_stream s mcs_data
  ok (s_mark_end s)

unfoldable pub mcs_send_connect_initial : Stream → Link → Result Link
unfolding connect_initial_packet
mcs_send_connect_initial mcs_data k = do s ← connect_initial_packet mcs_data; send s k

unfoldable pub mcs_send_edrq : Link → Result Link
mcs_send_edrq k = do
  s ← out_uint8 (iso_init 5) (mcs_edrq * 4)
  s ← mcs_out_per_integer s 1
  s ← mcs_out_per_integer s 1
  send (s_mark_end s) k

unfoldable pub mcs_send_aurq : Link → Result Link
mcs_send_aurq k = do s ← out_uint8 (iso_init 1) (mcs_aurq * 4); send (s_mark_end s) k

unfoldable pub mcs_send_cjrq : ℕ → Link → Result Link
mcs_send_cjrq chanid k = do
  s ← out_uint8 (iso_init 5) (mcs_cjrq * 4)
  s ← out_uint16_be s k.g_mcs_userid
  s ← out_uint16_be s chanid
  send (s_mark_end s) k

unfoldable pub mcs_send_dpu : ℕ → Link → Result Link
mcs_send_dpu reason k = do
  c ← ber_out_integer (s_alloc 6) reason
  c ← ber_out_sequence c none
  s ← ber_out_sequence (iso_init 8) (some (s_mark_end c))
  send (s_mark_end s) k

unfoldable pub mcs_disconnect : ℕ → Link → Result Link
unfolding mcs_send_dpu
mcs_disconnect reason k = do k1 ← mcs_send_dpu reason k; iso_disconnect k1

-- What a receiving function makes of what came.
unfoldable pub answer :
    (Stream → Link → Result (Bool × Link)) → Link → Received Message → Result (Received Bool × Link)
answer parse k nothing = ok (message false, k)
answer parse k blocked = ok (blocked, k)
answer parse k (message m) = do (granted, k') ← parse m.stream k; ok (message granted, k')

-- A receiving function: it takes the next message, or fails where there is none.
unfoldable pub expect :
    (Stream → Link → Result (Bool × Link)) → Link → Result (Received Bool × Link)
unfolding answer
expect parse k = do (r, t) ← iso_recv k.tcp; answer parse (record k { tcp = t }) r

-- The opcode and the result of a confirmation: whether both are as expected.
unfoldable pub confirmation : ℕ → Stream → Result (Bool × ℕ × Stream)
confirmation expected s = do
  (opcode, s1) ← in_uint8 s
  if opcode / 4 == expected
      then (do (result, s2) ← in_uint8 s1; ok (result == 0, opcode, s2))
      else ok (false, opcode, s1)

unfoldable pub attach_confirm : Stream → Link → Result (Bool × Link)
unfolding confirmation
attach_confirm s k = do
  (granted, opcode, s1) ← confirmation mcs_aucf s
  if not granted
      then ok (false, k)
      else (if has_bit opcode 2
          then (do (id, s2) ← in_uint16_be s1; ok (s_check_end s2, record k { g_mcs_userid = id }))
          else ok (s_check_end s1, k))

unfoldable pub join_confirm : Stream → Link → Result (Bool × Link)
unfolding confirmation
join_confirm s k = do
  (granted, opcode, s1) ← confirmation mcs_cjcf s
  if not granted then ok (false, k) else (do
    s2 ← in_uint8s s1 4
    s3 ← if has_bit opcode 2 then in_uint8s s2 2 else ok s2
    ok (s_check_end s3, k))

unfoldable pub mcs_recv_aucf : Link → Result (Received Bool × Link)
unfolding expect attach_confirm
mcs_recv_aucf k = expect attach_confirm k

unfoldable pub mcs_recv_cjcf : Link → Result (Received Bool × Link)
unfolding expect join_confirm
mcs_recv_cjcf k = expect join_confirm k

module _ (sec_process_mcs_data : Stream → Result Stream) where
  -- The length is the one of the last header that was read; the check follows the skip.
  unfoldable pub connect_answer : Stream → Link → Result (Bool × Link)
  unfolding parse_into known mcs_parse_domain_params
  connect_answer s k = do
    (length0, s1) ← parse_into s connect_response none
    (length1, s2) ← parse_into s1 tag_result length0
    (result, s3) ← in_uint8 s2
    if not (result == 0) then ok (false, k) else (do
      (length2, s4) ← parse_into s3 tag_integer length1
      len ← known length2
      s5 ← in_uint8s s4 len
      if not (s_check_rem s5 len) then exit protocol_error else (do
        s6 ← mcs_parse_domain_params s5
        (length3, s7) ← parse_into s6 tag_octet_string length2
        s8 ← sec_process_mcs_data s7
        ok (s_check_end s8, k)))

  unfoldable pub mcs_recv_connect_response : Link → Result (Received Bool × Link)
  unfolding expect connect_answer
  mcs_recv_connect_response k = expect connect_answer k

-- `if (!receive()) goto error;`: what was received, or the end of the sequence.
unfoldable pub then_or_error :
    Result (Received Bool × Link)
    → (Link → Result (Received Bool × Link))
    → Result (Received Bool × Link)
then_or_error receive next = do
  (r, k) ← receive
  elim r [
    | nothing ↦ ok (nothing, k)
    | blocked ↦ ok (blocked, k)
    | message granted ↦
        if granted then next k else (do k1 ← iso_disconnect k; ok (message false, k1))
  ]

-- The loop over `g_channels`.
unfoldable pub join_channels : List ℕ → Link → Result (Received Bool × Link)
join_channels [] k = ok (message true, k)
join_channels (id ∷ ids) k = do
  k1 ← mcs_send_cjrq id k
  then_or_error (mcs_recv_cjcf k1) (join_channels ids)

module _ (sec_process_mcs_data : Stream → Result Stream) where
  unfoldable pub mcs_connect_finalize :
      (channels : List ℕ) → Stream → Link → Result (Received Bool × Link)
  unfolding then_or_error join_channels
  mcs_connect_finalize channels mcs_data k = do
    k1 ← mcs_send_connect_initial mcs_data k
    then_or_error (mcs_recv_connect_response sec_process_mcs_data k1) (λ k2. do
      k3 ← mcs_send_edrq k2
      k4 ← mcs_send_aurq k3
      then_or_error (mcs_recv_aucf k4) (λ k5. do
        k6 ← mcs_send_cjrq (u16 (k5.g_mcs_userid + mcs_userchannel_base)) k5
        then_or_error (mcs_recv_cjcf k6) (join_channels (mcs_global_channel ∷ channels))))

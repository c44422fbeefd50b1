-- ===== src/Iso/Negotiate.antt =====
-- iso.c: the connection request and iso_connect, which negotiates the security protocol. Each attempt
-- has its own connection: what tcp_connect, tcp_tls_connect and cssp_connect return in it is part of
-- the attempt. Where the attempts end, the call is still waiting.
pub mod Sound
use rdesktop.Common.{
  ℕ, zero, suc, ◌+◌, ◌-◌, ◌^◌, Bool, true, false, not, if◌then◌else◌, ◌&&◌, ◌||◌, ◌==◌, List, [],
  ◌∷◌, ◌++◌,
}
use rdesktop.Common.{
  Option, none, some, length, take, has_bit, u32, bit_or, Result, ok, exit, ◌>>=◌, ◌>>◌,
}
use rdesktop.Stream.{
  Stream, in_uint8, in_uint8s, in_uint32_le, out_uint8, out_uint8a, out_uint16_be, out_uint16_le,
}
use rdesktop.Stream.{out_uint32_le, s_mark_end, s_check_rem}
use rdesktop.Tcp.{Tcp, tcp_init}
use rdesktop.Iso.{Message, Received, message, nothing, blocked, iso_recv_msg, pdu_cr, pdu_cc}

-- The options, the build flag WITH_CREDSSP, and whether the smart card is described in one of its four
-- options.
pub record Config : Type 0 where
  pub username : List ℕ
  pub is_rdp_v5 : Bool
  pub with_credssp : Bool
  pub g_restricted_admin : Bool
  pub g_remote_guard : Bool
  pub g_use_password_as_pin : Bool
  pub has_smart_card : Bool

-- `none` is a tcp_connect that returns False.
pub record Attempt : Type 0 where
  pub connection : Option Tcp
  pub tls : Bool
  pub cssp : Bool

-- The variables that the negotiation sets, and the requests that were sent.
pub record Negotiation : Type 0 where
  pub g_negotiate_rdp_protocol : Bool
  pub g_encryption : Bool
  pub g_extended_client_data_supported : Bool
  pub requests : List (List ℕ)

-- True with `*selected_protocol`, or False, or no answer yet.
pub data Verdict : Type 0 where
  connected : ℕ → Verdict
  refused unanswered : Verdict

-- An attempt ends the call, or goes on to `retry` with `neg_proto`.
pub data Step : Type 0 where
  decided : Verdict → Negotiation → Step
  retry : ℕ → Negotiation → Step

-- "Cookie: mstshash="
abbrev pub cookie : List ℕ
cookie =
    0x43 ∷ 0x6f ∷ 0x6f ∷ 0x6b ∷ 0x69 ∷ 0x65 ∷ 0x3a ∷ 0x20 ∷ 0x6d ∷ 0x73 ∷ 0x74 ∷ 0x73 ∷ 0x68 ∷ 0x61
    ∷ 0x73 ∷ 0x68 ∷ 0x3d ∷ []

abbrev pub negotiates : Config → Negotiation → Bool
negotiates c n = c.is_rdp_v5 && n.g_negotiate_rdp_protocol

abbrev pub neg_flags : Config → ℕ
neg_flags c = (if c.g_restricted_admin then 1 else 0) + (if c.g_remote_guard then 2 else 0)

-- The optional negotiation request.
unfoldable pub negotiation_request : Config → (neg_proto : ℕ) → Stream → Result Stream
negotiation_request c neg_proto s = do
  s ← out_uint8 s 1
  s ← out_uint8 s (neg_flags c)
  s ← out_uint16_le s 8
  out_uint32_le s neg_proto

-- The bytes that go to `tcp_send`.
unfoldable pub iso_send_connection_request :
    Config → (neg_proto : ℕ) → Negotiation → Result (List ℕ)
iso_send_connection_request c neg_proto n = do
  let length_ = 30 + length c.username + (if negotiates c n then 8 else 0)
  s ← out_uint8 (tcp_init length_) 3
  s ← out_uint8 s 0
  s ← out_uint16_be s length_
  s ← out_uint8 s (length_ - 5)
  s ← out_uint8 s pdu_cr
  s ← out_uint16_le s 0
  s ← out_uint16_le s 0
  s ← out_uint8 s 0
  s ← out_uint8a s cookie
  s ← out_uint8a s c.username
  s ← out_uint8 s 0x0d
  s ← out_uint8 s 0x0a
  s ← if negotiates c n then negotiation_request c neg_proto s else ok s
  ok (take s.p s.buf)

-- The protocols that are asked for; `none` is the return without CredSSP.
unfoldable pub first_protocol : Config → Option ℕ
first_protocol c =
    if c.with_credssp
    then some (
        if c.g_remote_guard
        then 11
        else (if c.g_restricted_admin || not c.g_use_password_as_pin || c.has_smart_card
            then 3
            else 1))
    else (if c.g_remote_guard || c.g_restricted_admin then none else some 1)

-- A negotiation failure with its code: two of them lead to an attempt without negotiation.
unfoldable pub negotiation_failure : (code neg_proto : ℕ) → Negotiation → Step
negotiation_failure code neg_proto n =
    if code == 2 || code == 3
    then retry neg_proto (record n { g_negotiate_rdp_protocol = false })
    else decided refused n

-- `data == PROTOCOL_HYBRID || data == PROTOCOL_HYBRID_EX`
abbrev pub is_hybrid : ℕ → Bool
is_hybrid protocol = protocol == 2 || protocol == 8

-- Restricted admin or remote guard is asked for, and the answer does not agree.
abbrev pub disagrees : Bool → (flags bit protocol : ℕ) → Bool
disagrees asked flags bit protocol = asked && (not (has_bit flags bit) || not (is_hybrid protocol))

-- The protocol that the server selected.
unfoldable pub select_protocol : Config → Attempt → (protocol : ℕ) → Negotiation → Step
select_protocol c a protocol n =
    if protocol == 1
    then (if a.tls then decided (connected 1) (record n { g_encryption = false }) else retry 0 n)
    else (if c.with_credssp && is_hybrid protocol
        then (if a.cssp
            then decided (connected protocol) (record n { g_encryption = false })
            else retry 1 n)
        else (if protocol == 0 then decided (connected 0) n else decided refused n))

-- The response, by its type, flags and data.
unfoldable pub negotiation_response :
    Config → Attempt → (neg_proto type flags protocol : ℕ) → Negotiation → Step
negotiation_response c a neg_proto type flags protocol n =
    if type == 3
    then negotiation_failure protocol neg_proto n
    else (if not (type == 2)
        then decided refused n
        else (if disagrees c.g_restricted_admin flags 0x08 protocol
              || disagrees c.g_remote_guard flags 0x10 protocol
            then decided refused n
            else select_protocol c a protocol n))

-- From the connection confirm on.
unfoldable pub confirm : Config → Attempt → (neg_proto : ℕ) → Message → Negotiation → Result Step
confirm c a neg_proto m n =
    let response = (do
      (type, s1) ← in_uint8 m.stream
      (flags, s2) ← in_uint8 s1
      s3 ← in_uint8s s2 2
      (protocol, s4) ← in_uint32_le s3
      ok (
          negotiation_response c a neg_proto type flags protocol
            (record n { g_extended_client_data_supported = has_bit flags 0x01 }))) in
    if m.is_fastpath || not (m.code == pdu_cc)
    then ok (decided refused n)
    else (if c.is_rdp_v5 && s_check_rem m.stream 8 then response else ok (decided (connected 0) n))

-- What iso_recv_msg returned.
unfoldable pub received :
    Config → Attempt → (neg_proto : ℕ) → Received Message → Negotiation → Result Step
received c a neg_proto nothing n = ok (decided refused n)
received c a neg_proto blocked n = ok (decided unanswered n)
received c a neg_proto (message m) n = confirm c a neg_proto m n

-- One attempt, with what tcp_connect returned.
unfoldable pub attempt : Config → Attempt → (neg_proto : ℕ) → Option Tcp → Negotiation → Result Step
attempt c a neg_proto none n = ok (decided refused n)
attempt c a neg_proto (some t) n = do
  request ← iso_send_connection_request c neg_proto n
  (r, t1) ← iso_recv_msg 0 t
  received c a neg_proto r (record n { requests = n.requests ++ (request ∷ []) })

-- The end of an attempt: `return`, or `goto retry`.
unfoldable pub follow :
    (again : ℕ → Negotiation → Result (Verdict × Negotiation))
    → Step
    → Result (Verdict × Negotiation)
follow again (decided v n) = ok (v, n)
follow again (retry neg_proto n) = again neg_proto n

-- From `retry` on.
unfoldable pub connect_loop :
    Config → List Attempt → (neg_proto : ℕ) → Negotiation → Result (Verdict × Negotiation)
connect_loop c [] neg_proto n = ok (unanswered, n)
connect_loop c (a ∷ later) neg_proto n = do
  step ← attempt c a neg_proto a.connection n
  follow (λ proto n1. connect_loop c later proto n1) step

-- The first attempt, if there is a protocol to ask for.
unfoldable pub start :
    Config → List Attempt → (neg_proto : Option ℕ) → Negotiation → Result (Verdict × Negotiation)
start c attempts none n = ok (refused, n)
start c attempts (some neg_proto) n = connect_loop c attempts neg_proto n

unfoldable pub iso_connect : Config → List Attempt → Negotiation → Result (Verdict × Negotiation)
iso_connect c attempts n =
    start c attempts (first_protocol c)
      (record n { g_extended_client_data_supported = false; g_negotiate_rdp_protocol = true })

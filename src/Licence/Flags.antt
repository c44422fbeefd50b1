-- ===== src/Licence/Flags.antt =====
-- Which messages change the flags of the layer below and the stored licences.
use rdesktop.Common.{ℕ, ◌+◌, ◌≡◌, ◌≢◌, refl, arith, List, [], ◌∷◌, ◌++◌, true, false, ◌==◌, ltb}
use rdesktop.Common.{
  ok, some, none, length, Result, Returns, Returns-then, Bool-cases, inl, inr, Option,
}
use rdesktop.Stream.{Stream, in_uint8a, s_mark_end}
use rdesktop.Secure.{sec_init, sec_send}
use rdesktop.Secure.Cipher.{Crypto}
use rdesktop.Licence.{
  Client, Licence, send_packet, licence_info, licence_send_new_licence_request,
  licence_process_request,
}
use rdesktop.Licence.{
  licence_send_platform_challenge_response, licence_generate_keys, sec_license_pkt,
}
use rdesktop.Licence.Receive.{
  answer, licence_parse_platform_challenge, licence_process_platform_challenge, licence_process,
  issued,
}
use rdesktop.Licence.Receive.{licence_process_error_alert}
use rdesktop.Stream.Read.{Reads, advance, in_uint8-cons, in_uint32_le-append}
use rdesktop.Common.{◌⊎◌, ◌<◌, ◌^◌}
use rdesktop.Stream.{le_bytes}
use rdesktop.Licence.Challenge.{skip-append}

-- Neither the flags nor the stored licences change.
abbrev pub Keeps : Licence → Licence → Type 0
Keeps l l' = (l'.security ≡ l.security) × (l'.saved ≡ l.saved)

send-Keeps :
    (l0 l : Licence) (n : ℕ) (write : Stream → Result Stream)
    → Keeps l0 l
    → Returns (Keeps l0) (send_packet n write l)
unfolding send_packet
send-Keeps l0 l n write same =
    Returns-then (Keeps l0) (write (sec_init l.security sec_license_pkt (n + 2))) _ (λ s.
      Returns-then (Keeps l0) (sec_send l.security (s_mark_end s) sec_license_pkt l.link) _
        (λ k. same))

request-Keeps :
    (k : Crypto) (c : Client) (s : Stream) (l : Licence)
    → Returns (Keeps l) (licence_process_request k c s l)
unfolding licence_process_request licence_info licence_send_new_licence_request
    licence_generate_keys
request-Keeps k c s l = Returns-then (Keeps l) (in_uint8a s 32) _ (λ x.
    elim (Bool-cases (ltb 0 (length c.stored))) [
      | inl stored ↦ rw stored (send-Keeps l _ _ _ (refl, refl))
      | inr nothing ↦ rw nothing (send-Keeps l _ _ _ (refl, refl))
    ])

answer-Keeps :
    (k : Crypto) (c : Client) (o : Option (List ℕ × List ℕ)) (l : Licence)
    → Returns (Keeps l) (answer k c o l)
unfolding answer licence_send_platform_challenge_response
answer-Keeps k c none l = tt
answer-Keeps k c (some (token, sig)) l = send-Keeps l l _ _ (refl, refl)

challenge-Keeps :
    (k : Crypto) (c : Client) (s : Stream) (l : Licence)
    → Returns (Keeps l) (licence_process_platform_challenge k c s l)
unfolding licence_process_platform_challenge
challenge-Keeps k c s l =
    Returns-then (Keeps l) (licence_parse_platform_challenge s) _ (λ o. answer-Keeps k c o l)

-- A packet of the licence server with a tag other than those of a new licence, of an upgrade and of an
-- alert, if the call returns: the flags of the security layer and the stored licences are as before.
pub licence_process-Keeps :
    (k : Crypto) (c : Client) (l : Licence) {s : Stream} (tag x y z : ℕ) (rest : List ℕ)
    → Reads s (tag ∷ x ∷ y ∷ z ∷ rest)
    → tag ≢ 0x03
    → tag ≢ 0x04
    → tag ≢ 0xff
    → Returns (Keeps l) (licence_process k c s l)
unfolding licence_process
licence_process-Keeps k c l {s} tag x y z rest r n3 n4 nff =
    let (e1, r1) = in_uint8-cons tag r in
    let (e2, r2) = skip-append 3 (x ∷ y ∷ z ∷ []) rest r1 refl in
    let s2 = advance (advance s 1) 3 in
    let f3 : (tag == 0x03) ≡ false = ground arith in
    let f4 : (tag == 0x04) ≡ false = ground arith in
    let fff : (tag == 0xff) ≡ false = ground arith in
    rw (e1, e2, f3, f4, fff)
      (elim (Bool-cases (tag == 0x01)) [
        | inl request ↦ rw request (request-Keeps k c s2 l)
        | inr other ↦ elim (Bool-cases (tag == 0x02)) [
          | inl challenge ↦ rw (other, challenge) (challenge-Keeps k c s2 l)
          | inr unknown ↦ rw (other, unknown) (refl, refl)
        ]
      ])

-- A whole alert: with the code 7 the licence counts as issued, with any other code an error is
-- recorded; nothing else changes.
pub licence_process-alert :
    (k : Crypto) (c : Client) (l : Licence) {s : Stream} (x y z code state : ℕ) (info rest : List ℕ)
    → Reads s (0xff ∷ x ∷ y ∷ z ∷ (le_bytes 4 code ++ (le_bytes 4 state ++ (info ++ rest))))
    → code < 2 ^ 32
    → state < 2 ^ 32
    → length info ≡ 4
    → ((code ≡ 7) × (licence_process k c s l ≡ ok (issued l)))
      ⊎ ((code ≢ 7)
          × (licence_process k c s l
              ≡ ok (record l { security = record l.security { g_licence_error_result = true } })))
unfolding licence_process licence_process_error_alert
licence_process-alert k c l {s} x y z code state info rest r hc hs len =
    let (e1, r1) = in_uint8-cons 0xff r in
    let (e2, r2) = skip-append 3 (x ∷ y ∷ z ∷ []) _ r1 refl in
    let (e3, r3) = in_uint32_le-append code hc r2 in
    let (e4, r4) = in_uint32_le-append state hs r3 in
    let (e5, r5) = skip-append 4 info rest r4 len in
    elim (Bool-cases (code == 7)) [
      | inl valid ↦ inl (ground arith, rw (e1, e2, e3, e4, e5, valid) refl)
      | inr bad ↦ inr ((λ e. absurd (ground arith)), rw (e1, e2, e3, e4, e5, bad) refl)
    ]

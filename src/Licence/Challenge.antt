-- ===== src/Licence/Challenge.antt =====
-- The platform challenge.
use rdesktop.Common.{ℕ, ◌+◌, ◌*◌, ◌≡◌, ◌≢◌, refl, ◌∙◌, arith, List, ◌∷◌, ◌++◌, false, ◌==◌}
use rdesktop.Common.{ok, exit, undefined, length, length-append, drop-append_self}
use mathlib.Core.Path.{subst}
use rdesktop.Stream.{Stream, le_bytes, in_uint8a, in_uint8s}
use rdesktop.Stream.Read.{Reads, advance, in_uint8a-append, in_uint8s-Reads, in_uint16_le-cons}
use rdesktop.Secure.Cipher.{Crypto, sec_sign}
use rdesktop.Licence.{
  Client, Licence, rc4, licence_generate_hwid, licence_send_platform_challenge_response,
}
use rdesktop.Licence.{send_packet, response_packet}
use rdesktop.Licence.Receive.{
  licence_parse_platform_challenge, answer, licence_process_platform_challenge,
}
use rdesktop.Licence.Packets.{response_bytes, response_packet-Puts}
use rdesktop.Licence.Sent.{answered, send_packet_lem}
use rdesktop.Licence.Answers.{IsSized, sign-size, hwid-size}

pub skip-append :
    {s : Stream} (n : ℕ) (bs xs : List ℕ)
    → Reads s (bs ++ xs)
    → length bs ≡ n
    → (in_uint8s s n ≡ ok (advance s n)) × Reads (advance s n) xs
skip-append {s} n bs xs r e =
    let step = in_uint8s-Reads (length bs) r (omega (arith, length-append bs xs)) in
    subst (λ m. (in_uint8s s m ≡ ok (advance s m)) × Reads (advance s m) xs) e
      (step.0, rw drop-append_self at step.1)

pub take-append :
    {s : Stream} (n : ℕ) (bs xs : List ℕ)
    → Reads s (bs ++ xs)
    → length bs ≡ n
    → (in_uint8a s n ≡ ok (bs, advance s n)) × Reads (advance s n) xs
take-append {s} n bs xs r e =
    subst (λ m. (in_uint8a s m ≡ ok (bs, advance s m)) × Reads (advance s m) xs) e
      (in_uint8a-append bs xs r)

-- What the client sends for a token.
abbrev pub response : Crypto → Client → (token : List ℕ) → Licence → List ℕ
response k c token l =
    let hwid = licence_generate_hwid c in
    response_bytes c token (rc4 k l.g_licence_key hwid)
      (sec_sign k 16 l.g_licence_sign_key 16 (rc4 k l.g_licence_key token ++ hwid))

response_lem :
    (c : Client) (l : Licence) (token hwid signature : List ℕ)
    → length token ≡ 10
    → length hwid ≡ 20
    → length signature ≡ 16
    → licence_send_platform_challenge_response c token hwid signature l
      ≡ ok (answered l (response_bytes c token hwid signature))
unfolding licence_send_platform_challenge_response
response_lem c l token hwid signature t h g =
    let bs = response_bytes c token hwid signature in
    let size : length bs ≡ 58 = omega (
      arith,
      t,
      h,
      g,
      length-append token (le_bytes 2 1 ++ (le_bytes 2 20 ++ (hwid ++ signature))),
      length-append hwid signature,
    ) in
    subst (λ n. send_packet n (response_packet c token hwid signature) l ≡ ok (answered l bs)) size
      (send_packet_lem l (response_packet c token hwid signature) bs
        (response_packet-Puts c token hwid signature) (omega (arith, size)))

-- A challenge with a token of 10 bytes and a signature of 16: exactly one packet goes out, with the
-- token as it came, the encrypted id of the machine, and the signature of the decrypted token and
-- the id.
pub challenge-answers :
    (k : Crypto) (c : Client) (l : Licence) {s : Stream} (unknown token signature rest : List ℕ)
    → IsSized k
    → Reads s (unknown ++ (10 ∷ 0 ∷ (token ++ (signature ++ rest))))
    → length unknown ≡ 6
    → length token ≡ 10
    → length signature ≡ 16
    → licence_process_platform_challenge k c s l ≡ ok (answered l (response k c token l))
unfolding licence_process_platform_challenge licence_parse_platform_challenge answer
challenge-answers k c l {s} unknown token signature rest h r u t g =
    let hwid = licence_generate_hwid c in
    let (e1, r1) = skip-append 6 unknown (10 ∷ 0 ∷ (token ++ (signature ++ rest))) r u in
    let (e2, r2) = in_uint16_le-cons 10 0 r1 in
    let (e3, r3) = take-append 10 token (signature ++ rest) r2 t in
    let (e4, r4) = take-append 16 signature rest r3 g in
    rw (e1, e2, e3, e4)
      (response_lem c l token (rc4 k l.g_licence_key hwid)
        (sec_sign k 16 l.g_licence_sign_key 16 (rc4 k l.g_licence_key token ++ hwid)) t
        (h.rc4_size _ hwid ∙ hwid-size c)
        (sign-size k l.g_licence_sign_key (rc4 k l.g_licence_key token ++ hwid) h))

-- A challenge that announces a token of any other length makes the client read from NULL.
pub challenge-null :
    (k : Crypto) (c : Client) (l : Licence) {s : Stream} (unknown : List ℕ) (a b : ℕ)
    (rest : List ℕ)
    → Reads s (unknown ++ (a ∷ b ∷ rest))
    → length unknown ≡ 6
    → a + 256 * b ≢ 10
    → licence_process_platform_challenge k c s l ≡ exit undefined
unfolding licence_process_platform_challenge licence_parse_platform_challenge answer
challenge-null k c l {s} unknown a b rest r u other =
    let (e1, r1) = skip-append 6 unknown (a ∷ b ∷ rest) r u in
    let (e2, r2) = in_uint16_le-cons a b r1 in
    let d : ((a + 256 * b) == 10) ≡ false = ground arith in rw (e1, e2, d) refl

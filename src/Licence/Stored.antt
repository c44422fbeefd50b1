-- ===== src/Licence/Stored.antt =====
-- The licence that the server sends, and that is stored.
use rdesktop.Common.{ℕ, suc, ◌+◌, ◌^◌, ◌<◌, ◌≡◌, refl, ◌∙◌, ap, arith, List, [], ◌∷◌, ◌++◌, true}
use rdesktop.Common.{ok, some, length, length-append, take}
use rdesktop.Common.{◌*◌, le→leb}
use mathlib.Core.List.{append_assoc}
use rdesktop.Stream.{Stream, le_bytes, s_check_rem, poke, s_seek}
use rdesktop.Stream.Read.{Reads, advance, in_uint16_le-cons, in_uint32_le-append, check_rem-Reads}
use rdesktop.Secure.Cipher.{Crypto}
use rdesktop.Secure.Paired.{IsStreamCipher}
use rdesktop.Licence.{Licence, rc4}
use rdesktop.Licence.Receive.{
  decrypt_in_place, skip_strings, issued, read_license, licence_process_new_license,
}
use rdesktop.Stream.Replace.{replaced}
use rdesktop.Licence.Challenge.{skip-append, take-append}

string_step :
    {s : Stream} (rounds : ℕ) (x y zs : List ℕ)
    → Reads s (x ++ (le_bytes 4 (length y) ++ (y ++ zs)))
    → length y < 2 ^ 32
    → (t : Stream) × ((skip_strings (suc rounds) (length x) s ≡ skip_strings rounds (length y) t)
        × Reads t (y ++ zs))
unfolding skip_strings
string_step {s} rounds x y zs r small =
    let (e1, r1) = skip-append (length x) x (le_bytes 4 (length y) ++ (y ++ zs)) r refl in
    let (e2, r2) = in_uint32_le-append (length y) small r1 in
    let enough : s_check_rem (advance (advance s (length x)) 4) (length y) ≡ true =
      check_rem-Reads (length y) r2
      ∙ le→leb (length y) (length (y ++ zs)) (omega (arith, length-append y zs)) in
    (advance (advance s (length x)) 4, (rw (e1, e2, enough) refl, r2))

-- The four strings of a licence, before what follows them.
abbrev pub strings : (scope company product licence tail : List ℕ) → List ℕ
strings scope company product licence tail =
    le_bytes 4 (length scope)
    ++ (scope
        ++ (le_bytes 4 (length company)
            ++ (company
                ++ (le_bytes 4 (length product)
                    ++ (product ++ (le_bytes 4 (length licence) ++ (licence ++ tail)))))))

strings_lem :
    {s : Stream} (scope company product licence tail : List ℕ)
    → Reads s (strings scope company product licence tail)
    → length scope < 2 ^ 32
    → length company < 2 ^ 32
    → length product < 2 ^ 32
    → length licence < 2 ^ 32
    → (t : Stream) × ((skip_strings 4 0 s ≡ ok (some (length licence, t)))
        × Reads t (licence ++ tail))
strings_lem {s} scope company product licence tail r a b c d =
    let (s1, (e1, r1)) = string_step 3 [] scope _ r a in
    let (s2, (e2, r2)) = string_step 2 scope company _ r1 b in
    let (s3, (e3, r3)) = string_step 1 company product _ r2 c in
    let (s4, (e4, r4)) = string_step 0 product licence tail r3 d in
    (s4, (e1 ∙ (e2 ∙ (e3 ∙ (e4 ∙ done s4 (length licence)))), r4))
  where
    done : (t : Stream) (n : ℕ) → skip_strings 0 n t ≡ ok (some (n, t))
    done t n = unfold skip_strings in refl

decrypted :
    (k : Crypto) (key : List ℕ) {s : Stream} (plain rest : List ℕ)
    → IsStreamCipher k
    → Reads s (rc4 k key plain ++ rest)
    → (t : Stream) × (u : Stream) × ((decrypt_in_place k key (length plain) s ≡ ok t)
        × (s_seek t s.p ≡ ok u)
        × Reads u (plain ++ rest))
unfolding decrypt_in_place
decrypted k key {s} plain rest h r =
    let sealed = rc4 k key plain in
    let size : length sealed ≡ length plain = h.size _ plain in
    let back : rc4 k key sealed ≡ plain = ap (λ x. x.1) (h.undo _ plain) in
    let new = replaced (length plain) sealed plain rest r size refl in
    (
      new.next,
      record new.next { p = s.p },
      (
        rw (new.readable, new.writable, new.got) (ap (poke s) back ∙ new.wrote),
        new.back,
        new.reads,
      ),
    )

strings-append :
    (scope company product licence tail rest : List ℕ)
    → strings scope company product licence tail ++ rest
      ≡ strings scope company product licence (tail ++ rest)
strings-append scope company product licence tail rest =
    let in_product =
      append_assoc product (le_bytes 4 (length licence) ++ (licence ++ tail)) rest
      ∙ ap (λ w. product ++ (le_bytes 4 (length licence) ++ w)) (append_assoc licence tail rest) in
    let in_company =
      append_assoc company _ rest
      ∙ ap (λ w. company ++ (le_bytes 4 (length product) ++ w)) in_product in
    ap (λ w. le_bytes 4 (length scope) ++ w)
      (append_assoc scope _ rest ∙ ap (λ w. scope ++ (le_bytes 4 (length company) ++ w)) in_company)

strings-size :
    (scope company product licence tail : List ℕ)
    → length (strings scope company product licence tail)
      ≡ 16 + length scope + length company + length product + length licence + length tail
strings-size scope company product licence tail =
    let last = le_bytes 4 (length licence) ++ (licence ++ tail) in
    let third = le_bytes 4 (length product) ++ (product ++ last) in
    let second = le_bytes 4 (length company) ++ (company ++ third) in
    omega (
      arith,
      length-append scope second,
      length-append company third,
      length-append product last,
      length-append licence tail,
    )

read_lem :
    (k : Crypto) (l : Licence) {s : Stream}
    (version scope company product licence tail rest : List ℕ)
    → IsStreamCipher k
    → let plain = version ++ strings scope company product licence tail in
      Reads s (rc4 k l.g_licence_key plain ++ rest)
      → length version ≡ 4
      → length plain < 2 ^ 16
      → read_license k (length plain) s l
        ≡ ok (record (issued l) { saved = l.saved ++ (licence ∷ []) })
unfolding read_license
read_lem k l {s} version scope company product licence tail rest h r v4 small =
    let plain = version ++ strings scope company product licence tail in
    let sum : length plain
        ≡ 20 + length scope + length company + length product + length licence + length tail =
      omega (
        arith,
        v4,
        length-append version (strings scope company product licence tail),
        strings-size scope company product licence tail,
      ) in
    let (t, u, (e1, e2, ru)) = decrypted k l.g_licence_key plain rest h r in
    let split : plain ++ rest ≡ version ++ strings scope company product licence (tail ++ rest) =
      append_assoc version _ rest
      ∙ ap (λ w. version ++ w) (strings-append scope company product licence tail rest) in
    let (e3, r3) =
      skip-append 4 version (strings scope company product licence (tail ++ rest)) (rw split at ru)
        v4 in
    let (s4, (e4, r4)) =
      strings_lem scope company product licence (tail ++ rest) r3 (omega (arith, sum, small))
        (omega (arith, sum, small)) (omega (arith, sum, small)) (omega (arith, sum, small)) in
    let (e5, r5) = take-append (length licence) licence (tail ++ rest) r4 refl in
    rw (e1, e2, e3, e4, e5) refl

-- A licence that the server sends: a version and the four strings, encrypted with the key of the
-- session, each shorter than 2^32 bytes and all of them than 2^16. The client stores exactly the last
-- string, and the licence counts as issued from then on.
pub new_license-stores :
    (k : Crypto) (l : Licence) {s : Stream} (x y : ℕ)
    (version scope company product licence tail rest : List ℕ)
    → IsStreamCipher k
    → let plain = version ++ strings scope company product licence tail in
      (a b : ℕ)
      → Reads s (x ∷ y ∷ a ∷ b ∷ (rc4 k l.g_licence_key plain ++ rest))
      → a + 256 * b ≡ length plain
      → length version ≡ 4
      → length plain < 2 ^ 16
      → licence_process_new_license k s l
        ≡ ok (record (issued l) { saved = l.saved ++ (licence ∷ []) })
unfolding licence_process_new_license
new_license-stores k l {s} x y version scope company product licence tail rest h a b r len v4
      small =
    let plain = version ++ strings scope company product licence tail in
    let sealed = rc4 k l.g_licence_key plain in
    let (e1, r1) = skip-append 2 (x ∷ y ∷ []) (a ∷ b ∷ (sealed ++ rest)) r refl in
    let (e2, r2) = in_uint16_le-cons a b r1 in
    let s2 = advance (advance s 2) 2 in
    let enough : s_check_rem s2 (length plain) ≡ true =
      check_rem-Reads (length plain) r2
      ∙ le→leb (length plain) (length (sealed ++ rest)) (
          let n = h.size (k.rdssl_rc4_set_key (take 16 l.g_licence_key)) plain in
          omega (arith, n, length-append sealed rest)) in
    rw (e1, e2, len, enough)
      (read_lem k l version scope company product licence tail rest h r2 v4 small)

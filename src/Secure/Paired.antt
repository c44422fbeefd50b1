-- ===== src/Secure/Paired.antt =====
-- Two ends of a session with encryption, one of which encrypts what the other one decrypts.
use rdesktop.Common.{ℕ, ◌+◌, ◌<◌, ◌≡◌, refl, sym, ◌∙◌, ap, arith, true, false, List, [], ◌∷◌}
use rdesktop.Common.{◌==◌, length, All, Bool-cases, inl, inr}
use mathlib.Core.Path.{subst}
use rdesktop.Secure.Cipher.{
  Crypto, Keys, sec_encrypt, sec_decrypt, update_encrypt, update_decrypt, sec_update,
}
use rdesktop.Secure.Cipher.{encrypt_bytes, decrypt_bytes, ready_encrypt, ready_decrypt}

-- RC4 adds a key stream, as long as the data: the same key state takes it off again, and is then the
-- same as after the encryption.
pub record IsStreamCipher (k : Crypto) : Type 0 where
  pub undo :
      (key : k.Rc4) (bytes : List ℕ)
      → k.rdssl_rc4_crypt key (k.rdssl_rc4_crypt key bytes).1
        ≡ ((k.rdssl_rc4_crypt key bytes).0, bytes)
  pub size : (key : k.Rc4) (bytes : List ℕ) → length (k.rdssl_rc4_crypt key bytes).1 ≡ length bytes

module _ (k : Crypto) where
  -- What `a` encrypts with is what `b` decrypts with.
  pub record IsPaired (a b : Keys k) : Type 0 where
    pub len : a.g_rc4_key_len ≡ b.g_rc4_key_len
    pub state : a.g_rc4_encrypt_key ≡ b.g_rc4_decrypt_key
    pub key : a.g_sec_encrypt_key ≡ b.g_sec_decrypt_key
    pub update : a.g_sec_encrypt_update_key ≡ b.g_sec_decrypt_update_key
    pub count : a.g_sec_encrypt_use_count ≡ b.g_sec_decrypt_use_count

  update-IsPaired :
      (a b : Keys k) → IsPaired a b → IsPaired (update_encrypt k a) (update_decrypt k b)
  unfolding update_encrypt update_decrypt
  update-IsPaired a b p =
      let e : sec_update k a.g_rc4_key_len a.g_sec_encrypt_key a.g_sec_encrypt_update_key
          ≡ sec_update k b.g_rc4_key_len b.g_sec_decrypt_key b.g_sec_decrypt_update_key =
        let l = p.len in let y = p.key in let u = p.update in cc in
      record { len = p.len; state = let l = p.len in cc; key = e; update = p.update; count = refl }

  crypt-IsPaired :
      (a b : Keys k) (bytes : List ℕ)
      → IsStreamCipher k
      → IsPaired a b
      → IsPaired (encrypt_bytes k bytes a).0 (decrypt_bytes k (encrypt_bytes k bytes a).1 b).0
        × ((decrypt_bytes k (encrypt_bytes k bytes a).1 b).1 ≡ bytes)
        × (length (encrypt_bytes k bytes a).1 ≡ length bytes)
  crypt-IsPaired a b bytes h p =
      let e : k.rdssl_rc4_crypt b.g_rc4_decrypt_key (k.rdssl_rc4_crypt a.g_rc4_encrypt_key bytes).1
          ≡ ((k.rdssl_rc4_crypt a.g_rc4_encrypt_key bytes).0, bytes) =
        subst
          (λ s.
            k.rdssl_rc4_crypt s (k.rdssl_rc4_crypt a.g_rc4_encrypt_key bytes).1
            ≡ ((k.rdssl_rc4_crypt a.g_rc4_encrypt_key bytes).0, bytes))
          p.state (h.undo a.g_rc4_encrypt_key bytes) in
      (
        record {
          len = p.len;
          state = sym (ap (λ x. x.0) e);
          key = p.key;
          update = p.update;
          count = ap (λ n. n + 1) p.count;
        },
        ap (λ x. x.1) e,
        h.size a.g_rc4_encrypt_key bytes,
      )

  ready-IsPaired : (a b : Keys k) → IsPaired a b → IsPaired (ready_encrypt k a) (ready_decrypt k b)
  ready-IsPaired a b p = elim (Bool-cases (a.g_sec_encrypt_use_count == 4096)) [
    | inl old ↦
        let same : (b.g_sec_decrypt_use_count == 4096) ≡ true =
          ap (λ n. n == 4096) (sym p.count) ∙ old in
        rw (old, same) (update-IsPaired a b p)
    | inr new ↦
        let same : (b.g_sec_decrypt_use_count == 4096) ≡ false =
          ap (λ n. n == 4096) (sym p.count) ∙ new in
        rw (new, same) p
  ]

  decrypt_some :
      (bytes : List ℕ) (b : Keys k)
      → 0 < length bytes
      → sec_decrypt k bytes b ≡ decrypt_bytes k bytes (ready_decrypt k b)
  unfolding sec_decrypt
  decrypt_some bytes b some_ = let e : (length bytes == 0) ≡ false = ground arith in rw e refl

  pub step-IsPaired :
      (a b : Keys k) (bytes : List ℕ)
      → IsStreamCipher k
      → IsPaired a b
      → 0 < length bytes
      → IsPaired (sec_encrypt k bytes a).0 (sec_decrypt k (sec_encrypt k bytes a).1 b).0
        × ((sec_decrypt k (sec_encrypt k bytes a).1 b).1 ≡ bytes)
  unfolding sec_encrypt
  step-IsPaired a b bytes h p some_ =
      let c = (encrypt_bytes k bytes (ready_encrypt k a)).1 in
      let done =
        crypt-IsPaired (ready_encrypt k a) (ready_decrypt k b) bytes h (ready-IsPaired a b p) in
      subst (λ r. IsPaired (encrypt_bytes k bytes (ready_encrypt k a)).0 r.0 × (r.1 ≡ bytes))
        (sym (decrypt_some c b (subst (λ n. 0 < n) (sym done.2) some_))) (done.0, done.1)

  pub encrypt-size :
      (a : Keys k) (bytes : List ℕ)
      → IsStreamCipher k
      → length (sec_encrypt k bytes a).1 ≡ length bytes
  unfolding sec_encrypt
  encrypt-size a bytes h = h.size (ready_encrypt k a).g_rc4_encrypt_key bytes

  -- The packets one after the other.
  unfoldable pub encrypt_all : List (List ℕ) → Keys k → Keys k × List (List ℕ)
  encrypt_all [] a = (a, [])
  encrypt_all (p ∷ ps) a =
      let (a1, c) = sec_encrypt k p a in let (a2, cs) = encrypt_all ps a1 in (a2, c ∷ cs)

  unfoldable pub decrypt_all : List (List ℕ) → Keys k → Keys k × List (List ℕ)
  decrypt_all [] b = (b, [])
  decrypt_all (c ∷ cs) b =
      let (b1, p) = sec_decrypt k c b in let (b2, ps) = decrypt_all cs b1 in (b2, p ∷ ps)

  -- RC4 as it is documented; two ends of which one encrypts with what the other one decrypts with;
  -- packets of which none is empty. What the one encrypts, packet by packet and over all changes of
  -- the keys, the other one decrypts to the same packets, and the two ends are a pair again.
  pub decrypt_all-encrypt_all :
      (a b : Keys k) (ps : List (List ℕ))
      → IsStreamCipher k
      → IsPaired a b
      → All (λ p. 0 < length p) ps
      → IsPaired (encrypt_all ps a).0 (decrypt_all (encrypt_all ps a).1 b).0
        × ((decrypt_all (encrypt_all ps a).1 b).1 ≡ ps)
  unfolding encrypt_all decrypt_all
  decrypt_all-encrypt_all a b [] h p full = (p, refl)
  decrypt_all-encrypt_all a b (x ∷ ps) h p (first, full) =
      let (p1, e1) = step-IsPaired a b x h p first in
      let (p2, e2) =
        decrypt_all-encrypt_all (sec_encrypt k x a).0 (sec_decrypt k (sec_encrypt k x a).1 b).0 ps h
          p1 full in
      (
        p2,
        ap
              (λ y.
                y
                ∷ (decrypt_all (encrypt_all ps (sec_encrypt k x a).0).1
                    (sec_decrypt k (sec_encrypt k x a).1 b).0).1)
              e1
            ∙ ap (λ t. x ∷ t) e2,
      )

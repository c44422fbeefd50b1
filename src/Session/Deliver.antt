-- ===== src/Session/Deliver.antt =====
-- Which packets reach the caller of `sec_recv`, and what is read of them.
use rdesktop.Common.{
  ℕ, ◌+◌, ◌*◌, ◌<◌, ◌≡◌, refl, sym, ◌∙◌, ap, arith, Bool, true, false, List, [], ◌∷◌, ◌++◌,
}
use rdesktop.Common.{
  some, none, ok, length, has_bit, if◌then◌else◌, ◌||◌, ◌==◌, Result, ◌>>=◌, Returns, Returns-then,
  Returns-map, Returns-at, ◌⊎◌, inl, inr, Bool-cases,
}
use mathlib.Core.Path.{subst}
use mathlib.Core.List.{append-nil}
use rdesktop.Stream.{Stream, s_remaining, in_uint8s, in_uint16_le, s_seek}
use rdesktop.Stream.Read.{Reads, in_uint16_le-cons, length-Reads}
use rdesktop.Stream.Replace.{replaced}
use rdesktop.Iso.{Received, nothing, blocked, message}
use rdesktop.Mcs.{Indication, mcs_global_channel}
use rdesktop.Channels.{Numbers, channel_process}
use rdesktop.Secure.{sec_encrypt_flag, unlicensed}
use rdesktop.Secure.Cipher.{Crypto, Keys, sec_encrypt, sec_decrypt}
use rdesktop.Secure.Paired.{IsStreamCipher, IsPaired, step-IsPaired, encrypt-size}
use rdesktop.Licence.{Client, sec_license_pkt}
use rdesktop.Licence.Challenge.{skip-append}
use rdesktop.Session.{
  Session, decrypt_rest, unseal, fastpath, encrypted, unencrypted, open_header, to_channel,
  sec_packet, SecRecv, with_link,
}
use rdesktop.Session.{closed, waits, delivers, continues, sec_heartbeat, sec_redirection_pkt, Rest}

module _ (k : Crypto) where
  rest_lem :
      {s : Stream} (x : Session k) (sealed out : List ℕ) (keys : Keys k)
      → Reads s sealed
      → sec_decrypt k sealed x.keys ≡ (keys, out)
      → length out ≡ length sealed
      → (t : Stream) × ((decrypt_rest k s x ≡ ok (t, record x { keys = keys }))
          × (s_seek t s.p ≡ ok (record t { p = s.p }))
          × Reads (record t { p = s.p }) out)
  unfolding decrypt_rest
  rest_lem {s} x sealed out keys r e size =
      let n = s_remaining s in
      let all : length sealed ≡ n =
        omega (arith, length-Reads r, r.inside, r.valid.wide, r.valid.mark) in
      let new = replaced {s = s} n sealed out [] (rw append-nil r) all (size ∙ all) in
      (
        new.next,
        (
          rw (new.readable, new.writable, new.got, e, new.wrote) refl,
          new.back,
          rw append-nil at new.reads,
        ),
      )

  unseal_lem :
      {s : Stream} (x : Session k) (signature sealed out : List ℕ) (keys : Keys k)
      → Reads s (signature ++ sealed)
      → length signature ≡ 8
      → sec_decrypt k sealed x.keys ≡ (keys, out)
      → length out ≡ length sealed
      → (o : ℕ) × (t : Stream) × ((unseal k s x ≡ ok (o, t, record x { keys = keys }))
          × (s_seek t o ≡ ok (record t { p = o }))
          × Reads (record t { p = o }) out)
  unfolding unseal
  unseal_lem {s} x signature sealed out keys r eight e size =
      let (e1, r1) = skip-append 8 signature sealed r eight in
      let (t, (e2, e3, r2)) = rest_lem x sealed out keys r1 e size in
      (s.p + 8, t, (rw (e1, e2) refl, e3, r2))

  -- Behind the header, the packet of a peer is decrypted.
  encrypted_lem :
      {s : Stream} (c : Client) (sec_flags : ℕ) (x : Session k) (peer : Keys k)
      (signature text : List ℕ)
      → IsStreamCipher k
      → IsPaired k peer x.keys
      → 0 < length text
      → has_bit sec_flags sec_encrypt_flag ≡ true
      → has_bit sec_flags sec_license_pkt ≡ false
      → has_bit sec_flags sec_heartbeat ≡ false
      → has_bit sec_flags sec_redirection_pkt ≡ false
      → Reads s (signature ++ (sec_encrypt k text peer).1)
      → length signature ≡ 8
      → (u : Stream) × ((encrypted k c sec_flags s x
            ≡ ok (some u, record x { keys = (sec_decrypt k (sec_encrypt k text peer).1 x.keys).0 }))
          × Reads u text)
  unfolding encrypted
  encrypted_lem {s} c sec_flags x peer signature text h p some_ f1 f2 f3 f4 r eight =
      let sealed = (sec_encrypt k text peer).1 in
      let clear : (sec_decrypt k sealed x.keys).1 ≡ text =
        (step-IsPaired k peer x.keys text h p some_).1 in
      let (o, t, (e1, e2, r2)) =
        unseal_lem x signature sealed (sec_decrypt k sealed x.keys).1
          (sec_decrypt k sealed x.keys).0 r eight refl
          (ap length clear ∙ sym (encrypt-size k peer text h)) in
      (
        record t { p = o },
        (rw (f1, e1, f2, f3, f4, e2) refl, subst (Reads (record t { p = o })) clear r2),
      )

  header_lem :
      (c : Client) (s : Stream) (flags : ℕ) (s1 s2 : Stream) (x : Session k) (r : Rest k)
      → x.licence.security.g_encryption ≡ true
      → in_uint16_le s ≡ ok (flags, s1)
      → in_uint8s s1 2 ≡ ok s2
      → encrypted k c flags s2 x ≡ ok r
      → open_header k c s x ≡ ok r
  unfolding open_header
  header_lem c s flags s1 s2 x r on e1 e2 e3 =
      rw (e1, e2)
        (subst
          (λ g. (if g then encrypted k c flags s2 x else unencrypted k c flags s.p s2 x) ≡ ok r)
          (sym on) e3)

  pub global_lem :
      (n : Numbers) (channel : ℕ) (u : Stream) (x : Session k)
      → channel ≡ mcs_global_channel
      → to_channel k n channel (some u, x) ≡ ok (some u, x)
  unfolding to_channel
  global_lem n channel u x e = rw e refl

  packet_lem :
      (c : Client) (n : Numbers) (i : Indication) (x x' : Session k) (u : Stream)
      → x.licence.security.g_encryption ≡ true
      → i.is_fastpath ≡ false
      → i.channel ≡ mcs_global_channel
      → open_header k c i.stream x ≡ ok (some u, x')
      → sec_packet k c n i x ≡ ok (some u, x')
  unfolding sec_packet
  packet_lem c n i x x' u on slow global e =
      let after : Bool → Result (Rest k) = λ g.
        (if g || unlicensed x.licence.security
          then open_header k c i.stream x
          else ok (some i.stream, x))
        >>= (λ rest. to_channel k n i.channel rest) in
      rw slow (
        subst (λ g. after g ≡ ok (some u, x')) (sym on)
          (ap (λ m. m >>= (λ rest. to_channel k n i.channel rest)) e
            ∙ global_lem n i.channel u x' global))

  -- RC4 as it is documented, a session with encryption, and a packet for the global channel whose
  -- security header has the flag for encryption and none of those for licences, heartbeats and
  -- redirections. What a peer, which encrypts with what the session decrypts with, made of a text
  -- that is not empty, is delivered as a stream that reads as the text; session and peer are a pair
  -- again, and nothing else of the session changes.
  pub sec_packet-decrypts :
      (c : Client) (n : Numbers) (i : Indication) (x : Session k) (peer : Keys k) (a b y z : ℕ)
      (signature text : List ℕ)
      → IsStreamCipher k
      → IsPaired k peer x.keys
      → x.licence.security.g_encryption ≡ true
      → i.is_fastpath ≡ false
      → i.channel ≡ mcs_global_channel
      → has_bit (a + 256 * b) sec_encrypt_flag ≡ true
      → has_bit (a + 256 * b) sec_license_pkt ≡ false
      → has_bit (a + 256 * b) sec_heartbeat ≡ false
      → has_bit (a + 256 * b) sec_redirection_pkt ≡ false
      → Reads i.stream (a ∷ b ∷ y ∷ z ∷ (signature ++ (sec_encrypt k text peer).1))
      → length signature ≡ 8
      → 0 < length text
      → let keys = (sec_decrypt k (sec_encrypt k text peer).1 x.keys).0 in
        (u : Stream) × ((sec_packet k c n i x ≡ ok (some u, record x { keys = keys }))
          × Reads u text
          × IsPaired k (sec_encrypt k text peer).0 keys)
  sec_packet-decrypts c n i x peer a b y z signature text h p on slow global f1 f2 f3 f4 r eight
        some_ =
      let (e1, r1) = in_uint16_le-cons a b r in
      let (e2, r2) =
        skip-append 2 (y ∷ z ∷ []) (signature ++ (sec_encrypt k text peer).1) r1 refl in
      let (u, (e3, ru)) =
        encrypted_lem c (a + 256 * b) x peer signature text h p some_ f1 f2 f3 f4 r2 eight in
      (
        u,
        (
          packet_lem c n i x _ u on slow global (header_lem c i.stream _ _ _ x _ on e1 e2 e3),
          ru,
          (step-IsPaired k peer x.keys text h p some_).0,
        ),
      )

  -- A packet of the fast path or for the global channel.
  abbrev pub IsForCaller : Indication → Type 0
  IsForCaller i = (i.is_fastpath ≡ true) ⊎ (i.channel ≡ mcs_global_channel)

  channel_only :
      (n : Numbers) (channel : ℕ) (r : Rest k)
      → Returns (λ r'. (channel ≡ mcs_global_channel) ⊎ (r'.0 ≡ none)) (to_channel k n channel r)
  unfolding to_channel
  channel_only n channel (none, x) = inr refl
  channel_only n channel (some s, x) = elim (Bool-cases (channel == mcs_global_channel)) [
    | inl global ↦ rw global (inl (ground arith))
    | inr other ↦ rw other (
        Returns-then (λ r'. (channel ≡ mcs_global_channel) ⊎ (r'.0 ≡ none))
          (channel_process n s channel x.channels) _ (λ y. inr refl))
  ]

  packet_only :
      (c : Client) (n : Numbers) (i : Indication) (x : Session k)
      → Returns (λ r. IsForCaller i ⊎ (r.0 ≡ none)) (sec_packet k c n i x)
  unfolding sec_packet
  packet_only c n i x = elim (Bool-cases i.is_fastpath) [
    | inl fast ↦
        subst (λ b. Returns P (if b then fast_part else slow_part)) (sym fast)
          (Returns-then P (fastpath k i.fastpath_hdr i.stream x) _ (λ y. inl (inl fast)))
    | inr slow ↦
        subst (λ b. Returns P (if b then fast_part else slow_part)) (sym slow)
          (Returns-then P opened _ (λ r.
            Returns-map (λ r'. (i.channel ≡ mcs_global_channel) ⊎ (r'.0 ≡ none)) P
              (to_channel k n i.channel r) (channel_only n i.channel r)
              (λ y h. elim h [ inl g ↦ inl (inr g) | inr e ↦ inr e ])))
  ]
    where
      P : Rest k → Type 0
      P r = IsForCaller i ⊎ (r.0 ≡ none)

      opened : Result (Rest k)
      opened =
          if x.licence.security.g_encryption || unlicensed x.licence.security
          then open_header k c i.stream x
          else ok (some i.stream, x)

      fast_part : Result (Rest k)
      fast_part = fastpath k i.fastpath_hdr i.stream x >>= (λ y. ok (some y.0, y.1))

      slow_part : Result (Rest k)
      slow_part = opened >>= (λ r. to_channel k n i.channel r)

  -- What a call of `sec_recv` returns, if it returns a packet.
  abbrev pub Returned : Received (Indication × Stream) → Type 0
  Returned nothing = Unit
  Returned blocked = Unit
  Returned (message (i, s)) = IsForCaller i

  -- However many packets a call of `sec_recv` takes, it returns none but those of the fast path and
  -- those for the global channel: packets for other channels go to the callbacks of these only.
  pub sec_recv-IsForCaller :
      (c : Client) (n : Numbers) (x x' : Session k) (r : Received (Indication × Stream))
      → SecRecv k c n x r x'
      → Returned r
  sec_recv-IsForCaller c n x x' r (closed _ channel0 link e) = tt
  sec_recv-IsForCaller c n x x' r (waits _ channel0 link e) = tt
  sec_recv-IsForCaller c n x x' r (delivers _ _ channel0 link i s e step) =
      elim (Returns-at (λ r'. IsForCaller i ⊎ (r'.0 ≡ none))
        (sec_packet k c n i (with_link k link x)) step (packet_only c n i (with_link k link x))) [
          | inl for_caller ↦ for_caller
          | inr no_stream ↦ absurd (cc)
        ]
  sec_recv-IsForCaller c n x x' r (continues _ x1 _ channel0 link i _ e step more) =
      sec_recv-IsForCaller c n x1 x' r more

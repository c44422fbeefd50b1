-- ===== src/Channels/Finish.antt =====
-- The calls below `channel_send`, and whether they can go on for ever.
use rdesktop.Common.{ℕ, ◌+◌, List, Bool, ◌||◌}
use rdesktop.Common.{ok, exit, guard, undefined, some, none, Option, protocol_error}
use rdesktop.Common.{Finishes, Finishes-bind, Finishes-if, if◌then◌else◌, leb, ltb, has_bit, length}
use rdesktop.Common.{true, false, u16}
use rdesktop.Stream.{
  Stream, Layer, mcs_hdr, iso_hdr, sec_hdr, s_pop_layer, out_uint8, out_uint32_le,
}
use rdesktop.Stream.{
  out_uint8a, out_uint16_be, out_uint8stream, in_uint8s, poke, peek, s_left, s_remaining,
}
use rdesktop.Stream.{s_check_rem, le_bytes, be16, s_assert_r, s_assert_w}
use rdesktop.Iso.{iso_send}
use rdesktop.Mcs.{Link, mcs_data_packet, mcs_send_to_channel}
use rdesktop.Secure.{Security, sec_send_to_channel, sign_and_encrypt, unlicensed, sec_encrypt_flag}

pub s_pop_layer-Finishes : (h : Layer) (s : Stream) → Finishes (s_pop_layer h s)
unfolding s_pop_layer
s_pop_layer-Finishes h s = popped (s.hdr h)
  where
    popped :
        (o : Option ℕ)
        → Finishes (elim o [ none ↦ exit undefined | some o ↦ ok (record s { p = o }) ])
    popped none = tt
    popped (some o) = tt

guard-Finishes :
    (test : Bool) → Finishes (guard test protocol_error) × Finishes (guard test undefined)
guard-Finishes true = (tt, tt)
guard-Finishes false = (tt, tt)

poke-Finishes : (s : Stream) (bs : List ℕ) → Finishes (poke s bs)
unfolding poke
poke-Finishes s bs = Finishes-if (leb (s.p + length bs) (length s.buf)) _ _ tt tt

peek-Finishes : (s : Stream) (n : ℕ) → Finishes (peek s n)
unfolding peek
peek-Finishes s n = Finishes-if (leb (s.p + n) (length s.buf)) _ _ tt tt

assert_w-Finishes : (s : Stream) (n : ℕ) → Finishes (s_assert_w s n)
assert_w-Finishes s n = Finishes-if (ltb (s_left s) n) _ _ tt tt

out_uint8a-Finishes : (s : Stream) (bs : List ℕ) → Finishes (out_uint8a s bs)
unfolding out_uint8a
out_uint8a-Finishes s bs =
    Finishes-bind (s_assert_w s (length bs)) _ (assert_w-Finishes s (length bs))
      (λ done. poke-Finishes s bs)

pub out_uint32_le-Finishes : (s : Stream) (v : ℕ) → Finishes (out_uint32_le s v)
unfolding out_uint32_le
out_uint32_le-Finishes s v = out_uint8a-Finishes s (le_bytes 4 v)

pub in_uint8s-Finishes : (s : Stream) (n : ℕ) → Finishes (in_uint8s s n)
unfolding in_uint8s
in_uint8s-Finishes s n =
    Finishes-bind (s_assert_r s n) _ (guard-Finishes (s_check_rem s n)).0 (λ done. tt)

pub out_uint8stream-Finishes : (s v : Stream) (n : ℕ) → Finishes (out_uint8stream s v n)
unfolding out_uint8stream
out_uint8stream-Finishes s v n =
    Finishes-bind (s_assert_r v n) _ (guard-Finishes (s_check_rem v n)).0 (λ done.
      Finishes-bind (peek v n) _ (peek-Finishes v n)
        (λ r. Finishes-bind (out_uint8a s r.0) _ (out_uint8a-Finishes s r.0) (λ s'. tt)))

out_uint8-Finishes : (s : Stream) (v : ℕ) → Finishes (out_uint8 s v)
unfolding out_uint8
out_uint8-Finishes s v = out_uint8a-Finishes s (le_bytes 1 v)

out_uint16_be-Finishes : (s : Stream) (v : ℕ) → Finishes (out_uint16_be s v)
unfolding out_uint16_be
out_uint16_be-Finishes s v = out_uint8a-Finishes s (be16 v)

iso_send-Finishes : (s : Stream) → Finishes (iso_send s)
unfolding iso_send
iso_send-Finishes s = Finishes-bind (s_pop_layer iso_hdr s) _ (s_pop_layer-Finishes iso_hdr s) (λ s.
    Finishes-bind (out_uint8 s 3) _ (out_uint8-Finishes s 3) (λ s1.
      Finishes-bind (out_uint8 s1 0) _ (out_uint8-Finishes s1 0) (λ s2.
        Finishes-bind (out_uint16_be s2 (u16 (s_remaining s))) _
          (out_uint16_be-Finishes s2 (u16 (s_remaining s)))
          (λ s3. Finishes-bind (out_uint8 s3 2) _ (out_uint8-Finishes s3 2) (λ s4.
            Finishes-bind (out_uint8 s4 0xf0) _ (out_uint8-Finishes s4 0xf0)
              (λ s5. out_uint8-Finishes s5 0x80))))))

mcs_data_packet-Finishes :
    (user channel : ℕ) (s : Stream) → Finishes (mcs_data_packet user channel s)
unfolding mcs_data_packet
mcs_data_packet-Finishes user channel s =
    Finishes-bind (s_pop_layer mcs_hdr s) _ (s_pop_layer-Finishes mcs_hdr s) (λ s.
      Finishes-bind (out_uint8 s 100) _ (out_uint8-Finishes s 100) (λ s1.
        Finishes-bind (out_uint16_be s1 user) _ (out_uint16_be-Finishes s1 user) (λ s2.
          Finishes-bind (out_uint16_be s2 channel) _ (out_uint16_be-Finishes s2 channel) (λ s3.
            Finishes-bind (out_uint8 s3 0x70) _ (out_uint8-Finishes s3 0x70)
              (λ s4. out_uint16_be-Finishes s4 _)))))

mcs_send_to_channel-Finishes :
    (channel : ℕ) (s : Stream) (k : Link) → Finishes (mcs_send_to_channel channel s k)
unfolding mcs_send_to_channel
mcs_send_to_channel-Finishes channel s k =
    Finishes-bind (mcs_data_packet k.g_mcs_userid channel s) _
      (mcs_data_packet-Finishes k.g_mcs_userid channel s)
      (λ t. Finishes-bind (iso_send t) _ (iso_send-Finishes t) (λ u. tt))

sign_and_encrypt-Finishes : (c : Security) (s : Stream) → Finishes (sign_and_encrypt c s)
unfolding sign_and_encrypt
sign_and_encrypt-Finishes c s =
    let n = s_remaining s in
    Finishes-bind (s_assert_r s n) _ (guard-Finishes (s_check_rem s n)).0 (λ a.
      Finishes-bind (s_assert_w s n) _ (assert_w-Finishes s n) (λ b.
        Finishes-bind (guard (leb 8 n) undefined) _ (guard-Finishes (leb 8 n)).1
          (λ d. Finishes-bind (peek s n) _ (peek-Finishes s n) (λ r. poke-Finishes s _))))

pub sec_send_to_channel-Finishes :
    (c : Security) (s : Stream) (flags channel : ℕ) (k : Link)
    → Finishes (sec_send_to_channel c s flags channel k)
unfolding sec_send_to_channel
sec_send_to_channel-Finishes c s flags channel k =
    Finishes-bind (s_pop_layer sec_hdr s) _ (s_pop_layer-Finishes sec_hdr s) (λ s1.
      Finishes-bind
        (if unlicensed c || has_bit flags sec_encrypt_flag then out_uint32_le s1 flags else ok s1) _
        (Finishes-if (unlicensed c || has_bit flags sec_encrypt_flag) _ _
          (out_uint32_le-Finishes s1 flags) tt)
        (λ s2.
          Finishes-bind (if has_bit flags sec_encrypt_flag then sign_and_encrypt c s2 else ok s2) _
            (Finishes-if (has_bit flags sec_encrypt_flag) _ _ (sign_and_encrypt-Finishes c s2) tt)
            (λ s3. mcs_send_to_channel-Finishes channel s3 k)))

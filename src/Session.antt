-- ===== src/Session.antt =====
-- secure.c: sec_recv, which takes the security header off the packets of mcs.c, decrypts them, and
-- hands them to licence.c, to channels.c or to its caller.
pub mod Deliver
mod Tests
use rdesktop.Common.{
  ℕ, zero, suc, ◌+◌, ◌/◌, Bool, true, false, not, if◌then◌else◌, ◌&&◌, ◌||◌, ◌==◌, List, [], ◌∷◌,
  ◌++◌,
}
use rdesktop.Common.{
  Option, none, some, length, take, drop, has_bit, leb, Result, ok, exit, undefined, forever, ◌>>=◌,
  ◌>>◌, ◌≡◌,
}
use rdesktop.Stream.{
  Stream, in_uint8, in_uint8s, in_uint16_le, s_remaining, s_assert_r, s_assert_w, s_seek, peek,
  poke,
}
use rdesktop.Iso.{Received, nothing, blocked, message}
use rdesktop.Mcs.{Link, Indication, mcs_recv, mcs_global_channel}
use rdesktop.Channels.{Numbers, Table, Call, channel_process}
use rdesktop.Secure.{Security, unlicensed, sec_encrypt_flag}
use rdesktop.Secure.Cipher.{Crypto, Keys, sec_decrypt}
use rdesktop.Licence.{Client, Licence, sec_license_pkt}
use rdesktop.Licence.Receive.{licence_process}

abbrev pub sec_heartbeat : ℕ
sec_heartbeat = 0x4000

abbrev pub sec_redirection_pkt : ℕ
sec_redirection_pkt = 0x0400

-- The keys, the licence with the flags of the layer and the connection, the static channels, the calls
-- of their callbacks so far, and the arguments of the calls of `rdp_process_heartbeat`.
pub record Session (k : Crypto) : Type 0 where
  pub keys : Keys k
  pub licence : Licence
  pub channels : Table
  pub calls : List Call
  pub heartbeats : List (ℕ × ℕ × ℕ)

module _ (k : Crypto) where
  -- `inout_uint8p` and `sec_decrypt` on all that remains; the pointer ends behind it.
  unfoldable pub decrypt_rest : Stream → Session k → Result (Stream × Session k)
  decrypt_rest s x = do
    s_assert_r s (s_remaining s)
    s_assert_w s (s_remaining s)
    (bytes, s1) ← peek s (s_remaining s)
    let (keys, out) = sec_decrypt k bytes x.keys
    s2 ← poke s out
    ok (s2, record x { keys = keys })

  -- Behind the signature: where the data starts, and the stream after its decryption.
  unfoldable pub unseal : Stream → Session k → Result (ℕ × Stream × Session k)
  unseal s x = do s1 ← in_uint8s s 8; (s2, x1) ← decrypt_rest s1 x; ok (s1.p, s2, x1)

  -- A packet of the fast path.
  unfoldable pub fastpath : ℕ → Stream → Session k → Result (Stream × Session k)
  fastpath fastpath_hdr s x =
      if has_bit fastpath_hdr 0x80
      then (do (data_offset, s1, x1) ← unseal s x; s2 ← s_seek s1 data_offset; ok (s2, x1))
      else ok (s, x)

  unfoldable pub heartbeat : Stream → Session k → Result (Session k)
  heartbeat s x = do
    s_assert_r s 4
    s1 ← in_uint8s s 1
    (period, s2) ← in_uint8 s1
    (count1, s3) ← in_uint8 s2
    (count2, s4) ← in_uint8 s3
    ok (record x { heartbeats = x.heartbeats ++ ((period, count1, count2) ∷ []) })

  unfoldable pub to_licence : Client → Stream → Session k → Result (Session k)
  to_licence c s x = do l ← licence_process k c s x.licence; ok (record x { licence = l })

  -- The bytes of a redirection are put right. `data[0]` to `data[3]` are read unchecked.
  abbrev pub swapped : List ℕ → Result (List ℕ)
  swapped [] = exit undefined
  swapped (zero ∷ []) = exit undefined
  swapped (zero ∷ b ∷ []) = if b == 4 then exit undefined else ok (zero ∷ b ∷ [])
  swapped (zero ∷ b ∷ x ∷ []) = if b == 4 then exit undefined else ok (zero ∷ b ∷ x ∷ [])
  swapped (zero ∷ b ∷ x ∷ y ∷ rest) =
      ok (if b == 4 then x ∷ y ∷ 4 ∷ 0 ∷ rest else zero ∷ b ∷ x ∷ y ∷ rest)
  swapped (suc a ∷ rest) = ok (suc a ∷ rest)

  -- The bytes of the buffer from `data_offset` on.
  unfoldable pub swap_bytes : (data_offset : ℕ) → Stream → Result Stream
  swap_bytes data_offset s = do
    bytes ← swapped (drop data_offset s.buf)
    ok (record s { buf = take data_offset s.buf ++ bytes })

  unfoldable pub redirection : Stream → Session k → Result (ℕ × Stream × Session k)
  redirection s x = do
    (data_offset, s1, x1) ← unseal s x
    s2 ← swap_bytes data_offset s1
    ok (data_offset, s2, x1)

  -- What is left of a packet: its stream, or none where `continue` was reached.
  abbrev pub Rest : Type 0
  Rest = Option Stream × Session k

  -- Behind the header with `g_encryption`.
  unfoldable pub encrypted : Client → (sec_flags : ℕ) → Stream → Session k → Result Rest
  encrypted c sec_flags s x = do
    (data_offset, s1, x1) ←
        if has_bit sec_flags sec_encrypt_flag then unseal s x else ok (s.p, s, x)
    let licence = (do s2 ← s_seek s1 data_offset; x2 ← to_licence c s2 x1; ok (none, x2))
    let alive = (do s2 ← s_seek s1 data_offset; x2 ← heartbeat s2 x1; ok (none, x2))
    let redirected = (do
      (offset, s2, x2) ← redirection s1 x1
      s3 ← s_seek s2 offset
      ok (some s3, x2))
    let delivered = (do s2 ← s_seek s1 data_offset; ok (some s2, x1))
    if has_bit sec_flags sec_license_pkt
        then licence
        else (if has_bit sec_flags sec_heartbeat
            then alive
            else (if has_bit sec_flags sec_redirection_pkt then redirected else delivered))

  -- Without it; `data_offset` is where the header stands.
  unfoldable pub unencrypted :
      Client → (sec_flags data_offset : ℕ) → Stream → Session k → Result Rest
  unencrypted c sec_flags data_offset s x =
      if has_bit sec_flags sec_license_pkt
      then (do x1 ← to_licence c s x; ok (none, x1))
      else (if has_bit sec_flags sec_heartbeat
          then (do x1 ← heartbeat s x; ok (none, x1))
          else (do s1 ← s_seek s data_offset; ok (some s1, x)))

  -- The header, where there is one.
  unfoldable pub open_header : Client → Stream → Session k → Result Rest
  open_header c s x = do
    (sec_flags, s1) ← in_uint16_le s
    s2 ← in_uint8s s1 2
    if x.licence.security.g_encryption
        then encrypted c sec_flags s2 x
        else unencrypted c sec_flags s.p s2 x

  abbrev pub append_call : Option Call → List Call → List Call
  append_call none calls = calls
  append_call (some call) calls = calls ++ (call ∷ [])

  -- A packet for another channel than the global one is no packet for the caller.
  unfoldable pub to_channel : Numbers → (channel : ℕ) → Rest → Result Rest
  to_channel n channel (none, x) = ok (none, x)
  to_channel n channel (some s, x) =
      if not (channel == mcs_global_channel)
      then (do
        (call, table) ← channel_process n s channel x.channels
        ok (none, record x { channels = table; calls = append_call call x.calls }))
      else ok (some s, x)

  -- One round of the loop, behind `mcs_recv`.
  unfoldable pub sec_packet : Client → Numbers → Indication → Session k → Result Rest
  sec_packet c n i x =
      if i.is_fastpath
      then (do (s, x1) ← fastpath i.fastpath_hdr i.stream x; ok (some s, x1))
      else (do
        rest ←
            (if x.licence.security.g_encryption || unlicensed x.licence.security
              then open_header c i.stream x
              else ok (some i.stream, x))
        to_channel n i.channel rest)

  abbrev pub with_link : Link → Session k → Session k
  with_link link x = record x { licence = record x.licence { link = link } }

  -- The loop: a call of `sec_recv` that returns, in any number of rounds. What it returns is the packet
  -- with its stream, NULL, or nothing as long as it waits for the network.
  pub data SecRecv (c : Client) (n : Numbers)
      : Session k → Received (Indication × Stream) → Session k → Type 0 where
    closed :
        (x : Session k) (channel0 : ℕ) (link : Link)
        → mcs_recv channel0 x.licence.link ≡ ok (nothing, link)
        → SecRecv c n x nothing (with_link link x)
    waits :
        (x : Session k) (channel0 : ℕ) (link : Link)
        → mcs_recv channel0 x.licence.link ≡ ok (blocked, link)
        → SecRecv c n x blocked (with_link link x)
    delivers :
        (x x' : Session k) (channel0 : ℕ) (link : Link) (i : Indication) (s : Stream)
        → mcs_recv channel0 x.licence.link ≡ ok (message i, link)
        → sec_packet c n i (with_link link x) ≡ ok (some s, x')
        → SecRecv c n x (message (i, s)) x'
    continues :
        (x x1 x' : Session k) (channel0 : ℕ) (link : Link) (i : Indication)
        (r : Received (Indication × Stream))
        → mcs_recv channel0 x.licence.link ≡ ok (message i, link)
        → sec_packet c n i (with_link link x) ≡ ok (none, x1)
        → SecRecv c n x1 r x'
        → SecRecv c n x r x'

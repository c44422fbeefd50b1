-- ===== src/Channels/Ends.antt =====
-- `channel_send` comes to an end.
use rdesktop.Common.{ℕ, zero, suc, ◌+◌, ◌-◌, ◌^◌, ◌≤◌, ◌<◌, ◌≡◌, refl, arith, min}
use rdesktop.Common.{true, ok, exit, undefined, some, none}
use rdesktop.Common.{
  Returns, Returns-bind, Returns-then, Finishes, Finishes-bind, Finishes-if, Finishes-then,
  Bool-cases, inl, inr, u32, leb,
}
use rdesktop.Common.{Option, ltb, length, take, drop}
use rdesktop.Stream.{Stream, Layer, channel_hdr, s_pop_layer, out_uint32_le, out_uint8a, poke, peek}
use rdesktop.Stream.{
  in_uint8s, s_remaining, s_check_rem, s_check_end, out_uint8stream, s_mark_end, s_left,
}
use rdesktop.Mcs.{Link}
use rdesktop.Secure.{Security, sec_init, sec_send_to_channel}
use rdesktop.Channels.{Numbers, Channel, channel_send_chunk, chunk_flags, is_inplace, encrypt_flags}
use rdesktop.Channels.{send_loop, channel_send}
use rdesktop.Channels.Finish.{s_pop_layer-Finishes, out_uint32_le-Finishes, in_uint8s-Finishes}
use rdesktop.Channels.Finish.{out_uint8stream-Finishes, sec_send_to_channel-Finishes}

s_pop_layer-end : (h : Layer) (s : Stream) → Returns (λ t. t.end ≡ s.end) (s_pop_layer h s)
unfolding s_pop_layer
s_pop_layer-end h s = popped (s.hdr h)
  where
    popped :
        (o : Option ℕ)
        → Returns
            (λ t. t.end ≡ s.end)
            (elim o [ none ↦ exit undefined | some o ↦ ok (record s { p = o }) ])
    popped none = tt
    popped (some o) = refl

out_uint32_le-end : (s : Stream) (v : ℕ) → Returns (λ t. t.end ≡ s.end) (out_uint32_le s v)
unfolding out_uint32_le out_uint8a poke
out_uint32_le-end s v = elim (Bool-cases (ltb (s_left s) 4)) [
  | inl full ↦ rw full tt
  | inr room ↦ elim (Bool-cases (leb (s.p + 4) (length s.buf))) [
    | inl inside ↦ rw (room, inside) refl
    | inr outside ↦ rw (room, outside) tt
  ]
]

-- What is left is skipped.
in_uint8s-rest :
    (s : Stream)
    → s.end < 2 ^ 32
    → Returns (λ t. (t.p ≡ s.end) × (t.end ≡ s.end)) (in_uint8s s (s_remaining s))
unfolding in_uint8s
in_uint8s-rest s small = elim (Bool-cases (s_check_rem s (s_remaining s))) [
  | inl left ↦ rw left (unfold s_check_rem in ground (arith, left, small), refl)
  | inr short ↦ rw short tt
]

out_uint8stream-advances :
    (s v : Stream) (m : ℕ)
    → Returns (λ r. (r.1.p ≡ v.p + m) × (r.1.end ≡ v.end)) (out_uint8stream s v m)
unfolding out_uint8stream peek
out_uint8stream-advances s v m = elim (Bool-cases (s_check_rem v m)) [
  | inr short ↦ rw short tt
  | inl left ↦ elim (Bool-cases (leb (v.p + m) (length v.buf))) [
    | inr outside ↦ rw (left, outside) tt
    | inl inside ↦
        rw (left, inside)
          (Returns-then (λ r. (r.1.p ≡ v.p + m) × (r.1.end ≡ v.end))
            (out_uint8a s (take m (drop v.p v.buf))) _ (λ s'. (refl, refl)))
  ]
]

-- A round of the loop leaves less to send.
abbrev Closer : Stream → Stream × Link → Type 0
Closer s r = (r.0.end ≡ s.end) × (s.p < r.0.p) × (r.0.p ≤ s.end)

module _ (n : Numbers) (c : Security) (vc : ℕ) (ch : Channel) (len : ℕ) where
  channel_send_chunk-Closer :
      (s : Stream) (k : Link)
      → 0 < vc
      → s.p < s.end
      → s.end < 2 ^ 32
      → Returns (Closer s) (channel_send_chunk n c vc ch len s k)
  unfolding channel_send_chunk
  channel_send_chunk-Closer s k some_ left small =
      let this = u32 (min (s_remaining s) vc) in
      let flags = chunk_flags n ch len (s_remaining s) this in
      let moves : (0 < this) × (s.p + this ≤ s.end) =
        (omega (arith, some_, left, small), omega (arith, left, small)) in
      elim (Bool-cases (is_inplace n flags)) [
        | inl whole ↦ rw whole (
            Returns-bind (λ t. t.end ≡ s.end) (Closer s) (s_pop_layer channel_hdr s) _
              (s_pop_layer-end channel_hdr s)
              (λ s1 e1.
                Returns-bind (λ t. t.end ≡ s1.end) (Closer s) (out_uint32_le s1 len) _
                  (out_uint32_le-end s1 len)
                  (λ s2 e2.
                    Returns-bind (λ t. t.end ≡ s2.end) (Closer s) (out_uint32_le s2 flags) _
                      (out_uint32_le-end s2 flags)
                      (λ s3 e3.
                        Returns-then (Closer s)
                          (sec_send_to_channel c s3 (encrypt_flags c) ch.mcs_id k) _
                          (λ k1.
                            Returns-bind (λ t. (t.p ≡ s3.end) × (t.end ≡ s3.end)) (Closer s)
                              (in_uint8s s3 (s_remaining s3)) _
                              (in_uint8s-rest s3 (omega (arith, e1, e2, e3, small)))
                              (λ s4 e4. omega (arith, e1, e2, e3, e4.0, e4.1, left)))))))
        | inr part ↦ rw part (
            Returns-then (Closer s) (out_uint32_le (sec_init c (encrypt_flags c) (this + 8)) len) _
              (λ c1. Returns-then (Closer s) (out_uint32_le c1 flags) _ (λ c2.
                Returns-bind (λ r. (r.1.p ≡ s.p + this) × (r.1.end ≡ s.end)) (Closer s)
                  (out_uint8stream c2 s this) _ (out_uint8stream-advances c2 s this)
                  (λ r e.
                    Returns-then (Closer s)
                      (sec_send_to_channel c (s_mark_end r.0) (encrypt_flags c) ch.mcs_id k) _
                      (λ k1. omega (arith, e.0, e.1, moves.0, moves.1))))))
      ]

  channel_send_chunk-Finishes :
      (s : Stream) (k : Link) → Finishes (channel_send_chunk n c vc ch len s k)
  unfolding channel_send_chunk
  channel_send_chunk-Finishes s k =
      let this = u32 (min (s_remaining s) vc) in
      let flags = chunk_flags n ch len (s_remaining s) this in
      Finishes-if (is_inplace n flags) _ _
        (Finishes-bind (s_pop_layer channel_hdr s) _ (s_pop_layer-Finishes channel_hdr s) (λ s1.
          Finishes-bind (out_uint32_le s1 len) _ (out_uint32_le-Finishes s1 len) (λ s2.
            Finishes-bind (out_uint32_le s2 flags) _ (out_uint32_le-Finishes s2 flags) (λ s3.
              Finishes-bind (sec_send_to_channel c s3 (encrypt_flags c) ch.mcs_id k) _
                (sec_send_to_channel-Finishes c s3 (encrypt_flags c) ch.mcs_id k)
                (λ k1.
                  Finishes-bind (in_uint8s s3 (s_remaining s3)) _
                    (in_uint8s-Finishes s3 (s_remaining s3)) (λ s4. tt))))))
        (Finishes-bind (out_uint32_le (sec_init c (encrypt_flags c) (this + 8)) len) _
          (out_uint32_le-Finishes (sec_init c (encrypt_flags c) (this + 8)) len)
          (λ c1. Finishes-bind (out_uint32_le c1 flags) _ (out_uint32_le-Finishes c1 flags) (λ c2.
            Finishes-bind (out_uint8stream c2 s this) _ (out_uint8stream-Finishes c2 s this) (λ r.
              Finishes-bind (sec_send_to_channel c (s_mark_end r.0) (encrypt_flags c) ch.mcs_id k) _
                (sec_send_to_channel-Finishes c (s_mark_end r.0) (encrypt_flags c) ch.mcs_id k)
                (λ k1. tt)))))

  -- By induction on the fuel, which is at least what is left to send.
  send_loop-Finishes :
      (fuel : ℕ) (s : Stream) (k : Link)
      → 0 < vc
      → s.p ≤ s.end
      → s.end < 2 ^ 32
      → s.end - s.p ≤ fuel
      → Finishes (send_loop n c vc ch len fuel s k)
  unfolding send_loop
  send_loop-Finishes zero s k some_ inside small fuel_ =
      let done : s_check_end s ≡ true = unfold s_check_end in ground (arith, inside, fuel_) in
      rw done tt
  send_loop-Finishes (suc fuel) s k some_ inside small fuel_ = elim (Bool-cases (s_check_end s)) [
    | inl done ↦ rw done tt
    | inr more ↦
        let left : s.p < s.end = unfold s_check_end in ground (arith, inside, more) in
        rw more (
          Finishes-then (Closer s) (channel_send_chunk n c vc ch len s k) _
            (channel_send_chunk-Finishes s k) (channel_send_chunk-Closer s k some_ left small)
            (λ r closer.
              send_loop-Finishes fuel r.0 r.1 some_ (omega (arith, closer.0, closer.2))
                (omega (arith, closer.0, small)) (omega (arith, closer.0, closer.1, fuel_))))
  ]

-- The skip over the header of the channel.
in_uint8s-inside :
    (s : Stream) (m : ℕ) → Returns (λ t. (t.p ≤ t.end) × (t.end ≡ s.end)) (in_uint8s s m)
unfolding in_uint8s
in_uint8s-inside s m = elim (Bool-cases (s_check_rem s m)) [
  | inl left ↦ rw left (unfold s_check_rem in ground (arith, left), refl)
  | inr short ↦ rw short tt
]

-- With a chunk size that is not 0, `channel_send` does not go on for ever, whatever the stream, the
-- channel, the flags and the security: it returns, or the session ends.
pub channel_send-Finishes :
    (n : Numbers) (c : Security) (vc_chunk_size : ℕ) (s : Stream) (ch : Channel) (k : Link)
    → 0 < vc_chunk_size
    → s.end < 2 ^ 32
    → Finishes (channel_send n c vc_chunk_size s ch k)
unfolding channel_send
channel_send-Finishes n c vc s ch k some_ small =
    Finishes-then (λ t. t.end ≡ s.end) (s_pop_layer channel_hdr s) _
      (s_pop_layer-Finishes channel_hdr s) (s_pop_layer-end channel_hdr s)
      (λ s1 e1.
        Finishes-then (λ t. (t.p ≤ t.end) × (t.end ≡ s1.end)) (in_uint8s s1 8) _
          (in_uint8s-Finishes s1 8) (in_uint8s-inside s1 8)
          (λ s2 e2.
            send_loop-Finishes n c vc ch (u32 (s_remaining s2)) (u32 (s_remaining s2)) s2 k some_
              e2.0 (omega (arith, e1, e2.1, small)) (omega (arith, e1, e2.0, e2.1, small))))

-- ===== src/Mcs/Sequence.antt =====
-- The packets that a connection is made of, in their order.
use rdesktop.Common.{ℕ, ◌+◌, ◌≡◌, refl, sym, ◌∙◌, ap, Bool, true}
use rdesktop.Common.{List, [], ◌∷◌, ◌++◌, Result, ok, exit, ◌>>=◌, Returns, Returns-bind}
use rdesktop.Common.{Returns-map, Returns-at, u16}
use mathlib.Core.List.{append_assoc, append-nil}
use mathlib.Core.Path.{subst}
use rdesktop.Stream.{Stream}
use rdesktop.Iso.{iso_send, Received, message}
use rdesktop.Mcs.{Link, packet, send, hand_over, mcs_global_channel}
use rdesktop.Mcs.{mcs_userchannel_base}
use rdesktop.Mcs.Connect.{mcs_send_edrq, mcs_send_aurq, mcs_send_cjrq, mcs_recv_cjcf, mcs_recv_aucf}
use rdesktop.Mcs.Connect.{join_confirm, attach_confirm, then_or_error}
use rdesktop.Mcs.Connect.{
  join_channels, mcs_connect_finalize, connect_answer, connect_initial_packet,
}
use rdesktop.Mcs.Connect.{mcs_recv_connect_response, mcs_send_connect_initial}
use rdesktop.Mcs.Packets.{
  edrq_bytes, aurq_bytes, cjrq_bytes, sent, mcs_send_edrq-bytes, mcs_send_aurq-bytes,
  mcs_send_cjrq-bytes,
}
use rdesktop.Mcs.Answers.{
  expect-Returns, then_or_error-Succeeds, join_confirm-IsKept, attach_confirm-Quiet,
  connect_answer-IsKept, IsKept, Succeeds,
}

-- What goes out for the settings in `mcs_data`.
abbrev pub initial_bytes : Stream → Result (List ℕ)
initial_bytes mcs_data = do s ← connect_initial_packet mcs_data; t ← iso_send s; ok (packet t)

-- The joins of the channels, one after the other.
abbrev pub joins : ℕ → List ℕ → List (List ℕ)
joins user [] = []
joins user (id ∷ ids) = cjrq_bytes user id ∷ joins user ids

-- The user is `user`, and these packets were handed over.
abbrev pub Has : ℕ → List (List ℕ) → Link → Type 0
Has user ps k = (k.g_mcs_userid ≡ user) × (k.outgoing ≡ ps)

mcs_recv_cjcf-Has :
    (user : ℕ) (ps : List (List ℕ)) (k : Link)
    → Has user ps k
    → Returns (λ r. Has user ps r.1) (mcs_recv_cjcf k)
unfolding mcs_recv_cjcf
mcs_recv_cjcf-Has user ps k h =
    expect-Returns (Has user ps) join_confirm k (λ t. h)
      (λ s t.
        Returns-map (IsKept (record k { tcp = t })) (λ r. Has user ps r.1) _
          (join_confirm-IsKept (record k { tcp = t }) s)
          (λ r e. subst (Has user ps) {x = record k { tcp = t }} (sym e) h))

sent-Has :
    (id : ℕ) {user : ℕ} {ps : List (List ℕ)} (k : Link)
    → Has user ps k
    → Has user (ps ++ (cjrq_bytes user id ∷ [])) (sent (cjrq_bytes k.g_mcs_userid id) k)
sent-Has id {user} {ps} k h = (h.0, rw (h.0, h.1) refl)

join_channels-Has :
    (ids : List ℕ) (user : ℕ) (ps : List (List ℕ)) (k : Link)
    → Has user ps k
    → Returns (Succeeds (Has user (ps ++ joins user ids))) (join_channels ids k)
unfolding join_channels
join_channels-Has [] user ps k h = λ e. (h.0, h.1 ∙ sym (append-nil ps))
join_channels-Has (id ∷ ids) user ps k h = rw mcs_send_cjrq-bytes (
    subst
      (λ w.
        Returns (Succeeds (Has user w))
          (then_or_error (mcs_recv_cjcf (sent p k)) (join_channels ids)))
      (append_assoc ps (cjrq_bytes user id ∷ []) (joins user ids))
      (then_or_error-Succeeds (Has user (ps ++ (cjrq_bytes user id ∷ []))) (Has user w)
        (join_channels ids) (mcs_recv_cjcf (sent p k))
        (mcs_recv_cjcf-Has user (ps ++ (cjrq_bytes user id ∷ [])) (sent p k) (sent-Has id k h))
        (join_channels-Has ids user (ps ++ (cjrq_bytes user id ∷ [])))))
  where
    p : List ℕ
    p = cjrq_bytes k.g_mcs_userid id

    w : List (List ℕ)
    w = (ps ++ (cjrq_bytes user id ∷ [])) ++ joins user ids

-- The packets after the first.
abbrev pub requests : ℕ → List ℕ → List (List ℕ)
requests user channels =
    edrq_bytes
    ∷ aurq_bytes
    ∷ joins user (u16 (user + mcs_userchannel_base) ∷ mcs_global_channel ∷ channels)

-- From the erect-domain request on.
attach_and_join : List ℕ → Link → Result (Received Bool × Link)
attach_and_join channels k2 = do
  k3 ← mcs_send_edrq k2
  k4 ← mcs_send_aurq k3
  then_or_error (mcs_recv_aucf k4) (λ k5. do
    k6 ← mcs_send_cjrq (u16 (k5.g_mcs_userid + mcs_userchannel_base)) k5
    then_or_error (mcs_recv_cjcf k6) (join_channels (mcs_global_channel ∷ channels)))

-- Some user has been attached, and joined the channels.
abbrev pub Joined : List (List ℕ) → List ℕ → Link → Type 0
Joined ps channels k = (k.outgoing ≡ ps ++ requests k.g_mcs_userid channels)

-- The requests with the user's own channel first.
joins_all :
    (channels : List ℕ) (ps : List (List ℕ)) (k : Link)
    → k.outgoing ≡ (ps ++ (edrq_bytes ∷ [])) ++ (aurq_bytes ∷ [])
    → Returns (Succeeds (Joined ps channels)) (
        join_channels
          (u16 (k.g_mcs_userid + mcs_userchannel_base) ∷ mcs_global_channel ∷ channels)
          k)
joins_all channels ps k h =
    let ids = u16 (k.g_mcs_userid + mcs_userchannel_base) ∷ mcs_global_channel ∷ channels in
    Returns-map (Succeeds (Has k.g_mcs_userid (k.outgoing ++ joins k.g_mcs_userid ids)))
      (Succeeds (Joined ps channels)) (join_channels ids k)
      (join_channels-Has ids k.g_mcs_userid k.outgoing k (refl, refl))
      (λ r goes_on yes.
        let (user, out) = goes_on yes in
        subst (λ w. r.1.outgoing ≡ ps ++ requests w channels) (sym user)
          (out
            ∙ (ap (λ w. w ++ joins k.g_mcs_userid ids) h
                ∙ (append_assoc (ps ++ (edrq_bytes ∷ [])) (aurq_bytes ∷ [])
                      (joins k.g_mcs_userid ids)
                    ∙ append_assoc ps (edrq_bytes ∷ []) (aurq_bytes ∷ joins k.g_mcs_userid ids)))))

attach_and_join-Joined :
    (channels : List ℕ) (ps : List (List ℕ)) (k : Link)
    → k.outgoing ≡ ps
    → Returns (Succeeds (Joined ps channels)) (attach_and_join channels k)
unfolding attach_and_join mcs_send_cjrq join_channels
attach_and_join-Joined channels ps k h =
    let k4 = sent aurq_bytes (sent edrq_bytes k) in
    let P : Link → Type 0 = λ l. l.outgoing ≡ (ps ++ (edrq_bytes ∷ [])) ++ (aurq_bytes ∷ []) in
    let before : P k4 = rw h refl in
    rw (mcs_send_edrq-bytes, mcs_send_aurq-bytes)
      (then_or_error-Succeeds P (Joined ps channels)
        (λ l.
          join_channels
            (u16 (l.g_mcs_userid + mcs_userchannel_base) ∷ mcs_global_channel ∷ channels) l)
        (mcs_recv_aucf k4)
        (unfold mcs_recv_aucf in
          expect-Returns P attach_confirm k4 (λ t. before)
            (λ s t.
              Returns-map (λ r. r.1.outgoing ≡ k4.outgoing) (λ r. P r.1) _
                (attach_confirm-Quiet (record k4 { tcp = t }) s) (λ r e. e ∙ before)))
        (λ l e. joins_all channels ps l e))

-- One packet more, with these bytes.
abbrev Adds : Link → Result (List ℕ) → Link → Type 0
Adds k bytes k' = (first : List ℕ) × (bytes ≡ ok first) × (k'.outgoing ≡ k.outgoing ++ (first ∷ []))

hand_over-Adds :
    (framed : Result Stream) (k : Link)
    → Returns (Adds k (do t ← framed; ok (packet t))) (do t ← framed; ok (hand_over t k))
hand_over-Adds (ok t) k = (packet t, refl, refl)
hand_over-Adds (exit reason) k = tt

send-Adds :
    (built : Result Stream) (k : Link)
    → Returns (Adds k (do s ← built; t ← iso_send s; ok (packet t))) (do s ← built; send s k)
send-Adds (ok s) k = hand_over-Adds (iso_send s) k
send-Adds (exit reason) k = tt

module _ (sec_process_mcs_data : Stream → Result Stream) (channels : List ℕ)
    (mcs_data : Stream) where
  -- What a whole connection hands over, after what the link had.
  abbrev pub Connected : Link → Link → Type 0
  Connected k k' =
      (first : List ℕ) × (initial_bytes mcs_data ≡ ok first)
      × Joined (k.outgoing ++ (first ∷ [])) channels k'

  response-Adds :
      (k k1 : Link)
      → Adds k (initial_bytes mcs_data) k1
      → Returns
          (λ r. Adds k (initial_bytes mcs_data) r.1)
          (mcs_recv_connect_response sec_process_mcs_data k1)
  unfolding mcs_recv_connect_response
  response-Adds k k1 added =
      expect-Returns (Adds k (initial_bytes mcs_data)) (connect_answer sec_process_mcs_data) k1
        (λ t. added)
        (λ s t.
          Returns-map (IsKept (record k1 { tcp = t })) (λ r. Adds k (initial_bytes mcs_data) r.1) _
            (connect_answer-IsKept sec_process_mcs_data (record k1 { tcp = t }) s)
            (λ r e.
              subst (Adds k (initial_bytes mcs_data)) {x = record k1 { tcp = t }} (sym e) added))

  finalize-Connected :
      (k : Link)
      → Returns
          (Succeeds (Connected k))
          (mcs_connect_finalize sec_process_mcs_data channels mcs_data k)
  unfolding mcs_connect_finalize mcs_send_connect_initial attach_and_join
  finalize-Connected k =
      Returns-bind (Adds k (initial_bytes mcs_data)) (Succeeds (Connected k))
        (mcs_send_connect_initial mcs_data k) _ (send-Adds (connect_initial_packet mcs_data) k)
        (λ k1 added.
          then_or_error-Succeeds (Adds k (initial_bytes mcs_data)) (Connected k)
            (attach_and_join channels) (mcs_recv_connect_response sec_process_mcs_data k1)
            (response-Adds k k1 added)
            (λ k2 had.
              let (first, e, out) = had in
              Returns-map (Succeeds (Joined (k.outgoing ++ (first ∷ [])) channels))
                (Succeeds (Connected k)) (attach_and_join channels k2)
                (attach_and_join-Joined channels (k.outgoing ++ (first ∷ [])) k2 out)
                (λ r joined yes. (first, e, joined yes))))

  -- Where `mcs_connect_finalize` returns True, it has handed over exactly these packets, in this
  -- order: the connect-initial message of `mcs_data`, one erect-domain request, one attach-user
  -- request, and the joins, by the user that was attached, of the user's own channel, the global
  -- channel and each channel of the table, in the order of the table.
  pub mcs_connect_finalize-Connected :
      (k k' : Link)
      → mcs_connect_finalize sec_process_mcs_data channels mcs_data k ≡ ok (message true, k')
      → Connected k k'
  mcs_connect_finalize-Connected k k' e =
      Returns-at (Succeeds (Connected k)) _ e (finalize-Connected k) refl

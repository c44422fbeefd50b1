-- ===== src/Iso/Negotiate/Sound.antt =====
-- How `iso_connect` sets `g_encryption` against the protocol that it connects with.
use rdesktop.Common.{
  ℕ, ◌≡◌, refl, Bool, true, false, ◌==◌, ◌&&◌, ◌||◌, not, Result, ok, if◌then◌else◌, Returns,
  Returns-bind, Returns-map, Returns-at, Returns-then, Bool-cases,
}
use rdesktop.Common.{◌⊎◌, inl, inr, List, [], ◌∷◌, Option, none, some}
use rdesktop.Stream.{in_uint8, in_uint8s, in_uint32_le, s_check_rem}
use rdesktop.Tcp.{Tcp}
use rdesktop.Iso.{Message, Received, message, nothing, blocked, iso_recv_msg, pdu_cc}
use rdesktop.Iso.Negotiate.{
  Config, Attempt, Negotiation, Verdict, connected, refused, unanswered, Step, decided, retry,
  is_hybrid, disagrees,
}
use rdesktop.Iso.Negotiate.{
  negotiation_failure, select_protocol, negotiation_response, confirm, iso_send_connection_request,
  received, attempt, follow, connect_loop, start, first_protocol, iso_connect,
}

-- One of the attempts passes the test.
abbrev pub Some : (Attempt → Bool) → List Attempt → Type 0
Some test [] = ⊥
Some test (a ∷ later) = (test a ≡ true) ⊎ Some test later

-- What makes up for `g_encryption`, which is `before` at the call and `now` at its return.
pub data Secures (attempts : List Attempt) (before now : Bool) : ℕ → Type 0 where
  plain : now ≡ before → Secures attempts before now 0
  by_tls : now ≡ false → Some (λ a. a.tls) attempts → Secures attempts before now 1
  by_cssp :
      (protocol : ℕ)
      → is_hybrid protocol ≡ true
      → now ≡ false
      → Some (λ a. a.cssp) attempts
      → Secures attempts before now protocol

-- A call that connects has left `g_encryption` as the protocol needs it.
abbrev pub IsSecured : List Attempt → Bool → (Verdict × Negotiation) → Type 0
IsSecured attempts before (connected protocol, n) = Secures attempts before n.g_encryption protocol
IsSecured attempts before (refused, n) = Unit
IsSecured attempts before (unanswered, n) = Unit

widen :
    {before now : Bool} {protocol : ℕ} (a : Attempt) (later : List Attempt)
    → Secures later before now protocol
    → Secures (a ∷ later) before now protocol
widen a later (plain same) = plain same
widen a later (by_tls off made) = by_tls off (inr made)
widen a later (by_cssp protocol hybrid off made) = by_cssp protocol hybrid off (inr made)

IsSecured-widen :
    (before : Bool) (a : Attempt) (later : List Attempt) (r : Verdict × Negotiation)
    → IsSecured later before r
    → IsSecured (a ∷ later) before r
IsSecured-widen before a later (connected protocol, n) s = widen a later s
IsSecured-widen before a later (refused, n) s = tt
IsSecured-widen before a later (unanswered, n) s = tt

both : (x y : Bool) → (x && y) ≡ true → y ≡ true
both true y e = e
both false y e = absurd (cc)

module _ (c : Config) (a : Attempt) (later : List Attempt) (before : Bool) where
  -- An attempt ends the call so, or goes on with `g_encryption` as it was.
  abbrev Fits : Step → Type 0
  Fits (decided v n) = IsSecured (a ∷ later) before (v, n)
  Fits (retry protocol n) = n.g_encryption ≡ before

  -- A test on the way to a step: each branch is at hand with what the test says.
  branch :
      (test : Bool) (x y : Step)
      → (test ≡ true → Fits x)
      → (test ≡ false → Fits y)
      → Fits (if test then x else y)
  branch true x y at_true at_false = at_true refl
  branch false x y at_true at_false = at_false refl

  select_protocol-Fits :
      (protocol : ℕ) (n : Negotiation)
      → n.g_encryption ≡ before
      → Fits (select_protocol c a protocol n)
  unfolding select_protocol
  select_protocol-Fits protocol n same =
      branch (protocol == 1) _ _
        (λ ssl. branch a.tls _ _ (λ made. by_tls refl (inl made)) (λ failed. same))
        (λ other.
          branch (c.with_credssp && is_hybrid protocol) _ _
            (λ hybrid.
              branch a.cssp _ _
                (λ made. by_cssp protocol (both c.with_credssp _ hybrid) refl (inl made))
                (λ failed. same))
            (λ neither. branch (protocol == 0) _ _ (λ none_left. plain same) (λ unknown. tt)))

  negotiation_response-Fits :
      (neg_proto type flags protocol : ℕ) (n : Negotiation)
      → n.g_encryption ≡ before
      → Fits (negotiation_response c a neg_proto type flags protocol n)
  unfolding negotiation_response negotiation_failure
  negotiation_response-Fits neg_proto type flags protocol n same =
      branch (type == 3) _ _
        (λ failure. branch (protocol == 2 || protocol == 3) _ _ (λ again. same) (λ stop. tt))
        (λ other.
          branch (not (type == 2)) _ _ (λ odd. tt)
            (λ response.
              branch
                (disagrees c.g_restricted_admin flags 0x08 protocol
                  || disagrees c.g_remote_guard flags 0x10 protocol)
                _ _ (λ disagreed. tt) (λ agreed. select_protocol-Fits protocol n same)))

  confirm-Fits :
      (neg_proto : ℕ) (m : Message) (n : Negotiation)
      → n.g_encryption ≡ before
      → Returns Fits (confirm c a neg_proto m n)
  unfolding confirm
  confirm-Fits neg_proto m n same = elim (Bool-cases (m.is_fastpath || not (m.code == pdu_cc))) [
    | inl odd ↦ rw odd tt
    | inr confirmed ↦ elim (Bool-cases (c.is_rdp_v5 && s_check_rem m.stream 8)) [
      | inl negotiated ↦
          rw (confirmed, negotiated)
            (Returns-then Fits (in_uint8 m.stream) _ (λ t. Returns-then Fits (in_uint8 t.1) _ (λ f.
              Returns-then Fits (in_uint8s f.1 2) _ (λ s3.
                Returns-then Fits (in_uint32_le s3) _
                  (λ d. negotiation_response-Fits neg_proto t.0 f.0 d.0 _ same)))))
      | inr bare ↦ rw (confirmed, bare) (plain same)
    ]
  ]

  received-Fits :
      (neg_proto : ℕ) (r : Received Message) (n : Negotiation)
      → n.g_encryption ≡ before
      → Returns Fits (received c a neg_proto r n)
  unfolding received
  received-Fits neg_proto nothing n same = tt
  received-Fits neg_proto blocked n same = tt
  received-Fits neg_proto (message m) n same = confirm-Fits neg_proto m n same

  attempt-Fits :
      (neg_proto : ℕ) (connection : Option Tcp) (n : Negotiation)
      → n.g_encryption ≡ before
      → Returns Fits (attempt c a neg_proto connection n)
  unfolding attempt
  attempt-Fits neg_proto none n same = tt
  attempt-Fits neg_proto (some t) n same =
      Returns-then Fits (iso_send_connection_request c neg_proto n) _ (λ request.
        Returns-then Fits (iso_recv_msg 0 t) _ (λ r. received-Fits neg_proto r.0 _ same))

follow-IsSecured :
    (c : Config) (a : Attempt) (later : List Attempt) (before : Bool)
    (again : ℕ → Negotiation → Result (Verdict × Negotiation)) (step : Step)
    → ((proto : ℕ) (n : Negotiation)
        → n.g_encryption ≡ before
        → Returns (IsSecured later before) (again proto n))
    → Fits c a later before step
    → Returns (IsSecured (a ∷ later) before) (follow again step)
unfolding follow
follow-IsSecured c a later before again (decided v n) keeps fits = fits
follow-IsSecured c a later before again (retry proto n) keeps fits =
    Returns-map (IsSecured later before) (IsSecured (a ∷ later) before) (again proto n)
      (keeps proto n fits) (λ r. IsSecured-widen before a later r)

connect_loop-IsSecured :
    (c : Config) (attempts : List Attempt) (neg_proto : ℕ) (before : Bool) (n : Negotiation)
    → n.g_encryption ≡ before
    → Returns (IsSecured attempts before) (connect_loop c attempts neg_proto n)
unfolding connect_loop
connect_loop-IsSecured c [] neg_proto before n same = tt
connect_loop-IsSecured c (a ∷ later) neg_proto before n same =
    Returns-bind (Fits c a later before) (IsSecured (a ∷ later) before)
      (attempt c a neg_proto a.connection n) _
      (attempt-Fits c a later before neg_proto a.connection n same)
      (λ step fits.
        follow-IsSecured c a later before _ step
          (λ proto n1 kept. connect_loop-IsSecured c later proto before n1 kept) fits)

start-IsSecured :
    (c : Config) (attempts : List Attempt) (first : Option ℕ) (before : Bool) (n : Negotiation)
    → n.g_encryption ≡ before
    → Returns (IsSecured attempts before) (start c attempts first n)
unfolding start
start-IsSecured c attempts none before n same = tt
start-IsSecured c attempts (some neg_proto) before n same =
    connect_loop-IsSecured c attempts neg_proto before n same

-- If the call connects: with plain RDP `g_encryption` is as before the call; with TLS it is off and the
-- TLS connection of an attempt was made; with either CredSSP protocol it is off and the CredSSP
-- connection of an attempt was made; there is no other protocol.
pub iso_connect-Secures :
    (c : Config) (attempts : List Attempt) (n n1 : Negotiation) (protocol : ℕ)
    → iso_connect c attempts n ≡ ok (connected protocol, n1)
    → Secures attempts n.g_encryption n1.g_encryption protocol
unfolding iso_connect
iso_connect-Secures c attempts n n1 protocol e =
    Returns-at (IsSecured attempts n.g_encryption) (iso_connect c attempts n) e
      (start-IsSecured c attempts (first_protocol c) n.g_encryption _ refl)

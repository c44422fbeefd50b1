-- ===== src/Mcs/Answers.antt =====
-- What the receiving functions of the connection sequence leave alone.
use rdesktop.Common.{◌≡◌, refl, Bool, true, false}
use rdesktop.Common.{Result, ok, exit, Returns, Returns-bind}
use rdesktop.Common.{Returns-then, not, has_bit, if◌then◌else◌, Bool-cases, inl, inr, ◌==◌}
use rdesktop.Common.{none}
use rdesktop.Stream.{Stream}
use rdesktop.Stream.{s_check_rem, in_uint8, in_uint8s, in_uint16_be}
use rdesktop.Tcp.{Tcp}
use rdesktop.Iso.{iso_recv, Received, message, nothing, blocked, Message}
use rdesktop.Mcs.{Link, iso_disconnect}
use rdesktop.Mcs.Connect.{answer, expect, join_confirm, attach_confirm, confirmation, then_or_error}
use rdesktop.Mcs.Connect.{connect_answer}
use rdesktop.Mcs.Connect.{mcs_parse_domain_params}
use rdesktop.Mcs.Connect.{parse_into, known}

Returns-if :
    {A : Type 0} (P : A → Type 0) (test : Bool) (m n : Result A)
    → Returns P m
    → Returns P n
    → Returns P (if test then m else n)
Returns-if P true m n hm hn = hm
Returns-if P false m n hm hn = hn

module _ (P : Link → Type 0) (parse : Stream → Link → Result (Bool × Link)) where
  answer-Returns :
      (k : Link) (r : Received Message)
      → P k
      → ((s : Stream) → Returns (λ q. P q.1) (parse s k))
      → Returns (λ q. P q.1) (answer parse k r)
  unfolding answer
  answer-Returns k nothing h kept = h
  answer-Returns k blocked h kept = h
  answer-Returns k (message m) h kept =
      Returns-bind (λ q. P q.1) (λ q. P q.1) (parse m.stream k) _ (kept m.stream) (λ q e. e)

  -- A receiving function gives what holds whatever is received, if parsing gives it.
  pub expect-Returns :
      (k : Link)
      → ((t : Tcp) → P (record k { tcp = t }))
      → ((s : Stream) (t : Tcp) → Returns (λ q. P q.1) (parse s (record k { tcp = t })))
      → Returns (λ q. P q.1) (expect parse k)
  unfolding expect
  expect-Returns k same kept =
      Returns-then (λ q. P q.1) (iso_recv k.tcp) _
        (λ r. answer-Returns (record k { tcp = r.1 }) r.0 (same r.1) (λ s. kept s r.1))

-- The link is the one before, whatever was read.
abbrev pub IsKept : Link → Bool × Link → Type 0
IsKept k r = r.1 ≡ k

pub join_confirm-IsKept : (k : Link) (s : Stream) → Returns (IsKept k) (join_confirm s k)
unfolding join_confirm
join_confirm-IsKept k s = Returns-then (IsKept k) (confirmation 15 s) _ (λ r.
    elim (Bool-cases (not r.0)) [
      | inl refused ↦ rw refused refl
      | inr granted ↦ rw granted (
          Returns-then (IsKept k) (in_uint8s r.2 4) _ (λ s2.
            Returns-then (IsKept k) (if has_bit r.1 2 then in_uint8s s2 2 else ok s2) _
              (λ s3. refl)))
    ])

pub attach_confirm-Quiet :
    (k : Link) (s : Stream) → Returns (λ r. r.1.outgoing ≡ k.outgoing) (attach_confirm s k)
unfolding attach_confirm
attach_confirm-Quiet k s =
    let P : Bool × Link → Type 0 = λ r. r.1.outgoing ≡ k.outgoing in
    Returns-then P (confirmation 11 s) _ (λ r. elim (Bool-cases (not r.0)) [
      | inl refused ↦ rw refused refl
      | inr granted ↦ elim (Bool-cases (has_bit r.1 2)) [
        | inl id ↦ rw (granted, id) (Returns-then P (in_uint16_be r.2) _ (λ s2. refl))
        | inr no_id ↦ rw (granted, no_id) refl
      ]
    ])

pub connect_answer-IsKept :
    (sec_process_mcs_data : Stream → Result Stream) (k : Link) (s : Stream)
    → Returns (IsKept k) (connect_answer sec_process_mcs_data s k)
unfolding connect_answer
connect_answer-IsKept sec_process_mcs_data k s =
    let P = IsKept k in
    Returns-then P (parse_into s 0x7f66 none) _ (λ r. Returns-then P (parse_into r.1 10 r.0) _ (λ r.
      Returns-then P (in_uint8 r.1) _ (λ q. Returns-if P (not (q.0 == 0)) _ _ refl (
        Returns-then P (parse_into q.1 2 r.0) _ (λ r. Returns-then P (known r.0) _ (λ len.
          Returns-then P (in_uint8s r.1 len) _ (λ s5.
            Returns-if P (not (s_check_rem s5 len)) _ _ tt (
              Returns-then P (mcs_parse_domain_params s5) _ (λ s6.
                Returns-then P (parse_into s6 4 r.0) _
                  (λ r. Returns-then P (sec_process_mcs_data r.1) _ (λ s8. refl)))))))))))

-- What holds where `message true` is the answer.
abbrev pub Succeeds : (Link → Type 0) → Received Bool × Link → Type 0
Succeeds Q r = r.0 ≡ message true → Q r.1

module _ (P Q : Link → Type 0) (next : Link → Result (Received Bool × Link)) where
  pub then_or_error-Succeeds :
      (receive : Result (Received Bool × Link))
      → Returns (λ r. P r.1) receive
      → ((k : Link) → P k → Returns (Succeeds Q) (next k))
      → Returns (Succeeds Q) (then_or_error receive next)
  unfolding then_or_error
  then_or_error-Succeeds (exit reason) h goes_on = tt
  then_or_error-Succeeds (ok (nothing, k)) h goes_on = λ e. cc
  then_or_error-Succeeds (ok (blocked, k)) h goes_on = λ e. cc
  then_or_error-Succeeds (ok (message true, k)) h goes_on = goes_on k h
  then_or_error-Succeeds (ok (message false, k)) h goes_on =
      Returns-then (Succeeds Q) (iso_disconnect k) _ (λ k1. λ e. cc)

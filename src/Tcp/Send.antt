-- ===== src/Tcp/Send.antt =====
-- `tcp_send` puts the bytes of a stream on the wire in order, however few each call takes.
use rdesktop.Common.{ℕ, zero, suc, ◌+◌, ◌≤◌, ◌≡◌, ◌≢◌, ◌⊎◌, refl, sym, ◌∙◌, ap, arith}
use rdesktop.Common.{true, false, List, [], ◌∷◌, ◌++◌, Result, ok, ◌>>=◌, ◌==◌, min}
use rdesktop.Common.{length, take, drop, take-append-drop, take_all, drop_cong, drop_all}
use rdesktop.Common.{Bool-cases, inl, inr}
use mathlib.Core.List.{append_assoc, append-nil}
use rdesktop.Stream.{Stream, s_seek, s_check_rem, s_check_end, s_remaining}
use rdesktop.Stream.Valid.{IsValid}
use rdesktop.Stream.Read.{
  Reads, advance, length-Reads, in_uint8a-Reads, advance-Reads, seek_start, rewind-Reads,
}
use rdesktop.Tcp.{Outgoing, sent, blocks, broken, Status, done, null, waiting, tcp_send, send_loop}
use rdesktop.Tcp.{send_some}

check_end-Reads : {s : Stream} (xs : List ℕ) → Reads s xs → s_check_end s ≡ (length xs == 0)
unfolding s_check_end
check_end-Reads {s} xs r = ground (arith, length-Reads r, r.inside)

take-min : (n : ℕ) (xs : List ℕ) → drop (min n (length xs)) xs ≡ drop n xs
take-min zero xs = drop_cong (min 0 (length xs)) 0 xs (omega arith)
take-min (suc n) [] = drop_all (min (suc n) 0) [] (omega arith)
take-min (suc n) (x ∷ xs) =
    drop_cong (min (suc n) (suc (length xs))) (suc (min n (length xs))) (x ∷ xs) (omega arith)
    ∙ take-min n xs

-- A call that takes `n` bytes of those that are left.
send_some-Reads :
    {s : Stream} (n : ℕ) (xs : List ℕ)
    → Reads s xs
    → (send_some s n ≡ ok (take n xs, advance s (min n (length xs))))
      × Reads (advance s (min n (length xs))) (drop n xs)
unfolding send_some s_seek s_check_rem
send_some-Reads {s} n xs r =
    let len = length-Reads r in
    let whole : s_remaining s ≡ length xs =
      omega (arith, len, r.inside, r.valid.wide, r.valid.mark) in
    let got = in_uint8a-Reads (length xs) r (omega arith) in
    let fits : s.p + min n (length xs) ≤ s.end = omega (arith, len, r.inside) in
    (
      rw (whole, got.0, take_all (length xs) xs (omega arith))
          (ground (arith, fits, r.valid.wide, r.valid.mark)),
      rw take-min at (advance-Reads (min n (length xs)) r (omega arith)),
    )

-- `m` ends: what is on the wire, and what is not, are `xs`; at the end of the loop all is.
pub record Sends (wire xs : List ℕ) (m : Result (Status × List ℕ × Stream)) : Type 0 where
  pub status : Status
  pub out : List ℕ
  pub unsent : List ℕ
  pub stream : Stream
  pub returns : m ≡ ok (status, wire ++ out, stream)
  pub in_order : out ++ unsent ≡ xs
  pub complete : (status ≢ done) ⊎ (unsent ≡ [])

nothing_left : (xs : List ℕ) → (length xs == 0) ≡ true → xs ≡ []
nothing_left [] h = refl
nothing_left (x ∷ xs) h = absurd (ground arith)

-- The loop that stops here.
stops :
    (status : Status) (wire xs : List ℕ) (s : Stream)
    → (status ≢ done) ⊎ (xs ≡ [])
    → Sends wire xs (ok (status, wire, s))
stops status wire xs s c = record {
  status = status;
  out = [];
  unsent = xs;
  stream = s;
  returns = ap (λ w. ok (status, w, s)) (sym (append-nil wire));
  in_order = refl;
  complete = c;
}

null≢done : null ≢ done
null≢done e = cc

waiting≢done : waiting ≢ done
waiting≢done e = cc

-- A round before the rest of the loop.
goes_on :
    {s : Stream} (n : ℕ) (wire xs : List ℕ)
    (m : List ℕ → Stream → Result (Status × List ℕ × Stream))
    → Reads s xs
    → Sends (wire ++ take n xs) (drop n xs) (m (wire ++ take n xs) (advance s (min n (length xs))))
    → Sends wire xs (do (bytes, s') ← send_some s n; m (wire ++ bytes) s')
goes_on {s} n wire xs m r d = record {
  status = d.status;
  out = take n xs ++ d.out;
  unsent = d.unsent;
  stream = d.stream;
  returns =
      rw (send_some-Reads n xs r).0
        (d.returns ∙ ap (λ w. ok (d.status, w, d.stream)) (append_assoc wire (take n xs) d.out));
  in_order =
      append_assoc (take n xs) d.out d.unsent
      ∙ (ap (λ w. take n xs ++ w) d.in_order ∙ take-append-drop n xs);
  complete = d.complete;
}

send_loop-Sends :
    (events : List Outgoing) (wire xs : List ℕ) {s : Stream}
    → Reads s xs
    → Sends wire xs (send_loop events wire s)
unfolding send_loop
send_loop-Sends [] wire xs {s} r = elim (Bool-cases (length xs == 0)) [
  | inl e ↦ rw (check_end-Reads xs r, e) (stops done wire xs s (inr (nothing_left xs e)))
  | inr e ↦ rw (check_end-Reads xs r, e) (stops waiting wire xs s (inl waiting≢done))
]
send_loop-Sends (sent n ∷ events) wire xs {s} r = elim (Bool-cases (length xs == 0)) [
  | inl e ↦ rw (check_end-Reads xs r, e) (stops done wire xs s (inr (nothing_left xs e)))
  | inr e ↦
      rw (check_end-Reads xs r, e)
        (goes_on (suc n) wire xs (send_loop events) r (
          send_loop-Sends events (wire ++ take (suc n) xs) (drop (suc n) xs)
            (send_some-Reads (suc n) xs r).1))
]
send_loop-Sends (blocks ∷ events) wire xs {s} r = elim (Bool-cases (length xs == 0)) [
  | inl e ↦ rw (check_end-Reads xs r, e) (stops done wire xs s (inr (nothing_left xs e)))
  | inr e ↦
      rw (check_end-Reads xs r, e)
        (goes_on 0 wire xs (send_loop events) r
          (send_loop-Sends events (wire ++ take 0 xs) (drop 0 xs) (send_some-Reads 0 xs r).1))
]
send_loop-Sends (broken ∷ events) wire xs {s} r = elim (Bool-cases (length xs == 0)) [
  | inl e ↦ rw (check_end-Reads xs r, e) (stops done wire xs s (inr (nothing_left xs e)))
  | inr e ↦
      rw (check_end-Reads xs r, e, whole r, (in_uint8a-Reads (length xs) r (omega arith)).0)
        (stops null wire xs (advance s (length xs)) (inl null≢done))
]
  where
    whole : Reads s xs → s_remaining s ≡ length xs
    whole r = omega (arith, length-Reads r, r.inside, r.valid.wide, r.valid.mark)

-- Of a valid stream, the bytes up to its end go out in order and once each, whatever each call
-- takes and however often it would block: what is on the wire is a prefix of them at any time, and
-- all of them where the loop ends without a network error.
pub tcp_send-Sends :
    (events : List Outgoing) {s : Stream}
    → IsValid s
    → Sends [] (take s.end s.buf) (tcp_send false events s)
unfolding tcp_send
tcp_send-Sends events {s} v = rw (seek_start s) (
    unfold send_loop in
    send_loop-Sends events [] (take s.end s.buf) {s = record s { p = 0 }} (rewind-Reads v))

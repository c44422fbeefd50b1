-- ===== src/Tcp/Receive.antt =====
-- `tcp_recv` delivers the bytes that were asked for, however they arrive.
use rdesktop.Common.{ℕ, zero, suc, ◌+◌, ◌-◌, ◌^◌, ◌≤◌, ◌<◌, ◌≡◌, refl, sym, ◌∙◌, ap, arith}
use rdesktop.Common.{false, List, [], ◌∷◌, ◌++◌, Result, ok, leb, le→leb}
use rdesktop.Common.{length, take, drop, length-append, drop-append_le, drop-take, take-append_ge}
use rdesktop.Common.{drop-append_ge, take-append_le, length-take, Bool-cases, inl, inr, some, none}
use mathlib.Core.List.{append_assoc, append-nil}
use mathlib.Core.Path.{subst}
use rdesktop.Stream.{Stream, s_seek, s_check_rem, s_realloc, s_reset}
use rdesktop.Stream.Valid.{IsValid, s_reset-IsValid}
use rdesktop.Stream.Read.{Reads}
use rdesktop.Stream.Write.{Writes, put, poke-put, out_uint8a-Writes, s_realloc_lem, s_realloc-Reads}
use rdesktop.Tcp.{Tcp, Incoming, got, again, closed, fatal, leave, Status, done}
use rdesktop.Tcp.{tcp_recv, recv_loop, reserve, store, left_over}

-- `s` can be read as `xs`, and `n` more bytes fit behind them.
record Has (s : Stream) (xs : List ℕ) (n : ℕ) : Type 0 where
  reads : Reads s xs
  fits : s.end + n ≤ s.size

reserve-Has : {s : Stream} {xs : List ℕ} (n : ℕ) → Has s xs n → reserve s n ≡ ok s
unfolding reserve s_seek s_check_rem
reserve-Has {s} n h =
    ground
      (arith, h.fits, h.reads.inside, h.reads.valid.wide, h.reads.valid.mark, le→leb s.end s.end)

-- The stream after `bs` is stored behind its data.
abbrev stored : Stream → List ℕ → Stream
stored s bs = record (put (record s { p = s.end }) bs) { p = s.p; end = s.end + length bs }

store-Has :
    {s : Stream} {xs : List ℕ} (bs : List ℕ) {n : ℕ}
    → Has s xs (length bs + n)
    → (store s bs ≡ ok (stored s bs)) × Has (stored s bs) (xs ++ bs) n
unfolding store
store-Has {s} {xs} bs {n} h =
    let v = h.reads.valid in
    let at_end : Writes (record s { p = s.end }) (take s.end s.buf) (length bs + n) = record {
      valid = record { room = v.room; cursor = v.mark; mark = v.mark; wide = v.wide };
      before = refl;
      fits = h.fits;
    } in
    let step = out_uint8a-Writes bs {n = n} at_end in
    (
      rw (poke-put {s = record s { p = s.end }} bs at_end.valid (omega (arith, h.fits))) refl,
      record {
        reads = record {
          valid = record {
            room = step.1.valid.room;
            cursor = v.cursor;
            mark = omega (arith, h.fits);
            wide = v.wide;
          };
          inside = omega (arith, h.reads.inside);
          rest =
              sym (drop-take s.p (s.end + length bs) (stored s bs).buf)
              ∙ (ap (drop s.p) step.1.before
                  ∙ (drop-append_le s.p (take s.end s.buf) bs
                        (omega (arith, length-take {0} s.end s.buf, v.room, v.mark, h.reads.inside))
                      ∙ ap (λ t. t ++ bs) (drop-take s.p s.end s.buf ∙ h.reads.rest)));
        };
        fits = omega (arith, h.fits);
      },
    )

-- The bytes that the events bring.
abbrev pub payload : List Incoming → List ℕ
payload [] = []
payload (got b bs ∷ events) = b ∷ (bs ++ payload events)
payload (again ∷ events) = payload events
payload (closed ∷ events) = []
payload (fatal ∷ events) = []
payload (leave ∷ events) = []

-- The connection brings bytes, in any pieces, and interruptions, and nothing else.
abbrev pub Flows : List Incoming → Type 0
Flows [] = Unit
Flows (got b bs ∷ events) = Flows events
Flows (again ∷ events) = Flows events
Flows (closed ∷ events) = ⊥
Flows (fatal ∷ events) = ⊥
Flows (leave ∷ events) = ⊥

-- `m` ends with all `n` bytes of `bytes` behind `xs`, from the offset `start` on, and what follows
-- them is still to come.
pub record Delivers (t : Tcp) (start : ℕ) (xs bytes : List ℕ) (n : ℕ)
    (m : Result (Status × Stream × Tcp)) : Type 0 where
  pub stream : Stream
  pub rest : List Incoming
  pub returns : m ≡ ok (done, stream, record t { g_in = stream; incoming = rest })
  pub from_start : stream.p ≡ start
  pub reads : Reads stream (xs ++ take n bytes)
  pub to_come : payload rest ≡ drop n bytes
  pub flows : Flows rest

left_over_lem :
    (bs : List ℕ) (events : List Incoming)
    → Flows events
    → (payload (left_over bs events) ≡ bs ++ payload events) × Flows (left_over bs events)
unfolding left_over
left_over_lem [] events f = (refl, f)
left_over_lem (b ∷ bs) events f = (refl, f)

recv_loop-Delivers :
    (t : Tcp) (start : ℕ) (events : List Incoming) (n : ℕ) {s : Stream} {xs : List ℕ}
    → s.p ≡ start
    → Flows events
    → n ≤ length (payload events)
    → Has s xs n
    → Delivers t start xs (payload events) n (recv_loop t events n s)
unfolding recv_loop
recv_loop-Delivers t start events zero {s} {xs} o f h r = record {
  stream = s;
  rest = events;
  returns = refl;
  from_start = o;
  reads = rw (append-nil xs) r.reads;
  to_come = refl;
  flows = f;
}
recv_loop-Delivers t start [] (suc n) o f h r = absurd (omega arith)
recv_loop-Delivers t start (again ∷ events) (suc n) o f h r =
    rw (reserve-Has (suc n) r) (recv_loop-Delivers t start events (suc n) o f h r)
recv_loop-Delivers t start (closed ∷ events) (suc n) o f h r = absurd f
recv_loop-Delivers t start (fatal ∷ events) (suc n) o f h r = absurd f
recv_loop-Delivers t start (leave ∷ events) (suc n) o f h r = absurd f
recv_loop-Delivers t start (got b bs ∷ events) (suc n) {s} {xs} o f h r =
    elim (Bool-cases (leb (length bs) n)) [
      | inl all ↦
          let step =
            store-Has (b ∷ bs) {n = n - length bs}
              (record { reads = r.reads; fits = ground (arith, r.fits) }) in
          let d =
            recv_loop-Delivers t start events (n - length bs) o f
              (ground (arith, length-append bs (payload events))) step.1 in
          record {
            stream = d.stream;
            rest = d.rest;
            returns = rw (all, reserve-Has (suc n) r, step.0) d.returns;
            from_start = d.from_start;
            reads =
                rw
                  (
                    append_assoc xs (b ∷ bs) (take (n - length bs) (payload events)),
                    ← take-append_ge n bs (payload events) (ground arith),
                  )
                  at d.reads;
            to_come = d.to_come ∙ sym (drop-append_ge n bs (payload events) (ground arith));
            flows = d.flows;
          }
      | inr part ↦
          let step =
            store-Has (b ∷ take n bs) {n = 0}
              (record { reads = r.reads; fits = ground (arith, r.fits, length-take n bs) }) in
          let more = left_over_lem (drop n bs) events f in
          record {
            stream = stored s (b ∷ take n bs);
            rest = left_over (drop n bs) events;
            returns = rw (part, reserve-Has (suc n) r, step.0) refl;
            from_start = o;
            reads =
                subst (λ w. Reads (stored s (b ∷ take n bs)) (xs ++ (b ∷ w)))
                  (sym (take-append_le n bs (payload events) (ground arith))) step.1.reads;
            to_come = more.0 ∙ sym (drop-append_le n bs (payload events) (ground arith));
            flows = more.1;
          }
    ]

grown-Has :
    {s : Stream} {xs : List ℕ} (n : ℕ)
    → Reads s xs
    → s.end + n < 2 ^ 32
    → Has (s_realloc s (s.end + n)) xs n
grown-Has {s} n r h = record {
  reads = s_realloc-Reads (s.end + n) r h;
  fits = let kept = s_realloc_lem (s.end + n) r.valid h in omega (arith, kept.2, kept.4);
}

anew-Has : {s : Stream} (n : ℕ) → IsValid s → n < 2 ^ 32 → Has (s_reset (s_realloc s n)) [] n
anew-Has {s} n v h =
    let kept = s_realloc_lem n v h in
    let valid = s_reset-IsValid kept.6 in
    record {
      reads = record {
        valid = valid;
        inside = unfold s_reset in omega arith;
        rest = unfold s_reset in refl;
      };
      fits = unfold s_reset in omega (arith, kept.4);
    }

-- On a connection that flows and brings at least `n` bytes, `tcp_recv` returns with exactly the
-- next `n`, in whatever pieces they come: as the whole stream where it is called with NULL,
-- behind the unread bytes of a stream that is passed. What comes after them stays to come.
pub tcp_recv-Delivers :
    (t : Tcp) (n : ℕ) {s : Stream} (xs : List ℕ)
    → t.network_error ≡ false
    → Flows t.incoming
    → n ≤ length (payload t.incoming)
    → n < 2 ^ 32
    → IsValid t.g_in
    → Reads s xs
    → s.end + n < 2 ^ 32
    → Delivers t 0 [] (payload t.incoming) n (tcp_recv none n t)
      × Delivers t s.p xs (payload t.incoming) n (tcp_recv (some s) n t)
unfolding tcp_recv
tcp_recv-Delivers t n {s} xs up f h small v r fits = (
  simp up (
      unfold recv_loop in
      recv_loop-Delivers t 0 t.incoming n (unfold s_reset in refl) f h (anew-Has n v small)),
  simp up (
      unfold recv_loop in
      recv_loop-Delivers t s.p t.incoming n (s_realloc_lem (s.end + n) r.valid fits).1 f h
        (grown-Has n r fits)),
)

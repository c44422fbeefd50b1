-- ===== src/Fastpath/Fragments.antt =====
-- The fragments of an update: how they are joined.
use rdesktop.Common.{
  ℕ, ◌+◌, ◌-◌, ◌≤◌, ◌≡◌, ◌≢◌, refl, sym, ◌∙◌, ap, arith, true, false, List, [], ◌∷◌, ◌++◌,
}
use rdesktop.Common.{
  Result, ok, exit, ◌>>=◌, some, length, length-append, ◌==◌, le→leb, take-append_self,
}
use mathlib.Core.List.{append_assoc}
use mathlib.Core.Path.{subst}
use rdesktop.Stream.{Stream, out_uint8stream, s_reset, s_mark_end, s_seek}
use rdesktop.Stream.Valid.{IsValid, s_reset-IsValid}
use rdesktop.Stream.Read.{Reads, advance, check_rem-Reads, peek-lem}
use rdesktop.Stream.Write.{Writes, put, out_uint8a-Writes, mark_end-seek-Reads}
use rdesktop.Fastpath.{
  Handlers, Fastpath, fragment, join, allocated, set_assembled, process_ts_fp_update_by_code,
}

-- The first bytes that are left of a stream go behind what another one holds.
bytes-Writes :
    {into s : Stream} {ws : List ℕ} (xs after : List ℕ) (m : ℕ)
    → Writes into ws (length xs + m)
    → Reads s (xs ++ after)
    → (out_uint8stream into s (length xs) ≡ ok (put into xs, advance s (length xs)))
      × Writes (put into xs) (ws ++ xs) m
unfolding out_uint8stream
bytes-Writes {into} {s} xs after m w r =
    let n = length xs in
    let enough =
      check_rem-Reads n r
      ∙ le→leb n (length (xs ++ after)) (omega (arith, length-append xs after)) in
    let step = out_uint8a-Writes xs {n = m} w in
    (
      rw
          (
            enough,
            peek-lem n r (omega (arith, length-append xs after)),
            take-append_self xs after,
            step.0,
          )
          refl,
      step.1,
    )

module _ {U : Type 0} (h : Handlers U) (code : ℕ) where
  -- The fragments of one code in their order, each with `frag / 16`, its length and its stream.
  unfoldable pub run_fragments : List (ℕ × ℕ × Stream) → Fastpath U → Result (Fastpath U)
  run_fragments [] f = ok f
  run_fragments ((frag, length_, s) ∷ rest) f = do
    (ts, f') ← fragment h code frag length_ s f
    run_fragments rest f'

  -- The fragments after the first, and the bytes they carry.
  pub data Tail : List (ℕ × ℕ × Stream) → List ℕ → Type 0 where
    last :
        (s : Stream) (xs after : List ℕ) → Reads s (xs ++ after) → Tail ((1, length xs, s) ∷ []) xs
    more :
        (s : Stream) (xs after : List ℕ) (rest : List (ℕ × ℕ × Stream)) (ys : List ℕ)
        → Reads s (xs ++ after)
        → Tail rest ys
        → Tail ((3, length xs, s) ∷ rest) (xs ++ ys)

  found : (s : Stream) (f : Fastpath U) → (set_assembled h code s f).assembled code ≡ some s
  found s f = let e : (code == code) ≡ true = ground arith in rw e refl

  others :
      (s : Stream) (f : Fastpath U) (c : ℕ)
      → c ≢ code
      → (set_assembled h code s f).assembled c ≡ f.assembled c
  others s f c d = let e : (c == code) ≡ false = ground arith in rw e refl

  -- `f'` differs from `f` in the buffer of the code only.
  pub record SameBut (f f' : Fastpath U) : Type 0 where
    pub comp : f'.comp ≡ f.comp
    pub ns : f'.ns ≡ f.ns
    pub others : (c : ℕ) → c ≢ code → f'.assembled c ≡ f.assembled c

  -- The end of a run: the joined data are handled once, as `t`.
  abbrev pub handled : Stream → (ui : U) → Fastpath U → Result (Fastpath U)
  handled t ui f' =
      process_ts_fp_update_by_code h t code ui
      >>= (λ r. ok (set_assembled h code r.0 (record f' { ui = r.1 })))

  abbrev Joined : List (ℕ × ℕ × Stream) → Fastpath U → List ℕ → Type 0
  Joined cs f bytes =
      (t : Stream) × (f' : Fastpath U) × ((run_fragments cs f ≡ handled t f.ui f')
        × Reads t bytes
        × SameBut f f')

  then_drop :
      {A : Type 0} (m : Result A) (t : Stream) (g : A → Fastpath U)
      → let paired : A → Result (Stream × Fastpath U) = λ a. ok (t, g a) in
        ((m >>= paired) >>= (λ x. ok x.1)) ≡ (m >>= (λ a. ok (g a)))
  then_drop (ok a) t g = refl
  then_drop (exit reason) t g = refl

  last_lem :
      (f : Fastpath U) (b j s ts t : Stream) (n : ℕ)
      → f.assembled code ≡ some b
      → out_uint8stream b s n ≡ ok (j, ts)
      → s_seek (s_mark_end j) 0 ≡ ok t
      → run_fragments ((1, n, s) ∷ []) f ≡ handled t f.ui f
  unfolding run_fragments fragment
  last_lem f b j s ts t n held e back =
      subst (λ o. (join h (allocated h o) code 1 n s f >>= (λ x. ok x.1)) ≡ handled t f.ui f)
        (sym held)
        (ap (λ m. m >>= (λ x. ok x.1)) (joined b j s ts t e back)
          ∙ then_drop (process_ts_fp_update_by_code h t code f.ui) ts
              (λ r. set_assembled h code r.0 (record f { ui = r.1 })))
    where
      joined :
          (b j s ts t : Stream)
          → out_uint8stream b s n ≡ ok (j, ts)
          → s_seek (s_mark_end j) 0 ≡ ok t
          → join h b code 1 n s f ≡ (
              process_ts_fp_update_by_code h t code f.ui
              >>= (λ r. ok (ts, set_assembled h code r.0 (record f { ui = r.1 }))))
      joined b j s ts t e back = unfold join in rw (e, back) refl

  next_lem :
      (f : Fastpath U) (b j s ts : Stream) (n : ℕ) (rest : List (ℕ × ℕ × Stream))
      → f.assembled code ≡ some b
      → out_uint8stream b s n ≡ ok (j, ts)
      → run_fragments ((3, n, s) ∷ rest) f ≡ run_fragments rest (set_assembled h code j f)
  unfolding run_fragments fragment join
  next_lem f b j s ts n rest held e =
      subst
        (λ o.
          (join h (allocated h o) code 3 n s f >>= (λ x. run_fragments rest x.1))
          ≡ run_fragments rest (set_assembled h code j f))
        (sym held) (rw e refl)

  first_lem :
      (f : Fastpath U) (j s ts : Stream) (n : ℕ) (rest : List (ℕ × ℕ × Stream))
      → out_uint8stream (s_reset (allocated h (f.assembled code))) s n ≡ ok (j, ts)
      → run_fragments ((2, n, s) ∷ rest) f ≡ run_fragments rest (set_assembled h code j f)
  unfolding run_fragments fragment join
  first_lem f j s ts n rest e = rw e refl

  Tail-Joined :
      (f : Fastpath U) (b : Stream) {ws : List ℕ} {cs : List (ℕ × ℕ × Stream)} {ys : List ℕ} (m : ℕ)
      → f.assembled code ≡ some b
      → Writes b ws (length ys + m)
      → Tail cs ys
      → Joined cs f (ws ++ ys)
  Tail-Joined f b {ws} m held w (last s xs after r) =
      let (e1, w1) = bytes-Writes xs after m w r in
      let back = mark_end-seek-Reads w1 in
      (
        record (s_mark_end (put b xs)) { p = 0 },
        f,
        (
          last_lem f b (put b xs) s (advance s (length xs)) _ (length xs) held e1 back.0,
          back.1,
          record { comp = refl; ns = refl; others = λ c d. refl },
        ),
      )
  Tail-Joined f b {ws} m held w (more s xs after rest ys r tail) =
      let (e1, w1) =
        bytes-Writes xs after (length ys + m)
          (record {
            valid = w.valid;
            before = w.before;
            fits = omega (arith, w.fits, length-append xs ys);
          })
          r in
      let f1 = set_assembled h code (put b xs) f in
      let (t, f', (e2, reads, same)) = Tail-Joined f1 (put b xs) m (found (put b xs) f) w1 tail in
      (
        t,
        f',
        (
          next_lem f b (put b xs) s (advance s (length xs)) (length xs) rest held e1 ∙ e2,
          rw (append_assoc ws xs ys) at reads,
          record {
            comp = same.comp;
            ns = same.ns;
            others = λ c d. same.others c d ∙ others (put b xs) f c d;
          },
        ),
      )

  -- The fragments of an update of one code: the first with its mark, the last with its mark, and others
  -- between them, each with a length that is that of its data. Where the buffer of the code, or a new
  -- one if there is none, has room for the data of all, they are joined in their order whatever the
  -- buffer held, and handled exactly once; the buffers of the other codes and the decompression stay
  -- as they are.
  pub run_fragments-joined :
      (f : Fastpath U) {s : Stream} (xs after : List ℕ) {ys : List ℕ} {cs : List (ℕ × ℕ × Stream)}
      → IsValid (allocated h (f.assembled code))
      → length xs + length ys ≤ (allocated h (f.assembled code)).size
      → Reads s (xs ++ after)
      → Tail cs ys
      → (t : Stream) × (f' : Fastpath U) × ((run_fragments ((2, length xs, s) ∷ cs) f
            ≡ handled t f.ui f')
          × Reads t (xs ++ ys)
          × SameBut f f')
  run_fragments-joined f {s} xs after {ys} {cs} v fits r tail =
      let into = allocated h (f.assembled code) in
      let m = into.size - length xs - length ys in
      let fresh : Writes (s_reset into) [] (length xs + (length ys + m)) = record {
        valid = s_reset-IsValid v;
        before = unfold s_reset in refl;
        fits = unfold s_reset in omega (arith, fits);
      } in
      let (e1, w1) = bytes-Writes xs after (length ys + m) fresh r in
      let j = put (s_reset into) xs in
      let (t, f', (e2, reads, same)) =
        Tail-Joined (set_assembled h code j f) j m (found j f) w1 tail in
      (
        t,
        f',
        (
          first_lem f j s (advance s (length xs)) (length xs) cs e1 ∙ e2,
          reads,
          record {
            comp = same.comp;
            ns = same.ns;
            others = λ c d. same.others c d ∙ others j f c d;
          },
        ),
      )

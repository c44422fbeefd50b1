-- ===== src/Mppc/Expand.antt =====
-- `mppc_expand` as its callers see it.
use rdesktop.Common.{ℕ, ◌+◌, ◌≤◌, ◌<◌, ◌≡◌, refl, arith, ◌⊎◌, inl, inr, ◌==◌}
use rdesktop.Common.{Bool, true, false, List, length, Bool-cases, some, has_bit}
use rdesktop.Common.{◌≢◌}
use rdesktop.Mppc.{
  mppc_expand, expand_compressed, returned, Rdpcomp, Expanded, reset, loop, start, fuel_for,
  dict_size,
}
use rdesktop.Mppc.{End, finished, failed, escaped, out_of_fuel}
use rdesktop.Mppc.Round.{Ends, loop-Ends}

-- What the loop is entered with.
reset_roff : (ctype : ℕ) (c : Rdpcomp) → c.roff ≤ dict_size → (reset ctype c).roff ≤ dict_size
unfolding reset
reset_roff ctype c h = ground arith

-- What the output of a decompression is to the history `c` that it started from.
pub record IsOutput (c : Rdpcomp) (e : Expanded) : Type 0 where
  pub from : e.roff ≡ c.roff
  pub in_history : e.roff + e.rlen ≤ dict_size
  pub before : (j : ℕ) → j < e.roff → e.comp.hist j ≡ c.hist j
  pub ends :
      ((e.success ≡ true) × (e.comp.roff ≡ e.roff + e.rlen))
      ⊎ ((e.success ≡ false) × (e.comp.roff ≡ c.roff) × (e.rlen ≡ 0))

returned-IsOutput :
    (c : Rdpcomp) (end : End)
    → c.roff ≤ dict_size
    → Ends ⊥ (start c) end
    → (e : Expanded) × (returned c end ≡ some e) × IsOutput c e
unfolding returned
returned-IsOutput c (finished w) h e = (
  _,
  refl,
  record {
    from = refl;
    in_history = omega (arith, e.grows, e.inside);
    before = λ j g. e.outside j (inl g);
    ends = inl (refl, omega (arith, e.grows));
  },
)
returned-IsOutput c (failed dict) h e = (
  _,
  refl,
  record { from = refl; in_history = omega arith; before = e; ends = inr (refl, refl, refl) },
)
returned-IsOutput c escaped h e = absurd e
returned-IsOutput c out_of_fuel h e = absurd e

expand_compressed-IsOutput :
    (data_ : List ℕ) (clen : ℕ) (c : Rdpcomp)
    → clen ≤ length data_
    → c.roff ≤ dict_size
    → (e : Expanded) × (expand_compressed data_ clen false c ≡ some e) × IsOutput c e
unfolding expand_compressed
expand_compressed-IsOutput data_ clen c fits h = elim (Bool-cases (clen == 0)) [
  | inl nothing ↦ (
    record { success = true; roff = c.roff; rlen = 0; comp = c },
    rw nothing refl,
    record {
      from = refl;
      in_history = omega arith;
      before = λ j g. refl;
      ends = inl (refl, omega arith);
    },
  )
  | inr something ↦ rw something (
      unfold returned loop in
      returned-IsOutput c (loop data_ clen false (fuel_for clen) (start c)) h
        (loop-Ends ⊥ data_ clen fits false (fuel_for clen) (start c) (inl refl) h (omega arith)))
]

-- For data that has the length given and a history offset of at most 65536, decompression in the 8K
-- form returns, neither reads nor writes outside its arrays, and leaves the output inside the history,
-- with what stood before it unchanged, on an error too: on success the next call goes on behind the
-- output, on an error where this one began.
pub mppc_expand_small :
    (data_ : List ℕ) (clen ctype : ℕ) (c : Rdpcomp)
    → clen ≤ length data_
    → c.roff ≤ dict_size
    → has_bit ctype 0x20 ≡ true
    → has_bit ctype 0x01 ≡ false
    → (e : Expanded) × (mppc_expand data_ clen ctype c ≡ some e) × IsOutput (reset ctype c) e
unfolding mppc_expand
mppc_expand_small data_ clen ctype c fits h compressed small =
    rw (compressed, small)
      (unfold reset expand_compressed in
        expand_compressed-IsOutput data_ clen (reset ctype c) fits (reset_roff ctype c h))

-- In either form the fuel is enough: the loop ends, after at most one round for each bit.
pub loop_ends :
    (data_ : List ℕ) (clen : ℕ) (big : Bool) (c : Rdpcomp)
    → clen ≤ length data_
    → c.roff ≤ dict_size
    → loop data_ clen big (fuel_for clen) (start c) ≢ out_of_fuel
loop_ends data_ clen big c fits h stuck =
    impossible (loop data_ clen big (fuel_for clen) (start c))
      (loop-Ends (Unit {0}) data_ clen fits big (fuel_for clen) (start c) (inr tt) h (omega arith))
      stuck
  where
    impossible : (e : End) → Ends (Unit {0}) (start c) e → e ≡ out_of_fuel → ⊥
    impossible (finished w) ends same = cc
    impossible (failed dict) ends same = cc
    impossible escaped ends same = cc
    impossible out_of_fuel ends same = ends

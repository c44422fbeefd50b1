-- ===== src/Mppc/Tests.antt =====
-- Small packets, and the theorems at them.
use rdesktop.Common.{ℕ, ◌≡◌, ◌≢◌, refl, List, [], ◌∷◌, Option, none, some, arith, true}
use rdesktop.Mppc.{mppc_expand, Rdpcomp, Expanded, wild, copy_match, loop}
use rdesktop.Mppc.{round, fuel_for, start, out_of_fuel, reset}
use rdesktop.Mppc.Copy.{match_before_start}
use rdesktop.Mppc.Expand.{IsOutput, mppc_expand_small, loop_ends}

abbrev empty : Rdpcomp
empty = record { roff = 0; hist = λ _. 0 }

show : Option Expanded → List ℕ
show none = []
show (some e) = e.rlen ∷ e.roff ∷ e.comp.hist 0 ∷ e.comp.hist 1 ∷ e.comp.hist 2 ∷ e.comp.hist 3 ∷ []

-- An `A`, and a match of length 3 at offset 1.
four_times :
    show (mppc_expand (0x41 ∷ 0xf0 ∷ 0x40 ∷ []) 3 0x20 empty) ≡ 4 ∷ 0 ∷ 65 ∷ 65 ∷ 65 ∷ 65 ∷ []
unfolding show mppc_expand round
four_times = refl

-- A literal that breaks off is an error: nothing is reported.
broken_off :
    show (mppc_expand (0x41 ∷ 0x42 ∷ 0x80 ∷ []) 3 0x20 empty) ≡ 0 ∷ 0 ∷ 65 ∷ 66 ∷ 0 ∷ 0 ∷ []
unfolding show mppc_expand round
broken_off = refl

-- A first match at offset 1 in the 64K form reads outside the history.
reads_outside : show (mppc_expand (0xf8 ∷ 0x20 ∷ []) 2 0x21 empty) ≡ []
unfolding show mppc_expand round
reads_outside = refl

mppc_expand_small_example :
    (e : Expanded) × (mppc_expand (0x41 ∷ 0xf0 ∷ 0x40 ∷ []) 3 0x60 empty ≡ some e)
    × IsOutput (reset 0x60 empty) e
mppc_expand_small_example =
    mppc_expand_small (0x41 ∷ 0xf0 ∷ 0x40 ∷ []) 3 0x60 empty (omega arith) (omega arith) refl refl

loop_ends_example : loop (0xf8 ∷ 0x20 ∷ []) 2 true (fuel_for 2) (start empty) ≢ out_of_fuel
loop_ends_example = loop_ends (0xf8 ∷ 0x20 ∷ []) 2 true empty (omega arith) (omega arith)

match_before_start_example : copy_match true 1 3 (start empty) ≡ wild
match_before_start_example =
    match_before_start 1 3 (start empty) (omega arith) (omega arith) (omega arith) (omega arith)

-- ===== src/Fastpath/Tests.antt =====
-- A run of three fragments.
use rdesktop.Common.{ℕ, ◌+◌, ◌≡◌, refl, arith, List, [], ◌∷◌, ◌++◌, ok, none}
use rdesktop.Stream.{Stream, s_alloc}
use rdesktop.Stream.Valid.{s_alloc-IsValid}
use rdesktop.Stream.Read.{Reads}
use rdesktop.Fastpath.{Handlers, Fastpath}
use rdesktop.Fastpath.Fragments.{run_fragments, last, more, handled, SameBut, run_fragments-joined}

-- Handlers that count their calls.
abbrev counting : Handlers ℕ
counting = record {
  process_orders = λ count s u. ok (s, u + 1);
  process_bitmap_updates = λ s u. ok (s, u + 1);
  process_palette = λ s u. ok (s, u + 1);
  ui_set_null_cursor = λ u. u + 1;
  set_default_pointer = λ u. u + 1;
  ui_move_pointer = λ x y u. u + 1;
  process_colour_pointer_pdu = λ s u. ok (s, u + 1);
  process_cached_pointer_pdu = λ s u. ok (s, u + 1);
  process_new_pointer_pdu = λ s u. ok (s, u + 1);
  ui_begin_update = λ u. u;
  ui_end_update = λ u. u;
}

abbrev before : Fastpath ℕ
before = record {
  comp = record { roff = 0; hist = λ _. 0 };
  ns = record { buf = []; p = 0; end = 0; size = 0; hdr = λ _. none };
  assembled = λ _. none;
  ui = 0;
}

-- A stream at the data of an update of two bytes, with one more byte behind them.
abbrev from : ℕ → ℕ → Stream
from a b = record { buf = 0 ∷ a ∷ b ∷ 9 ∷ []; p = 1; end = 4; size = 4; hdr = λ _. none }

from-Reads : (a b : ℕ) → Reads (from a b) ((a ∷ b ∷ []) ++ (9 ∷ []))
from-Reads a b = record {
  valid = record { room = refl; cursor = omega arith; mark = omega arith; wide = omega arith };
  inside = omega arith;
  rest = refl;
}

abbrev tail : List (ℕ × ℕ × Stream)
tail = (3, 2, from 3 4) ∷ (1, 2, from 5 6) ∷ []

run_fragments-joined_example :
    (t : Stream) × (f' : Fastpath ℕ) × ((run_fragments counting 0 ((2, 2, from 1 2) ∷ tail) before
        ≡ handled counting 0 t 0 f')
      × Reads t (1 ∷ 2 ∷ 3 ∷ 4 ∷ 5 ∷ 6 ∷ [])
      × SameBut counting 0 before f')
run_fragments-joined_example =
    run_fragments-joined counting 0 before (1 ∷ 2 ∷ []) (9 ∷ [])
      (s_alloc-IsValid 65535 (omega arith)) (unfold s_alloc in omega arith) (from-Reads 1 2)
      (more (from 3 4) (3 ∷ 4 ∷ []) (9 ∷ []) _ (5 ∷ 6 ∷ []) (from-Reads 3 4)
        (last (from 5 6) (5 ∷ 6 ∷ []) (9 ∷ []) (from-Reads 5 6)))

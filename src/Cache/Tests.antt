-- ===== src/Cache/Tests.antt =====
-- Runs of the caches at small inputs.
use rdesktop.Common.{ℕ, ◌+◌, ◌*◌, ◌<◌, ◌≤◌, ◌≡◌, ◌≢◌, refl, arith, true, false}
use rdesktop.Common.{[], ◌∷◌, none, some, length, ◌==◌, ok, ◌⊎◌}
use rdesktop.Cache.{
  c2_cells, BmpCache, touch, update, cache_bump_bitmap, cache_put_bitmap, cache_get_bitmap,
}
use rdesktop.Cache.{cache_save_state, held, cache_rebuild_bmpcache_linked_list}
use rdesktop.Cache.Chain.{IsOff}
use rdesktop.Cache.Insert.{IsLru}
use rdesktop.Cache.Bump.{bump-moves}
use rdesktop.Cache.Lru.{IsCache, most_recent}
use rdesktop.Cache.Lru.Bound.{Holds}
use rdesktop.Cache.Lru.Put.{put-refines}
use rdesktop.Cache.Lru.Get.{get-moves, get-loads}
use rdesktop.Cache.Rebuild.{upwards, cache_rebuild-links, cache_save_state-stamps}
use rdesktop.Cache.Desktop.{cache_put_desktop, cache_get_desktop, cache_put_desktop-get}
use rdesktop.Cache.Desktop.{Memory}
use rdesktop.Cache.Resources.{Resources, FontGlyph}

-- The entries 5, 7 and 9, of which 9 is the most recent one.
abbrev three : BmpCache
three = record {
  persistent = true;
  bitmap = update (update (update (λ _. 0) 5 50) 7 70) 9 90;
  previous = update (update (λ _. none) 7 (some 5)) 9 (some 7);
  next = update (update (λ _. none) 5 (some 7)) 7 (some 9);
  lru = some 5;
  mru = some 9;
  count = 3;
  volatile_bc = 0;
  volatile_width = 0;
  volatile_height = 0;
  calls = [];
}

ne : (m n : ℕ) → (m == n) ≡ false → m ≢ n
ne m n h = ground arith

three-IsLru : IsLru three (5 ∷ 7 ∷ 9 ∷ [])
three-IsLru = record {
  lru = refl;
  mru = refl;
  chain = (refl, refl, (refl, refl, (refl, refl, tt)));
  simple = ((ne 7 5 refl, (ne 9 5 refl, tt)), ((ne 9 7 refl, tt), (tt, tt)));
  counted = refl;
  small = omega arith;
}

three-IsCache : IsCache three (5 ∷ 7 ∷ 9 ∷ [])
three-IsCache = record {
  on = refl;
  list = three-IsLru;
  full = (ne 50 0 refl, (ne 70 0 refl, (ne 90 0 refl, tt)));
  empty = λ j off. nowhere j off.0 off.1.0 off.1.1.0;
}
  where
    nowhere : (j : ℕ) → 5 ≢ j → 7 ≢ j → 9 ≢ j → three.bitmap j ≡ 0
    nowhere j h5 h7 h9 =
        let n5 : (5 == j) ≡ false = ground arith in
        let n7 : (7 == j) ≡ false = ground arith in
        let n9 : (9 == j) ≡ false = ground arith in rw (n5, n7, n9) refl

bump-moves_example : IsLru (cache_bump_bitmap 5 (some 1) three) (7 ∷ 5 ∷ 9 ∷ [])
bump-moves_example = bump-moves (some 1) 5 [] (7 ∷ 9 ∷ []) refl three-IsLru

eight-IsOff : IsOff 8 (5 ∷ 7 ∷ 9 ∷ [])
eight-IsOff = (ne 5 8 refl, (ne 7 8 refl, (ne 9 8 refl, tt)))

put-refines_example :
    (c' : BmpCache) × ((cache_put_bitmap 7 71 three ≡ ok c')
      × IsCache c' (most_recent 7 (5 ∷ 7 ∷ 9 ∷ []))
      × Holds (update three.bitmap 7 71) c' (most_recent 7 (5 ∷ 7 ∷ 9 ∷ []))
      × (length (most_recent 7 (5 ∷ 7 ∷ 9 ∷ [])) ≤ c2_cells))
put-refines_example =
    put-refines 7 71 (5 ∷ 7 ∷ 9 ∷ []) three-IsCache (omega arith) (omega arith) (ne 71 0 refl)

get-moves_example :
    (c' : BmpCache) × ((cache_get_bitmap true (λ _. 0) 7 three ≡ ok (70, c'))
      × IsCache c' (5 ∷ 9 ∷ 7 ∷ [])
      × (c'.bitmap ≡ three.bitmap))
get-moves_example = get-moves true (λ _. 0) three 7 (5 ∷ []) (9 ∷ []) three-IsCache (omega arith)

get-loads_example :
    (c' : BmpCache) × ((cache_get_bitmap true (λ _. 80) 8 three ≡ ok (80, c'))
      × IsCache c' (most_recent 8 (5 ∷ 7 ∷ 9 ∷ []))
      × Holds (update three.bitmap 8 80) c' (most_recent 8 (5 ∷ 7 ∷ 9 ∷ [])))
get-loads_example =
    get-loads (λ _. 80) three 8 (5 ∷ 7 ∷ 9 ∷ []) three-IsCache (omega arith) refl (omega arith)
      (ne 80 0 refl)

cache_save_state-stamps_example :
    cache_save_state 2 three ≡ ok (touch 5 3 ∷ touch 7 4 ∷ touch 9 5 ∷ [])
cache_save_state-stamps_example =
    cache_save_state-stamps 2 three (5 ∷ 7 ∷ 9 ∷ []) refl three-IsLru (omega arith)

cache_rebuild-links_example :
    (c' : BmpCache) × ((cache_rebuild_bmpcache_linked_list (7 ∷ 6 ∷ 5 ∷ 9 ∷ []) three ≡ ok c')
      × IsLru c' (upwards (held three.bitmap (7 ∷ 6 ∷ 5 ∷ 9 ∷ [])) [])
      × (c'.bitmap ≡ three.bitmap))
cache_rebuild-links_example =
    cache_rebuild-links three (7 ∷ 6 ∷ 5 ∷ 9 ∷ [])
      (
        (ne 6 7 refl, (ne 5 7 refl, (ne 9 7 refl, tt))),
        ((ne 5 6 refl, (ne 9 6 refl, tt)), ((ne 9 5 refl, tt), (tt, tt))),
      )
      held_three (omega arith)
  where
    held_three : length (held three.bitmap (7 ∷ 6 ∷ 5 ∷ 9 ∷ [])) ≡ 3
    held_three = unfold held in refl

-- An image of two rows of three bytes, each row with one more byte that is left out.
abbrev image : Memory
image j = j + 100

cache_put_desktop-get_example :
    (cache' : Memory) × ((cache_put_desktop 10 3 2 4 1 image (λ _. 0) ≡ ok cache')
      × (cache_get_desktop 10 3 2 1 ≡ ok (some 10))
      × ((x y : ℕ) → x < 3 → y < 2 → cache' (10 + y * 3 + x) ≡ y * 4 + x + 100)
      × ((j : ℕ) → (j < 10) ⊎ (16 ≤ j) → cache' j ≡ 0))
cache_put_desktop-get_example =
    cache_put_desktop-get 10 3 2 4 1 image (λ _. 0) (omega arith) (omega arith)

abbrev letter : FontGlyph
letter = record { offset = 0; baseline = 9; width = 8; height = 12; pixmap = 33 }

abbrev resources : Resources
resources = record {
  fonts = λ _ _. letter;
  texts = λ _. record { bytes = none; size = 0 };
  cursors = λ _. 0;
  brushes = λ _ _. record { colour_code = 0; data_size = 0; bytes = 0 };
  released = [];
}

abbrev other_letter : FontGlyph
other_letter = record letter { pixmap = 34 }

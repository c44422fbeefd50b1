-- ===== src/Cache/Lru/Get.antt =====
-- `cache_get_bitmap` on the bounded list of recent use.
use rdesktop.Common.{ℕ, ◌<◌, ◌≤◌, ◌≡◌, ◌≢◌, refl, sym, ◌∙◌, ap, arith, Bool, true, false}
use rdesktop.Common.{List, [], ◌∷◌, ◌++◌, some, All, length, not, if◌then◌else◌, ◌==◌}
use rdesktop.Common.{
  Result, ok, Bool-cases, inl, inr, take, drop, leb, ltb, take-append-drop, ◌>>=◌, ◌||◌,
}
use mathlib.Core.Path.{subst}
use rdesktop.Cache.{
  BmpCache, update, cache_bump_bitmap, num_elements, num_pstcells, c2_cells, bump_count, fetch,
}
use rdesktop.Cache.{cache_put_bitmap, pstcache_load_bitmap, cache_get_bitmap}
use rdesktop.Cache.Chain.{update_same}
use rdesktop.Cache.Bump.{moved, bump-moves, last_stays}
use rdesktop.Cache.Lru.{IsCache, without, bounded, most_recent, bump-SameBut}
use rdesktop.Cache.Lru.Bound.{Holds, All-split, All-join}
use rdesktop.Cache.Lru.Put.{put-refines, All-at}

-- What holds of the entries of a list holds of those of the list with one moved, and back.
All-moved :
    (P : ℕ → Type 0) (bump : ℕ) (xs ys : List ℕ) (i : ℕ)
    → All P (xs ++ (i ∷ ys))
    → All P (moved (some bump) xs ys i)
All-moved P bump xs ys i a =
    let (x, (p, y)) = All-split P xs (i ∷ ys) a in
    let (y1, y2) = All-split P (take bump ys) (drop bump ys) (rw (take-append-drop bump ys) y) in
    All-join P (xs ++ take bump ys) (i ∷ drop bump ys) (All-join P xs (take bump ys) x y1) (p, y2)

All-unmoved :
    (P : ℕ → Type 0) (bump : ℕ) (xs ys : List ℕ) (i : ℕ)
    → All P (moved (some bump) xs ys i)
    → All P (xs ++ (i ∷ ys))
All-unmoved P bump xs ys i a =
    let (w, (p, y2)) = All-split P (xs ++ take bump ys) (i ∷ drop bump ys) a in
    let (x, y1) = All-split P xs (take bump ys) w in
    let y : All P ys =
      subst (All P) (take-append-drop bump ys) (All-join P (take bump ys) (drop bump ys) y1 y2) in
    All-join P xs (i ∷ ys) x (p, y)

-- An entry of the list is fetched.
fetch-IsCache :
    (c : BmpCache) (i : ℕ) (xs ys : List ℕ)
    → IsCache c (xs ++ (i ∷ ys))
    → (c' : BmpCache) × ((fetch i c ≡ (c.bitmap i, c'))
        × IsCache c' (moved (some bump_count) xs ys i)
        × (c'.bitmap ≡ c.bitmap))
fetch-IsCache c i xs ys k =
    let same = bump-SameBut i (some bump_count) c in
    let list = bump-moves (some bump_count) i xs ys k.on k.list in
    let l = moved (some bump_count) xs ys i in
    (
      cache_bump_bitmap i (some bump_count) c,
      (
        simp (k.on) refl,
        record {
          on = same.persistent ∙ k.on;
          list = list;
          full =
              subst (λ f. All (λ j. f j ≢ 0) l) (sym same.bitmap)
                (All-moved (λ j. c.bitmap j ≢ 0) bump_count xs ys i k.full);
          empty = λ j off.
              ap (λ f. f j) same.bitmap
              ∙ k.empty j (All-unmoved (λ m. m ≢ j) bump_count xs ys i off);
        },
        same.bitmap,
      ),
    )

-- A bitmap that the cache holds is returned, and its entry moves over up to 40 more recent ones; the
-- cache stays in order and keeps its bitmaps.
pub get-moves :
    (enabled : Bool) (loaded : ℕ → ℕ) (c : BmpCache) (i : ℕ) (xs ys : List ℕ)
    → IsCache c (xs ++ (i ∷ ys))
    → i < num_elements
    → (c' : BmpCache) × ((cache_get_bitmap enabled loaded i c ≡ ok (c.bitmap i, c'))
        × IsCache c' (moved (some bump_count) xs ys i)
        × (c'.bitmap ≡ c.bitmap))
unfolding cache_get_bitmap
get-moves enabled loaded c i xs ys k inside =
    let within : ltb i num_elements ≡ true = ground arith in
    let d = All-at (λ j. c.bitmap j ≢ 0) i xs ys k.full in
    let set : (c.bitmap i == 0) ≡ false = ground arith in
    let (c', (runs, k', same)) = fetch-IsCache c i xs ys k in
    (c', (rw (within, set) (ap ok runs), k', same))

bounded-last : (w : List ℕ) (i : ℕ) → (zs : List ℕ) × (bounded (w ++ (i ∷ [])) ≡ zs ++ (i ∷ []))
bounded-last [] i = ([], refl)
bounded-last (x ∷ w) i = elim (Bool-cases (leb (length (x ∷ (w ++ (i ∷ [])))) c2_cells)) [
  | inl within ↦ (x ∷ w, rw within refl)
  | inr over ↦ (w, rw over refl)
]

load_lem :
    (loaded : ℕ → ℕ) (c c1 : BmpCache) (i : ℕ)
    → c.persistent ≡ true
    → i < num_pstcells
    → cache_put_bitmap i (loaded i) c ≡ ok c1
    → pstcache_load_bitmap true loaded i c ≡ ok (true, c1)
unfolding pstcache_load_bitmap
load_lem loaded c c1 i on inside put =
    let within : leb num_pstcells i ≡ false = ground arith in
    let failed : Result (Bool × BmpCache) = ok (false, c) in
    let done : Result (Bool × BmpCache) =
      cache_put_bitmap i (loaded i) c >>= (λ c2. ok (true, c2)) in
    subst (λ b. (if not b || leb num_pstcells i then failed else done) ≡ ok (true, c1)) (sym on)
      (rw within (ap (λ m. m >>= (λ c2. ok (true, c2))) put))

miss_lem :
    (loaded : ℕ → ℕ) (c c1 : BmpCache) (i : ℕ)
    → c.persistent ≡ true
    → i < num_pstcells
    → c.bitmap i ≡ 0
    → cache_put_bitmap i (loaded i) c ≡ ok c1
    → cache_get_bitmap true loaded i c ≡ ok (fetch i c1)
unfolding cache_get_bitmap
miss_lem loaded c c1 i on inside absent put =
    let within : ltb i num_elements ≡ true = ground arith in
    let none_held : (c.bitmap i == 0) ≡ true = rw absent refl in
    let after : Result (Bool × BmpCache) → Result (ℕ × BmpCache) =
      λ m. m >>= (λ x. ok (if x.0 then fetch i x.1 else (0, x.1))) in
    rw (within, none_held) (ap after (load_lem loaded c c1 i on inside put))

-- The cache with its most recent entry fetched.
fetch_last :
    (f : ℕ → ℕ) (c1 : BmpCache) (i : ℕ) (l zs : List ℕ)
    → l ≡ zs ++ (i ∷ [])
    → IsCache c1 l
    → Holds f c1 l
    → (c' : BmpCache) × ((fetch i c1 ≡ (f i, c')) × IsCache c' l × Holds f c' l)
fetch_last f c1 i l zs e k holds =
    let k2 : IsCache c1 (zs ++ (i ∷ [])) = subst (IsCache c1) e k in
    let h2 : Holds f c1 (zs ++ (i ∷ [])) = subst (Holds f c1) e holds in
    let here : c1.bitmap i ≡ f i = All-at (λ j. c1.bitmap j ≡ f j) i zs [] h2 in
    let (c', (fetched, k', same)) = fetch-IsCache c1 i zs [] k2 in
    (
      c',
      (
        fetched ∙ ap (λ b. (b, c')) here,
        subst (IsCache c') (last_stays (some bump_count) zs i ∙ sym e) k',
        subst (λ g. All (λ j. g j ≡ f j) l) (sym same) holds,
      ),
    )

-- A bitmap that the cache does not hold but its file does is loaded, put in as the most recent entry,
-- within the bound, and returned.
pub get-loads :
    (loaded : ℕ → ℕ) (c : BmpCache) (i : ℕ) (l : List ℕ)
    → IsCache c l
    → length l ≤ c2_cells
    → c.bitmap i ≡ 0
    → i < num_pstcells
    → loaded i ≢ 0
    → (c' : BmpCache) × ((cache_get_bitmap true loaded i c ≡ ok (loaded i, c'))
        × IsCache c' (most_recent i l)
        × Holds (update c.bitmap i (loaded i)) c' (most_recent i l))
get-loads loaded c i l k small absent inside set =
    let (c1, (runs, k1, holds, size)) =
      put-refines i (loaded i) l k small (omega (arith, inside)) set in
    let f = update c.bitmap i (loaded i) in
    let (zs, e) = bounded-last (without i l) i in
    let (c', (fetched, k', holds')) = fetch_last f c1 i (most_recent i l) zs e k1 holds in
    (
      c',
      (
        miss_lem loaded c c1 i k.on inside absent runs
            ∙ ap ok (fetched ∙ ap (λ b. (b, c')) (update_same c.bitmap i (loaded i))),
        k',
        holds',
      ),
    )

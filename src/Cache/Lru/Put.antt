-- ===== src/Cache/Lru/Put.antt =====
-- `cache_put_bitmap` as an update of the bounded list of recent use.
use rdesktop.Common.{ℕ, ◌+◌, ◌<◌, ◌≤◌, ◌≡◌, ◌≢◌, refl, sym, ◌∙◌, ap, arith, Bool, true, false}
use rdesktop.Common.{List, [], ◌∷◌, ◌++◌, none, All, length, length-append, if◌then◌else◌, ◌==◌}
use rdesktop.Common.{Result, ok, Bool-cases, inl, inr, leb, ltb}
use mathlib.Core.Path.{subst}
use rdesktop.Cache.{BmpCache, update, cache_bump_bitmap, num_elements, c2_cells}
use rdesktop.Cache.{put_entry, reset_links, put_persistent, cache_put_bitmap}
use rdesktop.Cache.Chain.{
  IsOff, IsOff-split, IsSimple-remove, IsChain-off, update_same, update_other,
}
use rdesktop.Cache.Insert.{IsLru}
use rdesktop.Cache.Bump.{bump-moves, bump-inserts}
use rdesktop.Cache.Lru.{IsCache, without, bounded, most_recent, without-off, without-in, look}
use rdesktop.Cache.Lru.{SameBut, bump-SameBut}
use rdesktop.Cache.Lru.Bound.{Holds, All-full, All-split, All-join, others_stay, settles, within_le}

-- The bitmaps after an entry is put at the end of `w`.
entry_full :
    (f : ℕ → ℕ) (i bmp : ℕ) (w : List ℕ)
    → IsOff i w
    → bmp ≢ 0
    → All (λ j. f j ≢ 0) w
    → All (λ j. update f i bmp j ≢ 0) (w ++ (i ∷ []))
entry_full f i bmp w off set full =
    All-join (λ j. update f i bmp j ≢ 0) w (i ∷ [])
      (All-full f (update f i bmp) w (others_stay f i bmp w off) full)
      ((λ z. set (sym (update_same f i bmp) ∙ z)), tt)

entry_empty :
    (f : ℕ → ℕ) (i bmp : ℕ) (w : List ℕ)
    → ((j : ℕ) → IsOff j w → i ≢ j → f j ≡ 0)
    → (j : ℕ) → IsOff j (w ++ (i ∷ []))
    → update f i bmp j ≡ 0
entry_empty f i bmp w empty j off =
    let parts = IsOff-split j w (i ∷ []) off in
    update_other f i j bmp (λ e. parts.1.0 (sym e)) ∙ empty j parts.0 parts.1.0

-- The bumped cache, from the linked one.
bumped-IsCache :
    (c : BmpCache) {d : BmpCache} (b : Bool) (i bmp : ℕ) (w : List ℕ)
    → c.persistent ≡ true
    → SameBut (reset_links b i (put_entry i bmp c)) d
    → IsLru d (w ++ (i ∷ []))
    → IsOff i w
    → bmp ≢ 0
    → All (λ j. c.bitmap j ≢ 0) w
    → ((j : ℕ) → IsOff j w → i ≢ j → c.bitmap j ≡ 0)
    → IsCache d (w ++ (i ∷ [])) × (d.bitmap ≡ update c.bitmap i bmp)
bumped-IsCache c {d} b i bmp w on same list off set full empty =
    let kept = kept_by b in
    let bits : d.bitmap ≡ update c.bitmap i bmp = same.bitmap ∙ kept.1 in
    (
      record {
        on = same.persistent ∙ (kept.0 ∙ on);
        list = list;
        full =
            subst (λ f. All (λ j. f j ≢ 0) (w ++ (i ∷ []))) (sym bits)
              (entry_full c.bitmap i bmp w off set full);
        empty =
            subst (λ f. (j : ℕ) → IsOff j (w ++ (i ∷ [])) → f j ≡ 0) (sym bits)
              (entry_empty c.bitmap i bmp w empty);
      },
      bits,
    )
  where
    kept_by :
        (b : Bool)
        → ((reset_links b i (put_entry i bmp c)).persistent ≡ c.persistent)
          × ((reset_links b i (put_entry i bmp c)).bitmap ≡ update c.bitmap i bmp)
    kept_by true = (refl, refl)
    kept_by false = (refl, refl)

-- The cache bumped after its entry is linked.
abbrev relink : Bool → ℕ → ℕ → BmpCache → BmpCache
relink b i bmp c = cache_bump_bitmap i none (reset_links b i (put_entry i bmp c))

abbrev Linked : BmpCache → ℕ → ℕ → List ℕ → BmpCache → Type 0
Linked c i bmp w d =
    IsCache d (w ++ (i ∷ [])) × (d.bitmap ≡ update c.bitmap i bmp) × (length w ≤ c2_cells)

-- An entry of the list moves.
links_in :
    {c : BmpCache} (i bmp : ℕ) (xs ys : List ℕ)
    → IsCache c (xs ++ (i ∷ ys))
    → bmp ≢ 0
    → length (xs ++ (i ∷ ys)) ≤ c2_cells
    → Linked c i bmp (xs ++ ys) (relink false i bmp c)
links_in {c} i bmp xs ys k set small =
    let r = k.list in
    let same : IsLru (put_entry i bmp c) (xs ++ (i ∷ ys)) = record {
      lru = r.lru;
      mru = r.mru;
      chain = r.chain;
      simple = r.simple;
      counted = r.counted;
      small = r.small;
    } in
    let off = (IsSimple-remove i xs ys r.simple).0 in
    let fulls = All-split (λ j. c.bitmap j ≢ 0) xs (i ∷ ys) k.full in
    let done =
      bumped-IsCache c false i bmp (xs ++ ys) k.on (bump-SameBut i none (put_entry i bmp c))
        (bump-moves none i xs ys k.on same) off set
        (All-join (λ j. c.bitmap j ≢ 0) xs ys fulls.0 fulls.1.1)
        (λ j offj d.
          let p = IsOff-split j xs ys offj in
          k.empty j (All-join (λ m. m ≢ j) xs (i ∷ ys) p.0 (d, p.1))) in
    (done.0, done.1, omega (arith, small, length-append xs ys, length-append xs (i ∷ ys)))

-- Another one is put in.
links_off :
    {c : BmpCache} (i bmp : ℕ) (l : List ℕ)
    → IsCache c l
    → bmp ≢ 0
    → length l ≤ c2_cells
    → IsOff i l
    → Linked c i bmp l (relink true i bmp c)
links_off {c} i bmp l k set small off =
    let r = k.list in
    let reset = reset_links true i (put_entry i bmp c) in
    let same : IsLru reset l = record {
      lru = r.lru;
      mru = r.mru;
      chain =
          (IsChain-off (update c.previous i none) c.next none l none i none none off
            (IsChain-off c.previous c.next none l none i none none off r.chain).0).1;
      simple = r.simple;
      counted = r.counted;
      small = r.small;
    } in
    let done =
      bumped-IsCache c true i bmp l k.on (bump-SameBut i none reset)
        (bump-inserts none i l k.on same (omega (arith, small)) off (update_same c.next i none)) off
        set k.full (λ j offj d. k.empty j offj) in
    (done.0, done.1, small)

pub All-at : (P : ℕ → Type 0) (i : ℕ) (xs ys : List ℕ) → All P (xs ++ (i ∷ ys)) → P i
All-at P i xs ys a = (All-split P xs (i ∷ ys) a).1.0

full_at :
    (f : ℕ → ℕ) (i : ℕ) (xs ys : List ℕ) → All (λ j. f j ≢ 0) (xs ++ (i ∷ ys)) → (f i == 0) ≡ false
full_at f i xs ys full = let d = All-at (λ j. f j ≢ 0) i xs ys full in ground arith

-- The two ways to the bumped cache: the entry is in the list, or it is not.
links :
    {c : BmpCache} (i bmp : ℕ) (l : List ℕ)
    → IsCache c l
    → bmp ≢ 0
    → length l ≤ c2_cells
    → Linked c i bmp (without i l) (relink (c.bitmap i == 0) i bmp c)
links {c} i bmp l k set small = elim (look i l) [
  | inl (xs, ys, e) ↦
      let k1 : IsCache c (xs ++ (i ∷ ys)) = subst (IsCache c) e k in
      let out : without i l ≡ xs ++ ys =
        ap (without i) e ∙ without-in i xs ys (IsSimple-remove i xs ys k1.list.simple).0 in
      subst (λ w. Linked c i bmp w (relink (c.bitmap i == 0) i bmp c)) (sym out)
        (subst (λ b. Linked c i bmp (xs ++ ys) (relink b i bmp c))
          (sym (full_at c.bitmap i xs ys k1.full))
          (links_in i bmp xs ys k1 set (subst (λ w. length w ≤ c2_cells) e small)))
  | inr off ↦
      let free : (c.bitmap i == 0) ≡ true = rw (k.empty i off) refl in
      subst (λ w. Linked c i bmp w (relink (c.bitmap i == 0) i bmp c)) (sym (without-off i l off))
        (subst (λ b. Linked c i bmp l (relink b i bmp c)) (sym free)
          (links_off i bmp l k set small off))
]

put_lem :
    (c : BmpCache) (i bmp : ℕ) (r : Result BmpCache)
    → i < num_elements
    → c.persistent ≡ true
    → put_persistent i bmp c ≡ r
    → cache_put_bitmap i bmp c ≡ r
unfolding cache_put_bitmap
put_lem c i bmp r inside on e =
    let within : ltb i num_elements ≡ true = ground arith in
    rw within
      (subst (λ b. (if b then put_persistent i bmp c else ok (put_entry i bmp c)) ≡ r) (sym on) e)

bounded-size : (m : List ℕ) → length m ≤ c2_cells + 1 → length (bounded m) ≤ c2_cells
bounded-size [] small = omega arith
bounded-size (x ∷ m) small = elim (Bool-cases (leb (length (x ∷ m)) c2_cells)) [
  | inl within ↦ rw within (within_le (length (x ∷ m)) within)
  | inr over ↦ rw over (omega (arith, small))
]

-- A bitmap that is put into a cache kept on disk, under the index of an entry and into a list of at
-- most 0x150 entries: the call returns normally, and the list is that of the abstract cache, in which
-- the entry becomes the most recent one and, beyond the bound, the least recent entry goes. The entry
-- holds the new bitmap, the other entries of the new list the bitmaps they had, and all entries
-- outside it none.
pub put-refines :
    {c : BmpCache} (i bmp : ℕ) (l : List ℕ)
    → IsCache c l
    → length l ≤ c2_cells
    → i < num_elements
    → bmp ≢ 0
    → (c' : BmpCache) × ((cache_put_bitmap i bmp c ≡ ok c')
        × IsCache c' (most_recent i l)
        × Holds (update c.bitmap i bmp) c' (most_recent i l)
        × (length (most_recent i l) ≤ c2_cells))
unfolding put_persistent
put-refines {c} i bmp l k small inside set =
    let (k1, bits, size) = links i bmp l k set small in
    let more : length (without i l ++ (i ∷ [])) ≤ c2_cells + 1 =
      omega (arith, size, length-append (without i l) (i ∷ [])) in
    let (c', (runs, k2, holds)) = settles (without i l ++ (i ∷ [])) k1 more in
    (
      c',
      (
        put_lem c i bmp (ok c') inside k.on runs,
        k2,
        subst (λ f. Holds f c' (most_recent i l)) bits holds,
        bounded-size (without i l ++ (i ∷ [])) more,
      ),
    )

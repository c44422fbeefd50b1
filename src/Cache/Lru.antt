-- ===== src/Cache/Lru.antt =====
-- The bitmap cache as a bounded list of recent use with the bitmaps that it holds.
pub mod Bound
pub mod Put
pub mod Get
use rdesktop.Common.{
  ℕ, zero, suc, ◌+◌, ◌-◌, ◌%◌, ◌^◌, ◌<◌, ◌≤◌, ◌≡◌, ◌≢◌, refl, sym, ◌∙◌, ap, arith, Bool, true,
  false,
}
use rdesktop.Common.{List, [], ◌∷◌, ◌++◌, Option, none, some, All, length, not, if◌then◌else◌, ◌==◌}
use rdesktop.Common.{Result, ok, Bool-cases, inl, inr, ◌⊎◌, u32, drop, leb}
use mathlib.Core.Path.{subst}
use rdesktop.Cache.{
  BmpCache, Call, destroy, touch, update, cache_bump_bitmap, move_from, remove, insert, insert_at,
  place, same_index,
}
use rdesktop.Cache.{cache_evict_bitmap, evict, evict_at, c2_cells, put_entry, reset_links}
use rdesktop.Cache.Chain.{IsOff, IsSimple, IsChain-off, IsChain-front, update_same, update_other}
use rdesktop.Cache.Insert.{IsLru}

-- A cache kept on disk: its list, and a bitmap for exactly the entries of the list.
pub record IsCache (c : BmpCache) (l : List ℕ) : Type 0 where
  pub on : c.persistent ≡ true
  pub list : IsLru c l
  pub full : All (λ j. c.bitmap j ≢ 0) l
  pub empty : (j : ℕ) → IsOff j l → c.bitmap j ≡ 0

-- The abstract cache: the entry becomes the most recent one, and beyond the bound the least recent
-- one goes.
unfoldable pub without : ℕ → List ℕ → List ℕ
without i [] = []
without i (x ∷ xs) = if x == i then without i xs else x ∷ without i xs

abbrev pub bounded : List ℕ → List ℕ
bounded l = if leb (length l) c2_cells then l else drop 1 l

abbrev pub most_recent : ℕ → List ℕ → List ℕ
most_recent i l = bounded (without i l ++ (i ∷ []))

pub without-off : (i : ℕ) (l : List ℕ) → IsOff i l → without i l ≡ l
unfolding without
without-off i [] off = refl
without-off i (x ∷ xs) (d, off) =
    let e : (x == i) ≡ false = ground arith in rw e (ap (λ t. x ∷ t) (without-off i xs off))

pub without-in :
    (i : ℕ) (xs ys : List ℕ) → IsOff i (xs ++ ys) → without i (xs ++ (i ∷ ys)) ≡ xs ++ ys
unfolding without
without-in i [] ys off = let e : (i == i) ≡ true = ground arith in rw e (without-off i ys off)
without-in i (x ∷ xs) ys (d, off) =
    let e : (x == i) ≡ false = ground arith in rw e (ap (λ t. x ∷ t) (without-in i xs ys off))

-- Whether an entry is in the list, and where.
pub look : (i : ℕ) (l : List ℕ) → ((xs ys : List ℕ) × (l ≡ xs ++ (i ∷ ys))) ⊎ IsOff i l
look i [] = inr tt
look i (x ∷ l) = elim (Bool-cases (x == i)) [
  | inl at ↦ let e : x ≡ i = ground arith in inl ([], l, ap (λ t. t ∷ l) e)
  | inr past ↦ elim (look i l) [
    | inl (xs, ys, e) ↦ inl (x ∷ xs, ys, ap (λ t. x ∷ t) e)
    | inr off ↦ let d : x ≢ i = λ e. absurd (ground arith) in inr (d, off)
  ]
]

-- What a move in the list keeps.
pub record SameBut (c c' : BmpCache) : Type 0 where
  pub persistent : c'.persistent ≡ c.persistent
  pub bitmap : c'.bitmap ≡ c.bitmap
  pub calls : c'.calls ≡ c.calls

insert_at-SameBut : (i : ℕ) (q : Option ℕ × Option ℕ) (c : BmpCache) → SameBut c (insert_at i q c)
unfolding insert
insert_at-SameBut i q c = record { persistent = refl; bitmap = refl; calls = refl }

move_from-SameBut : (i : ℕ) (bump o : Option ℕ) (c : BmpCache) → SameBut c (move_from i bump o c)
unfolding move_from remove
move_from-SameBut i bump none c = insert_at-SameBut i (place bump none c.lru c) c
move_from-SameBut i bump (some n) c =
    let removed = remove (c.previous i) (some n) c in
    let done = insert_at-SameBut i (place bump (c.previous i) (some n) removed) removed in
    record { persistent = done.persistent; bitmap = done.bitmap; calls = done.calls }

-- A bump touches neither the bitmaps nor the calls.
pub bump-SameBut : (i : ℕ) (bump : Option ℕ) (c : BmpCache) → SameBut c (cache_bump_bitmap i bump c)
unfolding cache_bump_bitmap
bump-SameBut i bump c = elim (Bool-cases (not c.persistent)) [
  | inl off ↦ rw off (record { persistent = refl; bitmap = refl; calls = refl })
  | inr on ↦ elim (Bool-cases (same_index c.mru i)) [
    | inl last ↦ rw (on, last) (record { persistent = refl; bitmap = refl; calls = refl })
    | inr other ↦ rw (on, other) (move_from-SameBut i bump (c.next i) c)
  ]
]

-- The cache after its least recent entry `x` is evicted, before `y`.
abbrev pub evicted : ℕ → ℕ → BmpCache → BmpCache
evicted x y c = record c {
  count = u32 (c.count + 2 ^ 32 - 1);
  bitmap = update c.bitmap x 0;
  lru = some y;
  previous = update c.previous y none;
  calls = c.calls ++ (destroy (c.bitmap x) ∷ touch x 0 ∷ []);
}

evict_lem : (x y : ℕ) (c : BmpCache) → c.next x ≡ some y → evict x c ≡ ok (evicted x y c)
unfolding evict
evict_lem x y c e = rw (e, evict) refl

pub evict-IsLru :
    {c : BmpCache} (x y : ℕ) (l : List ℕ)
    → c.persistent ≡ true
    → IsLru c (x ∷ y ∷ l)
    → (cache_evict_bitmap c ≡ ok (evicted x y c)) × IsLru (evicted x y c) (y ∷ l)
unfolding cache_evict_bitmap evict_at
evict-IsLru {c} x y l on r = (
  subst (λ b. (if not b then ok c else evict_at c.lru c) ≡ ok (evicted x y c)) (sym on)
      (subst (λ o. evict_at o c ≡ ok (evicted x y c)) (sym r.lru) (evict_lem x y c r.chain.1)),
  record {
    lru = refl;
    mru = r.mru;
    chain =
        unfold rdesktop.Cache.update_at in
        IsChain-front c.previous c.next (some x) none (y ∷ l) none r.simple.1 r.chain.2;
    simple = r.simple.1;
    counted = omega (arith, r.counted, r.small);
    small = omega (arith, r.small);
  },
)

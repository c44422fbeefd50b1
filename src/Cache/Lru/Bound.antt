-- ===== src/Cache/Lru/Bound.antt =====
-- The cache held to its bound by an eviction.
use rdesktop.Common.{ℕ, ◌+◌, ◌≤◌, ◌≡◌, ◌≢◌, refl, sym, ◌∙◌, arith, true, false}
use rdesktop.Common.{List, [], ◌∷◌, ◌++◌, All, length, if◌then◌else◌, ◌==◌}
use rdesktop.Common.{ok, Bool-cases, inl, inr, leb, ltb}
use rdesktop.Cache.{BmpCache, update, cache_evict_bitmap, c2_cells, is_above}
use rdesktop.Cache.Chain.{IsOff, update_other}
use rdesktop.Cache.Lru.{IsCache, bounded}
use rdesktop.Cache.Lru.{evicted, evict-IsLru}

-- The cache holds the bitmaps of `f` for the entries of a list.
abbrev pub Holds : (ℕ → ℕ) → BmpCache → List ℕ → Type 0
Holds f c = All (λ j. c.bitmap j ≡ f j)

All-refl : (f : ℕ → ℕ) (l : List ℕ) → All (λ j. f j ≡ f j) l
All-refl f [] = tt
All-refl f (x ∷ l) = (refl, All-refl f l)

pub others_stay : (f : ℕ → ℕ) (i v : ℕ) (l : List ℕ) → IsOff i l → All (λ j. update f i v j ≡ f j) l
others_stay f i v [] off = tt
others_stay f i v (x ∷ l) (d, off) = (update_other f i x v d, others_stay f i v l off)

pub All-full :
    (f g : ℕ → ℕ) (l : List ℕ)
    → All (λ j. g j ≡ f j) l
    → All (λ j. f j ≢ 0) l
    → All (λ j. g j ≢ 0) l
All-full f g [] same full = tt
All-full f g (x ∷ l) (e, same) (d, full) = ((λ z. d (sym e ∙ z)), All-full f g l same full)

pub All-split : (P : ℕ → Type 0) (xs ys : List ℕ) → All P (xs ++ ys) → All P xs × All P ys
All-split P [] ys a = (tt, a)
All-split P (x ∷ xs) ys (p, a) = let rest = All-split P xs ys a in ((p, rest.0), rest.1)

pub All-join : (P : ℕ → Type 0) (xs ys : List ℕ) → All P xs → All P ys → All P (xs ++ ys)
All-join P [] ys a b = b
All-join P (x ∷ xs) ys (p, a) b = (p, All-join P xs ys a b)

-- What a cache with the list `m` becomes when it is held to the bound.
abbrev pub Bounds : BmpCache → List ℕ → BmpCache → Type 0
Bounds d m c' =
    ((if is_above d.count then cache_evict_bitmap d else ok d) ≡ ok c')
    × IsCache c' (bounded m)
    × Holds d.bitmap c' (bounded m)

count_within : (n : ℕ) → n ≤ c2_cells → is_above n ≡ false
count_within n h = let e : ltb c2_cells n ≡ false = ground arith in rw e refl

evicts :
    {d : BmpCache} (m : List ℕ)
    → IsCache d m
    → length m ≡ c2_cells + 1
    → (c' : BmpCache) × Bounds d m c'
evicts {d} [] k e = absurd (ground arith)
evicts {d} (x ∷ []) k e = absurd (ground arith)
evicts {d} (x ∷ y ∷ l) k e =
    let above : is_above d.count ≡ true = rw (k.list.counted ∙ e) refl in
    let over : leb (length (x ∷ y ∷ l)) c2_cells ≡ false = ground arith in
    let done = evict-IsLru x y l k.on k.list in
    let off = k.list.simple.0 in
    let same = others_stay d.bitmap x 0 (y ∷ l) off in
    let k1 : IsCache (evicted x y d) (y ∷ l) = record {
      on = k.on;
      list = done.1;
      full = All-full d.bitmap (update d.bitmap x 0) (y ∷ l) same k.full.1;
      empty = λ j offj. elim (Bool-cases (x == j)) [
        | inl at ↦ rw at refl
        | inr other ↦ rw other (k.empty j ((λ e. absurd (ground arith)), offj))
      ];
    } in
    (evicted x y d, (rw above done.0, rw over k1, rw over same))

pub within_le : (n : ℕ) → leb n c2_cells ≡ true → n ≤ c2_cells
within_le n h = ground arith

over_eq : (n : ℕ) → n ≤ c2_cells + 1 → leb n c2_cells ≡ false → n ≡ c2_cells + 1
over_eq n small h = ground arith

pub settles :
    {d : BmpCache} (m : List ℕ)
    → IsCache d m
    → length m ≤ c2_cells + 1
    → (c' : BmpCache) × Bounds d m c'
settles {d} m k small = elim (Bool-cases (leb (length m) c2_cells)) [
  | inl within ↦
      let below : is_above d.count ≡ false =
        rw (k.list.counted) (count_within (length m) (within_le (length m) within)) in
      (d, (rw below refl, rw within k, rw within (All-refl d.bitmap m)))
  | inr over ↦ evicts m k (over_eq (length m) small over)
]

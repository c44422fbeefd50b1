-- ===== src/Cache/Bump.antt =====
-- `cache_bump_bitmap` as a move in the list of recent use.
use rdesktop.Common.{ℕ, zero, suc, ◌+◌, ◌^◌, ◌<◌, ◌≡◌, ◌≢◌, refl, sym, ◌∙◌, ap, arith, true, false}
use rdesktop.Common.{List, [], ◌∷◌, ◌++◌, Option, none, some, length, take, drop}
use rdesktop.Common.{take-append-drop}
use mathlib.Core.List.{append_assoc, append-nil}
use mathlib.Core.Path.{subst}
use rdesktop.Cache.{
  BmpCache, walk, place, insert, insert_at, remove, move_from, cache_bump_bitmap, same_index,
}
use rdesktop.Cache.Chain.{Links, head_of, last_of, IsChain, IsOff, IsChain-append, IsChain-split}
use rdesktop.Cache.Chain.{IsOffAt, IsSimple-remove, IsOff-split}
use rdesktop.Cache.Insert.{
  IsLru, IsCut, cut, insert-IsLru, remove-IsCut, last-append, last_apart, last_apart_from,
}

-- The list with `i` moved on from between `xs` and `ys`: over `bump` entries, or to its end.
abbrev pub moved : Option ℕ → List ℕ → List ℕ → ℕ → List ℕ
moved none xs ys i = (xs ++ ys) ++ (i ∷ [])
moved (some bump) xs ys i = (xs ++ take bump ys) ++ (i ∷ drop bump ys)

walk_lem :
    (previous next : Links) (bump : ℕ) (p : Option ℕ) (ys : List ℕ)
    → IsChain previous next p ys none
    → walk next bump p (head_of ys none) ≡ (last_of (take bump ys) p, head_of (drop bump ys) none)
unfolding walk
walk_lem previous next zero p ys c = refl
walk_lem previous next (suc bump) p [] c = refl
walk_lem previous next (suc bump) p (y ∷ ys) c =
    rw (c.1) (walk_lem previous next bump (some y) ys c.2)

head-append : (us vs : List ℕ) (n : Option ℕ) → head_of (us ++ vs) n ≡ head_of us (head_of vs n)
head-append [] vs n = refl
head-append (u ∷ us) vs n = refl

-- A cut moves on over the entries behind it.
recut : {c : BmpCache} (xs us vs : List ℕ) → IsCut c xs (us ++ vs) → IsCut c (xs ++ us) vs
recut {c} xs us vs k =
    let parts = IsChain-split c.previous c.next (last_of xs none) us vs none k.right in
    let same : (xs ++ us) ++ vs ≡ xs ++ (us ++ vs) = append_assoc xs us vs in
    record {
      lru = rw same k.lru;
      mru = rw same k.mru;
      left =
          IsChain-append c.previous c.next none xs us (head_of vs none)
            (subst (λ n. IsChain c.previous c.next none xs n) (head-append us vs none) k.left)
            parts.0;
      right = rw last-append parts.1;
      simple = rw same k.simple;
      counted = rw same k.counted;
      small = rw same k.small;
    }

-- From a cut, an entry off the list goes to where `place` says.
placed-IsLru :
    {c : BmpCache} (bump : Option ℕ) (i : ℕ) (xs ys : List ℕ)
    → IsCut c xs ys
    → IsOff i (xs ++ ys)
    → IsLru (insert_at i (place bump (last_of xs none) (head_of ys none) c) c) (moved bump xs ys i)
unfolding place
placed-IsLru {c} none i xs ys k off =
    let end : IsCut c (xs ++ ys) [] = recut xs ys [] (rw append-nil k) in
    subst (λ p. IsLru (insert i p none c) (moved none xs ys i)) (sym k.mru)
      (insert-IsLru i (xs ++ ys) [] end (rw append-nil off))
placed-IsLru {c} (some bump) i xs ys k off =
    let split = take-append-drop bump ys in
    let further : IsCut c (xs ++ take bump ys) (drop bump ys) =
      recut xs (take bump ys) (drop bump ys) (rw split k) in
    let same : (xs ++ take bump ys) ++ drop bump ys ≡ xs ++ ys =
      append_assoc xs (take bump ys) (drop bump ys) ∙ ap (λ w. xs ++ w) split in
    rw (walk_lem c.previous c.next bump (last_of xs none) ys k.right) (
      subst (λ p. IsLru (insert i p (head_of (drop bump ys) none) c) (moved (some bump) xs ys i))
        (last-append xs (take bump ys) none)
        (insert-IsLru i (xs ++ take bump ys) (drop bump ys) further (rw same off)))

not_same : (o : Option ℕ) (i : ℕ) → IsOffAt o (i ∷ []) → same_index o i ≡ false
not_same none i off = refl
not_same (some j) i off = let d : i ≢ j = off.0 in ground arith

-- The last entry stays where it is.
pub last_stays : (bump : Option ℕ) (xs : List ℕ) (i : ℕ) → moved bump xs [] i ≡ xs ++ (i ∷ [])
last_stays none xs i = ap (λ w. w ++ (i ∷ [])) (append-nil xs)
last_stays (some zero) xs i = ap (λ w. w ++ (i ∷ [])) (append-nil xs)
last_stays (some (suc bump)) xs i = ap (λ w. w ++ (i ∷ [])) (append-nil xs)

-- The move of an entry with the next entry `y`.
from_link :
    {c : BmpCache} (bump : Option ℕ) (i : ℕ) (xs : List ℕ) (y : ℕ) (ys : List ℕ)
    → IsLru c (xs ++ (i ∷ y ∷ ys))
    → c.previous i ≡ last_of xs none
    → IsOff i (xs ++ (y ∷ ys))
    → IsLru (move_from i bump (some y) c) (moved bump xs (y ∷ ys) i)
unfolding move_from
from_link {c} bump i xs y ys r before off =
    subst
      (λ p.
        IsLru (insert_at i (place bump p (some y) (remove p (some y) c)) (remove p (some y) c))
          (moved bump xs (y ∷ ys) i))
      (sym before) (placed-IsLru bump i xs (y ∷ ys) (remove-IsCut i xs y ys r) off)

-- In a cache that is kept on disk, a bump of an entry of the list moves it over the given number of
-- more recent entries, or to the most recent end, and keeps the order of the others.
pub bump-moves :
    {c : BmpCache} (bump : Option ℕ) (i : ℕ) (xs ys : List ℕ)
    → c.persistent ≡ true
    → IsLru c (xs ++ (i ∷ ys))
    → IsLru (cache_bump_bitmap i bump c) (moved bump xs ys i)
unfolding cache_bump_bitmap
bump-moves {c} bump i xs [] on r =
    let at_end : same_index c.mru i ≡ true =
      ap (λ o. same_index o i) (r.mru ∙ last-append xs (i ∷ []) none) ∙ same_self i in
    simp on (rw (at_end, last_stays bump xs i) r)
  where
    same_self : (i : ℕ) → same_index (some i) i ≡ true
    same_self i = ground arith
bump-moves {c} bump i xs (y ∷ ys) on r =
    let parts = IsChain-split c.previous c.next none xs (i ∷ y ∷ ys) none r.chain in
    let out = IsSimple-remove i xs (y ∷ ys) r.simple in
    let apart : same_index c.mru i ≡ false =
      ap (λ o. same_index o i) (r.mru ∙ last-append xs (i ∷ y ∷ ys) none)
      ∙ not_same (last_of ys (some y)) i
          (last_apart_from i y ys (IsOff-split i xs (y ∷ ys) out.0).1) in
    simp on (
      rw apart (
        subst (λ o. IsLru (move_from i bump o c) (moved bump xs (y ∷ ys) i)) (sym parts.1.1)
          (from_link bump i xs y ys r parts.1.0 out.0)))

-- The same for an entry that is not in the list and whose next entry is not set: it is put in over
-- the given number of the least recent entries, or at the most recent end.
pub bump-inserts :
    {c : BmpCache} (bump : Option ℕ) (i : ℕ) (l : List ℕ)
    → c.persistent ≡ true
    → IsLru c l
    → length l + 1 < 2 ^ 31
    → IsOff i l
    → c.next i ≡ none
    → IsLru (cache_bump_bitmap i bump c) (moved bump [] l i)
unfolding cache_bump_bitmap move_from
bump-inserts {c} bump i l on r small off free =
    let apart : same_index c.mru i ≡ false =
      ap (λ o. same_index o i) r.mru ∙ not_same (last_of l none) i (last_apart i l off) in
    let done = placed-IsLru bump i [] l (cut [] l r small) off in
    simp on (
      rw apart (
        subst (λ o. IsLru (move_from i bump o c) (moved bump [] l i)) (sym free)
          (subst (λ o. IsLru (insert_at i (place bump none o c) c) (moved bump [] l i)) (sym r.lru)
            done)))

-- ===== src/Cache/Insert.antt =====
-- The list of recent use as a list of indices, the least recent first, and the two steps that
-- change it.
use rdesktop.Common.{ℕ, ◌+◌, ◌^◌, ◌<◌, ◌≡◌, refl, sym, ◌∙◌, arith}
use rdesktop.Common.{true, List, [], ◌∷◌, ◌++◌, Option, none, some, length, length-append}
use rdesktop.Common.{if◌then◌else◌}
use rdesktop.Cache.{BmpCache, update, update_at, is_set, insert, remove}
use rdesktop.Cache.Chain.{
  Links, head_of, last_of, IsChain, IsOff, IsSimple, IsChain-append, IsChain-split,
}
use rdesktop.Cache.Chain.{
  IsChain-off, IsChain-off_at, IsChain-front, IsChain-back, IsOffAt, IsSimple-split,
}
use rdesktop.Cache.Chain.{head-IsOffAt, last-IsOffAt, IsSimple-insert, IsSimple-remove, update_same}
use rdesktop.Cache.Chain.{update_other, IsOff-split}

-- `l` is the list from `g_bmpcache_lru` to `g_bmpcache_mru`, linked in both directions, with no
-- entry twice, and as long as the count says.
pub record IsLru (c : BmpCache) (l : List ℕ) : Type 0 where
  pub lru : c.lru ≡ head_of l none
  pub mru : c.mru ≡ last_of l none
  pub chain : IsChain c.previous c.next none l none
  pub simple : IsSimple l
  pub counted : c.count ≡ length l
  pub small : length l < 2 ^ 31

-- The same with the links between `xs` and `ys` left open: `xs` ends before `ys`.
pub record IsCut (c : BmpCache) (xs ys : List ℕ) : Type 0 where
  pub lru : c.lru ≡ head_of (xs ++ ys) none
  pub mru : c.mru ≡ last_of (xs ++ ys) none
  pub left : IsChain c.previous c.next none xs (head_of ys none)
  pub right : IsChain c.previous c.next (last_of xs none) ys none
  pub simple : IsSimple (xs ++ ys)
  pub counted : c.count ≡ length (xs ++ ys)
  pub small : length (xs ++ ys) + 1 < 2 ^ 31

pub cut :
    {c : BmpCache} (xs ys : List ℕ)
    → IsLru c (xs ++ ys)
    → length (xs ++ ys) + 1 < 2 ^ 31
    → IsCut c xs ys
cut {c} xs ys r small =
    let parts = IsChain-split c.previous c.next none xs ys none r.chain in
    record {
      lru = r.lru;
      mru = r.mru;
      left = parts.0;
      right = parts.1;
      simple = r.simple;
      counted = r.counted;
      small = small;
    }

last_set : (xs : List ℕ) (x : ℕ) → is_set (last_of xs (some x)) ≡ true
last_set [] x = refl
last_set (y ∷ xs) x = last_set xs y

head_after :
    (xs ys : List ℕ) (i : ℕ) (front : Option ℕ)
    → front ≡ head_of (xs ++ ys) none
    → (if is_set (last_of xs none) then front else some i) ≡ head_of (xs ++ (i ∷ ys)) none
head_after [] ys i front e = refl
head_after (x ∷ xs) ys i front e =
    let s : is_set (last_of xs (some x)) ≡ true = last_set xs x in rw s e

-- The last entry of a list that goes on is the last of what follows.
pub last-append : (xs ys : List ℕ) (p : Option ℕ) → last_of (xs ++ ys) p ≡ last_of ys (last_of xs p)
last-append [] ys p = refl
last-append (x ∷ xs) ys p = last-append xs ys (some x)

last_after :
    (xs ys : List ℕ) (i : ℕ) (back : Option ℕ)
    → back ≡ last_of (xs ++ ys) none
    → (if is_set (head_of ys none) then back else some i) ≡ last_of (xs ++ (i ∷ ys)) none
last_after xs [] i back e = sym (last-append xs (i ∷ []) none)
last_after xs (y ∷ ys) i back e =
    e ∙ (last-append xs (y ∷ ys) none ∙ sym (last-append xs (i ∷ y ∷ ys) none))

update_at_other :
    (f : Links) (o v : Option ℕ) (i : ℕ) → IsOffAt o (i ∷ []) → update_at f o v i ≡ f i
unfolding update_at
update_at_other f none v i off = refl
update_at_other f (some j) v i off = update_other f j i v off.0

head_apart : (i : ℕ) (ys : List ℕ) → IsOff i ys → IsOffAt (head_of ys none) (i ∷ [])
head_apart i [] off = tt
head_apart i (y ∷ ys) (d, off) = ((λ e. d (sym e)), tt)

pub last_apart_from :
    (i x : ℕ) (xs : List ℕ) → IsOff i (x ∷ xs) → IsOffAt (last_of xs (some x)) (i ∷ [])
last_apart_from i x [] (d, off) = ((λ e. d (sym e)), tt)
last_apart_from i x (y ∷ xs) (d, off) = last_apart_from i y xs off

pub last_apart : (i : ℕ) (xs : List ℕ) → IsOff i xs → IsOffAt (last_of xs none) (i ∷ [])
last_apart i [] off = tt
last_apart i (x ∷ xs) off = last_apart_from i x xs off

-- An entry that is off the list is put in at the cut.
pub insert-IsLru :
    {c : BmpCache} (i : ℕ) (xs ys : List ℕ)
    → IsCut c xs ys
    → IsOff i (xs ++ ys)
    → IsLru (insert i (last_of xs none) (head_of ys none) c) (xs ++ (i ∷ ys))
unfolding insert
insert-IsLru {c} i xs ys k off =
    let p = last_of xs none in
    let n = head_of ys none in
    let offs = IsOff-split i xs ys off in
    let simples = IsSimple-split xs ys k.simple in
    let prev1 = update c.previous i p in
    let next1 = update c.next i n in
    let l1 = (IsChain-off c.previous c.next none xs n i p p offs.0 k.left).0 in
    let l2 = (IsChain-off prev1 c.next none xs n i n n offs.0 l1).1 in
    let l3 =
      (IsChain-off_at prev1 next1 none xs n n (some i) n (head-IsOffAt xs ys k.simple) l2).0 in
    let l4 = IsChain-back (update_at prev1 n (some i)) next1 none n (some i) xs simples.0 l3 in
    let r1 = (IsChain-off c.previous c.next p ys none i p p offs.1 k.right).0 in
    let r2 = (IsChain-off prev1 c.next p ys none i n n offs.1 r1).1 in
    let r3 =
      (IsChain-off_at prev1 next1 p ys none p p (some i) (last-IsOffAt xs ys k.simple) r2).1 in
    let r4 = IsChain-front prev1 (update_at next1 p (some i)) p (some i) ys none simples.1 r3 in
    record {
      lru = head_after xs ys i c.lru k.lru;
      mru = last_after xs ys i c.mru k.mru;
      chain = IsChain-append _ _ none xs (i ∷ ys) none l4 (
        update_at_other prev1 n (some i) i (head_apart i ys offs.1) ∙ update_same c.previous i p,
        update_at_other next1 p (some i) i (last_apart i xs offs.0) ∙ update_same c.next i n,
        r4,
      );
      simple = IsSimple-insert i xs ys off k.simple;
      counted = omega (arith, k.counted, k.small, length-append xs ys, length-append xs (i ∷ ys));
      small = omega (arith, k.small, length-append xs ys, length-append xs (i ∷ ys));
    }

head_before :
    (xs ys : List ℕ) (i : ℕ) (front : Option ℕ)
    → front ≡ head_of (xs ++ (i ∷ ys)) none
    → (if is_set (last_of xs none) then front else head_of ys none) ≡ head_of (xs ++ ys) none
head_before [] ys i front e = refl
head_before (x ∷ xs) ys i front e =
    let s : is_set (last_of xs (some x)) ≡ true = last_set xs x in rw s e

-- An entry that is followed by another one is taken out, which leaves a cut in its place.
pub remove-IsCut :
    {c : BmpCache} (i : ℕ) (xs : List ℕ) (y : ℕ) (ys : List ℕ)
    → IsLru c (xs ++ (i ∷ y ∷ ys))
    → IsCut (remove (last_of xs none) (some y) c) xs (y ∷ ys)
unfolding remove update_at
remove-IsCut {c} i xs y ys r =
    let p = last_of xs none in
    let parts = IsChain-split c.previous c.next none xs (i ∷ y ∷ ys) none r.chain in
    let simple = (IsSimple-remove i xs (y ∷ ys) r.simple).1 in
    let simples = IsSimple-split xs (y ∷ ys) simple in
    let l1 = IsChain-back c.previous c.next none (some i) (some y) xs simples.0 parts.0 in
    let r1 = IsChain-front c.previous c.next (some i) p (y ∷ ys) none simples.1 parts.1.2 in
    record {
      lru = head_before xs (y ∷ ys) i c.lru r.lru;
      mru = r.mru ∙ (last-append xs (i ∷ y ∷ ys) none ∙ sym (last-append xs (y ∷ ys) none));
      left =
          (IsChain-off_at c.previous (update_at c.next p (some y)) none xs (some y) (some y) p p
            (head-IsOffAt xs (y ∷ ys) simple) l1).0;
      right =
          (IsChain-off_at (update_at c.previous (some y) p) c.next p (y ∷ ys) none p p (some y)
            (last-IsOffAt xs (y ∷ ys) simple) r1).1;
      simple = simple;
      counted =
          omega
            (arith, r.counted, r.small, length-append xs (y ∷ ys), length-append xs (i ∷ y ∷ ys));
      small = omega (arith, r.small, length-append xs (y ∷ ys), length-append xs (i ∷ y ∷ ys));
    }

-- ===== src/Cache/Rebuild.antt =====
-- `cache_rebuild_bmpcache_linked_list` and `cache_save_state` by the list of recent use.
use rdesktop.Common.{
  ℕ, zero, suc, ◌+◌, ◌^◌, ◌<◌, ◌≤◌, ◌≡◌, refl, sym, ◌∙◌, arith, Bool, true, false,
}
use rdesktop.Common.{List, [], ◌∷◌, Option, none, some, All, length, if◌then◌else◌, ◌==◌, ◌||◌}
use rdesktop.Common.{ok, exit, inconsistent, Bool-cases, inl, inr, u32}
use mathlib.Core.Path.{subst}
use rdesktop.Cache.{
  BmpCache, Call, touch, update, held, link_down, rebuild, cache_rebuild_bmpcache_linked_list,
}
use rdesktop.Cache.{save_loop, cache_save_state, num_elements}
use rdesktop.Cache.Chain.{
  Links, head_of, last_of, IsChain, IsOff, IsSimple, IsChain-off, update_same, update_other,
}
use rdesktop.Cache.Insert.{IsLru}

-- `down` from its last element on, before `acc`.
abbrev pub upwards : List ℕ → List ℕ → List ℕ
upwards [] acc = acc
upwards (i ∷ is) acc = upwards is (i ∷ acc)

-- The entries from `n_idx` on are linked, its own previous entry left open.
record IsOpen (c : BmpCache) (n_idx : ℕ) (done : List ℕ) : Type 0 where
  pub next : c.next n_idx ≡ head_of done none
  pub chain : IsChain c.previous c.next (some n_idx) done none
  pub mru : c.mru ≡ last_of done (some n_idx)

-- No element is twice in the two lists.
abbrev IsApart : List ℕ → List ℕ → Type 0
IsApart [] done = IsSimple done
IsApart (i ∷ is) done = IsOff i done × IsApart is (i ∷ done)

IsApart-IsSimple : (is done : List ℕ) → IsApart is done → IsSimple done
IsApart-IsSimple [] done a = a
IsApart-IsSimple (i ∷ is) done (off, a) = (IsApart-IsSimple is (i ∷ done) a).1

upwards-IsSimple : (is done : List ℕ) → IsApart is done → IsSimple (upwards is done)
upwards-IsSimple [] done a = a
upwards-IsSimple (i ∷ is) done (off, a) = upwards-IsSimple is (i ∷ done) a

link_down_lem :
    (is : List ℕ) (n_idx : ℕ) (done : List ℕ) (c : BmpCache)
    → IsOpen c n_idx done
    → IsApart is (n_idx ∷ done)
    → let c' = link_down n_idx is c in
      (c'.lru ≡ head_of (upwards is (n_idx ∷ done)) none)
      × (c'.mru ≡ last_of (upwards is (n_idx ∷ done)) none)
      × IsChain c'.previous c'.next none (upwards is (n_idx ∷ done)) none
      × (c'.count ≡ c.count)
      × (c'.bitmap ≡ c.bitmap)
      × (c'.persistent ≡ c.persistent)
unfolding link_down
link_down_lem [] n_idx done c o a = (
  refl,
  o.mru,
  (
    update_same c.previous n_idx none,
    o.next,
    (IsChain-off c.previous c.next (some n_idx) done none n_idx none none a.0 o.chain).0,
  ),
  refl,
  refl,
  refl,
)
link_down_lem (i ∷ is) n_idx done c o (off, a) =
    let simple = IsApart-IsSimple is (i ∷ n_idx ∷ done) a in
    let prev1 = update c.previous n_idx (some i) in
    let c1 =
      (IsChain-off c.previous c.next (some n_idx) done none n_idx (some i) none simple.1.0
        o.chain).0 in
    link_down_lem is i (n_idx ∷ done)
      (record c { previous = prev1; next = update c.next i (some n_idx) })
      (record {
        next = update_same c.next i (some n_idx);
        chain = (
          update_same c.previous n_idx (some i),
          update_other c.next i n_idx (some n_idx) off.0 ∙ o.next,
          (IsChain-off prev1 c.next (some n_idx) done none i none (some n_idx) off.1 c1).1,
        );
        mru = o.mru;
      })
      a

upwards-size : (is acc : List ℕ) → length (upwards is acc) ≡ length is + length acc
upwards-size [] acc = omega arith
upwards-size (i ∷ is) acc = let e = upwards-size is (i ∷ acc) in omega (arith, e)

apart :
    (is done : List ℕ) → IsSimple is → IsSimple done → All (λ i. IsOff i done) is → IsApart is done
apart [] done s sd off = sd
apart (i ∷ is) done (here, s) sd (off, offs) =
    (off, apart is (i ∷ done) s (off, sd) (both is here offs))
  where
    both :
        (js : List ℕ) → IsOff i js → All (λ j. IsOff j done) js → All (λ j. IsOff j (i ∷ done)) js
    both [] a b = tt
    both (j ∷ js) (d, a) (o, b) = (((λ e. d (sym e)), o), both js a b)

nothing-IsOff : (is : List ℕ) → All (λ i. IsOff i []) is
nothing-IsOff [] = tt
nothing-IsOff (i ∷ is) = (tt, nothing-IsOff is)

held-IsOff : (f : ℕ → ℕ) (i : ℕ) (is : List ℕ) → IsOff i is → IsOff i (held f is)
unfolding held
held-IsOff f i [] off = tt
held-IsOff f i (j ∷ is) (d, off) = elim (Bool-cases (f j == 0)) [
  | inl empty ↦ rw empty (held-IsOff f i is off)
  | inr full ↦ rw full (d, held-IsOff f i is off)
]

held-IsSimple : (f : ℕ → ℕ) (is : List ℕ) → IsSimple is → IsSimple (held f is)
unfolding held
held-IsSimple f [] s = tt
held-IsSimple f (i ∷ is) (off, s) = elim (Bool-cases (f i == 0)) [
  | inl empty ↦ rw empty (held-IsSimple f is s)
  | inr full ↦ rw full (held-IsOff f i is off, held-IsSimple f is s)
]

rebuild-IsLru :
    (c : BmpCache) (order : List ℕ)
    → IsSimple order
    → length order ≡ c.count
    → length order < 2 ^ 31
    → IsLru (rebuild order c) (upwards order []) × ((rebuild order c).bitmap ≡ c.bitmap)
unfolding rebuild
rebuild-IsLru c [] s e small = (
  record { lru = refl; mru = refl; chain = tt; simple = tt; counted = sym e; small = omega arith },
  refl,
)
rebuild-IsLru c (top ∷ is) s e small =
    let a = apart (top ∷ is) [] s tt (nothing-IsOff (top ∷ is)) in
    let (first, last, chain, count, bitmap, on) =
      link_down_lem is top [] (record c { mru = some top; next = update c.next top none })
        (record { next = update_same c.next top none; chain = tt; mru = refl }) a.1 in
    let size = upwards-size is (top ∷ []) in
    (
      record {
        lru = first;
        mru = last;
        chain = chain;
        simple = upwards-IsSimple is (top ∷ []) a.1;
        counted = omega (arith, count, e, size);
        small = omega (arith, small, size);
      },
      bitmap,
    )

agrees :
    (a b : Bool) (c : BmpCache) → b ≡ true → (if a || b then ok c else exit inconsistent) ≡ ok c
agrees true b c e = refl
agrees false b c e = rw e refl

-- The list is rebuilt from the indices of the cells, each once: where as many of them hold a bitmap
-- as the cache counts, the call returns normally, those are then the list of recent use, with the
-- last of the indices as the least recent entry, and every entry keeps its bitmap.
pub cache_rebuild-links :
    (c : BmpCache) (down : List ℕ)
    → IsSimple down
    → length (held c.bitmap down) ≡ c.count
    → c.count < 2 ^ 31
    → (c' : BmpCache) × ((cache_rebuild_bmpcache_linked_list down c ≡ ok c')
        × IsLru c' (upwards (held c.bitmap down) [])
        × (c'.bitmap ≡ c.bitmap))
unfolding cache_rebuild_bmpcache_linked_list
cache_rebuild-links c down s e small =
    let order = held c.bitmap down in
    let (list, same) =
      rebuild-IsLru c order (held-IsSimple c.bitmap down s) e (omega (arith, e, small)) in
    let agree : (length order == c.count) ≡ true = ground arith in
    (
      rebuild order c,
      (agrees (length order == 0) (length order == c.count) (rebuild order c) agree, list, same),
    )

-- The stamps that a list gets, in its order, after the stamp `t`.
abbrev pub stamps : ℕ → List ℕ → List Call
stamps t [] = []
stamps t (i ∷ is) = touch i (u32 (t + 1)) ∷ stamps (u32 (t + 1)) is

save_loop_lem :
    (fuel t : ℕ) (previous : Links) (c : BmpCache) (p : Option ℕ) (l : List ℕ)
    → IsChain previous c.next p l none
    → length l ≤ fuel
    → save_loop fuel t (head_of l none) c ≡ ok (stamps t l)
unfolding save_loop
save_loop_lem fuel t previous c p [] chain enough = refl
save_loop_lem zero t previous c p (x ∷ l) chain enough = absurd (omega (arith, enough))
save_loop_lem (suc fuel) t previous c p (x ∷ l) chain enough =
    rw
      (
        chain.1,
        save_loop_lem fuel (u32 (t + 1)) previous c (some x) l chain.2 (omega (arith, enough)),
      )
      refl

-- When the state is saved, the loop along the list of recent use ends, after each entry of the list
-- got its stamp: one more for each, from the least recent entry on.
pub cache_save_state-stamps :
    (t : ℕ) (c : BmpCache) (l : List ℕ)
    → c.persistent ≡ true
    → IsLru c l
    → length l ≤ num_elements
    → cache_save_state t c ≡ ok (stamps t l)
unfolding cache_save_state
cache_save_state-stamps t c l on r small =
    subst (λ b. (if b then save_loop num_elements t c.lru c else ok []) ≡ ok (stamps t l)) (sym on)
      (subst (λ o. save_loop num_elements t o c ≡ ok (stamps t l)) (sym r.lru)
        (save_loop_lem num_elements t c.previous c none l r.chain small))

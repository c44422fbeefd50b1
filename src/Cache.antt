-- ===== src/Cache.antt =====
-- cache.c: the bitmap cache with its list of recent use, and from pstcache.c the loading of a cell.
-- One cache is modelled by itself, since the functions touch the one with the given id only. A
-- bitmap is a handle, 0 is NULL; an index of a `sint16` or an `int` is `none` where it is NOT_SET.
pub mod Chain
pub mod Insert
pub mod Bump
pub mod Lru
pub mod Rebuild
pub mod Desktop
pub mod Resources
mod Tests
use rdesktop.Common.{
  ℕ, zero, suc, ◌+◌, ◌-◌, ◌%◌, ◌^◌, Bool, true, false, ◌&&◌, ◌||◌, not, ltb, leb, ◌==◌,
}
use rdesktop.Common.{if◌then◌else◌, List, [], ◌∷◌, ◌++◌, Option, none, some, u32}
use rdesktop.Common.{Result, ok, exit, undefined, inconsistent, forever, ◌>>=◌, length}

-- `NUM_ELEMENTS(g_bmpcache[0])`
abbrev pub num_elements : ℕ
num_elements = 0xa00

abbrev pub num_pstcells : ℕ
num_pstcells = 0x9f6

abbrev pub c2_cells : ℕ
c2_cells = 0x150

abbrev pub bump_count : ℕ
bump_count = 40

-- What the cache asks of others, in order: `ui_destroy_bitmap`, and `pstcache_touch_bitmap` with an
-- index and a stamp.
pub data Call : Type 0 where
  destroy : ℕ → Call
  touch : ℕ → ℕ → Call

-- The part of the static variables with one id, and whether `g_pstcache_fd[id] > 0`. The fields of
-- the entries are functions of the index.
pub record BmpCache : Type 0 where
  pub persistent : Bool
  pub bitmap : ℕ → ℕ
  pub previous : ℕ → Option ℕ
  pub next : ℕ → Option ℕ
  pub lru : Option ℕ
  pub mru : Option ℕ
  pub count : ℕ
  pub volatile_bc : ℕ
  pub volatile_width : ℕ
  pub volatile_height : ℕ
  pub calls : List Call

-- An assignment to one element.
abbrev pub update {ℓ} : {A : Type ℓ} → (ℕ → A) → ℕ → A → ℕ → A
update f i v j = if i == j then v else f j

-- `if (IS_SET(i)) a[i] = v`
unfoldable pub update_at : (ℕ → Option ℕ) → Option ℕ → Option ℕ → ℕ → Option ℕ
update_at f none v = f
update_at f (some i) v = update f i v

abbrev pub is_set : Option ℕ → Bool
is_set none = false
is_set (some i) = true

abbrev pub same_index : Option ℕ → ℕ → Bool
same_index none i = false
same_index (some j) i = j == i

-- An element leaves the list, between `p` and `n`, of which the second is set.
unfoldable pub remove : Option ℕ → Option ℕ → BmpCache → BmpCache
unfolding update_at
remove p n c = record c {
  count = u32 (c.count + 2 ^ 32 - 1);
  next = update_at c.next p n;
  lru = if is_set p then c.lru else n;
  previous = update_at c.previous n p;
}

-- `for (n = 0; n < bump && IS_SET(n_idx); n++)`, from the pair `(p_idx, n_idx)`.
unfoldable pub walk : (ℕ → Option ℕ) → ℕ → Option ℕ → Option ℕ → Option ℕ × Option ℕ
walk next zero p n = (p, n)
walk next (suc bump) p none = (p, none)
walk next (suc bump) p (some i) = walk next bump (some i) (next i)

unfoldable pub insert : ℕ → Option ℕ → Option ℕ → BmpCache → BmpCache
unfolding update_at
insert idx p n c = record c {
  count = u32 (c.count + 1);
  previous = update_at (update c.previous idx p) n (some idx);
  next = update_at (update c.next idx n) p (some idx);
  lru = if is_set p then c.lru else some idx;
  mru = if is_set n then c.mru else some idx;
}

-- The place for an element, from its neighbours `p` and `n`: `bump` steps on, or the end of the list
-- for `none`, which is TO_TOP.
unfoldable pub place : Option ℕ → Option ℕ → Option ℕ → BmpCache → Option ℕ × Option ℕ
unfolding walk
place none p n c = (c.mru, none)
place (some bump) p n c = walk c.next bump p n

abbrev pub insert_at : ℕ → Option ℕ × Option ℕ → BmpCache → BmpCache
insert_at idx (p, n) c = insert idx p n c

-- An element with the next element `n` moves; one without is put in.
unfoldable pub move_from : ℕ → Option ℕ → Option ℕ → BmpCache → BmpCache
unfolding remove place insert
move_from idx bump none c = insert_at idx (place bump none c.lru c) c
move_from idx bump (some n) c =
    let removed = remove (c.previous idx) (some n) c in
    insert_at idx (place bump (c.previous idx) (some n) removed) removed

unfoldable pub cache_bump_bitmap : ℕ → Option ℕ → BmpCache → BmpCache
unfolding move_from
cache_bump_bitmap idx bump c =
    if not c.persistent
    then c
    else (if same_index c.mru idx then c else move_from idx bump (c.next idx) c)

-- `g_bmpcache[id][n_idx].previous` with a negative index is outside the array.
unfoldable pub evict : ℕ → BmpCache → Result BmpCache
evict idx c = elim (c.next idx) [
  | none ↦ exit undefined
  | some n ↦ ok (record c {
    count = u32 (c.count + 2 ^ 32 - 1);
    bitmap = update c.bitmap idx 0;
    lru = some n;
    previous = update c.previous n none;
    calls = c.calls ++ (destroy (c.bitmap idx) ∷ touch idx 0 ∷ []);
  })
]

unfoldable pub evict_at : Option ℕ → BmpCache → Result BmpCache
unfolding evict
evict_at none c = exit undefined
evict_at (some idx) c = evict idx c

unfoldable pub cache_evict_bitmap : BmpCache → Result BmpCache
unfolding evict_at
cache_evict_bitmap c = if not c.persistent then ok c else evict_at c.lru c

-- `destroy` for an old bitmap, if there is one.
abbrev pub destroy_old : ℕ → List Call
destroy_old old = if old == 0 then [] else destroy old ∷ []

-- A signed 32-bit count above the number of cells.
abbrev pub is_above : ℕ → Bool
is_above count = ltb c2_cells count && ltb count (2 ^ 31)

abbrev pub put_entry : ℕ → ℕ → BmpCache → BmpCache
put_entry idx bmp c = record c {
  bitmap = update c.bitmap idx bmp;
  calls = c.calls ++ destroy_old (c.bitmap idx);
}

-- The neighbours of an entry that held no bitmap are reset.
abbrev pub reset_links : Bool → ℕ → BmpCache → BmpCache
reset_links false idx c = c
reset_links true idx c = record c {
  previous = update c.previous idx none;
  next = update c.next idx none;
}

unfoldable pub put_persistent : ℕ → ℕ → BmpCache → Result BmpCache
unfolding cache_bump_bitmap cache_evict_bitmap
put_persistent idx bmp c =
    let linked = reset_links (c.bitmap idx == 0) idx (put_entry idx bmp c) in
    let bumped = cache_bump_bitmap idx none linked in
    if is_above bumped.count then cache_evict_bitmap bumped else ok bumped

-- With an id below 3.
unfoldable pub cache_put_bitmap : ℕ → ℕ → BmpCache → Result BmpCache
unfolding put_persistent
cache_put_bitmap idx bmp c =
    if ltb idx num_elements
    then (if c.persistent then put_persistent idx bmp c else ok (put_entry idx bmp c))
    else (if idx == 0x7fff
        then ok (record c {
          volatile_bc = bmp;
          volatile_width = 0;
          volatile_height = 0;
          calls = c.calls ++ destroy_old c.volatile_bc;
        })
        else ok c)

unfoldable pub cache_put_bitmap_with_dimensions :
    (idx bmp width height : ℕ) → BmpCache → Result BmpCache
unfolding cache_put_bitmap
cache_put_bitmap_with_dimensions idx bmp width height c = do
  c1 ← cache_put_bitmap idx bmp c
  ok (
      if idx == 0x7fff && c1.volatile_bc == bmp
      then record c1 { volatile_width = width; volatile_height = height }
      else c1)

-- `loaded` is what `ui_create_bitmap` makes of a cell of the file, and `enabled` is
-- `g_bitmap_cache_persist_enable`.
unfoldable pub pstcache_load_bitmap : Bool → (ℕ → ℕ) → ℕ → BmpCache → Result (Bool × BmpCache)
unfolding cache_put_bitmap
pstcache_load_bitmap enabled loaded idx c =
    if not enabled
    then ok (false, c)
    else (if not c.persistent || leb num_pstcells idx
        then ok (false, c)
        else (do c1 ← cache_put_bitmap idx (loaded idx) c; ok (true, c1)))

-- The bitmap that is returned, after the bump.
abbrev pub fetch : ℕ → BmpCache → ℕ × BmpCache
fetch idx c = (c.bitmap idx, if c.persistent then cache_bump_bitmap idx (some bump_count) c else c)

unfoldable pub cache_get_bitmap : Bool → (ℕ → ℕ) → ℕ → BmpCache → Result (ℕ × BmpCache)
unfolding cache_bump_bitmap
cache_get_bitmap enabled loaded idx c =
    if ltb idx num_elements
    then (if not (c.bitmap idx == 0) then ok (fetch idx c) else (do
      (found, c1) ← pstcache_load_bitmap enabled loaded idx c
      ok (if found then fetch idx c1 else (0, c1))))
    else (if idx == 0x7fff then ok (c.volatile_bc, c) else ok (0, c))

unfoldable pub cache_get_bitmap_for_update : (idx width height : ℕ) → BmpCache → ℕ
cache_get_bitmap_for_update idx width height c =
    if idx == 0x7fff
      && not (c.volatile_bc == 0)
      && c.volatile_width == width
      && c.volatile_height == height
    then c.volatile_bc
    else 0

-- `while (--n >= 0 && …bitmap == NULL)`: the entries that hold a bitmap, of the order of `idx` from
-- its end on.
unfoldable pub held : (ℕ → ℕ) → List ℕ → List ℕ
held bitmap [] = []
held bitmap (i ∷ is) = if bitmap i == 0 then held bitmap is else i ∷ held bitmap is

-- The list is linked from an entry downwards: `n_idx`, and those that come after it in the loop.
unfoldable pub link_down : ℕ → List ℕ → BmpCache → BmpCache
link_down n_idx [] c = record c { previous = update c.previous n_idx none; lru = some n_idx }
link_down n_idx (i ∷ is) c =
    link_down i is (record c {
      previous = update c.previous n_idx (some i);
      next = update c.next i (some n_idx);
    })

-- The entries that hold a bitmap, from the top on.
unfoldable pub rebuild : List ℕ → BmpCache → BmpCache
unfolding link_down
rebuild [] c = record c { lru = none; mru = none }
rebuild (top ∷ is) c = link_down top is (record c { mru = some top; next = update c.next top none })

-- `idx` from its end on, which is how the loop reads it.
unfoldable pub cache_rebuild_bmpcache_linked_list : List ℕ → BmpCache → Result BmpCache
unfolding held rebuild
cache_rebuild_bmpcache_linked_list down c =
    let order = held c.bitmap down in
    let linked = rebuild order c in
    if length order == 0 || length order == c.count then ok linked else exit inconsistent

-- `cache_save_state`, for one id: the stamps after `t` go along the list. With fuel for each entry of
-- the table, a list that goes on is a cycle.
unfoldable pub save_loop : ℕ → ℕ → Option ℕ → BmpCache → Result (List Call)
save_loop fuel t none c = ok []
save_loop zero t (some i) c = exit forever
save_loop (suc fuel) t (some i) c = do
  later ← save_loop fuel (u32 (t + 1)) (c.next i) c
  ok (touch i (u32 (t + 1)) ∷ later)

unfoldable pub cache_save_state : ℕ → BmpCache → Result (List Call)
unfolding save_loop
cache_save_state t c = if c.persistent then save_loop num_elements t c.lru c else ok []

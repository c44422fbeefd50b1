-- ===== src/Cache/Desktop.antt =====
-- cache.c: the desktop cache. The sides of a rectangle are not negative; their product is an `int`,
-- which is undefined from 2 ^ 31 on; its sum with the offset is a `uint32`.
use rdesktop.Common.{
  ℕ, zero, suc, ◌+◌, ◌-◌, ◌*◌, ◌^◌, ◌<◌, ◌≤◌, ◌≡◌, refl, sym, ◌∙◌, ap, arith, true, false,
}
use rdesktop.Common.{
  Option, none, some, if◌then◌else◌, leb, ltb, ◌&&◌, Result, ok, Returns, exit, undefined,
  Bool-cases, inl, inr, u32,
}
use rdesktop.Common.{◌⊎◌}
use mathlib.Core.Path.{subst}
use native.Mathlib.Nat.{mul_assoc, mul_comm}

-- `g_deskcache`, and what an image pointer points to, by the position.
abbrev pub Memory : Type 0
Memory = ℕ → ℕ

abbrev pub deskcache_size : ℕ
deskcache_size = 0x38400 * 4

-- The offset that is used.
abbrev pub start : ℕ → ℕ
start offset = if leb offset deskcache_size then offset else 0

-- What is returned is a position of the cache.
unfoldable pub cache_get_desktop : (offset cx cy bytes_per_pixel : ℕ) → Result (Option ℕ)
cache_get_desktop offset cx cy bytes_per_pixel =
    let size = cx * cy * bytes_per_pixel in
    if leb (2 ^ 31) size
    then exit undefined
    else ok (if leb (u32 (start offset + size)) deskcache_size then some (start offset) else none)

-- `memcpy(&g_deskcache[offset], bytes, cx)`
abbrev pub copy_row : ℕ → ℕ → Memory → Memory → Memory
copy_row offset cx bytes cache j =
    if leb offset j && ltb j (offset + cx) then bytes (j - offset) else cache j

-- `while (cy--)`
unfoldable pub put_rows : (cy offset cx scanline : ℕ) → Memory → Memory → Memory
put_rows zero offset cx scanline bytes cache = cache
put_rows (suc cy) offset cx scanline bytes cache =
    put_rows cy (offset + cx) cx scanline (λ j. bytes (j + scanline))
      (copy_row offset cx bytes cache)

unfoldable pub cache_put_desktop :
    (offset cx cy scanline bytes_per_pixel : ℕ) → Memory → Memory → Result Memory
unfolding put_rows
cache_put_desktop offset cx cy scanline bytes_per_pixel bytes cache =
    let size = cx * cy * bytes_per_pixel in
    if leb (2 ^ 31) size
    then exit undefined
    else ok (
        if leb (u32 (start offset + size)) deskcache_size
        then put_rows cy (start offset) (cx * bytes_per_pixel) scanline bytes cache
        else cache)

row_in :
    (offset cx x : ℕ) (bytes cache : Memory)
    → x < cx
    → copy_row offset cx bytes cache (offset + x) ≡ bytes x
row_in offset cx x bytes cache h =
    let e : (leb offset (offset + x) && ltb (offset + x) (offset + cx)) ≡ true = ground arith in
    let d : offset + x - offset ≡ x = omega arith in rw e (ap bytes d)

row_before :
    (offset cx j : ℕ) (bytes cache : Memory)
    → j < offset
    → copy_row offset cx bytes cache j ≡ cache j
row_before offset cx j bytes cache h =
    let e : (leb offset j && ltb j (offset + cx)) ≡ false = ground arith in rw e refl

row_after :
    (offset cx j : ℕ) (bytes cache : Memory)
    → offset + cx ≤ j
    → copy_row offset cx bytes cache j ≡ cache j
row_after offset cx j bytes cache h =
    let e : (leb offset j && ltb j (offset + cx)) ≡ false = ground arith in rw e refl

rows_before :
    (cy offset cx scanline j : ℕ) (bytes cache : Memory)
    → j < offset
    → put_rows cy offset cx scanline bytes cache j ≡ cache j
unfolding put_rows
rows_before zero offset cx scanline j bytes cache h = refl
rows_before (suc cy) offset cx scanline j bytes cache h =
    rows_before cy (offset + cx) cx scanline j _ _ (omega (arith, h))
    ∙ row_before offset cx j bytes cache h

rows_after :
    (cy offset cx scanline j : ℕ) (bytes cache : Memory)
    → offset + cy * cx ≤ j
    → put_rows cy offset cx scanline bytes cache j ≡ cache j
unfolding put_rows
rows_after zero offset cx scanline j bytes cache h = refl
rows_after (suc cy) offset cx scanline j bytes cache h =
    let more : (offset + cx) + cy * cx ≤ j = omega (arith, h) in
    rows_after cy (offset + cx) cx scanline j _ _ more
    ∙ row_after offset cx j bytes cache (omega (arith, more))

rows_in :
    (cy offset cx scanline x y : ℕ) (bytes cache : Memory)
    → x < cx
    → y < cy
    → put_rows cy offset cx scanline bytes cache (offset + y * cx + x) ≡ bytes (y * scanline + x)
unfolding put_rows
rows_in zero offset cx scanline x y bytes cache hx hy = absurd (omega (arith, hy))
rows_in (suc cy) offset cx scanline x zero bytes cache hx hy =
    let at : offset + 0 * cx + x ≡ offset + x = omega arith in
    let from : 0 * scanline + x ≡ x = omega arith in
    rw (at, from)
      (rows_before cy (offset + cx) cx scanline (offset + x) _ _ (omega (arith, hx))
        ∙ row_in offset cx x bytes cache hx)
rows_in (suc cy) offset cx scanline x (suc y) bytes cache hx hy =
    let to : offset + suc y * cx + x ≡ (offset + cx) + y * cx + x = omega arith in
    let from : suc y * scanline + x ≡ (y * scanline + x) + scanline = omega arith in
    rw (to, from) (rows_in cy (offset + cx) cx scanline x y _ _ hx (omega (arith, hy)))

row_size : (cx cy bytes_per_pixel : ℕ) → cy * (cx * bytes_per_pixel) ≡ cx * cy * bytes_per_pixel
row_size cx cy b = sym (mul_assoc cy cx b) ∙ ap (λ n. n * b) (mul_comm cy cx)

start_le : (offset : ℕ) → start offset ≤ deskcache_size
start_le offset = ground arith

no_wrap : (o size : ℕ) → o ≤ deskcache_size → size < 2 ^ 31 → u32 (o + size) ≡ o + size
no_wrap o size h small = omega (arith, h, small)

fits_in :
    (offset size : ℕ)
    → size < 2 ^ 31
    → leb (u32 (start offset + size)) deskcache_size ≡ true
    → start offset + size ≤ deskcache_size
fits_in offset size small fits =
    let e = no_wrap (start offset) size (start_le offset) small in
    let h : leb (start offset + size) deskcache_size ≡ true =
      subst (λ n. leb n deskcache_size ≡ true) e fits in
    ground arith

-- Whatever the offset and the sides are, the call writes no byte outside the cache.
pub cache_put_desktop-inside :
    (offset cx cy scanline bytes_per_pixel : ℕ) (bytes cache : Memory)
    → Returns
        (λ cache'. (j : ℕ) → deskcache_size ≤ j → cache' j ≡ cache j)
        (cache_put_desktop offset cx cy scanline bytes_per_pixel bytes cache)
unfolding cache_put_desktop
cache_put_desktop-inside offset cx cy scanline bpp bytes cache =
    let size = cx * cy * bpp in
    elim (Bool-cases (leb (2 ^ 31) size)) [
      | inl large ↦ rw large tt
      | inr small ↦ elim (Bool-cases (leb (u32 (start offset + size)) deskcache_size)) [
        | inl fits ↦
            rw (small, fits)
              (λ j h. rows_after cy (start offset) (cx * bpp) scanline j bytes cache (
                let e = row_size cx cy bpp in
                let n = fits_in offset size (ground arith) fits in omega (arith, e, n, h)))
        | inr out ↦ rw (small, out) (λ j h. refl)
      ]
    ]

-- An image that fits into the cache, put there and looked up with the same offset and sides: both
-- calls return normally, and the second one gives the position of the image, whose rows are those of
-- the image without what lies between them. No other byte of the cache changes.
pub cache_put_desktop-get :
    (offset cx cy scanline bytes_per_pixel : ℕ) (bytes cache : Memory)
    → cx * cy * bytes_per_pixel < 2 ^ 31
    → start offset + cx * cy * bytes_per_pixel ≤ deskcache_size
    → (cache' : Memory) × ((cache_put_desktop offset cx cy scanline bytes_per_pixel bytes cache
          ≡ ok cache')
        × (cache_get_desktop offset cx cy bytes_per_pixel ≡ ok (some (start offset)))
        × ((x y : ℕ)
            → x < cx * bytes_per_pixel
            → y < cy
            → cache' (start offset + y * (cx * bytes_per_pixel) + x) ≡ bytes (y * scanline + x))
        × ((j : ℕ)
            → (j < start offset) ⊎ (start offset + cx * cy * bytes_per_pixel ≤ j)
            → cache' j ≡ cache j))
unfolding cache_put_desktop cache_get_desktop
cache_put_desktop-get offset cx cy scanline bpp bytes cache small fits =
    let size = cx * cy * bpp in
    let inside : leb (2 ^ 31) size ≡ false = ground arith in
    let here : leb (u32 (start offset + size)) deskcache_size ≡ true =
      rw (no_wrap (start offset) size (start_le offset) small) (ground arith) in
    let e = row_size cx cy bpp in
    (
      put_rows cy (start offset) (cx * bpp) scanline bytes cache,
      (
        rw (inside, here) refl,
        rw (inside, here) refl,
        (λ x y hx hy. rows_in cy (start offset) (cx * bpp) scanline x y bytes cache hx hy),
        (λ j out. elim out [
          | inl before ↦ rows_before cy (start offset) (cx * bpp) scanline j bytes cache before
          | inr after ↦
              rows_after cy (start offset) (cx * bpp) scanline j bytes cache
                (omega (arith, e, after))
        ]),
      ),
    )

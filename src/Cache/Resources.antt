-- ===== src/Cache/Resources.antt =====
-- cache.c: the caches of glyphs, texts, cursors and brushes. A handle and a pointer are numbers, 0 is
-- NULL; the block of a text is its bytes. The fields `data` are `bytes`.
use rdesktop.Common.{ℕ, ◌<◌, ◌≡◌, ◌≢◌, refl, ◌∙◌, ap, arith, true, false, not}
use rdesktop.Common.{
  List, [], ◌∷◌, ◌++◌, Option, none, some, if◌then◌else◌, ltb, ◌&&◌, ◌==◌, Bool-cases, inl, inr,
  ◌⊎◌, take,
}
use rdesktop.Cache.{update}
use rdesktop.Cache.Chain.{update_same, update_other}

-- What is given back, in order: `ui_destroy_glyph`, `ui_destroy_cursor`, and `xfree` of the
-- block of a text, by its index, and of a brush.
pub data Release : Type 0 where
  glyph : ℕ → Release
  cursor : ℕ → Release
  text : ℕ → Release
  brush : ℕ → Release

pub record FontGlyph : Type 0 where
  pub offset : ℕ
  pub baseline : ℕ
  pub width : ℕ
  pub height : ℕ
  pub pixmap : ℕ

pub record Blob : Type 0 where
  pub bytes : Option (List ℕ)
  pub size : ℕ

pub record BrushData : Type 0 where
  pub colour_code : ℕ
  pub data_size : ℕ
  pub bytes : ℕ

-- The rows of `g_fontcache` and of `g_brushcache` are functions.
pub record Resources : Type 0 where
  pub fonts : ℕ → ℕ → FontGlyph
  pub texts : ℕ → Blob
  pub cursors : ℕ → ℕ
  pub brushes : ℕ → ℕ → BrushData
  pub released : List Release

-- An old value that is not NULL is given back.
abbrev pub release_old : (ℕ → Release) → ℕ → List Release
release_old kind old = if old == 0 then [] else kind old ∷ []

abbrev pub num_fonts : ℕ
num_fonts = 12

abbrev pub num_characters : ℕ
num_characters = 256

unfoldable pub cache_get_font : (font character : ℕ) → Resources → Option FontGlyph
cache_get_font font character c =
    if ltb font num_fonts
      && ltb character num_characters
      && not ((c.fonts font character).pixmap == 0)
    then some (c.fonts font character)
    else none

unfoldable pub cache_put_font : (font character : ℕ) → FontGlyph → Resources → Resources
cache_put_font font character new c =
    if ltb font num_fonts && ltb character num_characters
    then record c {
      fonts = update c.fonts font (update (c.fonts font) character new);
      released = c.released ++ release_old glyph (c.fonts font character).pixmap;
    }
    else c

unfoldable pub cache_get_text : ℕ → Resources → Blob
cache_get_text cache_id c = c.texts cache_id

abbrev pub release_text : ℕ → Option (List ℕ) → List Release
release_text cache_id none = []
release_text cache_id (some old) = text cache_id ∷ []

unfoldable pub cache_put_text : (cache_id : ℕ) → List ℕ → (length : ℕ) → Resources → Resources
cache_put_text cache_id bytes length c = record c {
  texts = update c.texts cache_id (record { bytes = some (take length bytes); size = length });
  released = c.released ++ release_text cache_id (c.texts cache_id).bytes;
}

abbrev pub num_cursors : ℕ
num_cursors = 0x20

unfoldable pub cache_get_cursor : ℕ → Resources → ℕ
cache_get_cursor cache_idx c = if ltb cache_idx num_cursors then c.cursors cache_idx else 0

unfoldable pub cache_put_cursor : (cache_idx cursor : ℕ) → Resources → Resources
cache_put_cursor cache_idx new c =
    if ltb cache_idx num_cursors
    then record c {
      cursors = update c.cursors cache_idx new;
      released = c.released ++ release_old cursor (c.cursors cache_idx);
    }
    else c

abbrev pub num_brushes : ℕ
num_brushes = 64

-- Two colours are row 0, all others row 1.
abbrev pub brush_row : ℕ → ℕ
brush_row colour_code = if colour_code == 1 then 0 else 1

unfoldable pub cache_get_brush_data : (colour_code idx : ℕ) → Resources → Option BrushData
cache_get_brush_data colour_code idx c =
    if ltb idx num_brushes then some (c.brushes (brush_row colour_code) idx) else none

unfoldable pub cache_put_brush_data : (colour_code idx : ℕ) → BrushData → Resources → Resources
cache_put_brush_data colour_code idx new c =
    let row = brush_row colour_code in
    if ltb idx num_brushes
    then record c {
      brushes = update c.brushes row (update (c.brushes row) idx new);
      released = c.released ++ release_old brush (c.brushes row idx).bytes;
    }
    else c

-- The element of two indices in a table of which one element was assigned.
cell_same :
    (f : ℕ → ℕ → FontGlyph) (i j : ℕ) (v : FontGlyph) → update f i (update (f i) j v) i j ≡ v
cell_same f i j v = ap (λ row. row j) (update_same f i (update (f i) j v)) ∙ update_same (f i) j v

cell_other :
    (f : ℕ → ℕ → FontGlyph) (i j i' j' : ℕ) (v : FontGlyph)
    → (i' ≢ i) ⊎ (j' ≢ j)
    → update f i (update (f i) j v) i' j' ≡ f i' j'
cell_other f i j i' j' v apart = elim (Bool-cases (i == i')) [
  | inl same ↦ elim apart [
    | inl rows ↦ absurd (ground arith)
    | inr columns ↦
        let e : i ≡ i' = ground arith in
        rw same (update_other (f i) j j' v columns ∙ ap (λ k. f k j') e)
  ]
  | inr other ↦ rw other refl
]

-- A glyph that is put into the font cache in range is what is looked up there, no other look-up
-- changes, and exactly the old glyph, if there was one, is destroyed.
pub cache_put_font-get :
    (font character : ℕ) (new : FontGlyph) (c : Resources)
    → font < num_fonts
    → character < num_characters
    → new.pixmap ≢ 0
    → (cache_get_font font character (cache_put_font font character new c) ≡ some new)
      × ((font' character' : ℕ)
          → (font' ≢ font) ⊎ (character' ≢ character)
          → cache_get_font font' character' (cache_put_font font character new c)
            ≡ cache_get_font font' character' c)
      × ((cache_put_font font character new c).released
          ≡ c.released ++ release_old glyph (c.fonts font character).pixmap)
unfolding cache_get_font cache_put_font
cache_put_font-get font character new c hf hc set =
    let f : ltb font num_fonts ≡ true = ground arith in
    let h : ltb character num_characters ≡ true = ground arith in
    let n : (new.pixmap == 0) ≡ false = ground arith in
    (
      rw (f, h, cell_same c.fonts font character new, n) refl,
      (λ font' character' apart.
          rw (f, h, cell_other c.fonts font character font' character' new apart) refl),
      rw (f, h) refl,
    )

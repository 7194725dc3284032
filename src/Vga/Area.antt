-- ===== src/Vga/Area.antt =====
-- What drawing on the screen leaves alone: the memory from the byte behind the screen on.
use native.Mathlib.Nat.{mul-le-mul_right}
use emile.Common.{
  ℕ, zero, suc, ◌+◌, ◌-◌, ◌*◌, ◌/◌, ◌≤◌, ◌<◌, ◌≡◌, refl, ap, ◌∙◌, [], ◌∷◌, Bytes, arith, length,
}
use emile.Common.Slice.{put_bytes}
use emile.Vga.{
  Memory, Vga, rows, invert_bytes, glyph_row, cell_base, draw_cursor, draw_byte, copy_longs,
  fill_longs, fill_bytes, vga_scroll, clear_rows,
}

abbrev pub Outside : ℕ → Memory → Memory → Type 0
Outside limit m m' = (q : ℕ) → limit ≤ q → m' q ≡ m q

put_bytes-Outside :
    (bytes : Bytes) (m : Memory) (p limit : ℕ)
    → p + length bytes ≤ limit
    → Outside limit m (put_bytes bytes m p)
put_bytes-Outside bytes m p limit fits q far = ground arith

invert_bytes-Outside :
    (n : ℕ) (m : Memory) (p limit : ℕ) → p + n ≤ limit → Outside limit m (invert_bytes n m p)
invert_bytes-Outside n m p limit fits q far = ground arith

rows-Outside :
    (row : Memory → ℕ → ℕ → Memory) (row_bytes wide limit : ℕ)
    → ((m : Memory) (p l : ℕ) → p + wide ≤ limit → Outside limit m (row m p l))
    → (n l base : ℕ) (m : Memory) → ((i : ℕ) → i < n → base + i * row_bytes + wide ≤ limit)
    → Outside limit m (rows row row_bytes n l base m)
unfolding rows
rows-Outside row row_bytes wide limit one zero l base m fits q far = refl
rows-Outside row row_bytes wide limit one (suc n) l base m fits q far =
    rows-Outside row row_bytes wide limit one n (l + 1) (base + row_bytes) (row m base l)
      (λ i lt. omega (arith, fits (suc i) (omega arith))) q far
    ∙ one m base l (omega (arith, fits 0 (omega arith))) q far

-- The rows of a character on the screen
cell_fits :
    (row_bytes depth siz_w siz_h limit x y i : ℕ)
    → siz_w * depth ≤ row_bytes
    → row_bytes * (siz_h * 16) ≤ limit
    → x < siz_w
    → y < siz_h
    → i < 16
    → row_bytes * y * 16 + x * depth + i * row_bytes + depth ≤ limit
cell_fits row_bytes depth siz_w siz_h limit x y i wide tall lx ly li =
    let columns : suc x * depth ≤ siz_w * depth = mul-le-mul_right depth lx in
    let lines : (y * 16 + suc i) * row_bytes ≤ siz_h * 16 * row_bytes =
      mul-le-mul_right row_bytes (omega arith) in
    omega arith

glyph_row-length : (depth mask glyph : ℕ) → length (glyph_row depth mask glyph) ≤ depth
unfolding glyph_row
glyph_row-length depth mask glyph = ground arith

copy_longs-Outside :
    (n dst src limit : ℕ) (m : Memory)
    → dst + n * 4 ≤ limit
    → Outside limit m (copy_longs n dst src m)
unfolding copy_longs
copy_longs-Outside zero dst src limit m fits q far = refl
copy_longs-Outside (suc n) dst src limit m fits q far =
    copy_longs-Outside n (dst + 4) (src + 4) limit _ (omega arith) q far
    ∙ put_bytes-Outside (m src ∷ m (src + 1) ∷ m (src + 2) ∷ m (src + 3) ∷ []) m dst limit
        (omega arith) q far

fill_longs-Outside :
    (n dst bg limit : ℕ) (m : Memory)
    → dst + n * 4 ≤ limit
    → Outside limit m (fill_longs n dst bg m)
unfolding fill_longs
fill_longs-Outside zero dst bg limit m fits q far = refl
fill_longs-Outside (suc n) dst bg limit m fits q far =
    fill_longs-Outside n (dst + 4) bg limit _ (omega arith) q far
    ∙ put_bytes-Outside (bg ∷ bg ∷ bg ∷ bg ∷ []) m dst limit (omega arith) q far

fill_bytes-Outside :
    (n next bg limit : ℕ) (m : Memory) → next + n ≤ limit → Outside limit m (fill_bytes n next bg m)
unfolding fill_bytes
fill_bytes-Outside zero next bg limit m fits q far = refl
fill_bytes-Outside (suc n) next bg limit m fits q far =
    fill_bytes-Outside n (next + 1) bg limit _ (omega arith) q far
    ∙ put_bytes-Outside (bg ∷ []) m next limit (omega arith) q far

pub clear_rows-Outside :
    (row_bytes bg j row limit : ℕ) (m : Memory)
    → row + j * row_bytes ≤ limit
    → Outside limit m (clear_rows row_bytes bg j row m)
unfolding clear_rows
clear_rows-Outside row_bytes bg zero row limit m fits q far = refl
clear_rows-Outside row_bytes bg (suc j) row limit m fits q far =
    clear_rows-Outside row_bytes bg j (row + row_bytes) limit _ (omega arith) q far
    ∙ fill_bytes-Outside (row_bytes - row_bytes / 4 * 4) (row + row_bytes / 4 * 4) bg limit _
        (omega arith) q far
    ∙ fill_longs-Outside (row_bytes / 4) row bg limit m (omega arith) q far

module _ (v : Vga) (limit : ℕ) (wide : v.siz_w * v.depth ≤ v.row_bytes)
    (tall : v.row_bytes * (v.siz_h * 16) ≤ limit) where
  pub draw_cursor-Outside :
      v.pos_x < v.siz_w → v.pos_y < v.siz_h → Outside limit v.video (draw_cursor v).video
  unfolding draw_cursor
  draw_cursor-Outside lx ly =
      rows-Outside (λ m p l. invert_bytes v.depth m p) v.row_bytes v.depth limit
        (λ m p l fits. invert_bytes-Outside v.depth m p limit fits) 16 0
        (cell_base v v.pos_x v.pos_y) v.video
        (λ i li.
          cell_fits v.row_bytes v.depth v.siz_w v.siz_h limit v.pos_x v.pos_y i wide tall lx ly li)

  pub draw_byte-Outside :
      (c x y : ℕ) → x < v.siz_w → y < v.siz_h → Outside limit v.video (draw_byte c x y v).video
  unfolding draw_byte
  draw_byte-Outside c x y lx ly =
      rows-Outside (λ m p l. put_bytes (glyph_row v.depth v.mask (v.font c l)) m p) v.row_bytes
        v.depth limit
        (λ m p l fits.
          put_bytes-Outside (glyph_row v.depth v.mask (v.font c l)) m p limit
            (omega (arith, glyph_row-length v.depth v.mask (v.font c l), fits)))
        16 0 (cell_base v x y) v.video
        (λ i li. cell_fits v.row_bytes v.depth v.siz_w v.siz_h limit x y i wide tall lx ly li)

  pub vga_scroll-Outside : 0 < v.siz_h → Outside limit v.video (vga_scroll v).video
  unfolding vga_scroll
  vga_scroll-Outside some_line q far =
      let longs = (v.siz_h - 1) * (v.row_bytes * 4) in
      let last : v.siz_h - 1 + 1 ≡ v.siz_h = omega arith in
      let whole : longs * 4 + v.row_bytes * 4 * 4 ≤ limit =
        omega (arith, ap (λ t. t * (v.row_bytes * 4)) last) in
      fill_longs-Outside (v.row_bytes * 4) (longs * 4) _ limit _ whole q far
      ∙ copy_longs-Outside longs 0 (v.row_bytes * 16) limit v.video (omega arith) q far

-- ===== src/Vga.antt =====
-- second/vga.c: the screen, its characters, its cursor and its scrolling. The memory of the screen
-- is a function from offsets behind `vga.base` to bytes. The font of font_8x16.c, which gives the
-- 16 rows of a code, and the clock `Ticks`, by how often it was read, are parts of the state that
-- nothing writes.
pub mod Charsets
pub mod Area
pub mod Put
pub mod Scroll
use Prim.Native.Nat.{bit_xor}
use emile.Common.{
  ℕ, zero, suc, ◌+◌, ◌-◌, ◌*◌, ◌/◌, ◌%◌, ◌^◌, Bool, true, false, ◌&&◌, [], ◌∷◌, Bytes, ltb, leb,
  ◌==◌, if◌then◌else◌, length, get_or,
}
use emile.Common.Slice.{put_bytes}
use emile.Keyboard.{Keyboard}

abbrev pub Memory : Type 0
Memory = ℕ → ℕ

-- `vga_handler_t`, `cursor_on` and `cursor_state`, and the ring of the keyboard, which replies go
-- to. `escape_stack` is what was written to the array of that name.
pub record Vga : Type 0 where
  pub enabled : Bool
  pub video : Memory
  pub row_bytes : ℕ
  pub depth : ℕ
  pub width : ℕ
  pub height : ℕ
  pub siz_w : ℕ
  pub siz_h : ℕ
  pub pos_x : ℕ
  pub pos_y : ℕ
  pub mask : ℕ
  pub escape_level : ℕ
  pub escape_stack : Bytes
  pub saved_x : ℕ
  pub saved_y : ℕ
  pub charset : ℕ
  pub cursor_on : Bool
  pub cursor_state : Bool
  pub keys : Keyboard
  pub font : ℕ → ℕ → ℕ
  pub ticks : ℕ → ℕ
  pub ticks_read : ℕ

-- The loops over the rows of a character: `row m p l` does row `l`, which begins at `p`.
unfoldable pub rows : (Memory → ℕ → ℕ → Memory) → ℕ → ℕ → ℕ → ℕ → Memory → Memory
rows row row_bytes zero l base m = m
rows row row_bytes (suc n) l base m = rows row row_bytes n (l + 1) (base + row_bytes) (row m base l)

-- `base[w] ^= 0xFF` for the bytes of a row
abbrev pub invert_bytes : ℕ → Memory → ℕ → Memory
invert_bytes n m p q = if leb p q && ltb q (p + n) then bit_xor (m q) 0xFF else m q

abbrev pub cell_base : Vga → ℕ → ℕ → ℕ
cell_base v x y = v.row_bytes * y * 16 + x * v.depth

unfoldable pub draw_cursor : Vga → Vga
draw_cursor v = record v {
  video =
      rows (λ m p l. invert_bytes v.depth m p) v.row_bytes 16 0 (cell_base v v.pos_x v.pos_y)
        v.video;
}

unfoldable pub vga_cursor : Bool → Vga → Vga
unfolding draw_cursor
vga_cursor true v = if v.cursor_state then v else record (draw_cursor v) { cursor_state = true }
vga_cursor false v = if v.cursor_state then record (draw_cursor v) { cursor_state = false } else v

-- One read of `Ticks`
unfoldable pub vga_cursor_refresh : Vga → Vga
unfolding vga_cursor
vga_cursor_refresh v =
    if v.cursor_on
    then vga_cursor (leb 30 (v.ticks v.ticks_read % 60))
        (record v { ticks_read = v.ticks_read + 1 })
    else v

unfoldable pub vga_cursor_on : Vga → Vga
unfolding vga_cursor_refresh
vga_cursor_on v = vga_cursor_refresh (record v { cursor_on = true })

unfoldable pub vga_cursor_off : Vga → Vga
unfolding vga_cursor
vga_cursor_off v = vga_cursor false (record v { cursor_on = false })

unfoldable pub vga_set_video_mode : Bool → Vga → Vga
vga_set_video_mode inverse v = record v { mask = if inverse then 0x00 else 0xFF }

abbrev pub bits_depth2 : Bytes
bits_depth2 =
    0x00 ∷ 0x03 ∷ 0x0c ∷ 0x0f ∷ 0x30 ∷ 0x33 ∷ 0x3c ∷ 0x3f ∷ 0xc0 ∷ 0xc3 ∷ 0xcc ∷ 0xcf ∷ 0xf0 ∷ 0xf3
    ∷ 0xfc ∷ 0xff ∷ []

abbrev pub bits_depth4 : Bytes
bits_depth4 = 0x00 ∷ 0x0f ∷ 0xf0 ∷ 0xff ∷ []

abbrev pub bits_depth8 : Bytes
bits_depth8 = 0x00 ∷ 0xff ∷ []

abbrev pub pixel : ℕ → ℕ → ℕ
pixel bits k = get_or bits_depth8 (bits / 2 ^ k % 2) 0

-- `n` equal bytes in front of others
abbrev pub times : ℕ → ℕ → Bytes → Bytes
times zero b rest = rest
times (suc n) b rest = b ∷ times n b rest

-- `n` bytes for each pixel, the highest bit first
abbrev pub spread : ℕ → ℕ → Bytes
spread n bits = times n (pixel bits 7) (
    times n (pixel bits 6) (
      times n (pixel bits 5) (
        times n (pixel bits 4) (
          times n (pixel bits 3)
            (times n (pixel bits 2) (times n (pixel bits 1) (times n (pixel bits 0) [])))))))

-- The bytes that `draw_byte_1` to `draw_byte_24` write for a row of a glyph; at any other depth
-- nothing is drawn. The deep ones leave the mask alone.
unfoldable pub glyph_row : ℕ → ℕ → ℕ → Bytes
glyph_row depth mask glyph =
    let bits = bit_xor mask glyph in
    if depth == 1
    then bits ∷ []
    else if depth == 2
    then get_or bits_depth2 (bits / 2 ^ 4 % 16) 0 ∷ get_or bits_depth2 (bits % 16) 0 ∷ []
    else if depth == 4
    then get_or bits_depth4 (bits / 2 ^ 6 % 4) 0
      ∷ get_or bits_depth4 (bits / 2 ^ 4 % 4) 0
      ∷ get_or bits_depth4 (bits / 2 ^ 2 % 4) 0
      ∷ get_or bits_depth4 (bits % 4) 0
      ∷ []
    else if depth == 8
    then spread 1 bits
    else if depth == 16
    then spread 2 glyph
    else if depth == 24
    then spread 3 glyph
    else []

-- `draw_byte` of a code at a column and a line
unfoldable pub draw_byte : ℕ → ℕ → ℕ → Vga → Vga
draw_byte c x y v = record v {
  video =
      rows (λ m p l. put_bytes (glyph_row v.depth v.mask (v.font c l)) m p) v.row_bytes 16 0
        (cell_base v x y) v.video;
}

-- `*dst++ = *src++`, `n` longs
unfoldable pub copy_longs : ℕ → ℕ → ℕ → Memory → Memory
copy_longs zero dst src m = m
copy_longs (suc n) dst src m =
    copy_longs n (dst + 4) (src + 4)
      (put_bytes (m src ∷ m (src + 1) ∷ m (src + 2) ∷ m (src + 3) ∷ []) m dst)

-- `*dst++ = bg32`, `n` longs of equal bytes
unfoldable pub fill_longs : ℕ → ℕ → ℕ → Memory → Memory
fill_longs zero dst bg m = m
fill_longs (suc n) dst bg m = fill_longs n (dst + 4) bg (put_bytes (bg ∷ bg ∷ bg ∷ bg ∷ []) m dst)

-- `*next++ = bg`, `n` bytes
unfoldable pub fill_bytes : ℕ → ℕ → ℕ → Memory → Memory
fill_bytes zero next bg m = m
fill_bytes (suc n) next bg m = fill_bytes n (next + 1) bg (put_bytes (bg ∷ []) m next)

abbrev pub background : Vga → ℕ
background v = if leb v.depth 8 then 0xff else 0x00

-- The loops over the lines and over the longs of a line are one, since `dst` and `src` go on.
unfoldable pub vga_scroll : Vga → Vga
vga_scroll v =
    let longs = (v.siz_h - 1) * (v.row_bytes * 4) in
    record v {
      video =
          fill_longs (v.row_bytes * 4) (longs * 4) (background v)
            (copy_longs longs 0 (v.row_bytes * 16) v.video);
    }

-- The rows from `row` on: longs, and the bytes behind them
unfoldable pub clear_rows : ℕ → ℕ → ℕ → ℕ → Memory → Memory
unfolding fill_longs fill_bytes
clear_rows row_bytes bg zero row m = m
clear_rows row_bytes bg (suc j) row m = clear_rows row_bytes bg j (row + row_bytes) (
    fill_bytes (row_bytes - row_bytes / 4 * 4) (row + row_bytes / 4 * 4) bg
      (fill_longs (row_bytes / 4) row bg m))

unfoldable pub vga_clear : Vga → Vga
unfolding vga_cursor_refresh
vga_clear v = vga_cursor_refresh (record v {
  video = clear_rows v.row_bytes (background v) v.height 0 v.video;
  pos_x = 0;
  pos_y = 0;
})

-- What QuickDraw tells of the main device: the rectangle, the bytes of a row and the pixel size.
pub record PixMap : Type 0 where
  pub row_bytes : ℕ
  pub left : ℕ
  pub top : ℕ
  pub right : ℕ
  pub bottom : ℕ
  pub pixel_size : ℕ

abbrev pub depth_of : PixMap → ℕ
depth_of pm = if pm.pixel_size == 15 then 16 else pm.pixel_size

-- What `vga.base` is behind the first byte of the screen, `vga.video`
abbrev pub base_offset : PixMap → ℕ
base_offset pm = pm.top * (pm.row_bytes % 2 ^ 14) + pm.left * (depth_of pm / 2 ^ 3)

-- `vga_init` on a main device with a map of pixels; the flag is `strcmp (mode, "none") != 0`. The
-- state before is that of the static variable, with the memory from the first byte of the screen on;
-- that of the state behind is from `vga.base` on. Without such a device the code reads a pointer
-- that was never set, and there is no value.
unfoldable pub vga_init : Bool → PixMap → Vga → Vga
unfolding vga_clear vga_cursor
vga_init on pm v =
    let width = pm.right - pm.left in
    let height = pm.bottom - pm.top in
    let set = record v {
      video = λ q. v.video (base_offset pm + q);
      row_bytes = pm.row_bytes % 2 ^ 14;
      width = width;
      height = height;
      depth = depth_of pm;
      pos_x = 0;
      pos_y = 0;
      siz_w = width / 8;
      siz_h = height / 16;
      mask = 0xFF;
      escape_level = 0;
      charset = 2;
    } in
    let shown = vga_cursor false set in
    if on then vga_clear (record shown { enabled = true }) else shown

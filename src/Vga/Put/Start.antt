-- ===== src/Vga/Put/Start.antt =====
-- The screen from `vga_init` on.
use native.Mathlib.Nat.{mul-le-mul_right}
use emile.Common.{
  ℕ, ◌-◌, ◌*◌, ◌/◌, ◌%◌, ◌^◌, ◌≤◌, ◌<◌, ◌≡◌, ◌+◌, ap, ◌==◌, if◌then◌else◌, Bool, true, false, Bytes,
  arith,
}
use emile.Vga.{PixMap, Vga, depth_of, base_offset, vga_init}
use emile.Vga.Put.{vga_puts}
use emile.Vga.Put.Safe.{IsSafe, if_split, vga_cursor-IsSafe}
use emile.Vga.Put.Sequence.{Kept, vga_clear-IsSafe, vga_puts-IsSafe}

-- The first byte of the rectangle of a screen, from that of its memory on
abbrev pub first_byte : PixMap → ℕ
first_byte pm =
    pm.top * (pm.row_bytes % 2 ^ 14)
    + pm.left * (if pm.pixel_size == 15 then 2 else pm.pixel_size / 8)

abbrev pub rectangle_memory : PixMap → Vga → ℕ → ℕ
rectangle_memory pm v q = v.video (first_byte pm + q)

-- A screen that `vga_init` finds, of a line of 16 rows and a column of 8 pixels at least, with rows
-- that hold their pixels, and a memory of `size` bytes that holds as many whole rows from the first
-- byte of the rectangle on as that has.
pub record Found (pm : PixMap) (size : ℕ) : Type 0 where
  pub columns : 8 ≤ pm.right - pm.left
  pub lines : 16 ≤ pm.bottom - pm.top
  pub narrow : pm.right - pm.left < 2 ^ 31
  pub low : pm.bottom - pm.top < 2 ^ 31
  pub deep : (pm.right - pm.left) / 8 * depth_of pm ≤ pm.row_bytes % 2 ^ 14
  pub room : first_byte pm + (pm.bottom - pm.top) * (pm.row_bytes % 2 ^ 14) ≤ size

-- The static variable before `vga_init`
pub record IsFresh (v : Vga) : Type 0 where
  pub unsaved_x : v.saved_x ≡ 0
  pub unsaved_y : v.saved_y ≡ 0

vga_init-IsSafe :
    (on : Bool) (pm : PixMap) (size : ℕ) (v : Vga)
    → Found pm size
    → IsFresh v
    → IsSafe (size - first_byte pm) (rectangle_memory pm v) (vga_init on pm v)
unfolding vga_init
vga_init-IsSafe on pm size v f fresh =
    let width = pm.right - pm.left in
    let height = pm.bottom - pm.top in
    let row_bytes = pm.row_bytes % 2 ^ 14 in
    let set = record v {
      video = λ q. v.video (base_offset pm + q);
      row_bytes = row_bytes;
      width = width;
      height = height;
      depth = depth_of pm;
      pos_x = 0;
      pos_y = 0;
      siz_w = width / 8;
      siz_h = height / 16;
      mask = 0xFF;
      escape_level = 0;
      charset = 2;
    } in
    let same_base : base_offset pm ≡ first_byte pm = ground arith in
    let whole : height / 16 * 16 ≤ height = omega arith in
    let set_safe : IsSafe (size - first_byte pm) (rectangle_memory pm v) set = record {
      few_columns = omega (arith, f.narrow);
      few_lines = omega (arith, f.low);
      wide = f.deep;
      tall = omega (arith, mul-le-mul_right row_bytes whole, f.room);
      cleared = omega (arith, f.room);
      saved_column = omega (arith, fresh.unsaved_x, f.columns);
      saved_line = omega (arith, fresh.unsaved_y, f.lines);
      known = omega arith;
      column = omega (arith, f.columns);
      line = omega (arith, f.lines);
      kept = λ q far. ap (λ b. v.video (b + q)) same_base;
    } in
    let shown = vga_cursor-IsSafe false set set_safe in
    if_split (IsSafe (size - first_byte pm) (rectangle_memory pm v)) on _ _
      (λ _. vga_clear-IsSafe _ (enabled shown)) (λ _. shown)
  where
    enabled :
        {w : Vga}
        → IsSafe (size - first_byte pm) (rectangle_memory pm v) w
        → IsSafe (size - first_byte pm) (rectangle_memory pm v) (record w { enabled = true })
    enabled s = record {
      few_columns = s.few_columns;
      few_lines = s.few_lines;
      wide = s.wide;
      tall = s.tall;
      cleared = s.cleared;
      saved_column = s.saved_column;
      saved_line = s.saved_line;
      known = s.known;
      column = s.column;
      line = s.line;
      kept = s.kept;
    }

-- From `vga_init` on, whatever string is put on the screen: the cursor and its saved place stay on
-- it, and no byte behind the `size` bytes of its memory is written, as long as no escape sequence
-- fills its array. It holds for a screen of a column and a line at least, whose rows hold their
-- pixels, and whose memory holds, from the first byte of the rectangle on, as many whole rows as the
-- rectangle has.
pub vga_init-vga_puts :
    (on : Bool) (pm : PixMap) (size : ℕ) (v : Vga) (s : Bytes)
    → Found pm size
    → IsFresh v
    → Kept (size - first_byte pm) (rectangle_memory pm v) (vga_puts s (vga_init on pm v))
vga_init-vga_puts on pm size v s f fresh =
    vga_puts-IsSafe s (vga_init on pm v) (vga_init-IsSafe on pm size v f fresh)

-- ===== src/Vga/Put/Safe.antt =====
-- The screen stays in order: the cursor is on it, and nothing behind its memory is written.

use emile.Common.{
  ℕ, suc, ◌+◌, ◌-◌, ◌*◌, ◌%◌, ◌^◌, ◌≤◌, ◌<◌, ◌≡◌, refl, ap, ◌∙◌, Bool, true, false, some, arith,
  leb, ltb, ◌==◌, if◌then◌else◌, get_or, Bool-cases, inl, inr,
}
use emile.Vga.{Memory, Vga, draw_cursor, vga_cursor, vga_cursor_refresh, draw_byte, vga_scroll}
use emile.Vga.Charsets.{translation}
use emile.Vga.Area.{Outside, draw_cursor-Outside, draw_byte-Outside, vga_scroll-Outside}
use emile.Vga.Put.{scroll_loop, put_char, plain_char, plain, esc}

-- The cursor and its saved place are on a screen that its memory has room for, and the memory from
-- `limit` on is that of `m`.
pub record IsSafe (limit : ℕ) (m : Memory) (v : Vga) : Type 0 where
  pub few_columns : v.siz_w < 2 ^ 31
  pub few_lines : v.siz_h < 2 ^ 31
  pub wide : v.siz_w * v.depth ≤ v.row_bytes
  pub tall : v.row_bytes * (v.siz_h * 16) ≤ limit
  pub cleared : v.height * v.row_bytes ≤ limit
  pub saved_column : v.saved_x < v.siz_w
  pub saved_line : v.saved_y < v.siz_h
  pub known : v.charset < 3
  pub column : v.pos_x < v.siz_w
  pub line : v.pos_y < v.siz_h
  pub kept : Outside limit m v.video

-- On the screen, or on the line behind it
pub record IsMoved (limit : ℕ) (m : Memory) (v : Vga) : Type 0 where
  pub bounded : v.pos_y ≤ v.siz_h
  pub safe : IsSafe limit m (record v { pos_y = 0 })

pub if_split {ℓ} :
    {A : Type ℓ} (P : A → Type 0) (b : Bool) (v w : A)
    → (b ≡ true → P v)
    → (b ≡ false → P w)
    → P (if b then v else w)
if_split P true v w s t = s refl
if_split P false v w s t = t refl

module _ {limit : ℕ} {m : Memory} where
  -- Another picture on the same screen
  pub redrawn :
      {v : Vga} (video : Memory) (state : Bool) (t : ℕ)
      → Outside limit v.video video
      → IsSafe limit m v
      → IsSafe limit m (record v { video = video; cursor_state = state; ticks_read = t })
  redrawn video state t out s = record {
    few_columns = s.few_columns;
    few_lines = s.few_lines;
    wide = s.wide;
    tall = s.tall;
    cleared = s.cleared;
    saved_column = s.saved_column;
    saved_line = s.saved_line;
    known = s.known;
    column = s.column;
    line = s.line;
    kept = λ q far. out q far ∙ s.kept q far;
  }

  -- Another place on the same screen
  pub moved :
      {v : Vga} (x y level : ℕ)
      → x < v.siz_w
      → y < v.siz_h
      → IsSafe limit m v
      → IsSafe limit m (record v { pos_x = x; pos_y = y; escape_level = level })
  moved x y level lx ly s = record {
    few_columns = s.few_columns;
    few_lines = s.few_lines;
    wide = s.wide;
    tall = s.tall;
    cleared = s.cleared;
    saved_column = s.saved_column;
    saved_line = s.saved_line;
    known = s.known;
    column = lx;
    line = ly;
    kept = s.kept;
  }

  pub vga_cursor-IsSafe : (b : Bool) (v : Vga) → IsSafe limit m v → IsSafe limit m (vga_cursor b v)
  unfolding vga_cursor draw_cursor
  vga_cursor-IsSafe true v s =
      if_split (IsSafe limit m) v.cursor_state v _ (λ _. s)
        (λ _.
          redrawn (draw_cursor v).video true v.ticks_read
            (draw_cursor-Outside v limit s.wide s.tall s.column s.line) s)
  vga_cursor-IsSafe false v s =
      if_split (IsSafe limit m) v.cursor_state _ v
        (λ _.
          redrawn (draw_cursor v).video false v.ticks_read
            (draw_cursor-Outside v limit s.wide s.tall s.column s.line) s)
        (λ _. s)

  pub vga_cursor_refresh-IsSafe :
      (v : Vga) → IsSafe limit m v → IsSafe limit m (vga_cursor_refresh v)
  unfolding vga_cursor_refresh
  vga_cursor_refresh-IsSafe v s =
      if_split (IsSafe limit m) v.cursor_on _ v
        (λ _.
          vga_cursor-IsSafe _ _
            (redrawn v.video v.cursor_state (v.ticks_read + 1) (λ q far. refl) s))
        (λ _. s)

  -- The cursor is on the line behind the screen, and one round of the loop brings it back.
  scroll_once :
      (fuel : ℕ) (v : Vga)
      → v.pos_y ≡ v.siz_h
      → IsSafe limit m (record v { pos_y = 0 })
      → (w : Vga) × (scroll_loop (suc (suc fuel)) v ≡ some w) × IsSafe limit m w
  unfolding scroll_loop vga_scroll
  scroll_once fuel v at s =
      let up = (v.pos_y + 2 ^ 32 - 1) % 2 ^ 32 in
      let above : up < v.siz_h = omega (arith, at, s.line, s.few_lines) in
      let behind : leb v.siz_h v.pos_y ≡ true = ground (arith, at) in
      let inside : leb v.siz_h up ≡ false = ground (arith, above) in
      let out : Outside limit v.video (vga_scroll v).video =
        vga_scroll-Outside v limit s.wide s.tall s.line in
      (
        record (vga_scroll v) { pos_y = up },
        rw (behind, inside) refl,
        moved v.pos_x up v.escape_level s.column above
            (redrawn (vga_scroll v).video v.cursor_state v.ticks_read out s),
      )

  scroll_loop-IsSafe :
      (v : Vga)
      → v.pos_y ≤ v.siz_h
      → IsSafe limit m (record v { pos_y = 0 })
      → (w : Vga) × (scroll_loop (suc v.pos_y) v ≡ some w) × IsSafe limit m w
  unfolding scroll_loop
  scroll_loop-IsSafe v le s = elim (Bool-cases (leb v.siz_h v.pos_y)) [
    | inl behind ↦
        let at : v.pos_y ≡ v.siz_h = ground (arith, behind) in
        let (w, e, safe) = scroll_once (v.pos_y - 1) v at s in
        (
          w,
          ap (λ n. scroll_loop (suc n) v) {y = suc (v.pos_y - 1)} (omega (arith, at, s.line)) ∙ e,
          safe,
        )
    | inr inside ↦ (
      v,
      rw inside refl,
      moved v.pos_x v.pos_y v.escape_level s.column (ground (arith, inside)) s,
    )
  ]

  -- A character outside of a sequence moves the cursor on the screen or to the line behind it.
  pub stepped :
      {v : Vga} (x y level : ℕ)
      → x < v.siz_w
      → y ≤ v.siz_h
      → IsSafe limit m v
      → IsMoved limit m (record v { pos_x = x; pos_y = y; escape_level = level })
  stepped {v} x y level lx ly s = record {
    bounded = ly;
    safe = moved x 0 level lx (omega (arith, s.line)) s;
  }

  put_char-IsMoved : (c : ℕ) (v : Vga) → IsSafe limit m v → IsMoved limit m (put_char c v)
  unfolding put_char draw_byte
  put_char-IsMoved c v s =
      let drawn = draw_byte (get_or (translation v.charset) c 0) v.pos_x v.pos_y v in
      let out : Outside limit v.video drawn.video =
        draw_byte-Outside v limit s.wide s.tall (get_or (translation v.charset) c 0) v.pos_x v.pos_y
          s.column s.line in
      let safe : IsSafe limit m drawn = redrawn drawn.video v.cursor_state v.ticks_read out s in
      let next = (v.pos_x + 1) % 2 ^ 32 in
      if_split (IsMoved limit m) (leb v.siz_w next) _ _
        (λ full.
          stepped 0 ((v.pos_y + 1) % 2 ^ 32) v.escape_level (omega (arith, s.column))
            (omega (arith, s.line, s.few_lines)) safe)
        (λ room.
          stepped next v.pos_y v.escape_level (ground (arith, room)) (omega (arith, s.line)) safe)

  plain_char-IsMoved : (c : ℕ) (v : Vga) → IsSafe limit m v → IsMoved limit m (plain_char c v)
  unfolding plain_char
  plain_char-IsMoved c v s =
      let column : v.pos_x < v.siz_w = s.column in
      let line : v.pos_y < v.siz_h = s.line in
      if_split (IsMoved limit m) (c == b'\r') _ _
        (λ _. stepped 0 v.pos_y v.escape_level (omega arith) (omega arith) s)
        λ _.
          if_split (IsMoved limit m) (c == b'\n') _ _
            (λ _.
              stepped 0 ((v.pos_y + 1) % 2 ^ 32) v.escape_level (omega arith)
                (omega (arith, s.few_lines)) s)
            λ _.
              if_split (IsMoved limit m) (c == 8) _ _
                (λ _.
                  if_split (IsMoved limit m) (ltb 0 v.pos_x) _ _
                    (λ _.
                      stepped (v.pos_x - 1) v.pos_y v.escape_level (omega arith) (omega arith) s)
                    λ _.
                      if_split (IsMoved limit m) (ltb 0 v.pos_y) _ _
                        (λ _.
                          stepped ((v.siz_w + 2 ^ 32 - 1) % 2 ^ 32) (v.pos_y - 1) v.escape_level
                            (omega (arith, s.few_columns)) (omega arith) s)
                        (λ _. stepped v.pos_x v.pos_y v.escape_level column (omega arith) s))
                λ _.
                  if_split (IsMoved limit m) (c == esc) _ _
                    (λ _. stepped v.pos_x v.pos_y 1 column (omega arith) s)
                    (λ _. put_char-IsMoved c v s)

  -- Nothing is missing: a character outside of a sequence ends with the screen in order.
  pub plain-IsSafe :
      (c : ℕ) (v : Vga) → IsSafe limit m v → (w : Vga) × (plain c v ≡ some w) × IsSafe limit m w
  unfolding plain
  plain-IsSafe c v s =
      let at : IsMoved limit m (plain_char c (record v { escape_level = 0 })) =
        plain_char-IsMoved c (record v { escape_level = 0 })
          (moved v.pos_x v.pos_y 0 s.column s.line s) in
      scroll_loop-IsSafe (plain_char c (record v { escape_level = 0 })) at.bounded at.safe

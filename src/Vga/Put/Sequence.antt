-- ===== src/Vga/Put/Sequence.antt =====
-- The escape sequences keep the screen in order.
use mathlib.Core.Path.{subst}
use emile.Common.{
  ℕ, ◌+◌, ◌-◌, ◌%◌, ◌^◌, ◌≤◌, ◌<◌, ◌≡◌, refl, sym, Bool, true, false, not, ◌&&◌, Option, none, some,
  [], ◌∷◌, ◌++◌, Bytes, arith, leb, ltb, ◌==◌, if◌then◌else◌, get_or, take,
}
use emile.Unix.{head_byte, tail_bytes, strtol}
use emile.Keyboard.{Keyboard, keyboard_inject}
use emile.Unix.Print.{value, vsprintf}
use emile.Vga.{
  Memory, Vga, vga_cursor, vga_cursor_refresh, vga_cursor_on, vga_cursor_off, vga_set_video_mode,
  vga_clear, clear_rows, background,
}
use emile.Vga.Area.{clear_rows-Outside}
use emile.Vga.Put.{
  Verdict, waits, ends, falls, clamp, before, c_string, set_position, report_position, control,
  select_charset, escape, leave, push, vga_put, vga_puts, equal, esc,
}
use emile.Vga.Put.Safe.{
  IsSafe, if_split, redrawn, moved, vga_cursor-IsSafe, vga_cursor_refresh-IsSafe, plain-IsSafe,
}

data VerdictIsSafe (limit : ℕ) (m : Memory) : Verdict → Type 0 where
  waiting : {v : Vga} → IsSafe limit m v → VerdictIsSafe limit m (waits v)
  ending : {v : Vga} → IsSafe limit m v → VerdictIsSafe limit m (ends v)
  falling : {v : Vga} → IsSafe limit m v → VerdictIsSafe limit m (falls v)

clamp_bounds : (size t : ℕ) → 0 < size → size < 2 ^ 31 → before (clamp size t) < size
clamp_bounds size t some_place few = ground arith

-- What comes of a character: a screen in order, or a write behind the array of a full sequence
abbrev pub Puts : ℕ → Memory → Vga → Option Vga → Type 0
Puts limit m v none = (v.enabled ≡ true) × (16 ≤ v.escape_level)
Puts limit m v (some w) = IsSafe limit m w

abbrev pub Kept : ℕ → Memory → Option Vga → Type 0
Kept limit m none = Unit
Kept limit m (some w) = IsSafe limit m w

module _ {limit : ℕ} {m : Memory} where
  -- Another state of the terminal on the same screen
  switched :
      {v : Vga} (mask level : ℕ) (stack : Bytes) (x y charset : ℕ) (on : Bool) (keys : Keyboard)
      → x < v.siz_w
      → y < v.siz_h
      → charset < 3
      → IsSafe limit m v
      → IsSafe limit m (record v {
        mask = mask;
        escape_level = level;
        escape_stack = stack;
        saved_x = x;
        saved_y = y;
        charset = charset;
        cursor_on = on;
        keys = keys;
      })
  switched mask level stack x y charset on keys lx ly known s = record {
    few_columns = s.few_columns;
    few_lines = s.few_lines;
    wide = s.wide;
    tall = s.tall;
    cleared = s.cleared;
    saved_column = lx;
    saved_line = ly;
    known = known;
    column = s.column;
    line = s.line;
    kept = s.kept;
  }

  pub vga_clear-IsSafe : (v : Vga) → IsSafe limit m v → IsSafe limit m (vga_clear v)
  unfolding vga_clear
  vga_clear-IsSafe v s =
      let blank = clear_rows v.row_bytes (background v) v.height 0 v.video in
      vga_cursor_refresh-IsSafe _ (
        moved 0 0 v.escape_level (omega (arith, s.column)) (omega (arith, s.line)) (
          redrawn blank v.cursor_state v.ticks_read
            (clear_rows-Outside v.row_bytes (background v) v.height 0 limit v.video
              (omega (arith, s.cleared)))
            s))

  cursor_switched :
      (on : Bool) (v : Vga) → IsSafe limit m v → IsSafe limit m (record v { cursor_on = on })
  cursor_switched on v s =
      switched v.mask v.escape_level v.escape_stack v.saved_x v.saved_y v.charset on v.keys
        s.saved_column s.saved_line s.known s

  vga_cursor_on-IsSafe : (v : Vga) → IsSafe limit m v → IsSafe limit m (vga_cursor_on v)
  unfolding vga_cursor_on
  vga_cursor_on-IsSafe v s = vga_cursor_refresh-IsSafe _ (cursor_switched true v s)

  vga_cursor_off-IsSafe : (v : Vga) → IsSafe limit m v → IsSafe limit m (vga_cursor_off v)
  unfolding vga_cursor_off
  vga_cursor_off-IsSafe v s = vga_cursor-IsSafe false _ (cursor_switched false v s)

  vga_set_video_mode-IsSafe :
      (inverse : Bool) (v : Vga) → IsSafe limit m v → IsSafe limit m (vga_set_video_mode inverse v)
  unfolding vga_set_video_mode
  vga_set_video_mode-IsSafe inverse v s =
      switched (if inverse then 0x00 else 0xFF) v.escape_level v.escape_stack v.saved_x v.saved_y
        v.charset v.cursor_on v.keys s.saved_column s.saved_line s.known s

  report_position-IsSafe : (v : Vga) → IsSafe limit m v → IsSafe limit m (report_position v)
  unfolding report_position
  report_position-IsSafe v s = by_reply (
      vsprintf (esc ∷ b'[' ∷ b'%' ∷ b'l' ∷ b'd' ∷ b';' ∷ b'%' ∷ b'l' ∷ b'd' ∷ b'R' ∷ [])
        (value ((v.pos_y + 1) % 2 ^ 32) ∷ value ((v.pos_x + 1) % 2 ^ 32) ∷ []))
    where
      by_reply :
          (reply : Option Bytes)
          → IsSafe limit m
              (elim reply [ none ↦ v | some r ↦ record v { keys = keyboard_inject v.keys r } ])
      by_reply none = s
      by_reply (some r) =
          switched v.mask v.escape_level v.escape_stack v.saved_x v.saved_y v.charset v.cursor_on
            (keyboard_inject v.keys r) s.saved_column s.saved_line s.known s

  set_position-IsSafe :
      (stack : Bytes) (v : Vga) → IsSafe limit m v → VerdictIsSafe limit m (set_position stack v)
  unfolding set_position
  set_position-IsSafe stack v s =
      let line = strtol (tail_bytes stack) 10 in
      let column = strtol (tail_bytes line.1) 10 in
      if_split (VerdictIsSafe limit m) (head_byte line.1 == b';' && head_byte column.1 == b'H')
        (ends (record v {
          pos_x = before (clamp v.siz_w column.0);
          pos_y = before (clamp v.siz_h line.0);
        }))
        (falls v)
        (λ _. ending (
          moved (before (clamp v.siz_w column.0)) (before (clamp v.siz_h line.0)) v.escape_level
            (clamp_bounds v.siz_w column.0 (omega (arith, s.column)) s.few_columns)
            (clamp_bounds v.siz_h line.0 (omega (arith, s.line)) s.few_lines) s))
        (λ _. falling s)

  control-IsSafe :
      (c : ℕ) (stack : Bytes) (v : Vga)
      → IsSafe limit m v
      → VerdictIsSafe limit m (control c stack v)
  unfolding control
  control-IsSafe c stack v s =
      if_split (VerdictIsSafe limit m) (c == b'J') _ _
        (λ _.
          if_split (VerdictIsSafe limit m) _ _ _ (λ _. ending (vga_clear-IsSafe v s))
            (λ _. falling s))
        λ _.
          if_split (VerdictIsSafe limit m) (c == b'l') _ _
            (λ _.
              if_split (VerdictIsSafe limit m) _ _ _ (λ _. ending (vga_cursor_off-IsSafe v s))
                (λ _. falling s))
            λ _.
              if_split (VerdictIsSafe limit m) (c == b'h') _ _
                (λ _.
                  if_split (VerdictIsSafe limit m) _ _ _ (λ _. ending (vga_cursor_on-IsSafe v s))
                    (λ _. falling s))
                λ _.
                  if_split (VerdictIsSafe limit m) (c == b'H') _ _
                    (λ _. set_position-IsSafe stack v s)
                    λ _.
                      if_split (VerdictIsSafe limit m) (c == b'm') _ _
                        (λ _.
                          if_split (VerdictIsSafe limit m) (equal (b'[' ∷ b'7' ∷ b'm' ∷ []) stack) _
                            _ (λ _. ending (vga_set_video_mode-IsSafe true v s))
                            λ _.
                              if_split (VerdictIsSafe limit m)
                                (equal (b'[' ∷ b'2' ∷ b'7' ∷ b'm' ∷ []) stack) _ _
                                (λ _. ending (vga_set_video_mode-IsSafe false v s))
                                (λ _. falling s))
                        λ _.
                          if_split (VerdictIsSafe limit m) (c == b'n') _ _
                            (λ _.
                              if_split (VerdictIsSafe limit m) _ _ _
                                (λ _. ending (report_position-IsSafe v s)) (λ _. falling s))
                            (λ _. waiting s)

  select_charset-IsSafe : (c : ℕ) (v : Vga) → IsSafe limit m v → IsSafe limit m (select_charset c v)
  select_charset-IsSafe c v s =
      if_split (IsSafe limit m) (c == b'0') _ _ (λ _. chosen 0 (omega arith))
        λ _.
          if_split (IsSafe limit m) (c == b'A') _ _ (λ _. chosen 1 (omega arith))
            λ _. if_split (IsSafe limit m) (c == b'B') _ _ (λ _. chosen 2 (omega arith)) (λ _. s)
    where
      chosen : (charset : ℕ) → charset < 3 → IsSafe limit m (record v { charset = charset })
      chosen charset lt =
          switched v.mask v.escape_level v.escape_stack v.saved_x v.saved_y charset v.cursor_on
            v.keys s.saved_column s.saved_line lt s

  escape-IsSafe : (c : ℕ) (v : Vga) → IsSafe limit m v → VerdictIsSafe limit m (escape c v)
  unfolding escape
  escape-IsSafe c v s =
      let first = head_byte v.escape_stack in
      if_split (VerdictIsSafe limit m) (first == b'7') _ _
        (λ _. ending (
          switched v.mask v.escape_level v.escape_stack v.pos_x v.pos_y v.charset v.cursor_on v.keys
            s.column s.line s.known s))
        λ _.
          if_split (VerdictIsSafe limit m) (first == b'8') _ _
            (λ _. ending (moved v.saved_x v.saved_y v.escape_level s.saved_column s.saved_line s))
            λ _.
              if_split (VerdictIsSafe limit m) (first == b'(') _ _
                (λ _.
                  if_split (VerdictIsSafe limit m) (leb v.escape_level 2) _ _ (λ _. waiting s)
                    (λ _. ending (select_charset-IsSafe (get_or v.escape_stack 1 0) v s)))
                λ _.
                  if_split (VerdictIsSafe limit m) (first == b'[') _ _
                    (λ _.
                      if_split (VerdictIsSafe limit m) (leb v.escape_level 2) _ _ (λ _. waiting s)
                        (λ _. control-IsSafe c (c_string v.escape_stack) v s))
                    (λ _. falling s)

  leave-IsSafe :
      (c : ℕ) (r : Verdict)
      → VerdictIsSafe limit m r
      → (w : Vga) × (leave c r ≡ some w) × IsSafe limit m w
  leave-IsSafe c (waits v) (waiting s) = (vga_cursor_refresh v, refl, vga_cursor_refresh-IsSafe v s)
  leave-IsSafe c (ends v) (ending s) = (
    vga_cursor_refresh (record v { escape_level = 0 }),
    refl,
    vga_cursor_refresh-IsSafe _ (moved v.pos_x v.pos_y 0 s.column s.line s),
  )
  leave-IsSafe c (falls v) (falling s) =
      let (w, e, safe) = plain-IsSafe c v s in
      (vga_cursor_refresh w, rw (e, leave) refl, vga_cursor_refresh-IsSafe w safe)

  -- A character on a screen in order leaves it in order: the cursor and its saved place are on it,
  -- and no byte behind its memory is written. Only if the sequence has filled its array is there a
  -- write behind that; the loop of scrolling ends.
  pub vga_put-IsSafe : (c : ℕ) (v : Vga) → IsSafe limit m v → Puts limit m v (vga_put c v)
  unfolding vga_put
  vga_put-IsSafe c v s =
      let hidden = vga_cursor-IsSafe false v s in
      if_split (Puts limit m v) (not v.enabled) _ _ (λ _. s)
        λ on.
          if_split (Puts limit m v) (v.escape_level == 0) _ _
            (λ _. left c (falls (vga_cursor false v)) (falling hidden))
            λ _.
              if_split (Puts limit m v) (ltb v.escape_level 16) _ _
                (λ _.
                  left c (escape c (push c (vga_cursor false v)))
                    (escape-IsSafe c _ (pushed hidden)))
                (λ full. (ground (arith, on), ground (arith, full)))
    where
      left : (c : ℕ) (r : Verdict) → VerdictIsSafe limit m r → Puts limit m v (leave c r)
      left c r safe =
          let (w, e, safe') = leave-IsSafe c r safe in subst (Puts limit m v) (sym e) safe'

      pushed : {w : Vga} → IsSafe limit m w → IsSafe limit m (push c w)
      pushed {w} safe =
          switched w.mask (w.escape_level + 1) (take (w.escape_level - 1) w.escape_stack ++ c ∷ [])
            w.saved_x w.saved_y w.charset w.cursor_on w.keys safe.saved_column safe.saved_line
            safe.known safe

  -- So it is for the characters of a string.
  pub vga_puts-IsSafe : (s : Bytes) (v : Vga) → IsSafe limit m v → Kept limit m (vga_puts s v)
  unfolding vga_puts
  vga_puts-IsSafe [] v safe = safe
  vga_puts-IsSafe (c ∷ s) v safe =
      next (λ w safe. vga_puts-IsSafe s w safe) (vga_put c v) (vga_put-IsSafe c v safe)
    where
      next :
          ((w : Vga) → IsSafe limit m w → Kept limit m (vga_puts s w))
          → (r : Option Vga) → Puts limit m v r
          → Kept limit m (elim r [ none ↦ none | some w ↦ vga_puts s w ])
      next rest none full = tt
      next rest (some w) safe' = rest w safe'

-- ===== src/Vga/Put.antt =====
-- second/vga.c: `vga_put`, the state machine of the escape sequences of a VT100. A state that is
-- not returned is a write behind the end of the array `escape_stack`, or a loop that goes on.
pub mod Safe
pub mod Sequence
pub mod Start
pub mod Collect
use emile.Common.{
  ℕ, zero, suc, ◌+◌, ◌-◌, ◌%◌, ◌^◌, Bool, true, false, not, ◌&&◌, ◌||◌, Option, none, some, [], ◌∷◌,
  ◌++◌, Bytes, ltb, leb, ◌==◌, if◌then◌else◌, get_or, take,
}
use emile.Common.Int.{pos}
use emile.Keyboard.{keyboard_inject}
use emile.Unix.{head_byte, tail_bytes, strcmp, strtol}
use emile.Unix.Print.{value, vsprintf}
use emile.Vga.{
  Vga, vga_cursor, vga_cursor_refresh, vga_cursor_on, vga_cursor_off, vga_set_video_mode, draw_byte,
  vga_scroll, vga_clear,
}
use emile.Vga.Charsets.{translation}

abbrev pub esc : ℕ
esc = 27

-- `while (vga.pos_y >= vga.siz_h)`, with fuel
unfoldable pub scroll_loop : ℕ → Vga → Option Vga
scroll_loop zero v = none
scroll_loop (suc fuel) v =
    let rest =
      scroll_loop fuel (record (vga_scroll v) { pos_y = (v.pos_y + 2 ^ 32 - 1) % 2 ^ 32 }) in
    if leb v.siz_h v.pos_y then rest else some v

-- `draw_byte` and the step to the next column, which may be that of the next line
unfoldable pub put_char : ℕ → Vga → Vga
put_char c v =
    let drawn = draw_byte (get_or (translation v.charset) c 0) v.pos_x v.pos_y v in
    let next = (v.pos_x + 1) % 2 ^ 32 in
    if leb v.siz_w next
    then record drawn { pos_x = 0; pos_y = (v.pos_y + 1) % 2 ^ 32 }
    else record drawn { pos_x = next }

-- The `switch` on a character outside of an escape sequence
unfoldable pub plain_char : ℕ → Vga → Vga
plain_char c v =
    if c == b'\r'
    then record v { pos_x = 0 }
    else if c == b'\n'
    then record v { pos_x = 0; pos_y = (v.pos_y + 1) % 2 ^ 32 }
    else if c == 8
    then (if ltb 0 v.pos_x
        then record v { pos_x = v.pos_x - 1 }
        else if ltb 0 v.pos_y
        then record v { pos_x = (v.siz_w + 2 ^ 32 - 1) % 2 ^ 32; pos_y = v.pos_y - 1 }
        else v)
    else if c == esc
    then record v { escape_level = 1 }
    else put_char c v

-- From `vga.escape_level = 0` to the end of the loop of scrolling
unfoldable pub plain : ℕ → Vga → Option Vga
plain c v =
    let moved = plain_char c (record v { escape_level = 0 }) in scroll_loop (suc moved.pos_y) moved

-- How the `switch` on the escape sequence ends: `goto exit`, `goto exit_escape` or behind it.
pub data Verdict : Type 0 where
  waits ends falls : Vga → Verdict

-- A line or a column, as an `int` against an `unsigned long`
abbrev pub clamp : ℕ → ℕ → ℕ
clamp limit t = if ltb limit t then limit else if t == 0 || leb (2 ^ 31) t then 1 else t

abbrev pub before : ℕ → ℕ
before t = (t + 2 ^ 32 - 1) % 2 ^ 32

-- The array up to its first 0
unfoldable pub c_string : Bytes → Bytes
c_string [] = []
c_string (c ∷ s) = if c == 0 then [] else c ∷ c_string s

abbrev pub equal : Bytes → Bytes → Bool
equal s t = elim (strcmp s t) [ pos zero ↦ true | _ ↦ false ]

-- `case 'H'`
unfoldable pub set_position : Bytes → Vga → Verdict
set_position stack v =
    let (line, end) = strtol (tail_bytes stack) 10 in
    let (column, end') = strtol (tail_bytes end) 10 in
    if head_byte end == b';' && head_byte end' == b'H'
    then ends
        (record v { pos_x = before (clamp v.siz_w column); pos_y = before (clamp v.siz_h line) })
    else falls v

-- The reply to "[6n"
unfoldable pub report_position : Vga → Vga
report_position v =
    elim (vsprintf (esc ∷ b'[' ∷ b'%' ∷ b'l' ∷ b'd' ∷ b';' ∷ b'%' ∷ b'l' ∷ b'd' ∷ b'R' ∷ [])
      (value ((v.pos_y + 1) % 2 ^ 32) ∷ value ((v.pos_x + 1) % 2 ^ 32) ∷ [])) [
        | none ↦ v
        | some reply ↦ record v { keys = keyboard_inject v.keys reply }
      ]

-- The `switch` on the character that ends a control sequence
unfoldable pub control : ℕ → Bytes → Vga → Verdict
control c stack v =
    if c == b'J'
    then (if equal (b'[' ∷ b'2' ∷ b'J' ∷ []) stack then ends (vga_clear v) else falls v)
    else if c == b'l'
    then (if equal (b'[' ∷ b'?' ∷ b'2' ∷ b'5' ∷ b'l' ∷ []) stack
        then ends (vga_cursor_off v)
        else falls v)
    else if c == b'h'
    then (if equal (b'[' ∷ b'?' ∷ b'2' ∷ b'5' ∷ b'h' ∷ []) stack
        then ends (vga_cursor_on v)
        else falls v)
    else if c == b'H'
    then set_position stack v
    else if c == b'm'
    then (if equal (b'[' ∷ b'7' ∷ b'm' ∷ []) stack
        then ends (vga_set_video_mode true v)
        else if equal (b'[' ∷ b'2' ∷ b'7' ∷ b'm' ∷ []) stack
        then ends (vga_set_video_mode false v)
        else falls v)
    else if c == b'n'
    then (if equal (b'[' ∷ b'6' ∷ b'n' ∷ []) stack then ends (report_position v) else falls v)
    else waits v

abbrev pub select_charset : ℕ → Vga → Vga
select_charset c v =
    if c == b'0'
    then record v { charset = 0 }
    else if c == b'A'
    then record v { charset = 1 }
    else if c == b'B'
    then record v { charset = 2 }
    else v

-- The `switch` on the first byte of the sequence, with the character already in it
unfoldable pub escape : ℕ → Vga → Verdict
escape c v =
    let first = head_byte v.escape_stack in
    if first == b'7'
    then ends (record v { saved_x = v.pos_x; saved_y = v.pos_y })
    else if first == b'8'
    then ends (record v { pos_x = v.saved_x; pos_y = v.saved_y })
    else if first == b'('
    then (if leb v.escape_level 2
        then waits v
        else ends (select_charset (get_or v.escape_stack 1 0) v))
    else if first == b'['
    then (if leb v.escape_level 2 then waits v else control c (c_string v.escape_stack) v)
    else falls v

-- The three ways out
abbrev pub leave : ℕ → Verdict → Option Vga
leave c (waits v) = some (vga_cursor_refresh v)
leave c (ends v) = some (vga_cursor_refresh (record v { escape_level = 0 }))
leave c (falls v) = elim (plain c v) [ none ↦ none | some w ↦ some (vga_cursor_refresh w) ]

-- `vga.escape_stack[vga.escape_level - 1] = c`, and the level goes up
abbrev pub push : ℕ → Vga → Vga
push c v = record v {
  escape_stack = take (v.escape_level - 1) v.escape_stack ++ c ∷ [];
  escape_level = v.escape_level + 1;
}

-- The final 0 of the array is written at the index `escape_level`, which has to be below 16.
unfoldable pub vga_put : ℕ → Vga → Option Vga
vga_put c v =
    let hidden = vga_cursor false v in
    if not v.enabled
    then some v
    else if v.escape_level == 0
    then leave c (falls hidden)
    else if ltb v.escape_level 16
    then leave c (escape c (push c hidden))
    else none

-- `console_putstring` on a console that is the screen
unfoldable pub vga_puts : Bytes → Vga → Option Vga
vga_puts [] v = some v
vga_puts (c ∷ s) v = elim (vga_put c v) [ none ↦ none | some w ↦ vga_puts s w ]

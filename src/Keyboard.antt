-- ===== src/Keyboard.antt =====
-- second/keyboard.c: the ring of bytes that keys and the console put in, and what a key puts in.
pub mod Queue
use emile.Common.{
  ℕ, ◌+◌, ◌-◌, ◌%◌, ◌||◌, Option, none, some, [], ◌∷◌, Bytes, leb, ◌==◌, if◌then◌else◌, get_or, set,
}

-- `head`, `length` and `buffer`, which has 64 bytes
pub record Keyboard : Type 0 where
  pub head : ℕ
  pub size : ℕ
  pub buffer : Bytes

unfoldable pub buffer_put : Keyboard → ℕ → Keyboard
buffer_put k c = record k { buffer = set k.buffer ((k.head + k.size) % 64) c; size = k.size + 1 }

unfoldable pub buffer_get : Keyboard → ℕ × Keyboard
buffer_get k =
    if k.size == 0
    then (0, k)
    else (get_or k.buffer k.head 0, record k { head = (k.head + 1) % 64; size = k.size - 1 })

unfoldable pub buffer_putstring : Keyboard → Bytes → Keyboard
unfolding buffer_put
buffer_putstring k [] = k
buffer_putstring k (c ∷ s) = buffer_putstring (buffer_put k c) s

unfoldable pub keyboard_inject : Keyboard → Bytes → Keyboard
unfolding buffer_putstring
keyboard_inject k s = buffer_putstring k s

-- The `switch` on the scan code of a key whose symbol is the escape byte.
unfoldable pub escape_sequence : ℕ → Bytes
escape_sequence scancode =
    if scancode == 0x60
    then b'[' ∷ b'1' ∷ b'5' ∷ b'~' ∷ []
    else if scancode == 0x61
    then b'[' ∷ b'1' ∷ b'7' ∷ b'~' ∷ []
    else if scancode == 0x62
    then b'[' ∷ b'1' ∷ b'8' ∷ b'~' ∷ []
    else if scancode == 0x63
    then b'O' ∷ b'R' ∷ []
    else if scancode == 0x64
    then b'[' ∷ b'1' ∷ b'9' ∷ b'~' ∷ []
    else if scancode == 0x65
    then b'[' ∷ b'2' ∷ b'0' ∷ b'~' ∷ []
    else if scancode == 0x67
    then b'[' ∷ b'2' ∷ b'3' ∷ b'~' ∷ []
    else if scancode == 0x6d
    then b'[' ∷ b'2' ∷ b'1' ∷ b'~' ∷ []
    else if scancode == 0x6f
    then b'[' ∷ b'2' ∷ b'4' ∷ b'~' ∷ []
    else if scancode == 0x72
    then b'[' ∷ b'2' ∷ b'~' ∷ []
    else if scancode == 0x73
    then b'[' ∷ b'1' ∷ b'~' ∷ []
    else if scancode == 0x74
    then b'[' ∷ b'5' ∷ b'~' ∷ []
    else if scancode == 0x75
    then b'[' ∷ b'3' ∷ b'~' ∷ []
    else if scancode == 0x76
    then b'O' ∷ b'S' ∷ []
    else if scancode == 0x77
    then b'[' ∷ b'4' ∷ b'~' ∷ []
    else if scancode == 0x78
    then b'O' ∷ b'Q' ∷ []
    else if scancode == 0x79
    then b'[' ∷ b'6' ∷ b'~' ∷ []
    else if scancode == 0x7a
    then b'O' ∷ b'P' ∷ []
    else if scancode == 0x7b
    then b'[' ∷ b'D' ∷ []
    else if scancode == 0x7c
    then b'[' ∷ b'C' ∷ []
    else if scancode == 0x7d
    then b'[' ∷ b'B' ∷ []
    else if scancode == 0x7e
    then b'[' ∷ b'A' ∷ []
    else []

-- A new key, as its symbol and its scan code; `none` if the time of the last key is the old one.
pub data Key : Type 0 where
  idle : Key
  key : ℕ → ℕ → Key

-- What `keyboard_catch` puts in the ring
unfoldable pub keyboard_catch : Keyboard → Key → Keyboard
unfolding buffer_put buffer_putstring escape_sequence
keyboard_catch k idle = k
keyboard_catch k (key c scancode) =
    if c == 0x1b
    then buffer_putstring (buffer_put k 0x1b) (escape_sequence scancode)
    else if c == 0
    then k
    else buffer_put k c

unfoldable pub keyboard_getchar : Keyboard → Key → ℕ × Keyboard
unfolding keyboard_catch buffer_get
keyboard_getchar k pressed = buffer_get (keyboard_catch k pressed)

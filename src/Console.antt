-- ===== src/Console.antt =====
-- second/console.c: the console of the booter, which is the screen with the keyboard, a serial port
-- or all of them. What arrives at a serial port and which key is pressed, at each time that it is
-- asked for, are parts of the state that nothing writes, and so is how often the loop of
-- `console_getchar` goes round until its second is over. `none` is a state that a write behind an
-- array leaves, or a loop that goes on.
pub mod Decimal
pub mod Screen
pub mod Position
pub mod Cursor
pub mod Arrival
use emile.Common.{
  ℕ, zero, suc, ◌+◌, ◌^◌, ◌-◌, Bool, true, false, Option, none, some, List, [], ◌∷◌, ◌++◌, Bytes,
  ◌==◌, if◌then◌else◌, Bool,
}
use emile.Keyboard.{Key, keyboard_getchar}
use emile.Unix.{strtol}
use emile.Unix.Print.{Argument, value, vsprintf}
use emile.Vga.{Vga, vga_cursor_refresh}
use emile.Vga.Put.{esc, vga_put}

pub data Selected : Type 0 where
  console_all console_vga console_modem console_printer : Selected

-- A serial port: whether it is available, what was sent, and what each call of `serial_getchar`
-- returns, which is 0 without a byte or a port
pub record Port : Type 0 where
  pub available : Bool
  pub sent : Bytes
  pub arrives : ℕ → ℕ
  pub asked : ℕ

pub record Console : Type 0 where
  pub selected_console : Selected
  pub wait_char : Bool
  pub vga : Vga
  pub modem : Port
  pub printer : Port
  pub pressed : ℕ → Key
  pub catches : ℕ
  pub patience : ℕ

abbrev pub serial_put : Port → ℕ → Port
serial_put p c =
    if p.available
    then record p { sent = p.sent ++ (if c == b'\n' then b'\n' ∷ b'\r' ∷ [] else c ∷ []) }
    else p

abbrev pub serial_getchar : Port → ℕ × Port
serial_getchar p = (p.arrives p.asked, record p { asked = p.asked + 1 })

-- The `switch` of `console_putchar`
unfoldable pub putchar_to : Selected → ℕ → Console → Option Console
putchar_to console_all c con = elim (vga_put c con.vga) [
  | none ↦ none
  | some v ↦
      some
        (record con { vga = v; modem = serial_put con.modem c; printer = serial_put con.printer c })
]
putchar_to console_vga c con = elim (vga_put c con.vga) [
  | none ↦ none
  | some v ↦ some (record con { vga = v })
]
putchar_to console_modem c con = some (record con { modem = serial_put con.modem c })
putchar_to console_printer c con = some (record con { printer = serial_put con.printer c })

unfoldable pub console_putchar : ℕ → Console → Option Console
console_putchar c con = putchar_to con.selected_console c con

unfoldable pub console_putstring : Bytes → Console → Option Console
console_putstring [] con = some con
console_putstring (c ∷ s) con = elim (console_putchar c con) [
  | none ↦ none
  | some con' ↦ console_putstring s con'
]

-- `printf` writes the text of `vsprintf` to the console.
unfoldable pub printf : Bytes → List Argument → Console → Option Console
printf fmt args con = elim (vsprintf fmt args) [
  | none ↦ none
  | some text ↦ console_putstring text con
]

-- `keyboard_getchar`, whose `keyboard_catch` also sets the cursor
unfoldable pub key_char : Console → ℕ × Console
key_char con =
    let v = con.vga in
    let (c, keys) = keyboard_getchar v.keys (con.pressed con.catches) in
    (
      c,
      record con { vga = record (vga_cursor_refresh v) { keys = keys }; catches = con.catches + 1 },
    )

unfoldable pub modem_char : Console → ℕ × Console
modem_char con = let (c, p) = serial_getchar con.modem in (c, record con { modem = p })

unfoldable pub printer_char : Console → ℕ × Console
printer_char con = let (c, p) = serial_getchar con.printer in (c, record con { printer = p })

-- The next source is asked if the one before had nothing.
abbrev or_else : ℕ × Console → (Console → ℕ × Console) → ℕ × Console
or_else (c, con) next = if c == 0 then next con else (c, con)

-- The `switch` of `console_getchar`
unfoldable pub poll_from : Selected → Console → ℕ × Console
poll_from console_all con =
    or_else (or_else (if con.vga.enabled then key_char con else (0, con)) modem_char) printer_char
poll_from console_vga con = if con.vga.enabled then key_char con else (0, con)
poll_from console_modem con = modem_char con
poll_from console_printer con = printer_char con

unfoldable pub poll : Console → ℕ × Console
poll con = poll_from con.selected_console con

-- `do ... while ((c == 0) && (Ticks < time))`, with the rounds that the time is enough for
unfoldable pub getchar_loop : ℕ → Console → ℕ × Console
getchar_loop zero con = poll con
getchar_loop (suc rounds) con =
    let (c, con') = poll con in
    let again = getchar_loop rounds con' in if c == 0 then again else (c, con')

-- Without a time to wait there is one round.
unfoldable pub console_getchar : Console → ℕ × Console
console_getchar con = getchar_loop (if con.wait_char then con.patience else 0) con

-- `while (console_getchar () != 0);`, with fuel
unfoldable pub flush_loop : ℕ → Console → Option Console
flush_loop zero con = none
flush_loop (suc fuel) con =
    let (c, con') = console_getchar con in
    let rest = flush_loop fuel con' in if c == 0 then some con' else rest

unfoldable pub console_flush : ℕ → Console → Option Console
console_flush fuel con = elim (flush_loop fuel (record con { wait_char = false })) [
  | none ↦ none
  | some con' ↦ some (record con' { wait_char = con.wait_char })
]

-- `while ((car = console_getchar ()) && (car != stop)) buf[i++] = car; buf[i] = 0;` with the room
-- that is left in the array: the text and the last character
unfoldable pub read_until : ℕ → ℕ → Console → Option (Bytes × ℕ × Console)
read_until stop zero con = none
read_until stop (suc room) con =
    let (c, con') = console_getchar con in
    let rest : Option (Bytes × ℕ × Console) = elim (read_until stop room con') [
      | none ↦ none
      | some (text, last, con'') ↦ some (c ∷ text, last, con'')
    ] in
    if c == 0 then some ([], c, con') else if c == stop then some ([], c, con') else rest

-- The two numbers of the reply, in arrays of 16 bytes
unfoldable pub read_position : Console → Option (ℕ × ℕ × Console)
read_position con = elim (read_until b';' 16 con) [
  | none ↦ none
  | some (line, _, con') ↦ elim (read_until b'R' 16 con') [
    | none ↦ none
    | some (column, _, con'') ↦ some ((strtol line 10).0, (strtol column 10).0, con'')
  ]
]

-- What comes of `console_get_cursor_position`: the result, the line, the column and the state
pub record Answer : Type 0 where
  pub ret : Bool
  pub l : ℕ
  pub c : ℕ
  pub console : Console

-- From `wait_char = 1` on; the result is true for 0 and false for -1.
unfoldable pub read_reply : Console → Option Answer
read_reply con =
    let (first, con1) = console_getchar con in
    let (second, con2) = console_getchar con1 in
    let numbers : Option Answer = elim (read_position con2) [
      | none ↦ none
      | some (line, column, con3) ↦
          some (record { ret = true; l = line; c = column; console = con3 })
    ] in
    if first == esc
    then (if second == b'['
        then numbers
        else some (record { ret = false; l = 0; c = 0; console = con2 }))
    else some (record { ret = false; l = 0; c = 0; console = con1 })

abbrev pub position_request : Bytes
position_request = esc ∷ b'[' ∷ b'6' ∷ b'n' ∷ []

unfoldable pub console_get_cursor_position : ℕ → Console → Option Answer
console_get_cursor_position fuel con = elim (console_flush fuel con) [
  | none ↦ none
  | some con1 ↦ elim (printf position_request [] con1) [
    | none ↦ none
    | some con2 ↦ elim (read_reply (record con2 { wait_char = true })) [
      | none ↦ none
      | some a ↦ some (record a { console = record a.console { wait_char = con.wait_char } })
    ]
  ]
]

abbrev pub position_format : Bytes
position_format = esc ∷ b'[' ∷ b'%' ∷ b'd' ∷ b';' ∷ b'%' ∷ b'd' ∷ b'H' ∷ []

unfoldable pub console_set_cursor_position : ℕ → ℕ → Console → Option Console
console_set_cursor_position l c con = printf position_format (value l ∷ value c ∷ []) con

-- ===== src/Tests/Screen.antt =====
-- The screen, the console and the boot information at concrete input.
use emile.Common.{
  ℕ, zero, suc, inl, ◌==◌, if◌then◌else◌, ◌+◌, ◌*◌, ◌^◌, ◌≤◌, ◌<◌, ◌≡◌, ◌⊎◌, refl, true, false,
  none, some, [], ◌∷◌, arith,
}
use emile.Common.Slice.{slice}
use emile.Keyboard.{Keyboard, idle}
use emile.Vga.{Vga, PixMap, vga_init, vga_scroll, vga_cursor, vga_cursor_refresh}
use emile.Vga.Scroll.{Scrolled, vga_scroll-Scrolled}
use emile.Vga.Put.{esc, vga_put, vga_puts, escape, control, plain, plain_char, scroll_loop}
use emile.Vga.Put.Sequence.{Puts, Kept, vga_put-IsSafe}
use emile.Vga.Put.Start.{rectangle_memory, vga_init-vga_puts}
use emile.Console.{
  Console, console_vga, console_modem, console_getchar, getchar_loop, poll, poll_from, modem_char,
  console_get_cursor_position, console_set_cursor_position,
}
use emile.Console.Position.{IsReady}
use emile.Console.Arrival.{next_byte, asked_more, console_getchar-arrives}
use emile.Console.Cursor.{console_get_cursor_position-console_set_cursor_position}
use emile.BootInfo.{BootInfo, set_kernel_bootinfo}
use emile.BootInfo.Records.{Parsed, room_of}
use emile.BootInfo.Kernel.{records, set_kernel_bootinfo-Parsed}

abbrev no_keys : Keyboard
no_keys = record { head = 0; size = 0; buffer = slice (λ _. 0) 0 64 }

-- Two lines of two columns, with one bit a pixel
abbrev small_screen : Vga
small_screen = record {
  enabled = true;
  video = λ q. q;
  row_bytes = 2;
  depth = 1;
  width = 16;
  height = 32;
  siz_w = 2;
  siz_h = 2;
  pos_x = 0;
  pos_y = 0;
  mask = 0xFF;
  escape_level = 0;
  escape_stack = [];
  saved_x = 0;
  saved_y = 0;
  charset = 2;
  cursor_on = false;
  cursor_state = false;
  keys = no_keys;
  font = λ c l. c;
  ticks = λ n. 0;
  ticks_read = 0;
}

abbrev pixels : PixMap
pixels = record { row_bytes = 2; left = 0; top = 4; right = 16; bottom = 36; pixel_size = 1 }

vga_init-vga_puts_example :
    Kept 64
      (rectangle_memory pixels small_screen)
      (vga_puts (b'a' ∷ b'\n' ∷ b'b' ∷ []) (vga_init true pixels small_screen))
vga_init-vga_puts_example =
    vga_init-vga_puts true pixels 72 small_screen (b'a' ∷ b'\n' ∷ b'b' ∷ [])
      record {
        columns = omega arith;
        lines = omega arith;
        narrow = omega arith;
        low = omega arith;
        deep = omega arith;
        room = omega arith;
      }
      record { unsaved_x = refl; unsaved_y = refl }

vga_put-IsSafe_example : Puts 64 small_screen.video small_screen (vga_put b'a' small_screen)
vga_put-IsSafe_example = vga_put-IsSafe b'a' small_screen record {
  few_columns = omega arith;
  few_lines = omega arith;
  wide = omega arith;
  tall = omega arith;
  cleared = omega arith;
  saved_column = omega arith;
  saved_line = omega arith;
  known = omega arith;
  column = omega arith;
  line = omega arith;
  kept = λ q far. refl;
}

vga_scroll_example : Scrolled small_screen (vga_scroll small_screen)
vga_scroll_example = vga_scroll-Scrolled small_screen (omega arith)

-- The array of a sequence has room for 15 bytes and a final 0.
overflow :
    vga_puts
      (esc ∷ b'[' ∷ b'1' ∷ b'1' ∷ b'1' ∷ b'1' ∷ b'1' ∷ b'1' ∷ b'1' ∷ b'1' ∷ b'1' ∷ b'1' ∷ b'1'
        ∷ b'1' ∷ b'1' ∷ b'1' ∷ b'1' ∷ [])
      small_screen
    ≡ none
unfolding vga_puts vga_put vga_cursor vga_cursor_refresh plain plain_char scroll_loop escape control
overflow = refl

abbrev screen_console : Console
screen_console = record {
  selected_console = console_vga;
  wait_char = false;
  vga = small_screen;
  modem = record { available = true; sent = []; arrives = λ n. 0; asked = 0 };
  printer = record { available = true; sent = []; arrives = λ n. 0; asked = 0 };
  pressed = λ n. idle;
  catches = 0;
  patience = 3;
}

cursor_example :
    (con1 : Console) × (con2 : Console) × (console_set_cursor_position 2 1 screen_console
      ≡ some con1)
    × (console_get_cursor_position 1 con1
        ≡ some (record { ret = true; l = 2; c = 1; console = con2 }))
    × IsReady 2 2 0 1 [] con2
cursor_example =
    console_get_cursor_position-console_set_cursor_position 1 2 1 [] screen_console (omega arith)
      (omega arith) (omega arith) (omega arith) (omega arith) (omega arith) (omega arith) tt
      (omega arith)
      record {
        on_screen = refl;
        still = λ n. refl;
        shows = record {
          on = refl;
          columns = refl;
          lines = refl;
          at_level = refl;
          written = refl;
          column = refl;
          line = refl;
          queue = record { whole = refl; inside = omega arith; room = omega arith; queue = refl };
        };
      }

abbrev some_machine : BootInfo
some_machine = record {
  machtype = 3;
  cputype = 2 + 2 * 32;
  memory = record { addr = 0; size = 2 ^ 22 } ∷ record { addr = 2 ^ 26; size = 2 ^ 20 } ∷ [];
  ramdisk_size = 2 ^ 10;
  ramdisk_addr = 2 ^ 20;
  command_line = b'r' ∷ b'o' ∷ [];
  bi_mac = record {
    videoaddr = 2 ^ 28;
    videorow = 80;
    videodepth = 1;
    dimensions = 0x01e00280;
    boottime = 0;
    gmtbias = 0;
    videological = 0;
    scc_read = 1;
    scc_write = 2;
    id = 6;
    memsize = 5;
    cpuid = 1;
    rombase = 2 ^ 30;
  };
}

set_kernel_bootinfo_example :
    (m' : ℕ → ℕ) × (set_kernel_bootinfo some_machine (4096, λ q. 7)
      ≡ some (4096 + (room_of (records some_machine) + 4), m'))
    × Parsed m' 4096 (records some_machine)
    × ((q : ℕ) → (q < 4096) ⊎ (4096 + (room_of (records some_machine) + 4) ≤ q) → m' q ≡ 7)
set_kernel_bootinfo_example =
    set_kernel_bootinfo-Parsed some_machine 4096 (λ q. 7) (omega arith) (omega arith)

-- A console on the modem port, where the third question gets a byte
abbrev modem_console : Console
modem_console = record screen_console {
  selected_console = console_modem;
  wait_char = true;
  modem = record {
    available = true;
    sent = [];
    arrives = λ n. if n == 2 then b'x' else 0;
    asked = 0;
  };
}

getchar_waits : (console_getchar modem_console).0 ≡ b'x'
unfolding console_getchar getchar_loop poll poll_from modem_char
getchar_waits = refl

console_getchar-arrives_example :
    console_getchar modem_console ≡ (next_byte modem_console 2, asked_more modem_console 3)
console_getchar-arrives_example =
    console_getchar-arrives modem_console 2 refl refl (omega arith) silent (inl (omega arith))
  where
    silent : (i : ℕ) → i < 2 → next_byte modem_console i ≡ 0
    silent zero below = refl
    silent (suc zero) below = refl
    silent (suc (suc i)) below = absurd (omega arith)

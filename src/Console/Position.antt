-- ===== src/Console/Position.antt =====
-- The console on the screen, with no key pressed: what it reads is what waits in the ring.
use mathlib.Core.Path.{subst}
use emile.Common.{
  ℕ, zero, suc, ◌<◌, ◌≡◌, ◌≢◌, refl, sym, ap, ◌∙◌, true, false, Option, some, [], ◌∷◌, ◌++◌, Bytes,
  arith, length, ◌==◌, if◌then◌else◌,
}
use emile.Keyboard.{Key, Keyboard, idle, keyboard_catch, keyboard_getchar}
use emile.Keyboard.Queue.{Holds, buffer_get-Holds, buffer_get-empty}
use emile.Vga.{Vga}
use emile.Vga.Put.Collect.{Shows, vga_cursor_refresh-Shows}
use emile.Console.{
  Console, console_vga, key_char, poll, poll_from, getchar_loop, console_getchar, flush_loop,
  console_flush, read_until,
}
use emile.Console.Screen.{AllNonzero}

abbrev pub All : (ℕ → Type 0) → Bytes → Type 0
All P [] = Unit
All P (c ∷ s) = P c × All P s

-- The console is the screen, outside of a sequence, and no key is pressed.
pub record IsReady (w h x y : ℕ) (s : Bytes) (con : Console) : Type 0 where
  pub on_screen : con.selected_console ≡ console_vga
  pub still : (n : ℕ) → con.pressed n ≡ idle
  pub shows : Shows w h 0 [] x y s con.vga

caught : (k : Keyboard) {p : Key} → p ≡ idle → keyboard_catch k p ≡ k
unfolding keyboard_catch
caught k e = ap (keyboard_catch k) e

module _ {w h x y : ℕ} where
  poll-key_char : (s : Bytes) (con : Console) → IsReady w h x y s con → poll con ≡ key_char con
  unfolding poll poll_from
  poll-key_char s con r =
      ap (λ t. poll_from t con) r.on_screen
      ∙ ap (λ b. if b then key_char con else (0, con)) r.shows.on

  -- What is left when a byte was taken from the ring
  taken :
      {s t : Bytes} {v : Vga} (keys : Keyboard)
      → Holds keys t
      → Shows w h 0 [] x y s v
      → Shows w h 0 [] x y t (record v { keys = keys })
  taken keys holds sh = record {
    on = sh.on;
    columns = sh.columns;
    lines = sh.lines;
    at_level = sh.at_level;
    written = sh.written;
    column = sh.column;
    line = sh.line;
    queue = holds;
  }

  key_char-IsReady :
      (c : ℕ) (s : Bytes) (con : Console)
      → IsReady w h x y (c ∷ s) con
      → ((key_char con).0 ≡ c) × IsReady w h x y s (key_char con).1
  unfolding key_char keyboard_getchar
  key_char-IsReady c s con r =
      let same : keyboard_catch con.vga.keys (con.pressed con.catches) ≡ con.vga.keys =
        caught con.vga.keys (r.still con.catches) in
      let (first, rest) =
        buffer_get-Holds (keyboard_catch con.vga.keys (con.pressed con.catches)) c s
          (rw same r.shows.queue) in
      (
        first,
        record {
          on_screen = r.on_screen;
          still = r.still;
          shows = taken _ rest (vga_cursor_refresh-Shows con.vga r.shows);
        },
      )

  key_char-empty :
      (con : Console)
      → IsReady w h x y [] con
      → ((key_char con).0 ≡ 0) × IsReady w h x y [] (key_char con).1
  unfolding key_char keyboard_getchar
  key_char-empty con r =
      let same : keyboard_catch con.vga.keys (con.pressed con.catches) ≡ con.vga.keys =
        caught con.vga.keys (r.still con.catches) in
      let holds : Holds (keyboard_catch con.vga.keys (con.pressed con.catches)) [] =
        rw same r.shows.queue in
      let nothing = buffer_get-empty _ holds in
      (
        ap (λ p. p.0) nothing,
        record {
          on_screen = r.on_screen;
          still = r.still;
          shows =
              taken _ (subst (λ p. Holds p.1 []) (sym nothing) holds)
                (vga_cursor_refresh-Shows con.vga r.shows);
        },
      )

  -- `console_getchar` takes the first byte that waits, in its first round.
  getchar_loop-IsReady :
      (rounds c : ℕ) (s : Bytes) (con : Console)
      → c ≢ 0
      → IsReady w h x y (c ∷ s) con
      → ((getchar_loop rounds con).0 ≡ c) × IsReady w h x y s (getchar_loop rounds con).1
  unfolding getchar_loop
  getchar_loop-IsReady zero c s con some_byte r =
      rw (poll-key_char (c ∷ s) con r) (key_char-IsReady c s con r)
  getchar_loop-IsReady (suc rounds) c s con some_byte r =
      let (first, rest) = key_char-IsReady c s con r in
      let found : ((key_char con).0 == 0) ≡ false = ground (arith, first, some_byte) in
      rw (poll-key_char (c ∷ s) con r, found) (first, rest)

  pub console_getchar-IsReady :
      (c : ℕ) (s : Bytes) (con : Console)
      → c ≢ 0
      → IsReady w h x y (c ∷ s) con
      → ((console_getchar con).0 ≡ c) × IsReady w h x y s (console_getchar con).1
  unfolding console_getchar
  console_getchar-IsReady c s con some_byte r =
      getchar_loop-IsReady (if con.wait_char then con.patience else 0) c s con some_byte r

  getchar_loop-empty :
      (rounds : ℕ) (con : Console)
      → IsReady w h x y [] con
      → ((getchar_loop rounds con).0 ≡ 0) × IsReady w h x y [] (getchar_loop rounds con).1
  unfolding getchar_loop
  getchar_loop-empty zero con r = rw (poll-key_char [] con r) (key_char-empty con r)
  getchar_loop-empty (suc rounds) con r =
      let (nothing, rest) = key_char-empty con r in
      let missed : ((key_char con).0 == 0) ≡ true = ground (arith, nothing) in
      rw (poll-key_char [] con r, missed) (getchar_loop-empty rounds (key_char con).1 rest)

-- What a console becomes
abbrev pub Turns : (Console → Type 0) → Option Console → Type 0
Turns P r = (con : Console) × (r ≡ some con) × P con

module _ {w h x y : ℕ} where
  flush_loop-IsReady :
      (fuel : ℕ) (s : Bytes) (con : Console)
      → AllNonzero s
      → length s < fuel
      → IsReady w h x y s con
      → Turns (IsReady w h x y []) (flush_loop fuel con)
  unfolding flush_loop console_getchar
  flush_loop-IsReady zero s con nonzero enough r = absurd (omega arith)
  flush_loop-IsReady (suc fuel) [] con nonzero enough r =
      let (nothing, rest) = getchar_loop-empty (if con.wait_char then con.patience else 0) con r in
      let done : ((console_getchar con).0 == 0) ≡ true = ground (arith, nothing) in
      ((console_getchar con).1, rw done refl, rest)
  flush_loop-IsReady (suc fuel) (c ∷ s) con (some_byte, nonzero) enough r =
      let (first, rest) = console_getchar-IsReady c s con some_byte r in
      let more : ((console_getchar con).0 == 0) ≡ false = ground (arith, first, some_byte) in
      rw more (flush_loop-IsReady fuel s (console_getchar con).1 nonzero (omega arith) rest)

  pub console_flush-IsReady :
      (fuel : ℕ) (s : Bytes) (con : Console)
      → AllNonzero s
      → length s < fuel
      → IsReady w h x y s con
      → Turns (IsReady w h x y []) (console_flush fuel con)
  unfolding console_flush
  console_flush-IsReady fuel s con nonzero enough r =
      let (con', e, r') =
        flush_loop-IsReady fuel s (record con { wait_char = false }) nonzero enough
          record { on_screen = r.on_screen; still = r.still; shows = r.shows } in
      (
        record con' { wait_char = con.wait_char },
        rw (e, console_flush) refl,
        record { on_screen = r'.on_screen; still = r'.still; shows = r'.shows },
      )

  -- The bytes in front of the first stop byte
  pub read_until-IsReady :
      (stop room : ℕ) (text rest : Bytes) (con : Console)
      → stop ≢ 0
      → length text < room
      → All (λ c. (c ≢ 0) × (c ≢ stop)) text
      → IsReady w h x y (text ++ stop ∷ rest) con
      → (con' : Console) × (read_until stop room con ≡ some (text, stop, con'))
        × IsReady w h x y rest con'
  unfolding read_until
  read_until-IsReady stop zero text rest con some_stop fits ok r = absurd (omega arith)
  read_until-IsReady stop (suc room) [] rest con some_stop fits ok r =
      let (first, rest') = console_getchar-IsReady stop rest con some_stop r in
      let some_byte : ((console_getchar con).0 == 0) ≡ false = ground (arith, first, some_stop) in
      let stops : ((console_getchar con).0 == stop) ≡ true = ground (arith, first) in
      (
        (console_getchar con).1,
        rw (some_byte, stops) (ap (λ c. some ([], c, (console_getchar con).1)) first),
        rest',
      )
  read_until-IsReady stop (suc room) (c ∷ text) rest con some_stop fits (ok, oks) r =
      let (first, rest') = console_getchar-IsReady c (text ++ stop ∷ rest) con ok.0 r in
      let some_byte : ((console_getchar con).0 == 0) ≡ false = ground (arith, first, ok.0) in
      let goes_on : ((console_getchar con).0 == stop) ≡ false = ground (arith, first, ok.1) in
      let (con', e, done) =
        read_until-IsReady stop room text rest (console_getchar con).1 some_stop (omega arith) oks
          rest' in
      (con', rw (some_byte, goes_on, e) (ap (λ d. some (d ∷ text, stop, con')) first), done)

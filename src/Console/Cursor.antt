-- ===== src/Console/Cursor.antt =====
-- Setting the cursor of the console, and asking for it.
use mathlib.Core.Path.{subst}
use mathlib.Core.List.{append-nil}
use emile.Common.{
  ℕ, ◌+◌, ◌-◌, ◌^◌, ◌≤◌, ◌<◌, ◌≡◌, ◌≢◌, refl, sym, ap, ap₂, ◌∙◌, true, Option, none, some, List, [],
  ◌∷◌, ◌++◌, Bytes, arith, length, ◌==◌,
}
use emile.Unix.{strtol}
use emile.Unix.Strtol.{AllDigits}
use emile.Unix.Print.{Argument, value, vsprintf, format_loop, step, directive_step}
use emile.Console.Decimal.{
  digits, digits-AllDigits, digits-length, strtol-digits, vsprintf-position,
}
use emile.Vga.{Vga}
use emile.Vga.Put.{esc, vga_put, vga_puts}
use emile.Vga.Put.Collect.{Shows, vga_puts-cons}
use emile.Console.{
  Console, console_vga, putchar_to, console_putchar, console_putstring, printf, console_getchar,
  read_until, read_position, read_reply, position_request, position_format,
  console_set_cursor_position, console_get_cursor_position,
}
use emile.Console.Screen.{AllNonzero, digit_bounds, place, place-Shows, request-Shows, vga_puts-nil}
use emile.Console.Position.{
  All, IsReady, Turns, console_getchar-IsReady, console_flush-IsReady, read_until-IsReady,
}

console_putchar-vga :
    (c : ℕ) (con : Console) (v : Vga)
    → con.selected_console ≡ console_vga
    → vga_put c con.vga ≡ some v
    → console_putchar c con ≡ some (record con { vga = v })
unfolding console_putchar putchar_to
console_putchar-vga c con v on_screen e =
    ap (λ s. putchar_to s c con) on_screen ∙ rw (e, putchar_to) refl

console_putstring-vga :
    (text : Bytes) (con : Console) (v : Vga)
    → con.selected_console ≡ console_vga
    → vga_puts text con.vga ≡ some v
    → console_putstring text con ≡ some (record con { vga = v })
unfolding console_putstring vga_puts
console_putstring-vga [] con v on_screen e =
    let same : con.vga ≡ v =
      (let f : some con.vga ≡ some v = sym (vga_puts-nil con.vga) ∙ e in cc) in
    ap (λ u. some (record con { vga = u })) same
console_putstring-vga (c ∷ text) con v on_screen e =
    by_first (λ u f. console_putstring-vga text (record con { vga = u }) v on_screen f)
      (vga_put c con.vga) refl
  where
    by_first :
        ((u : Vga)
          → vga_puts text u ≡ some v
          → console_putstring text (record con { vga = u }) ≡ some (record con { vga = v }))
        → (r : Option Vga) → vga_put c con.vga ≡ r
        → console_putstring (c ∷ text) con ≡ some (record con { vga = v })
    by_first rest none e1 = absurd (let f : none ≡ some v = sym (rw (e1, vga_puts) refl) ∙ e in cc)
    by_first rest (some u) e1 =
        rw (console_putchar-vga c con u on_screen e1, console_putstring)
          (rest u (sym (vga_puts-cons c text con.vga u e1) ∙ e))

-- `printf` on a console that is the screen
printf-vga :
    (fmt text : Bytes) (args : List Argument) (con : Console) (v : Vga)
    → con.selected_console ≡ console_vga
    → vsprintf fmt args ≡ some text
    → vga_puts text con.vga ≡ some v
    → printf fmt args con ≡ some (record con { vga = v })
unfolding printf
printf-vga fmt text args con v on_screen written e =
    rw (written, printf) (console_putstring-vga text con v on_screen e)

shown :
    {w h x y x' y' : ℕ} {s s' : Bytes} {v : Vga} (con : Console)
    → IsReady w h x y s con
    → Shows w h 0 [] x' y' s' v
    → IsReady w h x' y' s' (record con { vga = v })
shown con r sh = record { on_screen = r.on_screen; still = r.still; shows = sh }

vsprintf-request : vsprintf position_request [] ≡ some position_request
unfolding vsprintf format_loop step directive_step
vsprintf-request = refl

module _ {w h x y : ℕ} {s : Bytes} where
  -- `console_set_cursor_position` to a place on the screen
  pub console_set_cursor_position-IsReady :
      (l c : ℕ) (con : Console)
      → y < h
      → 0 < l
      → l ≤ h
      → 0 < c
      → c ≤ w
      → l < 10 ^ 5
      → c < 10 ^ 5
      → IsReady w h x y s con
      → Turns (IsReady w h (c - 1) (l - 1) s) (console_set_cursor_position l c con)
  unfolding console_set_cursor_position
  console_set_cursor_position-IsReady l c con inside p q p' q' small small' r =
      let (v, e, sh) = place-Shows con.vga l c inside p q p' q' small small' r.shows in
      (
        record con { vga = v },
        printf-vga position_format (esc ∷ b'[' ∷ place l c b'H') (value l ∷ value c ∷ []) con v
            r.on_screen (vsprintf-position l c (omega (arith, small)) (omega (arith, small'))) e,
        shown con r sh,
      )

  request-IsReady :
      (con : Console)
      → y < h
      → x + 1 < 10 ^ 5
      → y + 1 < 10 ^ 5
      → length s + 14 ≤ 64
      → IsReady w h x y s con
      → Turns
          (IsReady w h x y (s ++ (esc ∷ b'[' ∷ place (y + 1) (x + 1) b'R')))
          (printf position_request [] con)
  request-IsReady con inside small small' room r =
      let (v, e, sh) = request-Shows con.vga inside small small' room r.shows in
      (
        record con { vga = v },
        printf-vga position_request position_request [] con v r.on_screen vsprintf-request e,
        shown con r sh,
      )

digits-All : (n stop : ℕ) → b'9' < stop → All (λ c. (c ≢ 0) × (c ≢ stop)) (digits n)
digits-All n stop high = by_digits (digits n) (digits-AllDigits n)
  where
    by_digits : (s : Bytes) → AllDigits 10 s → All (λ c. (c ≢ 0) × (c ≢ stop)) s
    by_digits [] all = tt
    by_digits (c ∷ s) (d, all) =
        let bounds = digit_bounds c d in
        (((λ e. omega (arith, bounds, e)), (λ e. omega (arith, bounds, e, high))), by_digits s all)

read_position-numbers :
    (l c : ℕ) (con con' con'' : Console)
    → l < 10 ^ 5
    → c < 10 ^ 5
    → read_until b';' 16 con ≡ some (digits l, b';', con')
    → read_until b'R' 16 con' ≡ some (digits c, b'R', con'')
    → read_position con ≡ some (l, c, con'')
unfolding read_position
read_position-numbers l c con con' con'' small small' e e' =
    rw (e, read_position)
      (rw (e', read_position)
        (ap₂ (λ a b. some (a, b, con'')) (read_back l (omega arith)) (read_back c (omega arith))))
  where
    read_back : (n : ℕ) → n < 2 ^ 32 → (strtol (digits n) 10).0 ≡ n
    read_back n lt =
        ap (λ t. (strtol t 10).0) (sym (append-nil (digits n)))
        ∙ ap (λ p. p.0) (strtol-digits n [] lt tt)

-- The reply that waits in the ring is read as the two numbers.
read_reply-IsReady :
    {w h x y : ℕ} (l c : ℕ) (con : Console)
    → l < 10 ^ 5
    → c < 10 ^ 5
    → IsReady w h x y (esc ∷ b'[' ∷ place l c b'R') con
    → (con' : Console) × (read_reply con
        ≡ some (record { ret = true; l = l; c = c; console = con' }))
      × IsReady w h x y [] con'
unfolding read_reply
read_reply-IsReady l c con small small' r =
    let (first, r1) =
      console_getchar-IsReady esc (b'[' ∷ place l c b'R') con (λ e. omega (arith, e)) r in
    let con1 = (console_getchar con).1 in
    let (second, r2) =
      console_getchar-IsReady b'[' (place l c b'R') con1 (λ e. omega (arith, e)) r1 in
    let con2 = (console_getchar con1).1 in
    let (con3, e3, r3) =
      read_until-IsReady b';' 16 (digits l) (digits c ++ b'R' ∷ []) con2 (λ e. omega (arith, e))
        (omega (arith, digits-length l small)) (digits-All l b';' (omega arith)) r2 in
    let (con4, e4, r4) =
      read_until-IsReady b'R' 16 (digits c) [] con3 (λ e. omega (arith, e))
        (omega (arith, digits-length c small')) (digits-All c b'R' (omega arith)) r3 in
    let is_esc : ((console_getchar con).0 == esc) ≡ true = ground (arith, first) in
    let is_bracket : ((console_getchar con1).0 == b'[') ≡ true = ground (arith, second) in
    (
      con4,
      rw (is_esc, is_bracket, read_position-numbers l c con2 con3 con4 small small' e3 e4) refl,
      r4,
    )

-- `console_get_cursor_position` tells the line and the column of the cursor, from 1 on.
console_get_cursor_position-IsReady :
    {w h x y : ℕ} (fuel l c : ℕ) (s : Bytes) (con : Console)
    → y < h
    → l ≡ y + 1
    → c ≡ x + 1
    → l < 10 ^ 5
    → c < 10 ^ 5
    → AllNonzero s
    → length s < fuel
    → IsReady w h x y s con
    → (con' : Console) × (console_get_cursor_position fuel con
        ≡ some (record { ret = true; l = l; c = c; console = con' }))
      × IsReady w h x y [] con'
unfolding console_get_cursor_position
console_get_cursor_position-IsReady {w} {h} {x} {y} fuel l c s con inside el ec small small' nonzero
      enough r =
    let (con1, e1, r1) = console_flush-IsReady fuel s con nonzero enough r in
    let (con2, e2, r2) =
      request-IsReady con1 inside (omega (arith, ec, small')) (omega (arith, el, small))
        (omega arith) r1 in
    let reply : IsReady w h x y (esc ∷ b'[' ∷ place l c b'R') (record con2 { wait_char = true }) =
      subst (λ t. IsReady w h x y t (record con2 { wait_char = true }))
        (ap₂ (λ a b. esc ∷ b'[' ∷ place a b b'R') (sym el) (sym ec))
        record { on_screen = r2.on_screen; still = r2.still; shows = r2.shows } in
    let (con3, e3, r3) =
      read_reply-IsReady l c (record con2 { wait_char = true }) small small' reply in
    (
      record con3 { wait_char = con.wait_char },
      rw (e1, console_get_cursor_position)
          (rw (e2, console_get_cursor_position) (rw (e3, console_get_cursor_position) refl)),
      record { on_screen = r3.on_screen; still = r3.still; shows = r3.shows },
    )

-- The cursor is where it was set: after `console_set_cursor_position` to a place on the screen,
-- `console_get_cursor_position` gets its reply, and the line and the column that were set. What
-- waited in the ring of the keyboard is lost. It holds for a console that is the screen, outside of
-- an escape sequence, while no key is pressed, for numbers below 10 ^ 5, and bytes other than 0 in
-- the ring.
pub console_get_cursor_position-console_set_cursor_position :
    {w h x y : ℕ} (fuel l c : ℕ) (s : Bytes) (con : Console)
    → y < h
    → 0 < l
    → l ≤ h
    → 0 < c
    → c ≤ w
    → l < 10 ^ 5
    → c < 10 ^ 5
    → AllNonzero s
    → length s < fuel
    → IsReady w h x y s con
    → (con1 : Console) × (con2 : Console) × (console_set_cursor_position l c con ≡ some con1)
      × (console_get_cursor_position fuel con1
          ≡ some (record { ret = true; l = l; c = c; console = con2 }))
      × IsReady w h (c - 1) (l - 1) [] con2
console_get_cursor_position-console_set_cursor_position fuel l c s con inside p q p' q' small small'
      nonzero enough r =
    let (con1, e1, r1) =
      console_set_cursor_position-IsReady l c con inside p q p' q' small small' r in
    let (con2, e2, r2) =
      console_get_cursor_position-IsReady fuel l c s con1 (omega arith) (omega arith) (omega arith)
        small small' nonzero enough r1 in
    (con1, con2, e1, e2, r2)

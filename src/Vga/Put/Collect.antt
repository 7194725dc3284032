-- ===== src/Vga/Put/Collect.antt =====
-- How the screen collects a control sequence, character by character, and what ends it.
use mathlib.Core.List.{append_assoc, append-nil}
use mathlib.Core.Path.{subst}
use emile.Common.{
  ℕ, suc, ◌+◌, ◌-◌, ◌≤◌, ◌<◌, ◌≡◌, ◌≢◌, refl, sym, ap, ap₂, ◌∙◌, Bool, true, false, Option, some,
  [], ◌∷◌, ◌++◌, Bytes, arith, length, leb, ltb, ◌==◌, take, length-append,
}
use emile.Keyboard.Queue.{Holds}
use emile.Unix.{head_byte}
use emile.Vga.{Vga, draw_cursor, vga_cursor, vga_cursor_refresh}
use emile.Vga.Put.{
  esc, waits, falls, plain_char, scroll_loop, plain, c_string, control, escape, leave, push,
  vga_put, vga_puts,
}
use emile.Vga.Put.Safe.{if_split}

-- A screen of `w` columns and `h` lines with its cursor, what waits in the ring of the keyboard,
-- and the sequence so far: its level, and the bytes that the next one is written behind.
pub record Shows (w h level : ℕ) (stack : Bytes) (x y : ℕ) (s : Bytes) (v : Vga) : Type 0 where
  pub on : v.enabled ≡ true
  pub columns : v.siz_w ≡ w
  pub lines : v.siz_h ≡ h
  pub at_level : v.escape_level ≡ level
  pub written : take (v.escape_level - 1) v.escape_stack ≡ stack
  pub column : v.pos_x ≡ x
  pub line : v.pos_y ≡ y
  pub queue : Holds v.keys s

module _ {w h level : ℕ} {stack : Bytes} {x y : ℕ} {s : Bytes} where
  redrawn :
      {v : Vga} (video : ℕ → ℕ) (state : Bool) (t : ℕ)
      → Shows w h level stack x y s v
      → Shows w h level stack x y s
          (record v { video = video; cursor_state = state; ticks_read = t })
  redrawn video state t sh = record {
    on = sh.on;
    columns = sh.columns;
    lines = sh.lines;
    at_level = sh.at_level;
    written = sh.written;
    column = sh.column;
    line = sh.line;
    queue = sh.queue;
  }

  pub vga_cursor-Shows :
      (b : Bool) (v : Vga)
      → Shows w h level stack x y s v
      → Shows w h level stack x y s (vga_cursor b v)
  unfolding vga_cursor draw_cursor
  vga_cursor-Shows true v sh =
      if_split (Shows w h level stack x y s) v.cursor_state v _ (λ _. sh)
        (λ _. redrawn (draw_cursor v).video true v.ticks_read sh)
  vga_cursor-Shows false v sh =
      if_split (Shows w h level stack x y s) v.cursor_state _ v
        (λ _. redrawn (draw_cursor v).video false v.ticks_read sh) (λ _. sh)

  pub vga_cursor_refresh-Shows :
      (v : Vga) → Shows w h level stack x y s v → Shows w h level stack x y s (vga_cursor_refresh v)
  unfolding vga_cursor_refresh
  vga_cursor_refresh-Shows v sh =
      if_split (Shows w h level stack x y s) v.cursor_on _ v
        (λ _. vga_cursor-Shows _ _ (redrawn v.video v.cursor_state (v.ticks_read + 1) sh)) (λ _. sh)

-- A character that ends no control sequence
abbrev pub IsQuiet : ℕ → Type 0
IsQuiet c = (c ≢ b'J') × (c ≢ b'l') × (c ≢ b'h') × (c ≢ b'H') × (c ≢ b'm') × (c ≢ b'n')

pub ne-test : (a b : ℕ) → a ≢ b → (a == b) ≡ false
ne-test a b n = ground (arith, n)

control_quiet : (c : ℕ) (stack : Bytes) (v : Vga) → IsQuiet c → control c stack v ≡ waits v
unfolding control
control_quiet c stack v q =
    rw
      (
        ne-test c b'J' q.0,
        ne-test c b'l' q.1,
        ne-test c b'h' q.2,
        ne-test c b'H' q.3,
        ne-test c b'm' q.4,
        ne-test c b'n' q.5,
      )
      refl

-- `vga_put` outside of a sequence and inside one
pub vga_put-plain :
    (c : ℕ) (v : Vga)
    → v.enabled ≡ true
    → v.escape_level ≡ 0
    → vga_put c v ≡ leave c (falls (vga_cursor false v))
unfolding vga_put
vga_put-plain c v on out =
    let test : (v.escape_level == 0) ≡ true = ground (arith, out) in rw (on, test) refl

pub vga_put-escape :
    (c : ℕ) (v : Vga)
    → v.enabled ≡ true
    → 0 < v.escape_level
    → v.escape_level < 16
    → vga_put c v ≡ leave c (escape c (push c (vga_cursor false v)))
unfolding vga_put
vga_put-escape c v on inside room =
    let test : (v.escape_level == 0) ≡ false = ground (arith, inside) in
    let test' : ltb v.escape_level 16 ≡ true = ground (arith, room) in rw (on, test, test') refl

take_whole : (s : Bytes) → take (length s) s ≡ s
take_whole [] = refl
take_whole (c ∷ s) = ap (◌∷◌ c) (take_whole s)

-- The escape character outside of a sequence
plain-esc : (v : Vga) → v.pos_y < v.siz_h → plain esc v ≡ some (record v { escape_level = 1 })
unfolding plain plain_char scroll_loop
plain-esc v inside = let test : leb v.siz_h v.pos_y ≡ false = ground (arith, inside) in rw test refl

-- A control sequence is at its first byte, or behind it.
escape-begins :
    (c : ℕ) (st : Bytes) (v : Vga)
    → v.escape_stack ≡ b'[' ∷ st
    → v.escape_level ≤ 2
    → escape c v ≡ waits v
unfolding escape
escape-begins c st v e low =
    let test : leb v.escape_level 2 ≡ true = ground (arith, low) in rw (ap head_byte e, test) refl

pub escape-control :
    (c : ℕ) (st : Bytes) (v : Vga)
    → v.escape_stack ≡ b'[' ∷ st
    → 2 < v.escape_level
    → escape c v ≡ control c (c_string v.escape_stack) v
unfolding escape
escape-control c st v e high =
    let test : leb v.escape_level 2 ≡ false = ground (arith, high) in rw (ap head_byte e, test) refl

module _ {w h x y : ℕ} {s : Bytes} where
  pub pushed :
      (v : Vga) (c n : ℕ) (st : Bytes)
      → Shows w h n st x y s v
      → length st + 1 ≡ n
      → ((push c v).escape_stack ≡ st ++ c ∷ []) × Shows w h (n + 1) (st ++ c ∷ []) x y s (push c v)
  pushed v c n st sh size =
      let stack : take (v.escape_level - 1) v.escape_stack ++ c ∷ [] ≡ st ++ c ∷ [] =
        ap (λ t. t ++ c ∷ []) sh.written in
      let whole : v.escape_level + 1 - 1 ≡ length (st ++ c ∷ []) =
        omega (arith, sh.at_level, size, length-append st (c ∷ [])) in
      (
        stack,
        record {
          on = sh.on;
          columns = sh.columns;
          lines = sh.lines;
          at_level = ap (λ k. k + 1) sh.at_level;
          written = ap₂ take whole stack ∙ take_whole (st ++ c ∷ []);
          column = sh.column;
          line = sh.line;
          queue = sh.queue;
        },
      )

-- What a screen becomes: a result, and what it shows
abbrev pub Becomes : (Vga → Type 0) → Option Vga → Type 0
Becomes P r = (v : Vga) × (r ≡ some v) × P v

module _ {w h x y : ℕ} {s : Bytes} where
  -- The escape character begins a sequence.
  pub esc-Shows :
      (v : Vga) {old : Bytes}
      → y < h
      → Shows w h 0 old x y s v
      → Becomes (Shows w h 1 [] x y s) (vga_put esc v)
  esc-Shows v inside sh =
      let hidden = vga_cursor false v in
      let sh' = vga_cursor-Shows false v sh in
      let begun : Shows w h 1 [] x y s (record hidden { escape_level = 1 }) = record {
        on = sh'.on;
        columns = sh'.columns;
        lines = sh'.lines;
        at_level = refl;
        written = refl;
        column = sh'.column;
        line = sh'.line;
        queue = sh'.queue;
      } in
      (
        vga_cursor_refresh (record hidden { escape_level = 1 }),
        vga_put-plain esc v sh.on sh.at_level
            ∙ rw (plain-esc hidden (omega (arith, sh'.line, sh'.lines, inside)), leave) refl,
        vga_cursor_refresh-Shows _ begun,
      )

  -- The second character
  pub bracket-Shows :
      (v : Vga) → Shows w h 1 [] x y s v → Becomes (Shows w h 2 (b'[' ∷ []) x y s) (vga_put b'[' v)
  bracket-Shows v sh =
      let (stack, next) =
        pushed (vga_cursor false v) b'[' 1 [] (vga_cursor-Shows false v sh) refl in
      let open_ = push b'[' (vga_cursor false v) in
      (
        vga_cursor_refresh open_,
        vga_put-escape b'[' v sh.on (omega (arith, sh.at_level)) (omega (arith, sh.at_level))
            ∙ ap (leave b'[') (escape-begins b'[' [] open_ stack (omega (arith, next.at_level))),
        vga_cursor_refresh-Shows open_ next,
      )

  pub quiet-Shows :
      (v : Vga) (c n : ℕ) (st : Bytes)
      → IsQuiet c
      → n < 16
      → 1 < n
      → length st + 2 ≡ n
      → Shows w h n (b'[' ∷ st) x y s v
      → Becomes (Shows w h (n + 1) (b'[' ∷ (st ++ c ∷ [])) x y s) (vga_put c v)
  quiet-Shows v c n st q room some_level size sh =
      let (stack, next) =
        pushed (vga_cursor false v) c n (b'[' ∷ st) (vga_cursor-Shows false v sh)
          (omega (arith, size)) in
      let open_ = push c (vga_cursor false v) in
      (
        vga_cursor_refresh open_,
        vga_put-escape c v sh.on (omega (arith, sh.at_level)) (omega (arith, sh.at_level))
            ∙ ap (leave c) (
                escape-control c (st ++ c ∷ []) open_ stack (omega (arith, next.at_level))
                ∙ control_quiet c (c_string open_.escape_stack) open_ q),
        vga_cursor_refresh-Shows open_ next,
      )

pub vga_puts-cons :
    (c : ℕ) (cs : Bytes) (v w : Vga) → vga_put c v ≡ some w → vga_puts (c ∷ cs) v ≡ vga_puts cs w
unfolding vga_puts
vga_puts-cons c cs v w e = rw (e, vga_puts) refl

-- Each character of a list is quiet.
abbrev pub AllQuiet : Bytes → Type 0
AllQuiet [] = Unit
AllQuiet (c ∷ cs) = IsQuiet c × AllQuiet cs

module _ {w h x y : ℕ} {s : Bytes} where
  pub collect-Shows :
      (cs : Bytes) (v : Vga) (n : ℕ) (st : Bytes)
      → AllQuiet cs
      → n + length cs ≤ 16
      → 1 < n
      → length st + 2 ≡ n
      → Shows w h n (b'[' ∷ st) x y s v
      → Becomes (Shows w h (n + length cs) (b'[' ∷ (st ++ cs)) x y s) (vga_puts cs v)
  unfolding vga_puts
  collect-Shows [] v n st q room some_level size sh = (
    v,
    refl,
    subst (λ t. Shows w h (n + 0) (b'[' ∷ t) x y s v) (sym (append-nil st))
        (subst (λ k. Shows w h k (b'[' ∷ st) x y s v) {y = n + 0} (omega arith) sh),
  )
  collect-Shows (c ∷ cs) v n st (q, qs) room some_level size sh =
      let (v1, e1, sh1) = quiet-Shows v c n st q (omega arith) some_level size sh in
      let (v2, e2, sh2) =
        collect-Shows cs v1 (n + 1) (st ++ c ∷ []) qs (omega arith) (omega arith)
          (omega (arith, length-append st (c ∷ []), size)) sh1 in
      (
        v2,
        vga_puts-cons c cs v v1 e1 ∙ e2,
        subst (λ t. Shows w h (n + suc (length cs)) (b'[' ∷ t) x y s v2)
            (append_assoc st (c ∷ []) cs)
            (subst (λ k. Shows w h k (b'[' ∷ ((st ++ c ∷ []) ++ cs)) x y s v2)
              {y = n + suc (length cs)} (omega arith) sh2),
      )

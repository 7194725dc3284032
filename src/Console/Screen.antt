-- ===== src/Console/Screen.antt =====
-- What the screen does with the sequences that set the cursor and ask for it.
use mathlib.Core.List.{append_assoc}
use mathlib.Core.Path.{subst}
use emile.Console.{position_request}
use emile.Common.{
  ℕ, ◌+◌, ◌-◌, ◌%◌, ◌^◌, ◌≤◌, ◌<◌, ◌≡◌, ◌≢◌, refl, sym, ap, ap₂, ◌∙◌, false, Option, none, some, [],
  ◌∷◌, ◌++◌, Bytes, arith, length, ◌==◌, length-append,
}
use emile.Keyboard.{keyboard_inject}
use emile.Keyboard.Queue.{Holds-size, buffer_putstring-Holds}
use emile.Unix.{strcmp, digit_of}
use emile.Unix.Strtol.{AllDigits}
use emile.Unix.Print.{value, vsprintf}
use emile.Vga.{Vga, vga_cursor, vga_cursor_refresh}
use emile.Vga.Put.{
  esc, ends, clamp, before, c_string, set_position, report_position, control, leave, push, vga_put,
  vga_puts,
}
use emile.Vga.Put.Collect.{
  Shows, IsQuiet, AllQuiet, Becomes, vga_cursor-Shows, vga_cursor_refresh-Shows, vga_put-escape,
  escape-control, pushed, esc-Shows, bracket-Shows, collect-Shows, vga_puts-cons,
}
use emile.Console.Decimal.{digits, vsprintf-reply, strtol-digits, digits-AllDigits, digits-length}

abbrev pub AllNonzero : Bytes → Type 0
AllNonzero [] = Unit
AllNonzero (c ∷ s) = (c ≢ 0) × AllNonzero s

AllNonzero-append : (s t : Bytes) → AllNonzero s → AllNonzero t → AllNonzero (s ++ t)
AllNonzero-append [] t hs ht = ht
AllNonzero-append (c ∷ s) t (h, hs) ht = (h, AllNonzero-append s t hs ht)

c_string-whole : (s : Bytes) → AllNonzero s → c_string s ≡ s
unfolding c_string
c_string-whole [] h = refl
c_string-whole (c ∷ s) (n, h) =
    let test : (c == 0) ≡ false = ground (arith, n) in rw test (ap (◌∷◌ c) (c_string-whole s h))

pub digit_bounds : (c : ℕ) → digit_of c < 10 → (b'0' ≤ c) × (c ≤ b'9')
unfolding digit_of
digit_bounds c lt = ground arith

digits-AllNonzero : (s : Bytes) → AllDigits 10 s → AllNonzero s
digits-AllNonzero [] all = tt
digits-AllNonzero (c ∷ s) (d, all) =
    (λ e. omega (arith, digit_bounds c d, e), digits-AllNonzero s all)

digits-AllQuiet : (s : Bytes) → AllDigits 10 s → AllQuiet s
digits-AllQuiet [] all = tt
digits-AllQuiet (c ∷ s) (d, all) =
    let low = digit_bounds c d in
    (
      (
        λ e. omega (arith, low, e),
        λ e. omega (arith, low, e),
        λ e. omega (arith, low, e),
        λ e. omega (arith, low, e),
        λ e. omega (arith, low, e),
        λ e. omega (arith, low, e),
      ),
      digits-AllQuiet s all,
    )

AllQuiet-append : (s t : Bytes) → AllQuiet s → AllQuiet t → AllQuiet (s ++ t)
AllQuiet-append [] t hs ht = ht
AllQuiet-append (c ∷ s) t (h, hs) ht = (h, AllQuiet-append s t hs ht)

pub vga_puts-append :
    (s t : Bytes) (v w : Vga) → vga_puts s v ≡ some w → vga_puts (s ++ t) v ≡ vga_puts t w
unfolding vga_puts
vga_puts-append [] t v w e = ap (vga_puts t) (cc)
vga_puts-append (c ∷ s) t v w e = by_first (λ u f. vga_puts-append s t u w f) (vga_put c v) refl
  where
    by_first :
        ((u : Vga) → vga_puts s u ≡ some w → vga_puts (s ++ t) u ≡ vga_puts t w)
        → (r : Option Vga) → vga_put c v ≡ r
        → vga_puts ((c ∷ s) ++ t) v ≡ vga_puts t w
    by_first rest none e1 = absurd (let f : none ≡ some w = sym (rw (e1, vga_puts) refl) ∙ e in cc)
    by_first rest (some u) e1 =
        vga_puts-cons c (s ++ t) v u e1 ∙ rest u (sym (vga_puts-cons c s v u e1) ∙ e)

pub vga_puts-nil : (v : Vga) → vga_puts [] v ≡ some v
unfolding vga_puts
vga_puts-nil v = refl

-- "line;column" and the letter behind the bracket
abbrev pub place : ℕ → ℕ → ℕ → Bytes
place l c letter = digits l ++ (b';' ∷ (digits c ++ letter ∷ []))

set_position-place :
    (l c : ℕ) (v : Vga)
    → 0 < l
    → 0 < c
    → l ≤ v.siz_h
    → c ≤ v.siz_w
    → l < 2 ^ 31
    → c < 2 ^ 31
    → set_position (b'[' ∷ place l c b'H') v ≡ ends (record v { pos_x = c - 1; pos_y = l - 1 })
unfolding set_position digit_of
set_position-place l c v some_line some_column in_lines in_columns small small' =
    let column : before (clamp v.siz_w c) ≡ c - 1 =
      ground (arith, some_column, in_columns, small') in
    let line : before (clamp v.siz_h l) ≡ l - 1 = ground (arith, some_line, in_lines, small) in
    rw
      (
        strtol-digits l (b';' ∷ (digits c ++ b'H' ∷ [])) (omega arith) refl,
        strtol-digits c (b'H' ∷ []) (omega arith) refl,
      )
      (ap₂ (λ a b. ends (record v { pos_x = a; pos_y = b })) column line)

module _ {w h x y x' y' : ℕ} {s s' : Bytes} where
  -- The character that ends a sequence
  last-Shows :
      (v : Vga) (c n : ℕ) (st : Bytes)
      → n < 16
      → 1 < n
      → length st + 2 ≡ n
      → Shows w h n (b'[' ∷ st) x y s v
      → AllNonzero (st ++ c ∷ [])
      → ((p : Vga)
          → Shows w h (n + 1) (b'[' ∷ (st ++ c ∷ [])) x y s p
          → (u : Vga) × (control c (b'[' ∷ (st ++ c ∷ [])) p ≡ ends u)
            × Shows w h (n + 1) (b'[' ∷ (st ++ c ∷ [])) x' y' s' u)
      → Becomes (Shows w h 0 [] x' y' s') (vga_put c v)
  last-Shows v c n st room some_level size sh nonzero act =
      let (stack, next) =
        pushed (vga_cursor false v) c n (b'[' ∷ st) (vga_cursor-Shows false v sh)
          (omega (arith, size)) in
      let open_ = push c (vga_cursor false v) in
      let (u, e, sh') = act open_ next in
      let text : c_string open_.escape_stack ≡ b'[' ∷ (st ++ c ∷ []) =
        ap c_string stack
        ∙ c_string-whole (b'[' ∷ (st ++ c ∷ [])) ((λ q. omega (arith, q)), nonzero) in
      let idle : Shows w h 0 [] x' y' s' (record u { escape_level = 0 }) = record {
        on = sh'.on;
        columns = sh'.columns;
        lines = sh'.lines;
        at_level = refl;
        written = refl;
        column = sh'.column;
        line = sh'.line;
        queue = sh'.queue;
      } in
      (
        vga_cursor_refresh (record u { escape_level = 0 }),
        vga_put-escape c v sh.on (omega (arith, sh.at_level)) (omega (arith, sh.at_level))
            ∙ ap (leave c) (
                escape-control c (st ++ c ∷ []) open_ stack (omega (arith, next.at_level))
                ∙ ap (λ k. control c k open_) text
                ∙ e),
        vga_cursor_refresh-Shows _ idle,
      )

  -- A whole sequence: the escape character, the bracket, quiet characters and the last one
  sequence-Shows :
      (v : Vga) (c : ℕ) (st : Bytes) {old : Bytes}
      → y < h
      → length st ≤ 13
      → AllQuiet st
      → Shows w h 0 old x y s v
      → AllNonzero (st ++ c ∷ [])
      → ((p : Vga)
          → Shows w h (2 + length st + 1) (b'[' ∷ (st ++ c ∷ [])) x y s p
          → (u : Vga) × (control c (b'[' ∷ (st ++ c ∷ [])) p ≡ ends u)
            × Shows w h (2 + length st + 1) (b'[' ∷ (st ++ c ∷ [])) x' y' s' u)
      → Becomes (Shows w h 0 [] x' y' s') (vga_puts (esc ∷ b'[' ∷ (st ++ c ∷ [])) v)
  sequence-Shows v c st inside room quiet sh nonzero act =
      let (v1, e1, sh1) = esc-Shows v inside sh in
      let (v2, e2, sh2) = bracket-Shows v1 sh1 in
      let (v3, e3, sh3) =
        collect-Shows st v2 2 [] quiet (omega arith) (omega arith) (omega arith) sh2 in
      let (v4, e4, sh4) =
        last-Shows v3 c (2 + length st) st (omega arith) (omega arith) (omega arith) sh3 nonzero
          act in
      (
        v4,
        vga_puts-cons esc (b'[' ∷ (st ++ c ∷ [])) v v1 e1
            ∙ vga_puts-cons b'[' (st ++ c ∷ []) v1 v2 e2
            ∙ vga_puts-append st (c ∷ []) v2 v3 e3
            ∙ vga_puts-cons c [] v3 v4 e4
            ∙ vga_puts-nil v4,
        sh4,
      )

-- "line;column"
abbrev pair : ℕ → ℕ → Bytes
pair l c = digits l ++ b';' ∷ digits c

pair-place : (l c letter : ℕ) → pair l c ++ letter ∷ [] ≡ place l c letter
pair-place l c letter = append_assoc (digits l) (b';' ∷ digits c) (letter ∷ [])

place-AllNonzero : (l c letter : ℕ) → letter ≢ 0 → AllNonzero (place l c letter)
place-AllNonzero l c letter some_letter =
    AllNonzero-append (digits l) (b';' ∷ (digits c ++ letter ∷ []))
      (digits-AllNonzero (digits l) (digits-AllDigits l))
      (
        (λ q. omega (arith, q)),
        AllNonzero-append (digits c) (letter ∷ [])
            (digits-AllNonzero (digits c) (digits-AllDigits c)) (some_letter, tt),
      )

semicolon-IsQuiet : IsQuiet b';'
semicolon-IsQuiet = (
  λ q. omega (arith, q),
  λ q. omega (arith, q),
  λ q. omega (arith, q),
  λ q. omega (arith, q),
  λ q. omega (arith, q),
  λ q. omega (arith, q),
)

pair-AllQuiet : (l c : ℕ) → AllQuiet (pair l c)
pair-AllQuiet l c =
    AllQuiet-append (digits l) (b';' ∷ digits c) (digits-AllQuiet (digits l) (digits-AllDigits l))
      (semicolon-IsQuiet, digits-AllQuiet (digits c) (digits-AllDigits c))

control_H : (stack : Bytes) (v : Vga) → control b'H' stack v ≡ set_position stack v
unfolding control
control_H stack v = refl

control_n : (v : Vga) → control b'n' (b'[' ∷ b'6' ∷ b'n' ∷ []) v ≡ ends (report_position v)
unfolding control strcmp
control_n v = refl

report_position-keys :
    {x y : ℕ} (v : Vga)
    → v.pos_x ≡ x
    → v.pos_y ≡ y
    → x + 1 < 10 ^ 5
    → y + 1 < 10 ^ 5
    → report_position v
      ≡ record v { keys = keyboard_inject v.keys (esc ∷ b'[' ∷ place (y + 1) (x + 1) b'R') }
unfolding report_position
report_position-keys {x} {y} v ex ey small small' =
    let column : (v.pos_x + 1) % 2 ^ 32 ≡ x + 1 = omega (arith, ex, small) in
    let line : (v.pos_y + 1) % 2 ^ 32 ≡ y + 1 = omega (arith, ey, small') in
    with_reply v (esc ∷ b'[' ∷ place (y + 1) (x + 1) b'R') (
      ap₂
        (λ a b.
          vsprintf (esc ∷ b'[' ∷ b'%' ∷ b'l' ∷ b'd' ∷ b';' ∷ b'%' ∷ b'l' ∷ b'd' ∷ b'R' ∷ [])
            (value a ∷ value b ∷ []))
        line column
      ∙ vsprintf-reply (y + 1) (x + 1) (omega (arith, small')) (omega (arith, small)))
  where
    with_reply :
        (v : Vga) (reply : Bytes)
        → vsprintf
            (esc ∷ b'[' ∷ b'%' ∷ b'l' ∷ b'd' ∷ b';' ∷ b'%' ∷ b'l' ∷ b'd' ∷ b'R' ∷ [])
            (value ((v.pos_y + 1) % 2 ^ 32) ∷ value ((v.pos_x + 1) % 2 ^ 32) ∷ [])
          ≡ some reply
        → report_position v ≡ record v { keys = keyboard_inject v.keys reply }
    with_reply v reply e = rw (e, report_position) refl

module _ {w h x y : ℕ} {s : Bytes} where
  -- "line;columnH" behind the escape character and a bracket moves the cursor there.
  pub place-Shows :
      (v : Vga) (l c : ℕ) {old : Bytes}
      → y < h
      → 0 < l
      → l ≤ h
      → 0 < c
      → c ≤ w
      → l < 10 ^ 5
      → c < 10 ^ 5
      → Shows w h 0 old x y s v
      → Becomes (Shows w h 0 [] (c - 1) (l - 1) s) (vga_puts (esc ∷ b'[' ∷ place l c b'H') v)
  place-Shows v l c inside some_line in_lines some_column in_columns small small' sh =
      let st = pair l c in
      let text : st ++ b'H' ∷ [] ≡ place l c b'H' = pair-place l c b'H' in
      subst (λ t. Becomes (Shows w h 0 [] (c - 1) (l - 1) s) (vga_puts (esc ∷ b'[' ∷ t) v)) text
        (sequence-Shows v b'H' st inside
          (omega (
            arith,
            length-append (digits l) (b';' ∷ digits c),
            digits-length l small,
            digits-length c small',
          ))
          (pair-AllQuiet l c) sh
          (subst AllNonzero (sym text) (place-AllNonzero l c b'H' (λ q. omega (arith, q))))
          (λ p shp. (
            record p { pos_x = c - 1; pos_y = l - 1 },
            ap (λ t. control b'H' (b'[' ∷ t) p) text
                ∙ control_H (b'[' ∷ place l c b'H') p
                ∙ set_position-place l c p some_line some_column
                    (omega (arith, shp.lines, in_lines)) (omega (arith, shp.columns, in_columns))
                    (omega (arith, small)) (omega (arith, small')),
            placed shp,
          )))
    where
      placed :
          {n : ℕ} {stack : Bytes} {p : Vga}
          → Shows w h n stack x y s p
          → Shows w h n stack (c - 1) (l - 1) s (record p { pos_x = c - 1; pos_y = l - 1 })
      placed shp = record {
        on = shp.on;
        columns = shp.columns;
        lines = shp.lines;
        at_level = shp.at_level;
        written = shp.written;
        column = refl;
        line = refl;
        queue = shp.queue;
      }

  -- "6n" behind them puts the place of the cursor in the ring of the keyboard.
  pub request-Shows :
      (v : Vga) {old : Bytes}
      → y < h
      → x + 1 < 10 ^ 5
      → y + 1 < 10 ^ 5
      → length s + 14 ≤ 64
      → Shows w h 0 old x y s v
      → Becomes
          (Shows w h 0 [] x y (s ++ (esc ∷ b'[' ∷ place (y + 1) (x + 1) b'R')))
          (vga_puts position_request v)
  unfolding keyboard_inject
  request-Shows v inside small small' room sh =
      sequence-Shows v b'n' (b'6' ∷ []) inside (omega arith) (six, tt) sh
        ((λ q. omega (arith, q)), ((λ q. omega (arith, q)), tt))
        (λ p shp. (
          report_position p,
          control_n p,
          subst (Shows w h 4 (b'[' ∷ b'6' ∷ b'n' ∷ []) x y _)
              (sym (report_position-keys p shp.column shp.line small small'))
              record {
                on = shp.on;
                columns = shp.columns;
                lines = shp.lines;
                at_level = shp.at_level;
                written = shp.written;
                column = shp.column;
                line = shp.line;
                queue =
                    buffer_putstring-Holds p.keys s (esc ∷ b'[' ∷ place (y + 1) (x + 1) b'R')
                      shp.queue
                      (omega (
                        arith,
                        room,
                        Holds-size p.keys s shp.queue,
                        digits-length (y + 1) small',
                        digits-length (x + 1) small,
                        length-append (digits (y + 1)) (b';' ∷ (digits (x + 1) ++ b'R' ∷ [])),
                        length-append (digits (x + 1)) (b'R' ∷ []),
                      ));
              },
        ))
    where
      six : IsQuiet b'6'
      six = (
        λ q. omega (arith, q),
        λ q. omega (arith, q),
        λ q. omega (arith, q),
        λ q. omega (arith, q),
        λ q. omega (arith, q),
        λ q. omega (arith, q),
      )

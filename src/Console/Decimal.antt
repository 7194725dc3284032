-- ===== src/Console/Decimal.antt =====
-- The decimal numbers that the console and the screen tell one another.
use native.Mathlib.Nat.{pow-suc, pow-zero}
use emile.Common.{
  ℕ, zero, suc, ◌+◌, ◌/◌, ◌%◌, ◌^◌, ◌≤◌, ◌<◌, ◌≡◌, refl, ap, ◌∙◌, true, false, some, [], ◌∷◌, ◌++◌,
  Bytes, arith, length, leb, ◌==◌,
}
use emile.Unix.{strtol}
use emile.Unix.Strtol.{number, AllDigits, EndsDigits, digits_loop-number, skip_space-append}
use emile.Unix.Print.{
  Flags, no_flags, value, digit_char, digit_loop, ksprintn, put_signed, vsprintf, format_loop, step,
  directive_step,
}
use emile.Unix.Print.Numbers.{
  put_number_narrow, digit_first, ksprintn-some, ksprintn-number, ksprintn-AllDigits,
}
use emile.Console.{position_format}
use emile.Vga.Put.{esc}

-- The digits of a number
abbrev pub digits : ℕ → Bytes
digits n = ksprintn n 10 0

put_signed-digits :
    (f : Flags) (n : ℕ) → n < 2 ^ 31 → f.width ≡ 0 → f.prec ≡ 0 → put_signed f n ≡ digits n
unfolding put_signed
put_signed-digits f n small narrow free =
    let positive : leb (2 ^ 31) n ≡ false = ground arith in
    rw positive (put_number_narrow f n 10 narrow ∙ ap (ksprintn n 10) free)

pub vsprintf-position :
    (l c : ℕ)
    → l < 2 ^ 31
    → c < 2 ^ 31
    → vsprintf position_format (value l ∷ value c ∷ [])
      ≡ some (esc ∷ b'[' ∷ (digits l ++ (b';' ∷ (digits c ++ b'H' ∷ []))))
unfolding vsprintf format_loop step directive_step
vsprintf-position l c small small' =
    let flags = no_flags in
    rw (put_signed-digits flags l small refl refl, put_signed-digits flags c small' refl refl) refl

pub vsprintf-reply :
    (l c : ℕ)
    → l < 2 ^ 31
    → c < 2 ^ 31
    → vsprintf
        (esc ∷ b'[' ∷ b'%' ∷ b'l' ∷ b'd' ∷ b';' ∷ b'%' ∷ b'l' ∷ b'd' ∷ b'R' ∷ [])
        (value l ∷ value c ∷ [])
      ≡ some (esc ∷ b'[' ∷ (digits l ++ (b';' ∷ (digits c ++ b'R' ∷ []))))
unfolding vsprintf format_loop step directive_step
vsprintf-reply l c small small' =
    let flags = record no_flags { lflag = true } in
    rw (put_signed-digits flags l small refl refl, put_signed-digits flags c small' refl refl) refl

-- Numbers of at most `k` digits
digit_loop-length :
    (room k ul : ℕ) (ds : Bytes)
    → 0 < k
    → ul < 10 ^ k
    → length (digit_loop room 10 0 ul ds) ≤ k + length ds
unfolding digit_loop
digit_loop-length zero k ul ds some_digit lt = omega arith
digit_loop-length (suc room) zero ul ds some_digit lt = absurd (omega arith)
digit_loop-length (suc room) (suc zero) ul ds some_digit lt =
    let last : ul / 10 ≡ 0 = omega (arith, pow-suc 10 0, pow-zero 10) in
    let test : (ul / 10 == 0) ≡ true = ground (arith, last) in rw test (omega arith)
digit_loop-length (suc room) (suc (suc k)) ul ds some_digit lt =
    let fewer : ul / 10 < 10 ^ suc k = omega (arith, pow-suc 10 (suc k)) in
    let rest =
      digit_loop-length room (suc k) (ul / 10) (digit_char (ul % 10) ∷ ds) (omega arith) fewer in
    ground (arith, rest)

pub digits-length : (n : ℕ) → n < 10 ^ 5 → length (digits n) ≤ 5
unfolding ksprintn
digits-length n lt = omega (arith, digit_loop-length 13 5 n [] (omega arith) lt)

strtol-first :
    (ds rest : Bytes) (n : ℕ)
    → 0 < length ds
    → AllDigits 10 ds
    → number 10 ds ≡ n
    → n < 2 ^ 32
    → EndsDigits 10 rest
    → strtol (ds ++ rest) 10 ≡ (n, rest)
unfolding strtol
strtol-first [] rest n some_digit all e lt ends = absurd (omega arith)
strtol-first (d ∷ ds) rest n some_digit all e lt ends =
    let (space, minus, plus) = digit_first d (omega (arith, all.0)) in
    rw (strtol, skip_space-append [] (d ∷ (ds ++ rest)) tt space)
      (rw (minus, plus, digits_loop-number 10 0 (d ∷ ds) rest all ends (omega arith))
        (ap (λ k. (k, rest)) {y = n} (omega (arith, e, lt))))

pub strtol-digits :
    (n : ℕ) (rest : Bytes)
    → n < 2 ^ 32
    → EndsDigits 10 rest
    → strtol (digits n ++ rest) 10 ≡ (n, rest)
strtol-digits n rest lt ends =
    let ten : 10 ≤ 16 = omega arith in
    strtol-first (digits n) rest n (ksprintn-some 10 (omega arith) ten n 0)
      (ksprintn-AllDigits 10 (omega arith) ten n 0)
      (ksprintn-number 10 (omega arith) ten n 0 (omega arith)) lt ends

pub digits-AllDigits : (n : ℕ) → AllDigits 10 (digits n)
digits-AllDigits n = ksprintn-AllDigits 10 (omega arith) (omega arith) n 0

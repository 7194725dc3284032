-- ===== src/Unix/Print/Numbers.antt =====
-- The numbers that `vsprintf` writes, `strtol` reads.
use native.Mathlib.Nat.{pow-suc, pow-zero, div-add-mod}
use emile.Common.{
  ℕ, zero, suc, ◌+◌, ◌-◌, ◌*◌, ◌/◌, ◌%◌, ◌^◌, ◌≤◌, ◌<◌, ◌≡◌, refl, ap, ◌∙◌, Bool, true, false, not,
  ◌||◌, Option, none, some, [], ◌∷◌, ◌++◌, Bytes, arith, ltb, leb, ◌==◌, if◌then◌else◌, length,
  Bool-cases, inl, inr,
}
use emile.Unix.{my_isspace, digit_of, skip_space, strtol_signed, strtol}
use emile.Unix.Strtol.{number, AllDigits, AllSpaces, digits_loop-number, skip_space-append}
use emile.Unix.Print.{
  digit_char, digit_loop, ksprintn, replicate, Flags, value, put_number, put_signed, directive,
  directive_step, step, format_loop,
}

digit_of-digit_char : (d : ℕ) → d < 16 → digit_of (digit_char d) ≡ d
unfolding digit_of
digit_of-digit_char d lt = ground arith

-- One digit more stands for the same number.
digit_step :
    (base ul power n : ℕ)
    → 0 < base
    → ul / base * (power * base) + (ul % base * power + n) ≡ ul * power + n
digit_step base ul power n pos = grind (arith, ap (λ t. t * power) (div-add-mod ul base))

if_cases :
    (Q : Bytes → Type 0) (b : Bool) (x y : Bytes)
    → (b ≡ true → Q x)
    → (b ≡ false → Q y)
    → Q (if b then x else y)
if_cases Q true x y h k = h refl
if_cases Q false x y h k = k refl

last_digit : (b : Bool) (q : ℕ) → (b || not (q == 0)) ≡ false → q ≡ 0
last_digit b q h = ground arith

pub digit_first :
    (c : ℕ)
    → digit_of c < 16
    → (my_isspace c ≡ false) × ((c == b'-') ≡ false) × ((c == b'+') ≡ false)
unfolding digit_of my_isspace
digit_first c lt = ground arith

module _ (base : ℕ) (low : 1 < base) (high : base ≤ 16) where
  digit_loop-number :
      (room prec ul : ℕ) (digits : Bytes)
      → ul < base ^ room
      → number base (digit_loop room base prec ul digits)
        ≡ ul * base ^ length digits + number base digits
  unfolding digit_loop
  digit_loop-number zero prec ul digits lt =
      let nothing : ul ≡ 0 = omega (arith, pow-zero base) in rw nothing (omega arith)
  digit_loop-number (suc room) prec ul digits lt =
      let Same : Bytes → Type 0 =
        λ r. number base r ≡ ul * base ^ length digits + number base digits in
      let d : ℕ = digit_char (ul % base) in
      let power = base ^ length digits in
      let less : ul % base < 16 = omega arith in
      let one : number base (d ∷ digits) ≡ ul % base * power + number base digits =
        ap (λ t. t * power + number base digits) (digit_of-digit_char (ul % base) less) in
      let split : ul / base * (power * base) + (ul % base * power + number base digits)
          ≡ ul * power + number base digits =
        digit_step base ul power (number base digits) (omega arith) in
      if_cases Same (ltb 1 prec || not (ul / base == 0))
        (digit_loop room base (prec - 1) (ul / base) (d ∷ digits)) (d ∷ digits)
        (λ more.
          digit_loop-number room (prec - 1) (ul / base) (d ∷ digits) (shorter room ul lt)
          ∙ ap (λ t. ul / base * t + number base (d ∷ digits)) (pow-suc base (length digits))
          ∙ ap (λ t. ul / base * (power * base) + t) one
          ∙ split)
        (λ end.
          let nothing : ul / base * (power * base) ≡ 0 =
            omega (arith, ap (λ q. q * (power * base)) (last_digit (ltb 1 prec) (ul / base) end)) in
          omega (arith, one, split))
    where
      shorter : (room ul : ℕ) → ul < base ^ suc room → ul / base < base ^ room
      shorter room ul lt = grind (arith, pow-suc base room)

  digit_loop-AllDigits :
      (room prec ul : ℕ) (digits : Bytes)
      → AllDigits base digits
      → AllDigits base (digit_loop room base prec ul digits)
  unfolding digit_loop
  digit_loop-AllDigits zero prec ul digits all = all
  digit_loop-AllDigits (suc room) prec ul digits all =
      let d : ℕ = digit_char (ul % base) in
      let less : ul % base < base = omega arith in
      let digit : digit_of d < base = rw (digit_of-digit_char (ul % base) (omega arith)) less in
      if_cases (AllDigits base) (ltb 1 prec || not (ul / base == 0))
        (digit_loop room base (prec - 1) (ul / base) (d ∷ digits)) (d ∷ digits)
        (λ more. digit_loop-AllDigits room (prec - 1) (ul / base) (d ∷ digits) (digit, all))
        (λ end. (digit, all))

  -- The digits of a word: there is one at least, and the buffer has room for all.
  digit_loop-some :
      (room prec ul : ℕ) (d : ℕ) (digits : Bytes)
      → 0 < length (digit_loop room base prec ul (d ∷ digits))
  unfolding digit_loop
  digit_loop-some zero prec ul d digits = omega arith
  digit_loop-some (suc room) prec ul d digits =
      if_cases (λ r. 0 < length r) (ltb 1 prec || not (ul / base == 0)) _ _
        (λ more. digit_loop-some room (prec - 1) (ul / base) (digit_char (ul % base)) (d ∷ digits))
        (λ end. omega arith)

  pub ksprintn-some : (ul prec : ℕ) → 0 < length (ksprintn ul base prec)
  unfolding ksprintn digit_loop
  ksprintn-some ul prec =
      if_cases (λ r. 0 < length r) (ltb 1 prec || not (ul / base == 0)) _ _
        (λ more. digit_loop-some 12 (prec - 1) (ul / base) (digit_char (ul % base)) [])
        (λ end. omega arith)

  pub ksprintn-number : (ul prec : ℕ) → ul < base ^ 13 → number base (ksprintn ul base prec) ≡ ul
  unfolding ksprintn
  ksprintn-number ul prec lt =
      digit_loop-number 13 prec ul [] lt ∙ omega (arith, ap (λ t. ul * t) (pow-zero base))

  pub ksprintn-AllDigits : (ul prec : ℕ) → AllDigits base (ksprintn ul base prec)
  unfolding ksprintn
  ksprintn-AllDigits ul prec = digit_loop-AllDigits 13 prec ul [] tt

  digits-strtol_signed :
      (minus? : Bool) (digits : Bytes)
      → AllDigits base digits
      → number base digits < 2 ^ 32
      → strtol_signed minus? (digits ++ []) base
        ≡ (if minus? then (2 ^ 32 - number base digits) % 2 ^ 32 else number base digits, [])
  unfolding strtol_signed
  digits-strtol_signed minus? digits all lt =
      let nonzero : (base == 0) ≡ false = ground arith in
      let n = number base digits in
      let same : (0 * base ^ length digits + n) % 2 ^ 32 ≡ n = omega arith in
      rw (nonzero, digits_loop-number base 0 digits [] all tt (omega arith))
        (ap (λ t. (if minus? then (2 ^ 32 - t) % 2 ^ 32 else t, [])) same)

  digits-strtol :
      (spaces digits : Bytes)
      → AllSpaces spaces
      → AllDigits base digits
      → 0 < length digits
      → number base digits < 2 ^ 32
      → strtol (spaces ++ (digits ++ [])) base ≡ (number base digits, [])
  unfolding strtol
  digits-strtol spaces [] sp all more lt = absurd (omega arith)
  digits-strtol spaces (c ∷ ds) sp all more lt =
      let (space, minus, plus) = digit_first c (omega (arith, all.0)) in
      rw (strtol, skip_space-append spaces (c ∷ (ds ++ [])) sp space)
        (rw (minus, plus) (digits-strtol_signed false (c ∷ ds) all lt))

  minus-strtol :
      (digits : Bytes)
      → AllDigits base digits
      → number base digits < 2 ^ 32
      → strtol (b'-' ∷ (digits ++ [])) base ≡ ((2 ^ 32 - number base digits) % 2 ^ 32, [])
  unfolding strtol skip_space my_isspace
  minus-strtol digits all lt = digits-strtol_signed true digits all lt

-- `strtol` reads the number of a base from the text that was written.
abbrev pub Reads : ℕ → ℕ → Option Bytes → Type 0
Reads base v none = ⊥
Reads base v (some text) = strtol text base ≡ (v, [])

append_empty : (r s : Bytes) → (r ++ s) ++ [] ≡ r ++ (s ++ [])
append_empty [] s = refl
append_empty (c ∷ r) s = ap (◌∷◌ c) (append_empty r s)

replicate-AllSpaces : (n c : ℕ) → my_isspace c ≡ true → AllSpaces (replicate n c)
replicate-AllSpaces zero c h = tt
replicate-AllSpaces (suc n) c h = (h, replicate-AllSpaces n c h)

module _ (base : ℕ) (low : 1 < base) (high : base ≤ 16) (wide : 2 ^ 32 ≤ base ^ 13) where
  put_number-strtol :
      (f : Flags) (v : ℕ)
      → v < 2 ^ 32
      → f.padc ≡ b' '
      → strtol (put_number f v base ++ []) base ≡ (v, [])
  unfolding put_number my_isspace
  put_number-strtol f v lt pad =
      let digits = ksprintn v base f.prec in
      let spaces = replicate (f.width - length digits) f.padc in
      let read : number base digits ≡ v = ksprintn-number base low high v f.prec (omega arith) in
      ap (λ t. strtol t base) (append_empty spaces digits)
      ∙ digits-strtol base low high spaces digits
          (replicate-AllSpaces (f.width - length digits) f.padc (rw pad refl))
          (ksprintn-AllDigits base low high v f.prec) (ksprintn-some base low high v f.prec)
          (omega arith)
      ∙ ap (λ t. (t, [])) read

pub put_number_narrow :
    (f : Flags) (ul base : ℕ) → f.width ≡ 0 → put_number f ul base ≡ ksprintn ul base f.prec
unfolding put_number
put_number_narrow f ul base narrow =
    let digits = ksprintn ul base f.prec in
    let no_space : f.width - length digits ≡ 0 = omega arith in
    ap (λ n. replicate n f.padc ++ digits) no_space

put_signed-strtol :
    (f : Flags) (v : ℕ)
    → v < 2 ^ 32
    → f.padc ≡ b' '
    → f.width ≡ 0
    → strtol (put_signed f v ++ []) 10 ≡ (v, [])
unfolding put_signed
put_signed-strtol f v lt pad narrow = elim (Bool-cases (leb (2 ^ 31) v)) [
  | inl negative ↦ rw (negative, put_signed) (minus v lt narrow (ground arith))
  | inr positive ↦
      rw (positive, put_signed)
        (put_number-strtol 10 (omega arith) (omega arith) (omega arith) f v lt pad)
]
  where
    minus :
        (v : ℕ)
        → v < 2 ^ 32
        → f.width ≡ 0
        → 2 ^ 31 ≤ v
        → strtol (b'-' ∷ (put_number f (2 ^ 32 - v) 10 ++ [])) 10 ≡ (v, [])
    minus v lt narrow big =
        let digits = ksprintn (2 ^ 32 - v) 10 f.prec in
        let ten : 10 ≤ 16 = omega arith in
        let read : number 10 digits ≡ 2 ^ 32 - v =
          ksprintn-number 10 (omega arith) ten (2 ^ 32 - v) f.prec (omega arith) in
        ap (λ t. strtol (b'-' ∷ (t ++ [])) 10) (put_number_narrow f (2 ^ 32 - v) 10 narrow)
        ∙ minus-strtol 10 (omega arith) ten digits
            (ksprintn-AllDigits 10 (omega arith) ten (2 ^ 32 - v) f.prec) (omega arith)
        ∙ ap (λ t. (t, [])) (omega (arith, read))

-- The numbers that `vsprintf` writes for a conversion are read back by `strtol`: each word by `%u`,
-- `%o` and `%x` at their base, whatever the precision and the width if that is filled with blanks,
-- and each word by `%d`, a sign included, without a width.
pub format_loop-strtol :
    (f : Flags) (v : ℕ)
    → v < 2 ^ 32
    → f.padc ≡ b' '
    → Reads 10 v (format_loop (directive f) (b'u' ∷ []) (value v ∷ []))
      × Reads 8 v (format_loop (directive f) (b'o' ∷ []) (value v ∷ []))
      × Reads 16 v (format_loop (directive f) (b'x' ∷ []) (value v ∷ []))
      × Reads 10 v (format_loop (directive (record f { width = 0 })) (b'd' ∷ []) (value v ∷ []))
unfolding format_loop step directive_step
format_loop-strtol f v lt pad = (
  put_number-strtol 10 (omega arith) (omega arith) (omega arith) f v lt pad,
  put_number-strtol 8 (omega arith) (omega arith) (omega arith) f v lt pad,
  put_number-strtol 16 (omega arith) (omega arith) (omega arith) f v lt pad,
  put_signed-strtol (record f { width = 0 }) v lt pad refl,
)

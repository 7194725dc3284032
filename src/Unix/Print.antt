-- ===== src/Unix/Print.antt =====
-- libunix/vsprintf.c: formatted output, which is the list of the bytes written.
pub mod Numbers
use emile.Common.{
  ℕ, zero, suc, ◌+◌, ◌-◌, ◌*◌, ◌/◌, ◌%◌, ◌^◌, Bool, true, false, not, ◌&&◌, ◌||◌, Option, none,
  some, List, [], ◌∷◌, ◌++◌, Bytes, ltb, leb, ◌==◌, if◌then◌else◌, length, take, min,
}

-- `"0123456789abcdef"[d]`
abbrev pub digit_char : ℕ → ℕ
digit_char d = if ltb d 10 then b'0' + d else b'a' + (d - 10)

-- The loop of `ksprintn`, whose last digit is read first, with the room left in its buffer. A
-- precision below 0 does what 0 does.
unfoldable pub digit_loop : ℕ → ℕ → ℕ → ℕ → Bytes → Bytes
digit_loop zero base prec ul digits = digits
digit_loop (suc room) base prec ul digits =
    let more = digit_loop room base (prec - 1) (ul / base) (digit_char (ul % base) ∷ digits) in
    if ltb 1 prec || not (ul / base == 0) then more else digit_char (ul % base) ∷ digits

-- `ksprintn`: the buffer has 32 / 3 + 4 bytes, and the first is not used.
unfoldable pub ksprintn : ℕ → ℕ → ℕ → Bytes
unfolding digit_loop
ksprintn ul base prec = digit_loop 13 base prec ul []

abbrev pub replicate : ℕ → ℕ → Bytes
replicate zero c = []
replicate (suc n) c = c ∷ replicate n c

-- What the flags of a directive set
pub record Flags : Type 0 where
  pub padc : ℕ
  pub width : ℕ
  pub prec : ℕ
  pub precspec : Bool
  pub pstring : Bool
  pub lflag : Bool

abbrev pub no_flags : Flags
no_flags = record {
  padc = b' ';
  width = 0;
  prec = 0;
  precspec = false;
  pstring = false;
  lflag = false;
}

-- From `number:` on: the padding and the digits
unfoldable pub put_number : Flags → ℕ → ℕ → Bytes
unfolding ksprintn
put_number f ul base =
    let digits = ksprintn ul base f.prec in replicate (f.width - length digits) f.padc ++ digits

-- `case 'd'`, of a number as a pattern of 32 bits: the sign stands in front of the padding.
unfoldable pub put_signed : Flags → ℕ → Bytes
unfolding put_number
put_signed f ul =
    if leb (2 ^ 31) ul then b'-' ∷ put_number f (2 ^ 32 - ul) 10 else put_number f ul 10

-- The arguments: a value of 32 bits, or the bytes from a pointer to the final 0.
pub data Argument : Type 0 where
  value : ℕ → Argument
  string : Bytes → Argument

-- `case 's'`; a Pascal string begins with its length, a signed byte.
pub put_string : Flags → Bytes → Bytes
put_string f s =
    if f.pstring
    then elim s [
      | [] ↦ []
      | n ∷ rest ↦ if leb 128 n then [] else take (if f.precspec then min f.prec n else n) rest
    ]
    else (if f.precspec then take f.prec s else s)

-- Where the loop over the format is: in text, behind '%' or a flag, in a width, or in a precision.
pub data Mode : Type 0 where
  copying : Mode
  directive in_width after_dot in_prec : Flags → Mode

abbrev pub is_digit : ℕ → Bool
is_digit c = leb b'0' c && leb c b'9'

-- What one byte does: it goes on in a mode, or writes bytes and goes back to the text, with the
-- arguments left; `none` if an argument is missing or of another type.
pub data Step : Type 0 where
  go : Mode → List Argument → Step
  put : Bytes → List Argument → Step
  stuck : Step

-- A conversion of a number, with what is in front of it
abbrev pub convert : (ℕ → Bytes) → List Argument → Step
convert write (value v ∷ args) = put (write v) args
convert write _ = stuck

abbrev pub convert_string : Flags → List Argument → Step
convert_string f (string s ∷ args) = put (put_string f s) args
convert_string f _ = stuck

abbrev pub star : (ℕ → Flags) → List Argument → Step
star set (value v ∷ args) = go (directive (set (if leb (2 ^ 31) v then 0 else v))) args
star set _ = stuck

-- The `switch`
unfoldable pub directive_step : Flags → ℕ → List Argument → Step
unfolding put_string put_number put_signed
directive_step f c args =
    if c == b'0'
    then go (directive (record f { padc = b'0' })) args
    else if is_digit c
    then go (in_width (record f { width = c - b'0' })) args
    else if c == b'#'
    then go (directive (record f { pstring = true })) args
    else if c == b'*'
    then star (λ v. record f { width = v }) args
    else if c == b'.'
    then go (after_dot (record f { precspec = true; prec = 0 })) args
    else if c == b'l'
    then go (directive (record f { lflag = true })) args
    else if c == b'c'
    then convert (λ v. v % 2 ^ 8 ∷ []) args
    else if c == b's'
    then convert_string f args
    else if c == b'd'
    then convert (put_signed f) args
    else if c == b'o'
    then convert (λ v. put_number f v 8) args
    else if c == b'u'
    then convert (λ v. put_number f v 10) args
    else if c == b'p'
    then convert (λ v. b'0' ∷ b'x' ∷ put_number f v 16) args
    else if c == b'x' || c == b'X'
    then convert (λ v. put_number f v 16) args
    else if c == b'%'
    then put (c ∷ []) args
    else put (b'%' ∷ (if f.lflag then b'l' ∷ c ∷ [] else c ∷ [])) args

unfoldable pub step : Mode → ℕ → List Argument → Step
unfolding directive_step
step copying c args = if c == b'%' then go (directive no_flags) args else put (c ∷ []) args
step (directive f) c args = directive_step f c args
step (in_width f) c args =
    if is_digit c
    then go (in_width (record f { width = f.width * 10 + (c - b'0') })) args
    else directive_step f c args
step (after_dot f) c args =
    if c == b'*'
    then star (λ v. record f { prec = v }) args
    else if is_digit c
    then go (in_prec (record f { prec = c - b'0' })) args
    else directive_step f c args
step (in_prec f) c args =
    if is_digit c
    then go (in_prec (record f { prec = f.prec * 10 + (c - b'0') })) args
    else directive_step f c args

-- The loop over the format. Inside a directive the final 0 is written and the loop goes on behind it.
unfoldable pub format_loop : Mode → Bytes → List Argument → Option Bytes
unfolding step
format_loop copying [] args = some []
format_loop (directive f) [] args = none
format_loop (in_width f) [] args = none
format_loop (after_dot f) [] args = none
format_loop (in_prec f) [] args = none
format_loop mode (c ∷ fmt) args = elim (step mode c args) [
  | stuck ↦ none
  | go mode' args' ↦ format_loop mode' fmt args'
  | put bytes args' ↦ elim (format_loop copying fmt args') [
    | none ↦ none
    | some rest ↦ some (bytes ++ rest)
  ]
]

-- `vsprintf`: the bytes in front of the final 0
unfoldable pub vsprintf : Bytes → List Argument → Option Bytes
unfolding format_loop
vsprintf fmt args = format_loop copying fmt args

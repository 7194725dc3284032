-- ===== src/Unix/Strtol.antt =====
-- What `strtol` reads with base 0: spaces, a sign, a prefix that gives the base, digits.
use native.Mathlib.Nat.{pow-suc, pow-zero}
use emile.Common.{
  ℕ, ◌+◌, ◌-◌, ◌*◌, ◌%◌, ◌^◌, ◌≤◌, ◌<◌, ◌≡◌, ◌≢◌, refl, ap, Bool, true, false, [], ◌∷◌, ◌++◌, Bytes,
  arith, leb, ◌==◌, if◌then◌else◌, length,
}
use emile.Common.Arith.{mod-mul_add}
use emile.Unix.{
  head_byte, tail_bytes, my_isspace, skip_space, digit_of, digits_loop, guess_base, strtol_signed,
  strtol,
}

-- The number that digits stand for, most significant first.
abbrev pub number : ℕ → Bytes → ℕ
number base [] = 0
number base (c ∷ s) = digit_of c * base ^ length s + number base s

abbrev pub AllDigits : ℕ → Bytes → Type 0
AllDigits base [] = Unit
AllDigits base (c ∷ s) = (digit_of c < base) × AllDigits base s

abbrev pub AllSpaces : Bytes → Type 0
AllSpaces [] = Unit
AllSpaces (c ∷ s) = (my_isspace c ≡ true) × AllSpaces s

-- The text is at its end or goes on with a byte that is no digit of the base.
abbrev pub EndsDigits : ℕ → Bytes → Type 0
EndsDigits base [] = Unit
EndsDigits base (c ∷ s) = leb base (digit_of c) ≡ true

pub digits_loop-number :
    (base r : ℕ) (ds rest : Bytes)
    → AllDigits base ds
    → EndsDigits base rest
    → r < 2 ^ 32
    → digits_loop base r (ds ++ rest) ≡ ((r * base ^ length ds + number base ds) % 2 ^ 32, rest)
unfolding digits_loop
digits_loop-number base r [] [] all ends lt = ground (arith, pow-zero base)
digits_loop-number base r [] (c ∷ rest) all ends lt = ground (arith, pow-zero base)
digits_loop-number base r (c ∷ ds) rest (d, all) ends lt = ground (
  arith,
  digits_loop-number base ((r * base + digit_of c) % 2 ^ 32) ds rest all ends (omega arith),
  mod-mul_add (r * base + digit_of c) (base ^ length ds) (number base ds) (2 ^ 32),
  ap (λ t. r * t) (pow-suc base (length ds)),
)

-- The sign and the prefix in front of the digits.
pub data Sign : Type 0 where
  unsigned plus minus : Sign

pub data Prefix : Type 0 where
  decimal octal hexadecimal : Prefix

abbrev pub sign_bytes : Sign → Bytes
sign_bytes unsigned = []
sign_bytes plus = b'+' ∷ []
sign_bytes minus = b'-' ∷ []

abbrev pub prefix_bytes : Prefix → Bytes
prefix_bytes decimal = []
prefix_bytes octal = b'0' ∷ []
prefix_bytes hexadecimal = b'0' ∷ b'x' ∷ []

abbrev pub base_of : Prefix → ℕ
base_of decimal = 10
base_of octal = 8
base_of hexadecimal = 16

-- A decimal numeral begins with a digit that is not 0; an octal one does not look hexadecimal.
abbrev pub Leads : Prefix → Bytes → Bytes → Type 0
Leads decimal ds rest = (b'1' ≤ head_byte ds) × (head_byte ds ≤ b'9')
Leads octal ds rest = head_byte (ds ++ rest) ≢ b'x'
Leads hexadecimal ds rest = Unit

abbrev pub with_sign : Sign → ℕ → ℕ
with_sign minus n = (2 ^ 32 - n) % 2 ^ 32
with_sign _ n = n

guess_base-prefix :
    (p : Prefix) (ds rest : Bytes)
    → Leads p ds rest
    → guess_base (prefix_bytes p ++ (ds ++ rest)) ≡ (base_of p, ds ++ rest)
unfolding guess_base
guess_base-prefix decimal [] rest (lo, hi) = absurd (omega arith)
guess_base-prefix decimal (d ∷ ds) rest (lo, hi) = ground arith
guess_base-prefix octal ds rest h = ground arith
guess_base-prefix hexadecimal ds rest h = refl

pub skip_space-append :
    (spaces s : Bytes)
    → AllSpaces spaces
    → my_isspace (head_byte s) ≡ false
    → skip_space (spaces ++ s) ≡ s
unfolding skip_space
skip_space-append [] [] all h = refl
skip_space-append [] (c ∷ s) all h = rw (h, skip_space) refl
skip_space-append (c ∷ spaces) s (e, all) h = rw (e, skip_space) (skip_space-append spaces s all h)

strtol_signed-number :
    (minus? : Bool) (p : Prefix) (ds rest : Bytes)
    → Leads p ds rest
    → AllDigits (base_of p) ds
    → EndsDigits (base_of p) rest
    → strtol_signed minus? (prefix_bytes p ++ (ds ++ rest)) 0
      ≡ (with_sign (if minus? then minus else plus) (number (base_of p) ds % 2 ^ 32), rest)
unfolding strtol_signed
strtol_signed-number m p ds rest leads all ends =
    rw
      (
        guess_base-prefix p ds rest leads,
        digits_loop-number (base_of p) 0 ds rest all ends (omega arith),
      )
      (ground arith)

-- The text behind the spaces begins with no space.
sign_first :
    (sg : Sign) (p : Prefix) (ds rest : Bytes)
    → Leads p ds rest
    → my_isspace (head_byte (sign_bytes sg ++ (prefix_bytes p ++ (ds ++ rest)))) ≡ false
unfolding my_isspace
sign_first unsigned decimal [] rest h = absurd (omega arith)
sign_first unsigned decimal (d ∷ ds) rest h = ground arith
sign_first unsigned octal ds rest h = refl
sign_first unsigned hexadecimal ds rest h = refl
sign_first plus p ds rest h = refl
sign_first minus p ds rest h = refl

-- The choice of the sign.
strtol_sign : Bytes → ℕ × Bytes
strtol_sign s =
    if head_byte s == b'-'
    then strtol_signed true (tail_bytes s) 0
    else if head_byte s == b'+'
    then strtol_signed false (tail_bytes s) 0
    else strtol_signed false s 0

strtol_sign-number :
    (sg : Sign) (p : Prefix) (ds rest : Bytes)
    → Leads p ds rest
    → AllDigits (base_of p) ds
    → EndsDigits (base_of p) rest
    → strtol_sign (sign_bytes sg ++ (prefix_bytes p ++ (ds ++ rest)))
      ≡ (with_sign sg (number (base_of p) ds % 2 ^ 32), rest)
unfolding strtol_sign
strtol_sign-number plus p ds rest l all ends = strtol_signed-number false p ds rest l all ends
strtol_sign-number minus p ds rest l all ends = strtol_signed-number true p ds rest l all ends
strtol_sign-number unsigned decimal [] rest l all ends = absurd (omega arith)
strtol_sign-number unsigned decimal (d ∷ ds) rest l all ends =
    ground (arith, strtol_signed-number false decimal (d ∷ ds) rest l all ends)
strtol_sign-number unsigned octal ds rest l all ends =
    strtol_signed-number false octal ds rest l all ends
strtol_sign-number unsigned hexadecimal ds rest l all ends =
    strtol_signed-number false hexadecimal ds rest l all ends

-- With base 0 `strtol` skips the spaces, takes the sign and the prefix, returns the number that the
-- digits stand for, negated for a minus sign, modulo 2 ^ 32, and points behind the last digit. It
-- holds for a decimal numeral that begins with a digit from 1 to 9, an octal one behind 0 that does
-- not go on with an x, and a hexadecimal one behind 0x, in front of a text that goes on with no
-- digit of the base.
pub strtol-number :
    (spaces : Bytes) (sg : Sign) (p : Prefix) (ds rest : Bytes)
    → AllSpaces spaces
    → Leads p ds rest
    → AllDigits (base_of p) ds
    → EndsDigits (base_of p) rest
    → strtol (spaces ++ (sign_bytes sg ++ (prefix_bytes p ++ (ds ++ rest)))) 0
      ≡ (with_sign sg (number (base_of p) ds % 2 ^ 32), rest)
unfolding strtol strtol_sign
strtol-number spaces sg p ds rest sp leads all ends =
    rw (skip_space-append spaces _ sp (sign_first sg p ds rest leads))
      (strtol_sign-number sg p ds rest leads all ends)

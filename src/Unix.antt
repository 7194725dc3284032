-- ===== src/Unix.antt =====
-- libunix: the C library of the booter. A C string is the list of its bytes without the final 0,
-- and a pointer into it is what is left of it.
pub mod Memory
pub mod Strtol
pub mod Compare
pub mod Print
use emile.Common.{
  ℕ, zero, suc, ◌+◌, ◌-◌, ◌*◌, ◌%◌, ◌^◌, Bool, true, false, ◌&&◌, ◌||◌, List, [], ◌∷◌, Bytes, ltb,
  leb, ◌==◌, if◌then◌else◌,
}
use emile.Common.Int.{ℤ, pos, ◌-ℤ◌, char_of}

-- `*s`
abbrev pub head_byte : Bytes → ℕ
head_byte [] = 0
head_byte (c ∷ s) = c

-- `s + 1`
abbrev pub tail_bytes : Bytes → Bytes
tail_bytes [] = []
tail_bytes (c ∷ s) = s

-- `while (*s++) len++;` from a count on
strlen_from : ℕ → Bytes → ℕ
strlen_from len [] = len
strlen_from len (c ∷ s) = strlen_from (len + 1) s

unfoldable pub strlen : Bytes → ℕ
unfolding strlen_from
strlen s = strlen_from 0 s

-- The loop steps over equal bytes; the difference of the bytes behind it is returned.
unfoldable pub strcmp : Bytes → Bytes → ℤ
strcmp [] t = char_of 0 -ℤ char_of (head_byte t)
strcmp (c ∷ s) [] = char_of c -ℤ char_of 0
strcmp (c ∷ s) (d ∷ t) = elim (c == d) [ true ↦ strcmp s t | false ↦ char_of c -ℤ char_of d ]

unfoldable pub strncmp : Bytes → Bytes → ℕ → ℤ
strncmp s t zero = pos 0
strncmp [] t (suc n) = char_of 0 -ℤ char_of (head_byte t)
strncmp (c ∷ s) [] (suc n) = char_of c -ℤ char_of 0
strncmp (c ∷ s) (d ∷ t) (suc n) = elim (c == d) [
  | true ↦ strncmp s t n
  | false ↦ char_of c -ℤ char_of d
]

unfoldable pub my_isspace : ℕ → Bool
my_isspace c = c == b' ' || c == 12 || c == b'\n' || c == b'\r' || c == b'\t' || c == 11

-- `while(my_isspace(*nptr)) nptr++;`
unfoldable pub skip_space : Bytes → Bytes
unfolding my_isspace
skip_space [] = []
skip_space (c ∷ s) = elim (my_isspace c) [ true ↦ skip_space s | false ↦ c ∷ s ]

-- The digit chain of the loop. At a byte that is no digit or letter the loop breaks, as it does at
-- a value above the base; 256 stands for that, and the bases in use are 36 at most.
unfoldable pub digit_of : ℕ → ℕ
digit_of c =
    if leb b'0' c && leb c b'9'
    then c - b'0'
    else if leb b'a' c && leb c b'z'
    then c - b'a' + 10
    else if leb b'A' c && leb c b'Z'
    then c - b'A' + 10
    else 256

-- The `while (*nptr)` loop at a base: the result as a 32-bit pattern, and the pointer.
unfoldable pub digits_loop : ℕ → ℕ → Bytes → ℕ × Bytes
digits_loop base result [] = (result, [])
digits_loop base result (c ∷ s) = elim (leb base (digit_of c)) [
  | true ↦ (result, c ∷ s)
  | false ↦ digits_loop base ((result * base + digit_of c) % 2 ^ 32) s
]

-- The base for `base == 0` and the pointer behind the prefix.
unfoldable pub guess_base : Bytes → ℕ × Bytes
guess_base s =
    if head_byte s == b'0'
    then (if head_byte (tail_bytes s) == b'x'
        then (16, tail_bytes (tail_bytes s))
        else (8, tail_bytes s))
    else (10, s)

-- The number from the sign on; the flag is `sign == -1`. `sign * result` wraps.
strtol_signed : Bool → Bytes → ℕ → ℕ × Bytes
unfolding digits_loop guess_base
strtol_signed minus s base =
    let start = (if base == 0 then guess_base s else (base, s)) in
    let (result, rest) = digits_loop start.0 0 start.1 in
    (if minus then (2 ^ 32 - result) % 2 ^ 32 else result, rest)

-- `strtol`, whose result is a 32-bit pattern, with `*endptr`.
unfoldable pub strtol : Bytes → ℕ → ℕ × Bytes
unfolding skip_space strtol_signed digit_of
strtol nptr base =
    let s = skip_space nptr in
    if head_byte s == b'-'
    then strtol_signed true (tail_bytes s) base
    else if head_byte s == b'+'
    then strtol_signed false (tail_bytes s) base
    else strtol_signed false s base

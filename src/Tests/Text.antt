-- ===== src/Tests/Text.antt =====
-- Numbers and strings.
use emile.Common.{ℕ, inl, ◌-◌, ◌%◌, ◌^◌, ◌≡◌, ◌↔◌, refl, [], ◌∷◌, arith, take, Bytes, some, none}
use emile.Common.Int.{pos}
use emile.Unix.Memory.{Moved, memmove, memcpy, memmove-Moved, memcpy-Moved}
use emile.Unix.{strtol, digit_of, my_isspace, strcmp, strncmp}
use emile.Unix.Strtol.{number, hexadecimal, minus, with_sign, strtol-number}
use emile.Unix.Print.{vsprintf, format_loop, directive, value, string, no_flags}
use emile.Unix.Print.Numbers.{Reads, format_loop-strtol}
use emile.Unix.Compare.{strcmp_iff, strncmp_iff}

strtol_runs :
    strtol (b' ' ∷ b'-' ∷ b'0' ∷ b'x' ∷ b'1' ∷ b'f' ∷ b',' ∷ []) 0 ≡ (2 ^ 32 - 31, b',' ∷ [])
unfolding strtol my_isspace
strtol_runs = refl

strtol_example :
    strtol (b' ' ∷ b'-' ∷ b'0' ∷ b'x' ∷ b'1' ∷ b'f' ∷ b',' ∷ []) 0
    ≡ (with_sign minus (number 16 (b'1' ∷ b'f' ∷ []) % 2 ^ 32), b',' ∷ [])
unfolding digit_of my_isspace
strtol_example =
    strtol-number (b' ' ∷ []) minus hexadecimal (b'1' ∷ b'f' ∷ []) (b',' ∷ []) (refl, tt) tt
      (omega arith) refl

abbrev system : Bytes
system = b'S' ∷ b'y' ∷ b's' ∷ []

strcmp_example : (strcmp system system ≡ pos 0) ↔ (system ≡ system)
strcmp_example = strcmp_iff system system (omega arith) (omega arith)

strncmp_example :
    (strncmp system (b'S' ∷ b'u' ∷ []) 1 ≡ pos 0) ↔ (take 1 system ≡ take 1 (b'S' ∷ b'u' ∷ []))
strncmp_example = strncmp_iff system (b'S' ∷ b'u' ∷ []) 1 (omega arith) (omega arith)

abbrev bytes : ℕ → ℕ
bytes p = p

memmove_example : Moved bytes 12 10 5 (memmove bytes 12 10 5)
memmove_example = memmove-Moved bytes 12 10 5

memcpy_example : Moved bytes 8 10 5 (memcpy bytes 8 10 5)
memcpy_example = memcpy-Moved bytes 8 10 5 (inl (omega arith))

-- "0x%05x %s%%" of a number and a string
formatted :
    vsprintf
      (b'0' ∷ b'x' ∷ b'%' ∷ b'0' ∷ b'5' ∷ b'x' ∷ b' ' ∷ b'%' ∷ b's' ∷ b'%' ∷ b'%' ∷ [])
      (value 0x1f ∷ string (b'a' ∷ b'b' ∷ []) ∷ [])
    ≡ some (b'0' ∷ b'x' ∷ b'0' ∷ b'0' ∷ b'0' ∷ b'1' ∷ b'f' ∷ b' ' ∷ b'a' ∷ b'b' ∷ b'%' ∷ [])
unfolding vsprintf
formatted = refl

-- A format that ends inside a directive
unfinished : vsprintf (b'%' ∷ []) [] ≡ none
unfolding vsprintf
unfinished = refl

format_example :
    Reads 10 258 (format_loop (directive no_flags) (b'u' ∷ []) (value 258 ∷ []))
    × Reads 8 258 (format_loop (directive no_flags) (b'o' ∷ []) (value 258 ∷ []))
    × Reads 16 258 (format_loop (directive no_flags) (b'x' ∷ []) (value 258 ∷ []))
    × Reads 10 258
        (format_loop (directive (record no_flags { width = 0 })) (b'd' ∷ []) (value 258 ∷ []))
format_example = format_loop-strtol no_flags 258 (omega arith) refl

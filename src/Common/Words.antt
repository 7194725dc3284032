-- ===== src/Common/Words.antt =====
-- Numbers stored most significant byte first (libemile/emile.h), and the bits of a number.
use emile.Common.Lists.{Bytes, length, get_or, set, length-set, get_or-set_self, get_or-set_ne}
use emile.Common.Tests.{◌==◌, if◌then◌else◌}
use Prim.Native.Nat.{ℕ, ◌+◌, ◌-◌, ◌*◌, ◌/◌, ◌%◌, ◌^◌, ◌≤◌, ◌<◌}
use mathlib.Core.Bool.{Bool}
use mathlib.Core.Logic.{◌≢◌, ◌⊎◌}
use mathlib.Core.Path.{◌≡◌, refl, sym, ◌∙◌}
use native.Mathlib.Omega.{arith}

abbrev pub read_short : Bytes → ℕ → ℕ
read_short bytes at = 2 ^ 8 * get_or bytes at 0 + get_or bytes (at + 1) 0

abbrev pub read_long : Bytes → ℕ → ℕ
read_long bytes at = 2 ^ 16 * read_short bytes at + read_short bytes (at + 2)

unfoldable pub write_short : Bytes → ℕ → ℕ → Bytes
write_short bytes at value = set (set bytes at (value / 2 ^ 8 % 2 ^ 8)) (at + 1) (value % 2 ^ 8)

unfoldable pub write_long : Bytes → ℕ → ℕ → Bytes
unfolding write_short
write_long bytes at value = write_short (write_short bytes at (value / 2 ^ 16)) (at + 2) value

pub read_short-write_short :
    (bytes : Bytes) (at value : ℕ)
    → at + 1 < length bytes
    → read_short (write_short bytes at value) at ≡ value % 2 ^ 16
unfolding write_short
read_short-write_short bytes at value inside =
    rw
      (
        get_or-set_ne (set bytes at (value / 2 ^ 8 % 2 ^ 8)) (at + 1) at (value % 2 ^ 8) 0
            (λ e. omega (arith, e)),
        get_or-set_self bytes at (value / 2 ^ 8 % 2 ^ 8) 0 (omega arith),
        get_or-set_self (set bytes at (value / 2 ^ 8 % 2 ^ 8)) (at + 1) (value % 2 ^ 8) 0
            (omega (arith, length-set bytes at (value / 2 ^ 8 % 2 ^ 8))),
      )
      (omega arith)

-- A place that a write leaves alone.
pub get_or-write_short :
    (bytes : Bytes) (at value place : ℕ)
    → place ≢ at
    → place ≢ at + 1
    → get_or (write_short bytes at value) place 0 ≡ get_or bytes place 0
unfolding write_short
get_or-write_short bytes at value place n n' =
    get_or-set_ne (set bytes at (value / 2 ^ 8 % 2 ^ 8)) (at + 1) place _ 0 (λ e. n' (sym e))
    ∙ get_or-set_ne bytes at place _ 0 (λ e. n (sym e))

-- Bit `k` of a number.
abbrev pub has_bit : ℕ → ℕ → Bool
has_bit k n = n / 2 ^ k % 2 == 1

abbrev pub set_bit : ℕ → ℕ → ℕ
set_bit k n = if has_bit k n then n else n + 2 ^ k

abbrev pub clear_bit : ℕ → ℕ → ℕ
clear_bit k n = if has_bit k n then n - 2 ^ k else n

pub length-write_short :
    (bytes : Bytes) (at value : ℕ) → length (write_short bytes at value) ≡ length bytes
unfolding write_short
length-write_short bytes at value =
    length-set (set bytes at (value / 2 ^ 8 % 2 ^ 8)) (at + 1) _ ∙ length-set bytes at _

pub get_or-write_long :
    (bytes : Bytes) (at value place : ℕ)
    → (place < at) ⊎ (at + 4 ≤ place)
    → get_or (write_long bytes at value) place 0 ≡ get_or bytes place 0
unfolding write_long
get_or-write_long bytes at value place out =
    get_or-write_short (write_short bytes at (value / 2 ^ 16)) (at + 2) value place
      (λ e. ground (arith, out)) (λ e. ground (arith, out))
    ∙ get_or-write_short bytes at (value / 2 ^ 16) place (λ e. ground (arith, out))
        (λ e. ground (arith, out))

-- What `write_long` stores, `read_long` reads.
pub read_long-write_long :
    (bytes : Bytes) (at value : ℕ)
    → at + 3 < length bytes
    → read_long (write_long bytes at value) at ≡ value % 2 ^ 32
unfolding write_long
read_long-write_long bytes at value inside =
    let high = write_short bytes at (value / 2 ^ 16) in
    rw
      (
        get_or-write_short high (at + 2) value at (λ e. omega (arith, e)) (λ e. omega (arith, e)),
        get_or-write_short high (at + 2) value (at + 1) (λ e. omega (arith, e))
            (λ e. omega (arith, e)),
        read_short-write_short high (at + 2) value
            (omega (arith, length-write_short bytes at (value / 2 ^ 16))),
        read_short-write_short bytes at (value / 2 ^ 16) (omega arith),
      )
      (omega arith)

pub length-write_long :
    (bytes : Bytes) (at value : ℕ) → length (write_long bytes at value) ≡ length bytes
unfolding write_long
length-write_long bytes at value =
    length-write_short (write_short bytes at (value / 2 ^ 16)) (at + 2) value
    ∙ length-write_short bytes at (value / 2 ^ 16)

-- A number that a write leaves alone.
pub read_short_frame :
    (bytes : Bytes) (at value place : ℕ)
    → (place + 1 < at) ⊎ (at + 1 < place)
    → read_short (write_short bytes at value) place ≡ read_short bytes place
read_short_frame bytes at value place out =
    rw
      (
        get_or-write_short bytes at value place (λ e. ground (arith, out))
            (λ e. ground (arith, out)),
        get_or-write_short bytes at value (place + 1) (λ e. ground (arith, out))
            (λ e. ground (arith, out)),
      )
      refl

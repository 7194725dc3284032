-- ===== src/Common/Slice.antt =====
-- Bytes addressed by number: a disk, a memory or the contents of a file as a function, and the
-- list of the bytes of a range.
use emile.Common.Lists.{Bytes, length, take, drop, get_or}
use emile.Common.Tests.{ltb, leb, if◌then◌else◌}
use Prim.Native.Nat.{ℕ, zero, suc, ◌+◌, ◌-◌, ◌≤◌, ◌<◌}
use mathlib.Core.Path.{◌≡◌, refl, ap, ap₂, ◌∙◌}
use mathlib.Core.Bool.{◌&&◌, true}
use mathlib.Core.Logic.{◌⊎◌}
use mathlib.Core.List.{[], ◌∷◌, ◌++◌}
use native.Mathlib.Omega.{arith}

-- `slice f start n`: the bytes at start, start + 1, up to start + n - 1.
abbrev pub slice : (ℕ → ℕ) → ℕ → ℕ → Bytes
slice f start zero = []
slice f start (suc n) = f start ∷ slice f (start + 1) n

pub length-slice : (f : ℕ → ℕ) (start n : ℕ) → length (slice f start n) ≡ n
length-slice f start zero = refl
length-slice f start (suc n) = ap suc (length-slice f (start + 1) n)

-- The same range, written in another way.
pub slice-cong : (f : ℕ → ℕ) {s t m n : ℕ} → s ≡ t → m ≡ n → slice f s m ≡ slice f t n
slice-cong f p q = ap₂ (slice f) p q

pub slice-append :
    (f : ℕ → ℕ) (start m n : ℕ) → slice f start m ++ slice f (start + m) n ≡ slice f start (m + n)
slice-append f start zero n = slice-cong f (omega arith) (omega arith)
slice-append f start (suc m) n =
    ap (λ s. f start ∷ slice f (start + 1) m ++ s)
      (slice-cong f {s = start + suc m} {t = start + 1 + m} (omega arith) refl)
    ∙ ap (◌∷◌ (f start)) (slice-append f (start + 1) m n)
    ∙ slice-cong f {s = start} {m = suc (m + n)} {n = suc m + n} refl (omega arith)

-- Two functions that agree on a range have the same bytes there.
pub slice-eq :
    (f g : ℕ → ℕ) (s t n : ℕ)
    → ((i : ℕ) → i < n → f (s + i) ≡ g (t + i))
    → slice f s n ≡ slice g t n
slice-eq f g s t zero h = refl
slice-eq f g s t (suc n) h = ap₂ ◌∷◌ (ap f (omega arith) ∙ h 0 (omega arith) ∙ ap g (omega arith)) (
    slice-eq f g (s + 1) (t + 1) n
      (λ i lt. ap f (omega arith) ∙ h (i + 1) (omega arith) ∙ ap g (omega arith)))

-- `memcpy (ptr, buffer + off, part)` from a buffer that holds a range.
pub take-drop-slice :
    (f : ℕ → ℕ) (s off part n : ℕ)
    → off + part ≤ n
    → take part (drop off (slice f s n)) ≡ slice f (s + off) part
take-drop-slice f s zero zero n h = refl
take-drop-slice f s zero (suc part) zero h = absurd (omega arith)
take-drop-slice f s zero (suc part) (suc n) h =
    ap₂ ◌∷◌ (ap f (omega arith))
      (take-drop-slice f (s + 1) zero part n (omega arith) ∙ ap (λ k. slice f k part) (omega arith))
take-drop-slice f s (suc off) part zero h = absurd (omega arith)
take-drop-slice f s (suc off) part (suc n) h =
    take-drop-slice f (s + 1) off part n (omega arith) ∙ ap (λ k. slice f k part) (omega arith)

-- The memory after bytes were written from `p` on
abbrev pub put_bytes : Bytes → (ℕ → ℕ) → ℕ → ℕ → ℕ
put_bytes bytes m p q = if leb p q && ltb q (p + length bytes) then get_or bytes (q - p) 0 else m q

pub put_bytes_in :
    (bytes : Bytes) (m : ℕ → ℕ) (p i : ℕ)
    → i < length bytes
    → put_bytes bytes m p (p + i) ≡ get_or bytes i 0
put_bytes_in bytes m p i lt =
    let test : (leb p (p + i) && ltb (p + i) (p + length bytes)) ≡ true = ground arith in
    rw test (ap (λ k. get_or bytes k 0) (omega arith))

pub put_bytes_out :
    (bytes : Bytes) (m : ℕ → ℕ) (p q : ℕ)
    → (q < p) ⊎ (p + length bytes ≤ q)
    → put_bytes bytes m p q ≡ m q
put_bytes_out bytes m p q out = ground arith

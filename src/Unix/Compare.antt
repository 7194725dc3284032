-- ===== src/Unix/Compare.antt =====
-- `strcmp` and `strncmp` decide equality of C strings and of their first bytes.
use emile.Common.{ℕ, zero, suc, ◌+◌, ◌<◌, ◌≡◌, ◌↔◌, [], ◌∷◌, Bytes, arith, length, take}
use emile.Common.Int.{pos, ◌-ℤ◌, char_of}
use emile.Unix.{strlen_from, strlen, strcmp, strncmp}

-- The bytes of a C string: none is 0.
abbrev pub IsCString : Bytes → Type 0
IsCString [] = Unit
IsCString (c ∷ s) = (0 < c) × (c < 256) × IsCString s

char_of-eq : (c d : ℕ) → c < 256 → d < 256 → (char_of c -ℤ char_of d ≡ pos 0) ↔ (c ≡ d)
char_of-eq c d hc hd = ground arith

-- `strcmp` returns 0 exactly for equal C strings.
pub strcmp_iff : (s t : Bytes) → IsCString s → IsCString t → (strcmp s t ≡ pos 0) ↔ (s ≡ t)
unfolding strcmp
strcmp_iff [] [] hs ht = ground arith
strcmp_iff [] (d ∷ t) hs ht = ground arith
strcmp_iff (c ∷ s) [] hs ht = ground arith
strcmp_iff (c ∷ s) (d ∷ t) hs ht = ground (arith, strcmp_iff s t hs.2 ht.2)

-- `strncmp` returns 0 exactly for C strings with equal first `n` bytes.
pub strncmp_iff :
    (s t : Bytes) (n : ℕ)
    → IsCString s
    → IsCString t
    → (strncmp s t n ≡ pos 0) ↔ (take n s ≡ take n t)
unfolding strncmp
strncmp_iff s t zero hs ht = ground arith
strncmp_iff [] [] (suc n) hs ht = ground arith
strncmp_iff [] (d ∷ t) (suc n) hs ht = ground arith
strncmp_iff (c ∷ s) [] (suc n) hs ht = ground arith
strncmp_iff (c ∷ s) (d ∷ t) (suc n) hs ht = ground (arith, strncmp_iff s t n hs.2 ht.2)

strlen_from-length : (n : ℕ) (s : Bytes) → strlen_from n s ≡ n + length s
unfolding strlen_from
strlen_from-length n [] = omega arith
strlen_from-length n (c ∷ s) = omega (arith, strlen_from-length (n + 1) s)

pub strlen-length : (s : Bytes) → strlen s ≡ length s
unfolding strlen
strlen-length s = omega (arith, strlen_from-length 0 s)

-- ===== src/Map/Checksum.antt =====
-- What the checksum of a driver detects.
use emile.Common.{
  ℕ, ◌+◌, ◌%◌, ◌^◌, ◌<◌, ◌≡◌, ◌⊎◌, refl, ap, ◌∙◌, inl, inr, [], ◌∷◌, ◌++◌, Bytes, arith, ◌==◌,
  Bool-cases, length, take,
}
use emile.Map.{rotate, nonzero, sum_bytes, map_checksum}

rotate-injective : (s t : ℕ) → s < 2 ^ 16 → t < 2 ^ 16 → rotate s ≡ rotate t → s ≡ t
rotate-injective s t hs ht e = omega (arith, e)

rotate_bound : (s : ℕ) → s < 2 ^ 16 → rotate s < 2 ^ 16
rotate_bound s h = omega arith

sum_bytes_bound : (sum : ℕ) (bytes : Bytes) → sum < 2 ^ 16 → sum_bytes sum bytes < 2 ^ 16
unfolding sum_bytes
sum_bytes_bound sum [] h = h
sum_bytes_bound sum (b ∷ bytes) h =
    sum_bytes_bound (rotate ((sum + b) % 2 ^ 16)) bytes (rotate_bound _ (omega arith))

-- The sum so far can be told from the final one.
sum_bytes-injective :
    (s t : ℕ) (bytes : Bytes)
    → s < 2 ^ 16
    → t < 2 ^ 16
    → sum_bytes s bytes ≡ sum_bytes t bytes
    → s ≡ t
unfolding sum_bytes
sum_bytes-injective s t [] hs ht e = e
sum_bytes-injective s t (b ∷ bytes) hs ht e =
    let same = rotate-injective ((s + b) % 2 ^ 16) ((t + b) % 2 ^ 16) (omega arith) (omega arith) (
      sum_bytes-injective (rotate ((s + b) % 2 ^ 16)) (rotate ((t + b) % 2 ^ 16)) bytes
        (rotate_bound _ (omega arith)) (rotate_bound _ (omega arith)) e) in
    omega (arith, same)

sum_bytes-change :
    (sum : ℕ) (front back : Bytes) (b c : ℕ)
    → sum < 2 ^ 16
    → b < 2 ^ 8
    → c < 2 ^ 8
    → sum_bytes sum (front ++ b ∷ back) ≡ sum_bytes sum (front ++ c ∷ back)
    → b ≡ c
unfolding sum_bytes
sum_bytes-change sum [] back b c h hb hc e =
    let same =
      rotate-injective ((sum + b) % 2 ^ 16) ((sum + c) % 2 ^ 16) (omega arith) (omega arith) (
        sum_bytes-injective _ _ back (rotate_bound _ (omega arith)) (rotate_bound _ (omega arith))
          e) in
    omega (arith, same)
sum_bytes-change sum (x ∷ front) back b c h hb hc e =
    sum_bytes-change (rotate ((sum + x) % 2 ^ 16)) front back b c (rotate_bound _ (omega arith)) hb
      hc e

take_all : (bytes : Bytes) → take (length bytes) bytes ≡ bytes
take_all [] = refl
take_all (b ∷ bytes) = ap (◌∷◌ b) (take_all bytes)

whole : (bytes : Bytes) (n : ℕ) → length bytes ≡ n → n < 2 ^ 16 → take (n % 2 ^ 16) bytes ≡ bytes
whole bytes n e small = ap (λ k. take k bytes) (omega (arith, e)) ∙ take_all bytes

-- The end of `map_checksum`, for two sums.
compared :
    (S T : ℕ) (b c : ℕ)
    → S < 2 ^ 16
    → (S ≡ T → b ≡ c)
    → (nonzero S < 2 ^ 16)
      × (0 < nonzero S)
      × (nonzero S ≡ nonzero T → (b ≡ c) ⊎ (nonzero S ≡ 0xFFFF))
compared S T b c h same = elim (Bool-cases (S == 0)) [
  | inl none ↦ rw none (omega arith, omega arith, λ e. inr refl)
  | inr some ↦ rw some (
    h,
    ground arith,
    λ e. elim (Bool-cases (T == 0)) [
      | inl none ↦ inr (e ∙ rw none refl)
      | inr other ↦ inl (same (e ∙ rw other refl))
    ],
  )
]

-- `map_checksum` is a number of 16 bits that is not 0, and drivers that differ in one byte have
-- different checksums, unless the checksum is 0xFFFF, which stands for the sum 0 too. It holds for
-- the whole of drivers of fewer than 2 ^ 16 bytes.
pub map_checksum-detects :
    (front back : Bytes) (b c n : ℕ)
    → b < 2 ^ 8
    → c < 2 ^ 8
    → length (front ++ b ∷ back) ≡ n
    → length (front ++ c ∷ back) ≡ n
    → n < 2 ^ 16
    → (map_checksum (front ++ b ∷ back) n < 2 ^ 16)
      × (0 < map_checksum (front ++ b ∷ back) n)
      × (map_checksum (front ++ b ∷ back) n ≡ map_checksum (front ++ c ∷ back) n
          → (b ≡ c) ⊎ (map_checksum (front ++ b ∷ back) n ≡ 0xFFFF))
unfolding map_checksum
map_checksum-detects front back b c n hb hc eb ec small =
    rw (whole (front ++ b ∷ back) n eb small, whole (front ++ c ∷ back) n ec small)
      (compared _ _ b c (sum_bytes_bound 0 (front ++ b ∷ back) (omega arith))
        (sum_bytes-change 0 front back b c (omega arith) hb hc))

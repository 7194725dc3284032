-- ===== src/BootInfo/Banks/Real.antt =====
-- The entries tell of memory that the map has.

use emile.Common.{
  ℕ, zero, suc, ◌+◌, ◌-◌, ◌^◌, ◌≤◌, ◌<◌, ◌≡◌, ◌⊎◌, inl, inr, some, List, [], ◌∷◌, arith, ltb, ◌==◌,
  length, set, take, Bool-cases,
}
use emile.Common.Arith.{equal_of_test, ltb-lt, ltb-ge}
use emile.Bank.{MemoryBank, MemoryMap, add_ulong}
use emile.BootInfo.{MemInfo}
use emile.BootInfo.Banks.{
  num_meminfo, entry_at, copy_banks, join_step, join_with, join_all, merged, exchange, bigger_first,
  extract_banks,
}

-- An address in a bank of the map
abbrev pub IsMapped : ℕ → MemoryMap → Type 0
IsMapped a [] = ⊥
IsMapped a (b ∷ banks) = ((b.phys_addr ≤ a) × (a < b.phys_addr + b.size)) ⊎ IsMapped a banks

-- The banks end below 4 GB.
abbrev pub AreLow : MemoryMap → Type 0
AreLow [] = Unit
AreLow (b ∷ banks) = (b.phys_addr + b.size < 2 ^ 32) × AreLow banks

-- An entry whose addresses are all in a bank
pub record IsReal (map : MemoryMap) (e : MemInfo) : Type 0 where
  pub low : e.addr + e.size < 2 ^ 32
  pub mapped : (a : ℕ) → e.addr ≤ a → a < e.addr + e.size → IsMapped a map

abbrev pub AreReal : MemoryMap → List MemInfo → Type 0
AreReal map [] = Unit
AreReal map (e ∷ entries) = IsReal map e × AreReal map entries

module _ (map : MemoryMap) where
  entry_at-IsReal :
      (memory : List MemInfo) (i : ℕ) → AreReal map memory → IsReal map (entry_at memory i)
  entry_at-IsReal [] i h = record { low = omega arith; mapped = λ a le lt. absurd (omega arith) }
  entry_at-IsReal (e ∷ memory) zero h = h.0
  entry_at-IsReal (e ∷ memory) (suc i) h = entry_at-IsReal memory i h.1

  set-AreReal :
      (memory : List MemInfo) (i : ℕ) (e : MemInfo)
      → AreReal map memory
      → IsReal map e
      → AreReal map (set memory i e)
  set-AreReal [] i e h r = tt
  set-AreReal (x ∷ memory) zero e h r = (r, h.1)
  set-AreReal (x ∷ memory) (suc i) e h r = (h.0, set-AreReal memory i e h.1 r)

  take-AreReal : (n : ℕ) (memory : List MemInfo) → AreReal map memory → AreReal map (take n memory)
  take-AreReal zero memory h = tt
  take-AreReal (suc n) [] h = tt
  take-AreReal (suc n) (x ∷ memory) h = (h.0, take-AreReal n memory h.1)

  -- An entry that is followed by another, and the two in one
  grown-IsReal :
      (a b : MemInfo)
      → IsReal map a
      → IsReal map b
      → add_ulong a.addr a.size ≡ b.addr
      → IsReal map (record a { size = add_ulong a.size b.size })
  grown-IsReal a b ra rb e =
      let next : a.addr + a.size ≡ b.addr = omega (arith, e) in
      let sum : add_ulong a.size b.size ≡ a.size + b.size = omega (arith, next) in
      record {
        low = omega (arith, next, sum);
        mapped = λ p le lt. elim (Bool-cases (ltb p b.addr)) [
          | inl before ↦ ra.mapped p le (omega (arith, next, ltb-lt p b.addr before))
          | inr after ↦ rb.mapped p (ltb-ge p b.addr after) (omega (arith, next, sum))
        ];
      }

  join_step-AreReal :
      (i j : ℕ) (s : List MemInfo × ℕ) → AreReal map s.0 → AreReal map (join_step i j s).0
  unfolding join_step
  join_step-AreReal i j (memory, num) h =
      let a = entry_at memory i in
      let b = entry_at memory j in
      elim (Bool-cases (add_ulong a.addr a.size == b.addr)) [
        | inl e ↦
            rw (e, join_step)
              (let grown = set memory i (record a { size = add_ulong a.size b.size }) in
                let real : AreReal map grown =
                  set-AreReal memory i (record a { size = add_ulong a.size b.size }) h
                    (grown-IsReal a b (entry_at-IsReal memory i h) (entry_at-IsReal memory j h)
                      (equal_of_test (add_ulong a.addr a.size) b.addr e)) in
                set-AreReal grown j (entry_at grown (num - 1)) real
                  (entry_at-IsReal grown (num - 1) real))
        | inr e ↦ rw (e, join_step) h
      ]

  join_with-AreReal :
      (fuel i j : ℕ) (s : List MemInfo × ℕ) → AreReal map s.0 → AreReal map (join_with fuel i j s).0
  unfolding join_with
  join_with-AreReal zero i j s h = h
  join_with-AreReal (suc fuel) i j s h = elim (Bool-cases (ltb j s.1)) [
    | inl e ↦
        rw (e, join_with)
          (join_with-AreReal fuel i (suc j) (join_step i j s) (join_step-AreReal i j s h))
    | inr e ↦ rw (e, join_with) h
  ]

  join_all-AreReal :
      (fuel i : ℕ) (s : List MemInfo × ℕ) → AreReal map s.0 → AreReal map (join_all fuel i s).0
  unfolding join_all
  join_all-AreReal zero i s h = h
  join_all-AreReal (suc fuel) i s h = elim (Bool-cases (ltb i s.1)) [
    | inl e ↦
        rw (e, join_all)
          (join_all-AreReal fuel (suc i) (join_with s.1 i 0 s) (join_with-AreReal s.1 i 0 s h))
    | inr e ↦ rw (e, join_all) h
  ]

  exchange-AreReal :
      (a : MemInfo) (l : List MemInfo)
      → IsReal map a
      → AreReal map l
      → AreReal map ((exchange a l).0 ∷ (exchange a l).1)
  unfolding exchange
  exchange-AreReal a [] r h = (r, tt)
  exchange-AreReal a (b ∷ l) r h = elim (Bool-cases (ltb a.size b.size)) [
    | inl e ↦ rw (e, exchange) (let s = exchange-AreReal b l h.0 h.1 in (s.0, (r, s.1)))
    | inr e ↦ rw (e, exchange) (let s = exchange-AreReal a l r h.1 in (s.0, (h.0, s.1)))
  ]

  bigger_first-AreReal :
      (fuel : ℕ) (l : List MemInfo) → AreReal map l → AreReal map (bigger_first fuel l)
  unfolding bigger_first
  bigger_first-AreReal zero l h = h
  bigger_first-AreReal (suc fuel) [] h = tt
  bigger_first-AreReal (suc fuel) (a ∷ l) h =
      let s = exchange-AreReal a l h.0 h.1 in (s.0, bigger_first-AreReal fuel (exchange a l).1 s.1)

-- The entries of the first banks of a longer map are real for it.
IsReal-cons : (b : MemoryBank) (map : MemoryMap) (e : MemInfo) → IsReal map e → IsReal (b ∷ map) e
IsReal-cons b map e r = record { low = r.low; mapped = λ a le lt. inr (r.mapped a le lt) }

AreReal-cons :
    (b : MemoryBank) (map : MemoryMap) (l : List MemInfo) → AreReal map l → AreReal (b ∷ map) l
AreReal-cons b map [] h = tt
AreReal-cons b map (e ∷ l) h = (IsReal-cons b map e h.0, AreReal-cons b map l h.1)

copy_banks-AreReal : (map : MemoryMap) → AreLow map → AreReal map (copy_banks map)
unfolding copy_banks
copy_banks-AreReal [] h = tt
copy_banks-AreReal (b ∷ map) h = (
  record { low = h.0; mapped = λ a le lt. inl (le, lt) },
  AreReal-cons b map (copy_banks map) (copy_banks-AreReal map h.1),
)

-- For a memory map of at most four banks that end below 4 GB, `extractBanks` has a result, and
-- each address in an entry of it is in a bank of the map.
pub extract_banks-AreReal :
    (map : MemoryMap)
    → length map ≤ num_meminfo
    → AreLow map
    → (entries : List MemInfo) × (extract_banks map ≡ some entries) × AreReal map entries
unfolding extract_banks merged
extract_banks-AreReal map h low =
    let start : List MemInfo × ℕ = (copy_banks map, length map) in
    let s = join_all (length map) 0 start in
    let l = merged map in
    (
      bigger_first (length l) l,
      ground (arith, h),
      bigger_first-AreReal map (length l) l (
          take-AreReal map s.1 s.0
            (join_all-AreReal map (length map) 0 start (copy_banks-AreReal map low))),
    )

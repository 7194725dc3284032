-- ===== src/Container/Map.antt =====
-- The bytes of a container by position in the file, and how `seek_block` finds their block.
use emile.Common.{
  ℕ, ◌+◌, ◌-◌, ◌*◌, ◌/◌, ◌%◌, ◌^◌, ◌≤◌, ◌<◌, ◌≡◌, ◌≢◌, ◌⊎◌, inl, inr, ap, some, List, [], ◌∷◌,
  arith, ltb, ◌==◌, if◌then◌else◌, Bool-cases,
}
use emile.Common.Arith.{div-lt_of_lt_mul, mod-sub_mul, block_rest, block_split}
use emile.Container.{EmileBlock, seek_from}

-- The byte at position `p` of the extents.
abbrev pub contents : (ℕ → ℕ) → ℕ → List EmileBlock → ℕ → ℕ
contents disk bs [] p = 0
contents disk bs (b ∷ blocks) p =
    if ltb p (bs * b.count)
    then disk (b.offset * bs + p)
    else contents disk bs blocks (p - bs * b.count)

-- The bytes that the entries in front of the terminator hold.
abbrev pub total : ℕ → List EmileBlock → ℕ
total bs [] = 0
total bs (b ∷ blocks) = if b.offset == 0 then 0 else bs * b.count + total bs blocks

-- The table ends in an entry with offset 0, its block numbers are machine words, and each of its
-- blocks satisfies `P`.
abbrev pub IsTable : (ℕ → Type 0) → List EmileBlock → Type 0
IsTable P [] = ⊥
IsTable P (b ∷ blocks) =
    (b.offset ≡ 0)
    ⊎ ((b.offset + b.count < 2 ^ 32)
        × ((i : ℕ) → i < b.count → P (b.offset + i))
        × IsTable P blocks)

-- Block `b` of the disk holds the bytes of the file from the block border before `p` on.
pub record Holds (disk : ℕ → ℕ) (bs : ℕ) (blocks : List EmileBlock) (p b : ℕ) : Type 0 where
  pub b_ne_zero : b ≢ 0
  pub same :
      (i : ℕ) → i < bs - p % bs → contents disk bs blocks (p + i) ≡ disk (b * bs + p % bs + i)

module _ (disk : ℕ → ℕ) (P : ℕ → Type 0) (bs : ℕ) (pos : 0 < bs) where
  hit-Holds :
      (b : EmileBlock) (blocks : List EmileBlock) (p : ℕ)
      → b.offset ≢ 0
      → p < bs * b.count
      → Holds disk bs (b ∷ blocks) p (b.offset + p / bs)
  hit-Holds b blocks p ne lt = record {
    b_ne_zero = omega arith;
    same = λ i li. ground (arith, block_rest p bs b.count i pos lt li, block_split p bs pos);
  }

  miss-Holds :
      (e : EmileBlock) (blocks : List EmileBlock) (p b : ℕ)
      → bs * e.count ≤ p
      → Holds disk bs blocks (p - bs * e.count) b
      → Holds disk bs (e ∷ blocks) p b
  miss-Holds e blocks p b le h = record {
    b_ne_zero = h.b_ne_zero;
    same = λ i li. ground (arith, mod-sub_mul p bs e.count le, h.same i);
  }

  pub seek_from-Holds :
      (blocks : List EmileBlock) (current p offset : ℕ)
      → IsTable P blocks
      → offset ≡ current + p
      → p < total bs blocks
      → current + total bs blocks < 2 ^ 32
      → (b : ℕ) × (seek_from bs offset current blocks ≡ some b) × Holds disk bs blocks p b × P b
  unfolding seek_from
  seek_from-Holds [] current p offset t e lt w = absurd t
  seek_from-Holds (b ∷ blocks) current p offset (inl end) e lt w = absurd (ground arith)
  seek_from-Holds (b ∷ blocks) current p offset (inr (word, all, t)) e lt w =
      elim (Bool-cases (b.offset == 0)) [
        | inl end ↦ absurd (ground arith)
        | inr more ↦ elim (Bool-cases (ltb p (bs * b.count))) [
          | inl hit ↦ (
            b.offset + p / bs,
            ground (arith, div-lt_of_lt_mul p bs b.count pos, ap (λ x. x / bs) minus),
            hit-Holds b blocks p (ground arith) (ground arith),
            all (p / bs) (div-lt_of_lt_mul p bs b.count pos (ground arith)),
          )
          | inr miss ↦
              let (r, found, h, ok) =
                seek_from-Holds blocks (current + bs * b.count) (p - bs * b.count) offset t
                  (ground arith) (ground arith) (ground arith) in
              (r, ground arith, miss-Holds b blocks p r (ground arith) h, ok)
        ]
      ]
    where
      minus : offset - current ≡ p
      minus = omega arith

pub total-mul : (bs : ℕ) (blocks : List EmileBlock) → (k : ℕ) × (total bs blocks ≡ bs * k)
total-mul bs [] = (0, omega arith)
total-mul bs (b ∷ blocks) =
    let (k, e) = total-mul bs blocks in
    elim (Bool-cases (b.offset == 0)) [
      | inl end ↦ (0, ground arith)
      | inr more ↦ (b.count + k, ground arith)
    ]

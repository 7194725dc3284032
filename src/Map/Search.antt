-- ===== src/Map/Search.antt =====
-- `map_seek_driver_partition` over the descriptors of a disk.
use emile.Common.{
  ℕ, zero, suc, ◌+◌, ◌^◌, ◌≤◌, ◌<◌, ◌≡◌, ◌≢◌, ◌⊎◌, refl, sym, ap, ◌∙◌, inl, inr, some, true, arith,
  ltb, ◌==◌, Bool-cases,
}
use emile.Common.Words.{read_short, read_long}
use emile.Device.{Device}
use emile.Map.{
  PartitionMap, map_signature, map_blk_cnt, map_get_number, SearchResult, missing, found_at,
  below_number, seek_loop, map_seek_driver_partition,
}
use emile.Map.Read.{descriptor, IsMap, moved_to, map_read-moved}

-- A disk with `number` descriptors, each of which has its signature and says the number, and
-- which the device delivers.
pub record IsMapped (dev : Device) (disk : ℕ → ℕ) (number : ℕ) : Type 0 where
  pub small : number < 2 ^ 31
  pub delivers :
      (part : ℕ)
      → part < number
      → dev.read_sector (1 + part) dev.blocksize ≡ some (descriptor dev disk part)
  pub signed :
      (part : ℕ) → part < number → (read_short (descriptor dev disk part) 0 == map_signature) ≡ true
  pub counts : (part : ℕ) → part < number → read_long (descriptor dev disk part) 4 ≡ number

-- Where the partition of a descriptor begins.
abbrev pub start_of : Device → (ℕ → ℕ) → ℕ → ℕ
start_of dev disk part = read_long (descriptor dev disk part) 8

-- No descriptor from `i` up to `j` is of a partition that begins at `base`.
abbrev pub NoneStarts : Device → (ℕ → ℕ) → ℕ → ℕ → ℕ → Type 0
NoneStarts dev disk base i j = (k : ℕ) → i ≤ k → k < j → start_of dev disk k ≢ base

-- The first descriptor from `i` on whose partition begins at `base` is found and is in memory, or
-- there is none.
abbrev pub Finds : Device → (ℕ → ℕ) → ℕ → PartitionMap → ℕ → ℕ → SearchResult → Type 0
Finds dev disk number map base i r =
    ((part : ℕ) × (r ≡ found_at part (moved_to dev disk map part))
      × (part < number)
      × (start_of dev disk part ≡ base)
      × NoneStarts dev disk base i part)
    ⊎ ((map' : PartitionMap) × (r ≡ missing map') × NoneStarts dev disk base i number)

module _ (dev : Device) (disk : ℕ → ℕ) (number : ℕ) (mapped : IsMapped dev disk number) where
  below_number-ltb :
      (i : ℕ) (map : PartitionMap) → map_blk_cnt map ≡ number → below_number i map ≡ ltb i number
  below_number-ltb i map e =
      let low : ltb (map_blk_cnt map) (2 ^ 31) ≡ true = ground (arith, mapped.small) in
      rw (below_number, map_get_number, low) (ap (ltb i) e)

  -- One descriptor more.
  more :
      {base : ℕ} (i j : ℕ)
      → start_of dev disk i ≢ base
      → NoneStarts dev disk base (i + 1) j
      → NoneStarts dev disk base i j
  more {base} i j other before k le lt here = elim (Bool-cases (k == i)) [
    | inl same ↦ let eq : k ≡ i = ground arith in other (ap (start_of dev disk) (sym eq) ∙ here)
    | inr later ↦ before k (ground arith) lt here
  ]

  Finds-step :
      (map : PartitionMap) (base i : ℕ) (r : SearchResult)
      → start_of dev disk i ≢ base
      → Finds dev disk number (moved_to dev disk map i) base (i + 1) r
      → Finds dev disk number map base i r
  Finds-step map base i r other (inl (part, e, lt, here, before)) =
      inl (part, e, lt, here, more i part other before)
  Finds-step map base i r other (inr (map', e, before)) = inr (map', e, more i number other before)

  seek_loop-Finds :
      (fuel : ℕ) (map : PartitionMap) (base i start : ℕ)
      → number < i + fuel
      → i ≤ number
      → IsMap dev disk map
      → map_blk_cnt map ≡ number
      → Finds dev disk number map base i (seek_loop dev fuel map base i start)
  unfolding seek_loop
  seek_loop-Finds zero map base i start enough le h e = absurd (omega arith)
  seek_loop-Finds (suc fuel) map base i start enough le h e = elim (Bool-cases (ltb i number)) [
    | inl inside ↦
        let lt : i < number = ground arith in
        let next = moved_to dev disk map i in
        let now =
          map_read-moved dev disk map i h (omega (arith, e)) (omega (arith, mapped.small))
            (mapped.delivers i lt) in
        let valid = mapped.signed i lt in
        elim (Bool-cases (base == start_of dev disk i)) [
          | inl here ↦
              rw (seek_loop, below_number-ltb i map e, inside, now, now, valid, here, now)
                (inl (i, refl, lt, ground arith, λ k le' lt'. absurd (omega arith)))
          | inr elsewhere ↦
              rw
                (
                  seek_loop,
                  below_number-ltb i map e,
                  inside,
                  now,
                  now,
                  valid,
                  elsewhere,
                  now,
                  valid,
                )
                (Finds-step map base i _ (ground arith) (
                  seek_loop-Finds fuel next base (i + 1) (start_of dev disk i) (omega arith)
                    (omega arith) (record { loaded = refl }) (mapped.counts i lt)))
        ]
    | inr end ↦
        rw (seek_loop, below_number-ltb i map e, end)
          (inr (map, refl, λ k le' lt'. absurd (ground arith)))
  ]

  -- `map_seek_driver_partition` ends within its fuel. It returns the number of the first descriptor
  -- whose partition begins at the given block, with that descriptor in memory, or -1 if there is
  -- none. It holds for fewer than 2 ^ 31 descriptors, each of which has its signature and says
  -- their number, which the device delivers, with one of them in memory.
  pub map_seek_driver_partition-Finds :
      (map : PartitionMap) (base junk : ℕ)
      → IsMap dev disk map
      → map.current < number
      → Finds dev disk number map base 0 (map_seek_driver_partition dev map base junk)
  unfolding map_seek_driver_partition
  map_seek_driver_partition-Finds map base junk h inside =
      seek_loop-Finds (suc (2 ^ 31)) map base 0 junk (omega (arith, mapped.small)) (omega arith) h
        (ap (λ bytes. read_long bytes 4) h.loaded ∙ mapped.counts map.current inside)

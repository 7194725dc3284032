-- ===== src/Map/Read.antt =====
-- `map_read` and `map_read_sector` against the bytes of the disk.
use emile.Common.{
  ℕ, ◌+◌, ◌*◌, ◌%◌, ◌^◌, ◌≤◌, ◌<◌, ◌≡◌, ◌≢◌, refl, ap, ◌∙◌, inl, inr, Option, some, none, Bytes,
  true, false, arith, ltb, ◌==◌, Bool-cases,
}
use emile.Common.Slice.{slice, slice-eq}
use emile.Device.{Device, Serves}
use emile.Map.{
  PartitionMap, map_partition_is_valid, map_blk_cnt, part_start, map_read, map_read_sector,
}

-- The descriptor with a number, as it is on the disk.
abbrev pub descriptor : Device → (ℕ → ℕ) → ℕ → Bytes
descriptor dev disk part = slice disk ((1 + part) * dev.blocksize) dev.blocksize

-- The current descriptor is in memory.
pub record IsMap (dev : Device) (disk : ℕ → ℕ) (map : PartitionMap) : Type 0 where
  pub loaded : map.partition ≡ descriptor dev disk map.current

-- The map with the descriptor of a number in memory.
abbrev pub moved_to : Device → (ℕ → ℕ) → PartitionMap → ℕ → PartitionMap
moved_to dev disk map part = record map { current = part; partition = descriptor dev disk part }

moved-IsMap :
    (dev : Device) (disk : ℕ → ℕ) (map : PartitionMap) (part : ℕ)
    → IsMap dev disk (moved_to dev disk map part)
moved-IsMap dev disk map part = record { loaded = refl }

-- A descriptor whose number the current one admits is in memory after `map_read`, if the device
-- delivers its block.
pub map_read-moved :
    (dev : Device) (disk : ℕ → ℕ) (map : PartitionMap) (part : ℕ)
    → IsMap dev disk map
    → part ≤ map_blk_cnt map
    → part + 1 < 2 ^ 32
    → dev.read_sector (1 + part) dev.blocksize ≡ some (descriptor dev disk part)
    → map_read dev map part ≡ (true, moved_to dev disk map part)
unfolding map_read
map_read-moved dev disk map part h le fits delivers = elim (Bool-cases (map.current == part)) [
  | inl same ↦ rw same (ground (arith, h.loaded))
  | inr other ↦
      let admitted : ltb (map_blk_cnt map) part ≡ false = ground arith in
      let small : (1 + part) % 2 ^ 32 ≡ 1 + part = omega arith in
      rw (other, admitted, small, delivers) refl
]

-- `map_read_sector` refuses a descriptor without its signature. Else, if it returns bytes, they are
-- those of the disk behind the start of the partition. It holds for a device that serves the disk,
-- and a block number whose sum with the start is below 2 ^ 32.
pub map_read_sector-Serves :
    (dev : Device) (disk : ℕ → ℕ) (map : PartitionMap) (sector n : ℕ)
    → Serves dev disk
    → sector + part_start map < 2 ^ 32
    → (map_partition_is_valid map ≡ false → map_read_sector dev map sector n ≡ none)
      × ((got : Bytes)
          → map_read_sector dev map sector n ≡ some got
          → (map_partition_is_valid map ≡ true)
            × (got
                ≡ slice
                    (λ p. disk (part_start map * dev.blocksize + p))
                    (sector * dev.blocksize)
                    n))
unfolding map_read_sector
map_read_sector-Serves dev disk map sector n serves fits = (
  λ bad. rw bad refl,
  λ got e. elim (Bool-cases (map_partition_is_valid map)) [
    | inl good ↦
        let small : (sector + part_start map) % 2 ^ 32 ≡ sector + part_start map = omega arith in
        (
          good,
          serves (sector + part_start map) n got (rw (good, small) at e)
              ∙ slice-eq disk (λ p. disk (part_start map * dev.blocksize + p))
                  ((sector + part_start map) * dev.blocksize) (sector * dev.blocksize) n
                  (λ i lt. ap disk (omega arith)),
        )
    | inr bad ↦ absurd (refused got (rw bad at e))
  ],
)
  where
    refused : (got : Bytes) → ◌≢◌ {A = Option Bytes} none (some got)
    refused got e = cc

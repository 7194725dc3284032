-- ===== src/Map/Flags.antt =====
-- The flags of a partition.
use emile.Common.{
  ℕ, ◌%◌, ◌^◌, ◌≤◌, ◌<◌, ◌≡◌, ◌⊎◌, refl, Bool, true, false, some, none, arith, if◌then◌else◌,
  length, get_or,
}
use emile.Common.Words.{set_bit, clear_bit, get_or-write_long, read_long-write_long}
use emile.Map.{
  PartitionMap, map_partition_is_valid, map_partition_get_flags, map_partition_set_flags,
  map_partition_is_startup, map_partition_set_startup,
}

-- Another map with the same descriptor but for the flags.
abbrev pub SameButFlags : PartitionMap → PartitionMap → Type 0
SameButFlags map map' =
    (place : ℕ)
    → (place < 88) ⊎ (92 ≤ place)
    → get_or map'.partition place 0 ≡ get_or map.partition place 0

set_flags-get_flags :
    (map : PartitionMap) (flags : ℕ)
    → 91 < length map.partition
    → map_partition_get_flags (map_partition_set_flags map flags) ≡ flags % 2 ^ 32
set_flags-get_flags map flags size = read_long-write_long map.partition 88 flags size

set_flags-SameButFlags :
    (map : PartitionMap) (flags : ℕ) → SameButFlags map (map_partition_set_flags map flags)
set_flags-SameButFlags map flags place out = get_or-write_long map.partition 88 flags place out

-- `map_partition_set_startup` returns -1 for a descriptor without its signature. Else the partition
-- is a startup partition exactly if that is asked for, and all else is left alone: the other 31
-- flags and the other bytes of the descriptor. It holds for a whole descriptor of bytes.
pub map_partition_set_startup-sets :
    (map : PartitionMap) (enable : Bool)
    → 91 < length map.partition
    → map_partition_get_flags map < 2 ^ 32
    → (map_partition_is_valid map ≡ false → map_partition_set_startup map enable ≡ none)
      × (map_partition_is_valid map ≡ true
          → (map' : PartitionMap) × (map_partition_set_startup map enable ≡ some map')
            × (map_partition_is_startup map' ≡ enable)
            × (map_partition_get_flags map' % 2 ^ 31 ≡ map_partition_get_flags map % 2 ^ 31)
            × SameButFlags map map')
unfolding map_partition_set_startup
map_partition_set_startup-sets map enable size word = (
  λ bad. rw bad refl,
  λ good. rw good (_, refl, startup enable, others enable, set_flags-SameButFlags map _),
)
  where
    old : ℕ
    old = map_partition_get_flags map

    new : Bool → ℕ
    new enable = if enable then set_bit 31 old else clear_bit 31 old

    startup :
        (enable : Bool)
        → map_partition_is_startup (map_partition_set_flags map (new enable)) ≡ enable
    startup true = rw (set_flags-get_flags map (new true) size) (ground (arith, word))
    startup false = rw (set_flags-get_flags map (new false) size) (ground (arith, word))

    others :
        (enable : Bool)
        → map_partition_get_flags (map_partition_set_flags map (new enable)) % 2 ^ 31 ≡ old % 2 ^ 31
    others true = rw (set_flags-get_flags map (new true) size) (ground (arith, word))
    others false = rw (set_flags-get_flags map (new false) size) (ground (arith, word))

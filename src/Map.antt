-- ===== src/Map.antt =====
-- libmap: the Apple partition map of a device, and a partition as a device.
pub mod Read
pub mod Drivers
pub mod Flags
pub mod Checksum
pub mod Search
use emile.Common.{
  ℕ, zero, suc, ◌+◌, ◌*◌, ◌/◌, ◌%◌, ◌^◌, Bool, true, false, Option, none, some, Bytes, ltb, ◌==◌,
  if◌then◌else◌, take, [], ◌∷◌,
}
use emile.Common.Int.{ℤ, pos, negsuc, signed32}
use emile.Common.Words.{read_short, read_long, write_long, has_bit, set_bit, clear_bit}
use emile.Device.{Device}

-- `map_t`, less the device. `drivers` is the first block of the device, `partition` the descriptor
-- with number `current`; an `int` is its 32-bit pattern.
pub record PartitionMap : Type 0 where
  pub current : ℕ
  pub drivers : Bytes
  pub partition : Bytes

-- MAP_SIGNATURE
abbrev pub map_signature : ℕ
map_signature = 0x504D

-- Where the fields Sig, MapBlkCnt and PyPartStart of `struct Partition` are.
abbrev pub map_partition_is_valid : PartitionMap → Bool
map_partition_is_valid map = read_short map.partition 0 == map_signature

abbrev pub map_blk_cnt : PartitionMap → ℕ
map_blk_cnt map = read_long map.partition 4

abbrev pub part_start : PartitionMap → ℕ
part_start map = read_long map.partition 8

-- `map_get_number`, as an `int`.
abbrev pub map_get_number : PartitionMap → ℤ
map_get_number map = signed32 (map_blk_cnt map)

-- `map_read`: whether it returns the part, not -1, and the map.
pub map_read : Device → PartitionMap → ℕ → Bool × PartitionMap
map_read dev map part =
    if map.current == part
    then (true, map)
    else if ltb (map_blk_cnt map) part
    then (false, map)
    else elim (dev.read_sector ((1 + part) % 2 ^ 32) dev.blocksize) [
      | none ↦ (false, map)
      | some got ↦ (true, record map { current = part; partition = got })
    ]

-- `map_read_sector`; `none` is the -1.
unfoldable pub map_read_sector : Device → PartitionMap → ℕ → ℕ → Option Bytes
map_read_sector dev map offset size =
    if map_partition_is_valid map
    then dev.read_sector ((offset + part_start map) % 2 ^ 32) size
    else none

-- What a search comes to: -1 or the number of a descriptor, and the map.
pub data SearchResult : Type 0 where
  missing : PartitionMap → SearchResult
  found_at : ℕ → PartitionMap → SearchResult
  unreadable : PartitionMap → SearchResult
  out_of_fuel : SearchResult

-- `i < map_get_number(map)`
abbrev pub below_number : ℕ → PartitionMap → Bool
below_number i map = elim (map_get_number map) [ pos n ↦ ltb i n | negsuc n ↦ false ]

-- `start` after `map_get_partition_geometry`, which leaves it alone for a descriptor without its
-- signature.
abbrev pub geometry_start : PartitionMap → ℕ → ℕ
geometry_start map start = if map_partition_is_valid map then part_start map else start

-- The `for` loop from `i` on, with `start` as it is.
pub seek_loop : Device → ℕ → PartitionMap → ℕ → ℕ → ℕ → SearchResult
seek_loop dev zero map base i start = out_of_fuel
seek_loop dev (suc fuel) map base i start = elim (below_number i map) [
  | false ↦ missing map
  | true ↦
      let (ok, map') = map_read dev map i in
      elim ok [
        | false ↦ unreadable map'
        | true ↦ elim (base == geometry_start map' start) [
          | true ↦ found_at i map'
          | false ↦ seek_loop dev fuel map' base (i + 1) (geometry_start map' start)
        ]
      ]
]

-- `map_seek_driver_partition`, where `start` is not initialised and holds `junk` at first; an `int`
-- is below 2 ^ 31.
unfoldable pub map_seek_driver_partition : Device → PartitionMap → ℕ → ℕ → SearchResult
unfolding seek_loop map_read
map_seek_driver_partition dev map base junk = seek_loop dev (suc (2 ^ 31)) map base 0 junk

-- PartStatus
abbrev pub map_partition_get_flags : PartitionMap → ℕ
map_partition_get_flags map = read_long map.partition 88

abbrev pub map_partition_set_flags : PartitionMap → ℕ → PartitionMap
map_partition_set_flags map flags = record map { partition = write_long map.partition 88 flags }

-- kPartitionAUXIsBootValid is bit 3, kPartitionIsMountedAtStartup bit 30 and kPartitionIsStartup
-- bit 31.
abbrev pub map_partition_is_bootable : PartitionMap → Bool
map_partition_is_bootable map = has_bit 3 (map_partition_get_flags map)

abbrev pub map_partition_is_startup : PartitionMap → Bool
map_partition_is_startup map = has_bit 31 (map_partition_get_flags map)

-- IsValid, IsAllocated, IsInUse, IsReadable, IsWriteable, IsMountedAtStartup and 0x80
abbrev pub bootable_flags : ℕ
bootable_flags = 0x400000B7

-- `none` is the -1.
unfoldable pub map_partition_set_bootable : PartitionMap → Bool → Option PartitionMap
map_partition_set_bootable map enable =
    if map_partition_is_valid map
    then some (
        map_partition_set_flags map
          (if enable then bootable_flags else clear_bit 30 (map_partition_get_flags map)))
    else none

unfoldable pub map_partition_set_startup : PartitionMap → Bool → Option PartitionMap
map_partition_set_startup map enable =
    if map_partition_is_valid map
    then some (
        map_partition_set_flags map (
          if enable
          then set_bit 31 (map_partition_get_flags map)
          else clear_bit 31 (map_partition_get_flags map)))
    else none

-- One round of the loop of `map_checksum`.
abbrev pub rotate : ℕ → ℕ
rotate sum = sum * 2 % 2 ^ 16 + sum / 2 ^ 15

pub sum_bytes : ℕ → Bytes → ℕ
sum_bytes sum [] = sum
sum_bytes sum (b ∷ bytes) = sum_bytes (rotate ((sum + b) % 2 ^ 16)) bytes

-- The end of `map_checksum`.
abbrev pub nonzero : ℕ → ℕ
nonzero sum = if sum == 0 then 0xFFFF else sum

-- `map_checksum` of memory that holds at least `length` bytes.
unfoldable pub map_checksum : Bytes → ℕ → ℕ
unfolding sum_bytes
map_checksum addr length = nonzero (sum_bytes 0 (take (length % 2 ^ 16) addr))

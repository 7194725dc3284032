-- ===== src/Tests/Partitions.antt =====
-- A partition map of two descriptors.
use emile.Common.{
  ℕ, zero, suc, ◌+◌, ◌*◌, ◌%◌, ◌^◌, ◌<◌, ◌≤◌, ◌≡◌, ◌⊎◌, refl, true, false, some, none, [], ◌∷◌,
  ◌++◌, Bytes, arith, get_or, ◌==◌, ltb, ◌-◌, if◌then◌else◌,
}
use emile.Common.Slice.{slice}
use emile.Common.Words.{read_short, read_long}
use emile.Device.{Device, Serves}
use emile.Map.{
  PartitionMap, map_signature, map_partition_is_valid, map_partition_get_flags,
  map_partition_is_startup, map_read_sector, map_seek_driver_partition, found_at,
  map_partition_set_startup, map_checksum,
}
use emile.Map.Read.{descriptor, moved_to, map_read_sector-Serves}
use emile.Map.Search.{IsMapped, Finds, map_seek_driver_partition-Finds}
use emile.Map.Flags.{SameButFlags, map_partition_set_startup-sets}
use emile.Map.Drivers.{
  DriverInfo, map_is_valid, dd_max_driver, map_set_driver_info, drvr_count, map_get_driver_info,
  drv_info, cut, map_set_driver_info-map_get_driver_info,
}
use emile.Map.Checksum.{map_checksum-detects}

-- The first bytes of the descriptors of partitions at blocks 9 and 20, in blocks of 16 bytes.
abbrev descriptors : Bytes
descriptors =
    0x50 ∷ 0x4D ∷ 0 ∷ 0 ∷ 0 ∷ 0 ∷ 0 ∷ 2 ∷ 0 ∷ 0 ∷ 0 ∷ 9 ∷ 0 ∷ 0 ∷ 0 ∷ 11 ∷ 0x50 ∷ 0x4D ∷ 0 ∷ 0 ∷ 0
    ∷ 0 ∷ 0 ∷ 2 ∷ 0 ∷ 0 ∷ 0 ∷ 20 ∷ 0 ∷ 0 ∷ 0 ∷ 5 ∷ []

abbrev disk : ℕ → ℕ
disk p = if ltb p 16 then 0 else get_or descriptors (p - 16) p

abbrev disk_device : Device
disk_device = record { blocksize = 16; read_sector = λ sector n. some (slice disk (sector * 16) n) }

abbrev map : PartitionMap
map = record { current = 0; drivers = []; partition = slice disk 16 16 }

serves : Serves disk_device disk
serves sector n got e = cc

-- The second partition begins at block 20.
search_runs :
    map_seek_driver_partition disk_device map 20 77 ≡ found_at 1 (moved_to disk_device disk map 1)
unfolding map_seek_driver_partition
search_runs = refl

map_read_sector_example :
    (map_partition_is_valid map ≡ false → map_read_sector disk_device map 3 16 ≡ none)
    × ((got : Bytes)
        → map_read_sector disk_device map 3 16 ≡ some got
        → (map_partition_is_valid map ≡ true) × (got ≡ slice (λ p. disk (9 * 16 + p)) (3 * 16) 16))
map_read_sector_example = map_read_sector-Serves disk_device disk map 3 16 serves (omega arith)

disk-IsMapped : IsMapped disk_device disk 2
disk-IsMapped = record {
  small = omega arith;
  delivers = λ part lt. refl;
  signed = signed;
  counts = counts;
}
  where
    signed :
        (part : ℕ)
        → part < 2
        → (read_short (descriptor disk_device disk part) 0 == map_signature) ≡ true
    signed zero lt = refl
    signed (suc zero) lt = refl
    signed (suc (suc part)) lt = absurd (omega arith)

    counts : (part : ℕ) → part < 2 → read_long (descriptor disk_device disk part) 4 ≡ 2
    counts zero lt = refl
    counts (suc zero) lt = refl
    counts (suc (suc part)) lt = absurd (omega arith)

map_seek_driver_partition_example :
    Finds disk_device disk 2 map 20 0 (map_seek_driver_partition disk_device map 20 77)
map_seek_driver_partition_example =
    map_seek_driver_partition-Finds disk_device disk 2 disk-IsMapped map 20 77
      (record { loaded = refl }) (omega arith)

-- A descriptor up to its flags, 0x40000033.
abbrev flagged : PartitionMap
flagged = record {
  current = 0;
  drivers = [];
  partition = 0x50 ∷ 0x4D ∷ slice (λ p. 0) 2 86 ++ 0x40 ∷ 0 ∷ 0 ∷ 0x33 ∷ [];
}

map_partition_set_startup_example :
    (map_partition_is_valid flagged ≡ false → map_partition_set_startup flagged true ≡ none)
    × (map_partition_is_valid flagged ≡ true
        → (map' : PartitionMap) × (map_partition_set_startup flagged true ≡ some map')
          × (map_partition_is_startup map' ≡ true)
          × (map_partition_get_flags map' % 2 ^ 31 ≡ map_partition_get_flags flagged % 2 ^ 31)
          × SameButFlags flagged map')
map_partition_set_startup_example =
    map_partition_set_startup-sets flagged true (omega arith) (omega arith)

map_checksum_example :
    (map_checksum (1 ∷ 3 ∷ 2 ∷ []) 3 < 2 ^ 16)
    × (0 < map_checksum (1 ∷ 3 ∷ 2 ∷ []) 3)
    × (map_checksum (1 ∷ 3 ∷ 2 ∷ []) 3 ≡ map_checksum (1 ∷ 4 ∷ 2 ∷ []) 3
        → (◌≡◌ {A = ℕ} 3 4) ⊎ (map_checksum (1 ∷ 3 ∷ 2 ∷ []) 3 ≡ 0xFFFF))
map_checksum_example =
    map_checksum-detects (1 ∷ []) (2 ∷ []) 3 4 3 (omega arith) (omega arith) refl refl (omega arith)

-- Block 0 with its signature and three drivers.
abbrev listing : PartitionMap
listing = record {
  current = 0;
  drivers = 0x45 ∷ 0x52 ∷ slice (λ p. 0) 2 14 ++ 0 ∷ 3 ∷ slice (λ p. p) 18 494;
  partition = [];
}

abbrev info : DriverInfo
info = record { block = 64; size = 19; type = 0xFFFF }

map_set_driver_info_example :
    ((map_is_valid listing ≡ false) ⊎ (dd_max_driver ≤ 2)
      → map_set_driver_info listing 2 info ≡ none)
    × (map_is_valid listing ≡ true
        → 2 < dd_max_driver
        → (map' : PartitionMap) × (map_set_driver_info listing 2 info ≡ some map')
          × (2 ≤ drvr_count listing → map_get_driver_info map' 2 ≡ some (cut info))
          × ((place : ℕ)
              → (place < drv_info 2) ⊎ (drv_info 2 + 8 ≤ place)
              → get_or map'.drivers place 0 ≡ get_or listing.drivers place 0))
map_set_driver_info_example = map_set_driver_info-map_get_driver_info listing 2 info refl

-- ===== src/Map/Drivers.antt =====
-- libmap: the drivers that block 0 lists (map_is_valid.c, map_get_driver_number.c,
-- map_get_driver_info.c and map_set_driver_info.c).
use emile.Common.{
  ℕ, ◌+◌, ◌*◌, ◌%◌, ◌^◌, ◌≤◌, ◌<◌, ◌≡◌, ◌⊎◌, refl, ◌∙◌, inl, inr, Bool, true, false, Option, some,
  none, Bytes, arith, ltb, leb, ◌==◌, if◌then◌else◌, length, get_or,
}
use emile.Common.Words.{
  read_short, read_long, write_short, write_long, read_short_frame, read_short-write_short,
  read_long-write_long, get_or-write_short, get_or-write_long, length-write_short,
  length-write_long,
}
use emile.Map.{PartitionMap}

-- DD_SIGNATURE and DD_MAX_DRIVER of libmap.h
abbrev pub dd_signature : ℕ
dd_signature = 0x4552

abbrev pub dd_max_driver : ℕ
dd_max_driver = 61

-- Sig, DrvrCount and DrvInfo[number] of `struct DriverDescriptor`.
abbrev pub map_is_valid : PartitionMap → Bool
map_is_valid map = read_short map.drivers 0 == dd_signature

abbrev pub drvr_count : PartitionMap → ℕ
drvr_count map = read_short map.drivers 16

abbrev pub drv_info : ℕ → ℕ
drv_info number = 18 + 8 * number

-- `map_get_driver_number`; `none` is the -1.
abbrev pub map_get_driver_number : PartitionMap → Option ℕ
map_get_driver_number map = if map_is_valid map then some (drvr_count map) else none

-- Block, Size and Type
pub record DriverInfo : Type 0 where
  pub block : ℕ
  pub size : ℕ
  pub type : ℕ

-- `map_get_driver_info` of a number that is not negative.
unfoldable pub map_get_driver_info : PartitionMap → ℕ → Option DriverInfo
map_get_driver_info map number =
    if map_is_valid map
    then (if ltb (drvr_count map) number
        then none
        else some (record {
          block = read_long map.drivers (drv_info number);
          size = read_short map.drivers (drv_info number + 4);
          type = read_short map.drivers (drv_info number + 6);
        }))
    else none

abbrev pub write_info : Bytes → ℕ → DriverInfo → Bytes
write_info drivers at info =
    write_short (write_short (write_long drivers at info.block) (at + 4) info.size) (at + 6)
      info.type

-- `map_set_driver_info` of a number that is not negative.
unfoldable pub map_set_driver_info : PartitionMap → ℕ → DriverInfo → Option PartitionMap
map_set_driver_info map number info =
    if map_is_valid map
    then (if leb dd_max_driver number
        then none
        else some (record map { drivers = write_info map.drivers (drv_info number) info }))
    else none

get_or-write_info :
    (drivers : Bytes) (at place : ℕ) (info : DriverInfo)
    → (place < at) ⊎ (at + 8 ≤ place)
    → get_or (write_info drivers at info) place 0 ≡ get_or drivers place 0
get_or-write_info drivers at place info out =
    get_or-write_short (write_short (write_long drivers at info.block) (at + 4) info.size) (at + 6)
      info.type place (λ e. ground (arith, out)) (λ e. ground (arith, out))
    ∙ get_or-write_short (write_long drivers at info.block) (at + 4) info.size place
        (λ e. ground (arith, out)) (λ e. ground (arith, out))
    ∙ get_or-write_long drivers at info.block place (ground (arith, out))

read_short-write_info :
    (drivers : Bytes) (at place : ℕ) (info : DriverInfo)
    → (place + 1 < at) ⊎ (at + 8 ≤ place)
    → read_short (write_info drivers at info) place ≡ read_short drivers place
read_short-write_info drivers at place info out =
    rw
      (
        get_or-write_info drivers at place info (ground (arith, out)),
        get_or-write_info drivers at (place + 1) info (ground (arith, out)),
      )
      refl

-- The three numbers of an entry are read as they were written.
read_info :
    (drivers : Bytes) (at : ℕ) (info : DriverInfo)
    → at + 7 < length drivers
    → (read_long (write_info drivers at info) at ≡ info.block % 2 ^ 32)
      × (read_short (write_info drivers at info) (at + 4) ≡ info.size % 2 ^ 16)
      × (read_short (write_info drivers at info) (at + 6) ≡ info.type % 2 ^ 16)
read_info drivers at info inside =
    let first = write_long drivers at info.block in
    let second = write_short first (at + 4) info.size in
    let size_first : length first ≡ length drivers = length-write_long drivers at info.block in
    let size_second : length second ≡ length first = length-write_short first (at + 4) info.size in
    (
      rw
          (
            read_short_frame second (at + 6) info.type at (inl (omega arith)),
            read_short_frame second (at + 6) info.type (at + 2) (inl (omega arith)),
            read_short_frame first (at + 4) info.size at (inl (omega arith)),
            read_short_frame first (at + 4) info.size (at + 2) (inl (omega arith)),
          )
          (read_long-write_long drivers at info.block (omega arith)),
      read_short_frame second (at + 6) info.type (at + 4) (inl (omega arith))
          ∙ read_short-write_short first (at + 4) info.size (omega (arith, size_first)),
      read_short-write_short second (at + 6) info.type (omega (arith, size_first, size_second)),
    )

abbrev pub cut : DriverInfo → DriverInfo
cut info = record {
  block = info.block % 2 ^ 32;
  size = info.size % 2 ^ 16;
  type = info.type % 2 ^ 16;
}

-- `map_set_driver_info` returns -1 for a block 0 without its signature and for a number from 61 on.
-- Else `map_get_driver_info` of the new map returns, for a number up to the count of drivers, the
-- block, the size and the type that were set, as far as they fit 32, 16 and 16 bits; and no byte in
-- front of the entry or behind it changes. It holds for a whole block 0 of 512 bytes.
pub map_set_driver_info-map_get_driver_info :
    (map : PartitionMap) (number : ℕ) (info : DriverInfo)
    → length map.drivers ≡ 512
    → ((map_is_valid map ≡ false) ⊎ (dd_max_driver ≤ number)
        → map_set_driver_info map number info ≡ none)
      × (map_is_valid map ≡ true
          → number < dd_max_driver
          → (map' : PartitionMap) × (map_set_driver_info map number info ≡ some map')
            × (number ≤ drvr_count map → map_get_driver_info map' number ≡ some (cut info))
            × ((place : ℕ)
                → (place < drv_info number) ⊎ (drv_info number + 8 ≤ place)
                → get_or map'.drivers place 0 ≡ get_or map.drivers place 0))
unfolding map_set_driver_info map_get_driver_info
map_set_driver_info-map_get_driver_info map number info size = (
  refused,
  λ good few.
      let (e1, e2, e3) = read_info map.drivers (drv_info number) info (omega (arith, size)) in
      let in_table : leb dd_max_driver number ≡ false = ground arith in
      let map' = record map { drivers = write_info map.drivers (drv_info number) info } in
      let valid : map_is_valid map' ≡ true =
        rw (read_short-write_info map.drivers (drv_info number) 0 info (inl (omega arith))) good in
      let same : drvr_count map' ≡ drvr_count map =
        read_short-write_info map.drivers (drv_info number) 16 info (inl (omega arith)) in
      rw (good, in_table)
        (
          map',
          refl,
          got map' valid same e1 e2 e3,
          λ place out. get_or-write_info map.drivers (drv_info number) place info out,
        ),
)
  where
    refused :
        (map_is_valid map ≡ false) ⊎ (dd_max_driver ≤ number)
        → map_set_driver_info map number info ≡ none
    refused (inl bad) = rw bad refl
    refused (inr many) = ground (arith, many)

    got :
        (map' : PartitionMap)
        → map_is_valid map' ≡ true
        → drvr_count map' ≡ drvr_count map
        → read_long map'.drivers (drv_info number) ≡ info.block % 2 ^ 32
        → read_short map'.drivers (drv_info number + 4) ≡ info.size % 2 ^ 16
        → read_short map'.drivers (drv_info number + 6) ≡ info.type % 2 ^ 16
        → number ≤ drvr_count map
        → map_get_driver_info map' number ≡ some (cut info)
    got map' valid same e1 e2 e3 le =
        let listed : ltb (drvr_count map') number ≡ false = ground (arith, same) in
        rw (valid, listed, e1, e2, e3) refl

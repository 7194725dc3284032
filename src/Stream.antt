-- ===== src/Stream.antt =====
-- libstream: which device and which file system a path names, and how a stream is opened and closed
-- (libstream/stream_open.c, stream_close.c).
pub mod Path
pub mod Resources
use emile.Common.{
  ℕ, zero, suc, ◌+◌, ◌-◌, ◌*◌, Bool, true, false, ◌&&◌, Option, none, some, [], ◌∷◌, Bytes, leb,
  ◌==◌, if◌then◌else◌, drop, length,
}
use emile.Common.Int.{ℤ, pos, negsuc}
use emile.Unix.{head_byte, tail_bytes, strncmp}

-- Which of FLOPPY_SUPPORT and its like are defined.
pub record Support : Type 0 where
  pub floppy : Bool
  pub scsi : Bool
  pub map : Bool
  pub block : Bool
  pub container : Bool
  pub iso9660 : Bool
  pub ext2 : Bool

-- `device_t`
pub data DeviceId : Type 0 where
  floppy scsi : DeviceId

-- `fs_t`; `unspecified` is fs_NONE.
pub data FileSystem : Type 0 where
  ext2 iso9660 container block unspecified : FileSystem

-- `strncmp(word, path, n) == 0` at a word of `n` bytes
abbrev pub starts : Bytes → Bytes → Bool
starts word path = elim (strncmp word path (length word)) [ pos zero ↦ true | _ ↦ false ]

abbrev pub block_word : Bytes
block_word = b'b' ∷ b'l' ∷ b'o' ∷ b'c' ∷ b'k' ∷ b':' ∷ []

abbrev pub container_word : Bytes
container_word = b'c' ∷ b'o' ∷ b'n' ∷ b't' ∷ b'a' ∷ b'i' ∷ b'n' ∷ b'e' ∷ b'r' ∷ b':' ∷ []

abbrev pub iso9660_word : Bytes
iso9660_word = b'i' ∷ b's' ∷ b'o' ∷ b'9' ∷ b'6' ∷ b'6' ∷ b'0' ∷ b':' ∷ []

abbrev pub ext2_word : Bytes
ext2_word = b'e' ∷ b'x' ∷ b't' ∷ b'2' ∷ b':' ∷ []

unfoldable pub get_fs : Support → Bytes → FileSystem × Bytes
unfolding strncmp
get_fs support path =
    if support.block && starts block_word path
    then (block, drop 6 path)
    else if support.container && starts container_word path
    then (container, drop 10 path)
    else if support.iso9660 && starts iso9660_word path
    then (iso9660, drop 8 path)
    else if support.ext2 && starts ext2_word path
    then (ext2, drop 5 path)
    else (unspecified, path)

-- The loop over digits, from a number on. An `int` that overflows is not modelled.
pub read_number : ℕ → Bytes → ℕ × Bytes
read_number nb [] = (nb, [])
read_number nb (c ∷ path) = elim (leb b'0' c && leb c b'9') [
  | true ↦ read_number (nb * 10 + (c - b'0')) path
  | false ↦ (nb, c ∷ path)
]

-- What `get_device` finds. The path behind it is `none` if the pointer stands behind the final 0.
pub record Target : Type 0 where
  pub device : DeviceId
  pub unit : ℕ
  pub partition : Option ℕ
  pub path : Option Bytes

-- `if ( (*path == 0) || (*path == ')') ) { path++; return path; }`
abbrev pub at_end : Bytes → Option (Option Bytes)
at_end [] = some none
at_end (c ∷ path) = if c == b')' then some (some path) else none

-- From the unit on.
pub get_unit : DeviceId → Bytes → Option Target
unfolding read_number
get_unit device path =
    let (unit, behind) = read_number 0 path in
    elim (at_end behind) [
      | some rest ↦ some (record { device = device; unit = unit; partition = none; path = rest })
      | none ↦
          if head_byte behind == b','
          then (let (partition, behind') = read_number 0 (tail_bytes behind) in
              elim (at_end behind') [
                | some rest ↦ some (record {
                  device = device;
                  unit = unit;
                  partition = some partition;
                  path = rest;
                })
                | none ↦ none
              ])
          else none
    ]

-- `get_device`; `default_unit` is `none` for -1.
unfoldable pub get_device : Support → Option ℕ → Bytes → Option Target
unfolding get_unit strncmp
get_device support default_unit path =
    if head_byte path == b'('
    then (let inner = tail_bytes path in
        if support.floppy && starts (b'f' ∷ b'd' ∷ []) inner
        then get_unit floppy (drop 2 inner)
        else if support.scsi && starts (b's' ∷ b'd' ∷ []) inner
        then get_unit scsi (drop 2 inner)
        else none)
    else elim default_unit [
      | none ↦ none
      | some unit ↦ some (record { device = scsi; unit = unit; partition = none; path = some path })
    ]

-- What the drivers and the file systems answer: whether malloc, floppy_open, scsi_open, map_open and
-- map_read in map_init, the tests of ext2_init and iso9660_init, and the mount, open and umount of a file system succeed.
pub record Host : Type 0 where
  pub malloc : Bool
  pub floppy_open : ℕ → Bool
  pub scsi_open : ℕ → Bool
  pub map_open : Bool
  pub map_read : ℕ → Bool
  pub is_ext2 : Bool
  pub is_iso9660 : Bool
  pub mount : FileSystem → Bool
  pub open_file : FileSystem → Option Bytes → Bool
  pub umount : FileSystem → Bool

-- What is held: the memory of the stream, the device, the volume and the file.
pub record Held : Type 0 where
  pub memory : Bool
  pub device : Bool
  pub volume : Bool
  pub file : Bool

-- `stream_t`, with the file system whose functions it has.
pub record Stream : Type 0 where
  pub fs_id : FileSystem
  pub target : Target
  pub functions : FileSystem

-- What `stream_open` comes to: NULL; NULL after `device.close` of a pointer that was never set; a
-- second `free` of the record of the device in `map_close`; a stream; a write through the NULL of
-- `malloc`.
pub data Outcome : Type 0 where
  null : Held → Outcome
  junk_closed : Held → Outcome
  freed_twice : Held → Outcome
  opened : Stream → Held → Outcome
  null_write : Outcome

-- `free(stream)` and `stream->device.close(stream->device.data)`
abbrev pub free_stream : Held → Held
free_stream held = record held { memory = false }

abbrev pub close_device : Held → Held
close_device held = record held { device = false }

abbrev pub unmount : Held → Held
unmount held = record held { volume = false }

abbrev pub has_partition : Target → Bool
has_partition target = elim target.partition [ none ↦ false | some partition ↦ true ]

-- Behind a failure: `device.close`, `free(stream)` and NULL. With a partition, `device.close` is
-- `map_close`: its call of the `close` of the driver frees the record of the device, the device is
-- not given back, and then it frees the record itself.
abbrev pub give_up : Target → Held → Outcome
give_up target held =
    if has_partition target
    then freed_twice (free_stream held)
    else null (free_stream (close_device held))

-- The second `switch`: the file system whose functions are set, or -1.
abbrev pub init_fs : Host → Support → FileSystem → Option FileSystem
init_fs host support ext2 = if host.is_ext2 then some ext2 else none
init_fs host support iso9660 = if host.is_iso9660 then some iso9660 else none
init_fs host support container = some container
init_fs host support block = some block
init_fs host support unspecified =
    if support.ext2 && host.is_ext2
    then some ext2
    else if support.iso9660 && host.is_iso9660
    then some iso9660
    else none

-- From the second `switch` on.
abbrev pub open_on_medium : Host → Support → FileSystem → Target → Held → Outcome
open_on_medium host support fs target held = elim (init_fs host support fs) [
  | none ↦ give_up target held
  | some functions ↦
      if host.mount functions
      then (let mounted = record held { volume = true } in
          if host.open_file functions target.path
          then opened (record { fs_id = fs; target = target; functions = functions })
              (record mounted { file = true })
          else give_up target (unmount mounted))
      else give_up target held
]

-- From the test of the partition on, with an open device.
abbrev pub open_on_device : Host → Support → FileSystem → Target → Held → Outcome
open_on_device host support fs target held = elim target.partition [
  | none ↦ open_on_medium host support fs target held
  | some partition ↦
      if support.map
      then (if host.map_open
          then (if host.map_read partition
              then open_on_medium host support fs target held
              else freed_twice (free_stream held))
          else junk_closed (free_stream held))
      else null (free_stream (close_device held))
]

-- From the first `switch` on, with the memory of the stream.
abbrev pub open_with_memory : Host → Support → FileSystem → Target → Held → Outcome
open_with_memory host support fs target held = elim target.device [
  | floppy ↦ elim target.partition [
    | some partition ↦ null (free_stream held)
    | none ↦
        if host.floppy_open target.unit
        then open_on_device host support fs target (record held { device = true })
        else null (free_stream held)
  ]
  | scsi ↦
      if support.scsi
      then (if host.scsi_open target.unit
          then open_on_device host support fs target (record held { device = true })
          else null (free_stream held))
      else null (free_stream held)
]

abbrev pub nothing_held : Held
nothing_held = record { memory = false; device = false; volume = false; file = false }

unfoldable pub stream_open : Host → Support → Option ℕ → Bytes → Outcome
unfolding get_fs get_device
stream_open host support default_unit dev =
    let (fs, path) = get_fs support dev in
    elim (get_device support default_unit path) [
      | none ↦ null nothing_held
      | some target ↦
          if host.malloc
          then open_with_memory host support fs target (record nothing_held { memory = true })
          else null_write
    ]

-- What `stream_close` comes to: 0, -1, or the second `free` of `map_close`, with what is held then
pub data Closing : Type 0 where
  closed : Held → Closing
  kept_open : Held → Closing
  closed_twice : Held → Closing

unfoldable pub stream_close : Host → Stream → Held → Closing
stream_close host stream held =
    let behind = record held { file = false } in
    if host.umount stream.functions
    then (if has_partition stream.target
        then closed_twice (unmount behind)
        else closed (free_stream (close_device (unmount behind))))
    else kept_open behind

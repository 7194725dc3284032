-- ===== src/Iso.antt =====
-- libiso9660: reading and seeking in a file, whose extents of 2048 bytes follow one another.
pub mod Read
pub mod Seek
pub mod Directory
pub mod Open
use emile.Common.{
  ℕ, zero, suc, ◌+◌, ◌-◌, ◌*◌, ◌/◌, ◌%◌, ◌^◌, Bool, true, false, ◌&&◌, Option, none, some, ◌++◌, [],
  Bytes, ltb, leb, ◌==◌, if◌then◌else◌, take, drop, length,
}
use emile.Common.Int.{ℤ, pos, negsuc, ◌+ℤ◌, word32, signed32}
use emile.Common.Slice.{slice}
use emile.Device.{Device, Whence, seek_set, seek_cur, seek_end}

-- `iso9660_FILE`, less the volume. `current` is `none` for -1.
pub record IsoFile : Type 0 where
  pub base : ℕ
  pub size : ℕ
  pub offset : ℕ
  pub current : Option ℕ
  pub buffer : Bytes

-- `ISO9660_EXTENT_SIZE`
abbrev pub extent_size : ℕ
extent_size = 2048

-- `offset_extent` and `offset_index`
abbrev pub offset_extent : IsoFile → ℕ
offset_extent file = file.base + file.offset / extent_size

abbrev pub offset_index : IsoFile → ℕ
offset_index file = file.offset % extent_size

abbrev pub is_current : IsoFile → Bool
is_current file = elim file.current [ none ↦ false | some c ↦ c == offset_extent file ]

-- The results of `read_sector` are not looked at: after a failed read the memory is what it was.
abbrev pub fetch : Device → ℕ → ℕ → Bytes → Bytes
fetch dev sector n before = elim (dev.read_sector sector n) [ none ↦ before | some got ↦ got ]

-- The end of the loop body: a part of the buffered extent.
pub copy_part : IsoFile → ℕ → Bytes
copy_part file count =
    let part = extent_size - offset_index file in
    take (if ltb count part then count else part) (drop (offset_index file) file.buffer)

pub part_size : IsoFile → ℕ → ℕ
part_size file count =
    let part = extent_size - offset_index file in if ltb count part then count else part

-- The file with the extent of its offset in the buffer.
pub load_extent : Device → IsoFile → IsoFile
load_extent dev file = if is_current file then file else record file {
  current = some (offset_extent file);
  buffer = fetch dev (offset_extent file) extent_size file.buffer;
}

-- The test for "direct i/o" of whole extents.
abbrev pub is_direct : IsoFile → ℕ → Bool
is_direct file count =
    (if is_current file then false else true) && (offset_index file == 0 && leb extent_size count)

-- One round of the loop with `read` bytes stored in memory that held `old`: the bytes that it
-- stores, and the file.
pub round : Device → (ℕ → ℕ) → IsoFile → ℕ → ℕ → Bytes × IsoFile
round dev old file count read =
    if is_direct file count
    then (let part = count / extent_size * extent_size in
        (
          fetch dev (offset_extent file) part (slice old read part),
          record file { offset = file.offset + part },
        ))
    else (let loaded = load_extent dev file in
        (copy_part loaded count, record loaded { offset = file.offset + part_size file count }))

-- What a round takes from `count`.
abbrev pub round_size : IsoFile → ℕ → ℕ
round_size file count =
    if is_direct file count then count / extent_size * extent_size else part_size file count

-- `while (count > 0)`; `none` if the fuel runs out.
pub read_loop : Device → (ℕ → ℕ) → ℕ → IsoFile → ℕ → Bytes → Option (Bytes × IsoFile)
read_loop dev old zero file count done = none
read_loop dev old (suc fuel) file count done = elim (count == 0) [
  | true ↦ some (done, file)
  | false ↦
      let (bytes, file') = round dev old file count (length done) in
      read_loop dev old fuel file' (count - round_size file count) (done ++ bytes)
]

-- `file->size - file->offset` as a size_t
abbrev pub rest_of : IsoFile → ℕ
rest_of file = (file.size + 2 ^ 32 - file.offset) % 2 ^ 32

-- `iso9660_read`: the bytes stored, whose number it returns, and the file.
unfoldable pub iso9660_read : Device → (ℕ → ℕ) → IsoFile → ℕ → Option (Bytes × IsoFile)
unfolding read_loop round load_extent copy_part part_size
iso9660_read dev old file count =
    let count' = (if ltb (rest_of file) count then rest_of file else count) in
    read_loop dev old (suc count') file count' []

unfoldable pub seek_to : IsoFile → ℤ → ℤ × IsoFile
seek_to file (negsuc n) = (negsuc 0, file)
seek_to file (pos n) =
    if ltb file.size n then (negsuc 0, file) else (pos n, record file { offset = n })

unfoldable pub iso9660_lseek : IsoFile → ℤ → Whence → ℤ × IsoFile
unfolding seek_to
iso9660_lseek file offset seek_set = seek_to file (signed32 (word32 offset))
iso9660_lseek file offset seek_cur = seek_to file (signed32 (word32 (pos file.offset +ℤ offset)))
iso9660_lseek file offset seek_end = seek_to file (signed32 (word32 (pos file.size +ℤ offset)))

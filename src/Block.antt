-- ===== src/Block.antt =====
-- libblock: a range of the blocks of a device as a file, read through a buffer of 36 blocks.
pub mod Read
use emile.Common.{
  ℕ, zero, suc, ◌+◌, ◌-◌, ◌*◌, ◌/◌, ◌%◌, ◌^◌, Bool, true, false, not, ◌&&◌, Option, none, some, [],
  ◌++◌, Bytes, ltb, ◌==◌, if◌then◌else◌, take, drop, length,
}
use emile.Common.Int.{ℤ, pos, negsuc, ◌+ℤ◌, word32, signed32}
use emile.Device.{Device, Whence, seek_set, seek_cur, seek_end}
use emile.Unix.{head_byte, tail_bytes, strtol}

-- `block_FILE`, less the device. `size` and `current` are `none` for -1.
pub record BlockFile : Type 0 where
  pub base : ℕ
  pub offset : ℕ
  pub size : Option ℕ
  pub current : Option ℕ
  pub buffer_size : ℕ
  pub buffer : Bytes

-- `NB_SECTORS`
abbrev pub nb_sectors : ℕ
nb_sectors = 36

-- The group of `buffer_size` blocks that holds the offset, and the place of the offset in it. The
-- products of `(base - block_nb * buffer_size) * blocksize` are taken apart, since the difference
-- may be negative before `offset` is added.
abbrev pub block_nb : ℕ → BlockFile → ℕ
block_nb bs file = (file.base + file.offset / bs) / file.buffer_size

abbrev pub block_offset : ℕ → BlockFile → ℕ
block_offset bs file = file.base * bs + file.offset - block_nb bs file * file.buffer_size * bs

-- `block_nb == file->current`
abbrev pub is_current : BlockFile → ℕ → Bool
is_current file nb = elim file.current [ none ↦ false | some c ↦ c == nb ]

-- The file after the read of the group into the buffer; `none` if the read fails.
pub load_group : Device → BlockFile → Option BlockFile
load_group dev file =
    let nb = block_nb dev.blocksize file in
    if is_current file nb
    then some file
    else elim (dev.read_sector (nb * file.buffer_size) (file.buffer_size * dev.blocksize)) [
      | none ↦ none
      | some got ↦ some (record file { current = some nb; buffer = got })
    ]

pub part_size : ℕ → BlockFile → ℕ → ℕ
part_size bs file size =
    let part = file.buffer_size * bs - block_offset bs file in if ltb size part then size else part

-- What a call of `block_read` comes to: the bytes stored, whose number it returns, and the file.
-- `overflow` is a sum of ints that is undefined in C.
pub data ReadOutcome : Type 0 where
  returned : Bytes → BlockFile → ReadOutcome
  overflow : ReadOutcome
  out_of_fuel : ReadOutcome

-- The ints of a round that copies `part` bytes: a block number, the size of the buffer, the offset
-- and the number of bytes read.
abbrev pub ints_fit : ℕ → BlockFile → ℕ → ℕ → Bool
ints_fit bs file part read =
    ltb (file.base + file.offset / bs) (2 ^ 31)
    && ltb (file.buffer_size * bs) (2 ^ 31)
    && ltb (file.offset + part) (2 ^ 31)
    && ltb (read + part) (2 ^ 31)

-- `while (size != 0)`, with the bytes stored so far.
pub read_loop : Device → ℕ → BlockFile → ℕ → Bytes → ReadOutcome
read_loop dev zero file size done = out_of_fuel
read_loop dev (suc fuel) file size done = elim (size == 0) [
  | true ↦ returned done file
  | false ↦ elim (load_group dev file) [
    | none ↦ returned done file
    | some loaded ↦
        let part = part_size dev.blocksize file size in
        elim (ints_fit dev.blocksize file part (length done)) [
          | false ↦ overflow
          | true ↦
              read_loop dev fuel (record loaded { offset = loaded.offset + part }) (size - part)
                (done ++ take part (drop (block_offset dev.blocksize file) loaded.buffer))
        ]
  ]
]

unfoldable pub block_read : Device → BlockFile → ℕ → ReadOutcome
unfolding read_loop load_group part_size
block_read dev file size = read_loop dev (suc size) file size []

-- The path is "<first>" or "<first>,<size>"; `malloc` says which sizes can be had.
open_at : Device → (ℕ → Bool) → ℕ → Option ℕ → Option BlockFile
open_at dev malloc first size =
    if malloc (24 + nb_sectors * dev.blocksize)
    then some (record {
      base = first;
      offset = 0;
      size = size;
      current = none;
      buffer_size = nb_sectors;
      buffer = [];
    })
    else none

unfoldable pub block_open : Device → (ℕ → Bool) → Bytes → Option BlockFile
unfolding open_at
block_open dev malloc path =
    let (first, behind) = strtol path 0 in
    if head_byte behind == b','
    then (let (size, rest) = strtol (tail_bytes behind) 0 in
        if not (head_byte rest == 0)
        then none
        else open_at dev malloc first (if size == 2 ^ 32 - 1 then none else some size))
    else if head_byte behind == 0
    then open_at dev malloc first none
    else none

unfoldable pub seek_to : BlockFile → ℤ → ℤ × BlockFile
seek_to file (negsuc n) = (negsuc 0, file)
seek_to file (pos n) = (pos n, record file { offset = n })

unfoldable pub block_lseek : BlockFile → ℤ → Whence → ℤ × BlockFile
unfolding seek_to
block_lseek file offset seek_set = seek_to file (signed32 (word32 offset))
block_lseek file offset seek_cur = seek_to file (signed32 (word32 (pos file.offset +ℤ offset)))
block_lseek file offset seek_end = (negsuc 0, file)

-- `block_fstat` with a buffer.
unfoldable pub block_fstat : BlockFile → Option ℕ
block_fstat file = file.size

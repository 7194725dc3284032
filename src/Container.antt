-- ===== src/Container.antt =====
-- libcontainer: a file that is a table of extents of a device.
pub mod Map
pub mod Read
pub mod Open
pub mod Laws
use emile.Common.{
  ℕ, zero, suc, ◌+◌, ◌-◌, ◌*◌, ◌/◌, ◌%◌, ◌^◌, Bool, true, false, ◌&&◌, Option, none, some, List, [],
  ◌∷◌, ◌++◌, Bytes, ltb, leb, ◌==◌, if◌then◌else◌, length, take, drop,
}
use emile.Device.{Device}

-- `struct emile_block`
pub record EmileBlock : Type 0 where
  pub offset : ℕ
  pub count : ℕ

-- `struct emile_container`; the table is the memory behind `size`, up to its end.
pub record EmileContainer : Type 0 where
  pub size : ℕ
  pub blocks : List EmileBlock

-- `container_FILE`, less the device, which is a parameter of the operations.
pub record ContainerFile : Type 0 where
  pub offset : ℕ
  pub container : EmileContainer
  pub current_block : ℕ
  pub buffer : Bytes

-- `unsigned long` of the 32-bit targets
abbrev pub ulong : ℕ → ℕ
ulong n = n % 2 ^ 32

-- The loop of `seek_block` from one entry of the table on, at the running total `current`.
-- `none` is a read behind the table.
pub seek_from : ℕ → ℕ → ℕ → List EmileBlock → Option ℕ
seek_from block_size offset current [] = none
seek_from block_size offset current (b ∷ blocks) =
    let extent_size = block_size * b.count in
    if b.offset == 0
    then some 0
    else if leb current offset && ltb offset (ulong (current + extent_size))
    then some (ulong (b.offset + (offset - current) / block_size))
    else seek_from block_size offset (ulong (current + extent_size)) blocks

pub seek_block : Device → ContainerFile → Option ℕ
seek_block dev file = seek_from dev.blocksize file.offset 0 file.container.blocks

-- What a call of `container_read` comes to.
pub data ReadOutcome : Type 0 where
  -- the bytes stored through `ptr`, whose number is returned
  returned : Bytes → ContainerFile → ReadOutcome
  -- a return of -1
  failed : ContainerFile → ReadOutcome
  -- the call of `error`, which does not return
  bug : ReadOutcome
  -- the table of extents was read behind its end
  overrun : ReadOutcome
  out_of_fuel : ReadOutcome

-- The buffer after the `if (block_nb != file->current_block)`; `none` if the read fails.
pub load_block : Device → ContainerFile → ℕ → Option ContainerFile
load_block dev file block_nb =
    if block_nb == file.current_block
    then some file
    else elim (dev.read_sector block_nb dev.blocksize) [
      | none ↦ none
      | some got ↦ some (record file { current_block = block_nb; buffer = got })
    ]

-- `part` of the loop body
pub part_size : ℕ → ℕ → ℕ → ℕ
part_size block_size block_offset size =
    let part = block_size - block_offset in if ltb size part then size else part

-- The rest of the loop body once the block is in the buffer: what is copied, and the file.
pub copy_part : ℕ → ContainerFile → ℕ → Bytes × ContainerFile
copy_part block_size file size =
    let block_offset = file.offset % block_size in
    let part = part_size block_size block_offset size in
    (take part (drop block_offset file.buffer), record file { offset = ulong (file.offset + part) })

-- `while (size != 0)`, with the bytes stored so far.
pub read_loop : Device → ℕ → ContainerFile → ℕ → Bytes → ReadOutcome
read_loop dev zero file size done = out_of_fuel
read_loop dev (suc fuel) file size done = elim (size == 0) [
  | true ↦ returned done file
  | false ↦ elim (leb file.container.size file.offset) [
    | true ↦ returned done file
    | false ↦ elim (seek_block dev file) [
      | none ↦ overrun
      | some block_nb ↦ elim (block_nb == 0) [
        | true ↦ bug
        | false ↦ elim (load_block dev file block_nb) [
          | none ↦ failed file
          | some loaded ↦
              let part = part_size dev.blocksize (file.offset % dev.blocksize) size in
              let copied = copy_part dev.blocksize loaded size in
              read_loop dev fuel copied.1 (size - part) (done ++ copied.0)
        ]
      ]
    ]
  ]
]

-- `container_read`. Each round copies a byte or more, so `size + 1` rounds are enough.
unfoldable pub container_read : Device → ContainerFile → ℕ → ReadOutcome
unfolding read_loop seek_block seek_from load_block part_size copy_part
container_read dev file size = read_loop dev (suc size) file size []

-- ===== src/Ext2.antt =====
-- libext2: the block cache, the block map of an inode, and reading and seeking in a file.
pub mod Address
pub mod Read
pub mod Seek
pub mod Directory
pub mod Open
pub mod Mount
use emile.Common.{
  ℕ, zero, suc, ◌+◌, ◌-◌, ◌*◌, ◌/◌, ◌%◌, ◌^◌, Bool, true, false, Option, none, some, List, [], ◌∷◌,
  ◌++◌, Bytes, ltb, leb, ◌==◌, if◌then◌else◌, take, drop, get_or, length,
}
use emile.Common.Int.{ℤ, pos, negsuc, ◌+ℤ◌, word32, signed32}
use emile.Device.{Device, Whence, seek_set, seek_cur, seek_end}

-- What <linux/ext2_fs.h> says of a super block: EXT2_BLOCK_SIZE, EXT2_ADDR_PER_BLOCK,
-- EXT2_NDIR_BLOCKS, EXT2_IND_BLOCK and EXT2_DIND_BLOCK.
pub record Layout : Type 0 where
  pub block_size : ℕ
  pub addr_per_block : ℕ
  pub ndir_blocks : ℕ
  pub ind_block : ℕ
  pub dind_block : ℕ

-- `ext2_VOLUME`, less the device and the super block.
pub record Volume : Type 0 where
  pub current : ℕ
  pub buffer : Bytes

-- The fields of `struct ext2_inode` that opening and reading use.
pub record Inode : Type 0 where
  pub i_mode : ℕ
  pub i_size : ℕ
  pub i_block : List ℕ

-- `ext2_FILE`, less the volume.
pub record Ext2File : Type 0 where
  pub inode : Inode
  pub offset : ℕ

-- The number of the device block where a block of the file system begins, as an `unsigned int`.
abbrev pub sector_of : Device → Layout → ℕ → ℕ
sector_of dev layout fsblock = fsblock * (layout.block_size / dev.blocksize) % 2 ^ 32

-- `ext2_read_block`. The result of `read_sector` is not looked at.
pub ext2_read_block : Device → Layout → Volume → ℕ → Volume
ext2_read_block dev layout volume fsblock =
    if fsblock == volume.current
    then volume
    else elim (dev.read_sector (sector_of dev layout fsblock) layout.block_size) [
      | none ↦ record volume { current = fsblock }
      | some got ↦ record { current = fsblock; buffer = got }
    ]

-- `__le32_to_cpu(((unsigned int *)buffer)[index])`
abbrev pub le32_at : Bytes → ℕ → ℕ
le32_at buffer index =
    get_or buffer (4 * index) 0
    + 2 ^ 8 * get_or buffer (4 * index + 1) 0
    + 2 ^ 16 * get_or buffer (4 * index + 2) 0
    + 2 ^ 24 * get_or buffer (4 * index + 3) 0

-- A block is read, and an address in it.
pub read_entry : Device → Layout → Volume → ℕ → ℕ → Volume × ℕ
read_entry dev layout volume fsblock index =
    let volume' = ext2_read_block dev layout volume fsblock in
    (volume', le32_at volume'.buffer index)

abbrev pub square : Layout → ℕ
square layout = layout.addr_per_block * layout.addr_per_block % 2 ^ 32

-- "double indirect", for the rest `logical`
pub double_indirect : Device → Layout → Volume → Inode → ℕ → Volume × ℕ
double_indirect dev layout volume inode logical =
    let (v1, physical) =
      read_entry dev layout volume (get_or inode.i_block layout.dind_block 0)
        (logical / layout.addr_per_block) in
    read_entry dev layout v1 physical (logical % layout.addr_per_block)

-- "triple indirect", for the rest `logical`
pub triple_indirect : Device → Layout → Volume → Inode → ℕ → Volume × ℕ
triple_indirect dev layout volume inode logical =
    let (v1, first) =
      read_entry dev layout volume (get_or inode.i_block layout.dind_block 0)
        (logical / square layout) in
    let rest = logical % square layout in
    let (v2, second) = read_entry dev layout v1 first (rest / layout.addr_per_block) in
    read_entry dev layout v2 second (rest % layout.addr_per_block)

pub ext2_get_block_addr : Device → Layout → Volume → Inode → ℕ → Volume × ℕ
ext2_get_block_addr dev layout volume inode logical =
    if ltb logical layout.ndir_blocks
    then (volume, get_or inode.i_block logical 0)
    else if ltb (logical - layout.ndir_blocks) layout.addr_per_block
    then read_entry dev layout volume (get_or inode.i_block layout.ind_block 0)
        (logical - layout.ndir_blocks)
    else if ltb (logical - layout.ndir_blocks - layout.addr_per_block) (square layout)
    then double_indirect dev layout volume inode
        (logical - layout.ndir_blocks - layout.addr_per_block)
    else triple_indirect dev layout volume inode
        (logical - layout.ndir_blocks - layout.addr_per_block - square layout)

-- Block `logical` of the file in the buffer.
pub read_logical : Device → Layout → Volume → Inode → ℕ → Volume
read_logical dev layout volume inode logical =
    let (v, physical) = ext2_get_block_addr dev layout volume inode logical in
    ext2_read_block dev layout v physical

-- `while (length)`, with the bytes stored so far; `none` if the fuel runs out.
pub read_blocks : Device → Layout → ℕ → Volume → Inode → ℕ → ℕ → Bytes → Option (Bytes × Volume)
read_blocks dev layout zero volume inode logical length done = none
read_blocks dev layout (suc fuel) volume inode logical length done = elim (length == 0) [
  | true ↦ some (done, volume)
  | false ↦
      let v = read_logical dev layout volume inode logical in
      elim (ltb length layout.block_size) [
        | true ↦ some (done ++ take length v.buffer, v)
        | false ↦
            read_blocks dev layout fuel v inode (logical + 1) (length - layout.block_size)
              (done ++ take layout.block_size v.buffer)
      ]
]

-- What `ext2_read_data` comes to: a return of -1, or the bytes stored, whose number it returns; an
-- offset that is negative as an `int` leads in front of the buffer.
pub data ReadOutcome : Type 0 where
  failed : ReadOutcome
  returned : Bytes → Volume → ReadOutcome
  negative : ReadOutcome
  out_of_fuel : ReadOutcome

abbrev pub outcome : Option (Bytes × Volume) → ReadOutcome
outcome none = out_of_fuel
outcome (some (bytes, volume)) = returned bytes volume

-- From the cut of `length` at the end of the file on.
pub read_range : Device → Layout → Volume → Inode → ℕ → ℕ → ReadOutcome
read_range dev layout volume inode offset length =
    let logical = offset / layout.block_size in
    let shift = offset % layout.block_size in
    if shift == 0
    then outcome (read_blocks dev layout (suc length) volume inode logical length [])
    else (let v = read_logical dev layout volume inode logical in
        let rest = layout.block_size - shift in
        if ltb length rest
        then returned (take length (drop shift v.buffer)) v
        else outcome (
            read_blocks dev layout (suc length) v inode (logical + 1) (length - rest)
              (take rest (drop shift v.buffer))))

unfoldable pub ext2_read_data : Device → Layout → Volume → Inode → ℕ → ℕ → ReadOutcome
unfolding read_range read_blocks read_logical ext2_get_block_addr triple_indirect double_indirect
    read_entry ext2_read_block
ext2_read_data dev layout volume inode offset length =
    if leb inode.i_size offset
    then failed
    else if leb (2 ^ 31) offset
    then negative
    else read_range dev layout volume inode offset
        (if leb inode.i_size ((offset + length) % 2 ^ 32) then inode.i_size - offset else length)

-- The end of `ext2_read`.
abbrev pub advance : Ext2File → ReadOutcome → Option (Bytes × Volume × Ext2File)
advance file failed = none
advance file (returned bytes v) =
    some (bytes, v, record file { offset = file.offset + length bytes })
advance file negative = none
advance file out_of_fuel = none

-- `ext2_read`: the bytes stored, whose number it returns, and the file; `none` where it returns -1
-- or the read has no outcome.
unfoldable pub ext2_read :
    Device → Layout → Volume → Ext2File → ℕ → Option (Bytes × Volume × Ext2File)
unfolding ext2_read_data
ext2_read dev layout volume file count =
    advance file (ext2_read_data dev layout volume file.inode file.offset count)

unfoldable pub seek_to : Ext2File → ℤ → ℤ × Ext2File
seek_to file (negsuc n) = (negsuc 0, file)
seek_to file (pos n) =
    if ltb file.inode.i_size n then (negsuc 0, file) else (pos n, record file { offset = n })

unfoldable pub ext2_lseek : Ext2File → ℤ → Whence → ℤ × Ext2File
unfolding seek_to
ext2_lseek file offset seek_set = seek_to file (signed32 (word32 offset))
ext2_lseek file offset seek_cur = seek_to file (signed32 (word32 (pos file.offset +ℤ offset)))
ext2_lseek file offset seek_end = seek_to file (signed32 (word32 (pos file.inode.i_size +ℤ offset)))

-- ===== src/Ext2/Mount.antt =====
-- libext2: the super block, mounting (ext2_mount.c) and the test for a file system (ext2_init.c).
use emile.Common.{
  ℕ, ◌*◌, ◌-◌, ◌^◌, ◌<◌, ◌≡◌, refl, Bool, true, not, Option, none, some, List, Bytes, arith, ◌==◌,
  if◌then◌else◌, min,
}
use emile.Common.Slice.{slice}
use emile.Device.{Device}
use emile.Ext2.{Layout, Volume, ext2_read_block}
use emile.Ext2.Address.{Readable, reads_at, IsVolume, IsLayout}
use emile.Iso.Directory.Walk.{spell, AreComponents}
use emile.Ext2.Directory.{Format, Entry, le32_in, le16_in}
use emile.Ext2.Directory.Path.{resolve, Passes}
use emile.Ext2.Open.{opened, ext2_open}
use emile.Ext2.Open.Found.{file_at}
use emile.Ext2.Open.Files.{IsFile, Reads, ext2_open-ext2_read}

-- The fields of a super block that the macros of <linux/ext2_fs.h> and the code read
pub record Super : Type 0 where
  pub s_first_data_block : ℕ
  pub s_log_block_size : ℕ
  pub s_inodes_per_group : ℕ
  pub s_magic : ℕ
  pub s_rev_level : ℕ
  pub s_inode_size : ℕ

-- What that header says: the size of the structure, the places of its fields, EXT2_SUPER_MAGIC,
-- and what its macros make of a super block.
pub record Header : Type 0 where
  pub super_size : ℕ
  pub first_data_block_place : ℕ
  pub log_block_size_place : ℕ
  pub inodes_per_group_place : ℕ
  pub magic_place : ℕ
  pub rev_level_place : ℕ
  pub inode_size_place : ℕ
  pub super_magic : ℕ
  pub layout_of : Super → Layout
  pub format_of : Super → Format

abbrev pub super_of : Header → Bytes → Super
super_of header bytes = record {
  s_first_data_block = le32_in bytes header.first_data_block_place;
  s_log_block_size = le32_in bytes header.log_block_size_place;
  s_inodes_per_group = le32_in bytes header.inodes_per_group_place;
  s_magic = le16_in bytes header.magic_place;
  s_rev_level = le32_in bytes header.rev_level_place;
  s_inode_size = le16_in bytes header.inode_size_place;
}

-- `ext2_get_super`. The result of `read_sector` is not looked at, so that a failed read leaves the
-- bytes that were there.
unfoldable pub ext2_get_super : Device → Header → Bytes → Super
ext2_get_super dev header old = elim (dev.read_sector 2 header.super_size) [
  | none ↦ super_of header old
  | some bytes ↦ super_of header bytes
]

unfoldable pub is_ext2 : Device → Header → Bytes → Bool
unfolding ext2_get_super
is_ext2 dev header old = (ext2_get_super dev header old).s_magic == header.super_magic

-- Which of the three calls of `malloc` have memory
pub record Memory : Type 0 where
  pub for_super : Bool
  pub for_buffer : Bool
  pub for_volume : Bool

-- `ext2_mount`: the super block and the volume. The arguments `old` and `old_buffer` are what the
-- new memory holds. A `current` of -1 is no block.
unfoldable pub ext2_mount : Device → Header → Memory → Bytes → Bytes → Option (Super × Volume)
unfolding ext2_get_super ext2_read_block
ext2_mount dev header memory old old_buffer =
    let super = ext2_get_super dev header old in
    if not memory.for_super
    then none
    else if not (super.s_magic == header.super_magic)
    then none
    else if not memory.for_buffer
    then none
    else if not memory.for_volume
    then none
    else some (
      super,
      ext2_read_block dev (header.layout_of super)
          (record { current = 2 ^ 32 - 1; buffer = old_buffer }) 0,
    )

module _ (dev : Device) (disk : ℕ → ℕ) (header : Header) where
  -- A device with the super block in its sector 2, and block 0 of the file system on it
  abbrev pub IsDevice : Bytes → Type 0
  IsDevice bytes =
      (dev.read_sector 2 header.super_size ≡ some bytes)
      × ((super_of header bytes).s_magic ≡ header.super_magic)
      × Readable dev disk (header.layout_of (super_of header bytes)) 0

  abbrev pub all_memory : Memory
  all_memory = record { for_super = true; for_buffer = true; for_volume = true }

  -- Mounting, opening a path and reading from the begin of the file deliver its first bytes.
  abbrev pub Delivers : Bytes → Bytes → Bytes → Bytes → Bytes → Bytes → ℕ → ℕ → Type 0
  Delivers bytes old old_buffer first second path ino count =
      let super = super_of header bytes in
      let layout = header.layout_of super in
      let format = header.format_of super in
      let size = (file_at dev disk layout format ino).inode.i_size in
      (volume : Volume) × (ext2_mount dev header all_memory old old_buffer ≡ some (super, volume))
      × ((v : Volume) × (ext2_open dev layout format true true first second volume path
            ≡ opened (file_at dev disk layout format ino) v)
          × Reads dev disk layout format v ino count (min count size) (min count size))

  ext2_mount-IsVolume :
      (bytes old old_buffer : Bytes)
      → IsDevice bytes
      → (v : Volume) × (ext2_mount dev header all_memory old old_buffer
          ≡ some (super_of header bytes, v))
        × IsVolume disk (header.layout_of (super_of header bytes)) v
  unfolding ext2_mount ext2_get_super ext2_read_block
  ext2_mount-IsVolume bytes old old_buffer (got, magic, r) =
      let super = super_of header bytes in
      let same : super.s_magic == header.super_magic ≡ true = ground arith in
      (
        record {
          current = 0;
          buffer =
              slice disk (0 * (header.layout_of super).block_size)
                (header.layout_of super).block_size;
        },
        rw (ext2_mount, ext2_get_super, got, same, reads_at dev disk (header.layout_of super) 0 r)
            refl,
        record { cached = refl },
      )

  -- Mounting a device, opening a path on it and reading from the begin of the file deliver the first
  -- bytes of the file that the path leads to, as many as are asked for and it has, and advance the
  -- offset by their number. It holds where `malloc` has memory, for a device that delivers a super
  -- block with the magic number in sector 2 and block 0, blocks that are not empty and have at least
  -- four bytes an address, with a square of the addresses below 2 ^ 32, components that are not empty
  -- and set apart by slashes, directories on the way as for `ext2_seek_name`, a file that is no
  -- symbolic link, has from 1 to less than 2 ^ 31 bytes and no block behind the triple indirect one,
  -- and whose inode and blocks the device delivers, whose own blocks divide those of the file system,
  -- with numbers below 2 ^ 32, and a count below 2 ^ 32.
  pub ext2_mount-ext2_open-ext2_read :
      (bytes old old_buffer first second : Bytes) (tree : ℕ → List Entry)
      (components : List (ℕ × Bytes)) (n ino count : ℕ)
      → IsDevice bytes
      → IsLayout (header.layout_of (super_of header bytes))
      → 0 < (header.layout_of (super_of header bytes)).block_size
      → AreComponents components
      → Passes dev disk
          (header.layout_of (super_of header bytes))
          (header.format_of (super_of header bytes))
          tree
          (header.format_of (super_of header bytes)).root_ino
          components
      → resolve tree (header.format_of (super_of header bytes)).root_ino components ≡ some ino
      → IsFile dev disk
          (header.layout_of (super_of header bytes))
          (header.format_of (super_of header bytes))
          ino
      → count < 2 ^ 32
      → Delivers bytes old old_buffer first second (spell components n) ino count
  ext2_mount-ext2_open-ext2_read bytes old old_buffer first second tree components n ino count
        device is_layout some_bytes are p e file sum =
      let super = super_of header bytes in
      let (volume, mounts, h) = ext2_mount-IsVolume bytes old old_buffer device in
      let (v, opens, reads) =
        ext2_open-ext2_read dev disk (header.layout_of super) (header.format_of super) tree volume
          first second components n ino count is_layout some_bytes are p e file h sum in
      (volume, mounts, (v, opens, reads))

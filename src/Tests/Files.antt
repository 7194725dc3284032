-- ===== src/Tests/Files.antt =====
-- A file of the ext2 file system.
use emile.Common.{
  ℕ, zero, suc, ◌+◌, ◌-◌, ◌*◌, ◌<◌, ◌≡◌, refl, some, [], ◌∷◌, Bytes, arith, ltb, if◌then◌else◌,
  get_or, min, none, ◌≤◌,
}
use emile.Common.Int.{pos, negsuc}
use emile.Common.Slice.{slice}
use emile.Device.{Device, seek_end}
use emile.Ext2.{Layout, Volume, Inode, Ext2File, ext2_get_block_addr, ext2_read, ext2_lseek}
use emile.Ext2.Address.{
  walk, root_of, path_of, IsLocated, IsVolume, IsLayout, ext2_get_block_addr-walk,
}
use emile.Ext2.Read.{file_bytes, ext2_read-bytes}
use emile.Ext2.Seek.{Seeks, ext2_lseek-Seeks}

-- Blocks of 8 bytes, which hold two addresses: block 3 those of 11 and 12, block 4 those of 5 and 6,
-- block 5 those of 7 and 8.
abbrev addresses : Bytes
addresses =
    11 ∷ 0 ∷ 0 ∷ 0 ∷ 12 ∷ 0 ∷ 0 ∷ 0 ∷ 5 ∷ 0 ∷ 0 ∷ 0 ∷ 6 ∷ 0 ∷ 0 ∷ 0 ∷ 7 ∷ 0 ∷ 0 ∷ 0 ∷ 8 ∷ 0 ∷ 0 ∷ 0
    ∷ []

abbrev disk : ℕ → ℕ
disk p = if ltb p 24 then 0 else get_or addresses (p - 24) p

abbrev disk_device : Device
disk_device = record { blocksize = 4; read_sector = λ sector n. some (slice disk (sector * 4) n) }

abbrev layout : Layout
layout = record {
  block_size = 8;
  addr_per_block = 2;
  ndir_blocks = 1;
  ind_block = 1;
  dind_block = 2;
}

abbrev volume : Volume
volume = record { current = 9; buffer = slice disk 72 8 }

abbrev inode : Inode
inode = record { i_mode = 0; i_size = 20; i_block = 10 ∷ 3 ∷ 4 ∷ [] }

abbrev file : Ext2File
file = record { inode = inode; offset = 6 }

layout-IsLayout : IsLayout layout
layout-IsLayout = record {
  words = omega arith;
  square_fits = omega arith;
  some_addresses = omega arith;
}

volume-IsVolume : IsVolume disk layout volume
volume-IsVolume = record { cached = refl }

-- The end of block 10, block 11, and the begin of block 12.
read_runs :
    ext2_read disk_device layout volume file 100
    ≡ some (
      86 ∷ 87 ∷ 88 ∷ 89 ∷ 90 ∷ 91 ∷ 92 ∷ 93 ∷ 94 ∷ 95 ∷ 96 ∷ 97 ∷ 98 ∷ 99 ∷ [],
      record { current = 12; buffer = slice disk 96 8 },
      record file { offset = 20 },
    )
unfolding ext2_read
read_runs = refl

ext2_get_block_addr_example :
    (v : Volume) × (ext2_get_block_addr disk_device layout volume inode 3
      ≡ (v, walk disk layout (root_of layout inode 3) (path_of layout 3)))
    × IsVolume disk layout v
ext2_get_block_addr_example =
    ext2_get_block_addr-walk disk_device disk layout layout-IsLayout volume inode 3 volume-IsVolume
      (
        omega arith,
        (
          record {
            scale = 2;
            some_bytes = omega arith;
            scaled = refl;
            fits = omega arith;
            reads = refl;
          },
          omega arith,
          (
            record {
              scale = 2;
              some_bytes = omega arith;
              scaled = refl;
              fits = omega arith;
              reads = refl;
            },
            omega arith,
            record {
              scale = 2;
              some_bytes = omega arith;
              scaled = refl;
              fits = omega arith;
              reads = refl;
            },
          ),
        ),
      )

inode_mapped : (l : ℕ) → l * 8 < 20 → IsLocated disk_device disk layout inode l
inode_mapped zero lt = (
  omega arith,
  record { scale = 2; some_bytes = omega arith; scaled = refl; fits = omega arith; reads = refl },
)
inode_mapped (suc zero) lt = (
  omega arith,
  (
    record { scale = 2; some_bytes = omega arith; scaled = refl; fits = omega arith; reads = refl },
    omega arith,
    record { scale = 2; some_bytes = omega arith; scaled = refl; fits = omega arith; reads = refl },
  ),
)
inode_mapped (suc (suc zero)) lt = (
  omega arith,
  (
    record { scale = 2; some_bytes = omega arith; scaled = refl; fits = omega arith; reads = refl },
    omega arith,
    record { scale = 2; some_bytes = omega arith; scaled = refl; fits = omega arith; reads = refl },
  ),
)
inode_mapped (suc (suc (suc l))) lt = absurd (omega arith)

ext2_read_example :
    (20 ≤ 6 → ext2_read disk_device layout volume file 100 ≡ none)
    × (6 < 20
        → (v : Volume) × (ext2_read disk_device layout volume file 100
            ≡ some (
              file_bytes disk layout file (min 100 (20 - 6)),
              v,
              record file { offset = 6 + min 100 (20 - 6) },
            ))
          × IsVolume disk layout v)
ext2_read_example =
    ext2_read-bytes disk_device disk layout volume file 100 layout-IsLayout (omega arith)
      (omega arith) (omega arith) volume-IsVolume inode_mapped

ext2_lseek_example : Seeks file (pos 19) (ext2_lseek file (negsuc 0) seek_end)
ext2_lseek_example = ext2_lseek-Seeks file (negsuc 0) seek_end (omega arith)

-- ===== src/Tests/Trees.antt =====
-- Paths in a tree of directories on an ext2 file system.
mod Disk
use mathlib.Core.Path.{subst}
use emile.Common.{
  ℕ, zero, suc, ◌+◌, ◌*◌, ◌<◌, ◌≡◌, refl, sym, ◌∙◌, some, none, List, [], ◌∷◌, ◌++◌, Bytes, arith,
  ◌==◌, if◌then◌else◌, get_or, true,
}
use emile.Common.Slice.{slice}
use emile.Device.{Device}
use emile.Ext2.{Layout, Volume, Inode, ext2_read_data}
use emile.Ext2.Address.{Walkable, root_of, path_of, IsLocated, Readable, IsLayout}
use emile.Iso.Directory.Walk.{spell}
use emile.Ext2.Directory.{Format, Entry, inode_of, entry_of, found, ext2_seek_name}
use emile.Ext2.Directory.Search.{lookup, IsName, Lists, IsDirectory}
use emile.Ext2.Directory.Path.{resolve, Passes, Resolves, inode_at, ext2_seek_name-resolve}
use emile.Ext2.Open.{opened, c_text, ext2_open, Ext2Dir, ext2_opendir}
use emile.Ext2.Open.Found.{IsInode, Opens, file_at}
use emile.Ext2.Open.Files.{IsFile, ext2_open-link}
use emile.Ext2.Open.Listing.{read_all, ext2_opendir-ext2_readdir}
use emile.Ext2.Mount.{Header, Delivers, ext2_mount-ext2_open-ext2_read}
use emile.Tests.Trees.Disk.{
  layout, format, long, a_record, disk, disk_device, volume, tree, mapped, layout-IsLayout,
  root-Lists, sub-Lists, root-IsDirectory, sub-IsDirectory, IsInode-3, IsInode-4, IsInode-5,
  d-Passes,
}

-- The path /d//f; the end of a record before is left behind the last one.
abbrev path : List (ℕ × Bytes)
path = (1, b'd' ∷ []) ∷ (2, b'f' ∷ []) ∷ []

path_found :
    ext2_seek_name disk_device layout format volume [] (spell path 0)
    ≡ found 4 [] (a_record 4 b'f' ++ long 5) (record { current = 7; buffer = slice disk 224 32 })
unfolding ext2_seek_name ext2_read_data
path_found = refl

ext2_seek_name_example :
    Resolves disk_device disk layout format
      (ext2_seek_name disk_device layout format volume [] (spell path 0))
      (resolve tree 2 path)
ext2_seek_name_example =
    ext2_seek_name-resolve disk_device disk layout format tree volume [] path 0
      (omega arith, (refl, tt), (omega arith, omega arith, (refl, tt), tt))
      (d-Passes 2 b'f' (refl, refl, tt)) (record { cached = refl })

-- Opening the link /d/l opens the file, too.
link_opens :
    ext2_open disk_device layout format true true [] [] volume
      (spell ((1, b'd' ∷ []) ∷ (1, b'l' ∷ []) ∷ []) 0)
    ≡ opened
        (file_at disk_device disk layout format 4)
        (record { current = 4; buffer = slice disk 128 32 })
unfolding ext2_open ext2_read_data inode_of
link_opens = refl

abbrev link_path_components : List (ℕ × Bytes)
link_path_components = (1, b'd' ∷ []) ∷ (1, b'l' ∷ []) ∷ []

ext2_open-link_example :
    Opens disk_device disk layout format
      (ext2_open disk_device layout format true true [] [] volume (spell link_path_components 0))
      (resolve tree 2 ((1, b'd' ∷ []) ∷ (1 + 0, b'f' ∷ []) ∷ []))
unfolding resolve inode_of c_text
ext2_open-link_example =
    ext2_open-link disk_device disk layout format tree volume [] [] ((1, b'd' ∷ []) ∷ []) 0
      (b'l' ∷ []) 0 (b'f' ∷ []) [] 0 5 layout-IsLayout
      (omega arith, (refl, tt), (omega arith, omega arith, (refl, tt), tt)) (refl, tt)
      (d-Passes 1 b'l' (refl, refl, tt)) refl IsInode-5 refl refl (omega arith) (omega arith)
      (omega arith, (refl, tt), (omega arith, omega arith, (refl, tt), tt))
      (d-Passes 1 b'f' (refl, refl, tt)) IsInode-4 (record { cached = refl })

ext2_opendir-ext2_readdir_example :
    (dir : Ext2Dir) × (v : Volume) × (ext2_opendir disk_device layout format true true [] volume
        (b'd' ∷ [])
      ≡ opened dir v)
    × (read_all disk_device layout format 3 v dir [] ≡ some (tree 3))
unfolding resolve inode_of
ext2_opendir-ext2_readdir_example =
    ext2_opendir-ext2_readdir disk_device disk layout format tree volume [] [] ((0, b'd' ∷ []) ∷ [])
      0 3 layout-IsLayout (omega arith, (refl, tt), tt)
      (
        omega arith,
        omega arith,
        record {
          scale = 2;
          some_bytes = omega arith;
          scaled = refl;
          fits = omega arith;
          reads = refl;
        },
        record {
          scale = 2;
          some_bytes = omega arith;
          scaled = refl;
          fits = omega arith;
          reads = refl;
        },
        root-IsDirectory,
        root-Lists,
        (refl, refl, tt),
        λ e h. tt,
      )
      refl IsInode-3 refl sub-IsDirectory sub-Lists (record { cached = refl })

abbrev header : Header
header = record {
  super_size = 32;
  first_data_block_place = 0;
  log_block_size_place = 4;
  inodes_per_group_place = 8;
  magic_place = 12;
  rev_level_place = 16;
  inode_size_place = 20;
  super_magic = 83;
  layout_of = λ super. layout;
  format_of = λ super. record format {
    first_data_block = super.s_first_data_block;
    inodes_per_group = super.s_inodes_per_group;
    inode_size = super.s_inode_size;
  };
}

abbrev super_bytes : Bytes
super_bytes = slice disk 32 32

IsFile-4 : IsFile disk_device disk layout format 4
unfolding inode_of
IsFile-4 = record {
  inode = IsInode-4;
  plain = refl;
  ints = omega arith;
  some_size = omega arith;
  mapped = mapped (inode_at disk_device disk layout format 3) (omega arith) (record {
    scale = 2;
    some_bytes = omega arith;
    scaled = refl;
    fits = omega arith;
    reads = refl;
  });
}

ext2_mount-ext2_open-ext2_read_example :
    Delivers disk_device disk header super_bytes [] [] [] [] (spell path 0) 4 3
unfolding resolve
ext2_mount-ext2_open-ext2_read_example =
    ext2_mount-ext2_open-ext2_read disk_device disk header super_bytes [] [] [] [] tree path 0 4 3
      (
        refl,
        refl,
        record {
          scale = 2;
          some_bytes = omega arith;
          scaled = refl;
          fits = omega arith;
          reads = refl;
        },
      )
      layout-IsLayout (omega arith)
      (omega arith, (refl, tt), (omega arith, omega arith, (refl, tt), tt))
      (d-Passes 2 b'f' (refl, refl, tt)) refl IsFile-4 (omega arith)
